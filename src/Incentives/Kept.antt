-- ===== src/Incentives/Kept.antt =====
-- What claiming rewards and saving a pool leave alone: the LP tokens of the pools and the positions.
use astroport_core.Common.{
  ℕ, Bool, true, false, Option, none, some, List, [], ◌∷◌, ◌++◌, ◌==◌, if◌then◌else◌, ◌/◌, ◌≡◌,
  refl, Bool-cases, inl, inr, ap, ◌∙◌,
}
use astroport_core.Cosmwasm.{
  Result, ok, Math, StdError, conversion_overflow, generic_err, ◌>>=◌, or_err, or_panic, map_err,
  fractional,
}
use astroport_core.Cosmwasm.Inversion.{map_err-ok}
use astroport_core.Cosmwasm.Outcome.{Gives, bind-Gives, of-Gives, Gives-map}
use astroport_core.Asset.{Addr, AssetInfo, equal}
use astroport_core.Incentives.Types.{std, asset_info, RewardType, RewardInfo, PoolInfo, Schedules}
use astroport_core.Incentives.Accrual.{
  collect, distribute, update_reward, update_each, retain, update_rewards,
}
use astroport_core.Incentives.Storage.{
  Store, Iteration, Config, orphaned_of, put_orphan, add_orphan, save_claims, save_finished,
  save_groups, save, register_pending_transfer,
}
use astroport_core.Incentives.Rewards.{Gathered, send_each, aggregate, pay_rewards}

pub of_map_err :
    {E F A : Type 0} (P : A → Type 0) (f : E → F) (r : Result E A) (a : A)
    → Gives P r
    → map_err f r ≡ ok a
    → P a
of_map_err P f r a h is = of-Gives P r a h (map_err-ok f r is)

module _ (m : Math) (block_ts : ℕ) (schedules : Schedules) where
  update_reward-total_lp :
      (passed : ℕ) (pool : PoolInfo) (r : RewardInfo)
      → Gives (λ x. x.1.total_lp ≡ pool.total_lp) (update_reward m block_ts schedules passed pool r)
  unfolding update_reward
  update_reward-total_lp passed pool r =
      bind-Gives _ (collect m block_ts pool.last_update_ts schedules passed r) _ λ c _.
        bind-Gives _
          (distribute m pool.total_lp c.collected c.updated pool.orphaned_rewards_to_claim) _
          λ x _. refl

  update_each-total_lp :
      (passed : ℕ) (pool : PoolInfo) (rewards : List RewardInfo)
      → Gives
          (λ x. x.1.total_lp ≡ pool.total_lp)
          (update_each m block_ts schedules passed pool rewards)
  unfolding update_each
  update_each-total_lp passed pool [] = refl
  update_each-total_lp passed pool (r ∷ rest) =
      bind-Gives _ (update_reward m block_ts schedules passed pool r) _ λ x one.
        bind-Gives _ (update_each m block_ts schedules passed x.1 rest) _ λ y more.
          of-Gives (λ y. y.1.total_lp ≡ x.1.total_lp) _ y (update_each-total_lp passed x.1 rest)
            more
          ∙ of-Gives (λ x. x.1.total_lp ≡ pool.total_lp) _ x (update_reward-total_lp passed pool r)
              one

  pub update_rewards-total_lp :
      (pool : PoolInfo)
      → Gives (λ p. p.total_lp ≡ pool.total_lp) (update_rewards m block_ts schedules pool)
  unfolding update_rewards
  update_rewards-total_lp pool = by_test (m.saturating_sub block_ts pool.last_update_ts == 0)
    where
      by_test :
          (t : Bool)
          → Gives
              (λ p. p.total_lp ≡ pool.total_lp)
              (elim t [
                | true ↦ ok pool
                | false ↦ do
                  (rewards, pool') ←
                      update_each m block_ts schedules
                        (m.saturating_sub block_ts pool.last_update_ts)
                        pool
                        pool.rewards
                  ok (record pool' {
                    rewards = retain pool'.rewards_to_remove rewards;
                    last_update_ts = block_ts;
                  })
              ])
      by_test true = refl
      by_test false =
          bind-Gives _
            (update_each m block_ts schedules (m.saturating_sub block_ts pool.last_update_ts) pool
              pool.rewards)
            _
            λ x made.
              of-Gives (λ x. x.1.total_lp ≡ pool.total_lp) _ x
                (update_each-total_lp (m.saturating_sub block_ts pool.last_update_ts) pool
                  pool.rewards)
                made

-- The LP tokens of a pool, none where there is no pool.
abbrev pub total_of : Option PoolInfo → ℕ
total_of none = 0
total_of (some pool) = pool.total_lp

-- The positions and the pools of one storage are those of the other.
abbrev pub SameStakes : Store → Store → Type 0
SameStakes store store' = (store'.positions ≡ store.positions) × (store'.pools ≡ store.pools)

pub SameStakes-trans : (s t u : Store) → SameStakes s t → SameStakes t u → SameStakes s u
SameStakes-trans s t u h k = (k.0 ∙ h.0, k.1 ∙ h.1)

module _ (m : Math) where
  add_orphan-SameStakes :
      (info : AssetInfo) (amount : ℕ) (store : Store)
      → Gives (SameStakes store) (add_orphan m info amount store)
  unfolding add_orphan put_orphan
  add_orphan-SameStakes info amount store =
      bind-Gives _ (or_err conversion_overflow (m.try_into 128 (amount / fractional))) _ λ a _.
        bind-Gives _ (or_panic (m.checked_add 128 (orphaned_of store info) a)) _ λ t _. (refl, refl)

  pub register-SameStakes :
      (info : AssetInfo) (amount : ℕ) (store : Store)
      → Gives (λ x. SameStakes store x.1) (register_pending_transfer m info amount store)
  unfolding register_pending_transfer
  register-SameStakes info amount store =
      bind-Gives _
        (or_err (std (generic_err "reply id counter overflow"))
          (m.checked_add 64 store.next_reply_id 1))
        _ λ bumped _. (refl, refl)

  then_Same :
      (store : Store) (first : Result StdError Store) (k : Store → Result StdError Store)
      → Gives (SameStakes store) first
      → ((s : Store) → Gives (SameStakes s) (k s))
      → Gives (SameStakes store) (first >>= k)
  then_Same store first k h g = bind-Gives _ first _ λ s is.
      Gives-map {Q = SameStakes store}
        (λ t same. SameStakes-trans store s t (of-Gives (SameStakes store) _ s h is) same) (k s)
        (g s)

  save_claims-SameStakes :
      (l : List (AssetInfo × ℕ)) (store : Store) → Gives (SameStakes store) (save_claims m l store)
  unfolding save_claims
  save_claims-SameStakes [] store = (refl, refl)
  save_claims-SameStakes ((info, amount) ∷ rest) store = elim (Bool-cases (amount == 0)) [
    | inl e ↦ rw (e, save_claims) (save_claims-SameStakes rest store)
    | inr e ↦
        rw (e, save_claims)
          (then_Same store (add_orphan m info amount store) (save_claims m rest)
            (add_orphan-SameStakes info amount store) (save_claims-SameStakes rest))
  ]

  save_finished-SameStakes :
      (lp : AssetInfo) (ts : ℕ) (group : List (AssetInfo × ℕ)) (store : Store)
      → SameStakes store (save_finished lp ts group store)
  unfolding save_finished
  save_finished-SameStakes lp ts [] store = (refl, refl)
  save_finished-SameStakes lp ts (x ∷ group) store = (refl, refl)

  save_groups-SameStakes :
      (lp : AssetInfo) (ts : ℕ) (group : List (AssetInfo × ℕ)) (l : List (RewardType × (ℕ × ℕ)))
      (store : Store)
      → Gives (SameStakes store) (save_groups m lp ts group l store)
  unfolding save_groups
  save_groups-SameStakes lp ts group [] store = save_finished-SameStakes lp ts group store
  save_groups-SameStakes lp ts group ((reward, (index, orphaned)) ∷ rest) store =
      elim (Bool-cases (orphaned == 0)) [
        | inl e ↦
            rw (e, save_groups)
              (save_groups-SameStakes lp ts (group ++ (asset_info reward, index) ∷ []) rest store)
        | inr e ↦
            rw (e, save_groups)
              (let before = save_finished lp ts group store in
                then_Same store (add_orphan m (asset_info reward) orphaned before)
                  (save_groups m lp ts [] rest)
                  (Gives-map {Q = SameStakes store}
                    (λ t same.
                      SameStakes-trans store before t (save_finished-SameStakes lp ts group store)
                        same)
                    _ (add_orphan-SameStakes (asset_info reward) orphaned before))
                  (save_groups-SameStakes lp ts [] rest))
      ]

-- A pool is saved with its LP tokens, and nothing else of the stakes changes.
abbrev pub Saves : AssetInfo → ℕ → Store → Store → Type 0
Saves lp total_lp store store' =
    (store'.positions ≡ store.positions)
    × ((a : AssetInfo)
        → total_of (store'.pools a) ≡ (if equal a lp then total_lp else total_of (store.pools a)))

module _ (m : Math) (order : Iteration) (lp : AssetInfo) (pool : PoolInfo) where
  pub save-Saves :
      (store : Store) → Gives (Saves lp pool.total_lp store) (save m order lp pool store)
  unfolding save
  save-Saves store =
      bind-Gives _ (save_claims m (order.of_orphaned pool.orphaned_rewards_to_claim) store) _
        λ s made.
          bind-Gives _
            (save_groups m lp pool.last_update_ts [] (order.of_removed pool.rewards_to_remove) s) _
            λ t grouped.
              let one =
                of-Gives (SameStakes store) _ s
                  (save_claims-SameStakes m (order.of_orphaned pool.orphaned_rewards_to_claim)
                    store)
                  made in
              let two =
                of-Gives (SameStakes s) _ t
                  (save_groups-SameStakes m lp pool.last_update_ts []
                    (order.of_removed pool.rewards_to_remove) s)
                  grouped in
              let same = SameStakes-trans store s t one two in
              (same.0, λ a. by_test a t same.1 (equal a lp))
    where
      by_test :
          (a : AssetInfo) (t : Store)
          → t.pools ≡ store.pools
          → (b : Bool)
          → total_of (
              if b
              then some (record pool { rewards_to_remove = []; orphaned_rewards_to_claim = [] })
              else t.pools a)
            ≡ (if b then pool.total_lp else total_of (store.pools a))
      by_test a t same true = refl
      by_test a t same false = ap (λ pools. total_of (pools a)) same

module _ (m : Math) (user : Addr) (gas_limit : Option ℕ) where
  send_each-SameStakes :
      (l : List (AssetInfo × ℕ)) (store : Store)
      → Gives (λ x. SameStakes store x.0) (send_each m user gas_limit l store)
  unfolding send_each
  send_each-SameStakes [] store = (refl, refl)
  send_each-SameStakes ((info, amount) ∷ rest) store =
      bind-Gives _ (register_pending_transfer m info amount store) _ λ x made.
        bind-Gives _ (send_each m user gas_limit rest x.1) _ λ y sent.
          SameStakes-trans store x.1 y.0
            (of-Gives (λ x. SameStakes store x.1) _ x (register-SameStakes m info amount store)
              made)
            (of-Gives (λ y. SameStakes x.1 y.0) _ y (send_each-SameStakes rest x.1) sent)

pub pay_rewards-SameStakes :
    (m : Math) (config : Config) (user : Addr) (gathered : Gathered) (store : Store)
    → Gives (λ x. SameStakes store x.0) (pay_rewards m config user gathered store)
unfolding pay_rewards
pay_rewards-SameStakes m config user (assets, protocol) store =
    bind-Gives _ (aggregate m assets) _ λ aggregated _.
      send_each-SameStakes m user config.token_transfer_gas_limit
        (aggregated ++ (if protocol == 0 then [] else (config.reward_token, protocol) ∷ [])) store
