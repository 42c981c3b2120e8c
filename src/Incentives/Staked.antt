-- ===== src/Incentives/Staked.antt =====
-- The LP tokens of a pool are those of its stakers, over deposits, withdrawals and claims
-- (contracts/tokenomics/incentives/src/execute.rs).
use astroport_core.Common.{
  ℕ, false, [], ◌++◌, ◌+◌, ◌-◌, ◌≡◌, refl, sym, ap, ◌∙◌, subst, arith, Bool-cases, inl, inr,
}
use astroport_core.Cosmwasm.{ok, exact, StdError, map_err, fits, sub?}
use astroport_core.Cosmwasm.Inversion.{or_panic_bind, ok-inj, fits-ok, sub?-ok}
use astroport_core.Cosmwasm.Outcome.{Gives, bind-Gives, of-Gives}
use astroport_core.Asset.{Addr, AssetInfo, equal}
use astroport_core.Asset.Equality.{equal_refl, eq_of_equal}
use astroport_core.Incentives.Types.{std, PoolInfo, UserInfo, Op, add, sub, noop}
use astroport_core.Incentives.Accrual.{update_rewards}
use astroport_core.Incentives.Positions.{
  apply_op, update_and_sync_position, calculate_rewards, reset_user_index,
}
use astroport_core.Incentives.Storage.{Store, Iteration}
use astroport_core.Incentives.Stakes.{
  position_of, put_position, drop_position, sum_amounts, amount_of, sum_amounts-put_position,
  sum_amounts-drop_position,
}
use astroport_core.Incentives.Rewards.{
  Claim, Gathered, claim_finished_rewards, not_zero, gather, claim_position, pay_rewards,
}
use astroport_core.Incentives.Kept.{
  of_map_err, update_rewards-total_lp, total_of, SameStakes, Saves, pay_rewards-SameStakes,
}
use astroport_core.Incentives.Staking.{save_position, remove_position, claim_and_change}

-- What an operation makes of an amount.
abbrev pub Applied : Op → ℕ → ℕ → Type 0
Applied (add n) a b = b ≡ a + n
Applied (sub n) a b = a ≡ b + n
Applied noop a b = b ≡ a

apply_op-Applied : (op : Op) (a b : ℕ) → apply_op exact op a ≡ ok b → Applied op a b
unfolding apply_op
apply_op-Applied (add n) a b h =
    let (_, h1) = fits-ok ok 128 (a + n) (or_panic_bind {E = StdError} (fits 128 (a + n)) ∙ h) in
    sym (ok-inj h1)
apply_op-Applied (sub n) a b h =
    let (le, h1) = sub?-ok ok a n (or_panic_bind {E = StdError} (sub? a n) ∙ h) in
    let is : a - n ≡ b = ok-inj h1 in omega (arith, le, is)
apply_op-Applied noop a b h = sym (ok-inj h)

-- Of a position and its pool, before and after.
abbrev pub Changed : Op → UserInfo → PoolInfo → UserInfo → PoolInfo → Type 0
Changed op user pool user' pool' =
    Applied op user.amount user'.amount × Applied op pool.total_lp pool'.total_lp

pub sync-Changed :
    (op : Op) (user : UserInfo) (pool : PoolInfo)
    → Gives (λ x. Changed op user pool x.0 x.1) (update_and_sync_position exact op user pool)
unfolding update_and_sync_position
sync-Changed op user pool = bind-Gives _ (apply_op exact op user.amount) _ λ a one.
    bind-Gives _ (apply_op exact op pool.total_lp) _
      λ t two. (apply_op-Applied op user.amount a one, apply_op-Applied op pool.total_lp t two)

-- A claim that was settled: its pool and its position keep their amounts.
abbrev pub Settled : Claim → Claim → Type 0
Settled claim claim' =
    (claim'.0 ≡ claim.0)
    × (claim'.1.0.total_lp ≡ claim.1.0.total_lp)
    × (claim'.1.1.amount ≡ claim.1.1.amount)

module _ (order : Iteration) (now : ℕ) (store : Store) where
  pub claim_position-Settled :
      (claim : Claim) (gathered : Gathered)
      → Gives (λ x. Settled claim x.0) (claim_position exact order now store claim gathered)
  unfolding claim_position reset_user_index
  claim_position-Settled (lp, (pool, user)) (assets, protocol) =
      bind-Gives _ (map_err std (update_rewards exact now (store.schedules lp) pool)) _
        λ updated first.
          bind-Gives _
            (map_err std (claim_finished_rewards exact order (store.finished lp) updated user)) _
            λ finished _.
              let reset = reset_user_index (store.finished lp) updated user in
              bind-Gives _ (map_err std (calculate_rewards exact updated.rewards reset)) _ λ due _.
                bind-Gives _ (gather exact due (assets ++ not_zero finished, protocol)) _
                  λ gathered _.
                    bind-Gives _ (map_err std (update_and_sync_position exact noop reset updated)) _
                      λ x last.
                        let changed =
                          of_map_err
                            (λ (y : UserInfo × PoolInfo). Changed noop reset updated y.0 y.1) std
                            (update_and_sync_position exact noop reset updated) x
                            (sync-Changed noop reset updated) last in
                        (
                          refl,
                          changed.1
                              ∙ of_map_err (λ (p : PoolInfo). p.total_lp ≡ pool.total_lp) std
                                  (update_rewards exact now (store.schedules lp) pool) updated
                                  (update_rewards-total_lp exact now (store.schedules lp) pool)
                                  first,
                          changed.0,
                        )

  pub claim_and_change-Changed :
      (op : Op) (user : Addr) (lp : AssetInfo) (pool : PoolInfo) (info : UserInfo)
      → Gives
          (λ x. Changed op info pool x.0.0 x.0.1 × SameStakes store x.1.0)
          (claim_and_change exact order now op user (lp, (pool, info)) store)
  unfolding claim_and_change
  claim_and_change-Changed op user lp pool info =
      bind-Gives _ (claim_position exact order now store (lp, (pool, info)) ([], 0)) _ λ x settled.
        bind-Gives _ (pay_rewards exact store.config user x.1 store) _ λ paid pays.
          bind-Gives _ (map_err std (update_and_sync_position exact op x.0.1.1 x.0.1.0)) _
            λ changed syncs.
              let same =
                of-Gives (λ y. Settled (lp, (pool, info)) y.0) _ x
                  (claim_position-Settled (lp, (pool, info)) ([], 0)) settled in
              let step =
                of_map_err (λ (y : UserInfo × PoolInfo). Changed op x.0.1.1 x.0.1.0 y.0 y.1) std
                  (update_and_sync_position exact op x.0.1.1 x.0.1.0) changed
                  (sync-Changed op x.0.1.1 x.0.1.0) syncs in
              (
                (
                  subst (λ n. Applied op n changed.0.amount) same.2 step.0,
                  subst (λ n. Applied op n changed.1.total_lp) same.1 step.1,
                ),
                of-Gives (λ y. SameStakes store y.0) _ paid
                    (pay_rewards-SameStakes exact store.config user x.1 store) pays,
              )

-- In every pool the stakers hold, together, what the pool counts.
abbrev pub IsBacked : Store → Type 0
IsBacked store = (lp : AssetInfo) → sum_amounts (store.positions lp) ≡ total_of (store.pools lp)

-- A pool and a position of it are saved, with amounts that changed alike.
module _ (store paid saved : Store) (lp : AssetInfo) (user : Addr) (total amount : ℕ)
    (backed : IsBacked store) (same : SameStakes store paid) (saves : Saves lp total paid saved)
    (alike : total + amount_of (position_of user (store.positions lp))
      ≡ total_of (store.pools lp) + amount) where
  kept : (a : AssetInfo) → saved.positions a ≡ store.positions a
  kept a = ap (λ p. p a) (saves.0 ∙ same.0)

  total_elsewhere :
      (a : AssetInfo) → equal a lp ≡ false → total_of (saved.pools a) ≡ total_of (store.pools a)
  total_elsewhere a e = saves.1 a ∙ rw e (ap (λ p. total_of (p a)) same.1)

  total_here : total_of (saved.pools lp) ≡ total
  total_here = saves.1 lp ∙ rw (equal_refl lp) refl

  pub save_position-IsBacked :
      (info : UserInfo) → info.amount ≡ amount → IsBacked (save_position lp user info saved)
  unfolding save_position
  save_position-IsBacked info is a = elim (Bool-cases (equal a lp)) [
    | inr e ↦ rw e (ap sum_amounts (kept a) ∙ backed a ∙ sym (total_elsewhere a e))
    | inl e ↦ rw e (
        subst
          (λ b. sum_amounts (put_position user info (saved.positions b)) ≡ total_of (saved.pools b))
          (sym (eq_of_equal a lp e))
          (ap (λ l. sum_amounts (put_position user info l)) (kept lp)
            ∙ omega (
              arith,
              sum_amounts-put_position user info (store.positions lp),
              backed lp,
              alike,
              total_here,
              is,
            )))
  ]

  pub remove_position-IsBacked : amount ≡ 0 → IsBacked (remove_position lp user saved)
  unfolding remove_position
  remove_position-IsBacked is a = elim (Bool-cases (equal a lp)) [
    | inr e ↦ rw e (ap sum_amounts (kept a) ∙ backed a ∙ sym (total_elsewhere a e))
    | inl e ↦ rw e (
        subst (λ b. sum_amounts (drop_position user (saved.positions b)) ≡ total_of (saved.pools b))
          (sym (eq_of_equal a lp e))
          (ap (λ l. sum_amounts (drop_position user l)) (kept lp)
            ∙ omega (
              arith,
              sum_amounts-drop_position user (store.positions lp),
              backed lp,
              alike,
              total_here,
              is,
            )))
  ]
