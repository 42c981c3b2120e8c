-- ===== src/Incentives/Untouched.antt =====
-- The calls of the owner, the factory and the funders leave the stakes alone.
use astroport_core.Common.{
  ℕ, Option, none, some, List, [], ◌∷◌, ◌≡◌, refl, sym, ap, ◌∙◌, Bool-cases, inl, inr,
}
use astroport_core.Cosmwasm.{
  Result, ok, err, panic, Math, StdError, ◌>>=◌, or_err, or_panic, map_err, not_found,
}
use astroport_core.Cosmwasm.Inversion.{or_err-some}
use astroport_core.Cosmwasm.Outcome.{Gives, bind-Gives, of-Gives, Gives-map}
use astroport_core.Asset.{AssetInfo, equal}
use astroport_core.Asset.Equality.{eq_of_equal}
use astroport_core.Incentives.Types.{ContractError, std, PoolInfo, Schedules}
use astroport_core.Incentives.Accrual.{update_rewards}
use astroport_core.Incentives.Storage.{Config, Store, Iteration, save}
use astroport_core.Incentives.Emissions.{
  disable_internal_rewards, set_internal_rewards, change_pool, set_each, disable_each,
}
use astroport_core.Incentives.Activation.{or_new, disable_old, set_new}
use astroport_core.Incentives.Kept.{
  of_map_err, update_rewards-total_lp, total_of, Saves, save-Saves,
}

-- The positions are the same, and each pool counts what it counted.
abbrev pub KeepsStakes : Store → Store → Type 0
KeepsStakes s t =
    (t.positions ≡ s.positions) × ((a : AssetInfo) → total_of (t.pools a) ≡ total_of (s.pools a))

pub keeps_refl : (s : Store) → KeepsStakes s s
keeps_refl s = (refl, λ a. refl)

pub keeps_trans : (s t u : Store) → KeepsStakes s t → KeepsStakes t u → KeepsStakes s u
keeps_trans s t u h k = (k.0 ∙ h.0, λ a. k.1 a ∙ h.1 a)

-- One step keeps the stakes, and what follows keeps those of its storage.
pub then_keeps :
    {E : Type 0} (s : Store) (first : Result E Store) (k : Store → Result E Store)
    → Gives (KeepsStakes s) first
    → ((t : Store) → Gives (KeepsStakes t) (k t))
    → Gives (KeepsStakes s) (first >>= k)
then_keeps s first k h g = bind-Gives _ first _ λ t is.
    Gives-map {Q = KeepsStakes s}
      (λ u keeps. keeps_trans s t u (of-Gives (KeepsStakes s) _ t h is) keeps) (k t) (g t)

pub total_of-or_new : (pool : Option PoolInfo) → (or_new pool).total_lp ≡ total_of pool
unfolding or_new
total_of-or_new none = refl
total_of-or_new (some pool) = refl

Keeps_of_Saves :
    (lp : AssetInfo) (total : ℕ) (s t : Store)
    → total ≡ total_of (s.pools lp)
    → Saves lp total s t
    → KeepsStakes s t
Keeps_of_Saves lp total s t is saves = (
  saves.0,
  λ a. elim (Bool-cases (equal a lp)) [
    | inl e ↦ saves.1 a ∙ rw e (is ∙ ap (λ b. total_of (s.pools b)) (sym (eq_of_equal a lp e)))
    | inr e ↦ saves.1 a ∙ rw e refl
  ],
)

module _ (m : Math) (order : Iteration) (now : ℕ) where
  -- A pool that is saved with the LP tokens that it had.
  pub resave_keeps :
      (lp : AssetInfo) (pool : PoolInfo) (s : Store)
      → pool.total_lp ≡ total_of (s.pools lp)
      → Gives (KeepsStakes s) (map_err std (save m order lp pool s))
  resave_keeps lp pool s is = Gives-map_err std (save m order lp pool s) (
      Gives-map {Q = KeepsStakes s} (λ t saves. Keeps_of_Saves lp pool.total_lp s t is saves)
        (save m order lp pool s) (save-Saves m order lp pool s))
    where
      Gives-map_err :
          (f : StdError → ContractError) (r : Result StdError Store)
          → Gives (KeepsStakes s) r
          → Gives (KeepsStakes s) (map_err f r)
      Gives-map_err f (ok a) h = h
      Gives-map_err f (err e) h = tt
      Gives-map_err f panic h = tt

  -- The LP tokens of a pool that was updated.
  pub updated_total :
      (schedules : Schedules) (pool updated : PoolInfo)
      → map_err std (update_rewards m now schedules pool) ≡ ok updated
      → updated.total_lp ≡ pool.total_lp
  updated_total schedules pool updated is =
      of_map_err (λ (p : PoolInfo). p.total_lp ≡ pool.total_lp) std
        (update_rewards m now schedules pool) updated (update_rewards-total_lp m now schedules pool)
        is

  pub set_internal_rewards-total_lp :
      (config : Config) (n : ℕ) (pool : PoolInfo)
      → Gives
          (λ p. p.total_lp ≡ pool.total_lp)
          (set_internal_rewards {E = ContractError} m config n pool)
  unfolding set_internal_rewards
  set_internal_rewards-total_lp config n pool =
      bind-Gives _ (or_panic (m.checked_mul 128 config.reward_per_second n)) _ λ numerator _.
        bind-Gives _ (or_panic (m.from_ratio 256 numerator config.total_alloc_points)) _
          λ rps _. refl

  pub change_pool_keeps :
      (lp : AssetInfo) (change : PoolInfo → Result ContractError PoolInfo) (s : Store)
      → ((p : PoolInfo) → Gives (λ q. q.total_lp ≡ p.total_lp) (change p))
      → Gives (KeepsStakes s) (change_pool m order now lp change s)
  unfolding change_pool
  change_pool_keeps lp change s keeps =
      bind-Gives _ (or_err (std not_found) (s.pools lp)) _ λ pool there.
        bind-Gives _ (map_err std (update_rewards m now (s.schedules lp) pool)) _ λ updated is.
          bind-Gives _ (change updated) _ λ changed made. resave_keeps lp changed s (
            of-Gives (λ q. q.total_lp ≡ updated.total_lp) _ changed (keeps updated) made
            ∙ updated_total (s.schedules lp) pool updated is
            ∙ sym (ap total_of (or_err-some _ _ pool there)))

  pub set_each_keeps :
      (config : Config) (l : List (AssetInfo × ℕ)) (s : Store)
      → Gives (KeepsStakes s) (set_each m order now config l s)
  unfolding set_each
  set_each_keeps config [] s = keeps_refl s
  set_each_keeps config ((lp, n) ∷ rest) s =
      then_keeps s (change_pool m order now lp (set_internal_rewards m config n) s)
        (set_each m order now config rest)
        (change_pool_keeps lp (set_internal_rewards m config n) s
          (set_internal_rewards-total_lp config n))
        (set_each_keeps config rest)

  pub disable_keeps :
      (lp : AssetInfo) (s : Store)
      → Gives (KeepsStakes s) (change_pool m order now lp (λ p. ok (disable_internal_rewards p)) s)
  unfolding disable_internal_rewards
  disable_keeps lp s = change_pool_keeps lp (λ p. ok (disable_internal_rewards p)) s (λ p. refl)

  pub disable_old_keeps :
      (l : List (AssetInfo × ℕ)) (s : Store) → Gives (KeepsStakes s) (disable_old m order now l s)
  unfolding disable_old
  disable_old_keeps [] s = keeps_refl s
  disable_old_keeps ((lp, n) ∷ rest) s =
      then_keeps s (change_pool m order now lp (λ p. ok (disable_internal_rewards p)) s)
        (disable_old m order now rest) (disable_keeps lp s) (disable_old_keeps rest)

  pub disable_each_keeps :
      (l : List (AssetInfo × ℕ)) (reduced : ℕ) (s : Store)
      → Gives (λ x. KeepsStakes s x.0) (disable_each m order now l reduced s)
  unfolding disable_each
  disable_each_keeps [] reduced s = keeps_refl s
  disable_each_keeps ((lp, n) ∷ rest) reduced s =
      bind-Gives _ (change_pool m order now lp (λ p. ok (disable_internal_rewards p)) s) _
        λ t first. bind-Gives _ (or_panic (m.checked_add 128 reduced n)) _ λ sum _.
          Gives-map {Q = λ x. KeepsStakes s x.0}
            (λ x keeps.
              keeps_trans s t x.0 (of-Gives (KeepsStakes s) _ t (disable_keeps lp s) first) keeps)
            (disable_each m order now rest sum t) (disable_each_keeps rest sum t)

  pub set_new_keeps :
      (config : Config) (l : List (AssetInfo × ℕ)) (s : Store)
      → Gives (KeepsStakes s) (set_new m order now config l s)
  unfolding set_new
  set_new_keeps config [] s = keeps_refl s
  set_new_keeps config ((lp, n) ∷ rest) s =
      bind-Gives _ (map_err std (update_rewards m now (s.schedules lp) (or_new (s.pools lp)))) _
        λ updated is. bind-Gives _ (set_internal_rewards m config n updated) _ λ changed made.
          then_keeps s (map_err std (save m order lp changed s)) (set_new m order now config rest)
            (resave_keeps lp changed s (
              of-Gives (λ q. q.total_lp ≡ updated.total_lp) _ changed
                (set_internal_rewards-total_lp config n updated) made
              ∙ updated_total (s.schedules lp) (or_new (s.pools lp)) updated is
              ∙ total_of-or_new (s.pools lp)))
            (set_new_keeps config rest)
