-- ===== src/Pair/Prices.antt =====
-- The cumulative prices (contracts/pair/src/contract.rs, accumulate_prices).
use astroport_core.Common.{
  ℕ, ◌+◌, ◌-◌, ◌*◌, ◌/◌, ◌%◌, ◌^◌, ◌<◌, ◌≡◌, refl, sym, leb, arith, Bool-cases, inl, inr, Option,
  none, some, ◌⊎◌, ◌==◌, subst, pos_of_neb, not_leb,
}
use astroport_core.Cosmwasm.{
  Result, ◌>>=◌, ok, StdError, overflow, Math, exact, IsDocumented, eq-exact,
}
use astroport_core.Cosmwasm.Inversion.{bind-ok, fits_err-ok, ratio?-ok, ok-inj}
use astroport_core.Pair.Types.{Config}
use astroport_core.Pair.Calc.{accumulate_prices, accumulate, price_precision}

-- A cumulative price after `elapsed` seconds at the price `y / x`.
abbrev pub advanced : ℕ → ℕ → ℕ → ℕ → ℕ
advanced cumulative elapsed x y = (cumulative + elapsed * price_precision * y / x) % 2 ^ 128

accumulate-exact :
    (cumulative elapsed x y next : ℕ)
    → accumulate exact cumulative elapsed x y ≡ ok next
    → next ≡ advanced cumulative elapsed x y
unfolding accumulate
accumulate-exact cumulative elapsed x y next h =
    let (_, h1) = fits_err-ok _ 128 (elapsed * price_precision) overflow h in
    let (_, _, h2) = ratio?-ok _ 128 (elapsed * price_precision) y x h1 in sym (ok-inj h2)

-- What an accumulation in a newer block gives.
abbrev pub Advances : ℕ → Config → ℕ → ℕ → ℕ × ℕ × ℕ → Type 0
Advances now config x y (pcl0, pcl1, time) =
    (config.block_time_last < now)
    × (time ≡ now)
    × (((0 < x)
          × (0 < y)
          × (pcl0 ≡ advanced config.price0_cumulative_last (now - config.block_time_last) x y)
          × (pcl1 ≡ advanced config.price1_cumulative_last (now - config.block_time_last) y x))
        ⊎ ((x * y ≡ 0)
            × (pcl0 ≡ config.price0_cumulative_last)
            × (pcl1 ≡ config.price1_cumulative_last)))

some-inj :
    {A : Type 0} {a b : A}
    → ◌≡◌ {A = Result StdError (Option A)} (ok (some a)) (ok (some b))
    → a ≡ b
some-inj h = cc

module _ (now : ℕ) (config : Config) (x y : ℕ) (prices : ℕ × ℕ × ℕ)
    (newer : config.block_time_last < now) where
  Advances-empty :
      x * y ≡ 0
      → ◌≡◌ {A = Result StdError (Option (ℕ × ℕ × ℕ))}
          (ok (some (config.price0_cumulative_last, config.price1_cumulative_last, now)))
          (ok (some prices))
      → Advances now config x y prices
  Advances-empty e h =
      subst (Advances now config x y) (some-inj h) (newer, refl, inr (e, refl, refl))

  Advances-both :
      0 < x
      → 0 < y
      → (do
        pcl0 ← accumulate exact config.price0_cumulative_last (now - config.block_time_last) x y
        pcl1 ← accumulate exact config.price1_cumulative_last (now - config.block_time_last) y x
        ok (some (pcl0, pcl1, now)))
        ≡ ok (some prices)
      → Advances now config x y prices
  Advances-both px py h =
      let (pcl0, e0, h1) =
        bind-ok (accumulate exact config.price0_cumulative_last (now - config.block_time_last) x y)
          _ h in
      let (pcl1, e1, h2) =
        bind-ok (accumulate exact config.price1_cumulative_last (now - config.block_time_last) y x)
          _ h1 in
      subst (Advances now config x y) (some-inj h2) (
        newer,
        refl,
        inl (px, py, accumulate-exact _ _ x y pcl0 e0, accumulate-exact _ _ y x pcl1 e1),
      )

-- An accumulation is made only in a newer block. It sets the time to that block's, and advances each
-- cumulative price by the seconds elapsed at the price of the pools, modulo 2^128; where a pool is
-- empty it leaves both prices.
pub accumulate_prices-Advances :
    {m : Math}
    → IsDocumented m
    → (now : ℕ) (config : Config) (x y : ℕ) (prices : ℕ × ℕ × ℕ)
    → accumulate_prices m now config x y ≡ ok (some prices)
    → Advances now config x y prices
unfolding accumulate_prices
accumulate_prices-Advances d = rw (eq-exact d) λ now config x y prices h.
    elim (Bool-cases (leb now config.block_time_last)) [
      | inl old ↦
          let h' : ◌≡◌ {A = Result StdError (Option (ℕ × ℕ × ℕ))} (ok none) (ok (some prices)) =
            rw old at h in
          cc
      | inr newer ↦ elim (Bool-cases (x == 0)) [
        | inl no_x ↦
            Advances-empty now config x y prices (not_leb _ _ newer) (grind arith)
              (rw (newer, no_x) at h)
        | inr some_x ↦ elim (Bool-cases (y == 0)) [
          | inl no_y ↦
              Advances-empty now config x y prices (not_leb _ _ newer) (grind arith)
                (rw (newer, some_x, no_y) at h)
          | inr some_y ↦
              Advances-both now config x y prices (not_leb _ _ newer) (pos_of_neb _ some_x)
                (pos_of_neb _ some_y) (rw (newer, some_x, some_y) at h)
        ]
      ]
    ]
