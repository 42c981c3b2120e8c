-- ===== src/Pair/Limits.antt =====
-- The limits on spread and slippage, and the cumulative prices.
use astroport_core.Common.{
  ℕ, ◌+◌, ◌-◌, ◌*◌, ◌/◌, ◌≤◌, ◌<◌, ◌≡◌, ltb, arith, Bool-cases, inl, inr, Option, none, some,
  not_ltb, ◌⊎◌,
}
use astroport_core.Common.Arith.{div-mul-le, lt-div-mul, mul_mono, lt_of_mul-lt-mul, mul-lt_right}
use astroport_core.Cosmwasm.{ok, Math, exact, fractional, IsDocumented, eq-exact, unwrap_or}
use astroport_core.Cosmwasm.Inversion.{
  fits-ok, sub?-ok, ratio?-ok, fail_if-ok, some_err-ok, inverse?-some, fail_if-passed,
}
use astroport_core.Pair.Types.{
  allowed_spread_assertion, max_spread_assertion, max_slippage_assertion,
}
use astroport_core.Pair.Calc.{
  assert_max_spread, assert_swap_spread, assert_belief_price, assert_slippage_tolerance,
  default_slippage, max_allowed_slippage,
}

-- A ratio that passes a limit is below the next decimal of the limit.
limit_of_ratio :
    (a t limit : ℕ) → 0 < t → a * fractional / t ≤ limit → a * fractional < (limit + 1) * t
limit_of_ratio a t limit pos h = omega (
  arith,
  lt-div-mul (a * fractional) t pos,
  mul_mono (a * fractional / t + 1) (limit + 1) t t (omega arith) (omega arith),
)

-- The tolerance of a call: the caller's, or the default of 0.5%.
abbrev pub tolerance : Option ℕ → ℕ
tolerance given = unwrap_or given default_slippage

-- With no belief price a swap passes only where the tolerance is at most 50% and the spread is
-- within it, as a part of the payout and the spread together.
assert_max_spread_swap :
    {m : Math}
    → IsDocumented m
    → (max_spread : Option ℕ) (offer_amount return_amount spread_amount : ℕ)
    → assert_max_spread m none max_spread offer_amount return_amount spread_amount ≡ ok tt
    → (tolerance max_spread ≤ max_allowed_slippage)
      × (spread_amount * fractional < (tolerance max_spread + 1) * (return_amount + spread_amount))
unfolding assert_max_spread
assert_max_spread_swap d = rw (eq-exact d) λ max_spread offer_amount return_amount spread_amount h.
    let (allowed, h1) =
      fail_if-ok _ allowed_spread_assertion
        (assert_swap_spread exact (tolerance max_spread) return_amount spread_amount) h in
    let (_, h2) = fits-ok _ 128 (return_amount + spread_amount) h1 in
    let (pos, _, h3) =
      ratio?-ok _ 128 spread_amount fractional (return_amount + spread_amount) h2 in
    (
      not_ltb _ _ allowed,
      limit_of_ratio spread_amount (return_amount + spread_amount) _ pos
          (not_ltb _ _ (fail_if-passed _ max_spread_assertion h3)),
    )

-- The amount that a belief price promises for an offer.
abbrev pub promised : ℕ → ℕ → ℕ
promised offer_amount belief_price =
    offer_amount * (fractional * fractional / belief_price) / fractional

belief_bounds :
    (belief_price limit offer_amount return_amount : ℕ)
    → assert_belief_price exact belief_price limit offer_amount return_amount ≡ ok tt
    → (0 < belief_price)
      × ((promised offer_amount belief_price ≤ return_amount)
          ⊎ ((promised offer_amount belief_price - return_amount) * fractional
              < (limit + 1) * promised offer_amount belief_price))
unfolding assert_belief_price
belief_bounds belief_price limit offer_amount return_amount h =
    let (inverse, e, h1) = some_err-ok _ (exact.inv belief_price) _ h in
    let (pos, inverse_eq) = inverse?-some belief_price inverse e in
    let expected = promised offer_amount belief_price in
    let (_, h2) = fits-ok _ 128 expected (rw inverse_eq at h1) in
    elim (Bool-cases (ltb return_amount expected)) [
      | inl short ↦
          let (some_expected, _, h3) =
            ratio?-ok _ 128 (expected - return_amount) fractional expected (rw short at h2) in
          (
            pos,
            inr (
                limit_of_ratio (expected - return_amount) expected limit some_expected
                  (not_ltb _ _ (fail_if-passed _ max_spread_assertion h3))),
          )
      | inr covered ↦ (pos, inl (not_ltb _ _ covered))
    ]

-- With a belief price a swap passes only where the tolerance is at most 50% and the payout is at
-- least the promised amount, or short of it by less than the tolerance.
assert_max_spread_belief :
    {m : Math}
    → IsDocumented m
    → (belief_price : ℕ) (max_spread : Option ℕ) (offer_amount return_amount spread_amount : ℕ)
    → assert_max_spread m (some belief_price) max_spread offer_amount return_amount spread_amount
      ≡ ok tt
    → let expected = promised offer_amount belief_price in
      (tolerance max_spread ≤ max_allowed_slippage)
      × (0 < belief_price)
      × ((expected ≤ return_amount)
          ⊎ ((expected - return_amount) * fractional < (tolerance max_spread + 1) * expected))
unfolding assert_max_spread
assert_max_spread_belief d =
    rw (eq-exact d) λ belief_price max_spread offer_amount return_amount spread_amount h.
      let (allowed, h1) =
        fail_if-ok _ allowed_spread_assertion
          (assert_belief_price exact belief_price (tolerance max_spread) offer_amount return_amount)
          h in
      let (pos, bound) =
        belief_bounds belief_price (tolerance max_spread) offer_amount return_amount h1 in
      (not_ltb _ _ allowed, pos, bound)

-- A ratio of deposits, cut by `keep`, that stays under a ratio of pools, both rounded down.
cross_bound :
    (a b p q keep : ℕ)
    → 0 < b
    → 0 < q
    → keep ≤ fractional
    → a * fractional / b * keep / fractional ≤ p * fractional / q
    → a * keep * q < p * b * fractional + 2 * (b * q)
cross_bound a b p q keep hb hq hk h =
    let x = a * fractional / b in
    let l = x * keep / fractional in
    let r = p * fractional / q in
    let over =
      mul_mono (a * fractional) ((x + 1) * b) keep keep
        (omega (arith, lt-div-mul (a * fractional) b hb)) (omega arith) in
    let cut =
      mul-lt_right (x * keep) ((l + 1) * fractional) b hb
        (lt-div-mul (x * keep) fractional (omega arith)) in
    let keep_b = mul_mono b b keep fractional (omega arith) hk in
    let under = mul_mono l r (b * fractional) (b * fractional) h (omega arith) in
    let short : a * fractional * keep < (r * b + 2 * b) * fractional = omega arith in
    let shorter : a * keep < r * b + 2 * b =
      lt_of_mul-lt-mul (a * keep) (r * b + 2 * b) fractional (omega arith) in
    let pool =
      mul_mono (r * q) (p * fractional) b b (div-mul-le (p * fractional) q) (omega arith) in
    omega (arith, mul-lt_right (a * keep) (r * b + 2 * b) q hq shorter)

-- A provision passes only where the tolerance is at most 50% and, both ways, the ratio of the
-- deposits, cut by the tolerance, exceeds the ratio of the pools by less than 2 * 10^-18.
pub assert_slippage_tolerance_bounds :
    {m : Math}
    → IsDocumented m
    → (given : Option ℕ) (d0 d1 p0 p1 : ℕ)
    → assert_slippage_tolerance m given (d0, d1) (p0, p1) ≡ ok tt
    → let keep = fractional - tolerance given in
      (tolerance given ≤ max_allowed_slippage)
      × (d0 * keep * p1 < p0 * d1 * fractional + 2 * (d1 * p1))
      × (d1 * keep * p0 < p1 * d0 * fractional + 2 * (d0 * p0))
unfolding assert_slippage_tolerance
assert_slippage_tolerance_bounds d = rw (eq-exact d) λ given d0 d1 p0 p1 h.
    let keep = fractional - tolerance given in
    let (allowed, h1) = fail_if-ok _ allowed_spread_assertion _ h in
    let (_, h2) = sub?-ok _ fractional (tolerance given) h1 in
    let (d1_pos, _, h3) = ratio?-ok _ 256 d0 fractional d1 h2 in
    let (_, h4) = fits-ok _ 256 (d0 * fractional / d1 * keep / fractional) h3 in
    let (p1_pos, _, h5) = ratio?-ok _ 256 p0 fractional p1 h4 in
    let (first, h6) = fail_if-ok _ max_slippage_assertion _ h5 in
    let (d0_pos, _, h7) = ratio?-ok _ 256 d1 fractional d0 h6 in
    let (_, h8) = fits-ok _ 256 (d1 * fractional / d0 * keep / fractional) h7 in
    let (p0_pos, _, h9) = ratio?-ok _ 256 p1 fractional p0 h8 in
    let second = fail_if-passed _ max_slippage_assertion h9 in
    (
      not_ltb _ _ allowed,
      cross_bound d0 d1 p0 p1 keep d1_pos p1_pos (omega arith) (not_ltb _ _ first),
      cross_bound d1 d0 p1 p0 keep d0_pos p0_pos (omega arith) (not_ltb _ _ second),
    )
