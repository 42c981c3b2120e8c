-- ===== src/Pair/Swap/Product.antt =====
-- How a swap moves the product of the pools: the payout is exact to a unit, and the product falls
-- only by the rounding of the 18 decimals.
use astroport_core.Common.{
  ℕ, ◌+◌, ◌-◌, ◌*◌, ◌/◌, ◌%◌, ◌^◌, ◌≤◌, ◌<◌, ◌≡◌, ltb, arith, Bool-cases, inl, inr, ltb→lt, not_ltb,
  ◌⊎◌,
}
use astroport_core.Common.Arith.{div-mul-le, lt-div-mul, mul_mono, lt_of_mul-lt-mul, mul-lt_right}
use astroport_core.Cosmwasm.{
  ok, err, conversion_overflow, Math, exact, fractional, IsDocumented, eq-exact,
}
use astroport_core.Pair.Calc.{compute_swap}
use astroport_core.Pair.Swap.Formula.{
  gross, commission, at_pool_price, InRange, gross-le, left-le, commission-le, compute_swap-exact,
}

-- The steps over any numbers: `q` is the quotient of the decimals `c` by `t`, and `s` what stays.
below_product : (c t q s : ℕ) → q ≤ s * fractional → c < (q + 1) * t → c < t * s * fractional + t
below_product c t q s h k = omega (arith, mul_mono q (s * fractional) t t h (omega arith))

above_product :
    (c t q s : ℕ) → s * fractional < q + fractional → q * t ≤ c * fractional → 0 < t → t * s < c + t
above_product c t q s h k p =
    lt_of_mul-lt-mul (t * s) (c + t) fractional
      (omega (arith, k, mul-lt_right (s * fractional) (q + fractional) t p h))

-- With a remainder that vanishes in the decimals, the quotient by `t` loses the whole remainder.
falls :
    (c t s : ℕ)
    → 0 < t
    → 0 < c % t
    → c % t * fractional < t
    → s * fractional < c * fractional / t + fractional
    → t * s < c
falls c t s h some_left little_left p =
    let k = c / t in
    let whole : c ≡ k * t + c % t = grind arith in
    let scaled : c * fractional < (k * fractional + 1) * t = omega arith in
    let low =
      lt_of_mul-lt-mul (c * fractional / t) (k * fractional + 1) t
        (omega (arith, div-mul-le (c * fractional) t)) in
    let small : s ≤ k = omega arith in omega (arith, mul_mono t t s k (omega arith) small)

-- With `t` at most one unit of the decimals the bound from below is an order of whole numbers.
no_fall : (c t s : ℕ) → c * fractional < t * s * fractional + t → t ≤ fractional → c ≤ t * s
no_fall c t s h k = omega arith

module _ (op ap oa c : ℕ) (r : InRange op ap oa c) where
  left-le-after : op * ap * fractional / (op + oa) ≤ (ap - gross op ap oa) * fractional
  left-le-after = omega (arith, left-le op ap oa c r)

  after-lt-left : (ap - gross op ap oa) * fractional < op * ap * fractional / (op + oa) + fractional
  after-lt-left = omega (arith, left-le op ap oa c r)

  -- The product after the payout, from below and from above.
  pub product-after :
      (op * ap * fractional < (op + oa) * (ap - gross op ap oa) * fractional + (op + oa))
      × ((op + oa) * (ap - gross op ap oa) < op * ap + (op + oa))
  product-after =
      let p = r.offer_pool_pos in
      let q = op * ap * fractional / (op + oa) in
      (
        below_product (op * ap * fractional) (op + oa) q (ap - gross op ap oa) left-le-after
            (lt-div-mul (op * ap * fractional) (op + oa) (omega arith)),
        above_product (op * ap) (op + oa) q (ap - gross op ap oa) after-lt-left
            (div-mul-le (op * ap * fractional) (op + oa)) (omega arith),
      )

-- A successful swap pays the closed form.
pub compute_swap-parts :
    (op ap oa c : ℕ) {net spread fee : ℕ}
    → InRange op ap oa c
    → compute_swap exact op ap oa c ≡ ok (net, spread, fee)
    → (net + fee ≡ gross op ap oa)
      × (fee ≡ commission (gross op ap oa) c)
      × (spread ≡ at_pool_price op ap oa - gross op ap oa)
compute_swap-parts op ap oa c r h =
    ground (arith, compute_swap-exact op ap oa c r, commission-le op ap oa c r (gross op ap oa))

-- After a successful swap the ask pool covers the payout and the commission, and its product with
-- the grown offer pool stays above the old product up to the rounding of the 18 decimals, and within
-- one unit of the ask asset above it.
pub compute_swap-product :
    {m : Math}
    → IsDocumented m
    → (op ap oa c net spread fee : ℕ) → InRange op ap oa c
    → compute_swap m op ap oa c ≡ ok (net, spread, fee)
    → (net + fee ≤ ap)
      × (op * ap * fractional < (op + oa) * (ap - (net + fee)) * fractional + (op + oa))
      × ((op + oa) * (ap - (net + fee)) < op * ap + (op + oa))
compute_swap-product d = rw (eq-exact d) λ op ap oa c net spread fee r h.
    let parts = compute_swap-parts op ap oa c r h in
    let bounds = product-after op ap oa c r in
    rw (parts.0) (gross-le op ap oa c r, bounds.0, bounds.1)

-- Where the pool holds at most 10^18 units of the offered asset after the swap, the swap does not
-- lower the product of the pools, even before fees.
pub compute_swap_keeps_product :
    {m : Math}
    → IsDocumented m
    → (op ap oa c net spread fee : ℕ) → InRange op ap oa c
    → op + oa ≤ fractional
    → compute_swap m op ap oa c ≡ ok (net, spread, fee)
    → op * ap ≤ (op + oa) * (ap - (net + fee))
compute_swap_keeps_product d = rw (eq-exact d) λ op ap oa c net spread fee r small h.
    let parts = compute_swap-parts op ap oa c r h in
    rw (parts.0) (no_fall (op * ap) _ _ (product-after op ap oa c r).0 small)

-- The commission of a successful swap is the rate's share of the payout, rounded down, and the
-- spread is the shortfall of the payout and commission from the offer at the pool's price.
pub compute_swap-fee :
    {m : Math}
    → IsDocumented m
    → (op ap oa c net spread fee : ℕ) → InRange op ap oa c
    → compute_swap m op ap oa c ≡ ok (net, spread, fee)
    → (fee ≡ (net + fee) * c / fractional) × (spread ≡ at_pool_price op ap oa - (net + fee))
compute_swap-fee d = rw (eq-exact d) λ op ap oa c net spread fee r h.
    let parts = compute_swap-parts op ap oa c r h in rw (parts.0) (parts.1, parts.2)

-- For positive amounts of 128 bits and a rate of at most 1 a swap never panics: it succeeds, unless
-- the spread needs more than 128 bits, and then it returns the conversion error.
pub compute_swap_total :
    {m : Math}
    → IsDocumented m
    → (op ap oa c : ℕ) → InRange op ap oa c
    → ((at_pool_price op ap oa - gross op ap oa < 2 ^ 128)
        × (compute_swap m op ap oa c
            ≡ ok (
              gross op ap oa - commission (gross op ap oa) c,
              at_pool_price op ap oa - gross op ap oa,
              commission (gross op ap oa) c,
            )))
      ⊎ ((2 ^ 128 ≤ at_pool_price op ap oa - gross op ap oa)
          × (compute_swap m op ap oa c ≡ err conversion_overflow))
compute_swap_total d = rw (eq-exact d) λ op ap oa c r.
    elim (Bool-cases (ltb (at_pool_price op ap oa - gross op ap oa) (2 ^ 128))) [
      | inl e ↦ inl (ltb→lt _ _ e, rw (compute_swap-exact op ap oa c r, e))
      | inr e ↦ inr (not_ltb _ _ e, rw (compute_swap-exact op ap oa c r, e))
    ]

-- The rounding can favour the trader: where the product of the pools leaves a remainder, by the
-- grown offer pool, that is less than 10^-18 of that pool, a swap lowers the product, before fees.
pub compute_swap_lowers_product :
    {m : Math}
    → IsDocumented m
    → (op ap oa c net spread fee : ℕ) → InRange op ap oa c
    → 0 < op * ap % (op + oa)
    → op * ap % (op + oa) * fractional < op + oa
    → compute_swap m op ap oa c ≡ ok (net, spread, fee)
    → (op + oa) * (ap - (net + fee)) < op * ap
compute_swap_lowers_product d =
    rw (eq-exact d) λ op ap oa c net spread fee r some_left little_left h.
      let parts = compute_swap-parts op ap oa c r h in
      rw (parts.0) (
        falls (op * ap) (op + oa) (ap - gross op ap oa) (omega (arith, r.offer_pool_pos)) some_left
          little_left (after-lt-left op ap oa c r))
