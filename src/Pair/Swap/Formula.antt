-- ===== src/Pair/Swap/Formula.antt =====
-- The result of `compute_swap` in closed form, at amounts of 128 bits.
use astroport_core.Common.{
  ℕ, ◌+◌, ◌-◌, ◌*◌, ◌/◌, ◌^◌, ◌≤◌, ◌<◌, ◌≡◌, ltb, arith, if◌then◌else◌, ==_of_pos, Bool-cases, inl,
  inr,
}
use astroport_core.Common.Arith.{div-le_of_le-mul, mul-lt, mul_mono, div-le}
use astroport_core.Cosmwasm.{
  ok, err, conversion_overflow, exact, fractional, fits_of_lt, sub?_of_le, ratio?_of_lt,
}
use native.Mathlib.Nat.{le_trans, lt_of_le_of_lt}
use astroport_core.Pair.Calc.{compute_swap}

-- What leaves the ask pool before the commission, its commission, and the spread.
abbrev pub gross : ℕ → ℕ → ℕ → ℕ
gross offer_pool ask_pool offer_amount =
    (ask_pool * fractional - offer_pool * ask_pool * fractional / (offer_pool + offer_amount))
    / fractional

abbrev pub commission : ℕ → ℕ → ℕ
commission amount rate = amount * rate / fractional

abbrev pub at_pool_price : ℕ → ℕ → ℕ → ℕ
at_pool_price offer_pool ask_pool offer_amount =
    offer_amount * (ask_pool * fractional / offer_pool) / fractional

-- The pools and the amount are positive and fit 128 bits, and the rate is at most 1.
pub record InRange (offer_pool ask_pool offer_amount rate : ℕ) : Type 0 where
  pub offer_pool_pos : 0 < offer_pool
  pub ask_pool_pos : 0 < ask_pool
  pub offer_amount_pos : 0 < offer_amount
  pub offer_pool_lt : offer_pool < 2 ^ 128
  pub ask_pool_lt : ask_pool < 2 ^ 128
  pub offer_amount_lt : offer_amount < 2 ^ 128
  pub rate_le : rate ≤ fractional

module _ (op ap oa c : ℕ) (r : InRange op ap oa c) where
  product-lt : op * ap < 2 ^ 256
  product-lt = mul-lt op ap (2 ^ 128) (2 ^ 128) r.offer_pool_lt r.ask_pool_lt

  pub left-le : op * ap * fractional / (op + oa) ≤ ap * fractional
  left-le =
      div-le_of_le-mul (op * ap * fractional) (op + oa) (ap * fractional) (omega arith)
        (omega arith)

  pub gross-le : gross op ap oa ≤ ap
  gross-le = omega arith

  price-le : ap * fractional / op ≤ ap * fractional
  price-le = div-le (ap * fractional) op r.offer_pool_pos

  -- The offer at the price of the pool is at most the product of the offer and the ask pool.
  at_price-le : at_pool_price op ap oa ≤ oa * ap
  at_price-le = div-le_of_le-mul (oa * (ap * fractional / op)) fractional (oa * ap) (omega arith) (
      le_trans (mul_mono oa oa (ap * fractional / op) (ap * fractional) (omega arith) price-le)
        (omega arith))

  at_price-lt : at_pool_price op ap oa < 2 ^ 256
  at_price-lt =
      lt_of_le_of_lt at_price-le (mul-lt oa ap (2 ^ 128) (2 ^ 128) r.offer_amount_lt r.ask_pool_lt)

  pub commission-le : (a : ℕ) → commission a c ≤ a
  commission-le a =
      div-le_of_le-mul (a * c) fractional a (omega arith)
        (mul_mono a a c fractional (omega arith) r.rate_le)

  pub compute_swap-exact : compute_swap exact op ap oa c ≡ (
      if ltb (at_pool_price op ap oa - gross op ap oa) (2 ^ 128)
      then ok (
        gross op ap oa - commission (gross op ap oa) c,
        at_pool_price op ap oa - gross op ap oa,
        commission (gross op ap oa) c,
      )
      else err conversion_overflow)
  unfolding compute_swap
  compute_swap-exact =
      let g = gross op ap oa in
      let cut = commission-le g in
      let one : ap * fractional / 1 ≡ ap * fractional = omega arith in
      let unit : 1 * (ap * fractional - op * ap * fractional / (op + oa)) / fractional ≡ g =
        omega arith in
      rw
        (
          ==_of_pos op r.offer_pool_pos,
          ==_of_pos ap r.ask_pool_pos,
          ==_of_pos oa r.offer_amount_pos,
          fits_of_lt 256 (op * ap) product-lt,
          fits_of_lt 256 (op + oa) (omega arith),
          ratio?_of_lt 256 ap fractional 1 (omega arith) (omega arith),
          one,
          ratio?_of_lt 256 (op * ap) fractional (op + oa) (omega arith) (omega (arith, left-le)),
          sub?_of_le (ap * fractional) (op * ap * fractional / (op + oa)) left-le,
          unit,
          fits_of_lt 256 g (omega (arith, gross-le)),
          fits_of_lt 256 (ap * fractional / op) (omega (arith, price-le)),
          fits_of_lt 256 (at_pool_price op ap oa) at_price-lt,
          fits_of_lt 256 (commission g c) (omega (arith, gross-le)),
          sub?_of_le g (commission g c) cut,
          fits_of_lt 128 (g - commission g c) (omega (arith, gross-le)),
          fits_of_lt 128 (commission g c) (omega (arith, gross-le)),
        )
        (elim (Bool-cases (ltb (at_pool_price op ap oa - g) (2 ^ 128))) [
          | inl fit ↦ rw (fit)
          | inr over ↦ rw (over)
        ])
