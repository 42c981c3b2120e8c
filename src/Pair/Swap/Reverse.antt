-- ===== src/Pair/Swap/Reverse.antt =====
-- The reverse simulation: what it quotes, and that the quote plus one unit buys the amount asked.
use astroport_core.Common.{ℕ, ◌+◌, ◌-◌, ◌*◌, ◌/◌, ◌≤◌, ◌<◌, ◌≡◌, sym, ap, arith, [], ◌∷◌}
use astroport_core.Common.Arith.{div-mul-le, lt-div-mul, lt_of_mul-lt-mul}
use astroport_core.Cosmwasm.{
  ok, conversion_overflow, overflow, Math, exact, fractional, IsDocumented, eq-exact,
}
use astroport_core.Cosmwasm.Inversion.{
  bind-ok, fits-ok, fits_err-ok, sub?-ok, sub?_err-ok, ratio?-ok, ok-inj,
}
use astroport_core.Asset.{check_swap_parameters}
use astroport_core.Pair.Calc.{compute_offer_amount, compute_swap}
use native.Mathlib.Nat.{add_assoc}
use astroport_core.Pair.Swap.Formula.{InRange}
use astroport_core.Pair.Swap.Product.{compute_swap-product}

-- The amount asked for, grown by the commission that will be taken from it.
abbrev pub before_commission : ℕ → ℕ → ℕ
before_commission amount rate =
    amount * (fractional * fractional / (fractional - rate)) / fractional

record Quote (op aq aa c offer spread fee : ℕ) : Type 0 where
  before_le : before_commission aa c ≤ aq
  left_pos : 0 < aq - before_commission aa c
  pool_le : op ≤ op * aq * 1 / (aq - before_commission aa c)
  offer_eq : offer ≡ op * aq * 1 / (aq - before_commission aa c) - op
  fee_eq : fee ≡ before_commission aa c * c / fractional

compute_offer_amount-Quote :
    (op aq aa c offer spread fee : ℕ)
    → compute_offer_amount exact op aq aa c ≡ ok (offer, spread, fee)
    → Quote op aq aa c offer spread fee
unfolding compute_offer_amount
compute_offer_amount-Quote op aq aa c offer spread fee h =
    let (_, _, h0) = bind-ok (check_swap_parameters (op ∷ aq ∷ []) aa) _ h in
    let (_, h1) = fits-ok _ 256 (op * aq) h0 in
    let (_, h2) = sub?-ok _ fractional c h1 in
    let (_, _, h3) = ratio?-ok _ 256 fractional fractional (fractional - c) h2 in
    let (_, h4) = fits-ok _ 256 (before_commission aa c) h3 in
    let (_, h5) = fits_err-ok _ 128 (before_commission aa c) conversion_overflow h4 in
    let (before_le, h6) = sub?_err-ok _ aq (before_commission aa c) overflow h5 in
    let left = aq - before_commission aa c in
    let (left_pos, _, h7) = ratio?-ok _ 256 (op * aq) 1 left h6 in
    let (pool_le, h8) = sub?_err-ok _ (op * aq * 1 / left) op overflow h7 in
    let offer' = op * aq * 1 / left - op in
    let (_, h9) = fits_err-ok _ 128 offer' conversion_overflow h8 in
    let (_, _, h10) = ratio?-ok _ 128 aq fractional op h9 in
    let (_, h11) = fits-ok _ 128 (offer' * (aq * fractional / op) / fractional) h10 in
    let fee' = before_commission aa c * c / fractional in
    let (_, h12) = fits-ok _ 256 fee' h11 in
    let (_, h13) = fits_err-ok _ 128 fee' conversion_overflow h12 in
    record {
      before_le = before_le;
      left_pos = left_pos;
      pool_le = pool_le;
      offer_eq = ap (λ t. t.0) (sym (ok-inj h13));
      fee_eq = ap (λ t. t.2) (sym (ok-inj h13));
    }

-- A quote keeps the commission's share of the amount asked, and is exact to a unit: the grown offer
-- pool times what is left of the ask pool stays within one step below the product of the pools.
compute_offer_amount-product :
    {m : Math}
    → IsDocumented m
    → (op aq aa c offer spread fee : ℕ)
    → compute_offer_amount m op aq aa c ≡ ok (offer, spread, fee)
    → let before = before_commission aa c in
      (before < aq)
      × (fee ≡ before * c / fractional)
      × ((op + offer) * (aq - before) ≤ op * aq)
      × (op * aq < (op + offer + 1) * (aq - before))
compute_offer_amount-product d = rw (eq-exact d) λ op aq aa c offer spread fee h.
    let q = compute_offer_amount-Quote op aq aa c offer spread fee h in
    let left = aq - before_commission aa c in
    let sum : op + offer ≡ op * aq * 1 / left = omega (arith, q.offer_eq, q.pool_le) in
    let one : op * aq * 1 ≡ op * aq = omega arith in
    (
      omega (arith, q.left_pos),
      q.fee_eq,
      rw (sum, one) (div-mul-le (op * aq) left),
      rw (sum, one) (lt-div-mul (op * aq) left q.left_pos),
    )

-- With `t` the grown pool, an order of the products is one of what is left.
left_order : (t aq g b c : ℕ) → t * (aq - g) < c + t → c < t * (aq - b) → b ≤ aq → g ≤ aq → b ≤ g
left_order t aq g b c p q h k =
    let less : (aq - g) * t < (aq - b + 1) * t = omega arith in
    omega (arith, lt_of_mul-lt-mul (aq - g) (aq - b + 1) t less)

-- Round trip: a swap of one unit more than the quoted offer pays out, before its commission, at least
-- the amount that the quote asked for before commission.
pub compute_swap-compute_offer_amount :
    {m : Math}
    → IsDocumented m
    → (op aq aa c offer spread fee : ℕ) (net spread' fee' : ℕ)
    → compute_offer_amount m op aq aa c ≡ ok (offer, spread, fee)
    → InRange op aq (offer + 1) c
    → compute_swap m op aq (offer + 1) c ≡ ok (net, spread', fee')
    → before_commission aa c ≤ net + fee'
compute_swap-compute_offer_amount d op aq aa c offer spread fee net spread' fee' h r k =
    let quote = compute_offer_amount-product d op aq aa c offer spread fee h in
    let swap = compute_swap-product d op aq (offer + 1) c net spread' fee' r k in
    left_order (op + offer + 1) aq (net + fee') (before_commission aa c) (op * aq)
      (rw (add_assoc op offer 1) swap.2) quote.3 (omega arith) swap.0
