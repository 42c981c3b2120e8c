-- ===== src/Router/Spread.antt =====
-- The limit on the spread that the router leaves to the pairs of a route
-- (contracts/router/src/operations.rs with contracts/pair/src/contract.rs).
use astroport_core.Common.{ℕ, false, Option, ◌≡◌, ◌≤◌, ◌*◌, ◌/◌, ◌↔◌, refl, arith, ltb, not_ltb}
use astroport_core.Cosmwasm.{ok, Math, exact, fractional, IsDocumented, eq-exact}
use astroport_core.Cosmwasm.Inversion.{fail_if-ok}
use astroport_core.Pair.Calc.{assert_max_spread, assert_belief_price, max_allowed_slippage}
use astroport_core.Pair.Types.{allowed_spread_assertion}
use astroport_core.Pair.Limits.{tolerance}
use astroport_core.Router.Operations.{belief_price, decimal_max}

no_return :
    (offer_amount : ℕ) → offer_amount * (fractional * fractional / decimal_max) / fractional ≡ 0
no_return offer_amount = omega arith

belief_passes :
    (allowed offer_amount return_amount : ℕ)
    → assert_belief_price exact decimal_max allowed offer_amount return_amount ≡ ok tt
unfolding assert_belief_price
belief_passes allowed offer_amount return_amount =
    let none_lower : ltb return_amount 0 ≡ false = ground arith in
    rw (no_return offer_amount, none_lower) refl

spread-exact :
    (max_spread : Option ℕ) (offer_amount return_amount spread_amount : ℕ)
    → (assert_max_spread exact
          (belief_price false)
          max_spread
          offer_amount
          return_amount
          spread_amount
        ≡ ok tt)
      ↔ (tolerance max_spread ≤ max_allowed_slippage)
unfolding assert_max_spread belief_price
spread-exact max_spread offer_amount return_amount spread_amount =
    let passes = belief_passes (tolerance max_spread) offer_amount return_amount in
    (
      λ h.
          let (allowed, _) =
            fail_if-ok (ltb max_allowed_slippage (tolerance max_spread)) allowed_spread_assertion _
              h in
          not_ltb _ _ allowed,
      λ h.
          let allowed : ltb max_allowed_slippage (tolerance max_spread) ≡ false =
            ground (arith, h) in
          rw allowed passes,
    )

-- Inside of a route the pairs do not limit the spread: with the belief price that the router sends for
-- a step of more than one, the check of a pair passes for every offer, return and spread, and depends
-- only on the tolerance, which must be at most 50%.
pub assert_max_spread-belief_price :
    {m : Math}
    → IsDocumented m
    → (max_spread : Option ℕ) (offer_amount return_amount spread_amount : ℕ)
    → (assert_max_spread m (belief_price false) max_spread offer_amount return_amount spread_amount
        ≡ ok tt)
      ↔ (tolerance max_spread ≤ max_allowed_slippage)
assert_max_spread-belief_price d = rw (eq-exact d) spread-exact
