-- ===== src/Router/Routes.antt =====
-- Which routes the router accepts (contracts/router/src/contract.rs, `assert_operations`).
use astroport_core.Common.{
  suc, false, Option, none, some, List, [], ◌∷◌, ◌≡◌, ◌≢◌, ◌≤◌, ◌↔◌, refl, sym, ap, ◌∙◌, subst,
  ◌==◌, ltb, arith, length,
}
use astroport_core.Cosmwasm.{ok}
use astroport_core.Cosmwasm.Inversion.{bind_map_err-ok, fail_if-ok}
use astroport_core.Asset.{AssetInfo, Chain, check, equal}
use astroport_core.Asset.Equality.{equal_iff, equal_refl, eq_of_equal}
use astroport_core.Router.Types.{
  std, invalid_path_operations, doubling_assets_path, must_provide_operations, swap_limit_exceeded,
  SwapOperation, native_swap, astro_swap, max_swap_operations,
}
use astroport_core.Router.Handlers.{breaks_path, check_operations, assert_operations}

-- The swaps from an asset along the assets that follow.
abbrev pub hops : AssetInfo → List AssetInfo → List SwapOperation
hops start [] = []
hops start (next ∷ stops) = astro_swap start next ∷ hops next stops

-- Each asset is a valid one, and differs from the next.
abbrev pub IsPath : Chain → AssetInfo → List AssetInfo → Type 0
IsPath chain start [] = Unit
IsPath chain start (next ∷ stops) =
    (check chain start ≡ ok tt)
    × (check chain next ≡ ok tt)
    × (start ≢ next)
    × IsPath chain next stops

length-hops :
    (start : AssetInfo) (stops : List AssetInfo) → length (hops start stops) ≡ length stops
length-hops start [] = refl
length-hops start (next ∷ stops) = ap suc (length-hops next stops)

module _ (chain : Chain) where
  -- One round of the loop that passes.
  step-ok :
      (prev : Option AssetInfo) (offer ask : AssetInfo) (rest : List SwapOperation)
      → check_operations chain prev (astro_swap offer ask ∷ rest) ≡ ok tt
      → (check chain offer ≡ ok tt)
        × (check chain ask ≡ ok tt)
        × (offer ≢ ask)
        × (breaks_path prev offer ≡ false)
        × (check_operations chain (some ask) rest ≡ ok tt)
  unfolding check_operations
  step-ok prev offer ask rest h =
      let (_, valid_offer, h1) = bind_map_err-ok std (check chain offer) _ h in
      let (_, valid_ask, h2) = bind_map_err-ok std (check chain ask) _ h1 in
      let (differ, h3) = fail_if-ok (equal offer ask) doubling_assets_path _ h2 in
      let (follows, h4) = fail_if-ok (breaks_path prev offer) invalid_path_operations _ h3 in
      let differs : offer ≢ ask =
        λ e. ground (arith, differ, ap (equal offer) e, equal_refl offer) in
      (valid_offer, valid_ask, differs, follows, h4)

  check_operations-IsPath :
      (start : AssetInfo) (ops : List SwapOperation)
      → check_operations chain (some start) ops ≡ ok tt
      → (stops : List AssetInfo) × (ops ≡ hops start stops) × IsPath chain start stops
  unfolding check_operations breaks_path
  check_operations-IsPath start [] h = ([], refl, tt)
  check_operations-IsPath start (native_swap offer ask ∷ rest) h = cc
  check_operations-IsPath start (astro_swap offer ask ∷ rest) h =
      let (valid_offer, valid_ask, differ, follows, h') = step-ok (some start) offer ask rest h in
      let same : start ≡ offer = eq_of_equal start offer (ground arith) in
      let (stops, e, path) = check_operations-IsPath ask rest h' in
      subst
        (λ a.
          (stops : List AssetInfo) × (astro_swap offer ask ∷ rest ≡ hops a stops)
          × IsPath chain a stops)
        (sym same)
        (ask ∷ stops, ap (λ l. astro_swap offer ask ∷ l) e, (valid_offer, valid_ask, differ, path))

  IsPath-check_operations :
      (prev : Option AssetInfo) (start : AssetInfo) (stops : List AssetInfo)
      → breaks_path prev start ≡ false
      → IsPath chain start stops
      → check_operations chain prev (hops start stops) ≡ ok tt
  unfolding check_operations breaks_path
  IsPath-check_operations prev start [] follows path = refl
  IsPath-check_operations prev start (next ∷ stops) follows (valid, valid_next, differ, path) =
      let differs : equal start next ≡ false = ground (arith, equal_iff start next) in
      rw (valid, valid_next, differs, follows)
        (IsPath-check_operations (some next) next stops (rw (equal_refl next) refl) path)

  some_operations-IsPath :
      (ops : List SwapOperation)
      → (length ops == 0) ≡ false
      → check_operations chain none ops ≡ ok tt
      → (start : AssetInfo) × (stops : List AssetInfo) × (ops ≡ hops start stops)
        × IsPath chain start stops
  unfolding check_operations
  some_operations-IsPath [] some_ops h = cc
  some_operations-IsPath (native_swap offer ask ∷ rest) some_ops h = cc
  some_operations-IsPath (astro_swap offer ask ∷ rest) some_ops h =
      let (valid_offer, valid_ask, differ, _, h') = step-ok none offer ask rest h in
      let (stops, e, path) = check_operations-IsPath ask rest h' in
      (
        offer,
        ask ∷ stops,
        ap (λ l. astro_swap offer ask ∷ l) e,
        (valid_offer, valid_ask, differ, path),
      )

  accepted :
      (ops : List SwapOperation)
      → assert_operations chain ops ≡ ok tt
      → (start : AssetInfo) × (stops : List AssetInfo) × (ops ≡ hops start stops)
        × IsPath chain start stops
        × (1 ≤ length stops)
        × (length stops ≤ max_swap_operations)
  unfolding assert_operations check_operations
  accepted ops h =
      let (some_ops, h1) = fail_if-ok (length ops == 0) must_provide_operations _ h in
      let (few, h2) = fail_if-ok (ltb max_swap_operations (length ops)) swap_limit_exceeded _ h1 in
      let (start, stops, e, path) = some_operations-IsPath ops some_ops h2 in
      let n : length ops ≡ length stops = ap length e ∙ length-hops start stops in
      (start, stops, e, path, ground (arith, n, some_ops), ground (arith, n, few))

  is_accepted :
      (start : AssetInfo) (stops : List AssetInfo)
      → IsPath chain start stops
      → 1 ≤ length stops
      → length stops ≤ max_swap_operations
      → assert_operations chain (hops start stops) ≡ ok tt
  unfolding assert_operations breaks_path
  is_accepted start stops path least most =
      let n = length-hops start stops in
      let some_ops : (length (hops start stops) == 0) ≡ false = ground (arith, n, least) in
      let few : ltb max_swap_operations (length (hops start stops)) ≡ false =
        ground (arith, n, most) in
      rw (some_ops, few) (IsPath-check_operations none start stops refl path)

-- The router accepts a list of operations exactly when it is a route: the swaps along a path of valid
-- assets, each different from the next, with at least one and at most 50 of them.
pub assert_operations_iff :
    (chain : Chain) (ops : List SwapOperation)
    → (assert_operations chain ops ≡ ok tt) ↔ (
        (start : AssetInfo) × (stops : List AssetInfo) × (ops ≡ hops start stops)
        × IsPath chain start stops
        × (1 ≤ length stops)
        × (length stops ≤ max_swap_operations))
assert_operations_iff chain ops = (
  accepted chain ops,
  λ (start, stops, e, path, least, most). rw e (is_accepted chain start stops path least most),
)
