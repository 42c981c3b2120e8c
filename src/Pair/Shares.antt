-- ===== src/Pair/Shares.antt =====
-- LP shares: the first provision, later provisions, and withdrawal.
use astroport_core.Common.{
  ℕ, ◌+◌, ◌-◌, ◌*◌, ◌/◌, ◌≤◌, ◌<◌, ◌≡◌, refl, sym, subst, arith, Bool-cases, inl, inr, ◌⊎◌, [], ◌∷◌,
  leb, leb→le, not_leb, List, Option, min, ==_of_pos, pos_of_neb,
}
use astroport_core.Common.Arith.{div-mul-le, lt-div-mul, mul_mono, le_of_mul-le-mul, mul-lt_right}
use astroport_core.Cosmwasm.{
  ok, StdError, conversion_overflow, Math, exact, fractional, fits, or_panic, IsDocumented,
  eq-exact, sqrt, sqrt-IsRoot,
}
use astroport_core.Cosmwasm.Inversion.{
  bind-ok, fits-ok, fits_err-ok, sub?_err-ok, ratio?-ok, fail_if-ok, ok-inj, or_panic_bind,
}
use native.Mathlib.Nat.{le_trans}
use astroport_core.Asset.{Asset, AssetInfo}
use astroport_core.Pair.Types.{std, minimum_liquidity_amount_error}
use astroport_core.Pair.Calc.{
  calculate_shares, initial_share, assert_slippage_tolerance, get_share_in_assets, scale_assets,
  share_ratio, minimum_liquidity_amount,
}

initial_share-exact :
    (d0 d1 share : ℕ)
    → initial_share exact (d0, d1) ≡ ok share
    → (0 < share) × (share + minimum_liquidity_amount ≡ sqrt (d0 * d1))
unfolding initial_share
initial_share-exact d0 d1 share h =
    let (_, h1) = fits-ok _ 256 (d0 * d1) h in
    let (_, h2) = fits_err-ok _ 128 (sqrt (d0 * d1)) (std conversion_overflow) h1 in
    let (enough, h3) =
      sub?_err-ok _ (sqrt (d0 * d1)) minimum_liquidity_amount minimum_liquidity_amount_error h2 in
    let (some_left, h4) =
      fail_if-ok _ minimum_liquidity_amount_error (ok (sqrt (d0 * d1) - minimum_liquidity_amount))
        h3 in
    let eq = ok-inj h4 in (omega (arith, pos_of_neb _ some_left), omega arith)

-- Between the root and its successor.
root_bounds :
    (d0 d1 share : ℕ)
    → share + minimum_liquidity_amount ≡ sqrt (d0 * d1)
    → ((share + 1_000) * (share + 1_000) ≤ d0 * d1) × (d0 * d1 < (share + 1_001) * (share + 1_001))
root_bounds d0 d1 share e =
    let root = sqrt-IsRoot (d0 * d1) in
    let next : share + 1_001 ≡ sqrt (d0 * d1) + 1 = omega arith in rw (e, next) root

-- The first provision mints the whole part of the geometric mean of the deposits, less the minimum
-- liquidity of 1000 that stays locked; it mints at least one share.
calculate_shares_initial :
    {m : Math}
    → IsDocumented m
    → (d0 d1 p0 p1 : ℕ) (tolerance : Option ℕ) (share : ℕ)
    → calculate_shares m (d0, d1) (p0, p1) 0 tolerance ≡ ok share
    → (0 < share)
      × ((share + 1_000) * (share + 1_000) ≤ d0 * d1)
      × (d0 * d1 < (share + 1_001) * (share + 1_001))
unfolding calculate_shares
calculate_shares_initial d = rw (eq-exact d) λ d0 d1 p0 p1 tolerance share h.
    let (pos, e) = initial_share-exact d0 d1 share h in
    let (low, high) = root_bounds d0 d1 share e in (pos, low, high)

-- A later provision
later-exact :
    (d0 d1 p0 p1 total : ℕ) (tolerance : Option ℕ) (share : ℕ)
    → 0 < total
    → calculate_shares exact (d0, d1) (p0, p1) total tolerance ≡ ok share
    → (0 < p0) × (0 < p1) × (share ≡ min (d0 * total / p0) (d1 * total / p1))
unfolding calculate_shares
later-exact d0 d1 p0 p1 total tolerance share pos h =
    let (_, _, h1) =
      bind-ok (assert_slippage_tolerance exact tolerance (d0, d1) (p0, p1)) _
        (rw (==_of_pos total pos) at h) in
    let (q0, _, h2) = ratio?-ok _ 128 d0 total p0 h1 in
    let (q1, _, h3) = ratio?-ok _ 128 d1 total p1 h2 in (q0, q1, sym (ok-inj h3))

-- The smaller of two quotients fits both, and the next number does not.
min_quotient :
    (x y p q s : ℕ)
    → 0 < p
    → 0 < q
    → s ≡ min (x / p) (y / q)
    → (s * p ≤ x) × (s * q ≤ y) × ((x < (s + 1) * p) ⊎ (y < (s + 1) * q))
min_quotient x y p q s hp hq e = elim (Bool-cases (leb (x / p) (y / q))) [
  | inl le ↦
      let first : s ≡ x / p = omega (arith, leb→le _ _ le) in
      let below : s ≤ y / q = omega (arith, leb→le _ _ le) in
      (
        rw first (div-mul-le x p),
        le_trans (mul_mono s (y / q) q q below (omega arith)) (div-mul-le y q),
        inl (rw first (lt-div-mul x p hp)),
      )
  | inr gt ↦
      let second : s ≡ y / q = omega (arith, not_leb _ _ gt) in
      let below : s ≤ x / p = omega (arith, not_leb _ _ gt) in
      (
        le_trans (mul_mono s (x / p) p p below (omega arith)) (div-mul-le x p),
        rw second (div-mul-le y q),
        inr (rw second (lt-div-mul y q hq)),
      )
]

-- A later provision mints no more than each deposit's part of its pool, so that the shares that
-- exist are not diluted, and no unit less than the smaller part allows.
pub calculate_shares_proportional :
    {m : Math}
    → IsDocumented m
    → (d0 d1 p0 p1 total : ℕ) (tolerance : Option ℕ) (share : ℕ) → 0 < total
    → calculate_shares m (d0, d1) (p0, p1) total tolerance ≡ ok share
    → (share * p0 ≤ d0 * total)
      × (share * p1 ≤ d1 * total)
      × ((d0 * total < (share + 1) * p0) ⊎ (d1 * total < (share + 1) * p1))
calculate_shares_proportional d = rw (eq-exact d) λ d0 d1 p0 p1 total tolerance share pos h.
    let (q0, q1, e) = later-exact d0 d1 p0 p1 total tolerance share pos h in
    min_quotient (d0 * total) (d1 * total) p0 p1 share q0 q1 e

share_ratio-exact :
    (amount total ratio : ℕ)
    → 0 < total
    → share_ratio exact amount total ≡ ok ratio
    → ratio ≡ amount * fractional / total
unfolding share_ratio
share_ratio-exact amount total ratio pos h =
    let k = amount * fractional / total in
    let h1 : or_panic (fits 128 k) ≡ ok ratio = rw (==_of_pos total pos) at h in
    let (_, h2) = fits-ok {E = StdError} ok 128 k (rw (or_panic_bind (fits 128 k)) h1) in
    sym (ok-inj h2)

-- What a withdrawal of `amount` out of `total` shares pays for each pool: the same asset, at most the
-- proportional part, and short of it by less than a unit and a part 10^-18 of the pool.
abbrev pub Refunds : ℕ → ℕ → List Asset → List Asset → Type 0
Refunds amount total [] [] = Unit
Refunds amount total [] (r ∷ rs) = ⊥
Refunds amount total (p ∷ ps) [] = ⊥
Refunds amount total (p ∷ ps) (r ∷ rs) =
    (r.info ≡ p.info)
    × (r.amount * total ≤ p.amount * amount)
    × (p.amount * amount * fractional < (r.amount + 1) * total * fractional + p.amount * total)
    × Refunds amount total ps rs

part_bounds :
    (p amount total : ℕ)
    → 0 < total
    → let r = p * (amount * fractional / total) / fractional in
      (r * total ≤ p * amount)
      × (p * amount * fractional < (r + 1) * total * fractional + p * total)
part_bounds p amount total pos =
    let k = amount * fractional / total in
    let r = p * k / fractional in
    let low = div-mul-le (p * k) fractional in
    let high = lt-div-mul (p * k) fractional (omega arith) in
    let klow =
      mul_mono p p (k * total) (amount * fractional) (omega arith)
        (div-mul-le (amount * fractional) total) in
    let khigh : amount * fractional ≤ (k + 1) * total =
      omega (arith, lt-div-mul (amount * fractional) total pos) in
    let khigh' = mul_mono p p (amount * fractional) ((k + 1) * total) (omega arith) khigh in
    (
      le_of_mul-le-mul (r * total) (p * amount) fractional (omega arith)
          (omega (arith, mul_mono (r * fractional) (p * k) total total low (omega arith))),
      omega (arith, mul-lt_right (p * k) ((r + 1) * fractional) total pos high),
    )

scale_assets-Refunds :
    (pools refunds : List Asset) (amount total : ℕ)
    → 0 < total
    → scale_assets exact pools (amount * fractional / total) ≡ ok refunds
    → Refunds amount total pools refunds
unfolding scale_assets
scale_assets-Refunds [] refunds amount total pos h = subst (Refunds amount total []) (ok-inj h) tt
scale_assets-Refunds (p ∷ ps) refunds amount total pos h =
    let (_, h1) = fits-ok _ 128 (p.amount * (amount * fractional / total) / fractional) h in
    let (rest, e, h2) = bind-ok (scale_assets exact ps (amount * fractional / total)) _ h1 in
    let tail = scale_assets-Refunds ps rest amount total pos e in
    let (low, high) = part_bounds p.amount amount total pos in
    subst (Refunds amount total (p ∷ ps)) (ok-inj h2) (refl, low, high, tail)

-- A withdrawal, out of a supply that is not zero, pays each pool's asset, in the order of the pools:
-- at most its exact proportion, and short of that by less than one unit and a part 10^-18 of the pool.
pub get_share_in_assets-Refunds :
    {m : Math}
    → IsDocumented m
    → (pools refunds : List Asset) (amount total : ℕ) → 0 < total
    → get_share_in_assets m pools amount total ≡ ok refunds
    → Refunds amount total pools refunds
unfolding get_share_in_assets
get_share_in_assets-Refunds d = rw (eq-exact d) λ pools refunds amount total pos h.
    let (ratio, e, h1) = bind-ok (share_ratio exact amount total) _ h in
    let ratio_eq = share_ratio-exact amount total ratio pos e in
    scale_assets-Refunds pools refunds amount total pos (rw ratio_eq at h1)

repaid :
    (r p d s total : ℕ) → 0 < total + s → r * (total + s) ≤ (p + d) * s → s * p ≤ d * total → r ≤ d
repaid r p d s total pos h k = le_of_mul-le-mul r d (total + s) pos (omega arith)

-- Round trip of a later provision, into a pool with shares in supply: withdrawing the shares that it
-- minted, from the pools and the supply as it left them, pays back no more of either asset than was
-- provided.
pub get_share_in_assets-calculate_shares :
    {m : Math}
    → IsDocumented m
    → (d0 d1 p0 p1 total : ℕ) (tolerance : Option ℕ) (share : ℕ) (i0 i1 : AssetInfo) (r0 r1 : Asset)
    → 0 < total
    → calculate_shares m (d0, d1) (p0, p1) total tolerance ≡ ok share
    → get_share_in_assets m
        (record { info = i0; amount = p0 + d0 } ∷ record { info = i1; amount = p1 + d1 } ∷ [])
        share
        (total + share)
      ≡ ok (r0 ∷ r1 ∷ [])
    → (r0.amount ≤ d0) × (r1.amount ≤ d1)
get_share_in_assets-calculate_shares d d0 d1 p0 p1 total tolerance share i0 i1 r0 r1 pos h k =
    let minted = calculate_shares_proportional d d0 d1 p0 p1 total tolerance share pos h in
    let paid = get_share_in_assets-Refunds d _ _ share (total + share) (omega arith) k in
    (
      repaid r0.amount p0 d0 share total (omega arith) paid.1 minted.0,
      repaid r1.amount p1 d1 share total (omega arith) paid.3.1 minted.1,
    )
