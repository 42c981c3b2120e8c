-- ===== src/Observation/Bounds.antt =====
-- The binary search ends, with two neighbours around the target (packages/astroport/src/observation.rs).
use astroport_core.Common.{
  ℕ, zero, suc, ◌+◌, ◌-◌, ◌/◌, ◌^◌, ◌≤◌, ◌<◌, ◌≡◌, refl, ◌∙◌, some, Option, arith, Bool-cases, inl,
  inr, leb, ltb, false, not_leb, leb→le, lt→ltb, le→leb,
}
use astroport_core.Cosmwasm.{ok, fits_of_lt, Result, StdError}
use astroport_core.Buffer.Manager.{BufferManager, Stored, read_single}
use astroport_core.Observation.Search.{Observation, found, narrowed, search_round, binary_search}

lt→leb_false : (a b : ℕ) → b < a → leb a b ≡ false
lt→leb_false a b h = ground arith

le→ltb_false : (a b : ℕ) → b ≤ a → ltb a b ≡ false
le→ltb_false a b h = ground arith

module _ (buffer : BufferManager Observation) (storage : Stored Observation) (target : ℕ)
    (obs : ℕ → Observation) where
  -- Every slot of a range can be read.
  abbrev pub Present : ℕ → ℕ → Type 0
  Present start hi = (i : ℕ) → start ≤ i → i ≤ hi → read_single buffer storage i ≡ ok (some (obs i))

  -- A round on a range that can be read.
  round-exact :
      (start last : ℕ)
      → start + last < 2 ^ 31
      → let mid = (start + last) / 2 in
        read_single buffer storage mid ≡ ok (some (obs mid))
        → read_single buffer storage (mid + 1) ≡ ok (some (obs (mid + 1)))
        → ((obs mid).ts ≤ target
            → target ≤ (obs (mid + 1)).ts
            → search_round buffer storage target start last ≡ ok (found (obs mid) (obs (mid + 1))))
          × (0 < mid
              → target < (obs mid).ts
              → search_round buffer storage target start last ≡ ok (narrowed start (mid - 1)))
          × ((obs mid).ts ≤ target
              → (obs (mid + 1)).ts < target
              → search_round buffer storage target start last ≡ ok (narrowed (mid + 1) last))
  unfolding search_round
  round-exact start last room here there =
      let mid = (start + last) / 2 in
      rw
        (
          fits_of_lt 32 (start + last) (omega arith),
          here,
          fits_of_lt 32 (mid + 1) (omega arith),
          there,
        )
        (
          λ h k. rw (le→leb _ _ h, le→leb _ _ k) refl,
          λ p h. rw (lt→leb_false _ _ h, lt→ltb _ _ h, le→ltb_false mid 1 p) refl,
          λ h k. rw (le→leb _ _ h, lt→leb_false _ _ k, le→ltb_false _ _ h) refl,
        )

  -- What a search answers: two neighbouring slots of the range, around the target.
  pub record Around (start hi : ℕ) (answer : Option (Result StdError (Observation × Observation)))
      : Type 0 where
    pub slot : ℕ
    pub start_le : start ≤ slot
    pub slot_lt : slot < hi
    pub answer_eq : answer ≡ some (ok (obs slot, obs (slot + 1)))
    pub left_le : (obs slot).ts ≤ target
    pub le_right : target ≤ (obs (slot + 1)).ts

  widen :
      (start hi start' hi' : ℕ) (a b : Option (Result StdError (Observation × Observation)))
      → start ≤ start'
      → hi' ≤ hi
      → b ≡ a
      → Around start' hi' a
      → Around start hi b
  widen start hi start' hi' a b h k e around = record {
    slot = around.slot;
    start_le = omega (arith, around.start_le);
    slot_lt = omega (arith, around.slot_lt);
    answer_eq = e ∙ around.answer_eq;
    left_le = around.left_le;
    le_right = around.le_right;
  }

  search_loop :
      (fuel start last hi : ℕ)
      → start ≤ last
      → start < hi
      → last ≤ hi
      → hi ≤ last + 1
      → last < 2 ^ 30
      → Present start hi
      → (obs start).ts < target
      → target < (obs hi).ts
      → last < fuel + start
      → Around start hi (binary_search buffer storage target fuel start last)
  unfolding binary_search
  search_loop zero start last hi a b c d room present low high enough = absurd (omega arith)
  search_loop (suc fuel) start last hi a b c d room present low high enough =
      let mid = (start + last) / 2 in
      let here = present mid (omega arith) (omega arith) in
      let there = present (mid + 1) (omega arith) (omega arith) in
      let (hit, left, right) = round-exact start last (omega arith) here there in
      elim (Bool-cases (leb (obs mid).ts target)) [
        | inr early ↦
            let over : target < (obs mid).ts = not_leb _ _ early in
            let later : start < mid = grind arith in
            let step : binary_search buffer storage target (suc fuel) start last
                ≡ binary_search buffer storage target fuel start (mid - 1) =
              rw (binary_search, left (omega arith) over) refl in
            widen start hi start mid _ _ (omega arith) (omega arith) step (
              search_loop fuel start (mid - 1) mid (omega arith) later (omega arith) (omega arith)
                (omega arith) (λ i p q. present i p (omega arith)) low over (omega arith))
        | inl fits_left ↦ elim (Bool-cases (leb target (obs (mid + 1)).ts)) [
          | inl fits_right ↦ record {
            slot = mid;
            start_le = omega arith;
            slot_lt = omega arith;
            answer_eq = rw (binary_search, hit (leb→le _ _ fits_left) (leb→le _ _ fits_right)) refl;
            left_le = leb→le _ _ fits_left;
            le_right = leb→le _ _ fits_right;
          }
          | inr late ↦
              let under : (obs (mid + 1)).ts < target = not_leb _ _ late in
              let before : mid + 1 < hi = grind arith in
              let step : binary_search buffer storage target (suc fuel) start last
                  ≡ binary_search buffer storage target fuel (mid + 1) last =
                rw (binary_search, right (leb→le _ _ fits_left) under) refl in
              widen start hi (mid + 1) hi _ _ (omega arith) (omega arith) step (
                search_loop fuel (mid + 1) last hi (omega arith) before c d room
                  (λ i p q. present i (omega arith) q) under high (omega arith))
        ]
      ]

  -- Where every slot of a range can be read, by indices below 2^30, and the target lies strictly
  -- between the times of its two ends, the search ends after at most as many rounds as the range has
  -- slots; it neither fails nor panics, and answers two neighbouring slots of the range, the first
  -- not later than the target and the second not earlier.
  pub binary_search-Around :
      (start last : ℕ)
      → start < last
      → last < 2 ^ 30
      → Present start last
      → (obs start).ts < target
      → target < (obs last).ts
      → Around start last (binary_search buffer storage target (last + 1 - start) start last)
  binary_search-Around start last less room present low high =
      search_loop (last + 1 - start) start last last (omega arith) less (omega arith) (omega arith)
        room present low high (omega arith)
