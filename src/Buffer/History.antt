-- ===== src/Buffer/History.antt =====
-- The circular buffer against the list of all values ever pushed, the newest first
-- (packages/circular_buffer/src/lib.rs).
use astroport_core.Common.{
  ℕ, zero, suc, ◌+◌, ◌-◌, ◌*◌, ◌%◌, ◌^◌, ◌<◌, ◌≤◌, ◌≡◌, refl, sym, ap, ◌∙◌, Option, none, some,
  List, [], ◌∷◌, arith, ◌==◌, if◌then◌else◌, length, get_elem?, ==_of_pos, ==_iff, true, false, ltb,
}
use astroport_core.Common.Modulo.{mod_apart, mod_step, mod_back, mod-lt, mod_small}
use astroport_core.Cosmwasm.{ok, fits_of_lt}
use astroport_core.Buffer.Manager.{
  BufferManager, Stored, push, push_many, commit, read_single, read_last, insert,
}
use astroport_core.Buffer.Staged.{
  staged, Once, Below, insert-Once, insert-Below, staged-insert, save_all-staged,
}

module _ {V : Type 0} where
  -- The value at an index: the newest one whose number, from 0, leaves that remainder.
  abbrev pub latest : ℕ → List V → ℕ → Option V
  latest capacity [] i = none
  latest capacity (v ∷ older) i =
      if i == length older % capacity then some v else latest capacity older i

  abbrev pub newest : List V → Option V
  newest [] = none
  newest (v ∷ older) = some v

  -- The history after more values.
  abbrev pub pushed_onto : List V → List V → List V
  pushed_onto [] history = history
  pushed_onto (v ∷ vs) history = pushed_onto vs (v ∷ history)

-- A manager and its storage hold a history: each index gives, once the waiting writes are done, the
-- latest value for it.
pub record Tracks {V : Type 0} (capacity : ℕ) (history : List V) (manager : BufferManager V)
    (store : Stored V) : Type 0 where
  pub capacity_eq : manager.at_state.capacity ≡ capacity
  pub head_eq : manager.at_state.head ≡ length history % capacity
  pub once : Once manager.precommit_buffer
  pub below : Below capacity manager.precommit_buffer
  pub contents : (i : ℕ) → staged manager.precommit_buffer store.array i ≡ latest capacity history i

module _ {V : Type 0} (capacity : ℕ) (pos : 0 < capacity) (small : capacity < 2 ^ 32) where
  -- A push never panics on a manager that holds a history, in a buffer of positive capacity below
  -- 2^32: it succeeds, and the manager then holds the history with the value.
  pub push-Tracks :
      (history : List V) (manager : BufferManager V) (store : Stored V) (value : V)
      → Tracks capacity history manager store
      → (after : BufferManager V) × (push manager value ≡ ok after)
        × Tracks capacity (value ∷ history) after store
  unfolding push
  push-Tracks history manager store value t =
      let below = mod-lt (length history) capacity pos in
      let step : (length history % capacity + 1) % capacity ≡ length (value ∷ history) % capacity =
        mod_step (length history) capacity pos ∙ ap (λ x. x % capacity) (omega arith) in
      let after : BufferManager V = record {
        at_state = record (manager.at_state) {
          head = (manager.at_state.head + 1) % manager.at_state.capacity;
        };
        precommit_buffer = insert manager.at_state.head value manager.precommit_buffer;
      } in
      (
        after,
        rw
            (
              fits_of_lt 32 (manager.at_state.head + 1) (omega (arith, t.head_eq, below)),
              ==_of_pos manager.at_state.capacity (omega (arith, t.capacity_eq)),
            )
            refl,
        record {
          capacity_eq = t.capacity_eq;
          head_eq = rw (t.capacity_eq, t.head_eq) step;
          once = insert-Once manager.at_state.head value manager.precommit_buffer t.once;
          below =
              insert-Below capacity manager.at_state.head value manager.precommit_buffer
                (omega (arith, t.head_eq, below)) t.below;
          contents = λ i.
              staged-insert manager.at_state.head i value manager.precommit_buffer store.array
              ∙ rw (t.contents i, t.head_eq) refl;
        },
      )

  pub push_many-Tracks :
      (values history : List V) (manager : BufferManager V) (store : Stored V)
      → Tracks capacity history manager store
      → (after : BufferManager V) × (push_many manager values ≡ ok after)
        × Tracks capacity (pushed_onto values history) after store
  unfolding push_many
  push_many-Tracks [] history manager store t = (manager, refl, t)
  push_many-Tracks (v ∷ vs) history manager store t =
      let (pushed, e, u) = push-Tracks history manager store v t in
      let (after, e', w) = push_many-Tracks vs (v ∷ history) pushed store u in (after, rw e e', w)

  -- A commit of a manager that holds a history succeeds, leaves nothing to write, and manager and
  -- storage hold the same history.
  pub commit-Tracks :
      (history : List V) (manager : BufferManager V) (store : Stored V)
      → Tracks capacity history manager store
      → (after : BufferManager V) × (saved : Stored V) × (commit manager store ≡ ok (after, saved))
        × (after.precommit_buffer ≡ [])
        × Tracks capacity history after saved
  unfolding commit
  commit-Tracks history manager store t =
      let (array, e, same) =
        save_all-staged capacity manager.precommit_buffer store.array t.once t.below in
      (
        record manager { precommit_buffer = [] },
        record { state = some manager.at_state; array = array },
        rw (t.capacity_eq, e) refl,
        refl,
        record {
          capacity_eq = t.capacity_eq;
          head_eq = t.head_eq;
          once = tt;
          below = tt;
          contents = λ i. same i ∙ t.contents i;
        },
      )

  -- With nothing waiting to be written, a read by any index gives the latest value of its slot.
  pub read_single-Tracks :
      (history : List V) (manager : BufferManager V) (store : Stored V) (index : ℕ)
      → manager.precommit_buffer ≡ []
      → Tracks capacity history manager store
      → read_single manager store index ≡ ok (latest capacity history (index % capacity))
  unfolding read_single
  read_single-Tracks history manager store index idle t =
      let stored : store.array (index % capacity) ≡ latest capacity history (index % capacity) =
        ap (λ w. staged w store.array (index % capacity)) (sym idle)
        ∙ t.contents (index % capacity) in
      rw (t.capacity_eq, ==_of_pos capacity pos, stored) refl

  latest-back :
      (history : List V)
      → latest capacity history ((capacity + length history % capacity - 1) % capacity % capacity)
        ≡ newest history
  latest-back [] = refl
  latest-back (v ∷ older) =
      let back : (capacity + length (v ∷ older) % capacity - 1) % capacity
          ≡ length older % capacity =
        ap (λ x. (capacity + x % capacity - 1) % capacity) (omega arith)
        ∙ mod_back (length older) capacity pos in
      let twice =
        mod_small (length older % capacity) capacity (mod-lt (length older) capacity pos) in
      let hit : (length older % capacity == length older % capacity) ≡ true = (==_iff _ _).1 refl in
      rw (back, twice, hit) refl

  pub read_last-Tracks :
      (history : List V) (manager : BufferManager V) (store : Stored V)
      → 2 * capacity ≤ 2 ^ 32
      → manager.precommit_buffer ≡ []
      → Tracks capacity history manager store
      → read_last manager store ≡ ok (newest history)
  unfolding read_last read_single
  read_last-Tracks history manager store room idle t =
      let below = mod-lt (length history) capacity pos in
      let slot = (capacity + length history % capacity - 1) % capacity % capacity in
      let some_above : ltb (capacity + length history % capacity) 1 ≡ false = ground arith in
      rw
        (
          t.head_eq,
          t.capacity_eq,
          fits_of_lt 32 (capacity + length history % capacity) (omega arith),
          some_above,
          ==_of_pos capacity pos,
        )
        (ap ok
          (ap (λ w. staged w store.array slot) (sym idle) ∙ t.contents slot ∙ latest-back history))

module _ {V : Type 0} (capacity : ℕ) where
  -- The slots of the last `capacity` values hold them all.
  pub latest-recent :
      (history : List V) (age : ℕ)
      → age < capacity
      → age < length history
      → latest capacity history ((length history - 1 - age) % capacity) ≡ get_elem? history age
  latest-recent [] age recent known = absurd (omega arith)
  latest-recent (v ∷ older) zero recent known =
      let same : length (v ∷ older) - 1 - 0 ≡ length older = omega arith in
      let hit : (length older % capacity == length older % capacity) ≡ true = (==_iff _ _).1 refl in
      rw (same, hit) refl
  latest-recent (v ∷ older) (suc age) recent known =
      let same : length (v ∷ older) - 1 - suc age ≡ length older - suc age = omega arith in
      let next : length older - suc age ≡ length older - 1 - age = omega arith in
      let apart = mod_apart (length older) (suc age) capacity (omega arith) recent (omega arith) in
      let miss : ((length older - suc age) % capacity == length older % capacity) ≡ false =
        ground arith in
      rw (same, miss)
        (ap (λ x. latest capacity older (x % capacity)) next
          ∙ latest-recent older age (omega arith) (omega arith))
