-- ===== src/Buffer/Session.antt =====
-- A whole use of the circular buffer (packages/circular_buffer/src/lib.rs).
use astroport_core.Common.{
  ℕ, zero, suc, ◌-◌, ◌*◌, ◌%◌, ◌^◌, ◌<◌, ◌≤◌, ◌≡◌, refl, sym, ap, ◌∙◌, Option, none, some, List, [],
  arith, length, get_elem?, ==_of_pos, Option-cases, inl, inr, true, false, ltb,
}
use astroport_core.Common.Modulo.{mod-lt, mod_small}
use astroport_core.Cosmwasm.{ok, err}
use astroport_core.Cosmwasm.Inversion.{ok-inj}
use astroport_core.Buffer.Manager.{
  BufferManager, Stored, init, new, push_many, commit, read_single, read_last,
  buffer_already_initialized, read, read_all, range, clear_buffer, remove_below, exists,
}
use astroport_core.Buffer.History.{
  Tracks, latest, newest, pushed_onto, push_many-Tracks, commit-Tracks, read_single-Tracks,
  read_last-Tracks, latest-recent,
}

module _ {V : Type 0} where
  abbrev pub empty_store : Stored V
  empty_store = record { state = none; array = λ i. none }

  -- Once a buffer is initialised a second initialisation fails, with any capacity, and a manager of it
  -- starts at the head 0 with nothing to write.
  pub init_once :
      (store started : Stored V) (capacity other : ℕ)
      → init store capacity ≡ ok started
      → (init started other ≡ err buffer_already_initialized)
        × (new started
            ≡ ok (record {
              at_state = record { capacity = capacity; head = 0 };
              precommit_buffer = [];
            }))
  unfolding init new
  init_once store started capacity other h = elim (Option-cases store.state) [
    | inl fresh ↦
        let h1 : ok (record store { state = some (record { capacity = capacity; head = 0 }) })
            ≡ ok started =
          rw fresh at h in
        rw (← ok-inj h1) (refl, refl)
    | inr used ↦ let h1 : err buffer_already_initialized ≡ ok started = rw (used.1) at h in cc
  ]

  -- A buffer of a positive capacity of at most 2^31, initialised in an empty storage, takes any list of
  -- values and commits them; the last one is then read as the last, and each index reads the latest
  -- value of its slot, which is none where no value was pushed for it.
  pub session :
      (capacity : ℕ) (values : List V)
      → 0 < capacity
      → 2 * capacity ≤ 2 ^ 32
      → (started : Stored V) × (manager : BufferManager V) × (filled : BufferManager V)
        × (after : BufferManager V) × (saved : Stored V) × (init empty_store capacity ≡ ok started)
        × (new started ≡ ok manager)
        × (push_many manager values ≡ ok filled)
        × (commit filled started ≡ ok (after, saved))
        × (read_last after saved ≡ ok (newest (pushed_onto values [])))
        × ((index : ℕ)
            → read_single after saved index
              ≡ ok (latest capacity (pushed_onto values []) (index % capacity)))
  unfolding init new
  session capacity values pos room =
      let small : capacity < 2 ^ 32 = omega (arith, pos) in
      let started : Stored V = record {
        state = some (record { capacity = capacity; head = 0 });
        array = λ i. none;
      } in
      let manager : BufferManager V = record {
        at_state = record { capacity = capacity; head = 0 };
        precommit_buffer = [];
      } in
      let first : Tracks capacity [] manager started = record {
        capacity_eq = refl;
        head_eq = sym (mod_small 0 capacity pos);
        once = tt;
        below = tt;
        contents = λ i. refl;
      } in
      let (filled, e1, t1) = push_many-Tracks capacity pos small values [] manager started first in
      let (after, saved, e2, idle, t2) =
        commit-Tracks capacity pos small (pushed_onto values []) filled started t1 in
      (
        started,
        manager,
        filled,
        after,
        saved,
        refl,
        refl,
        e1,
        e2,
        read_last-Tracks capacity pos small (pushed_onto values []) after saved room idle t2,
        λ index.
            read_single-Tracks capacity pos small (pushed_onto values []) after saved index idle t2,
      )

  -- With nothing waiting to be written, the value pushed `age` pushes before the last one is still read
  -- at its slot, as long as it is among the last `capacity` values.
  pub read_single_recent :
      (capacity : ℕ) (history : List V) (manager : BufferManager V) (store : Stored V) (age : ℕ)
      → 0 < capacity
      → capacity < 2 ^ 32
      → manager.precommit_buffer ≡ []
      → Tracks capacity history manager store
      → age < capacity
      → age < length history
      → read_single manager store (length history - 1 - age) ≡ ok (get_elem? history age)
  read_single_recent capacity history manager store age pos small idle t recent known =
      read_single-Tracks capacity pos small history manager store (length history - 1 - age) idle t
      ∙ ap ok (latest-recent capacity history age recent known)

  remove_below-none : (n : ℕ) (array : ℕ → Option V) (i : ℕ) → i < n → remove_below n array i ≡ none
  unfolding remove_below
  remove_below-none zero array i h = absurd (omega arith)
  remove_below-none (suc n) array i h = ground (arith, remove_below-none n array i)

  read_empty :
      (manager : BufferManager V) (store : Stored V) (count : ℕ)
      → 0 < manager.at_state.capacity
      → 0 < count
      → store.array 0 ≡ none
      → read manager store (range 0 count) true ≡ ok []
  unfolding read range
  read_empty manager store zero pos some_count gone = absurd (omega arith)
  read_empty manager store (suc count) pos some_count gone =
      let one : ltb manager.at_state.capacity 1 ≡ false = ground arith in
      let zeroth : ltb (manager.at_state.capacity - 1) 0 ≡ false = ground arith in
      rw (one, zeroth, gone) refl

  -- After a clearing of a buffer of positive capacity nothing is left to read: neither all values nor
  -- the value at any index.
  pub clear_buffer_empties :
      (manager : BufferManager V) (store : Stored V) (index : ℕ)
      → 0 < manager.at_state.capacity
      → (read_all manager (clear_buffer manager store) ≡ ok [])
        × (read_single manager (clear_buffer manager store) index ≡ ok none)
        × (exists manager (clear_buffer manager store) index ≡ ok false)
  unfolding read_all read_single exists clear_buffer
  clear_buffer_empties manager store index pos =
      let capacity = manager.at_state.capacity in
      let first = remove_below-none capacity store.array 0 pos in
      let gone =
        remove_below-none capacity store.array (index % capacity) (mod-lt index capacity pos) in
      (
        read_empty manager (record store { array = remove_below capacity store.array }) capacity pos
            pos first,
        rw (==_of_pos capacity pos, gone) refl,
        rw (==_of_pos capacity pos, gone) refl,
      )
