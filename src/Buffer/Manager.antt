-- ===== src/Buffer/Manager.antt =====
-- The manager of a circular buffer in a contract's storage (packages/circular_buffer/src/lib.rs,
-- error.rs). The numbers are of 32 bits, and the repository builds with overflow checks: what does
-- not fit, a difference below 0 and a remainder by 0 panic. The storage of one buffer is the value
-- under the key of its state and the values under its array's keys; a stored value always reads back.
use astroport_core.Common.{
  ℕ, zero, suc, ◌+◌, ◌-◌, ◌%◌, Bool, true, false, Option, none, some, List, [], ◌∷◌, ◌==◌, leb, ltb,
  if◌then◌else◌,
}
use astroport_core.Cosmwasm.{Result, ok, err, panic, StdError, ◌>>=◌, or_panic, fits}

pub record BufferState : Type 0 where
  pub capacity : ℕ
  pub head : ℕ

pub data BufferError : Type 0 where
  std : StdError → BufferError
  reduce_capacity_error : BufferError
  save_value_error : ℕ → BufferError
  read_ahead_error : ℕ → BufferError
  index_not_found : ℕ → BufferError
  buffer_not_initialized : BufferError
  buffer_already_initialized : BufferError

-- What the operators of 32 bits answer.
abbrev pub sub_checked : ℕ → ℕ → Result BufferError ℕ
sub_checked a b = if ltb a b then panic else ok (a - b)

abbrev pub rem_checked : ℕ → ℕ → Result BufferError ℕ
rem_checked a b = if b == 0 then panic else ok (a % b)

abbrev pub add_checked : ℕ → ℕ → Result BufferError ℕ
add_checked a b = or_panic (fits 32 (a + b))

-- The numbers from `start`, `count` of them.
unfoldable pub range : ℕ → ℕ → List ℕ
range start zero = []
range start (suc count) = start ∷ range (suc start) count

module _ {V : Type 0} where
  -- `load` and `save` of the array, and `insert` and the look-up of the precommit buffer.
  abbrev pub save : ℕ → V → (ℕ → Option V) → ℕ → Option V
  save key value array i = if i == key then some value else array i

  abbrev pub insert : ℕ → V → List (ℕ × V) → List (ℕ × V)
  insert key value [] = (key, value) ∷ []
  insert key value ((k, v) ∷ rest) =
      let more = insert key value rest in if k == key then (key, value) ∷ rest else (k, v) ∷ more

pub record Stored (V : Type 0) : Type 0 where
  pub state : Option BufferState
  pub array : ℕ → Option V

pub record BufferManager (V : Type 0) : Type 0 where
  pub at_state : BufferState
  pub precommit_buffer : List (ℕ × V)

module _ {V : Type 0} where
  unfoldable pub init : Stored V → ℕ → Result BufferError (Stored V)
  init store capacity = elim store.state [
    | some state ↦ err buffer_already_initialized
    | none ↦ ok (record store { state = some (record { capacity = capacity; head = 0 }) })
  ]

  unfoldable pub new : Stored V → Result BufferError (BufferManager V)
  new store = elim store.state [
    | some state ↦ ok (record { at_state = state; precommit_buffer = [] })
    | none ↦ err buffer_not_initialized
  ]

  unfoldable pub push : BufferManager V → V → Result BufferError (BufferManager V)
  push manager value = do
    let state = manager.at_state
    next ← add_checked state.head 1
    head ← rem_checked next state.capacity
    ok (record {
      at_state = record state { head = head };
      precommit_buffer = insert state.head value manager.precommit_buffer;
    })

  unfoldable pub push_many : BufferManager V → List V → Result BufferError (BufferManager V)
  push_many manager [] = ok manager
  push_many manager (value ∷ values) = do pushed ← push manager value; push_many pushed values

  -- The loop of `commit`. The source's map has no order: its keys differ.
  unfoldable pub save_all : ℕ → List (ℕ × V) → (ℕ → Option V) → Result BufferError (ℕ → Option V)
  save_all capacity [] array = ok array
  save_all capacity ((key, value) ∷ rest) array =
      let saved = save_all capacity rest (save key value array) in
      if leb capacity key then err (save_value_error key) else saved

  unfoldable pub commit :
      BufferManager V → Stored V → Result BufferError (BufferManager V × Stored V)
  commit manager store = do
    array ← save_all manager.at_state.capacity manager.precommit_buffer store.array
    ok (
      record manager { precommit_buffer = [] },
      record { state = some manager.at_state; array = array },
    )

  unfoldable pub instant_push :
      BufferManager V → Stored V → V → Result BufferError (BufferManager V × Stored V)
  instant_push manager store value = do pushed ← push manager value; commit pushed store

  unfoldable pub read : BufferManager V → Stored V → List ℕ → Bool → Result BufferError (List V)
  read manager store [] stop_if_empty = ok []
  read manager store (ind ∷ indexes) stop_if_empty = do
    let rest = read manager store indexes stop_if_empty
    last ← sub_checked manager.at_state.capacity 1
    if ltb last ind then err (read_ahead_error ind) else elim (store.array ind) [
      | some value ↦ do values ← rest; ok (value ∷ values)
      | none ↦ if stop_if_empty then ok [] else err (index_not_found ind)
    ]

  unfoldable pub read_all : BufferManager V → Stored V → Result BufferError (List V)
  unfolding range
  read_all manager store = read manager store (range 0 manager.at_state.capacity) true

  unfoldable pub read_single : BufferManager V → Stored V → ℕ → Result BufferError (Option V)
  read_single manager store index = do
    ind ← rem_checked index manager.at_state.capacity
    ok (store.array ind)

  unfoldable pub read_last : BufferManager V → Stored V → Result BufferError (Option V)
  read_last manager store = do
    let state = manager.at_state
    above ← add_checked state.capacity state.head
    index ← sub_checked above 1
    ind ← rem_checked index state.capacity
    read_single manager store ind

  -- The removal of the keys below a number.
  unfoldable pub remove_below : ℕ → (ℕ → Option V) → ℕ → Option V
  remove_below zero array i = array i
  remove_below (suc n) array i = if i == n then none else remove_below n array i

  unfoldable pub clear_buffer : BufferManager V → Stored V → Stored V
  unfolding remove_below
  clear_buffer manager store = record store {
    array = remove_below manager.at_state.capacity store.array;
  }

  unfoldable pub exists : BufferManager V → Stored V → ℕ → Result BufferError Bool
  exists manager store index = do
    ind ← rem_checked index manager.at_state.capacity
    ok (elim (store.array ind) [ some value ↦ true | none ↦ false ])
