-- ===== src/Buffer/Tests.antt =====
-- Concrete runs of the circular buffer (packages/circular_buffer/src/lib.rs).
use astroport_core.Common.{ℕ, ◌%◌, ◌≡◌, refl, none, some, [], ◌∷◌, arith}
use astroport_core.Cosmwasm.{ok}
use astroport_core.Buffer.Manager.{
  BufferManager, Stored, init, new, push_many, commit, read_single, read_last, read_all, read,
  range,
}
use astroport_core.Buffer.History.{latest, newest, pushed_onto}
use astroport_core.Buffer.Session.{empty_store, session}

abbrev started : Stored ℕ
started = record { state = some (record { capacity = 3; head = 0 }); array = λ i. none }

abbrev fresh : BufferManager ℕ
fresh = record { at_state = record { capacity = 3; head = 0 }; precommit_buffer = [] }

initialised : init empty_store 3 ≡ ok started
unfolding init
initialised = refl

session_example :
    (started : Stored ℕ) × (manager : BufferManager ℕ) × (filled : BufferManager ℕ)
    × (after : BufferManager ℕ) × (saved : Stored ℕ) × (init empty_store 3 ≡ ok started)
    × (new started ≡ ok manager)
    × (push_many manager (11 ∷ 12 ∷ 13 ∷ 14 ∷ []) ≡ ok filled)
    × (commit filled started ≡ ok (after, saved))
    × (read_last after saved ≡ ok (newest (pushed_onto (11 ∷ 12 ∷ 13 ∷ 14 ∷ []) [])))
    × ((index : ℕ)
        → read_single after saved index
          ≡ ok (latest 3 (pushed_onto (11 ∷ 12 ∷ 13 ∷ 14 ∷ []) []) (index % 3)))
session_example = session 3 (11 ∷ 12 ∷ 13 ∷ 14 ∷ []) (omega arith) (omega arith)

-- Four values in three slots.
abbrev turned : BufferManager ℕ
turned = record { at_state = record { capacity = 3; head = 1 }; precommit_buffer = [] }

abbrev written : Stored ℕ
written = record {
  state = some (record { capacity = 3; head = 1 });
  array = latest 3 (14 ∷ 13 ∷ 12 ∷ 11 ∷ []);
}

all_read : read_all turned written ≡ ok (14 ∷ 12 ∷ 13 ∷ [])
unfolding read_all read range
all_read = refl
