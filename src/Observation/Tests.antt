-- ===== src/Observation/Tests.antt =====
-- A search in a buffer of five observations (packages/astroport/src/observation.rs).
use astroport_core.Common.{ℕ, zero, suc, ◌*◌, ◌≡◌, refl, some, arith, [], ltb, if◌then◌else◌, none}
use astroport_core.Cosmwasm.{ok}
use astroport_core.Buffer.Manager.{BufferManager, Stored, read_single}
use astroport_core.Observation.Search.{Observation, binary_search, search_round}
use astroport_core.Observation.Bounds.{Present, Around, binary_search-Around}

-- The observation of a slot, every ten seconds.
abbrev each : ℕ → Observation
each i = record { ts = 10 * i; price = 1; price_sma = 1 }

abbrev buffer : BufferManager Observation
buffer = record { at_state = record { capacity = 8; head = 5 }; precommit_buffer = [] }

abbrev storage : Stored Observation
storage = record {
  state = some (record { capacity = 8; head = 5 });
  array = λ i. if ltb i 5 then some (each i) else none;
}

all-Present : Present buffer storage 34 each 0 4
unfolding read_single
all-Present zero p q = refl
all-Present (suc zero) p q = refl
all-Present (suc (suc zero)) p q = refl
all-Present (suc (suc (suc zero))) p q = refl
all-Present (suc (suc (suc (suc zero)))) p q = refl
all-Present (suc (suc (suc (suc (suc i))))) p q = absurd (omega arith)

searched : binary_search buffer storage 34 5 0 4 ≡ some (ok (each 3, each 4))
unfolding binary_search search_round read_single
searched = refl

binary_search-Around_example :
    Around buffer storage 34 each 0 4 (binary_search buffer storage 34 5 0 4)
binary_search-Around_example =
    binary_search-Around buffer storage 34 each 0 4 (omega arith) (omega arith) all-Present
      (omega arith) (omega arith)
