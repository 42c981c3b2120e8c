-- ===== src/Observation/Search.antt =====
-- The binary search over the slots of a buffer (packages/astroport/src/observation.rs). The loop has no
-- bound of its own: it runs on fuel, and Observation/Bounds shows how much is enough.
use astroport_core.Common.{ℕ, zero, suc, ◌/◌, Option, none, some, ◌&&◌, leb, ltb, if◌then◌else◌}
use astroport_core.Cosmwasm.{Result, ok, err, panic, StdError, generic_err, ◌>>=◌, map_err, or_err}
use astroport_core.Buffer.Manager.{
  BufferError, std, BufferManager, Stored, read_single, add_checked, sub_checked,
}

pub record Observation : Type 0 where
  pub ts : ℕ
  pub price : ℕ
  pub price_sma : ℕ

-- `From<BufferError> for StdError`
unfoldable pub into_std : BufferError → StdError
into_std (std e) = e
into_std _ = generic_err "buffer error"

-- How a round of the loop ends: with the two bounds, or with a narrower range.
pub data Round : Type 0 where
  found : Observation → Observation → Round
  narrowed : ℕ → ℕ → Round

module _ (buffer : BufferManager Observation) (storage : Stored Observation) (target : ℕ) where
  unfoldable pub search_round : ℕ → ℕ → Result StdError Round
  search_round start last = do
    sum ← map_err into_std (add_checked start last)
    let mid = sum / 2
    left ← map_err into_std (read_single buffer storage mid)
    leftward_or_hit ←
        or_err (generic_err "Unexpected error in binary_search: leftward_or_hit is None") left
    next ← map_err into_std (add_checked mid 1)
    right ← map_err into_std (read_single buffer storage next)
    rightward_or_hit ←
        or_err (generic_err "Unexpected error in binary_search: rightward_or_hit is None") right
    if leb leftward_or_hit.ts target && leb target rightward_or_hit.ts
        then ok (found leftward_or_hit rightward_or_hit)
        else if ltb target leftward_or_hit.ts
        then (do before ← map_err into_std (sub_checked mid 1); ok (narrowed start before))
        else ok (narrowed next last)

  -- `none` where the fuel runs out.
  unfoldable pub binary_search : ℕ → ℕ → ℕ → Option (Result StdError (Observation × Observation))
  binary_search zero start last = none
  binary_search (suc fuel) start last = elim (search_round start last) [
    | ok (found left right) ↦ some (ok (left, right))
    | ok (narrowed s l) ↦ binary_search fuel s l
    | err e ↦ some (err e)
    | panic ↦ some panic
  ]
