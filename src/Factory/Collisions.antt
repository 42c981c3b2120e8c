-- ===== src/Factory/Collisions.antt =====
-- The key of a pair is the concatenation of its assets' names, so that different pairs can share a key
-- (contracts/factory/src/state.rs, `pair_key`).
use mathlib.Core.List.{append_assoc}
use astroport_core.Common.{ℕ, ◌≡◌, sym, ap, ◌∙◌, true, Option, some, List, [], ◌∷◌, ◌++◌}
use astroport_core.Cosmwasm.{ok, err}
use astroport_core.Asset.{Addr, Text, AssetInfo, native_token, Env, MessageInfo, Chain, PairType}
use astroport_core.Texts.Order.{text_le}
use astroport_core.Texts.Sorting.{sorted, insert_sorted}
use astroport_core.Texts.Dict.{lookup}
use astroport_core.Factory.Types.{Store, pair_was_created}
use astroport_core.Factory.Keys.{check_asset_infos, pair_key, flatten, as_bytes}
use astroport_core.Factory.Handlers.{execute_create_pair}
use astroport_core.Factory.Registry.{create_pair_refused}

abbrev pub two_natives : Text → Text → List AssetInfo
two_natives s t = native_token s ∷ native_token t ∷ []

pair_key-two : (s t : Text) → text_le s t ≡ true → pair_key (two_natives s t) ≡ s ++ (t ++ [])
unfolding pair_key sorted insert_sorted flatten as_bytes
pair_key-two s t h = rw h

-- A letter moved from the end of one name to the front of the next leaves the key.
shared_key :
    (s t : Text) (x : ℕ)
    → text_le (s ++ x ∷ []) t ≡ true
    → text_le s (x ∷ t) ≡ true
    → pair_key (two_natives (s ++ x ∷ []) t) ≡ pair_key (two_natives s (x ∷ t))
shared_key s t x h k =
    pair_key-two (s ++ x ∷ []) t h
    ∙ append_assoc s (x ∷ []) (t ++ [])
    ∙ sym (pair_key-two s (x ∷ t) k)

-- A registered pair of two native assets keeps out the pair in which a letter has moved from the end of
-- the first name to the front of the second, as long as both name their assets in order: where its
-- assets pass the checks, the second is refused with the error that the pair was created already,
-- though it is another pair.
pub create_pair_collides :
    (chain : Chain) (env : Env) (info : MessageInfo) (store : Store) (pair_type : PairType)
    (init_params : Option Text) (a : Addr) (s t : Text) (x : ℕ)
    → text_le (s ++ x ∷ []) t ≡ true
    → text_le s (x ∷ t) ≡ true
    → lookup (pair_key (two_natives (s ++ x ∷ []) t)) store.pairs ≡ some a
    → check_asset_infos chain (two_natives s (x ∷ t)) ≡ ok tt
    → execute_create_pair chain env info store pair_type (two_natives s (x ∷ t)) init_params
      ≡ err pair_was_created
create_pair_collides chain env info store pair_type init_params a s t x h k there fine =
    create_pair_refused chain env info store pair_type (two_natives s (x ∷ t)) init_params a
      (ap (λ key. lookup key store.pairs) (sym (shared_key s t x h k)) ∙ there) fine
