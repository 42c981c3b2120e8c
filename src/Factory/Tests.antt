-- ===== src/Factory/Tests.antt =====
-- Concrete runs of the factory (contracts/factory/src/contract.rs), and its theorems at them.
use mathlib.Core.List.Perm
use astroport_core.Common.{◌≡◌, refl, none, some, [], ◌∷◌, ◌++◌, true, false}
use astroport_core.Cosmwasm.{ok, exact, exact-IsDocumented, generic_err, err, Result, StdError}
use astroport_core.Asset.{
  native_token, xyk, Chain, Env, MessageInfo, Addr, Text, PairInfo, check, addr_opt_validate,
  all_unique, try_for_each,
}
use astroport_core.Asset.Types.{equal, text_eq, contains}
use astroport_core.Asset.Denom.{validate_native_denom}
use astroport_core.Texts.Order.{text_le}
use astroport_core.Texts.Sorting.{sorted, insert_sorted}
use astroport_core.Texts.Dict.{lookup, insert, has}
use astroport_core.Ownership.Proposals.{claim_ownership}
use astroport_core.Factory.Types.{
  PairConfig, InstantiateMsg, Store, Response, instantiate_pair, claim_owner, valid_fee_bps,
  pair_was_created, type_name,
}
use astroport_core.Factory.Keys.{pair_key, check_asset_infos}
use astroport_core.Factory.Handlers.{execute_create_pair}
use astroport_core.Factory.Entry.{instantiate, reply, execute}
use astroport_core.Factory.Invariant.{WellFormed, Running, instantiated, Running-WellFormed}
use astroport_core.Factory.Registry.{
  Registers, reply-create_pair, create_pair_once, OwnerRule, execute-OwnerRule,
}
use astroport_core.Factory.Collisions.{two_natives, create_pair_collides}

abbrev owner : Addr
owner = 1 ∷ []

abbrev next_owner : Addr
next_owner = 2 ∷ []

abbrev chain : Chain
chain = record {
  addr_validate = ok;
  bank_balance = λ account denom. ok (record { denom = denom; coin_amount = 0 });
  cw20_balance = λ contract account. ok 0;
  bank_supply = λ denom. ok (record { denom = denom; coin_amount = 0 });
  fee_info = λ address kind. err (generic_err "");
  factory_config = λ address. err (generic_err "");
  tracker_config = λ address. err (generic_err "");
  must_pay = λ info denom. none;
  one_coin = λ info. none;
}

abbrev no_pairs : Addr → Result StdError PairInfo
no_pairs a = err (generic_err "")

abbrev env : Env
env = record { time = 5_000; seconds = 5; height = 1; self = 9 ∷ [] }

abbrev by : Addr → MessageInfo
by a = record { sender = a; funds = [] }

abbrev xyk_config : PairConfig
xyk_config = record {
  code_id = 4;
  pair_type = xyk;
  total_fee_bps = 30;
  maker_fee_bps = 3_333;
  is_disabled = false;
  is_generator_disabled = false;
  permissioned = false;
  whitelist = none;
}

abbrev start_msg : InstantiateMsg
start_msg = record {
  pair_configs = xyk_config ∷ [];
  init_token_code_id = 3;
  init_fee_address = none;
  init_generator_address = none;
  init_owner = owner;
  init_whitelist_code_id = 7;
  init_coin_registry_address = 8 ∷ [];
  init_tracker_config = none;
}

abbrev start : Store
start = record {
  config = record {
    owner = owner;
    token_code_id = 3;
    generator_address = none;
    fee_address = none;
    whitelist_code_id = 7;
    coin_registry_address = 8 ∷ [];
  };
  pairs = [];
  configs = (b'x' ∷ b'y' ∷ b'k' ∷ [], xyk_config) ∷ [];
  tracker_config = none;
  tmp_pair_info = none;
  proposal = none;
}

abbrev quiet : Store → Response
quiet store = record { store = store; messages = [] }

starts : instantiate chain start_msg ≡ ok (quiet start)
unfolding instantiate valid_fee_bps type_name insert text_eq addr_opt_validate
starts = refl

abbrev running : Running exact start
running = instantiated chain start_msg (quiet start) starts

Running-WellFormed_example : WellFormed start
Running-WellFormed_example = Running-WellFormed exact-IsDocumented start running

abbrev abcd : Text
abcd = b'a' ∷ b'b' ∷ b'c' ∷ b'd' ∷ []

abbrev efg : Text
efg = b'e' ∷ b'f' ∷ b'g' ∷ []

abbrev key : Text
key = abcd ++ efg

abbrev created : Response
created = record {
  store = record start { tmp_pair_info = some key };
  messages = instantiate_pair owner 4 xyk (two_natives abcd efg) 3 (9 ∷ []) none [] ∷ [];
}

creates :
    execute_create_pair chain env (by next_owner) start xyk (two_natives abcd efg) none ≡ ok created
unfolding execute_create_pair check_asset_infos all_unique contains equal text_eq try_for_each check
    validate_native_denom pair_key sorted insert_sorted text_le has lookup type_name
creates = refl

abbrev with_pair : Store
with_pair = record start { tmp_pair_info = some key; pairs = (key, 6 ∷ []) ∷ [] }

replies : reply chain created.store (some (some (6 ∷ []))) ≡ ok (quiet with_pair)
unfolding reply has lookup insert
replies = refl

reply-create_pair_example :
    Registers chain (pair_key (two_natives abcd efg)) (some (6 ∷ [])) start (quiet with_pair)
reply-create_pair_example =
    reply-create_pair chain env (by next_owner) start xyk (two_natives abcd efg) none created
      (some (6 ∷ [])) (quiet with_pair) creates replies

there : lookup (pair_key (two_natives abcd efg)) with_pair.pairs ≡ some (6 ∷ [])
unfolding pair_key sorted insert_sorted text_le lookup text_eq
there = refl

create_pair_once_example : ¬ (
    execute_create_pair chain env (by owner) with_pair xyk (two_natives efg abcd) none
    ≡ ok (quiet with_pair))
create_pair_once_example =
    create_pair_once chain env (by owner) with_pair xyk (two_natives abcd efg)
      (two_natives efg abcd) none (6 ∷ []) (quiet with_pair) there
      (Perm.swap (native_token efg) (native_token abcd) [])

abbrev abc : Text
abc = b'a' ∷ b'b' ∷ b'c' ∷ []

in_order : text_le (abc ++ b'd' ∷ []) efg ≡ true
unfolding text_le
in_order = refl

in_order_moved : text_le abc (b'd' ∷ efg) ≡ true
unfolding text_le
in_order_moved = refl

moved_fine : check_asset_infos chain (two_natives abc (b'd' ∷ efg)) ≡ ok tt
unfolding check_asset_infos all_unique contains equal text_eq try_for_each check
    validate_native_denom
moved_fine = refl

create_pair_collides_example :
    execute_create_pair chain env (by owner) with_pair xyk (two_natives abc (b'd' ∷ efg)) none
    ≡ err pair_was_created
create_pair_collides_example =
    create_pair_collides chain env (by owner) with_pair xyk none (6 ∷ []) abc efg b'd' in_order
      in_order_moved there moved_fine

abbrev proposed : Store
proposed = record start { proposal = some (record { proposed_owner = next_owner; ttl = 100 }) }

abbrev claimed : Store
claimed = record start { config = record (start.config) { owner = next_owner } }

claims : execute exact chain no_pairs env (by next_owner) proposed claim_owner ≡ ok (quiet claimed)
unfolding execute claim_ownership text_eq
claims = refl

execute-OwnerRule_example : OwnerRule env (by next_owner) claim_owner proposed claimed
execute-OwnerRule_example =
    execute-OwnerRule exact-IsDocumented chain no_pairs env (by next_owner) proposed claim_owner
      (quiet claimed) claims
