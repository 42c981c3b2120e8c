-- ===== src/Incentives/Orphans.antt =====
-- The owner's claim of orphaned rewards (contracts/tokenomics/incentives/src/utils.rs).
use astroport_core.Common.{
  ◌<◌, ℕ, zero, suc, true, false, Option, List, [], ◌∷◌, not, ◌==◌, if◌then◌else◌, ◌≡◌, ◌≤◌, refl,
  arith, min, length,
}
use astroport_core.Cosmwasm.{
  Result, ok, err, panic, StdError, generic_err, Math, ◌>>=◌, ◌>>◌, fail_if, map_err, unwrap_or,
}
use astroport_core.Asset.{Text, AssetInfo, token, native_token, text_eq, Chain, MessageInfo}
use astroport_core.Texts.Dict.{Dict, remove}
use astroport_core.Incentives.Types.{ContractError, std, unauthorized, no_orphaned_rewards}
use astroport_core.Incentives.Storage.{Store, Transfer, register_pending_transfer}

-- MAX_ORPHANED_REWARD_LIMIT
abbrev pub max_orphaned_reward_limit : ℕ
max_orphaned_reward_limit = 10

-- `from_key_to_asset_info`, given how bytes are read as a text.
unfoldable pub from_key_to_asset_info :
    (Text → Result StdError Text) → Text → Result StdError AssetInfo
from_key_to_asset_info from_utf8 [] = panic
from_key_to_asset_info from_utf8 (first ∷ rest) =
    if first == 0
    then (do t ← from_utf8 rest; ok (native_token t))
    else if first == 1
    then (do t ← from_utf8 rest; ok (token t))
    else err (generic_err "Failed to deserialize asset info key")

-- The first entries of a map.
unfoldable pub first_entries : ℕ → Dict ℕ → Dict ℕ
first_entries zero d = []
first_entries (suc n) [] = []
first_entries (suc n) (x ∷ rest) = x ∷ first_entries n rest

module _ (m : Math) (from_utf8 : Text → Result StdError Text) where
  -- The loop: an entry of zero is passed over, and stays.
  unfoldable pub send_orphans : Dict ℕ → Store → Result ContractError (Store × List Transfer)
  unfolding from_key_to_asset_info
  send_orphans [] store = ok (store, [])
  send_orphans ((key, amount) ∷ rest) store = elim (amount == 0) [
    | true ↦ send_orphans rest store
    | false ↦ do
      let removed = record store { orphaned_rewards = remove key store.orphaned_rewards }
      info ← map_err std (from_key_to_asset_info from_utf8 key)
      (reply_id, store') ← register_pending_transfer m info amount removed
      (store'', transfers) ← send_orphans rest store'
      ok (
        store'',
        record {
          reply_id = reply_id;
          asset = record { info = info; amount = amount };
          recipient = store.config.owner;
          gas_limit = store.config.token_transfer_gas_limit;
        }
            ∷ transfers,
      )
  ]

  unfoldable pub claim_orphaned_rewards :
      Chain → MessageInfo → Option ℕ → Text → Store → Result ContractError (Store × List Transfer)
  unfolding send_orphans first_entries
  claim_orphaned_rewards chain info limit receiver store = do
    fail_if (not (text_eq info.sender store.config.owner)) unauthorized
    supplied_receiver ← map_err std (chain.addr_validate receiver)
    let entries =
        first_entries (min (unwrap_or limit max_orphaned_reward_limit) max_orphaned_reward_limit)
          store.orphaned_rewards
    fail_if (length entries == 0) no_orphaned_rewards
    send_orphans entries store

abbrev pub AllZero : Dict ℕ → Type 0
AllZero [] = Unit
AllZero ((key, amount) ∷ rest) = (amount ≡ 0) × AllZero rest

send_orphans-AllZero :
    (m : Math) (from_utf8 : Text → Result StdError Text) (d : Dict ℕ) (store : Store)
    → AllZero d
    → send_orphans m from_utf8 d store ≡ ok (store, [])
unfolding send_orphans
send_orphans-AllZero m from_utf8 [] store h = refl
send_orphans-AllZero m from_utf8 ((key, amount) ∷ rest) store (z, h) =
    rw z (send_orphans-AllZero m from_utf8 rest store h)

AllZero-first_entries :
    (n k : ℕ) (d : Dict ℕ) → k ≤ n → AllZero (first_entries n d) → AllZero (first_entries k d)
unfolding first_entries
AllZero-first_entries n zero d h z = tt
AllZero-first_entries n (suc k) [] h z = tt
AllZero-first_entries zero (suc k) (x ∷ rest) h z = absurd (omega arith)
AllZero-first_entries (suc n) (suc k) ((key, amount) ∷ rest) h z =
    (z.0, AllZero-first_entries n k rest (omega arith) z.1)

some_entries :
    (n : ℕ) (d : Dict ℕ) → 0 < n → 0 < length d → (length (first_entries n d) == 0) ≡ false
unfolding first_entries
some_entries zero d h pos = absurd (omega arith)
some_entries (suc n) [] h pos = absurd (omega arith)
some_entries (suc n) (x ∷ rest) h pos = ground arith

-- Entries of zero block the orphaned rewards behind them: while the first ten entries of the map are
-- zero, a claim of the owner, with a limit that is not zero and a receiver that is a valid address,
-- succeeds, but it sends nothing and leaves the storage as it is, these entries included.
pub claim_orphaned_rewards_blocked :
    (m : Math) (from_utf8 : Text → Result StdError Text) (chain : Chain) (info : MessageInfo)
    (limit : Option ℕ) (receiver supplied_receiver : Text) (store : Store)
    → AllZero (first_entries max_orphaned_reward_limit store.orphaned_rewards)
    → 0 < length store.orphaned_rewards
    → 0 < unwrap_or limit max_orphaned_reward_limit
    → text_eq info.sender store.config.owner ≡ true
    → chain.addr_validate receiver ≡ ok supplied_receiver
    → claim_orphaned_rewards m from_utf8 chain info limit receiver store ≡ ok (store, [])
unfolding claim_orphaned_rewards
claim_orphaned_rewards_blocked m from_utf8 chain info limit receiver supplied store z some_left pos
      owner valid =
    let n = min (unwrap_or limit max_orphaned_reward_limit) max_orphaned_reward_limit in
    let few = first_entries n store.orphaned_rewards in
    let zeros : AllZero few =
      AllZero-first_entries max_orphaned_reward_limit n store.orphaned_rewards (omega arith) z in
    let not_none = some_entries n store.orphaned_rewards (omega arith) some_left in
    rw (owner, valid, not_none) (send_orphans-AllZero m from_utf8 few store zeros)
