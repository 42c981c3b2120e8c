-- ===== src/Factory/Invariant.antt =====
-- What holds of the factory's state after any sequence of calls (contracts/factory/src/contract.rs).
use astroport_core.Common.{
  ◌≤◌, ◌≡◌, ◌≢◌, refl, sym, subst, Bool, true, false, Option, none, some, List, [], ◌∷◌, not, arith,
  Bool-cases, inl, inr,
}
use astroport_core.Cosmwasm.{
  Math, IsDocumented, eq-exact, exact, ok, map_err, fail_if, Result, StdError, or_err, not_found,
}
use astroport_core.Cosmwasm.Inversion.{map_err-ok, or_err-some}
use astroport_core.Cosmwasm.Outcome.{Gives, bind-Gives, of-Gives}
use astroport_core.Asset.{
  Addr, Text, Env, MessageInfo, Chain, PairType, PairInfo, text_eq, FeeInfoResponse,
}
use astroport_core.Asset.Equality.{ne_of_text_eq}
use astroport_core.Texts.Order.{text_le}
use astroport_core.Texts.Dict.{Dict, lookup, insert}
use astroport_core.Ownership.Proposals.{
  OwnershipProposal, propose_new_owner, drop_ownership_proposal, claim_ownership,
}
use astroport_core.Ownership.Rules.{propose_new_owner-Proposed, drop_ownership_proposal-Dropped}
use astroport_core.Factory.Types.{
  std, pair_config_invalid_fee_bps, PairConfig, valid_fee_bps, type_name, InstantiateMsg,
  ExecuteMsg, update_config, update_tracker, update_pair_config, create_pair, deregister_pair,
  propose_owner, drop_proposal, claim_owner, Store, Response,
}
use astroport_core.Factory.Handlers.{
  execute_update_config, execute_update_pair_config, execute_create_pair, deregister,
  update_tracker_config,
}
use astroport_core.Factory.Entry.{instantiate, reply, execute, save_configs, query_fee_info}

-- Each pair type's fees are within 100%, and it is stored under its name.
abbrev pub ValidConfigs : Dict PairConfig → Type 0
ValidConfigs [] = Unit
ValidConfigs ((k, pc) ∷ rest) =
    ((pc.total_fee_bps ≤ 10_000) × (pc.maker_fee_bps ≤ 10_000))
    × (k ≡ type_name pc.pair_type)
    × ValidConfigs rest

-- A proposal is for another address than the owner.
abbrev pub ForAnother : Addr → Option OwnershipProposal → Type 0
ForAnother owner none = Unit
ForAnother owner (some p) = p.proposed_owner ≢ owner

pub record WellFormed (store : Store) : Type 0 where
  pub valid_configs : ValidConfigs store.configs
  pub for_another : ForAnother store.config.owner store.proposal

abbrev GivesWellFormed : Response → Type 0
GivesWellFormed r = WellFormed r.store

bounds_of_valid_fee_bps :
    (pc : PairConfig)
    → valid_fee_bps pc ≡ true
    → (pc.total_fee_bps ≤ 10_000) × (pc.maker_fee_bps ≤ 10_000)
unfolding valid_fee_bps
bounds_of_valid_fee_bps pc h = ground arith

insert-ValidConfigs :
    (pc : PairConfig) (configs : Dict PairConfig)
    → (pc.total_fee_bps ≤ 10_000) × (pc.maker_fee_bps ≤ 10_000)
    → ValidConfigs configs
    → ValidConfigs (insert (type_name pc.pair_type) pc configs)
unfolding insert
insert-ValidConfigs pc [] v h = (v, refl, tt)
insert-ValidConfigs pc ((k, old) ∷ rest) v h =
    elim (Bool-cases (text_eq k (type_name pc.pair_type))) [
      | inl e ↦ rw e (v, refl, h.2)
      | inr e ↦ elim (Bool-cases (text_le (type_name pc.pair_type) k)) [
        | inl e1 ↦ rw (e, e1) (v, refl, h)
        | inr e1 ↦ rw (e, e1) (h.0, h.1, insert-ValidConfigs pc rest v h.2)
      ]
    ]

checked : {E : Type 0} (b : Bool) (e : E) → fail_if (not b) e ≡ ok tt → b ≡ true
checked true e h = refl
checked false e h = cc

save_configs-ValidConfigs :
    (pcs : List PairConfig) (configs : Dict PairConfig)
    → ValidConfigs configs
    → Gives ValidConfigs (save_configs pcs configs)
unfolding save_configs
save_configs-ValidConfigs [] configs h = h
save_configs-ValidConfigs (pc ∷ rest) configs h =
    bind-Gives ValidConfigs (fail_if (not (valid_fee_bps pc)) pair_config_invalid_fee_bps) _
      λ _ fine.
        save_configs-ValidConfigs rest _
          (insert-ValidConfigs pc configs (bounds_of_valid_fee_bps pc (checked _ _ fine)) h)

-- A state with the same configs, owner and proposal.
same :
    (store after : Store)
    → WellFormed store
    → after.configs ≡ store.configs
    → after.config.owner ≡ store.config.owner
    → after.proposal ≡ store.proposal
    → WellFormed after
same store after w e f g = record {
  valid_configs = subst ValidConfigs (sym e) w.valid_configs;
  for_another =
      subst (λ o. ForAnother o after.proposal) (sym f)
        (subst (ForAnother store.config.owner) (sym g) w.for_another);
}

with_config :
    (store : Store) (pc : PairConfig)
    → WellFormed store
    → fail_if (not (valid_fee_bps pc)) pair_config_invalid_fee_bps ≡ ok tt
    → WellFormed (record store { configs = insert (type_name pc.pair_type) pc store.configs })
with_config store pc w h = record {
  valid_configs =
      insert-ValidConfigs pc store.configs (bounds_of_valid_fee_bps pc (checked _ _ h))
        w.valid_configs;
  for_another = w.for_another;
}

-- A new state, with the configs that the message gave.
started :
    (pcs : List PairConfig) (store : Store)
    → save_configs pcs [] ≡ ok store.configs
    → store.proposal ≡ none
    → WellFormed store
started pcs store h e = record {
  valid_configs =
      of-Gives ValidConfigs (save_configs pcs []) store.configs
        (save_configs-ValidConfigs pcs [] tt) h;
  for_another = subst (ForAnother store.config.owner) (sym e) tt;
}

module _ (chain : Chain) where
  instantiate-Gives : (msg : InstantiateMsg) → Gives GivesWellFormed (instantiate chain msg)
  unfolding instantiate
  instantiate-Gives msg = search (bind-Gives, started msg.pair_configs) depth 30

  reply-Gives :
      (store : Store) (msg : Option (Option Text))
      → WellFormed store
      → Gives GivesWellFormed (reply chain store msg)
  unfolding reply
  reply-Gives store none w = tt
  reply-Gives store (some init) w = search (bind-Gives, same) depth 20

  execute-Gives :
      (query_pair_info : Addr → Result StdError PairInfo) (env : Env) (info : MessageInfo)
      (store : Store) (msg : ExecuteMsg)
      → WellFormed store
      → Gives GivesWellFormed (execute exact chain query_pair_info env info store msg)
  unfolding execute execute_update_config execute_update_pair_config execute_create_pair deregister
      update_tracker_config
  execute-Gives q env info store (update_config param) w = search (bind-Gives, same) depth 20
  execute-Gives q env info store (update_pair_config pair_config) w =
      search (bind-Gives, with_config) depth 20
  execute-Gives q env info store (create_pair pair_type asset_infos init_params) w =
      search (bind-Gives, same) depth 20
  execute-Gives q env info store (deregister_pair asset_infos) w =
      search (bind-Gives, same) depth 20
  execute-Gives q env info store (propose_owner owner expires_in) w =
      bind-Gives GivesWellFormed
        (map_err std (propose_new_owner exact chain info env owner expires_in store.config.owner)) _
        λ p made. record {
          valid_configs = w.valid_configs;
          for_another =
              ne_of_text_eq p.proposed_owner store.config.owner
                (propose_new_owner-Proposed chain info env owner expires_in store.config.owner p
                  (map_err-ok std _ made)).1;
        }
  execute-Gives q env info store drop_proposal w =
      bind-Gives GivesWellFormed (map_err std (drop_ownership_proposal info store.config.owner)) _
        λ left made.
          let gone =
            (drop_ownership_proposal-Dropped info store.config.owner left
              (map_err-ok std _ made)).1 in
          record { valid_configs = w.valid_configs; for_another = rw gone tt }
  execute-Gives q env info store claim_owner w =
      bind-Gives GivesWellFormed (map_err std (claim_ownership info env store.proposal)) _
        λ owner made. record { valid_configs = w.valid_configs; for_another = tt }
  execute-Gives q env info store (update_tracker code_id address) w =
      search (bind-Gives, same) depth 20

-- The states of a factory: each entry point that succeeds moves to the next one, on whatever chain and
-- with whatever pair contracts it meets then.
pub data Running (m : Math) : Store → Type 0 where
  instantiated :
      (chain : Chain) (msg : InstantiateMsg) (r : Response)
      → instantiate chain msg ≡ ok r
      → Running m r.store
  executed :
      (chain : Chain) (query_pair_info : Addr → Result StdError PairInfo) (env : Env)
      (info : MessageInfo) (store : Store) (msg : ExecuteMsg) (r : Response)
      → Running m store
      → execute m chain query_pair_info env info store msg ≡ ok r
      → Running m r.store
  replied :
      (chain : Chain) (store : Store) (msg : Option (Option Text)) (r : Response)
      → Running m store
      → reply chain store msg ≡ ok r
      → Running m r.store

running_exact : (store : Store) → Running exact store → WellFormed store
running_exact _ (instantiated chain msg r h) =
    of-Gives GivesWellFormed (instantiate chain msg) r (instantiate-Gives chain msg) h
running_exact _ (executed chain q env info store msg r reach h) =
    of-Gives GivesWellFormed (execute exact chain q env info store msg) r
      (execute-Gives chain q env info store msg (running_exact store reach)) h
running_exact _ (replied chain store msg r reach h) =
    of-Gives GivesWellFormed (reply chain store msg) r
      (reply-Gives chain store msg (running_exact store reach)) h

-- Whatever is called, in whatever order and by whomever, each pair type of the factory is stored under
-- its name with fees of at most 100%, and a proposal of a new owner never names the owner.
pub Running-WellFormed :
    {m : Math} → IsDocumented m → (store : Store) → Running m store → WellFormed store
Running-WellFormed d = rw (eq-exact d) running_exact

lookup-bounds :
    (k : Text) (configs : Dict PairConfig) (pc : PairConfig)
    → ValidConfigs configs
    → lookup k configs ≡ some pc
    → (pc.total_fee_bps ≤ 10_000) × (pc.maker_fee_bps ≤ 10_000)
unfolding lookup
lookup-bounds k [] pc v h = cc
lookup-bounds k ((j, other) ∷ rest) pc v h = ground (arith, lookup-bounds k rest pc v.2)

GivesBounded : FeeInfoResponse → Type 0
GivesBounded fees = (fees.total_fee_bps ≤ 10_000) × (fees.maker_fee_bps ≤ 10_000)

query_fee_info-Gives :
    (store : Store) (pair_type : PairType)
    → WellFormed store
    → Gives GivesBounded (query_fee_info store pair_type)
unfolding query_fee_info GivesBounded
query_fee_info-Gives store pair_type w =
    bind-Gives GivesBounded (or_err not_found (lookup (type_name pair_type) store.configs)) _
      λ pc found.
        lookup-bounds (type_name pair_type) store.configs pc w.valid_configs
          (or_err-some _ _ pc found)

-- The fees that a factory ever answers to a pair are within 100%: what the pair's swap relies on.
pub query_fee_info_bounded :
    {m : Math}
    → IsDocumented m
    → (store : Store) (pair_type : PairType) (fees : FeeInfoResponse) → Running m store
    → query_fee_info store pair_type ≡ ok fees
    → (fees.total_fee_bps ≤ 10_000) × (fees.maker_fee_bps ≤ 10_000)
unfolding GivesBounded
query_fee_info_bounded d store pair_type fees reach h =
    of-Gives GivesBounded (query_fee_info store pair_type) fees
      (query_fee_info-Gives store pair_type (Running-WellFormed d store reach)) h
