-- ===== src/Factory/Registry.antt =====
-- The registry of pairs and the rights of the owner (contracts/factory/src/contract.rs).
use mathlib.Core.List.{Perm}
use astroport_core.Common.{
  true, [], ◌∷◌, ◌&&◌, ◌⊎◌, inl, inr, Bool-cases, Option-cases, ◌≤◌, ◌≡◌, refl, sym, ap, ◌∙◌, subst,
  false, Option, none, some, List, arith, if◌then◌else◌, not,
}
use astroport_core.Cosmwasm.{
  Math, IsDocumented, eq-exact, exact, ok, err, map_err, fail_if, Result, StdError, or_err,
  generic_err,
}
use astroport_core.Cosmwasm.Inversion.{bind-ok, fail_if-ok, fail_if-passed, map_err-ok, or_err-some}
use astroport_core.Cosmwasm.Outcome.{Gives, bind-Gives, of-Gives, fail_if-Gives}
use astroport_core.Asset.{
  Addr, Text, AssetInfo, Env, MessageInfo, Chain, PairType, PairInfo, text_eq,
}
use astroport_core.Asset.Equality.{eq_of_text_eq}
use astroport_core.Texts.Dict.{Dict, lookup, remove, has, lookup-insert, lookup-remove}
use astroport_core.Ownership.Proposals.{
  OwnershipProposal, propose_new_owner, drop_ownership_proposal, claim_ownership,
}
use astroport_core.Ownership.Rules.{
  propose_new_owner-Proposed, drop_ownership_proposal-Dropped, claim_ownership-Claimed, same_text,
}
use astroport_core.Factory.Types.{
  std, unauthorized, pair_config_not_found, pair_config_disabled, PairConfig, type_name,
  pair_was_created, pair_was_registered, ExecuteMsg, update_config, update_tracker,
  update_pair_config, create_pair, deregister_pair, propose_owner, drop_proposal, claim_owner,
  Store, Response,
}
use astroport_core.Factory.Keys.{pair_key, pair_key-perm, check_asset_infos}
use astroport_core.Factory.Handlers.{
  contains_text, is_whitelisted, execute_update_config, execute_update_pair_config,
  execute_create_pair, deregister, update_tracker_config,
}
use astroport_core.Factory.Entry.{reply, execute}

has-lookup : {V : Type 0} (k : Text) (m : Dict V) → has k m ≡ false → lookup k m ≡ none
unfolding has
has-lookup k m h = ground arith

has_found : {V : Type 0} (k : Text) (m : Dict V) (v : V) → lookup k m ≡ some v → has k m ≡ true
unfolding has
has_found k m v h = ground arith

not_has : {V : Type 0} (k : Text) (m : Dict V) (v : V) → lookup k m ≡ some v → ¬ (has k m ≡ false)
unfolding has
not_has k m v h e = ground arith

-- What a registration does with the address that the reply gave.
abbrev pub Registers : Chain → Text → Option Text → Store → Response → Type 0
Registers chain key init_response store r =
    (given : Text) × (address : Addr) × (init_response ≡ some given)
    × (chain.addr_validate given ≡ ok address)
    × (lookup key store.pairs ≡ none)
    × ((j : Text)
        → lookup j r.store.pairs ≡ (if text_eq key j then some address else lookup j store.pairs))

module _ (chain : Chain) where
  reply-Registers :
      (store : Store) (key : Text) (init_response : Option Text)
      → store.tmp_pair_info ≡ some key
      → Gives (Registers chain key init_response store) (reply chain store (some init_response))
  unfolding reply
  reply-Registers store key init_response waiting = rw waiting (
      bind-Gives (Registers chain key init_response store)
        (fail_if (has key store.pairs) pair_was_registered) _
        λ _ fresh.
          bind-Gives (Registers chain key init_response store)
            (or_err (std (generic_err "cannot parse the instantiate response")) init_response) _
            λ given is.
              bind-Gives (Registers chain key init_response store)
                (map_err std (chain.addr_validate given)) _
                λ address valid. (
                  given,
                  address,
                  or_err-some _ _ given is,
                  map_err-ok std _ valid,
                  has-lookup key store.pairs (fail_if-passed _ _ fresh),
                  λ j. lookup-insert key j address store.pairs,
                ))

  create_pair-Waits :
      (env : Env) (info : MessageInfo) (store : Store) (pair_type : PairType)
      (asset_infos : List AssetInfo) (init_params : Option Text)
      → Gives
          (λ r. r.store ≡ record store { tmp_pair_info = some (pair_key asset_infos) })
          (execute_create_pair chain env info store pair_type asset_infos init_params)
  unfolding execute_create_pair
  create_pair-Waits env info store pair_type asset_infos init_params = search bind-Gives depth 20

  deregister-Removes :
      (query_pair_info : Addr → Result StdError PairInfo) (info : MessageInfo) (store : Store)
      (asset_infos : List AssetInfo)
      → Gives
          (λ r. r.store ≡ record store { pairs = remove (pair_key asset_infos) store.pairs })
          (deregister chain query_pair_info info store asset_infos)
  unfolding deregister
  deregister-Removes q info store asset_infos = search bind-Gives depth 20

-- A pair that is created and whose contract then replies was not registered before, and is registered
-- under its key afterwards, with the validated address that the reply gave; no other key is touched.
pub reply-create_pair :
    (chain : Chain) (env : Env) (info : MessageInfo) (store : Store) (pair_type : PairType)
    (asset_infos : List AssetInfo) (init_params : Option Text) (created : Response)
    (init_response : Option Text) (registered : Response)
    → execute_create_pair chain env info store pair_type asset_infos init_params ≡ ok created
    → reply chain created.store (some init_response) ≡ ok registered
    → Registers chain (pair_key asset_infos) init_response store registered
reply-create_pair chain env info store pair_type asset_infos init_params created init_response
      registered h k =
    let waits =
      of-Gives _ (execute_create_pair chain env info store pair_type asset_infos init_params)
        created (create_pair-Waits chain env info store pair_type asset_infos init_params) h in
    of-Gives (Registers chain (pair_key asset_infos) init_response store)
      (reply chain (record store { tmp_pair_info = some (pair_key asset_infos) })
        (some init_response))
      registered
      (reply-Registers chain (record store { tmp_pair_info = some (pair_key asset_infos) })
        (pair_key asset_infos) init_response refl)
      (subst (λ s. reply chain s (some init_response) ≡ ok registered) waits k)

-- A creation under a key that is taken is refused as such, whatever its type and its caller.
pub create_pair_refused :
    (chain : Chain) (env : Env) (info : MessageInfo) (store : Store) (pair_type : PairType)
    (asset_infos : List AssetInfo) (init_params : Option Text) (a : Addr)
    → lookup (pair_key asset_infos) store.pairs ≡ some a
    → check_asset_infos chain asset_infos ≡ ok tt
    → execute_create_pair chain env info store pair_type asset_infos init_params
      ≡ err pair_was_created
unfolding execute_create_pair
create_pair_refused chain env info store pair_type asset_infos init_params a there fine =
    rw (fine, has_found (pair_key asset_infos) store.pairs a there) refl

-- Nothing is created under a key that is taken.
create_pair_taken :
    (chain : Chain) (env : Env) (info : MessageInfo) (store : Store) (pair_type : PairType)
    (asset_infos : List AssetInfo) (init_params : Option Text) (a : Addr) (r : Response)
    → lookup (pair_key asset_infos) store.pairs ≡ some a
    → ¬ (execute_create_pair chain env info store pair_type asset_infos init_params ≡ ok r)
unfolding execute_create_pair
create_pair_taken chain env info store pair_type asset_infos init_params a r there run =
    let (_, _, h) = bind-ok (check_asset_infos chain asset_infos) _ run in
    let (fresh, _) = fail_if-ok (has (pair_key asset_infos) store.pairs) pair_was_created _ h in
    not_has (pair_key asset_infos) store.pairs a there fresh

-- While a pair is registered no other can be created for the same assets, in whatever order they are
-- named, of whatever type and by whomever.
pub create_pair_once :
    (chain : Chain) (env : Env) (info : MessageInfo) (store : Store) (pair_type : PairType)
    (asset_infos others : List AssetInfo) (init_params : Option Text) (a : Addr) (r : Response)
    → lookup (pair_key asset_infos) store.pairs ≡ some a
    → Perm asset_infos others
    → ¬ (execute_create_pair chain env info store pair_type others init_params ≡ ok r)
create_pair_once chain env info store pair_type asset_infos others init_params a r there same =
    create_pair_taken chain env info store pair_type others init_params a r
      (ap (λ k. lookup k store.pairs) (sym (pair_key-perm asset_infos others same)) ∙ there)

-- A text that stands in a list.
abbrev pub Among : Text → List Text → Type 0
Among t [] = ⊥
Among t (x ∷ xs) = (x ≡ t) ⊎ Among t xs

contains_text-Among : (l : List Text) (t : Text) → contains_text l t ≡ true → Among t l
unfolding contains_text
contains_text-Among [] t h = cc
contains_text-Among (x ∷ xs) t h = elim (Bool-cases (text_eq x t)) [
  | inl e ↦ inl (eq_of_text_eq x t e)
  | inr e ↦ inr (contains_text-Among xs t (rw e at h))
]

-- Who may create a pair of a type: anybody where the type is not permissioned, or else the owner and
-- those on its whitelist.
abbrev pub MayCreate : PairConfig → Addr → Addr → Type 0
MayCreate pair_config owner sender =
    (pair_config.permissioned ≡ false)
    ⊎ ((sender ≡ owner)
        ⊎ ((whitelist : List Text) × (pair_config.whitelist ≡ some whitelist)
            × Among sender whitelist))

is_whitelisted-Among :
    (pair_config : PairConfig) (sender : Addr)
    → is_whitelisted pair_config sender ≡ true
    → (whitelist : List Text) × (pair_config.whitelist ≡ some whitelist) × Among sender whitelist
unfolding is_whitelisted
is_whitelisted-Among pair_config sender h = elim (Option-cases pair_config.whitelist) [
  | inl e ↦ let h' : false ≡ true = rw e at h in cc
  | inr (l, e) ↦ (l, e, contains_text-Among l sender (rw e at h))
]

permitted :
    (pair_config : PairConfig) (owner sender : Addr)
    → (pair_config.permissioned
        && (not (text_eq sender owner) && not (is_whitelisted pair_config sender)))
      ≡ false
    → MayCreate pair_config owner sender
unfolding is_whitelisted
permitted pair_config owner sender h = elim (Bool-cases pair_config.permissioned) [
  | inr e ↦ inl e
  | inl e ↦ elim (Bool-cases (text_eq sender owner)) [
    | inl mine ↦ inr (inl (eq_of_text_eq sender owner mine))
    | inr e1 ↦ elim (Bool-cases (is_whitelisted pair_config sender)) [
      | inl listed ↦ inr (inr (is_whitelisted-Among pair_config sender listed))
      | inr e2 ↦ let h' : true ≡ false = rw (e, e1, e2) at h in cc
    ]
  ]
]

-- Who may call what, and what the call does to the owner: only a claim changes the owner, and it is
-- the proposed owner's, before the proposal ends; a creation is of an enabled type, by one who may create
-- pairs of it, and only notes the key of the pair; every other call is the owner's.
abbrev pub OwnerRule : Env → MessageInfo → ExecuteMsg → Store → Store → Type 0
OwnerRule env info claim_owner before after =
    (p : OwnershipProposal) × (before.proposal ≡ some p)
    × (info.sender ≡ p.proposed_owner)
    × (after.config.owner ≡ p.proposed_owner)
    × (env.seconds ≤ p.ttl)
    × (after.proposal ≡ none)
OwnerRule env info (create_pair pair_type asset_infos init_params) before after =
    (after ≡ record before { tmp_pair_info = some (pair_key asset_infos) })
    × ((pair_config : PairConfig) × (lookup (type_name pair_type) before.configs ≡ some pair_config)
        × (pair_config.is_disabled ≡ false)
        × MayCreate pair_config before.config.owner info.sender)
OwnerRule env info _ before after =
    (info.sender ≡ before.config.owner) × (after.config.owner ≡ before.config.owner)

GivesRule : Env → MessageInfo → ExecuteMsg → Store → Response → Type 0
GivesRule env info msg before r = OwnerRule env info msg before r.store

owner_called :
    (info : MessageInfo) (owner : Addr)
    → fail_if (not (text_eq info.sender owner)) unauthorized ≡ ok tt
    → info.sender ≡ owner
owner_called info owner h = same_text _ _ (fail_if-passed _ _ h)

create_pair-Allowed :
    (chain : Chain) (env : Env) (info : MessageInfo) (store : Store) (pair_type : PairType)
    (asset_infos : List AssetInfo) (init_params : Option Text)
    → Gives
        (GivesRule env info (create_pair pair_type asset_infos init_params) store)
        (execute_create_pair chain env info store pair_type asset_infos init_params)
unfolding execute_create_pair GivesRule
create_pair-Allowed chain env info store pair_type asset_infos init_params =
    bind-Gives _ (check_asset_infos chain asset_infos) _ λ _ _.
      fail_if-Gives _ (has (pair_key asset_infos) store.pairs) pair_was_created _ λ _.
        bind-Gives _ (or_err pair_config_not_found (lookup (type_name pair_type) store.configs)) _
          λ pc found.
            fail_if-Gives _
              (pc.permissioned
                && (not (text_eq info.sender store.config.owner)
                    && not (is_whitelisted pc info.sender)))
              unauthorized _
              λ may. fail_if-Gives _ pc.is_disabled pair_config_disabled _ λ enabled. (
                refl,
                (
                  pc,
                  or_err-some _ _ pc found,
                  enabled,
                  permitted pc store.config.owner info.sender may,
                ),
              )

module _ (chain : Chain) (query_pair_info : Addr → Result StdError PairInfo) where
  execute-Gives :
      (env : Env) (info : MessageInfo) (store : Store) (msg : ExecuteMsg)
      → Gives
          (GivesRule env info msg store)
          (execute exact chain query_pair_info env info store msg)
  unfolding execute execute_update_config execute_update_pair_config deregister
      update_tracker_config GivesRule
  execute-Gives env info store (update_config param) = search (bind-Gives, owner_called) depth 20
  execute-Gives env info store (update_pair_config pair_config) =
      search (bind-Gives, owner_called) depth 20
  execute-Gives env info store (create_pair pair_type asset_infos init_params) =
      create_pair-Allowed chain env info store pair_type asset_infos init_params
  execute-Gives env info store (deregister_pair asset_infos) =
      search (bind-Gives, owner_called) depth 20
  execute-Gives env info store (propose_owner owner expires_in) =
      bind-Gives _
        (map_err std (propose_new_owner exact chain info env owner expires_in store.config.owner)) _
        λ p made. (
          (propose_new_owner-Proposed chain info env owner expires_in store.config.owner p
              (map_err-ok std _ made)).0,
          refl,
        )
  execute-Gives env info store drop_proposal =
      bind-Gives _ (map_err std (drop_ownership_proposal info store.config.owner)) _ λ left made. (
        (drop_ownership_proposal-Dropped info store.config.owner left (map_err-ok std _ made)).0,
        refl,
      )
  execute-Gives env info store claim_owner =
      bind-Gives (GivesRule env info claim_owner store)
        (map_err std (claim_ownership info env store.proposal)) _
        λ owner made.
          let c = claim_ownership-Claimed info env store.proposal owner (map_err-ok std _ made) in
          (c.0, c.1, c.2, c.3, c.4, refl)
  execute-Gives env info store (update_tracker code_id address) =
      search (bind-Gives, owner_called) depth 20

-- A call that succeeds is the owner's and leaves the owner as it is, with two exceptions. A pair of an
-- enabled type may be created by anyone or, where the type is permissioned, by the owner and those on
-- its whitelist, which changes nothing but the key that waits for a reply. And the one whom a proposal
-- names may claim the ownership before the proposal expires, which makes it the owner and removes the
-- proposal.
pub execute-OwnerRule :
    {m : Math}
    → IsDocumented m
    → (chain : Chain) (query_pair_info : Addr → Result StdError PairInfo) (env : Env)
      (info : MessageInfo) (store : Store) (msg : ExecuteMsg) (r : Response)
    → execute m chain query_pair_info env info store msg ≡ ok r
    → OwnerRule env info msg store r.store
unfolding GivesRule
execute-OwnerRule d = rw (eq-exact d) λ chain q env info store msg r h.
    of-Gives (GivesRule env info msg store) (execute exact chain q env info store msg) r
      (execute-Gives chain q env info store msg) h

-- Registering and removing: after a removal, which only the owner can make, the key is free again, and no
-- other key is touched.
pub deregister_lem :
    (chain : Chain) (query_pair_info : Addr → Result StdError PairInfo) (info : MessageInfo)
    (store : Store) (asset_infos : List AssetInfo) (r : Response)
    → deregister chain query_pair_info info store asset_infos ≡ ok r
    → (j : Text)
    → lookup j r.store.pairs
      ≡ (if text_eq (pair_key asset_infos) j then none else lookup j store.pairs)
deregister_lem chain q info store asset_infos r h j =
    let removed =
      of-Gives _ (deregister chain q info store asset_infos) r
        (deregister-Removes chain q info store asset_infos) h in
    ap (λ s. lookup j s.pairs) removed ∙ lookup-remove (pair_key asset_infos) j store.pairs
