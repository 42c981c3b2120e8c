-- ===== src/Ownership/Rules.antt =====
-- What a successful call of the transfer of ownership shows (packages/astroport/src/common.rs).
use astroport_core.Common.{
  ℕ, ◌+◌, ◌≤◌, ◌≡◌, refl, Option, none, some, not, ltb, false, not_ltb, arith,
}
use astroport_core.Cosmwasm.{ok, exact}
use astroport_core.Cosmwasm.Inversion.{some_err-ok, bind-ok, fits-ok, ok-inj, fail_if-ok}
use astroport_core.Asset.{Addr, Text, Env, MessageInfo, Chain, text_eq}
use astroport_core.Asset.Equality.{eq_of_text_eq}
use astroport_core.Ownership.Proposals.{
  OwnershipProposal, propose_new_owner, claim_ownership, drop_ownership_proposal, max_proposal_ttl,
}

pub same_text : (s t : Text) → not (text_eq s t) ≡ false → s ≡ t
same_text s t h = ground (arith, eq_of_text_eq s t)

-- A proposal is the owner's, for somebody else, and it ends within two weeks.
pub propose_new_owner-Proposed :
    (chain : Chain) (info : MessageInfo) (env : Env) (new_owner : Text) (expires_in : ℕ)
    (owner : Addr) (p : OwnershipProposal)
    → propose_new_owner exact chain info env new_owner expires_in owner ≡ ok p
    → (info.sender ≡ owner)
      × (text_eq p.proposed_owner owner ≡ false)
      × (p.ttl ≤ env.seconds + max_proposal_ttl)
unfolding propose_new_owner
propose_new_owner-Proposed chain info env new_owner expires_in owner p h =
    let (mine, h1) = fail_if-ok (not (text_eq info.sender owner)) _ _ h in
    let (validated, _, h2) = bind-ok (chain.addr_validate new_owner) _ h1 in
    let (other, h3) = fail_if-ok (text_eq validated owner) _ _ h2 in
    let (short, h4) = fail_if-ok (ltb max_proposal_ttl expires_in) _ _ h3 in
    let (_, h5) = fits-ok _ 64 (env.seconds + expires_in) h4 in
    rw (← ok-inj h5) (same_text _ _ mine, other, omega (arith, not_ltb _ _ short))

-- A claim is made by the proposed owner, in time.
pub claim_ownership-Claimed :
    (info : MessageInfo) (env : Env) (proposal : Option OwnershipProposal) (owner : Addr)
    → claim_ownership info env proposal ≡ ok owner
    → (p : OwnershipProposal) × (proposal ≡ some p)
      × (info.sender ≡ p.proposed_owner)
      × (owner ≡ p.proposed_owner)
      × (env.seconds ≤ p.ttl)
unfolding claim_ownership
claim_ownership-Claimed info env proposal owner h =
    let (p, found, h1) = some_err-ok _ proposal _ h in
    let (mine, h2) = fail_if-ok (not (text_eq info.sender p.proposed_owner)) _ _ h1 in
    let (in_time, h3) = fail_if-ok (ltb p.ttl env.seconds) _ _ h2 in
    (p, found, same_text _ _ mine, rw (← ok-inj h3) refl, not_ltb _ _ in_time)

pub drop_ownership_proposal-Dropped :
    (info : MessageInfo) (owner : Addr) (left : Option OwnershipProposal)
    → drop_ownership_proposal info owner ≡ ok left
    → (info.sender ≡ owner) × (left ≡ none)
unfolding drop_ownership_proposal
drop_ownership_proposal-Dropped info owner left h =
    let (mine, h1) = fail_if-ok (not (text_eq info.sender owner)) _ _ h in
    (same_text _ _ mine, rw (← ok-inj h1) refl)
