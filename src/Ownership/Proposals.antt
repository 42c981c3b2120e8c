-- ===== src/Ownership/Proposals.antt =====
-- The three calls of the transfer of ownership (packages/astroport/src/common.rs).
use astroport_core.Common.{ℕ, Option, none, not, ltb, List, [], ◌∷◌}
use astroport_core.Cosmwasm.{
  Result, ok, StdError, generic_err, Math, ◌>>=◌, ◌>>◌, fail_if, or_err, or_panic,
}
use astroport_core.Asset.{Addr, Text, Env, MessageInfo, Chain, text_eq}

abbrev pub max_proposal_ttl : ℕ
max_proposal_ttl = 1_209_600

pub record OwnershipProposal : Type 0 where
  pub proposed_owner : Addr
  pub ttl : ℕ

-- The answer is the proposal that is saved.
unfoldable pub propose_new_owner :
    Math → Chain → MessageInfo → Env → Text → ℕ → Addr → Result StdError OwnershipProposal
propose_new_owner m chain info env new_owner expires_in owner = do
  fail_if (not (text_eq info.sender owner)) (generic_err "Unauthorized")
  validated ← chain.addr_validate new_owner
  fail_if (text_eq validated owner) (generic_err "New owner cannot be same")
  fail_if (ltb max_proposal_ttl expires_in) (generic_err "Parameter expires_in is too high")
  ttl ← or_panic (m.checked_add 64 env.seconds expires_in)
  ok (record { proposed_owner = validated; ttl = ttl })

-- The answer is what the item holds after the call.
unfoldable pub drop_ownership_proposal :
    MessageInfo → Addr → Result StdError (Option OwnershipProposal)
drop_ownership_proposal info owner = do
  fail_if (not (text_eq info.sender owner)) (generic_err "Unauthorized")
  ok none

-- The answer is the new owner, which the callback stores; the proposal is removed.
unfoldable pub claim_ownership : MessageInfo → Env → Option OwnershipProposal → Result StdError Addr
claim_ownership info env proposal = do
  p ← or_err (generic_err "Ownership proposal not found") proposal
  fail_if (not (text_eq info.sender p.proposed_owner)) (generic_err "Unauthorized")
  fail_if (ltb p.ttl env.seconds) (generic_err "Ownership proposal expired")
  ok p.proposed_owner

-- `validate_addresses`
unfoldable pub validate_addresses : Chain → List Text → Result StdError (List Addr)
validate_addresses chain [] = ok []
validate_addresses chain (admin ∷ admins) = do
  addr ← chain.addr_validate admin
  rest ← validate_addresses chain admins
  ok (addr ∷ rest)
