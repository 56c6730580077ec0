-- ===== src/P2p/Confirming.antt =====
-- `submitPayerProof`, `receiverConfirm`, `adminVerify`, `ensureFinalizable` and `isFinalizable` of
-- src/modules/p2p-allocations/p2p-allocations.service.ts.
pub mod Modes
use gold_nest.Base.{
  ℕ, suc, Bool, true, false, not, ◌&&◌, ◌||◌, ◌==◌, leb, Option, none, some, List, [], ◌∷◌, length,
  any, is_some, if◌then◌else◌, or_else,
}
use gold_nest.Table.{Row, find_unique, update}
use gold_nest.Tx.{
  Tx, pure, gets, or_throw, throw_if, modify, ◌>>=◌, ◌>>◌, allocation_not_found, not_assignable,
  allocation_expired, proof_required, max_attempts_reached, invalid_file_ids, p2p_forbidden,
  not_awaiting_confirmation, not_awaiting_verification, cannot_be_finalized, not_finalizable,
}
use gold_nest.Db.{
  AllocationStatus, assigned, proof_submitted, receiver_confirmed, admin_verified, disputed,
  P2PAllocation, ProofLink, Db,
}
use gold_nest.Files.{files_in}

-- `P2PConfirmationModeType`
pub data ConfirmationMode : Type 0 where
  receiver admin both receiver_or_admin : ConfirmationMode

pub find_allocation : ℕ → Tx Db P2PAllocation
find_allocation id d = or_throw (find_unique id d.allocations) allocation_not_found d

pub update_allocation : ℕ → (P2PAllocation → P2PAllocation) → Tx Db (Row P2PAllocation)
unfolding find_allocation
update_allocation id f = do
  modify (λ d. record d { allocations = update id f d.allocations })
  a ← find_allocation id
  pure (id, a)

-- `allocationExpired`
abbrev pub allocation_expired_at : ℕ → P2PAllocation → Bool
allocation_expired_at now a = leb a.expires_at now

-- The user of the deposit, and of the withdrawal; both rows stay as long as the allocation.
abbrev pub payer_of : P2PAllocation → Db → Option ℕ
payer_of a d = elim (find_unique a.deposit_id d.deposits) [ none ↦ none | some x ↦ some x.user_id ]

abbrev pub receiver_of : P2PAllocation → Db → Option ℕ
receiver_of a d = elim (find_unique a.withdrawal_id d.withdrawals) [
  | none ↦ none
  | some w ↦ some w.user_id
]

abbrev is_user : ℕ → Option ℕ → Bool
is_user u none = false
is_user u (some v) = v == u

-- The statuses in which a proof is taken.
abbrev takes_proof : AllocationStatus → Bool
takes_proof assigned = true
takes_proof proof_submitted = true
takes_proof _ = false

abbrev pub is_assigned : AllocationStatus → Bool
is_assigned assigned = true
is_assigned _ = false

-- The number of files linked as proofs.
pub proof_attempts : ℕ → List ProofLink → ℕ
proof_attempts id [] = 0
proof_attempts id (l ∷ ls) =
    let rest = proof_attempts id ls in if l.allocation_id == id then suc rest else rest

link_proofs : ℕ → ℕ → List ℕ → List ProofLink → List ProofLink
link_proofs id user_id [] ls = ls
link_proofs id user_id (f ∷ fs) ls =
    record { allocation_id = id; file_id = f; uploader_user_id = user_id }
    ∷ link_proofs id user_id fs ls

-- `submitPayerProof`; `paid_at` is the instant that the payer gives, if any.
unfoldable pub submit_payer_proof : ℕ → ℕ → ℕ → List ℕ → Option ℕ → Tx Db (Row P2PAllocation)
unfolding find_allocation update_allocation proof_attempts link_proofs
submit_payer_proof now id user_id file_ids paid_at = do
  throw_if (length file_ids == 0) proof_required
  a ← find_allocation id
  user ← gets (payer_of a)
  throw_if (not (is_user user_id user)) p2p_forbidden
  throw_if (not (takes_proof a.status)) not_assignable
  throw_if (is_some a.receiver_confirmed_at || is_some a.admin_verified_at) not_assignable
  throw_if (is_assigned a.status && allocation_expired_at now a) allocation_expired
  attempts ← gets (λ d. proof_attempts id d.proof_links)
  throw_if (leb 2 attempts) max_attempts_reached
  files ← gets (λ d. files_in file_ids d.file_owners)
  throw_if (not (length files == length file_ids)) invalid_file_ids
  throw_if (any (λ (f : Row ℕ). not (f.1 == user_id)) files) p2p_forbidden
  modify (λ d. record d { proof_links = link_proofs id user_id file_ids d.proof_links })
  update_allocation id (λ x. record x {
    status = proof_submitted;
    payer_paid_at = some (or_else paid_at now);
    proof_submitted_at = some now;
  })

abbrev awaits_confirmation : AllocationStatus → Bool
awaits_confirmation proof_submitted = true
awaits_confirmation admin_verified = true
awaits_confirmation _ = false

abbrev is_admin_mode : ConfirmationMode → Bool
is_admin_mode admin = true
is_admin_mode _ = false

-- The status behind a confirmation.
abbrev confirmed_status : AllocationStatus → AllocationStatus
confirmed_status admin_verified = admin_verified
confirmed_status _ = receiver_confirmed

abbrev confirmation : ℕ → AllocationStatus → Bool → P2PAllocation → P2PAllocation
confirmation now status true x = record x {
  status = confirmed_status status;
  receiver_confirmed_at = some now;
}
confirmation now status false x = record x { status = disputed; receiver_disputed_at = some now }

-- `receiverConfirm`
unfoldable pub receiver_confirm : ConfirmationMode → ℕ → ℕ → ℕ → Bool → Tx Db (Row P2PAllocation)
unfolding find_allocation update_allocation
receiver_confirm mode now id user_id confirmed = do
  a ← find_allocation id
  user ← gets (receiver_of a)
  throw_if (not (is_user user_id user)) p2p_forbidden
  throw_if (not (awaits_confirmation a.status)) not_awaiting_confirmation
  throw_if (is_admin_mode mode) p2p_forbidden
  update_allocation id (confirmation now a.status confirmed)

abbrev awaits_verification : AllocationStatus → Bool
awaits_verification proof_submitted = true
awaits_verification receiver_confirmed = true
awaits_verification _ = false

abbrev verification : ℕ → ℕ → Bool → P2PAllocation → P2PAllocation
verification now admin_id true x = record x {
  status = admin_verified;
  admin_verified_at = some now;
  admin_verifier_id = some admin_id;
}
verification now admin_id false x = record x {
  status = disputed;
  admin_verified_at = some now;
  admin_verifier_id = some admin_id;
}

-- `adminVerify`
unfoldable pub admin_verify : ℕ → ℕ → ℕ → Bool → Tx Db (Row P2PAllocation)
unfolding find_allocation update_allocation
admin_verify now id admin_id approved = do
  a ← find_allocation id
  throw_if (not (awaits_verification a.status)) not_awaiting_verification
  update_allocation id (verification now admin_id approved)

abbrev is_disputed : AllocationStatus → Bool
is_disputed disputed = true
is_disputed _ = false

abbrev is_receiver_confirmed : AllocationStatus → Bool
is_receiver_confirmed receiver_confirmed = true
is_receiver_confirmed _ = false

abbrev is_admin_verified : AllocationStatus → Bool
is_admin_verified admin_verified = true
is_admin_verified _ = false

-- What each mode asks of an allocation.
abbrev meets_mode : ConfirmationMode → P2PAllocation → Bool
meets_mode receiver a = is_receiver_confirmed a.status
meets_mode admin a = is_admin_verified a.status
meets_mode receiver_or_admin a = is_some a.receiver_confirmed_at || is_some a.admin_verified_at
meets_mode both a = is_some a.receiver_confirmed_at && is_some a.admin_verified_at

-- `ensureFinalizable`
unfoldable pub ensure_finalizable : ConfirmationMode → P2PAllocation → Tx Db (Unit {0})
ensure_finalizable mode a = do
  throw_if (is_disputed a.status) cannot_be_finalized
  throw_if (not (meets_mode mode a)) not_finalizable

-- `isFinalizable`
abbrev pub is_finalizable : ConfirmationMode → P2PAllocation → Bool
is_finalizable mode a = not (is_disputed a.status) && meets_mode mode a
