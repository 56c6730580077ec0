-- ===== src/P2p/Confirming/Modes.antt =====
-- Which allocations each confirmation mode lets through.
use gold_nest.Base.{ℕ, ◌≡◌, arith, Bool, true, false, Option, some, List}
use gold_nest.Table.{find_unique, find_unique-update_self}
use gold_nest.Tx.Ensures.{Ensures}
use gold_nest.Db.{admin_verified, P2PAllocation, Db}
use gold_nest.P2p.Confirming.{
  receiver, is_finalizable, receiver_confirm, admin_verify, submit_payer_proof, confirmation,
}

module _ (now id : ℕ) (d : Db) (a : P2PAllocation) (found : find_unique id d.allocations ≡ some a)
    (verified : a.status ≡ admin_verified) where
  confirm-stuck :
      (user_id : ℕ) (confirmed : Bool)
      → Ensures
          (λ row _. is_finalizable receiver row.1 ≡ false)
          (receiver_confirm receiver now id user_id confirmed d)
  unfolding receiver_confirm
  confirm-stuck user_id true =
      let law = find_unique-update_self id (confirmation now a.status true) d.allocations a found in
      ground (arith, found, verified, law)
  confirm-stuck user_id false =
      let law =
        find_unique-update_self id (confirmation now a.status false) d.allocations a found in
      ground (arith, found, verified, law)

  verify-stuck :
      (admin_id : ℕ) (approved : Bool)
      → Ensures
          (λ row _. is_finalizable receiver row.1 ≡ false)
          (admin_verify now id admin_id approved d)
  unfolding admin_verify
  verify-stuck admin_id approved = ground (arith, found, verified)

  proof-stuck :
      (user_id : ℕ) (file_ids : List ℕ) (paid_at : Option ℕ)
      → Ensures
          (λ row _. is_finalizable receiver row.1 ≡ false)
          (submit_payer_proof now id user_id file_ids paid_at d)
  unfolding submit_payer_proof
  proof-stuck user_id file_ids paid_at = ground (arith, found, verified)

-- In mode RECEIVER an allocation that an admin has verified is lost to finalising: confirming it,
-- verifying it and submitting a proof each throw or leave it not finalizable.
pub receiver_mode_stuck :
    (now id : ℕ) (d : Db) (a : P2PAllocation)
    → find_unique id d.allocations ≡ some a
    → a.status ≡ admin_verified
    → ((user_id : ℕ) (confirmed : Bool)
        → Ensures
            (λ row _. is_finalizable receiver row.1 ≡ false)
            (receiver_confirm receiver now id user_id confirmed d))
      × ((admin_id : ℕ) (approved : Bool)
          → Ensures
              (λ row _. is_finalizable receiver row.1 ≡ false)
              (admin_verify now id admin_id approved d))
      × ((user_id : ℕ) (file_ids : List ℕ) (paid_at : Option ℕ)
          → Ensures
              (λ row _. is_finalizable receiver row.1 ≡ false)
              (submit_payer_proof now id user_id file_ids paid_at d))
receiver_mode_stuck now id d a found verified = (
  confirm-stuck now id d a found verified,
  verify-stuck now id d a found verified,
  proof-stuck now id d a found verified,
)
