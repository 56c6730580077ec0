-- ===== src/Custody/Deciding.antt =====
-- `approveMovement`, `cancelMovement` and `rejectMovement` of
-- src/modules/physical-custody/physical-custody.service.ts.
pub mod Booking
use gold_nest.Policy.Limits.{consume, release}
use gold_nest.Custody.Requesting.{is_withdrawal}
use gold_nest.Table.{Row, find_unique, update}
use gold_nest.Custody.Weight.{to_equiv_gram_750, gold_750_instrument_code, of_weight_column}
use gold_nest.Accounts.Reserving.{Held, consume_funds, release_funds}
use gold_nest.Db.{Db, do_new_sanad_vkh_gold, Correlation, in_ledger, in_limits, custody_cancel}
use gold_nest.Accounts.Posting.{TxInput, PostedTx, apply_transaction}
use gold_nest.Accounts.Ledger.{
  Ledger, physical_custody_movement, custody, get_or_create_account, house_user_id,
}
use gold_nest.Tx.{
  Tx, or_throw, movement_not_found, pure, throw, invalid_status, ok, ◌>>=◌, ◌>>◌, modify,
}
use gold_nest.Records.{
  Movement, MovementStatus, MovementType, Text, approved, cancelled, deposit, rejected, pending,
  withdrawal,
}
use gold_nest.Outbox.{enqueue_once, enqueue_deletion_of, same_document}
use gold_nest.Int.{ℤ, negated, pos}
use gold_nest.Base.{
  ℕ, Option, Bool, or_else, true, false, none, some, if◌then◌else◌, not, or_option,
}

unfoldable pub find_movement : ℕ → Tx Db Movement
find_movement id d = or_throw (find_unique id d.movements) movement_not_found d

pub update_movement : ℕ → (Movement → Movement) → Tx Db (Row Movement)
unfolding find_movement
update_movement id f = do
  modify (λ d. record d { movements = update id f d.movements })
  m ← find_movement id
  pure (id, m)

abbrev pub delta_equiv : Movement → ℤ
delta_equiv m = or_else m.equiv_gram_750 (to_equiv_gram_750 (of_weight_column m.weight_gram) m.ayar)

abbrev pub user_delta : MovementType → ℤ → ℤ
user_delta deposit equiv = equiv
user_delta withdrawal equiv = negated equiv

abbrev pub entry : ℕ → ℤ → Bool → ℕ → Option ℕ → TxInput
entry account_id delta is_negated id admin_id = record {
  account_id = account_id;
  delta = delta;
  is_negated = is_negated;
  kind = custody;
  ref_type = physical_custody_movement;
  ref_id = some id;
  created_by_id = admin_id;
  reversal_of_id = none;
}

abbrev pub consume_gold : ℕ → ℕ → MovementType → Tx Ledger (Option Held)
consume_gold user_id id deposit = pure none
consume_gold user_id id withdrawal =
    consume_funds user_id gold_750_instrument_code physical_custody_movement id

-- The ledger's part of `approveMovement`.
unfoldable pub book_movement : ℕ → ℕ → MovementType → ℤ → Option ℕ → Tx Ledger (PostedTx × PostedTx)
book_movement user_id id kind equiv admin_id = do
  consume_gold user_id id kind
  user_account ← get_or_create_account user_id gold_750_instrument_code
  house_account ← get_or_create_account house_user_id gold_750_instrument_code
  user_tx ←
      apply_transaction
        (entry user_account.0 (user_delta kind equiv) (is_withdrawal kind) id admin_id)
  house_tx ← apply_transaction (
      entry house_account.0 (negated (user_delta kind equiv)) (not (is_withdrawal kind)) id
        admin_id)
  pure (user_tx, house_tx)

pub book : ℕ → Movement → Option ℕ → Tx Db (Row Movement)
unfolding book_movement update_movement
book id m admin_id = do
  posted ← in_ledger (book_movement m.user_id id m.movement_type (delta_equiv m) admin_id)
  in_limits (consume physical_custody_movement id)
  update_movement id (λ x. record x {
    status = approved;
    equiv_gram_750 = some (delta_equiv m);
    user_gold_account_tx_id = some posted.0.tx_id;
    house_gold_account_tx_id = some posted.1.tx_id;
  })

pub approve_by : ℕ → Movement → Option ℕ → MovementStatus → Tx Db (Row Movement)
unfolding book
approve_by id m admin_id approved = pure (id, m)
approve_by id m admin_id pending = book id m admin_id
approve_by id m admin_id _ = throw invalid_status

-- The executor of `approveMovement`.
unfoldable pub approve_movement_in_tx : ℕ → Option ℕ → Tx Db (Row Movement)
unfolding find_movement approve_by
approve_movement_in_tx id admin_id = do m ← find_movement id; approve_by id m admin_id m.status

release_gold : ℕ → ℕ → MovementType → Tx Ledger (Option Held)
release_gold user_id id deposit = pure none
release_gold user_id id withdrawal =
    release_funds user_id gold_750_instrument_code physical_custody_movement id

pub decline : ℕ → Movement → Option Text → MovementStatus → Tx Db (Row Movement)
unfolding release_gold update_movement
decline id m reason status = do
  in_limits (release physical_custody_movement id)
  in_ledger (release_gold m.user_id id m.movement_type)
  update_movement id (λ x. record x { status = status; note = or_option reason m.note })

cancel_by : ℕ → Movement → Option Text → MovementStatus → Tx Db (Row Movement)
unfolding decline
cancel_by id m reason cancelled = pure (id, m)
cancel_by id m reason rejected = pure (id, m)
cancel_by id m reason pending = decline id m reason cancelled
cancel_by id m reason approved = throw invalid_status

-- The executor of `cancelMovement`.
unfoldable pub cancel_movement_in_tx : ℕ → Option Text → Tx Db (Row Movement)
unfolding find_movement cancel_by
cancel_movement_in_tx id reason = do m ← find_movement id; cancel_by id m reason m.status

reject_by : ℕ → Movement → Option Text → MovementStatus → Tx Db (Row Movement)
unfolding decline
reject_by id m reason rejected = pure (id, m)
reject_by id m reason pending = decline id m reason rejected
reject_by id m reason _ = throw invalid_status

-- `rejectMovement`
unfoldable pub reject_movement : ℕ → Option Text → Tx Db (Row Movement)
unfolding find_movement reject_by
reject_movement id reason = do m ← find_movement id; reject_by id m reason m.status

-- `enqueueTahesabForPhysicalCustodyMovement`, for an approved movement.
enqueue_gold_document : ℕ → Movement → Tx Db (Unit {0})
unfolding enqueue_once
enqueue_gold_document id m d = elim (find_unique m.user_id d.customer_codes) [
  | none ↦ ok (tt, d)
  | some customer_code ↦
      if d.tahesab.is_enabled
      then enqueue_once
          (record {
            method = do_new_sanad_vkh_gold;
            correlation = Correlation.custody id;
            customer_code = some customer_code;
            account_code = d.tahesab.gold_account_code;
            amount = pos 0;
            weight = some (delta_equiv m);
            is_incoming = some (not (is_withdrawal m.movement_type));
            is_success = false;
            factor_code = none;
          })
          d
      else ok (tt, d)
]

abbrev is_approved : MovementStatus → Bool
is_approved approved = true
is_approved _ = false

abbrev is_cancelled : MovementStatus → Bool
is_cancelled cancelled = true
is_cancelled _ = false

-- `approveMovement`: the executor, and the document behind the commit.
unfoldable pub approve_movement : ℕ → Option ℕ → Tx Db (Row Movement)
unfolding approve_movement_in_tx enqueue_gold_document
approve_movement id admin_id = do
  row ← approve_movement_in_tx id admin_id
  if is_approved row.1.status then enqueue_gold_document row.0 row.1 else pure tt
  pure row

-- `cancelMovement`: the executor, and the deletion of the document behind the commit.
unfoldable pub cancel_movement : ℕ → Option Text → Tx Db (Row Movement)
unfolding cancel_movement_in_tx
cancel_movement id reason = do
  row ← cancel_movement_in_tx id reason
  if is_cancelled row.1.status
      then enqueue_deletion_of (same_document do_new_sanad_vkh_gold (Correlation.custody row.0))
          (custody_cancel row.0)
      else pure tt
  pure row
