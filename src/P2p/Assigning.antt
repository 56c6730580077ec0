-- ===== src/P2p/Assigning.antt =====
-- `assignAllocations` of src/modules/p2p-allocations/p2p-allocations.service.ts.
use gold_nest.Base.{
  ℕ, suc, Bool, true, false, not, ◌&&◌, ◌||◌, ◌==◌, any, length, Option, none, some, is_some,
  or_else, or_option, List, [], ◌∷◌, if◌then◌else◌,
}
use gold_nest.Int.{ℤ, pos, ◌+ℤ◌, ◌-ℤ◌, ltb_ℤ, leb_ℤ}
use gold_nest.Table.{find_unique, update}
use gold_nest.Tx.{
  Tx, ok, pure, throw, gets, or_throw, throw_if, modify, for_each, ◌>>=◌, ◌>>◌, withdraw_not_found,
  deposit_not_found, assign_invalid, p2p_forbidden, sum_exceeds_remaining,
  exceeds_deposit_remaining, withdrawal_missing_destination,
}
use gold_nest.Db.{
  RequestPurpose, direct, p2p, WithdrawalChannel, user_to_user, user_to_org, Snapshot, assigned,
  P2PAllocation, WithdrawRequest, DepositRequest, Db, in_ledger, in_limits,
}
use gold_nest.Destinations.{
  resolve_payout_destination_for_user, resolve_collection_destination, build_legacy_snapshot,
}
use gold_nest.P2p.Status.{derive_withdraw_p2p_status, derive_deposit_p2p_status}
use gold_nest.P2p.Merging.{split_funds, split_limits}

pub record AssignItem : Type 0 where
  pub deposit_id : ℕ
  pub amount : ℤ

-- The body of the call; `is_system` is the mode SYSTEM_DESTINATION. `amount` is the amount of the
-- single item, where there is one.
pub record AssignDto : Type 0 where
  pub is_system : Bool
  pub destination_id : Option ℕ
  pub amount : Option ℤ
  pub candidate_id : Option ℕ
  pub deposit_id : Option ℕ
  pub items : List AssignItem

single_item : Option ℕ → Option ℤ → List AssignItem
single_item (some id) (some amount) = record { deposit_id = id; amount = amount } ∷ []
single_item _ _ = []

-- `normalizeAssignItems`
pub normalize_assign_items : AssignDto → List AssignItem
unfolding single_item
normalize_assign_items dto =
    if length dto.items == 0
    then single_item (or_option dto.deposit_id dto.candidate_id) dto.amount
    else dto.items

abbrev is_p2p : RequestPurpose → Bool
is_p2p p2p = true
is_p2p direct = false

abbrev is_org : WithdrawalChannel → Bool
is_org user_to_org = true
is_org user_to_user = false

resolve_again : WithdrawRequest → Snapshot → Option ℕ → Tx Db Snapshot
resolve_again w snapshot none = pure snapshot
resolve_again w snapshot (some destination_id) = do
  resolved ←
      if is_org (or_else w.channel user_to_user)
      then resolve_collection_destination destination_id
      else resolve_payout_destination_for_user w.user_id destination_id
  pure (record snapshot {
    bank_name = or_option snapshot.bank_name resolved.bank_name;
    owner_name = or_option snapshot.owner_name resolved.owner_name;
    title = or_option resolved.title snapshot.title;
  })

of_withdrawal : WithdrawRequest → Tx Db Snapshot
unfolding resolve_again
of_withdrawal w = do
  snapshot ←
      or_throw
        (or_option w.destination_snapshot (build_legacy_snapshot w.iban w.card_number w.bank_name))
        withdrawal_missing_destination
  if is_some snapshot.title then pure snapshot else resolve_again w snapshot w.payout_destination_id

of_system : Option ℕ → Tx Db Snapshot
of_system none = throw assign_invalid
of_system (some id) = resolve_collection_destination id

-- `resolveAssignmentDestinationSnapshot`
unfoldable pub resolve_assignment_destination_snapshot :
    Bool → Option ℕ → WithdrawRequest → Tx Db Snapshot
unfolding of_withdrawal of_system
resolve_assignment_destination_snapshot true destination_id w = of_system destination_id
resolve_assignment_destination_snapshot false destination_id w = of_withdrawal w

-- What the loop keeps of the withdrawal, `withdrawalAssignedTotal`, and of each deposit,
-- `depositState`.
pub record DepositState : Type 0 where
  pub assigned_total : ℤ
  pub remaining : ℤ
  pub settled_total : ℤ

abbrev state_of : DepositRequest → DepositState
state_of x = record {
  assigned_total = x.assigned_amount_total;
  remaining = or_else x.remaining_amount x.amount;
  settled_total = x.settled_amount_total;
}

insert_allocation : P2PAllocation → Tx Db ℕ
insert_allocation a d =
    ok (
      d.next_id,
      record d { allocations = (d.next_id, a) ∷ d.allocations; next_id = suc d.next_id },
    )

abbrev pub new_allocation : ℕ → ℕ → ℤ → ℕ → Snapshot → P2PAllocation
new_allocation withdrawal_id deposit_id amount expires_at snapshot = record {
  withdrawal_id = withdrawal_id;
  deposit_id = deposit_id;
  amount = amount;
  status = assigned;
  expires_at = expires_at;
  destination_snapshot = snapshot;
  proof_submitted_at = none;
  payer_paid_at = none;
  receiver_confirmed_at = none;
  receiver_disputed_at = none;
  admin_verified_at = none;
  admin_verifier_id = none;
  settled_at = none;
  withdrawer_account_tx_id = none;
  payer_account_tx_id = none;
}

-- The rows that one turn of the loop writes. The running totals of the loop are those of the rows
-- that the turns before have written, so they are read from there: `w` and `x` are the rows as the
-- call found them, `total` and `s` the running totals.
abbrev count_assigned :
    ℕ → WithdrawRequest → ℤ → AssignItem → DepositRequest → DepositState → Db → Db
count_assigned withdrawal_id w total i x s d = record d {
  withdrawals =
      update withdrawal_id
        (λ y. record y {
          assigned_amount_total = total +ℤ i.amount;
          status =
              derive_withdraw_p2p_status false false w.amount (total +ℤ i.amount)
                w.settled_amount_total;
          channel = some (or_else w.channel user_to_user);
        })
        d.withdrawals;
  deposits =
      update i.deposit_id
        (λ y. record y {
          assigned_amount_total = s.assigned_total +ℤ i.amount;
          remaining_amount = some (s.remaining -ℤ i.amount);
          status =
              derive_deposit_p2p_status false false x.amount (s.assigned_total +ℤ i.amount)
                s.settled_total;
        })
        d.deposits;
}

-- One turn of the loop.
assign_item : ℕ → ℕ → Snapshot → WithdrawRequest → AssignItem → Tx Db (Unit {0})
unfolding insert_allocation
assign_item withdrawal_id expires_at snapshot w i = do
  deposit ← gets (λ d. find_unique i.deposit_id d.deposits)
  x ← or_throw deposit deposit_not_found
  throw_if (not (is_p2p x.purpose)) p2p_forbidden
  throw_if (ltb_ℤ (state_of x).remaining i.amount) exceeds_deposit_remaining
  current ← gets (λ d. find_unique withdrawal_id d.withdrawals)
  y ← or_throw current withdraw_not_found
  id ← insert_allocation (new_allocation withdrawal_id i.deposit_id i.amount expires_at snapshot)
  in_ledger (split_funds withdrawal_id id i.amount)
  in_limits (split_limits withdrawal_id id i.amount)
  modify (count_assigned withdrawal_id w y.assigned_amount_total i x (state_of x))

sum_amounts : List AssignItem → ℤ
sum_amounts [] = pos 0
sum_amounts (i ∷ is) = i.amount +ℤ sum_amounts is

has_key : ℕ → ℕ → List (ℕ × ℕ) → Bool
has_key key id [] = false
has_key key id ((k, w) ∷ ks) = k == key && w == id || has_key key id ks

is_replay : Option ℕ → ℕ → Db → Bool
unfolding has_key
is_replay none id d = false
is_replay (some key) id d = has_key key id d.assignment_keys

keep_key : Option ℕ → ℕ → Db → Db
keep_key none id d = d
keep_key (some key) id d = record d { assignment_keys = (key, id) ∷ d.assignment_keys }

assign_new : ℕ → AssignDto → Option ℕ → ℕ → List AssignItem → Tx Db (Unit {0})
unfolding assign_item sum_amounts keep_key
assign_new expires_at dto key id items = do
  row ← gets (λ d. find_unique id d.withdrawals)
  w ← or_throw row withdraw_not_found
  throw_if (not (is_p2p w.purpose)) p2p_forbidden
  throw_if (ltb_ℤ (w.amount -ℤ w.assigned_amount_total) (sum_amounts items)) sum_exceeds_remaining
  snapshot ← resolve_assignment_destination_snapshot dto.is_system dto.destination_id w
  for_each items (assign_item id expires_at snapshot w)
  modify (keep_key key id)

-- `assignAllocations`, up to the answer, which only formats the allocations. A call with the key of
-- an earlier call for the withdrawal answers as that call did and changes nothing.
unfoldable pub assign_allocations : ℕ → ℕ → AssignDto → Option ℕ → Tx Db (Unit {0})
unfolding normalize_assign_items is_replay assign_new
assign_allocations expires_at id dto key = do
  throw_if (length (normalize_assign_items dto) == 0) assign_invalid
  throw_if (any (λ (i : AssignItem). leb_ℤ i.amount (pos 0)) (normalize_assign_items dto))
      assign_invalid
  replay ← gets (is_replay key id)
  if replay then pure tt else assign_new expires_at dto key id (normalize_assign_items dto)
