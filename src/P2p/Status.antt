-- ===== src/P2p/Status.antt =====
-- `deriveWithdrawP2PStatus` and `deriveDepositP2PStatus` of
-- src/modules/p2p-allocations/p2p-status.util.ts.
-- A flag that is left out is false.
use gold_nest.Db.{DepositStatus, WithdrawStatus}
use gold_nest.Base.{ℕ, ◌≡◌, ◌≤◌, ◌↔◌, Bool, false, if◌then◌else◌, arith}
use gold_nest.Int.{ℤ, pos, ◌≤ℤ◌, ltb_ℤ, leb_ℤ, int_laws}

pub data Progress : Type 0 where
  waiting partially_assigned_to fully_assigned_to partially_settled_to settled_to : Progress

-- The tests that both functions make, in their order.
pub derive_progress : ℤ → ℤ → ℤ → Progress
derive_progress amount assigned settled =
    if leb_ℤ amount settled
    then settled_to
    else if ltb_ℤ (pos 0) settled
    then partially_settled_to
    else if leb_ℤ amount assigned
    then fully_assigned_to
    else if ltb_ℤ (pos 0) assigned
    then partially_assigned_to
    else waiting

abbrev withdraw_status_of : Progress → WithdrawStatus
withdraw_status_of waiting = WithdrawStatus.waiting_assignment
withdraw_status_of partially_assigned_to = WithdrawStatus.partially_assigned
withdraw_status_of fully_assigned_to = WithdrawStatus.fully_assigned
withdraw_status_of partially_settled_to = WithdrawStatus.partially_settled
withdraw_status_of settled_to = WithdrawStatus.settled

abbrev deposit_status_of : Progress → DepositStatus
deposit_status_of waiting = DepositStatus.waiting_assignment
deposit_status_of partially_assigned_to = DepositStatus.partially_assigned
deposit_status_of fully_assigned_to = DepositStatus.fully_assigned
deposit_status_of partially_settled_to = DepositStatus.partially_settled
deposit_status_of settled_to = DepositStatus.settled

unfoldable pub derive_withdraw_p2p_status : Bool → Bool → ℤ → ℤ → ℤ → WithdrawStatus
unfolding derive_progress
derive_withdraw_p2p_status cancelled expired amount assigned settled =
    if cancelled
    then WithdrawStatus.cancelled
    else if expired
    then WithdrawStatus.expired
    else withdraw_status_of (derive_progress amount assigned settled)

unfoldable pub derive_deposit_p2p_status : Bool → Bool → ℤ → ℤ → ℤ → DepositStatus
unfolding derive_progress
derive_deposit_p2p_status cancelled expired amount assigned settled =
    if cancelled
    then DepositStatus.cancelled
    else if expired
    then DepositStatus.expired
    else deposit_status_of (derive_progress amount assigned settled)

-- How far a request has come, as an order.
abbrev pub progress_rank : Progress → ℕ
progress_rank waiting = 0
progress_rank partially_assigned_to = 1
progress_rank fully_assigned_to = 2
progress_rank partially_settled_to = 3
progress_rank settled_to = 4

rank_assigned_mono :
    (amount a a' s : ℤ)
    → a ≤ℤ a'
    → progress_rank (derive_progress amount a s) ≤ progress_rank (derive_progress amount a' s)
unfolding derive_progress
rank_assigned_mono amount a a' s h = grind int_laws

rank_settled_mono :
    (amount a s s' : ℤ)
    → s ≤ℤ s'
    → progress_rank (derive_progress amount a s) ≤ progress_rank (derive_progress amount a s')
unfolding derive_progress
rank_settled_mono amount a s s' k = grind int_laws

-- More assigned and more settled never sets a request back.
derive_progress_mono :
    (amount a a' s s' : ℤ)
    → a ≤ℤ a'
    → s ≤ℤ s'
    → progress_rank (derive_progress amount a s) ≤ progress_rank (derive_progress amount a' s')
derive_progress_mono amount a a' s s' h k =
    omega (arith, rank_assigned_mono amount a a' s h, rank_settled_mono amount a' s s' k)

-- A withdrawal that is neither cancelled nor expired is SETTLED exactly where the settled total
-- covers its amount.
pub derive_withdraw_p2p_status-settled :
    (amount assigned settled : ℤ)
    → derive_withdraw_p2p_status false false amount assigned settled ≡ WithdrawStatus.settled
      ↔ amount ≤ℤ settled
unfolding derive_withdraw_p2p_status derive_progress
derive_withdraw_p2p_status-settled amount assigned settled =
    (λ h. grind int_laws, λ h. grind int_laws)
