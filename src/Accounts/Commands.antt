-- ===== src/Accounts/Commands.antt =====
-- Sequences of calls of src/modules/accounts/accounts.service.ts, and the books that a reader of the
-- balances sees: accounts, reservations and ledger entries are left out of that view.
pub mod Refines
use gold_nest.Accounts.Reserving.{reserve_funds, release_funds, consume_funds}
use gold_nest.Accounts.Soundness.{balance_at}
use gold_nest.Tx.{Tx, for_each, ◌>>◌, pure}
use gold_nest.Int.{pos, ℤ, ◌≤ℤ◌, ◌+ℤ◌}
use gold_nest.Accounts.Posting.{TxInput, apply_transaction}
use gold_nest.Accounts.Ledger.{Ledger, TxRefType, get_or_create_account}
use gold_nest.Base.{ℕ, List, if◌then◌else◌, ◌==◌, ◌∷◌, []}

pub data Command : Type 0 where
  opening : (user_id code : ℕ) → Command
  posting : TxInput → Command
  holding : (user_id code : ℕ) (amount : ℤ) → TxRefType → (ref_id : ℕ) → Command
  releasing : (user_id code : ℕ) → TxRefType → (ref_id : ℕ) → Command
  consuming : (user_id code : ℕ) → TxRefType → (ref_id : ℕ) → Command

-- The call of the service.
pub call : Command → Tx Ledger (Unit {0})
call (opening user_id code) = do get_or_create_account user_id code; pure tt
call (posting i) = do apply_transaction i; pure tt
call (holding user_id code amount ref_type ref_id) = do
  reserve_funds user_id code amount ref_type ref_id
  pure tt
call (releasing user_id code ref_type ref_id) = do
  release_funds user_id code ref_type ref_id
  pure tt
call (consuming user_id code ref_type ref_id) = do
  consume_funds user_id code ref_type ref_id
  pure tt

unfoldable pub call_all : List Command → Tx Ledger (Unit {0})
unfolding call
call_all cs = for_each cs call

-- The specification: what a call does to the balances as a function of the account.
abbrev pub Books : Type 0
Books = ℕ → ℤ

abbrev pub effect : Command → Books → Books
effect (posting i) b j = if i.account_id == j then b j +ℤ i.delta else b j
effect _ b j = b j

abbrev pub effects : List Command → Books → Books
effects [] b = b
effects (c ∷ cs) b = effects cs (effect c b)

abbrev pub books : Ledger → Books
books l j = balance_at j l.accounts

-- The services ask for amounts that are not negative.
abbrev pub IsProper : Command → Type 0
IsProper (holding user_id code amount ref_type ref_id) = pos 0 ≤ℤ amount
IsProper _ = Unit {0}
