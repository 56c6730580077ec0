-- ===== src/Accounts/Commands/Refines.antt =====
-- That the ledger implements the specification of its balances.
use gold_nest.Accounts.Posting.{apply_transaction}
use gold_nest.Accounts.Posting.Keeps.{IsPosted, apply_transaction-IsPosted, IsPosted-balance_at}
use gold_nest.Accounts.Ledger.Opening.{IsOpened, get_or_create_account-IsOpened}
use gold_nest.Tx.{for_each, pure}
use gold_nest.Table.{find_first}
use gold_nest.Tx.Ensures.{Ensures, Ensures-bind, Ensures-map}
use gold_nest.Accounts.Reserving.Funds.{
  IsHeld, reserve_funds-IsHeld, IsClosed, release_funds-IsClosed, consume_funds-IsClosed,
}
use gold_nest.Accounts.Reserving.{Held, same_key, reserve_funds, release_funds, consume_funds}
use gold_nest.Accounts.Soundness.{IsSound, balance_at}
use gold_nest.Int.{ℤ}
use gold_nest.Accounts.Ledger.{Ledger, TxRefType, get_or_create_account, released, consumed}
use gold_nest.Accounts.Commands.{
  Books, Command, call_all, call, effect, effects, IsProper, opening, posting, books, holding,
  releasing, consuming,
}
use gold_nest.Base.{
  ℕ, List, ◌≡◌, All, ◌∷◌, Option-cases, [], arith, inl, Bool-cases, ◌∙◌, refl, ◌==◌, inr, ap,
}

-- The ledger is sound, and its balances are the specified ones.
abbrev pub Implements : Books → Ledger → Type 0
Implements b l = IsSound l × ((j : ℕ) → balance_at j l.accounts ≡ b j)

held-balance_at :
    (u : ℕ) (amount : ℤ) (rt : TxRefType) (rid : ℕ) (l : Ledger) (h : Held) (l' : Ledger)
    → IsHeld u amount rt rid l h l'
    → (j : ℕ) → balance_at j l'.accounts ≡ balance_at j l.accounts
held-balance_at u amount rt rid l h l' x j =
    let o = x.opening in
    elim (Option-cases (find_first (same_key rt rid x.row.0) x.opened.reservations)) [
      | inl missing ↦
          let s = x.fresh missing in
          elim (Bool-cases (x.row.0 == j)) [
            | inl this ↦
                let same : balance_at j l'.accounts ≡ balance_at j x.opened.accounts =
                  (let was = s.was in let becomes = s.becomes in ground arith) in
                same ∙ o.balances_kept j
            | inr other ↦
                let same : balance_at j l'.accounts ≡ balance_at j x.opened.accounts =
                  (let kept = s.others j other in ground arith) in
                same ∙ o.balances_kept j
          ]
      | inr (r, e) ↦
          ap (λ (m : Ledger). balance_at j m.accounts) (x.again r e).0 ∙ o.balances_kept j
    ]

module _ (l : Ledger) (v : IsSound l) where
  -- A call whose outcome keeps the ledger sound and has the specified balances.
  call-Implements :
      (c : Command) → IsProper c → Ensures (λ _ l'. Implements (effect c (books l)) l') (call c l)
  unfolding call
  call-Implements (opening u code) p =
      Ensures-bind (IsOpened u l) _ (get_or_create_account u code) (λ _. pure tt) l
        (get_or_create_account-IsOpened u code l v) (λ row l' o. (o.sound, o.balances_kept))
  call-Implements (posting i) p =
      Ensures-bind (IsPosted i l) _ (apply_transaction i) (λ _. pure tt) l
        (apply_transaction-IsPosted i l v) (λ x l' q. (q.sound, IsPosted-balance_at i l x l' q))
  call-Implements (holding u code amount rt rid) p =
      Ensures-bind (IsHeld u amount rt rid l) _ (reserve_funds u code amount rt rid) (λ _. pure tt)
        l (reserve_funds-IsHeld u code amount rt rid l v p)
        (λ h l' x. (x.sound, held-balance_at u amount rt rid l h l' x))
  call-Implements (releasing u code rt rid) p =
      Ensures-bind (IsClosed u rt rid released l) _ (release_funds u code rt rid) (λ _. pure tt) l
        (release_funds-IsClosed u code rt rid l v) (λ h l' x. (x.sound, x.balances_kept))
  call-Implements (consuming u code rt rid) p =
      Ensures-bind (IsClosed u rt rid consumed l) _ (consume_funds u code rt rid) (λ _. pure tt) l
        (consume_funds-IsClosed u code rt rid l v) (λ h l' x. (x.sound, x.balances_kept))

effect-cong :
    (c : Command) (b b' : Books) → ((j : ℕ) → b j ≡ b' j) → (j : ℕ) → effect c b j ≡ effect c b' j
effect-cong (opening u code) b b' h j = h j
effect-cong (posting i) b b' h j = let e = h j in ground (arith, e)
effect-cong (holding u code amount rt rid) b b' h j = h j
effect-cong (releasing u code rt rid) b b' h j = h j
effect-cong (consuming u code rt rid) b b' h j = h j

effects-cong :
    (cs : List Command) (b b' : Books)
    → ((j : ℕ) → b j ≡ b' j)
    → (j : ℕ) → effects cs b j ≡ effects cs b' j
effects-cong [] b b' h j = h j
effects-cong (c ∷ cs) b b' h j = effects-cong cs (effect c b) (effect c b') (effect-cong c b b' h) j

loop-Implements :
    (cs : List Command) (l : Ledger)
    → IsSound l
    → All IsProper cs
    → Ensures (λ _ l'. Implements (effects cs (books l)) l') (for_each cs call l)
loop-Implements [] l v p = (v, λ j. refl)
loop-Implements (c ∷ cs) l v p =
    Ensures-bind (λ _ l'. Implements (effect c (books l)) l')
      (λ _ l'. Implements (effects (c ∷ cs) (books l)) l') (call c) (λ _. for_each cs call) l
      (call-Implements l v c p.0)
      (λ _ m x.
        Ensures-map (λ _ l'. Implements (effects cs (books m)) l')
          (λ _ l'. Implements (effects (c ∷ cs) (books l)) l') (for_each cs call m)
          (λ _ l' y. (y.0, λ j. y.1 j ∙ effects-cong cs (books m) (effect c (books l)) x.1 j))
          (loop-Implements cs m x.0 p.1))

-- From a sound ledger, a sequence of calls that goes through leaves a sound ledger whose balances are
-- those that the specification computes from the balances before, whatever accounts were opened
-- and whatever was reserved, released and consumed on the way; the amounts reserved are not
-- negative.
pub call_all-Implements :
    (cs : List Command) (l : Ledger)
    → IsSound l
    → All IsProper cs
    → Ensures (λ _ l'. Implements (effects cs (books l)) l') (call_all cs l)
unfolding call_all
call_all-Implements cs l v p = loop-Implements cs l v p
