-- ===== src/Trades/Lifecycle/Unreachable.antt =====
-- That no sequence of steps settles a trade in cash.
use gold_nest.Trades.Deciding.Effects.{find_trade-found}
use gold_nest.Trades.Lifecycle.Preserved.{
  approve_by-AllByWallet, reject_by-AllByWallet, cancel_by-AllByWallet, reverse_if-AllByWallet,
}
use gold_nest.Tx.Ensures.{Ensures-ok}
use gold_nest.Trades.Reversing.{reverse_trade_in_tx, reverse_by}
use gold_nest.Tx.Succeeds.{is_ok}
use gold_nest.Trades.Lifecycle.{
  creating, Reach, next, Step, here, ok, elsewhere, approving, rejecting, cancelling, reversing,
  settling,
}
use gold_nest.Table.{Row, find_unique}
use gold_nest.Trades.Lifecycle.ByWallet.{AllByWallet, ByWallet, All-found, after_find}
use gold_nest.Tx.{Tx, Result, throw_if, ◌>>=◌, err, not_forward, ◌>>◌, not_cash_settled, pure}
use gold_nest.Trades.Forward.{
  check_status, settle_forward_in_tx, SettleForward, is_cash_settled, is_forward, settle_approved,
}
use gold_nest.Trades.Deciding.{
  approve_trade_in_tx, find_trade, reject_trade, cancel_trade_in_tx, is_approved, is_wallet,
  approve_by, reject_by, cancel_by,
}
use gold_nest.Records.{
  SettlementMethod, Trade, TradeStatus, pending, wallet, approved, external, cash, rejected,
  cancelled_by_user, physical, cancelled_by_admin, mixed, settled,
}
use gold_nest.Db.{Db}
use gold_nest.Base.{
  ℕ, Bool, Option, ◌≡◌, false, true, Bool-cases, Option-cases, arith, inl, not, inr, refl,
  if◌then◌else◌, is_some, subst, sym,
}

not_wallet : (m : SettlementMethod) → is_cash_settled m ≡ true → is_wallet m ≡ false
not_wallet wallet h = absurd (ground arith)
not_wallet external h = refl
not_wallet cash h = refl
not_wallet physical h = refl
not_wallet mixed h = refl

check_status-refuses :
    (s : TradeStatus) (d : Db) → is_approved s ≡ false → is_ok (check_status s d) ≡ false
unfolding check_status
check_status-refuses pending d h = refl
check_status-refuses approved d h = absurd (ground arith)
check_status-refuses rejected d h = refl
check_status-refuses cancelled_by_user d h = refl
check_status-refuses cancelled_by_admin d h = refl
check_status-refuses settled d h = refl

refused-then :
    {S A B : Type 0} (f : A → Tx S B) (s : S) (r : Result (A × S))
    → is_ok r ≡ false
    → is_ok (((λ (_ : S). r) >>= f) s) ≡ false
refused-then f s (ok r) e = absurd (ground arith)
refused-then f s (err x) e = refl

tests-refuse :
    (b c : Bool) (s : TradeStatus) (k : Tx Db (Row Trade)) (d : Db)
    → (c ≡ true → is_approved s ≡ false)
    → is_ok (
        (throw_if (not b) not_forward
            >> (throw_if (not c) not_cash_settled >> (check_status s >> k)))
          d)
      ≡ false
tests-refuse false c s k d h = refl
tests-refuse true false s k d h = refl
tests-refuse true true s k d h =
    refused-then (λ _. k) d (check_status s d) (check_status-refuses s d (h refl))

not_approved_yet :
    (id : ℕ) (t : Trade)
    → ByWallet (id, t)
    → is_cash_settled t.settlement_method ≡ true
    → is_approved t.status ≡ false
not_approved_yet id t law h = elim (Bool-cases (is_approved t.status)) [
  | inl is_it ↦
      let by_wallet = law is_it in
      let by_cash = not_wallet t.settlement_method h in absurd (ground arith)
  | inr not_yet ↦ not_yet
]

settle_forward_in_tx-refuses :
    (id : ℕ) (dto : SettleForward) (by_id : Option ℕ) (d : Db)
    → AllByWallet d
    → is_ok (settle_forward_in_tx id dto by_id d) ≡ false
unfolding settle_forward_in_tx find_trade
settle_forward_in_tx-refuses id dto by_id d a = elim (Option-cases (find_unique id d.trades)) [
  | inl missing ↦ ground (arith, missing)
  | inr (t, e) ↦
      let law =
        tests-refuse (is_forward t.kind) (is_cash_settled t.settlement_method) t.status
          (settle_approved id t dto by_id) d
          (not_approved_yet id t (All-found id d.trades t a e)) in
      let rest : Trade → Tx Db (Row Trade) = λ x.
        throw_if (not (is_forward x.kind)) not_forward
        >> (throw_if (not (is_cash_settled x.settlement_method)) not_cash_settled
            >> (check_status x.status >> settle_approved id x dto by_id)) in
      subst (λ r. is_ok (((λ (_ : Db). r) >>= rest) d) ≡ false) (sym (find_trade-found id d t e))
        law
]

Step-AllByWallet : (d d' : Db) → Step d d' → AllByWallet d → AllByWallet d'
unfolding approve_trade_in_tx reject_trade cancel_trade_in_tx reverse_trade_in_tx
Step-AllByWallet d d' (creating k t fresh e) a = rw (e) (λ h. absurd (ground (arith, fresh, h)), a)
Step-AllByWallet d d' (elsewhere e) a = rw (e) a
Step-AllByWallet d d' (approving now id remark admin_id row e) a =
    Ensures-ok (λ _ x. AllByWallet x) (approve_trade_in_tx now id remark admin_id d) row d' e
      (after_find id (λ t. approve_by now id t remark admin_id t.status) d
        (λ t found. approve_by-AllByWallet d a now id t found remark admin_id t.status))
Step-AllByWallet d d' (rejecting now id reason row e) a =
    Ensures-ok (λ _ x. AllByWallet x) (reject_trade now id reason d) row d' e
      (after_find id (λ t. reject_by now id t reason t.status) d
        (λ t found. reject_by-AllByWallet d a now id t found reason t.status))
Step-AllByWallet d d' (cancelling now id reason row e) a =
    Ensures-ok (λ _ x. AllByWallet x) (cancel_trade_in_tx now id reason d) row d' e
      (after_find id (λ t. cancel_by now id t reason t.status) d
        (λ t found. cancel_by-AllByWallet d a now id t found reason t.status))
Step-AllByWallet d d' (reversing now id by_id reason row e) a =
    Ensures-ok (λ _ x. AllByWallet x) (reverse_trade_in_tx now id by_id reason d) row d' e
      (after_find id
        (λ t.
          if is_some t.reversed_at then pure (id, t) else reverse_by now id t by_id reason t.status)
        d
        (λ t found. reverse_if-AllByWallet d a now id t found by_id reason (is_some t.reversed_at)))
Step-AllByWallet d d' (settling id dto by_id row e) a =
    absurd
      (let refused = settle_forward_in_tx-refuses id dto by_id d a in ground (arith, e, refused))

Reach-AllByWallet : (d0 d : Db) → AllByWallet d0 → Reach d0 d → AllByWallet d
Reach-AllByWallet d0 d a here = a
Reach-AllByWallet d0 d a (next {d = x} r step) =
    Step-AllByWallet x d step (Reach-AllByWallet d0 x a r)

-- From tables whose approved trades are settled through the wallet, as in an empty database, no
-- sequence of calls leads to one where settling a forward trade in cash goes through.
pub settle_forward_in_tx-unreachable :
    (d0 d : Db) (id : ℕ) (dto : SettleForward) (by_id : Option ℕ)
    → AllByWallet d0
    → Reach d0 d
    → is_ok (settle_forward_in_tx id dto by_id d) ≡ false
settle_forward_in_tx-unreachable d0 d id dto by_id a r =
    settle_forward_in_tx-refuses id dto by_id d (Reach-AllByWallet d0 d a r)
