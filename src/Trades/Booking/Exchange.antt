-- ===== src/Trades/Booking/Exchange.antt =====
-- What approving a trade does to the ledger.
use gold_nest.Tx.{insufficient_credit}
use gold_nest.Accounts.Moves.Steps.{consume_payer-then, open-then, check-then, post-then}
use gold_nest.Tx.Ensures.{Ensures}
use gold_nest.Accounts.Moves.{HasPosted, HasPosted-conserved, sum_of_entries}
use gold_nest.Accounts.Soundness.{IsSound}
use gold_nest.Accounts.Ledger.{
  Ledger, house_user_id, TxRefType, irr_instrument_code, get_usable_capacity,
}
use gold_nest.Trades.Booking.{book_side, book_buy, book_sell, debit_of, credit_of, exchange}
use gold_nest.Records.{TradeSide, buy, sell}
use gold_nest.Int.{ℤ, int_laws, ltb_ℤ, negated, ◌+ℤ◌, pos, eq_of_parts}
use gold_nest.Base.{ℕ, [], some, ◌∷◌, ◌≡◌}

-- Two accounts of the client and two of the house: on one pair the client pays what the house gains,
-- on the other the house pays what the client gains.
pub record IsExchanged (client_id id : ℕ) (paid received : ℤ) (admin_id : ℕ) (l l' : Ledger)
    : Type 0 where
  pub paying : ℕ
  pub house_paid : ℕ
  pub receiving : ℕ
  pub house_paying : ℕ
  pub posted :
      HasPosted
        ((house_user_id, house_paying)
          ∷ (client_id, receiving)
          ∷ (house_user_id, house_paid)
          ∷ (client_id, paying)
          ∷ [])
        (debit_of house_paying received id (some admin_id)
          ∷ credit_of receiving received id (some admin_id)
          ∷ credit_of house_paid paid id (some admin_id)
          ∷ debit_of paying paid id (some admin_id)
          ∷ [])
        l
        l'
  pub conserved : sum_of_entries l' ≡ sum_of_entries l

exchange_cancels : (p r : ℤ) → negated r +ℤ (r +ℤ (p +ℤ (negated p +ℤ pos 0))) ≡ pos 0
exchange_cancels p r = eq_of_parts _ _ (omega int_laws)

IsExchanged-of :
    (client_id id : ℕ) (paid received : ℤ) (admin_id : ℕ) (l l' : Ledger) (a b c d : ℕ)
    → HasPosted
        ((house_user_id, d) ∷ (client_id, c) ∷ (house_user_id, b) ∷ (client_id, a) ∷ [])
        (debit_of d received id (some admin_id)
          ∷ credit_of c received id (some admin_id)
          ∷ credit_of b paid id (some admin_id)
          ∷ debit_of a paid id (some admin_id)
          ∷ [])
        l
        l'
    → IsExchanged client_id id paid received admin_id l l'
IsExchanged-of client_id id paid received admin_id l l' a b c d h = record {
  paying = a;
  house_paid = b;
  receiving = c;
  house_paying = d;
  posted = h;
  conserved = HasPosted-conserved _ _ l l' h (exchange_cancels paid received);
}

exchange-IsExchanged :
    (client_id id : ℕ) (paid received : ℤ) (admin_id : ℕ) (l m : Ledger) (a b c d : ℕ)
    → HasPosted
        ((house_user_id, d) ∷ (client_id, c) ∷ (house_user_id, b) ∷ (client_id, a) ∷ [])
        []
        l
        m
    → Ensures
        (λ _ l'. IsExchanged client_id id paid received admin_id l l')
        (exchange a b c d paid received id admin_id m)
unfolding exchange
exchange-IsExchanged client_id id paid received admin_id l m a b c d h =
    let R : Unit {0} → Ledger → Type 0 =
      λ _ l'. IsExchanged client_id id paid received admin_id l l' in
    post-then R _ [] l m h (debit_of a paid id (some admin_id)) _ λ _ l5 h5.
      post-then R _ _ l l5 h5 (credit_of b paid id (some admin_id)) _ λ _ l6 h6.
        post-then R _ _ l l6 h6 (credit_of c received id (some admin_id)) _ λ _ l7 h7.
          post-then R _ _ l l7 h7 (debit_of d received id (some admin_id)) _
            λ _ l8 h8. IsExchanged-of client_id id paid received admin_id l l8 a b c d h8

module _ (client_id code id : ℕ) (quantity total : ℤ) (admin_id : ℕ) (l : Ledger)
    (v : IsSound l) where
  book_buy-IsExchanged :
      Ensures
        (λ _ l'. IsExchanged client_id id total quantity admin_id l l')
        (book_buy client_id code id quantity total admin_id l)
  unfolding book_buy
  book_buy-IsExchanged =
      let R : Unit {0} → Ledger → Type 0 =
        λ _ l'. IsExchanged client_id id total quantity admin_id l l' in
      consume_payer-then R client_id irr_instrument_code TxRefType.trade id l v _ λ user_irr l1 h1.
        open-then R _ [] l l1 h1 house_user_id irr_instrument_code _ λ house_irr l2 h2.
          open-then R _ [] l l2 h2 client_id code _ λ user_asset l3 h3.
            open-then R _ [] l l3 h3 house_user_id code _ λ house_asset l4 h4.
              check-then R _ [] l l4 h4 (ltb_ℤ (get_usable_capacity user_irr.1) total)
                insufficient_credit
                (λ _.
                  exchange user_irr.0 house_irr.0 user_asset.0 house_asset.0 total quantity id
                    admin_id)
                (exchange-IsExchanged client_id id total quantity admin_id l l4 user_irr.0
                  house_irr.0 user_asset.0 house_asset.0 h4)

  book_sell-IsExchanged :
      Ensures
        (λ _ l'. IsExchanged client_id id quantity total admin_id l l')
        (book_sell client_id code id quantity total admin_id l)
  unfolding book_sell
  book_sell-IsExchanged =
      let R : Unit {0} → Ledger → Type 0 =
        λ _ l'. IsExchanged client_id id quantity total admin_id l l' in
      consume_payer-then R client_id code TxRefType.trade id l v _ λ user_asset l1 h1.
        open-then R _ [] l l1 h1 house_user_id code _ λ house_asset l2 h2.
          open-then R _ [] l l2 h2 client_id irr_instrument_code _ λ user_irr l3 h3.
            open-then R _ [] l l3 h3 house_user_id irr_instrument_code _ λ house_irr l4 h4.
              check-then R _ [] l l4 h4 (ltb_ℤ (get_usable_capacity user_asset.1) quantity)
                insufficient_credit
                (λ _.
                  exchange user_asset.0 house_asset.0 user_irr.0 house_irr.0 quantity total id
                    admin_id)
                (exchange-IsExchanged client_id id quantity total admin_id l l4 user_asset.0
                  house_asset.0 user_irr.0 house_irr.0 h4)

-- What the client pays and what the client receives.
abbrev pub paid_by : TradeSide → ℤ → ℤ → ℤ
paid_by buy quantity total = total
paid_by sell quantity total = quantity

abbrev pub received_by : TradeSide → ℤ → ℤ → ℤ
received_by buy quantity total = quantity
received_by sell quantity total = total

-- On a sound ledger the booking of a trade that goes through posts four entries: the client pays the
-- total of a purchase, or the quantity of a sale, to the house and receives the other one from it.
-- No other balance moves, the ledger stays sound, and the entries as a whole add up to what they
-- did.
pub book_side-IsExchanged :
    (side : TradeSide) (client_id code id : ℕ) (quantity total : ℤ) (admin_id : ℕ) (l : Ledger)
    → IsSound l
    → Ensures
        (λ _ l'.
          IsExchanged client_id id
            (paid_by side quantity total)
            (received_by side quantity total)
            admin_id
            l
            l')
        (book_side side client_id code id quantity total admin_id l)
unfolding book_side
book_side-IsExchanged buy client_id code id quantity total admin_id l v =
    book_buy-IsExchanged client_id code id quantity total admin_id l v
book_side-IsExchanged sell client_id code id quantity total admin_id l v =
    book_sell-IsExchanged client_id code id quantity total admin_id l v
