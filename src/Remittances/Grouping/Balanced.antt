-- ===== src/Remittances/Grouping/Balanced.antt =====
-- What the steps of a group of remittances keep: the ledger sound and its entries in balance.
use gold_nest.Remittances.Deciding.Moving.{find_remittance-Found}
use gold_nest.Table.{find_unique, Table, update}
use gold_nest.Accounts.Moves.Steps.{post-then}
use gold_nest.Table.Sums.{sum_rows}
use gold_nest.Int.{ltb_ℤ, negated, int_laws}
use gold_nest.Tx.{
  pure, throw_if, on_behalf_user_not_found, insufficient_credit, ◌>>=◌, destination_user_not_found,
  or_throw, account_not_found,
}
use gold_nest.Remittances.Sending.{find_user_by_mobile, insert_remittance}
use gold_nest.Remittances.Deciding.{entry, update_remittance, find_remittance}
use gold_nest.Accounts.Ledger.Opening.{IsOpened, get_or_create_account-IsOpened}
use gold_nest.Records.{RemittanceChannel, completed, Remittance}
use gold_nest.Db.Keeps.{in_ledger-Ensures, or_throw-Keeps, throw_if-Keeps}
use gold_nest.Accounts.Posting.{PostedTx, TxInput}
use gold_nest.Accounts.Moves.{sum_of_entries, HasPosted-none, HasPosted-conserved}
use gold_nest.Accounts.Soundness.{IsSound}
use gold_nest.Tx.Ensures.{Keeps, Keeps-bind, Ensures, Ensures-bind}
use gold_nest.Remittances.Grouping.{
  post_pair, PendingLeg, choose_channel, find_on_behalf, open_receiver, open_senders, LegInput,
  total_of, open_legs, post_leg, Receivers, find_receiver,
}
use gold_nest.Db.{Db, in_ledger}
use gold_nest.Accounts.Ledger.{Ledger, get_or_create_account, get_usable_capacity, AccountTx}
use gold_nest.Base.{
  ℕ, List, Option, some, ◌≡◌, none, ◌∷◌, ap, [], ◌∙◌, refl, subst, sym, true, false,
}

-- The ledger is sound, and its entries add up to what those of `l0` do.
abbrev pub Balanced : Ledger → Db → Type 0
Balanced l0 d = IsSound d.ledger × (sum_of_entries d.ledger ≡ sum_of_entries l0)

module _ (l0 : Ledger) where
  open_account-Balanced :
      (user_id code : ℕ) → Keeps (Balanced l0) (in_ledger (get_or_create_account user_id code))
  open_account-Balanced user_id code d p =
      in_ledger-Ensures (IsOpened user_id d.ledger) (λ _ d'. Balanced l0 d')
        (get_or_create_account user_id code) d
        (get_or_create_account-IsOpened user_id code d.ledger p.0)
        (λ row l o. (o.sound, ap (sum_rows (λ (t : AccountTx). t.delta)) o.entries_kept ∙ p.1))

  pub open_senders-Balanced :
      (from_user_id : ℕ) (legs : List LegInput) (codes : List ℕ)
      → Keeps (Balanced l0) (open_senders from_user_id legs codes)
  unfolding open_senders
  open_senders-Balanced from_user_id legs [] = λ d p. p
  open_senders-Balanced from_user_id legs (code ∷ codes) =
      Keeps-bind (Balanced l0) (in_ledger (get_or_create_account from_user_id code)) _
        (open_account-Balanced from_user_id code)
        (λ account.
          Keeps-bind (Balanced l0)
            (throw_if (ltb_ℤ (get_usable_capacity account.1) (total_of code legs))
              insufficient_credit)
            (λ _. open_senders from_user_id legs codes >>= λ rest. pure ((code, account.0) ∷ rest))
            (throw_if-Keeps (Balanced l0) _ _)
            (λ _.
              Keeps-bind (Balanced l0) (open_senders from_user_id legs codes)
                (λ rest. pure ((code, account.0) ∷ rest))
                (open_senders-Balanced from_user_id legs codes) (λ rest d p. p)))

  open_receiver-Balanced :
      (user_id code : ℕ) (known : Option ℕ) → Keeps (Balanced l0) (open_receiver user_id code known)
  unfolding open_receiver
  open_receiver-Balanced user_id code (some id) = λ d p. p
  open_receiver-Balanced user_id code none =
      Keeps-bind (Balanced l0) (in_ledger (get_or_create_account user_id code))
        (λ account. pure account.0) (open_account-Balanced user_id code) (λ account d p. p)

  choose_channel-Balanced :
      (c : Option (Option RemittanceChannel)) → Keeps (Balanced l0) (choose_channel c)
  unfolding choose_channel
  choose_channel-Balanced none d p = p
  choose_channel-Balanced (some none) d p = tt
  choose_channel-Balanced (some (some c)) d p = p

  find_on_behalf-Balanced : (m : Option ℕ) → Keeps (Balanced l0) (find_on_behalf m)
  unfolding find_on_behalf
  find_on_behalf-Balanced none = λ d p. p
  find_on_behalf-Balanced (some mobile) =
      Keeps-bind (Balanced l0) (find_user_by_mobile mobile on_behalf_user_not_found)
        (λ u. pure (some u))
        (λ d.
          or_throw-Keeps (Balanced l0) (find_unique mobile d.mobiles) on_behalf_user_not_found d)
        (λ u d p. p)

  post_pair-Balanced :
      (from_user_id : ℕ) (p : PendingLeg)
      → Keeps (Balanced l0) (in_ledger (post_pair from_user_id p))
  unfolding post_pair
  post_pair-Balanced from_user_id p d b =
      in_ledger-Ensures (λ _ l. IsSound l × (sum_of_entries l ≡ sum_of_entries d.ledger))
        (λ _ d'. Balanced l0 d') (post_pair from_user_id p) d pair (λ x l s. (s.0, s.1 ∙ b.1))
    where
      R : PostedTx × PostedTx → Ledger → Type 0
      R _ l = IsSound l × (sum_of_entries l ≡ sum_of_entries d.ledger)

      debit : TxInput
      debit = entry p.from_account_id (negated p.leg.amount) true p.remittance_id from_user_id

      credit : TxInput
      credit = entry p.to_account_id p.leg.amount false p.remittance_id from_user_id

      pair : Ensures R (post_pair from_user_id p d.ledger)
      pair =
          post-then R [] [] d.ledger d.ledger
            (HasPosted-none d.ledger d.ledger b.0 (λ j. refl) refl) debit _
            λ x l1 h1. post-then R [] (debit ∷ []) d.ledger l1 h1 credit _ λ y l2 h2. (
              h2.sound,
              HasPosted-conserved [] (credit ∷ debit ∷ []) d.ledger l2 h2 (grind int_laws),
            )

  update_remittance-Balanced :
      (id : ℕ) (f : Remittance → Remittance) → Keeps (Balanced l0) (update_remittance id f)
  unfolding update_remittance
  update_remittance-Balanced id f d b =
      Ensures-bind
        (λ r d'.
          (find_unique id (update id f d.remittances) ≡ some r)
          × (d' ≡ record d { remittances = update id f d.remittances }))
        (λ _ d'. Balanced l0 d') (find_remittance id) (λ r. pure (id, r))
        (record d { remittances = update id f d.remittances })
        (find_remittance-Found id (record d { remittances = update id f d.remittances }))
        (λ r d' (e, same). subst (Balanced l0) (sym same) b)

  pub post_leg-Balanced :
      (from_user_id : ℕ) (p : PendingLeg) → Keeps (Balanced l0) (post_leg from_user_id p)
  unfolding post_leg
  post_leg-Balanced from_user_id p =
      Keeps-bind (Balanced l0) (in_ledger (post_pair from_user_id p)) _
        (post_pair-Balanced from_user_id p)
        (λ posted.
          Keeps-bind (Balanced l0)
            (update_remittance p.remittance_id (λ x. record x {
              from_account_tx_id = some posted.0.tx_id;
              to_account_tx_id = some posted.1.tx_id;
              status = completed;
            }))
            (λ _. pure tt) (update_remittance-Balanced p.remittance_id _) (λ r d b. b))

  pub open_legs-Balanced :
      (from_user_id group_id : ℕ) (senders : Table ℕ) (receivers : Receivers) (legs : List LegInput)
      → Keeps (Balanced l0) (open_legs from_user_id group_id senders receivers legs)
  unfolding open_legs insert_remittance
  open_legs-Balanced from_user_id group_id senders receivers [] = λ d b. b
  open_legs-Balanced from_user_id group_id senders receivers (l ∷ ls) =
      Keeps-bind (Balanced l0) (find_user_by_mobile l.to_mobile destination_user_not_found) _
        (λ d.
          or_throw-Keeps (Balanced l0) (find_unique l.to_mobile d.mobiles)
            destination_user_not_found d)
        (λ to_user_id.
          Keeps-bind (Balanced l0)
            (or_throw (find_unique l.instrument_code senders) account_not_found) _
            (or_throw-Keeps (Balanced l0) (find_unique l.instrument_code senders) account_not_found)
            (λ from_account_id.
              Keeps-bind (Balanced l0)
                (open_receiver to_user_id l.instrument_code
                  (find_receiver to_user_id l.instrument_code receivers))
                _
                (open_receiver-Balanced to_user_id l.instrument_code
                  (find_receiver to_user_id l.instrument_code receivers))
                (λ to_account_id.
                  Keeps-bind (Balanced l0) (find_on_behalf l.on_behalf_of_mobile) _
                    (find_on_behalf-Balanced l.on_behalf_of_mobile)
                    (λ on_behalf.
                      Keeps-bind (Balanced l0) (choose_channel l.channel) _
                        (choose_channel-Balanced l.channel)
                        (λ channel d b.
                          Keeps-bind (Balanced l0)
                            (open_legs from_user_id group_id senders
                              (((to_user_id, l.instrument_code), to_account_id) ∷ receivers) ls)
                            _
                            (open_legs-Balanced from_user_id group_id senders
                              (((to_user_id, l.instrument_code), to_account_id) ∷ receivers) ls)
                            (λ rest d' b'. b') _ b)))))
