-- ===== src/Remittances/Grouping/Conserves.antt =====
-- That a group of remittances moves money and makes none.
use gold_nest.Remittances.Grouping.Balanced.{
  Balanced, open_senders-Balanced, open_legs-Balanced, post_leg-Balanced,
}
use gold_nest.Remittances.Settling.{
  settle_all, settle_each, settle_one, SettlementInput, Totals, is_missing, rows_in, source_ids,
  totals_before,
}
use gold_nest.Table.{find_unique, Table}
use gold_nest.Int.{leb_ℤ, pos}
use gold_nest.Tx.{
  throw_if, on_behalf_user_not_found, destination_user_not_found, for_each, remittance_not_found,
  leg_required, amount_not_positive, instrument_not_found, transfer_to_self,
}
use gold_nest.Records.{Remittance, RemittanceGroupKind, Text}
use gold_nest.Db.Keeps.{throw_if-Keeps}
use gold_nest.Accounts.Soundness.{IsSound}
use gold_nest.Tx.Ensures.{Keeps, Keeps-bind, Ensures, for_each-Keeps}
use gold_nest.Remittances.Grouping.{
  open_senders, LegInput, open_legs, post_leg, choose_kind, group_in_tx, insert_group, unique_codes,
  all_settlements, create_group, lacks_user, lacks_on_behalf, lacks_instrument, is_to_self,
}
use gold_nest.Db.{Db}
use gold_nest.Accounts.Ledger.{Ledger}
use gold_nest.Base.{
  ℕ, List, Option, some, none, ◌∷◌, [], refl, Option-cases, any, inl, arith, inr, length, ◌==◌,
}

module _ (l0 : Ledger) where
  settle_one-Balanced :
      (sources : Table Remittance) (totals : Totals) (i : SettlementInput)
      → Keeps (Balanced l0) (settle_one sources totals i)
  unfolding settle_one
  settle_one-Balanced sources totals i d b = elim (Option-cases (find_unique i.source_id sources)) [
    | inl missing ↦ ground (arith, missing)
    | inr (source, found) ↦ ground (arith, found, b)
  ]

  settle_each-Balanced :
      (sources : Table Remittance) (is : List SettlementInput) (totals : Totals)
      → Keeps (Balanced l0) (settle_each sources totals is)
  unfolding settle_each
  settle_each-Balanced sources [] totals = λ d b. b
  settle_each-Balanced sources (i ∷ is) totals =
      Keeps-bind (Balanced l0) (settle_one sources totals i) (λ after. settle_each sources after is)
        (settle_one-Balanced sources totals i) (λ after. settle_each-Balanced sources is after)

  settle_all-Balanced : (is : List SettlementInput) → Keeps (Balanced l0) (settle_all is)
  unfolding settle_all
  settle_all-Balanced is d b =
      Keeps-bind (Balanced l0)
        (throw_if (any (is_missing (rows_in (source_ids is) d.remittances)) is)
          remittance_not_found)
        (λ _ d'.
          settle_each (rows_in (source_ids is) d.remittances)
            (record {
              by_source = totals_before d'.settlement_links (rows_in (source_ids is) d.remittances);
              by_leg = [];
            })
            is d')
        (throw_if-Keeps (Balanced l0) _ _)
        (λ _ d' b'. settle_each-Balanced (rows_in (source_ids is) d.remittances) is _ d' b') d b

  group_in_tx-Balanced :
      (from_user_id : ℕ) (remark : Option Text) (kind : RemittanceGroupKind) (legs : List LegInput)
      → Keeps (Balanced l0) (group_in_tx from_user_id remark kind legs)
  unfolding group_in_tx insert_group
  group_in_tx-Balanced from_user_id remark kind legs d b =
      Keeps-bind (Balanced l0) (open_senders from_user_id legs (unique_codes [] legs)) _
        (open_senders-Balanced l0 from_user_id legs (unique_codes [] legs))
        (λ senders.
          Keeps-bind (Balanced l0) (open_legs from_user_id d.next_id senders [] legs) _
            (open_legs-Balanced l0 from_user_id d.next_id senders [] legs)
            (λ pending_legs.
              Keeps-bind (Balanced l0) (for_each pending_legs (post_leg from_user_id)) _
                (for_each-Keeps (Balanced l0) (post_leg from_user_id)
                  (post_leg-Balanced l0 from_user_id) pending_legs)
                (λ _.
                  Keeps-bind (Balanced l0) (settle_all (all_settlements pending_legs)) _
                    (settle_all-Balanced (all_settlements pending_legs)) (λ _ d' b'. b'))))
        _ b

  choose_kind-Balanced :
      (legs : List LegInput) (k : Option (Option RemittanceGroupKind))
      → Keeps (Balanced l0) (choose_kind legs k)
  unfolding choose_kind
  choose_kind-Balanced legs none = λ d b. b
  choose_kind-Balanced legs (some none) = λ d b. tt
  choose_kind-Balanced legs (some (some kind)) = λ d b. b

-- On a sound ledger a group of remittances that goes through keeps the ledger sound, and the entries as
-- a whole add up to what they did, however many legs and settlements it has and whichever accounts
-- it opens.
pub create_group-Balanced :
    (from_user_id : ℕ) (legs : List LegInput) (remark : Option Text)
    (explicit_kind : Option (Option RemittanceGroupKind)) (d : Db)
    → IsSound d.ledger
    → Ensures (λ _ d'. Balanced d.ledger d') (create_group from_user_id legs remark explicit_kind d)
unfolding create_group
create_group-Balanced from_user_id legs remark explicit_kind d v =
    let K : Db → Type 0 = Balanced d.ledger in
    Keeps-bind K (throw_if (length legs == 0) leg_required) _ (throw_if-Keeps K _ _)
      (λ _.
        Keeps-bind K
          (throw_if (any (λ (l : LegInput). leb_ℤ l.amount (pos 0)) legs) amount_not_positive) _
          (throw_if-Keeps K _ _)
          (λ _ d1 b1.
            Keeps-bind K (throw_if (any (lacks_user d1) legs) destination_user_not_found) _
              (throw_if-Keeps K _ _)
              (λ _.
                Keeps-bind K (throw_if (any (lacks_on_behalf d1) legs) on_behalf_user_not_found) _
                  (throw_if-Keeps K _ _)
                  (λ _.
                    Keeps-bind K (throw_if (any (lacks_instrument d1) legs) instrument_not_found) _
                      (throw_if-Keeps K _ _)
                      (λ _.
                        Keeps-bind K
                          (throw_if (any (is_to_self d1 from_user_id) legs) transfer_to_self) _
                          (throw_if-Keeps K _ _)
                          (λ _.
                            Keeps-bind K (choose_kind legs explicit_kind) _
                              (choose_kind-Balanced d.ledger legs explicit_kind)
                              (λ kind.
                                group_in_tx-Balanced d.ledger from_user_id remark kind legs)))))
              d1 b1))
      d (v, refl)
