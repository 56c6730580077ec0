-- ===== src/Remittances/Settling.antt =====
-- The settlements of `createGroupInternal` of src/modules/remittances/remittances.service.ts: a leg of
-- a group is allotted, in parts, to earlier remittances.
pub mod Within
pub mod Stuck
use gold_nest.Tx.{
  Tx, pure, ◌>>=◌, ◌>>◌, gets, throw_if, remittance_not_found, settlement_not_positive, or_throw,
  settlement_instrument_mismatch, settlement_exceeds_leg, already_fully_settled,
  settlement_exceeds_remaining, modify,
}
use gold_nest.Records.{Remittance, RemittanceStatus, SettlementLink, Text, completed, partial}
use gold_nest.Db.{Db}
use gold_nest.Table.{Table, find_unique, update}
use gold_nest.Int.{ℤ, pos, leb_ℤ, ◌+ℤ◌, ltb_ℤ, ◌-ℤ◌}
use gold_nest.Base.{
  ℕ, List, Option, map, or_else, Bool, if◌then◌else◌, ◌∷◌, [], any, not, ◌==◌, is_some, ◌&&◌,
}

-- A settlement with the leg that it belongs to.
pub record SettlementInput : Type 0 where
  pub leg_id : ℕ
  pub leg_code : ℕ
  pub leg_amount : ℤ
  pub source_id : ℕ
  pub amount : ℤ
  pub note : Option Text

-- `sourceSettledTotals` and `settlementTotalsByLegId`
pub record Totals : Type 0 where
  pub by_source : Table ℤ
  pub by_leg : Table ℤ

-- `map.get(key) ?? new Decimal(0)`
abbrev pub get_total : ℕ → Table ℤ → ℤ
get_total k t = or_else (find_unique k t) (pos 0)

-- What the links settle of a remittance.
abbrev pub settled_total : ℕ → List SettlementLink → ℤ
settled_total s [] = pos 0
settled_total s (x ∷ xs) =
    (if x.source_remittance_id == s then x.amount else pos 0) +ℤ settled_total s xs

-- `findMany({ where: { id: { in: ids } } })`
abbrev pub rows_in : List ℕ → Table Remittance → Table Remittance
rows_in ids [] = []
rows_in ids ((id, r) ∷ rows) =
    if any (λ i. i == id) ids then (id, r) ∷ rows_in ids rows else rows_in ids rows

abbrev pub totals_before : List SettlementLink → Table Remittance → Table ℤ
totals_before links [] = []
totals_before links ((id, r) ∷ rows) = (id, settled_total id links) ∷ totals_before links rows

abbrev pub status_after : ℤ → ℤ → RemittanceStatus
status_after settled amount =
    if leb_ℤ settled amount && leb_ℤ amount settled then completed else partial

abbrev pub link_to : SettlementInput → ℤ → Db → Remittance → Db
link_to i settled d source = record d {
  settlement_links =
      record {
        leg_id = i.leg_id;
        source_remittance_id = i.source_id;
        amount = i.amount;
        note = i.note;
      }
      ∷ d.settlement_links;
  remittances =
      update i.source_id (λ x. record x { status = status_after settled source.amount })
        d.remittances;
}

-- One turn of the loop, with the sources as they were read before it.
unfoldable pub settle_one : Table Remittance → Totals → SettlementInput → Tx Db Totals
settle_one sources totals i = do
  throw_if (leb_ℤ i.amount (pos 0)) settlement_not_positive
  source ← or_throw (find_unique i.source_id sources) remittance_not_found
  throw_if (not (source.instrument_code == i.leg_code)) settlement_instrument_mismatch
  let leg_total = get_total i.leg_id totals.by_leg +ℤ i.amount
  throw_if (ltb_ℤ i.leg_amount leg_total) settlement_exceeds_leg
  let remaining = source.amount -ℤ get_total i.source_id totals.by_source
  throw_if (leb_ℤ remaining (pos 0)) already_fully_settled
  throw_if (ltb_ℤ remaining i.amount) settlement_exceeds_remaining
  let settled = get_total i.source_id totals.by_source +ℤ i.amount
  modify (λ d. link_to i settled d source)
  pure (record {
    by_source = (i.source_id, settled) ∷ totals.by_source;
    by_leg = (i.leg_id, leg_total) ∷ totals.by_leg;
  })

unfoldable pub settle_each : Table Remittance → Totals → List SettlementInput → Tx Db (Unit {0})
unfolding settle_one
settle_each sources totals [] = pure tt
settle_each sources totals (i ∷ is) = do
  after ← settle_one sources totals i
  settle_each sources after is

abbrev pub is_missing : Table Remittance → SettlementInput → Bool
is_missing sources i = not (is_some (find_unique i.source_id sources))

pub source_ids : List SettlementInput → List ℕ
source_ids is = map (λ (i : SettlementInput). i.source_id) is

-- The settlements of a group, which may have none.
unfoldable pub settle_all : List SettlementInput → Tx Db (Unit {0})
unfolding settle_each source_ids
settle_all is = do
  sources ← gets (λ d. rows_in (source_ids is) d.remittances)
  throw_if (any (is_missing sources) is) remittance_not_found
  links ← gets (λ d. d.settlement_links)
  settle_each sources (record { by_source = totals_before links sources; by_leg = [] }) is
