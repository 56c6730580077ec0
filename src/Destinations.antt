-- ===== src/Destinations.antt =====
-- The look-ups of src/modules/payment-destinations/payment-destinations.service.ts that the request
-- services use. None of them writes a row.
use gold_nest.Base.{ℕ, Bool, true, false, not, ◌||◌, Option, none, some, is_some, option_eq}
use gold_nest.Table.{find_unique}
use gold_nest.Tx.{
  Tx, pure, gets, or_throw, throw_if, ◌>>=◌, ◌>>◌, destination_not_found, destination_forbidden,
  destination_inactive, destination_invalid,
}
use gold_nest.Db.{
  DestinationType, iban, card, DestinationDirection, payout, collection, DestinationStatus, active,
  PaymentDestination, Snapshot, Db,
}
use gold_nest.Records.{Text, normalized, masked}

abbrev is_active : DestinationStatus → Bool
is_active active = true
is_active _ = false

abbrev is_collection : DestinationDirection → Bool
is_collection collection = true
is_collection payout = false

abbrev snapshot_of : PaymentDestination → Snapshot
snapshot_of d = record {
  kind = d.kind;
  value = d.value;
  masked_value = d.masked_value;
  bank_name = d.bank_name;
  owner_name = d.owner_name;
  title = d.title;
}

find_destination : ℕ → Tx Db PaymentDestination
find_destination id = do
  found ← gets (λ d. find_unique id d.destinations)
  destination ← or_throw found destination_not_found
  throw_if destination.is_deleted destination_not_found
  pure destination

unfoldable pub resolve_payout_destination_for_user : ℕ → ℕ → Tx Db Snapshot
unfolding find_destination
resolve_payout_destination_for_user user_id id = do
  destination ← find_destination id
  throw_if (not (option_eq destination.owner_user_id (some user_id))) destination_forbidden
  throw_if (not (is_active destination.status)) destination_inactive
  pure (snapshot_of destination)

unfoldable pub resolve_collection_destination : ℕ → Tx Db Snapshot
unfolding find_destination
resolve_collection_destination id = do
  destination ← find_destination id
  throw_if (is_some destination.owner_user_id || not (is_collection destination.direction))
      destination_invalid
  throw_if (not (is_active destination.status)) destination_inactive
  pure (snapshot_of destination)

legacy : DestinationType → Text → Option Text → Snapshot
legacy kind raw bank_name = record {
  kind = kind;
  value = normalized raw;
  masked_value = masked (normalized raw);
  bank_name = bank_name;
  owner_name = none;
  title = none;
}

-- The callers pass no owner's name.
unfoldable pub build_legacy_snapshot : Option Text → Option Text → Option Text → Option Snapshot
unfolding legacy
build_legacy_snapshot (some raw) card_number bank_name = some (legacy iban raw bank_name)
build_legacy_snapshot none (some raw) bank_name = some (legacy card raw bank_name)
build_legacy_snapshot none none bank_name = none
