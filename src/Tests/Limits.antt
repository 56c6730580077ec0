-- ===== src/Tests/Limits.antt =====
-- The limit book of src/modules/policy/limits.service.ts at work: user 5 may withdraw 100 a day and
-- has withdrawal 30 of 60 counted, released and consumed.
use gold_nest.Policy.Resolution.{resolve, is_candidate}
use gold_nest.Accounts.Ledger.{withdraw}
use gold_nest.Policy.Limits.Total.{consume-Succeeds, release-Succeeds}
use gold_nest.Policy.Limits.Within.{reserve-IsTallied, IsWithin, reserve-IsWithin}
use gold_nest.Policy.Rules.{
  PolicyRule, global, withdraw_irr, notional_irr, daily, basic, matches_scope, matches_selector,
}
use gold_nest.Policy.Limits.Tally.{IsTallied}
use gold_nest.Policy.Limits.{Reserved, consume, release, reserve}
use gold_nest.Policy.LimitBook.{
  LimitBook, LimitStatus, ReserveParams, LimitReservation, LimitUsage, find_applicable, reserved,
  consumed, released, default_instrument_key,
}
use gold_nest.Int.{ℤ, pos, int_laws, ◌+ℤ◌, ◌-ℤ◌}
use gold_nest.Base.{refl, none, some, [], ◌∷◌, true}

abbrev pub daily_rule : PolicyRule
daily_rule = record {
  id = 1;
  scope_type = global;
  scope_user_id = none;
  scope_group_id = none;
  action = withdraw_irr;
  metric = notional_irr;
  period = daily;
  limit = pos 100;
  min_kyc_level = basic;
  instrument_id = none;
  instrument_type = none;
  product_id = none;
  enabled = true;
  priority = pos 5;
  created_at = 1000;
  updated_at = 1000;
}

abbrev pub daily_usage : ℤ → ℤ → LimitUsage
daily_usage used reserved_amount = record {
  user_id = 5;
  action = withdraw_irr;
  metric = notional_irr;
  period = daily;
  period_key = 20;
  instrument_key = default_instrument_key;
  used_amount = used;
  reserved_amount = reserved_amount;
}

abbrev pub fresh_book : LimitBook
fresh_book = record {
  rules = daily_rule ∷ [];
  profiles = (5, record { customer_group_id = none; kyc_verified = true; kyc_level = basic }) ∷ [];
  instrument_types = [];
  market_products = [];
  usages = [];
  limit_reservations = [];
  next_id = 40;
}

pub fresh_book-IsTallied : IsTallied fresh_book
fresh_book-IsTallied = record {
  tallied = λ id u e. cc;
  usage_ids = tt;
  reservation_ids = tt;
  owned = tt;
}

abbrev sixty : ReserveParams
sixty = record {
  user_id = 5;
  action = withdraw_irr;
  metric = notional_irr;
  period = daily;
  amount = pos 60;
  instrument_key = none;
  instrument_id = none;
  instrument_type = none;
  product_id = none;
  ref_type = withdraw;
  ref_id = 30;
}

abbrev counted_sixty : LimitStatus → LimitReservation
counted_sixty status = record {
  usage_id = 40;
  user_id = 5;
  amount = pos 60;
  ref_type = withdraw;
  ref_id = 30;
  status = status;
}

abbrev pub reserved_book : LimitBook
reserved_book = record fresh_book {
  usages = (40, daily_usage (pos 0) (pos 60)) ∷ [];
  limit_reservations = (41, counted_sixty reserved) ∷ [];
  next_id = 42;
}

abbrev sixty_reserved : Reserved
sixty_reserved = record {
  usage = (40, daily_usage (pos 0) (pos 60));
  reservation = (41, counted_sixty reserved);
}

reserve-IsWithin_example : IsWithin (pos 100) sixty_reserved reserved_book
unfolding reserve find_applicable resolve is_candidate matches_scope matches_selector ◌+ℤ◌
reserve-IsWithin_example =
    reserve-IsWithin sixty 20 fresh_book fresh_book
      (record { selected = some daily_rule; kyc_required_level = none }) daily_rule
      fresh_book-IsTallied (omega int_laws) refl refl

reserve-IsTallied_example : IsTallied reserved_book
unfolding reserve resolve is_candidate matches_scope matches_selector ◌+ℤ◌
reserve-IsTallied_example = reserve-IsTallied sixty 20 fresh_book fresh_book-IsTallied

reserved_book-IsTallied : IsTallied reserved_book
unfolding reserve resolve is_candidate matches_scope matches_selector ◌+ℤ◌
reserved_book-IsTallied = reserve-IsTallied sixty 20 fresh_book fresh_book-IsTallied

release-Succeeds_example : IsTallied (record reserved_book {
  usages = (40, daily_usage (pos 0) (pos 0)) ∷ [];
  limit_reservations = (41, counted_sixty released) ∷ [];
})
unfolding release ◌-ℤ◌
release-Succeeds_example = release-Succeeds withdraw 30 reserved_book reserved_book-IsTallied

consume-Succeeds_example : IsTallied (record reserved_book {
  usages = (40, daily_usage (pos 60) (pos 0)) ∷ [];
  limit_reservations = (41, counted_sixty consumed) ∷ [];
})
unfolding consume ◌+ℤ◌ ◌-ℤ◌
consume-Succeeds_example =
    consume-Succeeds withdraw 30 reserved_book ((λ e. cc), tt) reserved_book-IsTallied
