-- ===== src/Tests/Rules.antt =====
-- The rules of src/modules/policy/policy-resolution.service.ts at work: a rule for user 5 beside
-- the rule for everybody, and a rule that asks for the full KYC level.
use gold_nest.Int.{pos, ◌-ℤ◌}
use gold_nest.Tests.Limits.{daily_rule}
use gold_nest.Policy.Resolution.Selected.{
  IsHeldTo, Among, resolve_from_rules-IsHeldTo, selected-scope_rank, resolve_from_rules-none,
}
use gold_nest.Policy.Rules.{
  PolicyRule, compare_rules, KycLevel, full, withdraw_irr, PolicyContext, notional_irr, scope_rank,
  user, basic, daily, global, matches_scope, matches_selector,
}
use gold_nest.Policy.Resolution.{ResolveRequest, resolve_from_rules, is_candidate, is_eligible}
use gold_nest.Base.{◌≡◌, refl, Option, none, some, List, [], ◌∷◌, ◌≤◌, ◌↔◌, inl, true}

abbrev user_rule : PolicyRule
user_rule = record daily_rule {
  id = 2;
  scope_type = user;
  scope_user_id = some 5;
  limit = pos 300;
  priority = pos 9;
  updated_at = 2000;
}

abbrev strict_rule : PolicyRule
strict_rule = record user_rule { id = 3; min_kyc_level = full; limit = pos 900; priority = pos 1 }

abbrev three_rules : List PolicyRule
three_rules = daily_rule ∷ user_rule ∷ strict_rule ∷ []

abbrev asked : ResolveRequest
asked = record { action = withdraw_irr; metric = notional_irr; period = daily }

abbrev someone : Option KycLevel → PolicyContext
someone level = record {
  user_id = 5;
  customer_group_id = none;
  product_id = none;
  instrument_id = none;
  instrument_type = none;
  kyc_level = level;
}

resolve_from_rules-IsHeldTo_example : IsHeldTo asked (someone (some basic)) three_rules user_rule
unfolding resolve_from_rules is_candidate matches_scope matches_selector compare_rules ◌-ℤ◌
resolve_from_rules-IsHeldTo_example =
    resolve_from_rules-IsHeldTo asked (someone (some basic)) three_rules user_rule refl

resolve_from_rules-none_example :
    (resolve_from_rules asked (someone none) three_rules).selected ≡ none ↔ (
      (r : PolicyRule)
      → Among r three_rules
      → is_candidate asked (someone none) r ≡ true
      → is_eligible (someone none) r ≡ true
      → ⊥)
resolve_from_rules-none_example = resolve_from_rules-none asked (someone none) three_rules

selected-scope_rank_example : scope_rank user ≤ scope_rank global
unfolding resolve_from_rules is_candidate matches_scope matches_selector compare_rules ◌-ℤ◌
selected-scope_rank_example =
    selected-scope_rank asked (someone (some basic)) three_rules user_rule daily_rule refl
      (inl refl) refl refl
