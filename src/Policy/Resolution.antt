-- ===== src/Policy/Resolution.antt =====
-- `hydrateContext`, `loadRulesForContext` and `resolveFromRules` of
-- src/modules/policy/policy-resolution.service.ts.
pub mod Selected
use gold_nest.Base.{
  ℕ, Bool, true, false, not, ◌&&◌, ◌||◌, Option, none, some, List, [], ◌∷◌, ◌==◌, ltb, filter,
  or_else, or_option, option_eq, is_some, if◌then◌else◌,
}
use gold_nest.Int.{ℤ}
use gold_nest.Table.{Table, find_unique}
use gold_nest.Tx.{Tx, Result, ok, err, user_not_found}
use gold_nest.Policy.Rules.{
  PolicyRule, PolicyContext, PolicyAction, PolicyMetric, PolicyPeriod, PolicyScopeType, user, group,
  global, KycLevel, no_kyc, InstrumentType, action_index, metric_index, period_index, kyc_rank,
  has_required_kyc, matches_scope, matches_selector, compare_rules,
}
use gold_nest.Policy.Sorting.{sort, first}

-- The columns of `User` and `UserKyc` that `getUserContext` reads.
pub record UserProfile : Type 0 where
  pub customer_group_id : Option ℕ
  pub kyc_verified : Bool
  pub kyc_level : KycLevel

-- A property of the caller's context: left out (`undefined`), or given, perhaps as `null`.
pub data Supplied (A : Type 0) : Type 0 where
  missing : Supplied A
  given : Option A → Supplied A

-- `PolicyContext` as a caller writes it.
pub record RequestContext : Type 0 where
  pub user_id : ℕ
  pub customer_group_id : Supplied ℕ
  pub product_id : Option ℕ
  pub instrument_id : Option ℕ
  pub instrument_type : Option InstrumentType
  pub kyc_level : Supplied KycLevel

pub record ResolveRequest : Type 0 where
  pub action : PolicyAction
  pub metric : PolicyMetric
  pub period : PolicyPeriod

abbrev nullish : {A : Type 0} → Supplied A → Option A
nullish missing = none
nullish (given o) = o

abbrev is_given : {A : Type 0} → Supplied A → Bool
is_given missing = false
is_given (given o) = true

-- `getUserContext`: the level counts only where it is verified.
abbrev verified_level : UserProfile → KycLevel
verified_level p = if p.kyc_verified then p.kyc_level else no_kyc

with_profile : RequestContext → UserProfile → PolicyContext
with_profile c p = record {
  user_id = c.user_id;
  customer_group_id = or_option (nullish c.customer_group_id) p.customer_group_id;
  product_id = c.product_id;
  instrument_id = c.instrument_id;
  instrument_type = c.instrument_type;
  kyc_level = some (or_else (nullish c.kyc_level) (verified_level p));
}

as_given : RequestContext → PolicyContext
as_given c = record {
  user_id = c.user_id;
  customer_group_id = nullish c.customer_group_id;
  product_id = c.product_id;
  instrument_id = c.instrument_id;
  instrument_type = c.instrument_type;
  kyc_level = nullish c.kyc_level;
}

unfoldable pub hydrate_context : Table UserProfile → RequestContext → Option PolicyContext
unfolding with_profile as_given
hydrate_context users c =
    if is_given c.customer_group_id && is_given c.kyc_level
    then some (as_given c)
    else elim (find_unique c.user_id users) [ none ↦ none | some p ↦ some (with_profile c p) ]

loads_scope : PolicyScopeType → PolicyRule → PolicyContext → Bool
loads_scope user r c = option_eq r.scope_user_id (some c.user_id)
loads_scope group r c =
    is_some c.customer_group_id && option_eq r.scope_group_id c.customer_group_id
loads_scope global r c = true

-- `loadRulesForContext`
unfoldable pub load_rules : List PolicyRule → PolicyContext → List PolicyRule
unfolding loads_scope
load_rules rules c = filter (λ r. r.enabled && loads_scope r.scope_type r c) rules

unfoldable pub is_candidate : ResolveRequest → PolicyContext → PolicyRule → Bool
is_candidate q c r =
    matches_scope r c
    && r.enabled
    && (action_index r.action == action_index q.action
        && (metric_index r.metric == metric_index q.metric
            && period_index r.period == period_index q.period))
    && matches_selector r c

abbrev pub is_eligible : PolicyContext → PolicyRule → Bool
is_eligible c r = has_required_kyc c.kyc_level r.min_kyc_level

-- The candidates that match, apart by whether the user's KYC level suffices.
unfoldable pub matching : ResolveRequest → PolicyContext → List PolicyRule → List PolicyRule
matching q c rules = filter (λ r. is_eligible c r) (filter (λ r. is_candidate q c r) rules)

unfoldable pub blocked : ResolveRequest → PolicyContext → List PolicyRule → List PolicyRule
blocked q c rules = filter (λ r. not (is_eligible c r)) (filter (λ r. is_candidate q c r) rules)

lower_level : Option KycLevel → PolicyRule → Option KycLevel
lower_level none r = some r.min_kyc_level
lower_level (some current) r =
    if ltb (kyc_rank r.min_kyc_level) (kyc_rank current) then some r.min_kyc_level else some current

-- `blocked.reduce(…, null)`
lowest_level : Option KycLevel → List PolicyRule → Option KycLevel
unfolding lower_level
lowest_level current [] = current
lowest_level current (r ∷ rs) = lowest_level (lower_level current r) rs

pub record Resolved : Type 0 where
  pub selected : Option PolicyRule
  pub kyc_required_level : Option KycLevel

-- `resolveFromRules`, without the trace that only the admin pages show.
unfoldable pub resolve_from_rules : ResolveRequest → PolicyContext → List PolicyRule → Resolved
unfolding matching blocked lowest_level
resolve_from_rules q c rules = record {
  selected = first compare_rules (sort compare_rules (matching q c rules));
  kyc_required_level = lowest_level none (blocked q c rules);
}

-- `resolve`: none where the user is unknown.
unfoldable pub resolve :
    Table UserProfile → List PolicyRule → ResolveRequest → RequestContext → Option Resolved
unfolding hydrate_context load_rules resolve_from_rules
resolve users rules q c = elim (hydrate_context users c) [
  | none ↦ none
  | some context ↦ some (resolve_from_rules q context (load_rules rules context))
]
