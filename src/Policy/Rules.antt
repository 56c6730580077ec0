-- ===== src/Policy/Rules.antt =====
-- The rules and contexts of src/modules/policy/policy-resolution.service.ts, and what one rule
-- says of a context. Instants are counts of milliseconds.
pub mod Order
use gold_nest.Base.{
  ℕ, ◌+◌, Bool, true, false, not, ◌&&◌, Option, none, some, List, [], ◌∷◌, ◌==◌, leb, option_eq,
  is_some, if◌then◌else◌,
}
use gold_nest.Int.{ℤ, pos, ◌-ℤ◌, leb_ℤ}

pub data PolicyAction : Type 0 where
  withdraw_irr deposit_irr trade_buy trade_sell remittance_send custody_in custody_out :
      PolicyAction

abbrev pub action_index : PolicyAction → ℕ
action_index withdraw_irr = 0
action_index deposit_irr = 1
action_index trade_buy = 2
action_index trade_sell = 3
action_index remittance_send = 4
action_index custody_in = 5
action_index custody_out = 6

pub data PolicyMetric : Type 0 where
  notional_irr weight_750_g count : PolicyMetric

abbrev pub metric_index : PolicyMetric → ℕ
metric_index notional_irr = 0
metric_index weight_750_g = 1
metric_index count = 2

pub data PolicyPeriod : Type 0 where
  daily monthly : PolicyPeriod

abbrev pub period_index : PolicyPeriod → ℕ
period_index daily = 0
period_index monthly = 1

pub data PolicyScopeType : Type 0 where
  global group user : PolicyScopeType

pub data KycLevel : Type 0 where
  no_kyc basic full : KycLevel

pub data InstrumentType : Type 0 where
  fiat gold coin other : InstrumentType

abbrev pub type_index : InstrumentType → ℕ
type_index fiat = 0
type_index gold = 1
type_index coin = 2
type_index other = 3

pub record PolicyRule : Type 0 where
  pub id : ℕ
  pub scope_type : PolicyScopeType
  pub scope_user_id : Option ℕ
  pub scope_group_id : Option ℕ
  pub action : PolicyAction
  pub metric : PolicyMetric
  pub period : PolicyPeriod
  pub limit : ℤ
  pub min_kyc_level : KycLevel
  pub instrument_id : Option ℕ
  pub instrument_type : Option InstrumentType
  pub product_id : Option ℕ
  pub enabled : Bool
  pub priority : ℤ
  pub created_at : ℕ
  pub updated_at : ℕ

-- `PolicyContext`, after `hydrateContext`.
pub record PolicyContext : Type 0 where
  pub user_id : ℕ
  pub customer_group_id : Option ℕ
  pub product_id : Option ℕ
  pub instrument_id : Option ℕ
  pub instrument_type : Option InstrumentType
  pub kyc_level : Option KycLevel

-- `KYC_ORDER.indexOf(level)`
abbrev pub kyc_rank : KycLevel → ℕ
kyc_rank no_kyc = 0
kyc_rank basic = 1
kyc_rank full = 2

abbrev pub kyc_index : Option KycLevel → ℕ
kyc_index none = 0
kyc_index (some level) = kyc_rank level

-- `hasRequiredKyc`
abbrev pub has_required_kyc : Option KycLevel → KycLevel → Bool
has_required_kyc user_level required = leb (kyc_rank required) (kyc_index user_level)

abbrev pub selector_rank : PolicyRule → ℕ
selector_rank r =
    if is_some r.product_id
    then 0
    else if is_some r.instrument_id
    then 1
    else if is_some r.instrument_type
    then 2
    else 3

abbrev pub scope_rank : PolicyScopeType → ℕ
scope_rank user = 0
scope_rank group = 1
scope_rank global = 2

scope_is : PolicyScopeType → PolicyRule → PolicyContext → Bool
scope_is user r c = option_eq r.scope_user_id (some c.user_id)
scope_is group r c = option_eq r.scope_group_id c.customer_group_id
scope_is global r c = true

unfoldable pub matches_scope : PolicyRule → PolicyContext → Bool
unfolding scope_is
matches_scope r c = scope_is r.scope_type r c

abbrev same_id : Option ℕ → Option ℕ → Bool
same_id a b = is_some b && option_eq a b

abbrev same_type : InstrumentType → Option InstrumentType → Bool
same_type t none = false
same_type t (some s) = type_index t == type_index s

abbrev selects_type : Option InstrumentType → Option InstrumentType → Bool
selects_type none t = true
selects_type (some s) t = same_type s t

unfoldable pub matches_selector : PolicyRule → PolicyContext → Bool
matches_selector r c =
    if is_some r.product_id
    then same_id r.product_id c.product_id
    else if is_some r.instrument_id
    then same_id r.instrument_id c.instrument_id
    else selects_type r.instrument_type c.instrument_type

-- `diff !== 0 ? diff : rest`
abbrev pub or_next : ℤ → ℤ → ℤ
or_next diff rest = if leb_ℤ diff (pos 0) && leb_ℤ (pos 0) diff then rest else diff

-- `compareRules`: scope, then selector, then priority, then the later update, then the later
-- creation.
unfoldable pub compare_rules : PolicyRule → PolicyRule → ℤ
compare_rules a b = or_next (pos (scope_rank a.scope_type) -ℤ pos (scope_rank b.scope_type)) (
    or_next (pos (selector_rank a) -ℤ pos (selector_rank b)) (
      or_next (a.priority -ℤ b.priority)
        (or_next (pos b.updated_at -ℤ pos a.updated_at) (pos b.created_at -ℤ pos a.created_at))))
