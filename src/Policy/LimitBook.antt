-- ===== src/Policy/LimitBook.antt =====
-- The book of src/modules/policy/limits.service.ts: the used and reserved amounts of each user in
-- each period, the reservations against them, and the rule that applies to a request. With
-- `buildFromMarketProduct` of src/modules/policy/policy-context-builder.service.ts.
use gold_nest.Base.{ℕ, Option, none, some, List, or_else, or_option}
use gold_nest.Int.{ℤ}
use gold_nest.Table.{Table, find_unique}
use gold_nest.Tx.{Tx, ok, throw, gets, or_throw, ◌>>=◌, user_not_found, market_product_not_found}
use gold_nest.Accounts.Ledger.{TxRefType}
use gold_nest.Policy.Rules.{PolicyRule, PolicyAction, PolicyMetric, PolicyPeriod, InstrumentType}
use gold_nest.Policy.Resolution.{UserProfile, Resolved, missing, resolve}

-- `LimitReservationStatus`
pub data LimitStatus : Type 0 where
  reserved consumed released : LimitStatus

pub record LimitUsage : Type 0 where
  pub user_id : ℕ
  pub action : PolicyAction
  pub metric : PolicyMetric
  pub period : PolicyPeriod
  pub period_key : ℕ
  pub instrument_key : ℕ
  pub used_amount : ℤ
  pub reserved_amount : ℤ

pub record LimitReservation : Type 0 where
  pub usage_id : ℕ
  pub user_id : ℕ
  pub amount : ℤ
  pub ref_type : TxRefType
  pub ref_id : ℕ
  pub status : LimitStatus

-- `marketProducts` holds the base instrument of each product.
pub record LimitBook : Type 0 where
  pub rules : List PolicyRule
  pub profiles : Table UserProfile
  pub instrument_types : Table InstrumentType
  pub market_products : Table ℕ
  pub usages : Table LimitUsage
  pub limit_reservations : Table LimitReservation
  pub next_id : ℕ

pub record ReserveParams : Type 0 where
  pub user_id : ℕ
  pub action : PolicyAction
  pub metric : PolicyMetric
  pub period : PolicyPeriod
  pub amount : ℤ
  pub instrument_key : Option ℕ
  pub instrument_id : Option ℕ
  pub instrument_type : Option InstrumentType
  pub product_id : Option ℕ
  pub ref_type : TxRefType
  pub ref_id : ℕ

-- 'ALL'
abbrev pub default_instrument_key : ℕ
default_instrument_key = 0

abbrev pub key_of : ReserveParams → ℕ
key_of p =
    or_else p.instrument_key (or_else p.product_id (or_else p.instrument_id default_instrument_key))

pub record Selectors : Type 0 where
  pub instrument_id : Option ℕ
  pub instrument_type : Option InstrumentType

type_of : LimitBook → Option ℕ → Option InstrumentType
type_of b none = none
type_of b (some id) = find_unique id b.instrument_types

build_from_market_product : LimitBook → ℕ → Option Selectors
unfolding type_of
build_from_market_product b product_id = elim (find_unique product_id b.market_products) [
  | none ↦ none
  | some base ↦ some (record { instrument_id = some base; instrument_type = type_of b (some base) })
]

-- The selectors of the request, completed from the product.
of_product : ReserveParams → Tx LimitBook Selectors
unfolding build_from_market_product
of_product p b = elim p.product_id [
  | none ↦ ok (record { instrument_id = p.instrument_id; instrument_type = p.instrument_type }, b)
  | some product_id ↦ elim (build_from_market_product b product_id) [
    | none ↦ throw market_product_not_found b
    | some built ↦ ok (
      record {
        instrument_id = or_option p.instrument_id built.instrument_id;
        instrument_type = or_option p.instrument_type built.instrument_type;
      },
      b,
    )
  ]
]

-- … and the type from the instrument.
with_type : Selectors → LimitBook → Selectors
unfolding type_of
with_type s b = record s {
  instrument_type = or_option s.instrument_type (type_of b s.instrument_id);
}

-- `policyResolver.resolve` for the request.
unfoldable pub find_applicable : ReserveParams → Tx LimitBook Resolved
unfolding of_product with_type
find_applicable p = do
  selectors ← of_product p
  filled ← gets (with_type selectors)
  answer ← gets (λ b.
      resolve b.profiles b.rules
        (record { action = p.action; metric = p.metric; period = p.period })
        (record {
          user_id = p.user_id;
          customer_group_id = missing;
          product_id = p.product_id;
          instrument_id = filled.instrument_id;
          instrument_type = filled.instrument_type;
          kyc_level = missing;
        }))
  or_throw answer user_not_found
