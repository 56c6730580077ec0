-- ===== src/Custody/Weight.antt =====
-- `toEquivGram750` of src/modules/physical-custody/physical-custody.service.ts: a weight of gold of
-- some fineness as a weight of gold of fineness 750. decimal.js keeps 20 significant digits of
-- every product and quotient and rounds a tie away from zero, as do `toFixed` and the columns.
use gold_nest.Int.{pos, ℤ, negsuc, negated}
use gold_nest.Base.{
  ℕ, zero, suc, ◌+◌, ◌*◌, ◌/◌, ◌^◌, ◌≤◌, ◌<◌, ltb, arith, true, false, Bool-cases, inl, inr,
}

abbrev pub gold_750_instrument_code : ℕ
gold_750_instrument_code = 1

-- A number as it is written: `coefficient / 10 ^ scale`.
pub record Decimal : Type 0 where
  pub coefficient : ℤ
  pub scale : ℕ

-- The quotient, rounded to an integer.
abbrev pub round_div : ℕ → ℕ → ℕ
round_div n d = (2 * n + d) / (2 * d)

-- The power of ten that stands behind the first 20 digits of `n`.
unfoldable pub unit_of : ℕ → ℕ → ℕ
unit_of zero n = 1
unit_of (suc fuel) n = elim (ltb n 100000000000000000000) [
  | true ↦ 1
  | false ↦ 10 * unit_of fuel (n / 10)
]

-- `n` is fuel enough for `unit_of`: no more than 20 digits are kept.
unit_of-enough : (fuel n : ℕ) → n ≤ fuel → n < 100000000000000000000 * unit_of fuel n
unfolding unit_of
unit_of-enough zero n h = omega arith
unit_of-enough (suc fuel) n h = elim (Bool-cases (ltb n 100000000000000000000)) [
  | inl small ↦ ground (arith, small)
  | inr large ↦
      let rest = unit_of-enough fuel (n / 10) (ground (arith, large)) in ground (arith, large, rest)
]

-- The number of 20 significant digits that is nearest to `n`.
abbrev pub to_precision : ℕ → ℕ
to_precision n = round_div n (unit_of n n) * unit_of n n

-- `mul(ayar)` and `div(750)`, then `toFixed(6)`, on absolute values; 23 further digits of the
-- quotient are more than its 20 significant ones.
abbrev pub over_750 : ℕ → ℕ → ℕ
over_750 product scale =
    round_div (to_precision (to_precision product * 10 ^ 23 / 750)) (10 ^ (scale + 17))

-- The result is in millionths of a gram.
unfoldable pub to_equiv_gram_750 : Decimal → ℤ → ℤ
unfolding unit_of
to_equiv_gram_750 weight (pos a) = elim weight.coefficient [
  | pos w ↦ pos (over_750 (w * a) weight.scale)
  | negsuc w ↦ negated (pos (over_750 (suc w * a) weight.scale))
]
to_equiv_gram_750 weight (negsuc a) = elim weight.coefficient [
  | pos w ↦ negated (pos (over_750 (w * suc a) weight.scale))
  | negsuc w ↦ pos (over_750 (suc w * suc a) weight.scale)
]

-- The column `weightGram`, of four decimals: ten-thousandths of a gram.
abbrev pub to_weight_column : Decimal → ℤ
to_weight_column weight = elim weight.coefficient [
  | pos w ↦ pos (round_div (w * 10 ^ 4) (10 ^ weight.scale))
  | negsuc w ↦ negated (pos (round_div (suc w * 10 ^ 4) (10 ^ weight.scale)))
]

abbrev pub of_weight_column : ℤ → Decimal
of_weight_column w = record { coefficient = w; scale = 4 }
