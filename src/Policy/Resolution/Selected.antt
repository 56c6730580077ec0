-- ===== src/Policy/Resolution/Selected.antt =====
-- Which rule a request is held to, and which KYC level it is told to reach.
use gold_nest.Base.{
  ◌≡◌, ◌≤◌, Bool, true, Option, none, some, List, [], ◌∷◌, All, filter, arith, inl, inr,
  Option-cases, sym, subst, ◌≢◌, ◌∙◌, ◌⊎◌, ◌↔◌,
}
use gold_nest.Policy.Rules.{
  PolicyRule, PolicyContext, compare_rules, scope_rank, KycLevel, kyc_rank,
}
use gold_nest.Policy.Rules.Order.{compare_rules-total, compare_rules_trans, Precedes-scope_rank}
use gold_nest.Policy.Sorting.{Precedes, best, first-sort, best-least}
use gold_nest.Policy.Resolution.{
  ResolveRequest, is_candidate, is_eligible, matching, resolve_from_rules,
}

-- The rule is one of those given.
abbrev pub Among : PolicyRule → List PolicyRule → Type 0
Among r [] = ⊥
Among r (x ∷ xs) = (x ≡ r) ⊎ Among r xs

filter_sound :
    (p : PolicyRule → Bool) (xs : List PolicyRule) (r : PolicyRule)
    → Among r (filter p xs)
    → Among r xs × (p r ≡ true)
filter_sound p [] r m = elim m [ ]
filter_sound p (x ∷ xs) r m = ground (arith, filter_sound p xs r)

filter_complete :
    (p : PolicyRule → Bool) (xs : List PolicyRule) (r : PolicyRule)
    → Among r xs
    → p r ≡ true
    → Among r (filter p xs)
filter_complete p [] r m h = elim m [ ]
filter_complete p (x ∷ xs) r m h = ground (arith, filter_complete p xs r)

-- `r` is the rule that the request is held to.
pub record IsHeldTo (q : ResolveRequest) (c : PolicyContext) (rules : List PolicyRule)
    (r : PolicyRule) : Type 0 where
  pub among : Among r rules
  pub candidate : is_candidate q c r ≡ true
  pub eligible : is_eligible c r ≡ true
  pub foremost :
      (s : PolicyRule)
      → Among s rules
      → is_candidate q c s ≡ true
      → is_eligible c s ≡ true
      → Precedes compare_rules r s

Among-All :
    (P : PolicyRule → Type 0) (xs : List PolicyRule) (r : PolicyRule) → All P xs → Among r xs → P r
Among-All P [] r a m = elim m [ ]
Among-All P (x ∷ xs) r a (inl e) = subst P e a.0
Among-All P (x ∷ xs) r a (inr m) = Among-All P xs r a.1 m

best-Among : (xs : List PolicyRule) (r : PolicyRule) → best compare_rules xs ≡ some r → Among r xs
best-Among [] r e = cc
best-Among (x ∷ xs) r e = ground (arith, best-Among xs r)

matching_sound :
    (q : ResolveRequest) (c : PolicyContext) (rules : List PolicyRule) (r : PolicyRule)
    → Among r (matching q c rules)
    → Among r rules × (is_candidate q c r ≡ true) × (is_eligible c r ≡ true)
unfolding matching
matching_sound q c rules r m =
    let (inner, eligible) = filter_sound (λ x. is_eligible c x) _ r m in
    let (outer, candidate) = filter_sound (λ x. is_candidate q c x) rules r inner in
    (outer, candidate, eligible)

matching_complete :
    (q : ResolveRequest) (c : PolicyContext) (rules : List PolicyRule) (r : PolicyRule)
    → Among r rules
    → is_candidate q c r ≡ true
    → is_eligible c r ≡ true
    → Among r (matching q c rules)
unfolding matching
matching_complete q c rules r m candidate eligible =
    filter_complete (λ x. is_eligible c x) _ r
      (filter_complete (λ x. is_candidate q c x) rules r m candidate) eligible

-- The selected rule is one of the given rules, is in scope, enabled, for the request and for the
-- product, and open to the user's KYC level; and `compareRules` puts it before every such rule.
pub resolve_from_rules-IsHeldTo :
    (q : ResolveRequest) (c : PolicyContext) (rules : List PolicyRule) (r : PolicyRule)
    → (resolve_from_rules q c rules).selected ≡ some r
    → IsHeldTo q c rules r
unfolding resolve_from_rules
resolve_from_rules-IsHeldTo q c rules r e =
    let at_best : best compare_rules (matching q c rules) ≡ some r =
      sym (first-sort compare_rules (matching q c rules)) ∙ e in
    let (among, candidate, eligible) = matching_sound q c rules r (best-Among _ r at_best) in
    record {
      among = among;
      candidate = candidate;
      eligible = eligible;
      foremost = λ s m p k.
          Among-All (Precedes compare_rules r) (matching q c rules) s
            (best-least compare_rules compare_rules-total compare_rules_trans _ r at_best)
            (matching_complete q c rules s m p k);
    }

best-none : (xs : List PolicyRule) (r : PolicyRule) → Among r xs → best compare_rules xs ≢ none
best-none [] r m = elim m [ ]
best-none (x ∷ xs) r m = λ e. cc

-- No rule is selected exactly when none of the rules fits the request and the user's KYC level.
pub resolve_from_rules-none :
    (q : ResolveRequest) (c : PolicyContext) (rules : List PolicyRule)
    → (resolve_from_rules q c rules).selected ≡ none
      ↔ ((r : PolicyRule) → Among r rules → is_candidate q c r ≡ true → is_eligible c r ≡ true → ⊥)
unfolding resolve_from_rules
resolve_from_rules-none q c rules = (
  λ e r m candidate eligible.
      best-none (matching q c rules) r (matching_complete q c rules r m candidate eligible)
        (sym (first-sort compare_rules (matching q c rules)) ∙ e),
  λ no_rule. elim (Option-cases (best compare_rules (matching q c rules))) [
    | inl e ↦ first-sort compare_rules (matching q c rules) ∙ e
    | inr (r, e) ↦
        let (among, candidate, eligible) = matching_sound q c rules r (best-Among _ r e) in
        absurd (no_rule r among candidate eligible)
  ],
)

abbrev AtMost : KycLevel → Option KycLevel → Type 0
AtMost level none = Unit
AtMost level (some k) = kyc_rank level ≤ kyc_rank k

abbrev pub AtMostAll : KycLevel → List PolicyRule → Type 0
AtMostAll level = All (λ (r : PolicyRule). kyc_rank level ≤ kyc_rank r.min_kyc_level)

-- The selected rule's scope ranks no lower than that of any rule that fits the request and the user's
-- KYC level: a rule for the user goes before one for the group, and that before a global one.
pub selected-scope_rank :
    (q : ResolveRequest) (c : PolicyContext) (rules : List PolicyRule) (r s : PolicyRule)
    → (resolve_from_rules q c rules).selected ≡ some r
    → Among s rules
    → is_candidate q c s ≡ true
    → is_eligible c s ≡ true
    → scope_rank r.scope_type ≤ scope_rank s.scope_type
selected-scope_rank q c rules r s e m candidate eligible =
    Precedes-scope_rank r s
      ((resolve_from_rules-IsHeldTo q c rules r e).foremost s m candidate eligible)
