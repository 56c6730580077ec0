-- ===== src/Policy/Rules/Order.antt =====
-- `compareRules` is a total preorder, and what it looks at first.
use gold_nest.Base.{ℕ, ◌≡◌, ◌≤◌, ◌⊎◌, arith}
use gold_nest.Int.{ℤ, pos, ◌-ℤ◌, ◌≤ℤ◌, int_laws}
use gold_nest.Policy.Rules.{PolicyRule, compare_rules, or_next, scope_rank}
use gold_nest.Policy.Sorting.{Precedes}

or_next-total :
    (d e r s : ℤ)
    → e ≡ pos 0 -ℤ d
    → (r ≤ℤ pos 0) ⊎ (s ≤ℤ pos 0)
    → (or_next d r ≤ℤ pos 0) ⊎ (or_next e s ≤ℤ pos 0)
unfolding ◌-ℤ◌
or_next-total d e r s h k = ground (arith, h, k)

flip : (a b : ℤ) → a -ℤ b ≡ pos 0 -ℤ (b -ℤ a)
flip a b = omega int_laws

leaf-total : (a b : ℕ) → ((pos a -ℤ pos b) ≤ℤ pos 0) ⊎ ((pos b -ℤ pos a) ≤ℤ pos 0)
leaf-total a b = omega int_laws

-- Of any two rules, `compareRules` lets one come first.
pub compare_rules-total :
    (a b : PolicyRule) → Precedes compare_rules a b ⊎ Precedes compare_rules b a
unfolding compare_rules
compare_rules-total a b = or_next-total _ _ _ _ (flip _ _) (
    or_next-total _ _ _ _ (flip _ _) (
      or_next-total _ _ _ _ (flip _ _)
        (or_next-total _ _ _ _ (flip _ _) (leaf-total b.created_at a.created_at))))

or_next-trans :
    (x y z r s t : ℤ)
    → (r ≤ℤ pos 0 → s ≤ℤ pos 0 → t ≤ℤ pos 0)
    → or_next (x -ℤ y) r ≤ℤ pos 0
    → or_next (y -ℤ z) s ≤ℤ pos 0
    → or_next (x -ℤ z) t ≤ℤ pos 0
or_next-trans x y z r s t k h1 h2 = grind int_laws

or_next-trans_down :
    (x y z r s t : ℤ)
    → (r ≤ℤ pos 0 → s ≤ℤ pos 0 → t ≤ℤ pos 0)
    → or_next (y -ℤ x) r ≤ℤ pos 0
    → or_next (z -ℤ y) s ≤ℤ pos 0
    → or_next (z -ℤ x) t ≤ℤ pos 0
or_next-trans_down x y z r s t k h1 h2 = grind int_laws

leaf-trans :
    (x y z : ℕ) → (pos y -ℤ pos x) ≤ℤ pos 0 → (pos z -ℤ pos y) ≤ℤ pos 0 → (pos z -ℤ pos x) ≤ℤ pos 0
leaf-trans x y z h k = omega int_laws

-- The order of `compareRules` is transitive.
pub compare_rules_trans :
    (a b c : PolicyRule)
    → Precedes compare_rules a b
    → Precedes compare_rules b c
    → Precedes compare_rules a c
unfolding compare_rules
compare_rules_trans a b c = or_next-trans _ _ _ _ _ _ (
    or_next-trans _ _ _ _ _ _ (
      or_next-trans _ _ _ _ _ _
        (or_next-trans_down _ _ _ _ _ _ (leaf-trans a.created_at b.created_at c.created_at))))

or_next_first : (x y r : ℤ) → or_next (x -ℤ y) r ≤ℤ pos 0 → x ≤ℤ y
or_next_first x y r h = grind int_laws

-- A rule that comes first is of no wider scope: USER before GROUP before GLOBAL.
pub Precedes-scope_rank :
    (a b : PolicyRule)
    → Precedes compare_rules a b
    → scope_rank a.scope_type ≤ scope_rank b.scope_type
unfolding compare_rules
Precedes-scope_rank a b h =
    let first : pos (scope_rank a.scope_type) ≤ℤ pos (scope_rank b.scope_type) =
      or_next_first _ _ _ h in
    omega arith
