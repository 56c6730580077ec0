-- ===== src/Policy/Sorting.antt =====
-- `xs.sort(compare)`: the stable sort of the language, and what its head is.
use gold_nest.Base.{
  ◌≡◌, refl, subst, Option-cases, false, Option, none, some, List, [], ◌∷◌, All, arith, inl, inr,
  Bool-cases, ◌⊎◌, if◌then◌else◌,
}
use gold_nest.Int.{ℤ, pos, leb_ℤ, ◌≤ℤ◌}

module _ {A : Type 0} (cmp : A → A → ℤ) where
  abbrev pub insert_sorted : A → List A → List A
  insert_sorted x [] = x ∷ []
  insert_sorted x (y ∷ ys) = if leb_ℤ (cmp x y) (pos 0) then x ∷ y ∷ ys else y ∷ insert_sorted x ys

  abbrev pub sort : List A → List A
  sort [] = []
  sort (x ∷ xs) = insert_sorted x (sort xs)

  -- `xs[0]`
  abbrev pub first : List A → Option A
  first [] = none
  first (x ∷ xs) = some x

  abbrev least_of : A → Option A → A
  least_of x none = x
  least_of x (some y) = if leb_ℤ (cmp x y) (pos 0) then x else y

  -- The head of a sorted list is the earliest least element.
  abbrev pub best : List A → Option A
  best [] = none
  best (x ∷ xs) = some (least_of x (best xs))

  first-insert_sorted :
      (x : A) (ys : List A) → first (insert_sorted x ys) ≡ some (least_of x (first ys))
  first-insert_sorted x [] = refl
  first-insert_sorted x (y ∷ ys) = ground arith

  pub first-sort : (xs : List A) → first (sort xs) ≡ best xs
  first-sort [] = refl
  first-sort (x ∷ xs) = rw (first-insert_sorted x (sort xs), first-sort xs)

  abbrev pub Precedes : A → A → Type 0
  Precedes x y = cmp x y ≤ℤ pos 0

module _ {A : Type 0} (cmp : A → A → ℤ) (total : (x y : A) → Precedes cmp x y ⊎ Precedes cmp y x)
    (trans : (x y z : A) → Precedes cmp x y → Precedes cmp y z → Precedes cmp x z) where
  self : (x : A) → Precedes cmp x x
  self x = elim (total x x) [ inl h ↦ h | inr h ↦ h ]

  All-Precedes :
      (x y : A) (xs : List A) → Precedes cmp x y → All (Precedes cmp y) xs → All (Precedes cmp x) xs
  All-Precedes x y [] h a = tt
  All-Precedes x y (z ∷ xs) h a = (trans x y z h a.0, All-Precedes x y xs h a.1)

  later : (x y : A) → leb_ℤ (cmp x y) (pos 0) ≡ false → Precedes cmp y x
  later x y h = elim (total x y) [ inl p ↦ absurd (ground arith) | inr p ↦ p ]

  none-best : (xs : List A) → best cmp xs ≡ none → xs ≡ []
  none-best [] e = refl
  none-best (x ∷ xs) e = cc

  pub best-least : (xs : List A) (b : A) → best cmp xs ≡ some b → All (Precedes cmp b) xs
  best-least [] b e = tt
  best-least (x ∷ xs) b e = elim (Option-cases (best cmp xs)) [
    | inl empty ↦
        subst (λ c. Precedes cmp c x × All (Precedes cmp c) xs) (ground arith)
          (self x, rw (none-best xs empty) tt)
    | inr (y, at) ↦ elim (Bool-cases (leb_ℤ (cmp x y) (pos 0))) [
      | inl here ↦
          subst (λ c. Precedes cmp c x × All (Precedes cmp c) xs) (ground arith)
            (self x, All-Precedes x y xs (ground arith) (best-least xs y at))
      | inr there ↦
          subst (λ c. Precedes cmp c x × All (Precedes cmp c) xs) (ground arith)
            (later x y there, best-least xs y at)
    ]
  ]
