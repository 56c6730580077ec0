-- ===== src/Tx/Succeeds.antt =====
-- Total correctness of a transaction: it does not throw, and its outcome has the property.
use gold_nest.Base.{List, [], ◌∷◌, refl, ◌≡◌, Bool, true, false}
use gold_nest.Tx.{for_each, Result, ok, err, Tx, ◌>>=◌}
use gold_nest.Tx.Ensures.{Ensures}

abbrev pub is_ok : {A : Type 0} → Result A → Bool
is_ok (ok r) = true
is_ok (err e) = false

module _ {S A : Type 0} where
  abbrev pub Succeeds : (A → S → Type 0) → Result (A × S) → Type 0
  Succeeds Q (ok r) = Q r.0 r.1
  Succeeds Q (err e) = ⊥

  pub Succeeds-Ensures :
      (Q : A → S → Type 0) (r : Result (A × S)) → Ensures Q r → is_ok r ≡ true → Succeeds Q r
  Succeeds-Ensures Q (ok r) q h = q
  Succeeds-Ensures Q (err e) q h = cc

  pub Succeeds-ok :
      (Q : A → S → Type 0) (r : Result (A × S))
      → Succeeds Q r
      → (a : A) × (s : S) × (r ≡ ok (a, s)) × Q a s
  Succeeds-ok Q (ok r) q = (r.0, r.1, refl, q)
  Succeeds-ok Q (err e) q = absurd q

module _ {S A B : Type 0} where
  pub Succeeds-bind :
      (Q : A → S → Type 0) (R : B → S → Type 0) (m : Tx S A) (f : A → Tx S B) (s : S)
      → Succeeds Q (m s)
      → ((a : A) (s' : S) → Q a s' → Succeeds R (f a s'))
      → Succeeds R ((m >>= f) s)
  Succeeds-bind Q R m f s h k = go (m s) h
    where
      go : (r : Result (A × S)) → Succeeds Q r → Succeeds R (((λ (_ : S). r) >>= f) s)
      go (ok r) q = k r.0 r.1 q
      go (err e) q = absurd q

then-is_ok :
    {S A B : Type 0} (f : A → Tx S B) (s : S) (r : Result (A × S))
    → is_ok r ≡ true
    → ((a : A) (s' : S) → is_ok (f a s') ≡ true)
    → is_ok (((λ (_ : S). r) >>= f) s) ≡ true
then-is_ok f s (ok r) h k = k r.0 r.1
then-is_ok f s (err e) h k = cc

-- A loop whose turns never throw never throws.
module _ {S A : Type 0} (body : A → Tx S (Unit {0}))
    (turn : (x : A) (s : S) → is_ok (body x s) ≡ true) where
  pub for_each-is_ok : (xs : List A) (s : S) → is_ok (for_each xs body s) ≡ true
  for_each-is_ok [] s = refl
  for_each-is_ok (x ∷ xs) s =
      then-is_ok (λ _. for_each xs body) s (body x s) (turn x s) (λ _ s'. for_each-is_ok xs s')
