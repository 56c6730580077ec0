-- ===== src/Tx/Ensures.antt =====
-- Postconditions of transactions, and the rules by which they compose.
use gold_nest.Base.{◌≡◌, refl, List, [], ◌∷◌, Bool, true, false}
use gold_nest.Tx.{Result, ok, err, Tx, ◌>>=◌, for_each, committed, Error, throw_if}

module _ {S A : Type 0} where
  -- If the run does not throw, its result and the tables after it satisfy `Q`.
  abbrev pub Ensures : (A → S → Type 0) → Result (A × S) → Type 0
  Ensures Q (ok r) = Q r.0 r.1
  Ensures Q (err e) = Unit

  -- The invariant `P` survives the transaction.
  abbrev pub Keeps : (S → Type 0) → Tx S A → Type 0
  Keeps P m = (s : S) → P s → Ensures (λ _ s'. P s') (m s)

  pub Ensures-map :
      (Q R : A → S → Type 0) (r : Result (A × S))
      → ((a : A) (s : S) → Q a s → R a s)
      → Ensures Q r
      → Ensures R r
  Ensures-map Q R (ok r) f h = f r.0 r.1 h
  Ensures-map Q R (err e) f h = tt

  pub Ensures-both :
      (Q R : A → S → Type 0) (r : Result (A × S))
      → Ensures Q r
      → Ensures R r
      → Ensures (λ a s. Q a s × R a s) r
  Ensures-both Q R (ok r) h k = (h, k)
  Ensures-both Q R (err e) h k = tt

  pub Ensures-committed :
      (P : S → Type 0) (s : S) (r : Result (A × S))
      → P s
      → Ensures (λ _ s'. P s') r
      → P (committed s r)
  Ensures-committed P s (ok r) p h = h
  Ensures-committed P s (err e) p h = p

  -- A postcondition at a run that is known to succeed.
  pub Ensures-ok :
      (Q : A → S → Type 0) (r : Result (A × S)) (a : A) (s : S)
      → r ≡ ok (a, s)
      → Ensures Q r
      → Q a s
  Ensures-ok Q r a s e h = subst_ok e h
    where
      subst_ok : r ≡ ok (a, s) → Ensures Q r → Q a s
      subst_ok p q = rw p at q

module _ {S A B : Type 0} where
  pub Ensures-bind :
      (Q : A → S → Type 0) (R : B → S → Type 0) (m : Tx S A) (f : A → Tx S B) (s : S)
      → Ensures Q (m s)
      → ((a : A) (s' : S) → Q a s' → Ensures R (f a s'))
      → Ensures R ((m >>= f) s)
  Ensures-bind Q R m f s h k = go (m s) h
    where
      go : (r : Result (A × S)) → Ensures Q r → Ensures R (◌>>=◌ (λ (_ : S). r) f s)
      go (ok r) q = k r.0 r.1 q
      go (err e) q = tt

  pub Keeps-bind :
      (P : S → Type 0) (m : Tx S A) (f : A → Tx S B)
      → Keeps P m
      → ((a : A) → Keeps P (f a))
      → Keeps P (m >>= f)
  Keeps-bind P m f h k s p =
      Ensures-bind (λ _ s'. P s') (λ _ s'. P s') m f s (h s p) (λ a s' q. k a s' q)

  -- Inversion of a transaction that succeeded.
  pub >>=-eq-ok :
      (m : Tx S A) (f : A → Tx S B) (s : S) (b : B × S)
      → (m >>= f) s ≡ ok b
      → (a : A) × (s' : S) × (m s ≡ ok (a, s')) × (f a s' ≡ ok b)
  >>=-eq-ok m f s b h = go (m s) refl h
    where
      go :
          (r : Result (A × S))
          → m s ≡ r
          → (◌>>=◌ (λ (_ : S). r) f s) ≡ ok b
          → (a : A) × (s' : S) × (m s ≡ ok (a, s')) × (f a s' ≡ ok b)
      go (ok r) e h' = (r.0, r.1, e, h')
      go (err x) e h' = cc

module _ {S A : Type 0} (P : S → Type 0) (body : A → Tx S (Unit {0}))
    (keeps : (x : A) → Keeps P (body x)) where
  pub for_each-Keeps : (xs : List A) → Keeps P (for_each xs body)
  for_each-Keeps [] s p = p
  for_each-Keeps (x ∷ xs) s p =
      Keeps-bind P (body x) (λ _. for_each xs body) (keeps x) (λ _. for_each-Keeps xs) s p

pub throw_if-same :
    {S : Type 0} (b : Bool) (e : Error) (s : S) → Ensures (λ _ s'. s' ≡ s) (throw_if b e s)
throw_if-same true e s = tt
throw_if-same false e s = refl
