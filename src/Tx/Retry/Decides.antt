-- ===== src/Tx/Retry/Decides.antt =====
-- That the loop of `runInTx` ends with one of its attempts.
use gold_nest.Tx.Retry.{
  Attempt, Outcome, returned, threw, finished, is_transient_prisma_error, Thrown, run_from,
  run_in_tx,
}
use gold_nest.Base.{
  ℕ, Bool, List, ◌≡◌, [], ◌+◌, ◌≤◌, false, suc, ◌<◌, true, ◌*◌, ◌⊎◌, ◌^◌, arith, ◌-◌, refl, ◌∷◌,
  zero, ap, Bool-cases, not, sym, ◌==◌, ◌||◌, inl, inr, subst, ==_iff, ◌∙◌,
}

module _ {A : Type 0} (attempts base_delay : ℕ) (transaction : ℕ → Attempt A) where
  abbrev pub is_retried : Attempt A → Bool
  is_retried (returned a) = false
  is_retried (threw e) = is_transient_prisma_error e

  -- The pauses behind attempts `k`, `k + 1`, …, of which there are `n`.
  abbrev pub pauses : ℕ → ℕ → List ℕ
  pauses zero k = []
  pauses (suc n) k = base_delay * 2 ^ (k - 1) ∷ pauses n (suc k)

  -- The loop from `attempt` on ends with attempt `k`, behind `n` pauses: the attempts before it failed
  -- for a reason that may pass, and it did not, or it was the last.
  pub record IsDecided (attempt : ℕ) (run : Outcome A × List ℕ) : Type 0 where
    pub n : ℕ
    pub k : ℕ
    pub position : attempt + n ≡ k
    pub in_time : k ≤ attempts
    pub retried : (j : ℕ) → attempt ≤ j → j < k → is_retried (transaction j) ≡ true
    pub last : (is_retried (transaction k) ≡ false) ⊎ (k ≡ attempts)
    pub outcome : run.0 ≡ finished (transaction k)
    pub paused : run.1 ≡ pauses n attempt

  first-IsDecided :
      (attempt : ℕ) (a : Attempt A)
      → transaction attempt ≡ a
      → attempt ≤ attempts
      → (is_retried a ≡ false) ⊎ (attempt ≡ attempts)
      → IsDecided attempt (finished a, [])
  first-IsDecided attempt a e h last = record {
    n = 0;
    k = attempt;
    position = omega arith;
    in_time = h;
    retried = λ j above below. absurd (omega arith);
    last = rw (e) last;
    outcome = ap finished (sym e);
    paused = refl;
  }

  later-IsDecided :
      (attempt : ℕ) (e : Thrown) (run : Outcome A × List ℕ)
      → transaction attempt ≡ threw e
      → is_transient_prisma_error e ≡ true
      → IsDecided (suc attempt) run
      → IsDecided attempt (run.0, base_delay * 2 ^ (attempt - 1) ∷ run.1)
  later-IsDecided attempt e run at_attempt transient r = record {
    n = suc r.n;
    k = r.k;
    position = omega (arith, r.position);
    in_time = r.in_time;
    retried = λ j above below. elim (Bool-cases (attempt == j)) [
      | inl this ↦
          subst (λ i. is_retried (transaction i) ≡ true) ((==_iff attempt j).0 this)
            (ap is_retried at_attempt ∙ transient)
      | inr other ↦ r.retried j (ground arith) below
    ];
    last = r.last;
    outcome = r.outcome;
    paused = ap (λ ds. base_delay * 2 ^ (attempt - 1) ∷ ds) r.paused;
  }

  run_from-IsDecided :
      (left attempt : ℕ)
      → attempt + left ≡ suc attempts
      → 1 ≤ left
      → IsDecided attempt (run_from attempts base_delay transaction left attempt)
  run_from-IsDecided zero attempt total some_left = absurd (omega arith)
  run_from-IsDecided (suc left) attempt total some_left =
      go (λ below. run_from-IsDecided left (suc attempt) (omega arith) (omega arith))
        (transaction attempt) refl
    where
      retry_or_stop :
          (attempt < attempts
            → IsDecided (suc attempt) (run_from attempts base_delay transaction left (suc attempt)))
          → (e : Thrown) → transaction attempt ≡ threw e
          → (b : Bool) → (not (is_transient_prisma_error e) || attempt == attempts) ≡ b
          → IsDecided attempt (elim b [
            | true ↦ (finished (threw e), [])
            | false ↦ (
              (run_from attempts base_delay transaction left (suc attempt)).0,
              base_delay * 2 ^ (attempt - 1)
                  ∷ (run_from attempts base_delay transaction left (suc attempt)).1,
            )
          ])
      retry_or_stop rest e at_attempt true stop =
          first-IsDecided attempt (threw e) at_attempt (omega arith)
            (elim (Bool-cases (is_transient_prisma_error e)) [
              | inl transient ↦ inr (ground arith)
              | inr lasting ↦ inl lasting
            ])
      retry_or_stop rest e at_attempt false on =
          later-IsDecided attempt e _ at_attempt (ground arith) (rest (ground arith))

      go :
          (attempt < attempts
            → IsDecided (suc attempt) (run_from attempts base_delay transaction left (suc attempt)))
          → (a : Attempt A) → transaction attempt ≡ a
          → IsDecided attempt (elim a [
            | returned x ↦ (finished (returned x), [])
            | threw error ↦ elim (not (is_transient_prisma_error error) || attempt == attempts) [
              | true ↦ (finished (threw error), [])
              | false ↦ (
                (run_from attempts base_delay transaction left (suc attempt)).0,
                base_delay * 2 ^ (attempt - 1)
                    ∷ (run_from attempts base_delay transaction left (suc attempt)).1,
              )
            ]
          ])
      go rest (returned x) e = first-IsDecided attempt (returned x) e (omega arith) (inl refl)
      go rest (threw x) e =
          retry_or_stop rest x e (not (is_transient_prisma_error x) || attempt == attempts) refl

  -- Where at least one attempt is allowed, the run of a transaction ends with the first attempt that
  -- returns or fails for a lasting reason, or with the last one allowed: what that attempt returns or
  -- throws is the outcome, and never that the retries are exhausted. Between the attempts it pauses
  -- for the base delay, doubled each time.
  pub run_in_tx-IsDecided : 1 ≤ attempts → IsDecided 1 (run_in_tx attempts base_delay transaction)
  unfolding run_in_tx
  run_in_tx-IsDecided h = run_from-IsDecided attempts 1 (omega arith) h
