-- ===== src/Tx/Retry.antt =====
-- `runInTx` and `isTransientPrismaError` of src/common/db/tx.util.ts: a transaction that fails for a
-- reason that may pass is run again after a growing pause.
pub mod Decides
use gold_nest.Base.{ℕ, Bool, List, [], false, ◌||◌, suc, true, not, ◌==◌, ◌*◌, ◌^◌, ◌-◌, ◌∷◌, zero}

-- The codes of `PrismaClientKnownRequestError` that the test names, and all others.
pub data PrismaCode : Type 0 where
  p2034 p2033 p2028 other_code : PrismaCode

-- What the message of any other error contains, in lower case.
pub record Message : Type 0 where
  pub deadlock : Bool
  pub serialization_failure : Bool
  pub could_not_serialize : Bool
  pub already_closed : Bool
  pub timeout : Bool

pub data Thrown : Type 0 where
  known : PrismaCode → Thrown
  unknown : Message → Thrown

abbrev retried_code : PrismaCode → Bool
retried_code other_code = false
retried_code _ = true

abbrev pub is_transient_prisma_error : Thrown → Bool
is_transient_prisma_error (known code) = retried_code code
is_transient_prisma_error (unknown m) =
    m.deadlock
    || (m.serialization_failure || (m.could_not_serialize || (m.already_closed || m.timeout)))

-- What one run of `prisma.$transaction` comes to; one that throws is rolled back.
pub data Attempt (A : Type 0) : Type 0 where
  returned : A → Attempt A
  threw : Thrown → Attempt A

pub data Outcome (A : Type 0) : Type 0 where
  finished : Attempt A → Outcome A
  exhausted : Outcome A

module _ {A : Type 0} (attempts base_delay : ℕ) (transaction : ℕ → Attempt A) where
  -- `left` is the number of turns left in the loop of which `attempt` is the counter; with the
  -- outcome come the pauses, in their order.
  abbrev pub run_from : ℕ → ℕ → Outcome A × List ℕ
  run_from zero attempt = (exhausted, [])
  run_from (suc left) attempt = elim (transaction attempt) [
    | returned a ↦ (finished (returned a), [])
    | threw error ↦ elim (not (is_transient_prisma_error error) || attempt == attempts) [
      | true ↦ (finished (threw error), [])
      | false ↦
          let rest = run_from left (suc attempt) in
          (rest.0, base_delay * 2 ^ (attempt - 1) ∷ rest.1)
    ]
  ]

  -- `runInTx`
  unfoldable pub run_in_tx : Outcome A × List ℕ
  run_in_tx = run_from attempts 1
