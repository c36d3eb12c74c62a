-- ===== src/Retry.antt =====
-- The retries around a purchase: `serializableTransactionWithRetry` of src/infra/postgres/client.ts
-- and `purchaseTransaction` of src/core/services/admission-consumption.ts. A run of the transaction
-- is a function of the world `W`, in which other transactions may commit during the run and before
-- it; the waits between the attempts and the log lines are left out.
pub mod Laws
use peak_pass.Prelude.{
  ℕ, zero, suc, Bool, true, false, ◌&&◌, ◌||◌, not, Option, none, some, if◌then◌else◌,
}
use peak_pass.Failure.{
  Failure, Result, ok, err, app, refused, pg, plain, admission_error, serialization_failure,
  deadlock_detected, unique_violation, foreign_key_violation, lock_not_available, query_canceled,
  idle_timeout, connection_lost, admission_results_pkey, admission_events_event_id_fkey,
}
use peak_pass.Model.Admission.{AdmissionRef}

-- An error of a run, and whether the work of the transaction threw it: BEGIN, COMMIT and ROLLBACK
-- throw errors of their own.
pub record Raised : Type 0 where
  pub failure : Failure
  pub from_work : Bool

pub data Attempt (A : Type 0) : Type 0 where
  done : A → Attempt A
  raised : Raised → Attempt A

-- RETRIABLE_TRANSACTION_CODES
abbrev pub is_retriable_transaction_error : Failure → Bool
is_retriable_transaction_error (pg serialization_failure) = true
is_retriable_transaction_error (pg deadlock_detected) = true
is_retriable_transaction_error _ = false

abbrev pub is_admission_result_race : Failure → Bool
is_admission_result_race (pg (unique_violation admission_results_pkey)) = true
is_admission_result_race _ = false

abbrev pub is_admission_policy_event_race : Failure → Bool
is_admission_policy_event_race (pg (foreign_key_violation admission_events_event_id_fkey)) = true
is_admission_policy_event_race _ = false

abbrev pub is_purchase_race : Failure → Bool
is_purchase_race f = is_admission_result_race f || is_admission_policy_event_race f

abbrev pub has_transient_code : Failure → Bool
has_transient_code (pg lock_not_available) = true
has_transient_code (pg query_canceled) = true
has_transient_code (pg idle_timeout) = true
has_transient_code (pg connection_lost) = true
has_transient_code _ = false

abbrev pub is_transient : Failure → Bool
is_transient f = is_retriable_transaction_error f || is_purchase_race f || has_transient_code f

abbrev pub is_zero : ℕ → Bool
is_zero zero = true
is_zero (suc n) = false

abbrev pub max_attempts : ℕ
max_attempts = 3

-- The outer `catch`: what is answered for an error.
unfoldable pub answer : Option AdmissionRef → Raised → Raised
answer none e = e
answer (some a) e = elim e.failure [
  | app x ↦ e
  | refused x ↦ e
  | _ ↦
      if e.from_work && not (is_transient e.failure)
      then e
      else record { failure = app (admission_error "ADMISSION_UNAVAILABLE" 503); from_work = false }
]

abbrev pub is_unconfirmed : Failure → Bool
is_unconfirmed (refused x) = true
is_unconfirmed _ = false

module _ {W A : Type 0} where
  -- What follows the attempt after which `left` are left; `rest` is the loop from there.
  unfoldable pub after_attempt :
      (Failure → Bool) → ℕ → (W → Attempt A × W) → Attempt A × W → Attempt A × W
  after_attempt retry_if left rest (done a, w) = (done a, w)
  after_attempt retry_if left rest (raised e, w) =
      if (is_retriable_transaction_error e.failure || retry_if e.failure) && not (is_zero left)
      then rest w
      else (raised e, w)

  -- `for (let attempt = 1; attempt <= maxAttempts; attempt++)`, with the attempts that are left.
  unfoldable pub serializable_transaction_with_retry :
      (Failure → Bool) → ℕ → (W → Attempt A × W) → W → Attempt A × W
  serializable_transaction_with_retry retry_if zero run w = (
    raised (record {
      failure = plain "serializableTransactionWithRetry: no attempt executed";
      from_work = false;
    }),
    w,
  )
  serializable_transaction_with_retry retry_if (suc left) run w =
      after_attempt retry_if left (serializable_transaction_with_retry retry_if left run) (run w)

  unfoldable pub answered : Option AdmissionRef → Attempt A × W → Attempt A × W
  answered admission (done a, w) = (done a, w)
  answered admission (raised e, w) = (raised (answer admission e), w)

  -- The look at the committed ledger: the query throws, or tells whether there is a row.
  unfoldable pub after_look : (W → Attempt A × W) → Raised → Result Bool × W → Attempt A × W
  after_look again e (err f, w) = (raised (record { failure = f; from_work = false }), w)
  after_look again e (ok found, w) = if found then again w else (raised e, w)

  -- A refusal that is not confirmed is looked up before it is the answer.
  unfoldable pub confirm :
      (W → Result Bool × W) → (W → Attempt A × W) → Attempt A × W → Attempt A × W
  confirm look again (done a, w) = (done a, w)
  confirm look again (raised e, w) =
      if is_unconfirmed e.failure then after_look again e (look w) else (raised e, w)

  -- `readCommitted`: one more run after the race with the deletion of the event.
  unfoldable pub after_committed : (W → Attempt A × W) → Attempt A × W → Attempt A × W
  after_committed again (done a, w) = (done a, w)
  after_committed again (raised e, w) =
      if is_admission_policy_event_race e.failure then again w else (raised e, w)

  unfoldable pub purchase_transaction :
      Option AdmissionRef → Bool → (W → Result Bool × W) → (W → Attempt A × W) → W → Attempt A × W
  purchase_transaction admission true look run w = answered admission (after_committed run (run w))
  purchase_transaction admission false look run w = answered admission (
      confirm look (serializable_transaction_with_retry is_purchase_race max_attempts run)
        (serializable_transaction_with_retry is_purchase_race max_attempts run w))
