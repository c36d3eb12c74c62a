-- ===== src/Retry/Laws.antt =====
-- The retries of a purchase: the number of the runs, and the errors that a purchase with an
-- admission is answered with.
use peak_pass.Prelude.{
  ℕ, zero, suc, ◌+◌, ◌≤◌, ◌≡◌, refl, ap, sym, ◌∙◌, Bool, true, false, ◌&&◌, ◌||◌, not, none, some,
  ◌⊎◌, arith, Bool-cases, inl, inr,
}
use peak_pass.Failure.{
  Failure, Result, Constraint, SqlState, unique_violation, foreign_key_violation, check_violation,
  other_state, admission_results_pkey, admission_events_event_id_fkey, admission_error, app,
  refused, pg, plain,
}
use peak_pass.Model.Admission.{AdmissionRef}
use peak_pass.Retry.{
  Raised, Attempt, done, raised, is_retriable_transaction_error, is_transient, is_zero,
  after_attempt, serializable_transaction_with_retry, answer, answered, purchase_transaction,
}

-- A run with a counter of the runs.
abbrev pub counted : {W A : Type 0} → (W → Attempt A × W) → W × ℕ → Attempt A × (W × ℕ)
counted run w = ((run w.0).0, ((run w.0).1, suc w.1))

-- The outcome of `left` attempts that began after `n` runs.
pub record Bounded {W A : Type 0} (retry_if : Failure → Bool) (left n : ℕ) (r : Attempt A × (W × ℕ))
    : Type 0 where
  pub some_run : n + 1 ≤ r.1.1
  pub at_most : r.1.1 ≤ n + left
  pub exhausted :
      (e : Raised)
      → r.0 ≡ raised e
      → (is_retriable_transaction_error e.failure || retry_if e.failure) ≡ true
      → r.1.1 ≡ n + left

module _ {W A : Type 0} (retry_if : Failure → Bool) where
  after_attempt-Bounded :
      (left n : ℕ) (rest : W × ℕ → Attempt A × (W × ℕ)) (r : Attempt A × (W × ℕ))
      → r.1.1 ≡ suc n
      → ((w : W × ℕ) → w.1 ≡ suc n → is_zero left ≡ false → Bounded retry_if left (suc n) (rest w))
      → Bounded retry_if (suc left) n (after_attempt retry_if left rest r)
  unfolding after_attempt
  after_attempt-Bounded left n rest (done a, w) once more = record {
    some_run = omega (arith, once);
    at_most = omega (arith, once);
    exhausted = λ e h _. cc;
  }
  after_attempt-Bounded zero n rest (raised x, w) once more = record {
    some_run = ground (arith, once);
    at_most = ground (arith, once);
    exhausted = λ e h again. ground (arith, once);
  }
  after_attempt-Bounded (suc left) n rest (raised x, w) once more =
      elim (Bool-cases (is_retriable_transaction_error x.failure || retry_if x.failure)) [
        | inl y ↦
            (let b = more w once refl in
              rw (y) (record {
                some_run = omega (arith, b.some_run);
                at_most = omega (arith, b.at_most);
                exhausted = λ e h again. omega (arith, b.exhausted e h again);
              }))
        | inr ne ↦ rw (ne) (record {
          some_run = omega (arith, once);
          at_most = omega (arith, once);
          exhausted = λ e h again. let bad : true ≡ false = stops x e ne h again in absurd (cc);
        })
      ]
    where
      stops :
          (x e : Raised)
          → (is_retriable_transaction_error x.failure || retry_if x.failure) ≡ false
          → ◌≡◌ {A = Attempt A} (raised x) (raised e)
          → (is_retriable_transaction_error e.failure || retry_if e.failure) ≡ true
          → true ≡ false
      stops x e ne h again =
          let same : x ≡ e = cc in
          sym again
          ∙ ap (λ (y : Raised). is_retriable_transaction_error y.failure || retry_if y.failure)
              (sym same)
          ∙ ne

  -- The loop with `left` attempts, at least one, makes at least one run of the transaction and at most
  -- `left`; and where the error that it ends with is one to be retried, it has made all of them.
  pub serializable_transaction_with_retry-Bounded :
      (left : ℕ) (run : W → Attempt A × W) (w : W × ℕ)
      → is_zero left ≡ false
      → Bounded retry_if left w.1
          (serializable_transaction_with_retry retry_if left (counted run) w)
  unfolding serializable_transaction_with_retry
  serializable_transaction_with_retry-Bounded zero run w h = absurd (cc)
  serializable_transaction_with_retry-Bounded (suc left) run w h =
      after_attempt-Bounded left w.1 _ (counted run w) refl
        λ w' e more. rw (← e) (serializable_transaction_with_retry-Bounded left run w' more)

-- The refusal after which the claim stays with the same request.
abbrev pub unavailable : Raised
unavailable = record {
  failure = app (admission_error "ADMISSION_UNAVAILABLE" 503);
  from_work = false;
}

-- The constraints that a race between two requests breaks.
abbrev not_result : Constraint → Bool
not_result admission_results_pkey = false
not_result _ = true

abbrev not_event : Constraint → Bool
not_event admission_events_event_id_fkey = false
not_event _ = true

-- The states of PostgreSQL with which a statement is decided: a constraint that no race breaks, and what
-- is neither a conflict, a timeout nor a lost connection.
abbrev decided_state : SqlState → Bool
decided_state (unique_violation c) = not_result c
decided_state (foreign_key_violation c) = not_event c
decided_state (check_violation c) = true
decided_state other_state = true
decided_state _ = false

-- Whether an error is the answer: an AppError is, and an error that the work of the transaction threw
-- and that is decided.
abbrev pub is_answer : Failure → Bool → Bool
is_answer (app x) from_work = true
is_answer (refused x) from_work = true
is_answer (plain s) from_work = from_work
is_answer (pg s) from_work = from_work && decided_state s

-- An error of the retries is answered as it is, or as the refusal.
abbrev Answered : Raised → Raised → Type 0
Answered x e =
    ((e ≡ x) × (is_answer x.failure x.from_work ≡ true))
    ⊎ ((e ≡ unavailable) × (is_answer x.failure x.from_work ≡ false))

decided-is_transient : (s : SqlState) → not (is_transient (pg s)) ≡ decided_state s
decided-is_transient s = ground arith

answer-Answered :
    (a : AdmissionRef) (f : Failure) (w : Bool)
    → Answered
        (record { failure = f; from_work = w })
        (answer (some a) (record { failure = f; from_work = w }))
unfolding answer
answer-Answered a (app y) w = inl (refl, refl)
answer-Answered a (refused y) w = inl (refl, refl)
answer-Answered a (plain s) true = inl (refl, refl)
answer-Answered a (plain s) false = inr (refl, refl)
answer-Answered a (pg s) false = inr (refl, refl)
answer-Answered a (pg s) true = elim (Bool-cases (decided_state s)) [
  | inl y ↦ (let t = decided-is_transient s ∙ y in rw (t, y) (inl (refl, refl)))
  | inr n ↦ (let t = decided-is_transient s ∙ n in rw (t, n) (inr (refl, refl)))
]

answered-Answered :
    {W A : Type 0} (a : AdmissionRef) (r : Attempt A × W) (x : Raised)
    → r.0 ≡ raised x
    → (e : Raised) × (((answered (some a) r).0 ≡ raised e) × Answered x e)
unfolding answered
answered-Answered a (done y, w) x h = absurd (cc)
answered-Answered a (raised y, w) x h =
    let same : y ≡ x = cc in
    (
      answer (some a) x,
      (ap (λ z. raised (answer (some a) z)) same, answer-Answered a x.failure x.from_work),
    )

unadmitted : {W A : Type 0} (r : Attempt A × W) → answered none r ≡ r
unfolding answered answer
unadmitted (done y, w) = refl
unadmitted (raised y, w) = refl

-- Where a purchase without an admission ends with an error, the same runs with an admission end with
-- that error if it is an AppError, or if the work of the transaction threw it and it is decided; and
-- otherwise, for a conflict, a race, a timeout, a lost connection or an error outside of the work, with
-- the refusal ADMISSION_UNAVAILABLE of status 503.
pub purchase_transaction-Answered :
    {W A : Type 0} (a : AdmissionRef) (read_committed : Bool) (look : W → Result Bool × W)
    (run : W → Attempt A × W) (w : W) (x : Raised)
    → (purchase_transaction none read_committed look run w).0 ≡ raised x
    → (e : Raised) × (((purchase_transaction (some a) read_committed look run w).0 ≡ raised e)
        × Answered x e)
unfolding purchase_transaction
purchase_transaction-Answered a true look run w x h =
    answered-Answered a _ x (ap (λ r. r.0) (sym (unadmitted _)) ∙ h)
purchase_transaction-Answered a false look run w x h =
    answered-Answered a _ x (ap (λ r. r.0) (sym (unadmitted _)) ∙ h)
