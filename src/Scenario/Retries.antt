-- ===== src/Scenario/Retries.antt =====
-- The theorems on the retries at concrete inputs.
use peak_pass.Prelude.{ℕ, suc, ◌≡◌, refl, Bool, true, false, none, some, ◌⊎◌, ap}
use peak_pass.Failure.{Result, ok, pg, serialization_failure}
use peak_pass.Model.Admission.{AdmissionRef}
use peak_pass.Retry.{
  Raised, Attempt, raised, after_attempt, serializable_transaction_with_retry, answer, answered,
  confirm, purchase_transaction, is_purchase_race, max_attempts,
}
use peak_pass.Retry.Laws.{
  Bounded, counted, serializable_transaction_with_retry-Bounded, purchase_transaction-Answered,
  unavailable,
}

-- The world counts the committed transactions, and every run conflicts with one more.
abbrev conflict : ℕ → Attempt ℕ × ℕ
conflict w = (raised (record { failure = pg serialization_failure; from_work = true }), suc w)

abbrev no_row : ℕ → Result Bool × ℕ
no_row w = (ok false, w)

abbrev some_admission : AdmissionRef
some_admission = record { admission_id = 900; epoch = 7 }

-- All three attempts were made.
conflict_run :
    purchase_transaction (some some_admission) false no_row conflict 10 ≡ (raised unavailable, 13)
unfolding purchase_transaction serializable_transaction_with_retry after_attempt confirm answered
    answer
conflict_run = refl

serializable_transaction_with_retry-Bounded_example :
    Bounded is_purchase_race max_attempts 0
      (serializable_transaction_with_retry is_purchase_race max_attempts (counted conflict) (10, 0))
serializable_transaction_with_retry-Bounded_example =
    serializable_transaction_with_retry-Bounded is_purchase_race max_attempts conflict (10, 0) refl

conflict_unadmitted :
    purchase_transaction none false no_row conflict 10
    ≡ (raised (record { failure = pg serialization_failure; from_work = true }), 13)
unfolding purchase_transaction serializable_transaction_with_retry after_attempt confirm answered
    answer
conflict_unadmitted = refl

purchase_transaction-Answered_example :
    (e : Raised) × (((purchase_transaction (some some_admission) false no_row conflict 10).0
        ≡ raised e)
      × (((e ≡ record { failure = pg serialization_failure; from_work = true }) × (false ≡ true))
          ⊎ ((e ≡ unavailable) × (false ≡ false))))
purchase_transaction-Answered_example =
    purchase_transaction-Answered some_admission false no_row conflict 10
      (record { failure = pg serialization_failure; from_work = true })
      (ap (λ r. r.0) conflict_unadmitted)
