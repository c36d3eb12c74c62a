-- ===== src/Failure.antt =====
-- src/core/errors/index.ts, and what else a transaction can throw: an error of PostgreSQL with its
-- SQLSTATE, or a plain `Error`. A message is its template with the values that it shows.
use peak_pass.Prelude.{ℕ, ◌≡◌, ◌⊎◌, inl, inr, refl, String, Bool, Text, leb, not}

pub data Message : Type 0 where
  text : String → Message
  not_found : String → ℕ → Message
  insufficient_inventory : ℕ → ℕ → Message
  pricing_tier_not_found : Text → Message

-- `class AppError`; the context of an error goes to the log alone and is left out.
pub record AppError : Type 0 where
  pub code : String
  pub status_code : ℕ
  pub message : Message

abbrev pub validation_error : Message → AppError
validation_error m = record { code = "VALIDATION_ERROR"; status_code = 400; message = m }

abbrev pub not_found_error : String → ℕ → AppError
not_found_error resource id = record {
  code = "NOT_FOUND";
  status_code = 404;
  message = not_found resource id;
}

abbrev pub conflict_error : Message → AppError
conflict_error m = record { code = "CONFLICT"; status_code = 409; message = m }

abbrev pub insufficient_inventory_error : ℕ → ℕ → AppError
insufficient_inventory_error available requested = record {
  code = "INSUFFICIENT_INVENTORY";
  status_code = 409;
  message = insufficient_inventory available requested;
}

-- `class AdmissionError`: the code is the message; the poll delay and the snapshot are for the reply.
abbrev pub admission_error : String → ℕ → AppError
admission_error c status = record { code = c; status_code = status; message = text c }

-- The constraints of src/infra/migrations that an INSERT or an UPDATE of the model can break.
pub data Constraint : Type 0 where
  events_seats_check events_pkey : Constraint
  reservations_pkey reservations_user_fkey reservations_event_fkey : Constraint
  reservations_quantity_check : Constraint
  orders_pkey orders_idempotency_key orders_user_fkey orders_event_fkey : Constraint
  orders_quantity_check : Constraint
  payment_records_pkey payment_records_idempotency_key payment_records_order_fkey : Constraint
  tickets_pkey tickets_ticket_number : Constraint
  admission_results_pkey admission_results_reservation admission_results_order : Constraint
  admission_results_user_fkey admission_results_shape_check : Constraint
  admission_events_event_id_fkey : Constraint

-- The SQLSTATE classes that src tells apart.
pub data SqlState : Type 0 where
  serialization_failure deadlock_detected : SqlState  -- 40001, 40P01
  unique_violation foreign_key_violation check_violation : Constraint → SqlState
  lock_not_available query_canceled idle_timeout : SqlState  -- 55P03, 57014, 25P03
  connection_lost : SqlState  -- 08…, 57P…, E…
  other_state : SqlState

-- `refused` is an AdmissionError that stands in the set `unconfirmed` of admission-consumption.ts.
pub data Failure : Type 0 where
  app : AppError → Failure
  refused : AppError → Failure
  pg : SqlState → Failure
  plain : String → Failure

pub data Result (A : Type 0) : Type 0 where
  ok : A → Result A
  err : Failure → Result A

-- `!(error instanceof AppError) || error.statusCode >= 500` of occupyThroughAdmission, negated.
abbrev pub is_business : AppError → Bool
is_business e = not (leb 500 e.status_code)

pub Result-cases :
    {A : Type 0} (r : Result A) → ((a : A) × (r ≡ ok a)) ⊎ ((e : Failure) × (r ≡ err e))
Result-cases (ok a) = inl (a, refl)
Result-cases (err e) = inr (e, refl)
