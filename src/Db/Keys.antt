-- ===== src/Db/Keys.antt =====
-- The columns by which the tables are read, and tests on a row that was or was not found.
use peak_pass.Prelude.{
  ℕ, Bool, true, false, ◌||◌, Option, none, some, List, [], ◌∷◌, ◌==◌, Text, text_eq,
}
pub use peak_pass.Prelude.{is_some, is_none}
use peak_pass.Model.{Event, Reservation, Order, Ticket, PaymentRecord}
use peak_pass.Model.Admission.{AdmissionResult, AdmissionPolicy}

abbrev pub event_key : Event → ℕ
event_key r = r.id

abbrev pub reservation_key : Reservation → ℕ
reservation_key r = r.id

abbrev pub order_key : Order → ℕ
order_key r = r.id

abbrev pub order_idempotency_key : Order → ℕ
order_idempotency_key r = r.idempotency_key

abbrev pub ticket_key : Ticket → ℕ
ticket_key r = r.id

abbrev pub payment_key : PaymentRecord → ℕ
payment_key r = r.id

abbrev pub policy_key : AdmissionPolicy → ℕ
policy_key r = r.event_id

abbrev pub result_key : AdmissionResult → ℕ
result_key r = r.admission_id

-- A primary key of a table of identities alone.
unfoldable pub member : ℕ → List ℕ → Bool
member k [] = false
member k (j ∷ rows) = j == k || member k rows

-- The first row that passes a test, where no single number is the key.
unfoldable pub find_row {ℓ} : {A : Type ℓ} → (A → Bool) → List A → Option A
find_row p [] = none
find_row p (r ∷ rows) = elim (p r) [ true ↦ some r | false ↦ find_row p rows ]

-- Equality of nullable columns, `x ?? null` against `y ?? null`.
abbrev pub option_eq : Option ℕ → Option ℕ → Bool
option_eq none none = true
option_eq (some a) (some b) = a == b
option_eq _ _ = false

abbrev pub option_text_eq : Option Text → Option Text → Bool
option_text_eq none none = true
option_text_eq (some a) (some b) = text_eq a b
option_text_eq _ _ = false
