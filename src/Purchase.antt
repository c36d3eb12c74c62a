-- ===== src/Purchase.antt =====
-- `createReservation` of src/core/services/reservation.service.ts on its client: the work that
-- `purchaseTransaction` runs, and the part of a transaction's owner, `transaction` of
-- src/infra/postgres/client.ts: COMMIT where the work returns, ROLLBACK where it throws.
pub mod Leaves
pub mod Replay
use peak_pass.Prelude.{ℕ, Bool, true, false, Option, none, some}
use peak_pass.Table.{find}
use peak_pass.Failure.{ok, err}
use peak_pass.Model.{Reservation, CreateReservationInput}
use peak_pass.Model.Admission.{
  AdmissionOperation, AdmissionRef, PurchaseCommand, LedgerOutcome, AdmissionResult,
}
use peak_pass.Db.{Db, Env, Tx, pure, gets, ◌>>=◌}
use peak_pass.Db.Keys.{reservation_key}
use peak_pass.Reservations.{create_reservation_with_client}
use peak_pass.Admission.{
  Gateway, AdmissionGate, purchase_command, stored_rejection, open_admission_gate, own_result,
}
use peak_pass.Admission.Occupy.{Occupation, occupy_through_admission}

-- The value and whether it is a replay.
abbrev pub ReservationOutcome : Type 0
ReservationOutcome = Occupation (Option Reservation) × Bool

unfoldable pub reservation_command : CreateReservationInput → Option AdmissionRef → PurchaseCommand
reservation_command input admission =
    purchase_command AdmissionOperation.reservation input.user_id input.event_id input.tier_id
      input.quantity none admission

abbrev pub occupy_reservation : Env → CreateReservationInput → Tx (Option Reservation × ℕ)
occupy_reservation env input = do r ← create_reservation_with_client env input; pure (some r, r.id)

-- `findReservation(prior.reservationId!)`
unfoldable pub stored_reservation : Option ℕ → Tx ReservationOutcome
stored_reservation none = pure (Occupation.value none none, true)
stored_reservation (some id) = do
  r ← gets (λ d. find reservation_key id d.reservations)
  pure (Occupation.value r none, true)

unfoldable pub replay_result : LedgerOutcome → AdmissionResult → Tx ReservationOutcome
replay_result LedgerOutcome.rejected r = pure (Occupation.rejected (stored_rejection r) none, false)
replay_result _ r = stored_reservation r.reservation_id

unfoldable pub after_prior :
    Env
    → Gateway
    → AdmissionGate
    → PurchaseCommand
    → CreateReservationInput
    → Option AdmissionResult
    → Tx ReservationOutcome
after_prior env gw gate c input none = do
  occupation ← occupy_through_admission env gw gate c (occupy_reservation env input)
  pure (occupation, false)
after_prior env gw gate c input (some r) = replay_result r.outcome r

unfoldable pub create_reservation :
    Env → Gateway → CreateReservationInput → Option AdmissionRef → Tx ReservationOutcome
create_reservation env gw input admission = do
  gate ← open_admission_gate env gw (reservation_command input admission)
  prior ← own_result gate (reservation_command input admission)
  after_prior env gw gate (reservation_command input admission) input prior

-- The database after a transaction, whichever way it ended.
unfoldable pub committed : {A : Type 0} → Tx A → Db → Db
committed m db = elim (m db) [ ok (a, db') ↦ db' | err e ↦ db ]
