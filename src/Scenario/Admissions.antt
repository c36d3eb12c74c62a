-- ===== src/Scenario/Admissions.antt =====
-- The theorems on the admission gate and its ledger at concrete inputs.
use peak_pass.Prelude.{◌≡◌, refl, true, false, Option, [], ◌∷◌, none, some, text_eq, includes}
use peak_pass.Table.{find, update}
use peak_pass.Failure.{ok, err, app, admission_error, insufficient_inventory_error}
use peak_pass.Model.{Reservation, CreateReservationInput}
use peak_pass.Model.Admission.{
  AdmissionRef, PurchaseCommand, AdmissionPolicy, AdmissionClaim, OutcomeKind, open_phase,
}
use peak_pass.Db.{
  Db, savepoint, interrupted, rollback_to_savepoint, pure, throw, gets, require, modify, check,
  ◌>>=◌,
}
use peak_pass.Db.Keys.{member, find_row}
use peak_pass.Db.Insert.{insert_reservation}
use peak_pass.Inventory.{set_available, adjust_available_seats}
use peak_pass.Reservations.{sale_eligible, find_tier, create_reservation_with_client}
use peak_pass.Admission.{
  admission_fingerprint, Gateway, AdmissionGate, fingerprint_eq, same_fingerprint, stored_rejection,
}
use peak_pass.Admission.Occupy.{
  Occupation, value, rejected, is_recovering, shape_ok, insert_result, rejected_row, consumed_row,
  target_matches, claimed, approve, outcome_kind, rejected_settlement, reject, consume,
  after_occupy, occupy_protected, occupy_through_admission,
}
use peak_pass.Admission.Ledger.{Recorded, occupy_through_admission-Recorded}
use peak_pass.Admission.Spending.{occupy_through_admission-rejected}
use peak_pass.Frame.{SameSales}
use peak_pass.Purchase.{reservation_command, occupy_reservation, create_reservation}
use peak_pass.Purchase.Leaves.{occupy_reservation-LeavesLedger}
use peak_pass.Purchase.Replay.{
  create_reservation-unadmitted, create_reservation-consumed, create_reservation-rejected,
}
use peak_pass.Scenario.{env_of, hold, empty_db}
use peak_pass.Scenario.Data.{event_with, held_reservation}

abbrev guarded_policy : AdmissionPolicy
guarded_policy = record { event_id = 100; protected = true; epoch = 7; phase = open_phase }

abbrev guarded_db : Db
guarded_db = record empty_db { events = event_with 3 ∷ []; admission_events = guarded_policy ∷ [] }

abbrev admission : AdmissionRef
admission = record { admission_id = 900; epoch = 7 }

abbrev hold_command : PurchaseCommand
unfolding reservation_command
hold_command = reservation_command hold (some admission)

abbrev claim_of : PurchaseCommand → AdmissionRef → AdmissionClaim
claim_of c a = record {
  event_id = c.event_id;
  user_id = c.user_id;
  admission_id = a.admission_id;
  epoch = a.epoch;
  fingerprint = admission_fingerprint c a;
  claim_token = 77;
  deadline = 5000;
}

-- Locks are granted, and Redis admits everybody.
abbrev open_gateway : Gateway
open_gateway = record { lock = λ id. none; claim = λ c a f. ok (claim_of c a) }

abbrev guarded_gate : AdmissionGate
guarded_gate = record { policy = guarded_policy; prior = none }

create_reservation-unadmitted_example :
    create_reservation (env_of 2) open_gateway hold none guarded_db
    ≡ err (app (admission_error "ADMISSION_INVALID_INPUT" 400))
unfolding find
create_reservation-unadmitted_example =
    create_reservation-unadmitted (env_of 2) open_gateway hold guarded_db (event_with 3)
      guarded_policy refl refl refl

abbrev consumed_db : Db
consumed_db = record guarded_db {
  reservations = held_reservation ∷ [];
  admission_results = consumed_row hold_command admission 200 ∷ [];
}

create_reservation-consumed_example :
    create_reservation (env_of 2) open_gateway hold (some admission) consumed_db
    ≡ ok ((value (some held_reservation) none, true), consumed_db)
unfolding find same_fingerprint fingerprint_eq text_eq reservation_command
create_reservation-consumed_example =
    create_reservation-consumed (env_of 2) open_gateway hold consumed_db (event_with 3)
      guarded_policy refl refl admission (consumed_row hold_command admission 200) refl refl refl
      refl 200 refl refl

abbrev big_hold : CreateReservationInput
big_hold = record hold { quantity = 4 }

abbrev big_command : PurchaseCommand
unfolding reservation_command
big_command = reservation_command big_hold (some admission)

abbrev rejected_db : Db
rejected_db = record guarded_db {
  admission_results = rejected_row big_command admission (insufficient_inventory_error 3 4) ∷ [];
}

create_reservation-rejected_example :
    create_reservation (env_of 2) open_gateway big_hold (some admission) rejected_db
    ≡ ok ((rejected (insufficient_inventory_error 3 4) none, false), rejected_db)
unfolding find same_fingerprint fingerprint_eq text_eq reservation_command stored_rejection
create_reservation-rejected_example =
    create_reservation-rejected (env_of 2) open_gateway big_hold rejected_db (event_with 3)
      guarded_policy refl refl admission
      (rejected_row big_command admission (insufficient_inventory_error 3 4)) refl refl refl refl
      refl

rejected_run :
    occupy_through_admission
      (env_of 2)
      open_gateway
      guarded_gate
      big_command
      (occupy_reservation (env_of 2) big_hold)
      guarded_db
    ≡ ok (
      rejected
          (insufficient_inventory_error 3 4)
          (rejected_settlement (claim_of big_command admission) (insufficient_inventory_error 3 4)),
      rejected_db,
    )
unfolding find update pure throw gets require modify check ◌>>=◌ member find_row insert_reservation
    set_available adjust_available_seats sale_eligible find_tier create_reservation_with_client
    is_recovering shape_ok insert_result target_matches claimed approve outcome_kind reject consume
    savepoint interrupted rollback_to_savepoint after_occupy occupy_protected
    occupy_through_admission text_eq includes reservation_command
rejected_run = refl

occupy_through_admission-rejected_example : SameSales guarded_db rejected_db
occupy_through_admission-rejected_example =
    occupy_through_admission-rejected (env_of 2) open_gateway guarded_gate big_command
      (occupy_reservation (env_of 2) big_hold) guarded_db rejected_db
      (insufficient_inventory_error 3 4)
      (rejected_settlement (claim_of big_command admission) (insufficient_inventory_error 3 4))
      rejected_run

abbrev taken_db : Db
taken_db = record consumed_db { events = event_with 1 ∷ [] }

abbrev taken : Occupation (Option Reservation)
taken = value (some held_reservation) (
    some (record {
      claim = claim_of hold_command admission;
      outcome = record { kind = OutcomeKind.reservation; resource_id = some 200; code = none };
    }))

consumed_run :
    occupy_through_admission
      (env_of 2)
      open_gateway
      guarded_gate
      hold_command
      (occupy_reservation (env_of 2) hold)
      guarded_db
    ≡ ok (taken, taken_db)
unfolding find update pure throw gets require modify check ◌>>=◌ member find_row insert_reservation
    set_available adjust_available_seats sale_eligible find_tier create_reservation_with_client
    is_recovering shape_ok insert_result target_matches claimed approve outcome_kind reject consume
    savepoint interrupted rollback_to_savepoint after_occupy occupy_protected
    occupy_through_admission text_eq includes reservation_command
consumed_run = refl

occupy_through_admission-Recorded_example : Recorded hold_command admission guarded_db taken_db
unfolding hold_command
occupy_through_admission-Recorded_example =
    occupy_through_admission-Recorded hold_command admission (env_of 2) open_gateway guarded_gate
      (occupy_reservation (env_of 2) hold) guarded_db taken_db taken refl refl
      (occupy_reservation-LeavesLedger (env_of 2) hold) consumed_run
