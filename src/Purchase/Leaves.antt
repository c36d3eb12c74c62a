-- ===== src/Purchase/Leaves.antt =====
-- The work of the two purchases leaves the ledger of the admissions alone.
use peak_pass.Prelude.{◌≡◌, refl, false}
use peak_pass.Model.{CreateReservationInput, CreateOrderInput}
use peak_pass.Db.{Env}
use peak_pass.Db.Rules.{
  Ensures-gets, Ensures-require, Ensures-check, Ensures-pure, Ensures-then, Ensures-modified,
}
use peak_pass.Admission.Ledger.{LeavesLedger}
use peak_pass.Reservations.{create_reservation_with_client}
use peak_pass.Checkout.{take_seats, insert_pending_record, create_order, occupy_order}
use peak_pass.Purchase.{occupy_reservation}
use peak_pass.Seats.Rules.{Ensures-take, Ensures-insert_reservation, Ensures-insert_order}

pub occupy_reservation-LeavesLedger :
    (env : Env) (input : CreateReservationInput) → LeavesLedger (occupy_reservation env input)
unfolding create_reservation_with_client
occupy_reservation-LeavesLedger env input db =
    Ensures-then {P = λ _ after. after.admission_results ≡ db.admission_results} _ _ _
      (Ensures-gets _ _ _ (
        Ensures-require _ _ _ _ λ event _. Ensures-check _ _ _ _ λ _. Ensures-check _ _ _ _ λ _.
          Ensures-take _ _ _ _ λ event' n found exact room.
            Ensures-insert_reservation _ _ _ λ fresh. Ensures-pure _ _ refl))
      λ r after same. Ensures-pure _ _ same

create_order-ledger :
    (env : Env) (input : CreateOrderInput) → LeavesLedger (create_order env input false)
unfolding create_order take_seats insert_pending_record
create_order-ledger env input db = Ensures-gets _ _ _ (
    Ensures-require _ _ _ _ λ event _. Ensures-check _ _ _ _ λ _. Ensures-require _ _ _ _ λ tier _.
      Ensures-require _ _ _ _ λ unit_price _. Ensures-check _ _ _ _ λ _.
        Ensures-insert_order _ _ _ λ fresh fresh_key.
          Ensures-then {P = λ _ after. after.admission_results ≡ db.admission_results} _ _ _
            (Ensures-take _ _ _ _ λ event' n found exact room. Ensures-pure _ _ refl)
            λ _ mid same.
              Ensures-then {P = λ _ after. after.admission_results ≡ db.admission_results} _ _ _
                (Ensures-gets _ _ _ (
                  Ensures-check _ _ _ _ λ _. Ensures-check _ _ _ _ λ _.
                    Ensures-modified {Q = λ _ after. after.admission_results ≡ db.admission_results}
                      _ _ same))
                λ _ after same'. Ensures-pure _ _ same')

pub occupy_order-LeavesLedger :
    (env : Env) (input : CreateOrderInput) → LeavesLedger (occupy_order env input)
occupy_order-LeavesLedger env input db =
    Ensures-then _ _ _ (create_order-ledger env input db) λ o after same. Ensures-pure _ _ same
