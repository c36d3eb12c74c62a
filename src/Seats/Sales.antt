-- ===== src/Seats/Sales.antt =====
-- The purchases and the payment webhook keep the account of the seats.
use peak_pass.Prelude.{ℕ, ◌≡◌, refl, Bool, true, false, Option, none, some, ◌∷◌, arith}
use peak_pass.Table.{find}
use peak_pass.Model.{ReservationStatus, Reservation, CreateOrderInput}
use peak_pass.Model.Admission.{AdmissionRef}
use peak_pass.Db.{Db, Env}
use peak_pass.Db.Rules.{
  Ensures, Ensures-gets, Ensures-require, Ensures-check, Ensures-modify, Ensures-pure, Ensures-then,
}
use peak_pass.Db.Keys.{reservation_key, order_key, order_idempotency_key}
use peak_pass.Reservations.{with_status}
use peak_pass.Checkout.{
  new_order, take_seats, create_order, convertible, convert_and_order, same_reservation,
}
use peak_pass.Frame.{IsStable, Preserves-leaves, LeavesSales-bind, LeavesSales-pure}
use peak_pass.Frame.Payments.{insert_pending_record-LeavesSales}
use peak_pass.Frame.Ledger.{assert_admission_link-LeavesSales}
use peak_pass.Seats.{Balanced, IsBalanced, none_at, seats_at}
use peak_pass.Seats.Changes.{Balanced-set_reservation, Balanced-add_order, Balanced-set_available}
use peak_pass.Seats.Rules.{Ensures-take, Ensures-insert_order}

pub Balanced-IsStable : {out over : ℕ → ℕ} → IsStable (Balanced out over)
Balanced-IsStable db after same b = record {
  events_unique = rw same.events b.events_unique;
  reservations_unique = rw same.reservations b.reservations_unique;
  orders_unique = rw same.orders b.orders_unique;
  keys_unique = rw same.orders b.keys_unique;
  within = rw same.events b.within;
  balance = λ e. rw (same.events, same.reservations, same.orders) (b.balance e);
}

-- The seats that wait for an order where its reservation gave them up, and those that it has yet to
-- take where it had none.
abbrev waiting : Bool → CreateOrderInput → ℕ → ℕ
waiting true input = seats_at input.event_id input.quantity
waiting false input = none_at

abbrev owed : Bool → CreateOrderInput → ℕ → ℕ
owed true input = none_at
owed false input = seats_at input.event_id input.quantity

take_seats-IsBalanced :
    (held : Bool) (input : CreateOrderInput) (db : Db)
    → Balanced none_at (owed held input) db
    → Ensures (take_seats held input db) (λ _ after. IsBalanced after)
unfolding take_seats
take_seats-IsBalanced true input db b = Ensures-pure _ _ b
take_seats-IsBalanced false input db b = Ensures-take _ _ _ _ λ event n found exact room.
    Ensures-pure _ _
      (Balanced-set_available db b input.event_id n event found room (λ e. ground arith))

order_added-Balanced :
    (env : Env) (input : CreateOrderInput) (held : Bool) (unit_price : ℕ) (db : Db)
    → Balanced (waiting held input) none_at db
    → find order_key (new_order env input unit_price).id db.orders ≡ none
    → find order_idempotency_key (new_order env input unit_price).idempotency_key db.orders ≡ none
    → Balanced none_at
        (owed held input)
        (record db { orders = new_order env input unit_price ∷ db.orders })
order_added-Balanced env input true unit_price db b fresh fresh_key =
    Balanced-add_order db b (new_order env input unit_price) fresh fresh_key (λ e. ground arith)
order_added-Balanced env input false unit_price db b fresh fresh_key =
    Balanced-add_order db b (new_order env input unit_price) fresh fresh_key (λ e. ground arith)

pub create_order-IsBalanced :
    (env : Env) (input : CreateOrderInput) (held : Bool) (db : Db)
    → Balanced (waiting held input) none_at db
    → Ensures (create_order env input held db) (λ _ after. IsBalanced after)
unfolding create_order
create_order-IsBalanced env input held db b = Ensures-gets _ _ _ (
    Ensures-require _ _ _ _ λ event _. Ensures-check _ _ _ _ λ _. Ensures-require _ _ _ _ λ tier _.
      Ensures-require _ _ _ _ λ unit_price _. Ensures-check _ _ _ _ λ _.
        Ensures-insert_order _ _ _ λ fresh fresh_key.
          Ensures-then _ _ _
            (take_seats-IsBalanced held input _
              (order_added-Balanced env input held unit_price db b fresh fresh_key))
            λ _ mid taken.
              Preserves-leaves Balanced-IsStable _
                (LeavesSales-bind _ _ (insert_pending_record-LeavesSales _ _ _)
                  λ _. LeavesSales-pure _)
                mid taken)

-- The seats of the reservation become those of the order.
pub convert_and_order-Keeps :
    (env : Env) (id : ℕ) (input : CreateOrderInput) (a : Option AdmissionRef) (r : Reservation)
    (db : Db)
    → find reservation_key id db.reservations ≡ some r
    → convertible env input r ≡ true
    → IsBalanced db
    → Ensures (convert_and_order env id input a db) (λ _ after. IsBalanced after)
unfolding convert_and_order convertible same_reservation
convert_and_order-Keeps env id input a r db found fits b = Ensures-modify _ _ _ (
    Ensures-then _ _ _
      (Preserves-leaves waiting-IsStable _ (assert_admission_link-LeavesSales a none (some id)) _ (
        Balanced-set_reservation db b id (with_status ReservationStatus.converted) r (λ x. refl)
          found (λ e. ground arith)))
      λ _ mid waits.
        Ensures-then _ _ _ (create_order-IsBalanced env input true mid waits)
          λ o after kept. Ensures-pure _ _ kept)
  where
    waiting-IsStable : IsStable (Balanced (waiting true input) none_at)
    waiting-IsStable db after same b = Balanced-IsStable db after same b
