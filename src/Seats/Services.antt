-- ===== src/Seats/Services.antt =====
-- The reservation service and the expiration of orders keep the account of the seats.
use peak_pass.Prelude.{ℕ, ◌+◌, ◌≤◌, ◌≡◌, refl, true, false, Option, none, some, leb, arith}
use peak_pass.Table.{find}
use peak_pass.Model.{Event, ReservationStatus, OrderStatus, Order, CreateReservationInput}
use peak_pass.Db.{Db, Env, Tx}
use peak_pass.Db.Rules.{
  Ensures, Ensures-gets, Ensures-require, Ensures-check, Ensures-modify, Ensures-pure, Ensures-if,
  Ensures-modified,
}
use peak_pass.Db.Keys.{event_key, order_key}
use peak_pass.Reservations.{
  is_active, with_status, create_reservation_with_client, return_seats_and_finalize,
  set_reservation_status,
}
use peak_pass.Orders.{
  with_order_status, expire_at, expire_by_status, expire_pending_order_with_client,
  set_order_status,
}
use peak_pass.Seats.{Balanced, IsBalanced, none_at, seats_at}
use peak_pass.Seats.Changes.{
  Balanced-set_available, Balanced-add_reservation, Balanced-set_reservation, Balanced-set_order,
}
use peak_pass.Seats.Rules.{available_set, Ensures-take, Ensures-give, Ensures-insert_reservation}

abbrev pub Keeps : {A : Type 0} → Tx A → Type 0
Keeps m = (db : Db) → IsBalanced db → Ensures (m db) (λ _ after. IsBalanced after)

module _ {db : Db} (b : IsBalanced db) (k q n : ℕ) (event : Event)
    (found : find event_key k db.events ≡ some event) (room : n ≤ event.total_seats) where
  pub taken-Balanced :
      n + q ≡ event.available_seats → Balanced (seats_at k q) none_at (available_set db event n)
  taken-Balanced exact = Balanced-set_available db b k n event found room (λ e. ground arith)

  pub given-Balanced :
      n ≡ event.available_seats + q → Balanced none_at (seats_at k q) (available_set db event n)
  given-Balanced exact = Balanced-set_available db b k n event found room (λ e. ground arith)

-- A reservation takes its seats from sale and holds them.
pub create_reservation_with_client-Keeps :
    (env : Env) (input : CreateReservationInput) → Keeps (create_reservation_with_client env input)
unfolding create_reservation_with_client
create_reservation_with_client-Keeps env input db b = Ensures-gets _ _ _ (
    Ensures-require _ _ _ _ λ event _. Ensures-check _ _ _ _ λ _. Ensures-check _ _ _ _ λ _.
      Ensures-take _ _ _ _ λ event' n found exact room. Ensures-insert_reservation _ _ _ λ fresh.
        Ensures-pure _ _ (
          Balanced-add_reservation _
            (taken-Balanced b input.event_id input.quantity n event' found room exact) _ fresh
            (λ e. ground arith)))

-- The seats of an active reservation go back on sale; any other status is left alone.
pub return_seats_and_finalize-Keeps :
    (id : ℕ) (final : ReservationStatus)
    → is_active final ≡ false
    → Keeps (return_seats_and_finalize id final)
unfolding return_seats_and_finalize set_reservation_status
return_seats_and_finalize-Keeps id final closed db b = Ensures-gets _ _ _ (
    Ensures-require _ _ _ _ λ r found.
      Ensures-if _ _ _ _
        (λ (active : is_active r.status ≡ true). Ensures-give _ _ _ _ λ event n at exact room.
          Ensures-modified _ _ (
            Balanced-set_reservation _
              (given-Balanced b r.event_id r.quantity n event at room exact) id (with_status final)
              r (λ x. refl) found (λ e. ground arith)))
        (λ _. Ensures-pure _ _ b))

expire_due-Keeps :
    (env : Env) (id : ℕ) (o : Order) (db : Db)
    → find order_key id db.orders ≡ some o
    → o.status ≡ OrderStatus.pending
    → IsBalanced db
    → (deadline : Option ℕ) → Ensures (expire_at env id o deadline db) (λ _ after. IsBalanced after)
unfolding expire_at set_order_status
expire_due-Keeps env id o db found is_pending b none = Ensures-pure _ _ b
expire_due-Keeps env id o db found is_pending b (some deadline) =
    Ensures-if (leb deadline env.now) _ _ db
      (λ _. Ensures-give _ _ _ _ λ event n at exact room. Ensures-modify _ _ _ (
        Ensures-gets _ _ _ (
          Ensures-require _ _ _ _ λ after _. Ensures-pure _ _ (
            Balanced-set_order _ (given-Balanced b o.event_id o.quantity n event at room exact) id
              (with_order_status OrderStatus.expired) o (λ x. refl) (λ x. refl) found
              (λ e. ground arith)))))
      (λ _. Ensures-pure _ _ b)

expire_by_status-Keeps :
    (env : Env) (id : ℕ) (status : OrderStatus) (o : Order) (db : Db)
    → find order_key id db.orders ≡ some o
    → o.status ≡ status
    → IsBalanced db
    → Ensures (expire_by_status env id status o db) (λ _ after. IsBalanced after)
unfolding expire_by_status
expire_by_status-Keeps env id OrderStatus.pending o db found e b =
    expire_due-Keeps env id o db found e b o.payment_deadline_at
expire_by_status-Keeps env id _ o db found e b = Ensures-pure _ _ b

-- The expiration of a pending order returns its seats; any other order is left alone.
pub expire_pending_order_with_client-Keeps :
    (env : Env) (id : ℕ) → Keeps (expire_pending_order_with_client env id)
unfolding expire_pending_order_with_client
expire_pending_order_with_client-Keeps env id db b =
    Ensures-gets _ _ _
      (Ensures-require _ _ _ _ λ o found. expire_by_status-Keeps env id o.status o db found refl b)
