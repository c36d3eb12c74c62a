-- ===== src/Seats/Returns.antt =====
-- In a database whose account balances, the seats of a reservation and of a pending order always fit
-- back into their event: returning them never fails.
use peak_pass.Prelude.{
  ℕ, ◌+◌, ◌≤◌, ◌≡◌, refl, ap, true, pos, leb, ◌==◌, some, List, [], ◌∷◌, arith, Bool-cases, inl,
  inr, ==_refl, le→leb,
}
use peak_pass.Table.{find, update, sum}
use peak_pass.Table.Laws.{find-update}
use peak_pass.Failure.{ok}
use peak_pass.Model.{Event, ReservationStatus, Reservation, OrderStatus, Order}
use peak_pass.Db.{Db, Env, pure, throw, gets, require, modify, check, ◌>>=◌, ◌>>◌}
use peak_pass.Db.Keys.{event_key, reservation_key, order_key}
use peak_pass.Inventory.{adjust_available_seats}
use peak_pass.Inventory.Laws.{adjust_available_seats-pos}
use peak_pass.Reservations.{
  is_active, with_status, set_reservation_status, return_seats_and_finalize,
}
use peak_pass.Orders.{
  expired_now, with_order_status, set_order_status, expire_at, expire_by_status,
  expire_pending_order_with_client,
}
use peak_pass.Seats.{IsBalanced, occupies, held_weight, sold_weight}
use peak_pass.Seats.Rules.{available_set}
use peak_pass.System.Capacity.{IsBalanced-at}

-- One row's part of a sum.
sum-find :
    {A : Type 0} (key : A → ℕ) (w : A → ℕ) (k : ℕ) (rows : List A) (r : A)
    → find key k rows ≡ some r
    → w r ≤ sum w rows
unfolding find sum
sum-find key w k [] r h = absurd (cc)
sum-find key w k (x ∷ rows) r h = elim (Bool-cases (key x == k)) [
  | inl y ↦ (let same : x ≡ r = ground arith in ground (arith, ap w same))
  | inr n ↦ ground (arith, sum-find key w k rows r (rw n at h))
]

module _ (db : Db) (b : IsBalanced db) (event : Event) where
  pub room_held :
      (id : ℕ) (r : Reservation)
      → find reservation_key id db.reservations ≡ some r
      → is_active r.status ≡ true
      → find event_key r.event_id db.events ≡ some event
      → leb (event.available_seats + r.quantity) event.total_seats ≡ true
  room_held id r found active at = ground (
    arith,
    IsBalanced-at db r.event_id event b at,
    sum-find reservation_key (held_weight r.event_id) id db.reservations r found,
    ==_refl r.event_id,
  )

  pub room_sold :
      (id : ℕ) (o : Order)
      → find order_key id db.orders ≡ some o
      → occupies o.status ≡ true
      → find event_key o.event_id db.events ≡ some event
      → leb (event.available_seats + o.quantity) event.total_seats ≡ true
  room_sold id o found counted at = ground (
    arith,
    IsBalanced-at db o.event_id event b at,
    sum-find order_key (sold_weight o.event_id) id db.orders o found,
    ==_refl o.event_id,
  )

module _ (db : Db) (b : IsBalanced db) (event : Event) where
  return_held :
      (id : ℕ) (r : Reservation)
      → find reservation_key id db.reservations ≡ some r
      → is_active r.status ≡ true
      → find event_key r.event_id db.events ≡ some event
      → adjust_available_seats r.event_id (pos r.quantity) db
        ≡ ok (
          event.available_seats + r.quantity,
          available_set db event (event.available_seats + r.quantity),
        )
  return_held id r found active at =
      rw
        (
          adjust_available_seats-pos r.event_id r.quantity db event at,
          room_held db b event id r found active at,
        )
        refl

  pub return_sold :
      (id : ℕ) (o : Order)
      → find order_key id db.orders ≡ some o
      → occupies o.status ≡ true
      → find event_key o.event_id db.events ≡ some event
      → adjust_available_seats o.event_id (pos o.quantity) db
        ≡ ok (
          event.available_seats + o.quantity,
          available_set db event (event.available_seats + o.quantity),
        )
  return_sold id o found counted at =
      rw
        (
          adjust_available_seats-pos o.event_id o.quantity db event at,
          room_sold db b event id o found counted at,
        )
        refl

-- In a database whose account balances, releasing or expiring an active reservation of an event in
-- the table commits: its seats go back on sale, its row takes the final status, and nothing else
-- changes.
pub return_seats_and_finalize-active :
    (id : ℕ) (final : ReservationStatus) (db : Db) (r : Reservation) (event : Event)
    → IsBalanced db
    → find reservation_key id db.reservations ≡ some r
    → is_active r.status ≡ true
    → find event_key r.event_id db.events ≡ some event
    → return_seats_and_finalize id final db
      ≡ ok (
        tt,
        record (available_set db event (event.available_seats + r.quantity)) {
          reservations = update reservation_key id (with_status final) db.reservations;
        },
      )
unfolding return_seats_and_finalize set_reservation_status pure throw gets require modify check
    ◌>>=◌
return_seats_and_finalize-active id final db r event b found active at =
    rw (found, active, ◌>>◌, ◌>>=◌, return_held db b event id r found active at) refl

-- The order after its status has been set.
pub found_after :
    (id : ℕ) (f : Order → Order) (db : Db) (o : Order)
    → ((x : Order) → (f x).id ≡ x.id)
    → find order_key id db.orders ≡ some o
    → find order_key id (update order_key id f db.orders) ≡ some (f o)
found_after id f db o keeps found =
    rw (find-update order_key id id f db.orders keeps, ==_refl id, found) refl

expire_at-due :
    (env : Env) (id : ℕ) (db : Db) (o : Order) (event : Event) (deadline : ℕ)
    → IsBalanced db
    → find order_key id db.orders ≡ some o
    → occupies o.status ≡ true
    → leb deadline env.now ≡ true
    → find event_key o.event_id db.events ≡ some event
    → expire_at env id o (some deadline) db
      ≡ ok (
        (expired_now, with_order_status OrderStatus.expired o),
        record (available_set db event (event.available_seats + o.quantity)) {
          orders = update order_key id (with_order_status OrderStatus.expired) db.orders;
        },
      )
unfolding expire_at set_order_status pure throw gets require modify check ◌>>=◌
expire_at-due env id db o event deadline b found counted come at =
    rw
      (
        come,
        ◌>>◌,
        ◌>>=◌,
        return_sold db b event id o found counted at,
        found_after id (with_order_status OrderStatus.expired) db o (λ x. refl) found,
      )
      refl

-- In a database whose account balances, the expiration of a pending order whose deadline has come
-- and whose event is in the table commits: its seats go back on sale, its row becomes expired and is
-- answered, and nothing else changes.
pub expire_pending_order_with_client-due :
    (env : Env) (id : ℕ) (db : Db) (o : Order) (event : Event) (deadline : ℕ)
    → IsBalanced db
    → find order_key id db.orders ≡ some o
    → o.status ≡ OrderStatus.pending
    → o.payment_deadline_at ≡ some deadline
    → deadline ≤ env.now
    → find event_key o.event_id db.events ≡ some event
    → expire_pending_order_with_client env id db
      ≡ ok (
        (expired_now, with_order_status OrderStatus.expired o),
        record (available_set db event (event.available_seats + o.quantity)) {
          orders = update order_key id (with_order_status OrderStatus.expired) db.orders;
        },
      )
unfolding expire_pending_order_with_client expire_by_status expire_at set_order_status pure throw
    gets require modify check ◌>>=◌
expire_pending_order_with_client-due env id db o event deadline b found is_pending due come at =
    rw
      (
        found,
        ap (λ s. expire_by_status env id s o db) is_pending,
        ap (λ d. expire_at env id o d db) due,
      )
      (expire_at-due env id db o event deadline b found (rw is_pending refl)
        (le→leb deadline env.now come) at)
