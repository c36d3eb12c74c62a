-- ===== src/Seats/Changes.antt =====
-- What each change of a table does to the account of the seats.
use peak_pass.Prelude.{ℕ, ◌+◌, ◌≤◌, ◌≡◌, refl, none, some, ◌∷◌, arith}
use peak_pass.Table.{find, update, sum}
use peak_pass.Table.Laws.{
  key-find, sum-update, update-Unique, update-Unique_other, update-All_found, find_self,
}
use peak_pass.Model.{Event, Reservation, Order}
use peak_pass.Db.{Db}
use peak_pass.Db.Keys.{event_key, reservation_key, order_key, order_idempotency_key}
use peak_pass.Inventory.{with_available}
use peak_pass.Seats.{Balanced, free_weight, capacity_weight, held_weight, sold_weight, seats_at}

module _ {out over : ℕ → ℕ} (db : Db) (b : Balanced out over db) where
  -- Another split of the seats in transit with the same difference.
  pub Balanced-transit :
      {out' over' : ℕ → ℕ} → ((e : ℕ) → out e + over' e ≡ out' e + over e) → Balanced out' over' db
  Balanced-transit same = record {
    events_unique = b.events_unique;
    reservations_unique = b.reservations_unique;
    orders_unique = b.orders_unique;
    keys_unique = b.keys_unique;
    within = b.within;
    balance = λ e. omega (arith, b.balance e, same e);
  }

  -- The free seats of the event `k` become `n`.
  pub Balanced-set_available :
      {out' over' : ℕ → ℕ} (k n : ℕ) (event : Event)
      → find event_key k db.events ≡ some event
      → n ≤ event.total_seats
      → ((e : ℕ)
          → seats_at k n e + out' e + over e ≡ seats_at k event.available_seats e + out e + over' e)
      → Balanced out' over'
          (record db { events = update event_key event.id (with_available n) db.events })
  Balanced-set_available k n event found room moved = record {
    events_unique =
        update-Unique event_key event.id (with_available n) db.events (λ r. refl) b.events_unique;
    reservations_unique = b.reservations_unique;
    orders_unique = b.orders_unique;
    keys_unique = b.keys_unique;
    within =
        update-All_found event_key (λ ev. ev.available_seats ≤ ev.total_seats) event.id
          (with_available n) db.events b.events_unique (find_self event_key k db.events event found)
          room b.within;
    balance = λ e. ground (
      arith,
      b.balance e,
      moved e,
      key-find event_key k db.events found,
      sum-update event_key (free_weight e) event.id (with_available n) db.events event
          b.events_unique (find_self event_key k db.events event found),
      sum-update event_key (capacity_weight e) event.id (with_available n) db.events event
          b.events_unique (find_self event_key k db.events event found),
    );
  }

  -- A row of the reservations is changed by `f`, which keeps its id.
  pub Balanced-set_reservation :
      {out' over' : ℕ → ℕ} (k : ℕ) (f : Reservation → Reservation) (r : Reservation)
      → ((x : Reservation) → (f x).id ≡ x.id)
      → find reservation_key k db.reservations ≡ some r
      → ((e : ℕ) → held_weight e (f r) + out' e + over e ≡ held_weight e r + out e + over' e)
      → Balanced out' over'
          (record db { reservations = update reservation_key k f db.reservations })
  Balanced-set_reservation k f r keeps found moved = record {
    events_unique = b.events_unique;
    reservations_unique =
        update-Unique reservation_key k f db.reservations keeps b.reservations_unique;
    orders_unique = b.orders_unique;
    keys_unique = b.keys_unique;
    within = b.within;
    balance = λ e. omega (
      arith,
      b.balance e,
      moved e,
      sum-update reservation_key (held_weight e) k f db.reservations r b.reservations_unique found,
    );
  }

  pub Balanced-add_reservation :
      {out' over' : ℕ → ℕ} (r : Reservation)
      → find reservation_key r.id db.reservations ≡ none
      → ((e : ℕ) → held_weight e r + out' e + over e ≡ out e + over' e)
      → Balanced out' over' (record db { reservations = r ∷ db.reservations })
  unfolding sum
  Balanced-add_reservation r fresh moved = record {
    events_unique = b.events_unique;
    reservations_unique = (fresh, b.reservations_unique);
    orders_unique = b.orders_unique;
    keys_unique = b.keys_unique;
    within = b.within;
    balance = λ e. omega (arith, b.balance e, moved e);
  }

  -- A row of the orders is changed by `f`, which keeps its id and its key.
  pub Balanced-set_order :
      {out' over' : ℕ → ℕ} (k : ℕ) (f : Order → Order) (o : Order)
      → ((x : Order) → (f x).id ≡ x.id)
      → ((x : Order) → (f x).idempotency_key ≡ x.idempotency_key)
      → find order_key k db.orders ≡ some o
      → ((e : ℕ) → sold_weight e (f o) + out' e + over e ≡ sold_weight e o + out e + over' e)
      → Balanced out' over' (record db { orders = update order_key k f db.orders })
  Balanced-set_order k f o keeps keeps_key found moved = record {
    events_unique = b.events_unique;
    reservations_unique = b.reservations_unique;
    orders_unique = update-Unique order_key k f db.orders keeps b.orders_unique;
    keys_unique =
        update-Unique_other order_key order_idempotency_key k f db.orders keeps_key b.keys_unique;
    within = b.within;
    balance = λ e. omega (
      arith,
      b.balance e,
      moved e,
      sum-update order_key (sold_weight e) k f db.orders o b.orders_unique found,
    );
  }

  pub Balanced-add_order :
      {out' over' : ℕ → ℕ} (o : Order)
      → find order_key o.id db.orders ≡ none
      → find order_idempotency_key o.idempotency_key db.orders ≡ none
      → ((e : ℕ) → sold_weight e o + out' e + over e ≡ out e + over' e)
      → Balanced out' over' (record db { orders = o ∷ db.orders })
  unfolding sum
  Balanced-add_order o fresh fresh_key moved = record {
    events_unique = b.events_unique;
    reservations_unique = b.reservations_unique;
    orders_unique = (fresh, b.orders_unique);
    keys_unique = (fresh_key, b.keys_unique);
    within = b.within;
    balance = λ e. omega (arith, b.balance e, moved e);
  }
