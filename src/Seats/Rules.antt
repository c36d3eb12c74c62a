-- ===== src/Seats/Rules.antt =====
-- Rules for the steps that change the seats: taking and returning them, and the two INSERTs.
use peak_pass.Prelude.{
  ℕ, zero, suc, ◌+◌, ◌≤◌, ◌≡◌, refl, ℤ, pos, negsuc, neg, ◌+ℤ◌, subst, sym, true, Option, none,
  some, ◌∷◌, leb→le, arith,
}
use peak_pass.Table.{find, update}
use peak_pass.Model.{Event, Reservation, Order}
use peak_pass.Db.{Db, Tx, ◌>>=◌}
use peak_pass.Db.Rules.{
  Ensures, Ensures-gets, Ensures-require, Ensures-check, Ensures-modify, Ensures-pure, Ensures-then,
  Ensures-throw, Ensures-modified,
}
use peak_pass.Db.Keys.{event_key, reservation_key, order_key, order_idempotency_key, is_none}
use peak_pass.Db.Insert.{insert_reservation, insert_order}
use peak_pass.Inventory.{with_available, set_available, adjust_available_seats}

-- The database with `n` free seats at the event.
abbrev pub available_set : Db → Event → ℕ → Db
available_set db event n = record db {
  events = update event_key event.id (with_available n) db.events;
}

-- How an adjustment that committed left the database.
pub record Adjusted (k : ℕ) (delta : ℤ) (db : Db) (n : ℕ) (after : Db) : Type 0 where
  pub event : Event
  pub found : find event_key k db.events ≡ some event
  pub exact : pos event.available_seats +ℤ delta ≡ pos n
  pub room : n ≤ event.total_seats
  pub made : after ≡ available_set db event n

set_available-Adjusted :
    (k : ℕ) (delta : ℤ) (db : Db) (event : Event) (next : ℤ)
    → find event_key k db.events ≡ some event
    → pos event.available_seats +ℤ delta ≡ next
    → Ensures (set_available event next db) (Adjusted k delta db)
unfolding set_available
set_available-Adjusted k delta db event (negsuc m) found exact = Ensures-throw _ db
set_available-Adjusted k delta db event (pos n) found exact = Ensures-check _ _ _ _ λ room.
    Ensures-modify _ _ _ (
      Ensures-pure n _ (record {
        event = event;
        found = found;
        exact = exact;
        room = leb→le n event.total_seats room;
        made = refl;
      }))

-- An adjustment that commits changed the free seats of its event by exactly `delta`, within the
-- bounds of the event, and nothing else.
pub adjust_available_seats-Adjusted :
    (k : ℕ) (delta : ℤ) (db : Db)
    → Ensures (adjust_available_seats k delta db) (Adjusted k delta db)
unfolding adjust_available_seats
adjust_available_seats-Adjusted k delta db = Ensures-gets _ _ _ (
    Ensures-require _ _ _ _ λ event found.
      Ensures-check _ _ _ _ λ _. set_available-Adjusted k delta db event _ found refl)

take_exact : (a q n : ℕ) → pos a +ℤ neg q ≡ pos n → n + q ≡ a
take_exact a zero n h = ground arith
take_exact a (suc q) n h = ground arith

give_exact : (a q n : ℕ) → pos a +ℤ pos q ≡ pos n → n ≡ a + q
give_exact a q n h = ground arith

module _ {B : Type 0} {Q : B → Db → Type 0} where
  -- Seats are taken: the rest runs with that many fewer free.
  pub Ensures-take :
      (k q : ℕ) (f : ℕ → Tx B) (db : Db)
      → ((event : Event) (n : ℕ)
          → find event_key k db.events ≡ some event
          → n + q ≡ event.available_seats
          → n ≤ event.total_seats
          → Ensures (f n (available_set db event n)) Q)
      → Ensures ((adjust_available_seats k (neg q) >>= f) db) Q
  Ensures-take k q f db rest =
      Ensures-then _ _ _ (adjust_available_seats-Adjusted k (neg q) db) λ n after a.
        subst (λ d. Ensures (f n d) Q) (sym a.made)
          (rest a.event n a.found (take_exact _ q n a.exact) a.room)

  -- Seats are returned: the rest runs with that many more free.
  pub Ensures-give :
      (k q : ℕ) (f : ℕ → Tx B) (db : Db)
      → ((event : Event) (n : ℕ)
          → find event_key k db.events ≡ some event
          → n ≡ event.available_seats + q
          → n ≤ event.total_seats
          → Ensures (f n (available_set db event n)) Q)
      → Ensures ((adjust_available_seats k (pos q) >>= f) db) Q
  Ensures-give k q f db rest =
      Ensures-then _ _ _ (adjust_available_seats-Adjusted k (pos q) db) λ n after a.
        subst (λ d. Ensures (f n d) Q) (sym a.made)
          (rest a.event n a.found (give_exact _ q n a.exact) a.room)

pub is_none→eq : {A : Type 0} (o : Option A) → is_none o ≡ true → o ≡ none
is_none→eq none h = refl
is_none→eq (some a) h = cc

-- What an INSERT that went through tells of the row, and the table that it leaves.
record ReservationInserted (r : Reservation) (db : Db) (u : Unit {0}) (after : Db) : Type 0 where
  fresh : find reservation_key r.id db.reservations ≡ none
  made : after ≡ record db { reservations = r ∷ db.reservations }

insert_reservation-Inserted :
    (r : Reservation) (db : Db) → Ensures (insert_reservation r db) (ReservationInserted r db)
unfolding insert_reservation
insert_reservation-Inserted r db = Ensures-gets _ _ _ (
    Ensures-check _ _ _ _ λ _. Ensures-check _ _ _ _ λ _. Ensures-check _ _ _ _ λ _.
      Ensures-check _ _ _ _
        λ fresh. Ensures-modified _ _ (record { fresh = is_none→eq _ fresh; made = refl }))

record OrderInserted (o : Order) (db : Db) (u : Unit {0}) (after : Db) : Type 0 where
  fresh : find order_key o.id db.orders ≡ none
  fresh_key : find order_idempotency_key o.idempotency_key db.orders ≡ none
  made : after ≡ record db { orders = o ∷ db.orders }

insert_order-Inserted : (o : Order) (db : Db) → Ensures (insert_order o db) (OrderInserted o db)
unfolding insert_order
insert_order-Inserted o db = Ensures-gets _ _ _ (
    Ensures-check _ _ _ _ λ _. Ensures-check _ _ _ _ λ _. Ensures-check _ _ _ _ λ _.
      Ensures-check _ _ _ _ λ fresh. Ensures-check _ _ _ _ λ fresh_key.
        Ensures-modified _ _
          (record { fresh = is_none→eq _ fresh; fresh_key = is_none→eq _ fresh_key; made = refl }))

module _ {B : Type 0} {Q : B → Db → Type 0} where
  pub Ensures-insert_reservation :
      (r : Reservation) (f : Unit {0} → Tx B) (db : Db)
      → (find reservation_key r.id db.reservations ≡ none
          → Ensures (f tt (record db { reservations = r ∷ db.reservations })) Q)
      → Ensures ((insert_reservation r >>= f) db) Q
  Ensures-insert_reservation r f db rest =
      Ensures-then _ _ _ (insert_reservation-Inserted r db)
        λ u after i. subst (λ d. Ensures (f u d) Q) (sym i.made) (rest i.fresh)

  pub Ensures-insert_order :
      (o : Order) (f : Unit {0} → Tx B) (db : Db)
      → (find order_key o.id db.orders ≡ none
          → find order_idempotency_key o.idempotency_key db.orders ≡ none
          → Ensures (f tt (record db { orders = o ∷ db.orders })) Q)
      → Ensures ((insert_order o >>= f) db) Q
  Ensures-insert_order o f db rest =
      Ensures-then _ _ _ (insert_order-Inserted o db)
        λ u after i. subst (λ d. Ensures (f u d) Q) (sym i.made) (rest i.fresh i.fresh_key)
