-- ===== src/Seats.antt =====
-- The account of an event's seats over the tables: those on sale, those that active reservations
-- hold and those that orders occupy. This is the specification that the services are held to.
pub mod Changes
pub mod Services
pub mod Sales
pub mod Webhooks
pub mod Rules
pub mod Returns
use peak_pass.Prelude.{ℕ, ◌+◌, ◌≤◌, ◌≡◌, Bool, true, false, ◌&&◌, ◌==◌, if◌then◌else◌}
use peak_pass.Table.{find, sum, All, Unique}
use peak_pass.Model.{Event, ReservationStatus, Reservation, OrderStatus, Order}
use peak_pass.Db.{Db}
use peak_pass.Db.Keys.{event_key, reservation_key, order_key, order_idempotency_key}
use peak_pass.Reservations.{is_active}

-- A pending, paid or delivered order occupies its seats.
abbrev pub occupies : OrderStatus → Bool
occupies OrderStatus.pending = true
occupies OrderStatus.paid = true
occupies OrderStatus.delivered = true
occupies _ = false

abbrev pub free_weight : ℕ → Event → ℕ
free_weight e r = if r.id == e then r.available_seats else 0

abbrev pub capacity_weight : ℕ → Event → ℕ
capacity_weight e r = if r.id == e then r.total_seats else 0

abbrev pub held_weight : ℕ → Reservation → ℕ
held_weight e r = if r.event_id == e && is_active r.status then r.quantity else 0

abbrev pub sold_weight : ℕ → Order → ℕ
sold_weight e o = if o.event_id == e && occupies o.status then o.quantity else 0

abbrev pub free : ℕ → Db → ℕ
free e db = sum (free_weight e) db.events

abbrev pub capacity : ℕ → Db → ℕ
capacity e db = sum (capacity_weight e) db.events

abbrev pub held : ℕ → Db → ℕ
held e db = sum (held_weight e) db.reservations

abbrev pub sold : ℕ → Db → ℕ
sold e db = sum (sold_weight e) db.orders

-- `q` seats at the event `k`.
abbrev pub seats_at : ℕ → ℕ → ℕ → ℕ
seats_at k q e = if k == e then q else 0

abbrev pub none_at : ℕ → ℕ
none_at e = 0

-- The account with the seats that the running transaction has taken from a table and not yet put
-- into another, `out`, and those that it has put down twice, `over`.
pub record Balanced (out over : ℕ → ℕ) (db : Db) : Type 0 where
  pub events_unique : Unique event_key db.events
  pub reservations_unique : Unique reservation_key db.reservations
  pub orders_unique : Unique order_key db.orders
  pub keys_unique : Unique order_idempotency_key db.orders
  pub within : All (λ (e : Event). e.available_seats ≤ e.total_seats) db.events
  pub balance : (e : ℕ) → free e db + held e db + sold e db + out e ≡ capacity e db + over e

-- The invariant between two transactions.
abbrev pub IsBalanced : Db → Type 0
IsBalanced = Balanced none_at none_at
