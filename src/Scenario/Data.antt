-- ===== src/Scenario/Data.antt =====
-- The rows and the databases of the tests: two orders of one event, pending, paid or expired.
use peak_pass.Prelude.{ℕ, [], ◌∷◌, none, some}
use peak_pass.Model.{
  Event, ReservationStatus, Reservation, OrderStatus, Order, TicketStatus, Ticket, CallbackStatus,
  CallbackKey,
}
use peak_pass.Db.{Db}
use peak_pass.Scenario.{text_of, empty_db, sold_event}

abbrev pub event_with : ℕ → Event
event_with free = record sold_event { available_seats = free }

abbrev pub held_reservation : Reservation
held_reservation = record {
  id = 200;
  user_id = 1;
  event_id = 100;
  quantity = 2;
  tier_id = text_of 101;
  expires_at = 302000;
  status = ReservationStatus.active;
}

-- The order of two seats.
abbrev pub order_with : OrderStatus → Order
order_with s = record {
  id = 300;
  user_id = 1;
  event_id = 100;
  quantity = 2;
  tier_id = text_of 101;
  unit_price = 1250;
  total_amount = 2500;
  status = s;
  idempotency_key = 55;
  reservation_id = none;
  payment_deadline_at = some 603000;
  paid_at = none;
}

abbrev pub ticket_with : ℕ → Ticket
ticket_with id = record {
  id = id;
  order_id = 300;
  event_id = 100;
  user_id = 1;
  ticket_number = text_of id;
  status = TicketStatus.active;
}

abbrev pub settled_key : CallbackKey
settled_key = record {
  idempotency_key = text_of 107;
  order_id = 300;
  provider_transaction_id = text_of 116;
  callback_status = some CallbackStatus.settled;
}

-- The reservation holds two of the five seats.
abbrev pub held_db : Db
held_db = record empty_db { events = event_with 3 ∷ []; reservations = held_reservation ∷ [] }

-- The order has two of the five seats and waits for its payment.
abbrev pub pending_db : Db
pending_db = record empty_db {
  events = event_with 3 ∷ [];
  orders = order_with OrderStatus.pending ∷ [];
}

-- The order has been paid by the callback `settled_key`.
abbrev pub paid_db : Db
paid_db = record empty_db {
  events = event_with 3 ∷ [];
  orders = order_with OrderStatus.paid ∷ [];
  tickets = ticket_with 502 ∷ ticket_with 501 ∷ [];
  callback_keys = settled_key ∷ [];
}

abbrev pub expired_db : Db
expired_db = record empty_db {
  events = event_with 5 ∷ [];
  orders = order_with OrderStatus.expired ∷ [];
}
