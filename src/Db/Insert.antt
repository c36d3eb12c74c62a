-- ===== src/Db/Insert.antt =====
-- The INSERTs of reservations, orders and tickets with the constraints of src/infra/migrations.
use peak_pass.Prelude.{Bool, ◌∷◌, ltb, Text, text_eq}
use peak_pass.Table.{find}
use peak_pass.Failure.{
  pg, unique_violation, foreign_key_violation, check_violation, reservations_pkey,
  reservations_user_fkey, reservations_event_fkey, reservations_quantity_check, orders_pkey,
  orders_idempotency_key, orders_user_fkey, orders_event_fkey, orders_quantity_check, tickets_pkey,
  tickets_ticket_number,
}
use peak_pass.Model.{Reservation, Order, Ticket}
use peak_pass.Db.{Tx, gets, modify, check, ◌>>=◌, ◌>>◌}
use peak_pass.Db.Keys.{
  event_key, reservation_key, order_key, order_idempotency_key, ticket_key, is_some, is_none,
  member, find_row,
}

unfoldable pub insert_reservation : Reservation → Tx (Unit {0})
insert_reservation r = do
  db ← gets (λ d. d)
  check (member r.user_id db.users) (pg (foreign_key_violation reservations_user_fkey))
  check (is_some (find event_key r.event_id db.events))
      (pg (foreign_key_violation reservations_event_fkey))
  check (ltb 0 r.quantity) (pg (check_violation reservations_quantity_check))
  check (is_none (find reservation_key r.id db.reservations))
      (pg (unique_violation reservations_pkey))
  modify (λ d. record d { reservations = r ∷ d.reservations })

unfoldable pub insert_order : Order → Tx (Unit {0})
insert_order o = do
  db ← gets (λ d. d)
  check (member o.user_id db.users) (pg (foreign_key_violation orders_user_fkey))
  check (is_some (find event_key o.event_id db.events))
      (pg (foreign_key_violation orders_event_fkey))
  check (ltb 0 o.quantity) (pg (check_violation orders_quantity_check))
  check (is_none (find order_key o.id db.orders)) (pg (unique_violation orders_pkey))
  check (is_none (find order_idempotency_key o.idempotency_key db.orders))
      (pg (unique_violation orders_idempotency_key))
  modify (λ d. record d { orders = o ∷ d.orders })

abbrev pub has_number : Text → Ticket → Bool
has_number n t = text_eq t.ticket_number n

unfoldable pub insert_ticket : Ticket → Tx (Unit {0})
insert_ticket t = do
  db ← gets (λ d. d)
  check (is_none (find ticket_key t.id db.tickets)) (pg (unique_violation tickets_pkey))
  check (is_none (find_row (has_number t.ticket_number) db.tickets))
      (pg (unique_violation tickets_ticket_number))
  modify (λ d. record d { tickets = t ∷ d.tickets })
