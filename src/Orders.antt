-- ===== src/Orders.antt =====
-- src/core/services/order.service.ts, ticket.service.ts and order-expiration.service.ts.
pub mod Closed
use peak_pass.Prelude.{ℕ, pos, Bool, ◌==◌, leb, Option, none, some, List, if◌then◌else◌}
use peak_pass.Table.{find, update, select}
use peak_pass.Failure.{app, not_found_error}
use peak_pass.Model.{OrderStatus, Order, Ticket}
use peak_pass.Db.{Env, Tx, pure, gets, require, modify, ◌>>=◌, ◌>>◌}
use peak_pass.Db.Keys.{order_key, order_idempotency_key}
use peak_pass.Inventory.{adjust_available_seats}

-- FOR UPDATE adds nothing where one transaction runs alone, so this stands for both reads by id.
unfoldable pub get_order_by_id : ℕ → Tx (Option Order)
get_order_by_id id = gets (λ d. find order_key id d.orders)

unfoldable pub get_order_by_idempotency_key : ℕ → Tx (Option Order)
get_order_by_idempotency_key key = gets (λ d. find order_idempotency_key key d.orders)

abbrev pub of_order : ℕ → Ticket → Bool
of_order id t = t.order_id == id

-- In the order of the table, newest first; the query has no ORDER BY.
unfoldable pub get_tickets_by_order_id : ℕ → Tx (List Ticket)
get_tickets_by_order_id id = gets (λ d. select (of_order id) d.tickets)

abbrev pub with_order_status : OrderStatus → Order → Order
with_order_status s o = record o { status = s }

unfoldable pub set_order_status : ℕ → OrderStatus → Tx (Unit {0})
set_order_status id s =
    modify (λ d. record d { orders = update order_key id (with_order_status s) d.orders })

pub data ExpirationKind : Type 0 where
  expired_now already_expired already_paid cancelled delivered no_deadline not_due : ExpirationKind

-- The seats go back and the order expires, if its deadline has come.
unfoldable pub expire_at : Env → ℕ → Order → Option ℕ → Tx (ExpirationKind × Order)
expire_at env id o none = pure (no_deadline, o)
expire_at env id o (some deadline) =
    if leb deadline env.now
    then (do
      adjust_available_seats o.event_id (pos o.quantity)
      set_order_status id OrderStatus.expired
      db ← gets (λ d. d)
      after ← require (find order_key id db.orders) (app (not_found_error "Order" id))
      pure (expired_now, after))
    else pure (not_due, o)

-- The `switch` on the status, and what follows it for a pending order.
unfoldable pub expire_by_status : Env → ℕ → OrderStatus → Order → Tx (ExpirationKind × Order)
expire_by_status env id OrderStatus.expired o = pure (already_expired, o)
expire_by_status env id OrderStatus.paid o = pure (already_paid, o)
expire_by_status env id OrderStatus.cancelled o = pure (cancelled, o)
expire_by_status env id OrderStatus.delivered o = pure (delivered, o)
expire_by_status env id OrderStatus.pending o = expire_at env id o o.payment_deadline_at

unfoldable pub expire_pending_order_with_client : Env → ℕ → Tx (ExpirationKind × Order)
expire_pending_order_with_client env id = do
  db ← gets (λ d. d)
  o ← require (find order_key id db.orders) (app (not_found_error "Order" id))
  expire_by_status env id o.status o
