-- ===== src/Seats/Webhooks.antt =====
-- The payment webhook keeps the account of the seats: a failure returns those of an open order, and
-- no other result moves a seat.
use peak_pass.Prelude.{ℕ, zero, suc, ◌≡◌, refl, true, some, Text, arith}
use peak_pass.Table.{find}
use peak_pass.Model.{OrderStatus, Order, Ticket, PaymentWebhookInput}
use peak_pass.Db.{Db, Env}
use peak_pass.Db.Rules.{
  Ensures, Ensures-gets, Ensures-require, Ensures-check, Ensures-modify, Ensures-pure, Ensures-then,
  Ensures-modified, Ensures-require_last,
}
use peak_pass.Db.Keys.{order_key}
use peak_pass.Db.Insert.{insert_ticket}
use peak_pass.Orders.{with_order_status, set_order_status, get_tickets_by_order_id}
use peak_pass.Payment.Webhook.{
  paid_at_now, mark_order_as_paid, cancel_order, issue_loop, is_empty, issue_tickets_for_order,
  settle_open, fail_open,
}
use peak_pass.Frame.{
  Preserves-leaves, Preserves-bind, Preserves-if, Ensures-leaves, LeavesSales-gets,
  LeavesSales-pure,
}
use peak_pass.Frame.Payments.{insert_payment_record-LeavesSales}
use peak_pass.Seats.{IsBalanced, occupies}
use peak_pass.Seats.Changes.{Balanced-set_order}
use peak_pass.Seats.Rules.{Ensures-give}
use peak_pass.Seats.Services.{Keeps, given-Balanced}
use peak_pass.Seats.Sales.{Balanced-IsStable}

insert_ticket-Keeps : (t : Ticket) → Keeps (insert_ticket t)
unfolding insert_ticket
insert_ticket-Keeps t db b = Ensures-gets _ _ _ (
    Ensures-check _ _ _ _ λ _. Ensures-check _ _ _ _ λ _. Ensures-modified _ _ (record {
      events_unique = b.events_unique;
      reservations_unique = b.reservations_unique;
      orders_unique = b.orders_unique;
      keys_unique = b.keys_unique;
      within = b.within;
      balance = b.balance;
    }))

issue_loop-Keeps : (env : Env) (o : Order) (index left : ℕ) → Keeps (issue_loop env o index left)
unfolding issue_loop
issue_loop-Keeps env o index zero = Preserves-leaves Balanced-IsStable _ (LeavesSales-pure _)
issue_loop-Keeps env o index (suc left) = Preserves-bind _ _ (insert_ticket-Keeps _) λ _.
    Preserves-bind _ _ (issue_loop-Keeps env o (suc index) left)
      λ rest. Preserves-leaves Balanced-IsStable _ (LeavesSales-pure _)

get_tickets-Keeps : (id : ℕ) → Keeps (get_tickets_by_order_id id)
unfolding get_tickets_by_order_id
get_tickets-Keeps id = Preserves-leaves Balanced-IsStable _ (LeavesSales-gets _)

issue_tickets-Keeps : (env : Env) (o : Order) → Keeps (issue_tickets_for_order env o)
unfolding issue_tickets_for_order
issue_tickets-Keeps env o = Preserves-bind _ _ (get_tickets-Keeps o.id) λ existing.
    Preserves-if (is_empty existing) _ _ (issue_loop-Keeps env o 0 o.quantity)
      (Preserves-leaves Balanced-IsStable _ (LeavesSales-pure _))

-- An order that occupies its seats and becomes paid goes on occupying them.
mark_order_as_paid-IsBalanced :
    (env : Env) (id : ℕ) (o : Order) (db : Db)
    → find order_key id db.orders ≡ some o
    → occupies o.status ≡ true
    → IsBalanced db
    → Ensures (mark_order_as_paid env id db) (λ _ after. IsBalanced after)
unfolding mark_order_as_paid
mark_order_as_paid-IsBalanced env id o db found occupied b = Ensures-modify _ _ _ (
    Ensures-gets _ _ _ (
      Ensures-require _ _ _ _ λ after _. Ensures-pure _ _ (
        Balanced-set_order db b id (paid_at_now env) o (λ x. refl) (λ x. refl) found
          (λ e. ground arith))))

pub settle_open-IsBalanced :
    (env : Env) (o : Order) (input : PaymentWebhookInput) (key : Text) (db : Db)
    → find order_key o.id db.orders ≡ some o
    → occupies o.status ≡ true
    → IsBalanced db
    → Ensures (settle_open env o input key db) (λ _ after. IsBalanced after)
unfolding settle_open
settle_open-IsBalanced env o input key db found occupied b =
    Ensures-leaves _ _ _ (insert_payment_record-LeavesSales _ _ _ _ _ _) λ recorded mid same.
      Ensures-then _ _ _
        (mark_order_as_paid-IsBalanced env o.id o mid (rw same.orders found) occupied
          (Balanced-IsStable db mid same b))
        λ paid_order mid' b'.
          Preserves-bind _ _ (get_tickets-Keeps o.id)
            (λ existing.
              Preserves-bind _ _
                (Preserves-if (is_empty existing) _ _ (issue_tickets-Keeps env paid_order)
                  (Preserves-leaves Balanced-IsStable _ (LeavesSales-pure _)))
                λ tickets. Preserves-leaves Balanced-IsStable _ (LeavesSales-pure _))
            mid' b'

pub fail_open-IsBalanced :
    (env : Env) (o : Order) (input : PaymentWebhookInput) (key : Text) (db : Db)
    → find order_key o.id db.orders ≡ some o
    → occupies o.status ≡ true
    → IsBalanced db
    → Ensures (fail_open env o input key db) (λ _ after. IsBalanced after)
unfolding fail_open cancel_order set_order_status
fail_open-IsBalanced env o input key db found occupied b =
    Ensures-leaves _ _ _ (insert_payment_record-LeavesSales _ _ _ _ _ _) λ recorded mid same.
      Ensures-give _ _ _ _ λ event n at exact room.
        Ensures-then _ _ _
          (Ensures-modify _ _ _ (
            Ensures-gets _ _ _ (
              Ensures-require_last _ _ _ λ row _.
                (Balanced-set_order _
                  (given-Balanced (Balanced-IsStable db mid same b) o.event_id o.quantity n event at
                    room exact)
                  o.id (with_order_status OrderStatus.cancelled) o (λ x. refl) (λ x. refl)
                  (rw same.orders found) (λ e. ground arith)))))
          λ cancelled_order after b'. Ensures-pure _ _ b'
