-- ===== src/Tickets/Issue.antt =====
-- The settlement of an order issues the tickets that it is due; a failure issues none.
use peak_pass.Prelude.{
  ℕ, zero, suc, ◌≡◌, refl, ◌∙◌, ap, true, some, List, [], ◌∷◌, ◌==◌, Bool-cases, inl, inr, arith,
  if◌then◌else◌, Text, length,
}
use peak_pass.Table.{find, select, sum}
use peak_pass.Model.{Order, Ticket, PaymentWebhookInput}
use peak_pass.Db.{Db, Env, pure}
use peak_pass.Db.Rules.{
  Ensures, Ensures-gets, Ensures-require, Ensures-check, Ensures-modify, Ensures-pure, Ensures-then,
  Ensures-modified, Ensures-if, Ensures-weaken,
}
use peak_pass.Db.Keys.{order_key}
use peak_pass.Db.Insert.{insert_ticket}
use peak_pass.Orders.{of_order, get_tickets_by_order_id}
use peak_pass.Payment.Webhook.{
  paid_at_now, mark_order_as_paid, issue_loop, is_empty, issue_tickets_for_order, settle_open,
  WebhookOutcome, newly_settled,
}
use peak_pass.Frame.{Ensures-leaves}
use peak_pass.Frame.Payments.{insert_payment_record-LeavesSales}
use peak_pass.Invariant.{is_open}
use peak_pass.Seats.{seats_at}
use peak_pass.Seats.Returns.{found_after}
use peak_pass.Tickets.{ticket_weight, issued, Owing, IsIssued}
use peak_pass.Tickets.Changes.{IsIssued-IsStable, Owing-set_order}

insert_ticket-Owing :
    (t : Ticket) (left : ℕ) (db : Db)
    → Owing (seats_at t.order_id (suc left)) db
    → Ensures (insert_ticket t db) (λ _ after. Owing (seats_at t.order_id left) after)
unfolding insert_ticket sum
insert_ticket-Owing t left db owing = Ensures-gets _ _ _ (
    Ensures-check _ _ _ _
      λ _. Ensures-check _ _ _ _ λ _. Ensures-modified _ _ λ id. ground (arith, owing id))

-- Every order has its tickets, and `n` of them are answered.
pub record Issued (n : ℕ) (ts : List Ticket) (after : Db) : Type 0 where
  pub kept : IsIssued after
  pub count : length ts ≡ n

-- The loop issues the tickets of its rounds and answers as many.
issue_loop-Issued :
    (env : Env) (o : Order) (index left : ℕ) (db : Db)
    → Owing (seats_at o.id left) db
    → Ensures (issue_loop env o index left db) (Issued left)
unfolding issue_loop
issue_loop-Issued env o index zero db owing =
    Ensures-pure _ _ (record { kept = λ id. ground (arith, owing id); count = refl })
issue_loop-Issued env o index (suc left) db owing =
    Ensures-then _ _ _ (insert_ticket-Owing _ left db owing) λ _ mid less.
      Ensures-then _ _ _ (issue_loop-Issued env o (suc index) left mid less)
        λ rest after i. Ensures-pure _ _ (record { kept = i.kept; count = ap (λ n. suc n) i.count })

-- An order for which no ticket is issued has none to read.
select-is_empty :
    (id : ℕ) (ts : List Ticket)
    → sum (ticket_weight id) ts ≡ 0
    → is_empty (select (of_order id) ts) ≡ true
unfolding select sum
select-is_empty id [] h = refl
select-is_empty id (t ∷ ts) h = elim (Bool-cases (t.order_id == id)) [
  | inl y ↦ ground arith
  | inr ne ↦ ground (arith, select-is_empty id ts (ground arith))
]

issue_tickets_for_order-Issued :
    (env : Env) (o : Order) (db : Db)
    → issued o.id db ≡ 0
    → Owing (seats_at o.id o.quantity) db
    → Ensures (issue_tickets_for_order env o db) (Issued o.quantity)
unfolding issue_tickets_for_order get_tickets_by_order_id
issue_tickets_for_order-Issued env o db absent owing = Ensures-gets _ _ _ (
    Ensures-if (is_empty (select (of_order o.id) db.tickets)) _ _ db
      (λ _. issue_loop-Issued env o 0 o.quantity db owing)
      (λ ne. absurd (ground (arith, select-is_empty o.id db.tickets absent, ne))))

-- The order is paid now and its tickets are yet to be issued.
record Marked (o : Order) (paid_order : Order) (after : Db) : Type 0 where
  same_id : paid_order.id ≡ o.id
  same_quantity : paid_order.quantity ≡ o.quantity
  absent : issued o.id after ≡ 0
  owing : Owing (seats_at o.id o.quantity) after

mark_order_as_paid-Marked :
    (env : Env) (o : Order) (db : Db)
    → find order_key o.id db.orders ≡ some o
    → is_open o.status ≡ true
    → IsIssued db
    → Ensures (mark_order_as_paid env o.id db) (Marked o)
unfolding mark_order_as_paid
mark_order_as_paid-Marked env o db found unsettled i = Ensures-modify _ _ _ (
    Ensures-gets _ _ _ (
      Ensures-require _ _ _ _ λ row at.
        let same : some row ≡ some (paid_at_now env o) =
          rw (← at) (found_after o.id (paid_at_now env) db o (λ x. refl) found) in
        Ensures-pure _ _ (record {
          same_id = cc;
          same_quantity = cc;
          absent = ground (arith, i o.id, found, unsettled);
          owing =
              Owing-set_order o.id (paid_at_now env) o o.quantity db (λ x. refl) found
                (ground (arith, unsettled)) i;
        })))

issue_missing :
    (env : Env) (o paid_order : Order) (db : Db)
    → Marked o paid_order db
    → Ensures
        ((if is_empty (select (of_order o.id) db.tickets)
            then issue_tickets_for_order env paid_order
            else pure (select (of_order o.id) db.tickets))
          db)
        (Issued o.quantity)
issue_missing env o paid_order db m =
    Ensures-if (is_empty (select (of_order o.id) db.tickets)) _ _ db
      (λ _.
        Ensures-weaken _
          (issue_tickets_for_order-Issued env paid_order db (rw m.same_id m.absent)
            (λ id. rw (m.same_id, m.same_quantity) (m.owing id)))
          (λ ts after made. record { kept = made.kept; count = made.count ∙ m.same_quantity }))
      (λ ne. absurd (ground (arith, select-is_empty o.id db.tickets m.absent, ne)))

-- What the settlement of an open order answers.
pub record Settled (o : Order) (outcome : WebhookOutcome) (after : Db) : Type 0 where
  pub paid_order : Order
  pub tickets : List Ticket
  pub same : outcome ≡ newly_settled paid_order tickets
  pub issue : Issued o.quantity tickets after

-- The settlement of an open order, where every order has the tickets that it is due, issues one
-- ticket for each of its seats and answers them.
pub settle_open-Settled :
    (env : Env) (o : Order) (input : PaymentWebhookInput) (key : Text) (db : Db)
    → find order_key o.id db.orders ≡ some o
    → is_open o.status ≡ true
    → IsIssued db
    → Ensures (settle_open env o input key db) (Settled o)
unfolding settle_open get_tickets_by_order_id
settle_open-Settled env o input key db found unsettled i =
    Ensures-leaves _ _ _ (insert_payment_record-LeavesSales _ _ _ _ _ _) λ recorded mid same.
      Ensures-then _ _ _
        (mark_order_as_paid-Marked env o mid (rw same.orders found) unsettled
          (IsIssued-IsStable db mid same i))
        λ paid_order mid' m. Ensures-gets _ _ _ (
          Ensures-then _ _ _ (issue_missing env o paid_order mid' m) λ tickets after made.
            Ensures-pure _ _
              (record { paid_order = paid_order; tickets = tickets; same = refl; issue = made }))
