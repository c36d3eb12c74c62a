-- ===== src/Tickets/Answers.antt =====
-- What the callback that settles an order answers.
use peak_pass.Prelude.{◌≡◌, refl, Text, length, true, false, some}
use peak_pass.Table.{find}
use peak_pass.Model.{OrderStatus, Order, PaymentStatus, CallbackStatus, PaymentWebhookInput}
use peak_pass.Db.{Db, Env}
use peak_pass.Db.Rules.{Ensures, Ensures-gets, Ensures-require, Ensures-pure, Ensures-then}
use peak_pass.Db.Keys.{order_key}
use peak_pass.Frame.{Ensures-leaves}
use peak_pass.Invariant.{is_open}
use peak_pass.Tickets.{IsIssued}
use peak_pass.Tickets.Changes.{IsIssued-IsStable}
use peak_pass.Payment.Webhook.{
  WebhookOutcome, WebhookResponse, map_outcome_to_response, dispatch, handle_settle,
  apply_transition, process_payment_webhook, settle_open,
}
use peak_pass.Table.Laws.{find_self}
use peak_pass.Frame.Payments.{reserve_callback_key-LeavesSales}
use peak_pass.Tickets.Issue.{Settled, settle_open-Settled}

-- The answer to the callback that settles the order.
pub record FirstAnswer (o : Order) (r : WebhookResponse) (after : Db) : Type 0 where
  pub status : r.payment_status ≡ PaymentStatus.settled
  pub first : r.duplicate ≡ false
  pub count : length r.tickets ≡ o.quantity

first_answer :
    (o : Order) (outcome : WebhookOutcome) (after : Db)
    → Settled o outcome after
    → FirstAnswer o (map_outcome_to_response outcome) after
unfolding map_outcome_to_response
first_answer o outcome after s =
    rw (s.same) (record { status = refl; first = refl; count = s.issue.count })

dispatch-Settled :
    (status : OrderStatus) (s : CallbackStatus) (env : Env) (input : PaymentWebhookInput)
    (key : Text) (db : Db) (o : Order)
    → is_open status ≡ true
    → s ≡ CallbackStatus.settled
    → Ensures (settle_open env o input key db) (Settled o)
    → Ensures (dispatch status s env o input key db) (Settled o)
unfolding dispatch handle_settle
dispatch-Settled OrderStatus.pending CallbackStatus.settled env input key db o unsettled settles
      known =
    known
dispatch-Settled OrderStatus.delivered CallbackStatus.settled env input key db o unsettled settles
      known =
    known
dispatch-Settled _ _ env input key db o unsettled settles known = absurd (cc)

-- Where every order has the tickets that it is due, the settlement of a pending or delivered order,
-- where it is accepted, answers it as settled for the first time with one ticket for each of its
-- seats.
pub process_payment_webhook-Settled :
    (env : Env) (input : PaymentWebhookInput) (key : Text) (db : Db) (o : Order)
    → find order_key input.order_id db.orders ≡ some o
    → is_open o.status ≡ true
    → input.status ≡ CallbackStatus.settled
    → IsIssued db
    → Ensures (process_payment_webhook env input key db) (FirstAnswer o)
unfolding process_payment_webhook apply_transition
process_payment_webhook-Settled env input key db o found unsettled settles i = Ensures-gets _ _ _ (
    Ensures-require _ _ _ _ λ o' at.
      let same : o' ≡ o = cc in
      Ensures-leaves _ _ _ (reserve_callback_key-LeavesSales _ _ _ _) λ _ mid kept. rw (same) (
        Ensures-then _ _ _
          (dispatch-Settled o.status input.status env input key mid o unsettled settles (
            settle_open-Settled env o input key mid
              (rw (kept.orders) (find_self order_key input.order_id db.orders o found)) unsettled
              (IsIssued-IsStable db mid kept i)))
          λ outcome after s. Ensures-pure _ _ (first_answer o outcome after s)))
