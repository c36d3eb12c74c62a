-- ===== src/Payment/Webhook.antt =====
-- `processPaymentWebhook` of src/core/services/payment-webhook.service.ts and its transitions.
use peak_pass.Prelude.{
  ℕ, zero, suc, pos, Bool, true, false, not, none, some, List, [], ◌∷◌, Text, if◌then◌else◌,
}
use peak_pass.Table.{find, update}
use peak_pass.Failure.{app, text, not_found_error, conflict_error}
use peak_pass.Model.{
  OrderStatus, Order, TicketStatus, Ticket, PaymentStatus, CallbackStatus, PaymentWebhookInput,
}
use peak_pass.Model.TicketNumber.{generate_ticket_number}
use peak_pass.Db.{Env, Tx, pure, throw, gets, require, modify, ◌>>=◌, ◌>>◌}
use peak_pass.Db.Keys.{order_key}
use peak_pass.Db.Insert.{insert_ticket}
use peak_pass.Inventory.{adjust_available_seats}
use peak_pass.Orders.{get_tickets_by_order_id, set_order_status}
use peak_pass.Payment.{reserve_callback_key, insert_payment_record}

pub data WebhookOutcome : Type 0 where
  expired : Order → PaymentStatus → Bool → WebhookOutcome
  idempotent_settled : Order → List Ticket → WebhookOutcome
  idempotent_failed : Order → WebhookOutcome
  newly_settled : Order → List Ticket → WebhookOutcome
  newly_failed : Order → WebhookOutcome
  late_failure_after_settled : Order → List Ticket → WebhookOutcome

pub record WebhookResponse : Type 0 where
  pub order : Order
  pub tickets : List Ticket
  pub payment_status : PaymentStatus
  pub duplicate : Bool

unfoldable pub map_outcome_to_response : WebhookOutcome → WebhookResponse
map_outcome_to_response (expired o s d) = record {
  order = o;
  tickets = [];
  payment_status = s;
  duplicate = d;
}
map_outcome_to_response (idempotent_settled o ts) = record {
  order = o;
  tickets = ts;
  payment_status = PaymentStatus.settled;
  duplicate = true;
}
map_outcome_to_response (newly_settled o ts) = record {
  order = o;
  tickets = ts;
  payment_status = PaymentStatus.settled;
  duplicate = false;
}
map_outcome_to_response (idempotent_failed o) = record {
  order = o;
  tickets = [];
  payment_status = PaymentStatus.failed;
  duplicate = true;
}
map_outcome_to_response (newly_failed o) = record {
  order = o;
  tickets = [];
  payment_status = PaymentStatus.failed;
  duplicate = false;
}
map_outcome_to_response (late_failure_after_settled o ts) = record {
  order = o;
  tickets = ts;
  payment_status = PaymentStatus.settled;
  duplicate = true;
}

abbrev pub paid_at_now : Env → Order → Order
paid_at_now env o = record o { status = OrderStatus.paid; paid_at = some env.now }

-- The row as its RETURNING clause gives it, which leaves `reservation_id` out.
abbrev pub without_reservation : Order → Order
without_reservation o = record o { reservation_id = none }

unfoldable pub mark_order_as_paid : Env → ℕ → Tx Order
mark_order_as_paid env id = do
  modify (λ d. record d { orders = update order_key id (paid_at_now env) d.orders })
  db ← gets (λ d. d)
  o ← require (find order_key id db.orders) (app (not_found_error "Order" id))
  pure (without_reservation o)

unfoldable pub cancel_order : ℕ → Tx Order
cancel_order id = do
  set_order_status id OrderStatus.cancelled
  db ← gets (λ d. d)
  require (find order_key id db.orders) (app (not_found_error "Order" id))

-- The ticket of the round `index` of the loop; uuid 0 went to the payment record.
abbrev pub ticket_at : Env → Order → ℕ → Ticket
ticket_at env o index = record {
  id = env.uuid (suc index);
  order_id = o.id;
  event_id = o.event_id;
  user_id = o.user_id;
  ticket_number = generate_ticket_number env.rounded env.year (env.nextval index);
  status = TicketStatus.active;
}

-- `for (let index = 0; index < order.quantity; index++)`, with the rounds that are left.
unfoldable pub issue_loop : Env → Order → ℕ → ℕ → Tx (List Ticket)
issue_loop env o index zero = pure []
issue_loop env o index (suc left) = do
  insert_ticket (ticket_at env o index)
  rest ← issue_loop env o (suc index) left
  pure (ticket_at env o index ∷ rest)

abbrev pub is_empty : List Ticket → Bool
is_empty [] = true
is_empty (t ∷ ts) = false

unfoldable pub issue_tickets_for_order : Env → Order → Tx (List Ticket)
issue_tickets_for_order env o = do
  existing ← get_tickets_by_order_id o.id
  if is_empty existing then issue_loop env o 0 o.quantity else pure existing

unfoldable pub settle_open : Env → Order → PaymentWebhookInput → Text → Tx WebhookOutcome
settle_open env o input key = do
  recorded ←
      insert_payment_record env o.id CallbackStatus.settled input.provider_transaction_id key false
  paid_order ← mark_order_as_paid env o.id
  existing ← get_tickets_by_order_id o.id
  tickets ← if is_empty existing then issue_tickets_for_order env paid_order else pure existing
  pure (newly_settled paid_order tickets)

unfoldable pub handle_settle :
    OrderStatus → Env → Order → PaymentWebhookInput → Text → Tx WebhookOutcome
handle_settle OrderStatus.paid env o input key = do
  tickets ← get_tickets_by_order_id o.id
  pure (idempotent_settled o tickets)
handle_settle OrderStatus.cancelled env o input key =
    throw (app (conflict_error (text "Cancelled order cannot be settled")))
handle_settle _ env o input key = settle_open env o input key

unfoldable pub fail_open : Env → Order → PaymentWebhookInput → Text → Tx WebhookOutcome
fail_open env o input key = do
  recorded ←
      insert_payment_record env o.id CallbackStatus.failed input.provider_transaction_id key false
  adjust_available_seats o.event_id (pos o.quantity)
  cancelled_order ← cancel_order o.id
  pure (newly_failed cancelled_order)

unfoldable pub handle_fail :
    OrderStatus → Env → Order → PaymentWebhookInput → Text → Tx WebhookOutcome
handle_fail OrderStatus.paid env o input key = do
  tickets ← get_tickets_by_order_id o.id
  pure (late_failure_after_settled o tickets)
handle_fail OrderStatus.cancelled env o input key = pure (idempotent_failed o)
handle_fail _ env o input key = fail_open env o input key

-- A result for an expired order is recorded and changes neither the order nor the seats.
unfoldable pub record_late : Env → Order → PaymentWebhookInput → Text → Tx WebhookOutcome
record_late env o input key = do
  recorded ←
      insert_payment_record env o.id input.status input.provider_transaction_id key
        (elim input.status [ CallbackStatus.settled ↦ true | CallbackStatus.failed ↦ false ])
  pure (expired o recorded.1 (not recorded.0))

unfoldable pub dispatch :
    OrderStatus → CallbackStatus → Env → Order → PaymentWebhookInput → Text → Tx WebhookOutcome
dispatch OrderStatus.expired s env o input key = record_late env o input key
dispatch status CallbackStatus.settled env o input key = handle_settle status env o input key
dispatch status CallbackStatus.failed env o input key = handle_fail status env o input key

unfoldable pub apply_transition : Env → Order → PaymentWebhookInput → Text → Tx WebhookOutcome
apply_transition env o input key = dispatch o.status input.status env o input key

unfoldable pub process_payment_webhook : Env → PaymentWebhookInput → Text → Tx WebhookResponse
process_payment_webhook env input key = do
  db ← gets (λ d. d)
  o ←
      require (find order_key input.order_id db.orders)
        (app (not_found_error "Order" input.order_id))
  reserve_callback_key o.id input.provider_transaction_id input.status key
  outcome ← apply_transition env o input key
  pure (map_outcome_to_response outcome)
