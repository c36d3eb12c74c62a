-- ===== src/Invariant/Webhooks.antt =====
-- The payment webhook keeps what the settlement and the failure of an open order keep.
use peak_pass.Prelude.{ℕ, ◌≡◌, refl, ◌≢◌, some, Text}
use peak_pass.Table.{find}
use peak_pass.Table.Laws.{find_self}
use peak_pass.Model.{OrderStatus, Order, CallbackStatus, PaymentWebhookInput}
use peak_pass.Db.{Db, Env}
use peak_pass.Db.Rules.{Ensures, Ensures-gets, Ensures-require, Ensures-pure, Ensures-then}
use peak_pass.Db.Keys.{order_key}
use peak_pass.Orders.{get_tickets_by_order_id}
use peak_pass.Payment.Webhook.{
  handle_settle, handle_fail, record_late, dispatch, apply_transition, process_payment_webhook,
}
use peak_pass.Frame.{
  Preserves, Preserves-leaves, Preserves-bind, Ensures-leaves, LeavesSales-bind, LeavesSales-gets,
  LeavesSales-pure, LeavesSales-throw,
}
use peak_pass.Frame.Payments.{reserve_callback_key-LeavesSales, insert_payment_record-LeavesSales}
use peak_pass.Invariant.{Invariant}

module _ {P : Db → Type 0} (inv : Invariant P) where
  get_tickets-Preserves : (id : ℕ) → Preserves P (get_tickets_by_order_id id)
  unfolding get_tickets_by_order_id
  get_tickets-Preserves id = Preserves-leaves inv.stable _ (LeavesSales-gets _)

  handle_settle-Preserves :
      (status : OrderStatus) (env : Env) (o : Order) (input : PaymentWebhookInput) (key : Text)
      (db : Db)
      → find order_key o.id db.orders ≡ some o
      → o.status ≡ status
      → P db
      → status ≢ OrderStatus.expired
      → Ensures (handle_settle status env o input key db) (λ _ after. P after)
  unfolding handle_settle
  handle_settle-Preserves OrderStatus.paid env o input key db found e b h =
      Preserves-bind _ _ (get_tickets-Preserves o.id)
        (λ tickets. Preserves-leaves inv.stable _ (LeavesSales-pure _)) db b
  handle_settle-Preserves OrderStatus.cancelled env o input key db found e b h =
      Preserves-leaves inv.stable _ (LeavesSales-throw _) db b
  handle_settle-Preserves OrderStatus.expired env o input key db found e b h = absurd (h refl)
  handle_settle-Preserves _ env o input key db found e b h =
      inv.on_settle env o input key db found (rw e) b

  handle_fail-Preserves :
      (status : OrderStatus) (env : Env) (o : Order) (input : PaymentWebhookInput) (key : Text)
      (db : Db)
      → find order_key o.id db.orders ≡ some o
      → o.status ≡ status
      → P db
      → status ≢ OrderStatus.expired
      → Ensures (handle_fail status env o input key db) (λ _ after. P after)
  unfolding handle_fail
  handle_fail-Preserves OrderStatus.paid env o input key db found e b h =
      Preserves-bind _ _ (get_tickets-Preserves o.id)
        (λ tickets. Preserves-leaves inv.stable _ (LeavesSales-pure _)) db b
  handle_fail-Preserves OrderStatus.cancelled env o input key db found e b h = Ensures-pure _ _ b
  handle_fail-Preserves OrderStatus.expired env o input key db found e b h = absurd (h refl)
  handle_fail-Preserves _ env o input key db found e b h =
      inv.on_fail env o input key db found (rw e) b

  dispatch-Preserves :
      (status : OrderStatus) (s : CallbackStatus) (env : Env) (o : Order)
      (input : PaymentWebhookInput) (key : Text) (db : Db)
      → find order_key o.id db.orders ≡ some o
      → o.status ≡ status
      → P db
      → Ensures (dispatch status s env o input key db) (λ _ after. P after)
  unfolding dispatch record_late
  dispatch-Preserves OrderStatus.expired s env o input key db found e b =
      Preserves-leaves inv.stable _
        (LeavesSales-bind _ _ (insert_payment_record-LeavesSales _ _ _ _ _ _)
          λ recorded. LeavesSales-pure _)
        db b
  dispatch-Preserves status CallbackStatus.settled env o input key db found e b =
      handle_settle-Preserves status env o input key db found e b (λ h. cc)
  dispatch-Preserves status CallbackStatus.failed env o input key db found e b =
      handle_fail-Preserves status env o input key db found e b (λ h. cc)

  -- The webhook keeps the account of the seats, whatever it reports about which order.
  pub process_payment_webhook-Preserves :
      (env : Env) (input : PaymentWebhookInput) (key : Text)
      → Preserves P (process_payment_webhook env input key)
  unfolding process_payment_webhook apply_transition
  process_payment_webhook-Preserves env input key db b = Ensures-gets _ _ _ (
      Ensures-require _ _ _ _ λ o found.
        Ensures-leaves _ _ _ (reserve_callback_key-LeavesSales _ _ _ _) λ _ mid same.
          Ensures-then _ _ _
            (dispatch-Preserves o.status input.status env o input key mid
              (rw same.orders (find_self order_key input.order_id db.orders o found)) refl
              (inv.stable db mid same b))
            λ outcome after b'. Ensures-pure _ _ b')
