-- ===== src/Payment/Replies.antt =====
-- What `processPaymentWebhook` of src/core/services/payment-webhook.service.ts answers to repeated,
-- conflicting and late callbacks.
use peak_pass.Prelude.{
  ℕ, ◌≡◌, ◌∙◌, refl, ap, true, false, Option, none, some, [], Text, arith, ==_refl, ==→eq,
  text_eq_refl, text_eq→eq, Bool-cases, inl, inr,
}
use peak_pass.Table.{find, select}
use peak_pass.Failure.{ok, err, app, text, conflict_error}
use peak_pass.Model.{
  OrderStatus, Order, PaymentStatus, CallbackStatus, CallbackKey, PaymentWebhookInput,
}
use peak_pass.Db.{Db, Env, pure, throw, gets, require, modify, check, ◌>>=◌, ◌>>◌}
use peak_pass.Db.Rules.{Ensures, Ensures-gets, Ensures-require, Ensures-pure, Ensures-then}
use peak_pass.Db.Keys.{order_key, find_row}
use peak_pass.Orders.{of_order, get_tickets_by_order_id}
use peak_pass.Payment.{
  has_key, storable, status_eq, stored_status_eq, same_callback, reserve_callback_key,
  reserve_against, callback_conflict,
}
use peak_pass.Payment.Webhook.{
  WebhookResponse, map_outcome_to_response, handle_settle, handle_fail, record_late, dispatch,
  apply_transition, process_payment_webhook,
}
use peak_pass.Frame.{SameSales, SameSales-trans, Ensures-leaves}
use peak_pass.Frame.Payments.{reserve_callback_key-LeavesSales, insert_payment_record-LeavesSales}

-- The key is bound to this order, transaction and status.
pub record IsBound (k : CallbackKey) (order_id : ℕ) (provider : Text) (status : CallbackStatus)
    : Type 0 where
  pub order : k.order_id ≡ order_id
  pub transaction : k.provider_transaction_id ≡ provider
  pub outcome : k.callback_status ≡ some status

status_eq_refl : (s : CallbackStatus) → status_eq s s ≡ true
status_eq_refl CallbackStatus.settled = refl
status_eq_refl CallbackStatus.failed = refl

stored_status_eq→eq :
    (t : Option CallbackStatus) (s : CallbackStatus) → stored_status_eq t s ≡ true → t ≡ some s
stored_status_eq→eq none s h = absurd (ground arith)
stored_status_eq→eq (some CallbackStatus.settled) CallbackStatus.settled h = refl
stored_status_eq→eq (some CallbackStatus.failed) CallbackStatus.failed h = refl
stored_status_eq→eq (some CallbackStatus.settled) CallbackStatus.failed h = absurd (ground arith)
stored_status_eq→eq (some CallbackStatus.failed) CallbackStatus.settled h = absurd (ground arith)

IsBound→same_callback :
    (k : CallbackKey) (id : ℕ) (t : Text) (s : CallbackStatus)
    → IsBound k id t s
    → same_callback id t s k ≡ true
unfolding same_callback
IsBound→same_callback k id t s b =
    rw (b.order, b.transaction, b.outcome, ==_refl id, text_eq_refl t, status_eq_refl s) refl

same_callback→IsBound :
    (k : CallbackKey) (id : ℕ) (t : Text) (s : CallbackStatus)
    → same_callback id t s k ≡ true
    → IsBound k id t s
unfolding same_callback
same_callback→IsBound k id t s h = record {
  order = ==→eq k.order_id id (ground arith);
  transaction = text_eq→eq k.provider_transaction_id t (ground arith);
  outcome = stored_status_eq→eq k.callback_status s (ground arith);
}

other_callback :
    (k : CallbackKey) (id : ℕ) (t : Text) (s : CallbackStatus)
    → ¬ IsBound k id t s
    → same_callback id t s k ≡ false
other_callback k id t s other = elim (Bool-cases (same_callback id t s k)) [
  | inl y ↦ absurd (other (same_callback→IsBound k id t s y))
  | inr n ↦ n
]

module _ (env : Env) (input : PaymentWebhookInput) (key : Text) (db : Db) (o : Order)
    (k : CallbackKey) (found : find order_key input.order_id db.orders ≡ some o)
    (known : find_row (has_key key) db.callback_keys ≡ some k) where
  reserve_callback_key-same :
      IsBound k o.id input.provider_transaction_id input.status
      → reserve_callback_key o.id input.provider_transaction_id input.status key db ≡ ok (tt, db)
  unfolding reserve_callback_key reserve_against pure throw gets require modify check ◌>>=◌
  reserve_callback_key-same same =
      rw
        (
          known,
          reserve_against,
          IsBound→same_callback k o.id input.provider_transaction_id input.status same,
        )
        refl

  reserve_callback_key-other :
      ¬ IsBound k o.id input.provider_transaction_id input.status
      → storable input.provider_transaction_id ≡ true
      → reserve_callback_key o.id input.provider_transaction_id input.status key db
        ≡ err (
            app (
              conflict_error
                (text "Idempotency key already used for a different payment callback")))
  unfolding reserve_callback_key reserve_against callback_conflict pure throw gets require modify
      check ◌>>=◌
  reserve_callback_key-other other fits =
      rw
        (
          known,
          reserve_against,
          other_callback k o.id input.provider_transaction_id input.status other,
          ◌>>◌,
          ◌>>=◌,
          fits,
        )
        refl

  -- A callback for an order in the table whose key is bound to another order, another transaction,
  -- another status or none, and whose transaction is of at most 255 characters without a NUL, is
  -- refused.
  pub process_payment_webhook-other_callback :
      ¬ IsBound k o.id input.provider_transaction_id input.status
      → storable input.provider_transaction_id ≡ true
      → process_payment_webhook env input key db
        ≡ err (
            app (
              conflict_error
                (text "Idempotency key already used for a different payment callback")))
  unfolding process_payment_webhook pure throw gets require modify check ◌>>=◌
  process_payment_webhook-other_callback other fits =
      rw (found, ◌>>◌, ◌>>=◌, reserve_callback_key-other other fits) refl

dispatch-paid :
    (s : CallbackStatus) (env : Env) (o : Order) (input : PaymentWebhookInput) (key : Text)
    (db : Db)
    → (dispatch OrderStatus.paid s env o input key >>= λ outcome.
          pure (map_outcome_to_response outcome))
        db
      ≡ ok (
        record {
          order = o;
          tickets = select (of_order o.id) db.tickets;
          payment_status = PaymentStatus.settled;
          duplicate = true;
        },
        db,
      )
unfolding dispatch handle_settle handle_fail get_tickets_by_order_id map_outcome_to_response pure
    throw gets require modify check ◌>>=◌
dispatch-paid CallbackStatus.settled env o input key db = refl
dispatch-paid CallbackStatus.failed env o input key db = refl

-- A callback for a paid order whose key is bound to the same order, transaction and status, which
-- may be either, answers the order with its tickets as a settled duplicate, and changes nothing.
pub process_payment_webhook-paid :
    (env : Env) (input : PaymentWebhookInput) (key : Text) (db : Db) (o : Order) (k : CallbackKey)
    → find order_key input.order_id db.orders ≡ some o
    → find_row (has_key key) db.callback_keys ≡ some k
    → IsBound k o.id input.provider_transaction_id input.status
    → o.status ≡ OrderStatus.paid
    → process_payment_webhook env input key db
      ≡ ok (
        record {
          order = o;
          tickets = select (of_order o.id) db.tickets;
          payment_status = PaymentStatus.settled;
          duplicate = true;
        },
        db,
      )
unfolding process_payment_webhook apply_transition pure throw gets require modify check ◌>>=◌
process_payment_webhook-paid env input key db o k found known same paid =
    rw (found, ◌>>◌, ◌>>=◌, reserve_callback_key-same env input key db o k found known same)
      (ap
          (λ s.
            (dispatch s input.status env o input key >>= λ outcome.
            pure (map_outcome_to_response outcome))
              db)
          paid
        ∙ dispatch-paid input.status env o input key db)

-- The sales are as they were, and the answer is the order without tickets.
pub record Late (db : Db) (o : Order) (r : WebhookResponse) (after : Db) : Type 0 where
  pub sales : SameSales db after
  pub order : r.order ≡ o
  pub tickets : r.tickets ≡ []

record_late-Late :
    (env : Env) (input : PaymentWebhookInput) (key : Text) (db mid : Db) (o : Order)
    → SameSales db mid
    → Ensures
        (record_late env o input key mid)
        (λ outcome. Late db o (map_outcome_to_response outcome))
unfolding record_late map_outcome_to_response
record_late-Late env input key db mid o kept =
    Ensures-leaves _ _ _ (insert_payment_record-LeavesSales _ _ _ _ _ _) λ recorded after kept'.
      Ensures-pure _ _ (record { sales = SameSales-trans kept kept'; order = refl; tickets = refl })

dispatch-Late :
    (status : OrderStatus) (s : CallbackStatus) (env : Env) (input : PaymentWebhookInput)
    (key : Text) (db mid : Db) (o : Order)
    → status ≡ OrderStatus.expired
    → SameSales db mid
    → Ensures
        (dispatch status s env o input key mid)
        (λ outcome. Late db o (map_outcome_to_response outcome))
unfolding dispatch
dispatch-Late OrderStatus.expired s env input key db mid o late kept =
    record_late-Late env input key db mid o kept
dispatch-Late _ s env input key db mid o late kept = absurd (cc)

-- A callback for an expired order, where it is accepted, changes no event, reservation, order or
-- ticket, and answers the order without tickets.
pub process_payment_webhook-expired :
    (env : Env) (input : PaymentWebhookInput) (key : Text) (db : Db) (o : Order)
    → find order_key input.order_id db.orders ≡ some o
    → o.status ≡ OrderStatus.expired
    → Ensures (process_payment_webhook env input key db) (Late db o)
unfolding process_payment_webhook apply_transition
process_payment_webhook-expired env input key db o found late = Ensures-gets _ _ _ (
    Ensures-require _ _ _ _ λ o' at.
      let same : o' ≡ o = cc in
      Ensures-leaves _ _ _ (reserve_callback_key-LeavesSales _ _ _ _) λ _ mid kept. rw (same) (
        Ensures-then _ _ _ (dispatch-Late o.status input.status env input key db mid o late kept)
          λ outcome after h. Ensures-pure _ _ h))
