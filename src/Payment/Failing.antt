-- ===== src/Payment/Failing.antt =====
-- A first failure of an open order in `processPaymentWebhook` of
-- src/core/services/payment-webhook.service.ts commits.
use peak_pass.Prelude.{◌+◌, ◌≡◌, refl, true, false, none, some, [], ◌∷◌, Text}
use peak_pass.Table.{find, update}
use peak_pass.Table.Laws.{find_self}
use peak_pass.Failure.{ok}
use peak_pass.Model.{
  Event, OrderStatus, Order, PaymentStatus, PaymentRecord, settlement_key, CallbackStatus,
  CallbackKey, PaymentWebhookInput,
}
use peak_pass.Db.{Db, Env, pure, throw, gets, require, modify, check, ◌>>=◌, ◌>>◌}
use peak_pass.Db.Keys.{event_key, order_key, payment_key, find_row}
use peak_pass.Inventory.{with_available}
use peak_pass.Orders.{with_order_status, set_order_status}
use peak_pass.Payment.{
  storable, has_key, has_provider, has_settlement_key, reserve_callback_key, reserve_against,
  insert_new_record, record_payment, insert_payment_record,
}
use peak_pass.Payment.Webhook.{
  newly_failed, map_outcome_to_response, cancel_order, fail_open, handle_fail, dispatch,
  apply_transition, process_payment_webhook,
}
use peak_pass.Seats.{IsBalanced, occupies}
use peak_pass.Seats.Returns.{return_sold, found_after}
use peak_pass.Seats.Sales.{Balanced-IsStable}

-- The rows that the callback adds.
abbrev pub new_key : Order → PaymentWebhookInput → Text → CallbackKey
new_key o input key = record {
  idempotency_key = key;
  order_id = o.id;
  provider_transaction_id = input.provider_transaction_id;
  callback_status = some input.status;
}

abbrev pub new_record : Env → Order → PaymentWebhookInput → Text → PaymentRecord
new_record env o input key = record {
  id = env.uuid 0;
  order_id = o.id;
  status = PaymentStatus.failed;
  provider_transaction_id = some input.provider_transaction_id;
  idempotency_key = settlement_key key;
  reconciliation_required = false;
}

-- The callback has been recorded.
abbrev pub recorded_db : Env → Order → PaymentWebhookInput → Text → Db → Db
recorded_db env o input key db = record db {
  callback_keys = new_key o input key ∷ db.callback_keys;
  payment_records = new_record env o input key ∷ db.payment_records;
}

abbrev keyed_db : Order → PaymentWebhookInput → Text → Db → Db
keyed_db o input key db = record db { callback_keys = new_key o input key ∷ db.callback_keys }

-- Its seats are back on sale and the order is cancelled.
abbrev pub failed_db : Env → Order → Event → PaymentWebhookInput → Text → Db → Db
failed_db env o event input key db = record (recorded_db env o input key db) {
  events =
      update event_key event.id (with_available (event.available_seats + o.quantity)) db.events;
  orders = update order_key o.id (with_order_status OrderStatus.cancelled) db.orders;
}

module _ (env : Env) (input : PaymentWebhookInput) (key : Text) (db : Db) (o : Order)
    (event : Event) (b : IsBalanced db) (found : find order_key o.id db.orders ≡ some o)
    (at : find event_key o.event_id db.events ≡ some event) (counted : occupies o.status ≡ true)
    (new_transaction : find_row (has_provider input.provider_transaction_id) db.payment_records
      ≡ none)
    (new_id : find payment_key (env.uuid 0) db.payment_records ≡ none)
    (new_settlement : find_row (has_settlement_key key) db.payment_records ≡ none)
    (key_fits : storable key ≡ true)
    (provider_fits : storable input.provider_transaction_id ≡ true) where
  insert_payment_record-new :
      insert_payment_record env o.id CallbackStatus.failed input.provider_transaction_id key false
        (keyed_db o input key db)
      ≡ ok ((true, PaymentStatus.failed), recorded_db env o input key db)
  unfolding insert_payment_record record_payment insert_new_record pure throw gets require modify
      check ◌>>=◌
  insert_payment_record-new =
      rw
        (
          key_fits, ◌>>◌, ◌>>=◌, new_transaction, record_payment, insert_new_record, ◌>>◌, ◌>>=◌,
          provider_fits, new_id, new_settlement, found,
        )
        refl

  recorded-IsBalanced : IsBalanced (recorded_db env o input key db)
  recorded-IsBalanced =
      Balanced-IsStable db (recorded_db env o input key db)
        (record { events = refl; reservations = refl; orders = refl; tickets = refl }) b

  fail_open-new :
      fail_open env o input key (keyed_db o input key db)
      ≡ ok (
        newly_failed (with_order_status OrderStatus.cancelled o),
        failed_db env o event input key db,
      )
  unfolding fail_open cancel_order set_order_status pure throw gets require modify check ◌>>=◌
  fail_open-new =
      rw
        (
          ◌>>=◌,
          insert_payment_record-new,
          ◌>>◌,
          ◌>>=◌,
          return_sold (recorded_db env o input key db) recorded-IsBalanced event o.id o found
              counted at,
          found_after o.id (with_order_status OrderStatus.cancelled) db o (λ x. refl) found,
        )
        refl

reserve_callback_key-new :
    (input : PaymentWebhookInput) (key : Text) (db : Db) (o : Order)
    → find_row (has_key key) db.callback_keys ≡ none
    → storable key ≡ true
    → storable input.provider_transaction_id ≡ true
    → reserve_callback_key o.id input.provider_transaction_id input.status key db
      ≡ ok (tt, record db { callback_keys = new_key o input key ∷ db.callback_keys })
unfolding reserve_callback_key reserve_against pure throw gets require modify check ◌>>=◌
reserve_callback_key-new input key db o fresh key_fits provider_fits =
    rw (fresh, reserve_against, ◌>>◌, ◌>>=◌, key_fits, provider_fits) refl

dispatch-failed :
    (status : OrderStatus) (s : CallbackStatus) (env : Env) (o : Order)
    (input : PaymentWebhookInput) (key : Text) (db : Db)
    → status ≡ OrderStatus.pending
    → s ≡ CallbackStatus.failed
    → dispatch status s env o input key db ≡ fail_open env o input key db
unfolding dispatch handle_fail
dispatch-failed OrderStatus.pending CallbackStatus.failed env o input key db e f = refl
dispatch-failed _ _ env o input key db e f = absurd (cc)

-- In a database whose account balances, the failure of a pending order, whose event is in the table,
-- commits where its key, its transaction and the id of its record are new, and the key and the
-- transaction are of at most 255 characters without a NUL: the key and the failed
-- payment are recorded, the seats go back on sale, the order is cancelled and answered as failed for
-- the first time, and nothing else changes.
pub process_payment_webhook-failed :
    (env : Env) (input : PaymentWebhookInput) (key : Text) (db : Db) (o : Order) (event : Event)
    → IsBalanced db
    → find order_key input.order_id db.orders ≡ some o
    → find event_key o.event_id db.events ≡ some event
    → o.status ≡ OrderStatus.pending
    → input.status ≡ CallbackStatus.failed
    → find_row (has_key key) db.callback_keys ≡ none
    → find_row (has_provider input.provider_transaction_id) db.payment_records ≡ none
    → find payment_key (env.uuid 0) db.payment_records ≡ none
    → find_row (has_settlement_key key) db.payment_records ≡ none
    → storable key ≡ true
    → storable input.provider_transaction_id ≡ true
    → process_payment_webhook env input key db
      ≡ ok (
        record {
          order = with_order_status OrderStatus.cancelled o;
          tickets = [];
          payment_status = PaymentStatus.failed;
          duplicate = false;
        },
        failed_db env o event input key db,
      )
unfolding process_payment_webhook apply_transition map_outcome_to_response pure throw gets require
    modify check ◌>>=◌
process_payment_webhook-failed env input key db o event b found at is_pending fails fresh
      new_transaction new_id new_settlement key_fits provider_fits =
    rw
      (
        found,
        ◌>>◌,
        ◌>>=◌,
        reserve_callback_key-new input key db o fresh key_fits provider_fits,
        ◌>>=◌,
        apply_transition,
        dispatch-failed o.status input.status env o input key (keyed_db o input key db) is_pending
            fails,
        fail_open-new env input key db o event b
            (find_self order_key input.order_id db.orders o found) at (rw is_pending refl)
            new_transaction new_id new_settlement key_fits provider_fits,
      )
      refl
