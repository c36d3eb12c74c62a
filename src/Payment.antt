-- ===== src/Payment.antt =====
-- src/core/services/payment-webhook.service.ts, and the types of models/payment.ts.
pub mod Failing
pub mod Replies
pub mod Webhook
use peak_pass.Prelude.{
  ℕ, zero, suc, ◌+◌, pos, Bool, true, false, ◌&&◌, ◌||◌, not, ◌==◌, Option, none, some, List, [],
  ◌∷◌, Text, text_eq, includes, length, leb, if◌then◌else◌,
}
use peak_pass.Table.{find, update}
use peak_pass.Failure.{
  other_state, app, pg, plain, text, not_found_error, conflict_error, unique_violation,
  foreign_key_violation, payment_records_pkey, payment_records_idempotency_key,
  payment_records_order_fkey,
}
use peak_pass.Model.{
  OrderStatus, Order, TicketStatus, Ticket, PaymentStatus, RecordKey, checkout_key, settlement_key,
  PaymentRecord, CallbackStatus, CallbackKey, PaymentWebhookInput,
}
use peak_pass.Model.TicketNumber.{generate_ticket_number}
use peak_pass.Db.{Db, Env, Tx, pure, throw, gets, require, modify, check, ◌>>=◌, ◌>>◌}
use peak_pass.Db.Keys.{order_key, payment_key, is_none, is_some, option_text_eq, find_row}
use peak_pass.Db.Insert.{insert_ticket}
use peak_pass.Inventory.{adjust_available_seats}
use peak_pass.Orders.{get_tickets_by_order_id, set_order_status}

abbrev pub status_eq : CallbackStatus → CallbackStatus → Bool
status_eq CallbackStatus.settled CallbackStatus.settled = true
status_eq CallbackStatus.failed CallbackStatus.failed = true
status_eq _ _ = false

-- A NULL status of a migrated key equals no status.
abbrev pub stored_status_eq : Option CallbackStatus → CallbackStatus → Bool
stored_status_eq none s = false
stored_status_eq (some t) s = status_eq t s

abbrev pub has_key : Text → CallbackKey → Bool
has_key key k = text_eq k.idempotency_key key

-- The stored callback is the one that this request makes.
unfoldable pub same_callback : ℕ → Text → CallbackStatus → CallbackKey → Bool
same_callback order_id provider status k =
    k.order_id == order_id
    && text_eq k.provider_transaction_id provider
    && stored_status_eq k.callback_status status

unfoldable pub callback_conflict : Tx (Unit {0})
callback_conflict =
    throw
      (app (conflict_error (text "Idempotency key already used for a different payment callback")))

-- What a VARCHAR(255) column of migrations 001 and 010 takes; a text of PostgreSQL has no NUL. The
-- texts come trimmed, and the schema of the input bounds the provider's.
abbrev pub storable : Text → Bool
storable t = leb (length t) 255 && not (includes t 0)

-- INSERT … ON CONFLICT DO NOTHING, and the comparison with the key that was there. A text that the
-- columns do not take makes the INSERT fail; a stored text, which equals the input's, is storable.
unfoldable pub reserve_against :
    Option CallbackKey → ℕ → Text → CallbackStatus → Text → Tx (Unit {0})
reserve_against none order_id provider status key = do
  check (storable key && storable provider) (pg other_state)
  modify (λ d. record d {
    callback_keys =
        record {
          idempotency_key = key;
          order_id = order_id;
          provider_transaction_id = provider;
          callback_status = some status;
        }
        ∷ d.callback_keys;
  })
reserve_against (some k) order_id provider status key =
    if same_callback order_id provider status k
    then pure tt
    else (do check (storable provider) (pg other_state); callback_conflict)

unfoldable pub reserve_callback_key : ℕ → Text → CallbackStatus → Text → Tx (Unit {0})
reserve_callback_key order_id provider status key = do
  found ← gets (λ d. find_row (has_key key) d.callback_keys)
  reserve_against found order_id provider status key

abbrev pub record_status : CallbackStatus → PaymentStatus
record_status CallbackStatus.settled = PaymentStatus.settled
record_status CallbackStatus.failed = PaymentStatus.failed

abbrev pub is_settled : PaymentStatus → Bool
is_settled PaymentStatus.settled = true
is_settled _ = false

abbrev pub has_provider : Text → PaymentRecord → Bool
has_provider provider r = option_text_eq r.provider_transaction_id (some provider)

-- The partial UNIQUE index of migration 005 on the records of settlements.
abbrev pub has_settlement_key : Text → PaymentRecord → Bool
has_settlement_key key r = elim r.idempotency_key [
  | checkout_key k ↦ false
  | settlement_key t ↦ is_some r.provider_transaction_id && text_eq t key
]

abbrev pub reconciled : PaymentRecord → PaymentRecord
reconciled r = record r { status = PaymentStatus.settled; reconciliation_required = true }

-- No record has the provider's transaction: the INSERT, under the other constraints.
unfoldable pub insert_new_record :
    Env → ℕ → CallbackStatus → Text → Text → Bool → Tx (Bool × PaymentStatus)
insert_new_record env order_id status provider key reconciliation = do
  db ← gets (λ d. d)
  check (storable provider) (pg other_state)
  check (is_none (find payment_key (env.uuid 0) db.payment_records))
      (pg (unique_violation payment_records_pkey))
  check (is_none (find_row (has_settlement_key key) db.payment_records))
      (pg (unique_violation payment_records_idempotency_key))
  check (is_some (find order_key order_id db.orders))
      (pg (foreign_key_violation payment_records_order_fkey))
  modify (λ d. record d {
    payment_records =
        record {
          id = env.uuid 0;
          order_id = order_id;
          status = record_status status;
          provider_transaction_id = some provider;
          idempotency_key = settlement_key key;
          reconciliation_required = reconciliation;
        }
        ∷ d.payment_records;
  })
  pure (true, record_status status)

unfoldable pub provider_reused : Tx (Bool × PaymentStatus)
provider_reused =
    throw (app (conflict_error (text "providerTransactionId already used for a different order")))

-- A record has the provider's transaction already.
unfoldable pub keep_record : ℕ → Bool → PaymentRecord → Tx (Bool × PaymentStatus)
keep_record order_id reconciliation row =
    if row.order_id == order_id
    then (if reconciliation && (not (is_settled row.status) || not row.reconciliation_required)
        then (do
          modify (λ d. record d {
            payment_records = update payment_key row.id reconciled d.payment_records;
          })
          pure (true, PaymentStatus.settled))
        else pure (false, row.status))
    else provider_reused

unfoldable pub record_payment :
    Option PaymentRecord → Env → ℕ → CallbackStatus → Text → Text → Bool → Tx (Bool × PaymentStatus)
record_payment none env order_id status provider key reconciliation =
    insert_new_record env order_id status provider key reconciliation
record_payment (some row) env order_id status provider key reconciliation =
    keep_record order_id reconciliation row

-- The pair is `{changed, status}`.
unfoldable pub insert_payment_record :
    Env → ℕ → CallbackStatus → Text → Text → Bool → Tx (Bool × PaymentStatus)
insert_payment_record env order_id status provider key reconciliation = do
  check (storable key) (pg other_state)
  found ← gets (λ d. find_row (has_provider provider) d.payment_records)
  record_payment found env order_id status provider key reconciliation
