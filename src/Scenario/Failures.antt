-- ===== src/Scenario/Failures.antt =====
-- The failure of an order at a concrete input.
use peak_pass.Prelude.{◌≡◌, refl, false, [], includes}
use peak_pass.Table.{find}
use peak_pass.Failure.{ok}
use peak_pass.Model.{OrderStatus, PaymentStatus, CallbackStatus, PaymentWebhookInput}
use peak_pass.Db.Keys.{find_row}
use peak_pass.Payment.Webhook.{process_payment_webhook}
use peak_pass.Payment.Failing.{failed_db, process_payment_webhook-failed}
use peak_pass.Scenario.{env_of, text_of}
use peak_pass.Scenario.Data.{event_with, order_with, pending_db}
use peak_pass.Scenario.Purchases.{pending_db-IsBalanced}

abbrev failure : PaymentWebhookInput
failure = record {
  order_id = 300;
  provider_transaction_id = text_of 117;
  status = CallbackStatus.failed;
}

process_payment_webhook-failed_example :
    process_payment_webhook (env_of 6) failure (text_of 108) pending_db
    ≡ ok (
      record {
        order = order_with OrderStatus.cancelled;
        tickets = [];
        payment_status = PaymentStatus.failed;
        duplicate = false;
      },
      failed_db
          (env_of 6)
          (order_with OrderStatus.pending)
          (event_with 3)
          failure
          (text_of 108)
          pending_db,
    )
unfolding find find_row includes
process_payment_webhook-failed_example =
    process_payment_webhook-failed (env_of 6) failure (text_of 108) pending_db
      (order_with OrderStatus.pending) (event_with 3) pending_db-IsBalanced refl refl refl refl refl
      refl refl refl refl refl
