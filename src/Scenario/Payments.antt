-- ===== src/Scenario/Payments.antt =====
-- The theorems on orders, tickets and payments at concrete inputs.
use peak_pass.Prelude.{ℕ, ◌≡◌, refl, ap, true, [], ◌∷◌, some, arith, Text, text_eq, includes}
use peak_pass.Table.{find, select, sum}
use peak_pass.Failure.{ok, err, app, text, conflict_error}
use peak_pass.Model.{OrderStatus, Order, PaymentStatus, PaymentWebhookInput}
use peak_pass.Db.Rules.{Ensures}
use peak_pass.Db.Keys.{order_key, find_row}
use peak_pass.Payment.{same_callback}
use peak_pass.Orders.Closed.{closed_order_stays}
use peak_pass.Payment.Replies.{
  Late, process_payment_webhook-paid, process_payment_webhook-other_callback,
  process_payment_webhook-expired,
}
use peak_pass.Payment.Webhook.{process_payment_webhook}
use peak_pass.Scenario.{env_of, text_of, settled_callback, empty_db, story}
use peak_pass.Scenario.Data.{order_with, ticket_with, settled_key, pending_db, paid_db, expired_db}
use peak_pass.System.{run_all}
use peak_pass.System.Execution.{execute}
use peak_pass.Tickets.{issued, IsIssued}
use peak_pass.Tickets.Answers.{FirstAnswer, process_payment_webhook-Settled}
use peak_pass.Tickets.Sales.{tickets_of_order}

pending_db-IsIssued : IsIssued pending_db
unfolding find sum
pending_db-IsIssued id = ground arith

empty_db-IsIssued : IsIssued empty_db
unfolding find sum
empty_db-IsIssued id = refl

abbrev story_order : Order
story_order = record (order_with OrderStatus.paid) {
  reservation_id = some 200;
  paid_at = some 5000;
}

story_order_found : find order_key 300 (run_all story empty_db).orders ≡ some story_order
unfolding execute
story_order_found = refl

tickets_of_order_example : issued 300 (run_all story empty_db) ≡ 2
tickets_of_order_example =
    tickets_of_order story empty_db 300 story_order empty_db-IsIssued story_order_found

-- The order is in the table before the story begins, and its rows do not collide with it.
closed_order_stays_example :
    find order_key 300 (run_all story paid_db).orders ≡ some (order_with OrderStatus.paid)
unfolding find
closed_order_stays_example =
    closed_order_stays story paid_db 300 (order_with OrderStatus.paid) refl refl

process_payment_webhook-Settled_example :
    Ensures
      (process_payment_webhook (env_of 5) settled_callback (text_of 107) pending_db)
      (FirstAnswer (order_with OrderStatus.pending))
unfolding find
process_payment_webhook-Settled_example =
    process_payment_webhook-Settled (env_of 5) settled_callback (text_of 107) pending_db
      (order_with OrderStatus.pending) refl refl refl pending_db-IsIssued

process_payment_webhook-paid_example :
    process_payment_webhook (env_of 6) settled_callback (text_of 107) paid_db
    ≡ ok (
      record {
        order = order_with OrderStatus.paid;
        tickets = ticket_with 502 ∷ ticket_with 501 ∷ [];
        payment_status = PaymentStatus.settled;
        duplicate = true;
      },
      paid_db,
    )
unfolding find select find_row text_eq same_callback
process_payment_webhook-paid_example =
    process_payment_webhook-paid (env_of 6) settled_callback (text_of 107) paid_db
      (order_with OrderStatus.paid) settled_key refl refl
      (record { order = refl; transaction = refl; outcome = refl }) refl

abbrev other_callback : PaymentWebhookInput
other_callback = record settled_callback { provider_transaction_id = text_of 117 }

abbrev first_unit : Text → ℕ
first_unit [] = 0
first_unit (c ∷ s) = c

other_text : ¬ (settled_callback.provider_transaction_id ≡ text_of 117)
other_text e = omega (arith, ap first_unit e)

process_payment_webhook-other_callback_example :
    process_payment_webhook (env_of 6) other_callback (text_of 107) paid_db
    ≡ err (
        app (conflict_error (text "Idempotency key already used for a different payment callback")))
unfolding find find_row text_eq same_callback includes
process_payment_webhook-other_callback_example =
    process_payment_webhook-other_callback (env_of 6) other_callback (text_of 107) paid_db
      (order_with OrderStatus.paid) settled_key refl refl (λ b. other_text (b.transaction)) refl

process_payment_webhook-expired_example :
    Ensures
      (process_payment_webhook (env_of 6) settled_callback (text_of 107) expired_db)
      (Late expired_db (order_with OrderStatus.expired))
unfolding find
process_payment_webhook-expired_example =
    process_payment_webhook-expired (env_of 6) settled_callback (text_of 107) expired_db
      (order_with OrderStatus.expired) refl refl
