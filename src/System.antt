-- ===== src/System.antt =====
-- The transactions of the program as commands on one database, and any sequence of them. Under
-- SERIALIZABLE, and under the row locks that the reservations without admission fields take, the
-- transactions that commit are equivalent to such a sequence.
pub mod Capacity
pub mod Execution
use peak_pass.Prelude.{ℕ, Option, List, [], ◌∷◌, Text}
use peak_pass.Model.{
  ReservationStatus, CreateReservationInput, CreateOrderInput, PaymentWebhookInput,
}
use peak_pass.Model.Admission.{AdmissionRef}
use peak_pass.Db.{Db, Env}
use peak_pass.Admission.{Gateway}
use peak_pass.Events.{CreateEventInput, create_event_with_client}
use peak_pass.Reservations.{release_reservation_with_client, expire_reservation_with_client}
use peak_pass.Orders.{expire_pending_order_with_client}
use peak_pass.Checkout.{checkout}
use peak_pass.Payment.Webhook.{process_payment_webhook}
use peak_pass.Purchase.{create_reservation, committed}

pub data Command : Type 0 where
  create_event : (ℕ → Text) → Env → CreateEventInput → Command
  reserve : Env → Gateway → CreateReservationInput → Option AdmissionRef → Command
  buy : Env → Gateway → CreateOrderInput → Option AdmissionRef → Command
  settle : Env → PaymentWebhookInput → Text → Command
  release : ℕ → Command
  expire_reservation : ℕ → Command
  expire_order : Env → ℕ → Command

unfoldable pub run : Command → Db → Db
run (create_event text_of env input) = committed (create_event_with_client text_of env input)
run (reserve env gw input a) = committed (create_reservation env gw input a)
run (buy env gw input a) = committed (checkout env gw input a)
run (settle env input key) = committed (process_payment_webhook env input key)
run (release id) = committed (release_reservation_with_client id)
run (expire_reservation id) = committed (expire_reservation_with_client id)
run (expire_order env id) = committed (expire_pending_order_with_client env id)

unfoldable pub run_all : List Command → Db → Db
run_all [] db = db
run_all (c ∷ cs) db = run_all cs (run c db)
