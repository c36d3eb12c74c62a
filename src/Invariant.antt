-- ===== src/Invariant.antt =====
-- What the base operations must keep for every transaction, and so every history, to keep it.
pub mod Sales
pub mod Purchases
pub mod Webhooks
pub mod Histories
use peak_pass.Prelude.{ℕ, ◌≡◌, Bool, true, false, Option, some, Text}
use peak_pass.Table.{find}
use peak_pass.Model.{
  ReservationStatus, Reservation, OrderStatus, Order, CreateReservationInput, CreateOrderInput,
  PaymentWebhookInput,
}
use peak_pass.Model.Admission.{AdmissionRef}
use peak_pass.Db.{Db, Env}
use peak_pass.Db.Rules.{Ensures}
use peak_pass.Db.Keys.{reservation_key, order_key}
use peak_pass.Events.{CreateEventInput, create_event_with_client}
use peak_pass.Reservations.{is_active, create_reservation_with_client, return_seats_and_finalize}
use peak_pass.Orders.{expire_pending_order_with_client}
use peak_pass.Checkout.{convertible, convert_and_order, create_order}
use peak_pass.Payment.Webhook.{settle_open, fail_open}
use peak_pass.Frame.{IsStable, Preserves}

-- An order that a callback still settles or cancels.
abbrev pub is_open : OrderStatus → Bool
is_open OrderStatus.pending = true
is_open OrderStatus.delivered = true
is_open _ = false

-- A property of the sales that each base operation keeps where it commits.
pub record Invariant (P : Db → Type 0) : Type 0 where
  pub stable : IsStable P
  pub on_event :
      (text_of : ℕ → Text) (env : Env) (input : CreateEventInput)
      → Preserves P (create_event_with_client text_of env input)
  pub on_reserve :
      (env : Env) (input : CreateReservationInput)
      → Preserves P (create_reservation_with_client env input)
  pub on_return :
      (id : ℕ) (final : ReservationStatus)
      → is_active final ≡ false
      → Preserves P (return_seats_and_finalize id final)
  pub on_expire : (env : Env) (id : ℕ) → Preserves P (expire_pending_order_with_client env id)
  pub on_order : (env : Env) (input : CreateOrderInput) → Preserves P (create_order env input false)
  pub on_convert :
      (env : Env) (id : ℕ) (input : CreateOrderInput) (a : Option AdmissionRef) (r : Reservation)
      (db : Db)
      → find reservation_key id db.reservations ≡ some r
      → convertible env input r ≡ true
      → P db
      → Ensures (convert_and_order env id input a db) (λ _ after. P after)
  pub on_settle :
      (env : Env) (o : Order) (input : PaymentWebhookInput) (key : Text) (db : Db)
      → find order_key o.id db.orders ≡ some o
      → is_open o.status ≡ true
      → P db
      → Ensures (settle_open env o input key db) (λ _ after. P after)
  pub on_fail :
      (env : Env) (o : Order) (input : PaymentWebhookInput) (key : Text) (db : Db)
      → find order_key o.id db.orders ≡ some o
      → is_open o.status ≡ true
      → P db
      → Ensures (fail_open env o input key db) (λ _ after. P after)
