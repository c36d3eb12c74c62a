-- ===== src/Model.antt =====
-- src/core/models: the rows of the tables and the inputs of the commands. A UUID is the number that
-- it denotes, which is what `uuid` of models/uuid.ts and the UUID columns compare; a text that is
-- compared as sent is a `Text`. `createdAt` and `updatedAt`, which no command reads, are left out.
pub mod Money
pub mod Admission
pub mod TicketNumber
use peak_pass.Prelude.{ℕ, ◌≡◌, Bool, true, false, Option, List, String, Text}
use peak_pass.Model.Money.{Decimal}

pub data EventStatus : Type 0 where
  draft published closed cancelled : EventStatus

pub record PricingTier : Type 0 where
  pub id : Text
  pub price : Decimal

pub record Event : Type 0 where
  pub id : ℕ
  pub status : EventStatus
  pub ends_at : ℕ
  pub total_seats : ℕ
  pub available_seats : ℕ
  pub pricing : List PricingTier

pub data ReservationStatus : Type 0 where
  active released converted expired : ReservationStatus

pub record Reservation : Type 0 where
  pub id : ℕ
  pub user_id : ℕ
  pub event_id : ℕ
  pub quantity : ℕ
  pub tier_id : Text
  pub expires_at : ℕ
  pub status : ReservationStatus

pub data OrderStatus : Type 0 where
  pending paid delivered cancelled expired : OrderStatus

-- Amounts are in hundredths, as NUMERIC(10,2) keeps them.
pub record Order : Type 0 where
  pub id : ℕ
  pub user_id : ℕ
  pub event_id : ℕ
  pub quantity : ℕ
  pub tier_id : Text
  pub unit_price : ℕ
  pub total_amount : ℕ
  pub status : OrderStatus
  pub idempotency_key : ℕ
  pub reservation_id : Option ℕ
  pub payment_deadline_at : Option ℕ
  pub paid_at : Option ℕ

pub data TicketStatus : Type 0 where
  active used cancelled : TicketStatus

pub record Ticket : Type 0 where
  pub id : ℕ
  pub order_id : ℕ
  pub event_id : ℕ
  pub user_id : ℕ
  pub ticket_number : Text
  pub status : TicketStatus

pub data PaymentStatus : Type 0 where
  pending settled failed : PaymentStatus

-- The column `idempotency_key` of a payment record: the UUID of a checkout, or the header of a
-- settlement as it was sent. Migration 005 keeps the two kinds apart.
pub data RecordKey : Type 0 where
  checkout_key : ℕ → RecordKey
  settlement_key : Text → RecordKey

pub record PaymentRecord : Type 0 where
  pub id : ℕ
  pub order_id : ℕ
  pub status : PaymentStatus
  pub provider_transaction_id : Option Text
  pub idempotency_key : RecordKey
  pub reconciliation_required : Bool

pub data CallbackStatus : Type 0 where
  settled failed : CallbackStatus

pub record CallbackKey : Type 0 where
  pub idempotency_key : Text
  pub order_id : ℕ
  pub provider_transaction_id : Text
  pub callback_status : Option CallbackStatus

pub record CreateReservationInput : Type 0 where
  pub event_id : ℕ
  pub user_id : ℕ
  pub quantity : ℕ
  pub tier_id : Text

pub record CreateOrderInput : Type 0 where
  pub event_id : ℕ
  pub user_id : ℕ
  pub quantity : ℕ
  pub tier_id : Text
  pub idempotency_key : ℕ
  pub reservation_id : Option ℕ

pub record PaymentWebhookInput : Type 0 where
  pub order_id : ℕ
  pub provider_transaction_id : Text
  pub status : CallbackStatus
