-- ===== src/Checkout.antt =====
-- src/core/services/checkout.service.ts. The advisory lock on the key has no counterpart, since one
-- transaction runs here with no other between its statements.
pub mod Orders
pub mod Replay
use peak_pass.Prelude.{
  ℕ, ◌+◌, ◌*◌, neg, Bool, true, false, ◌&&◌, leb, ltb, ◌==◌, Option, none, some, List, [], ◌∷◌,
  text_eq, if◌then◌else◌,
}
use peak_pass.Table.{find, update}
use peak_pass.Failure.{
  AppError, app, pg, plain, text, pricing_tier_not_found, not_found_error, conflict_error,
  validation_error, unique_violation, payment_records_pkey, payment_records_idempotency_key,
}
use peak_pass.Model.{
  ReservationStatus, Reservation, OrderStatus, Order, Ticket, PaymentStatus, checkout_key,
  settlement_key, PaymentRecord, CreateOrderInput,
}
use peak_pass.Model.Money.{parse_unit_price, max_money_amount}
use peak_pass.Model.Admission.{
  AdmissionOperation, AdmissionRef, PurchaseCommand, LedgerOutcome, AdmissionResult,
}
use peak_pass.Db.{Env, Tx, pure, throw, gets, require, modify, check, ◌>>=◌, ◌>>◌}
use peak_pass.Db.Keys.{
  event_key, reservation_key, order_idempotency_key, payment_key, is_none, find_row, option_eq,
}
use peak_pass.Db.Insert.{insert_order}
use peak_pass.Inventory.{adjust_available_seats}
use peak_pass.Reservations.{
  sale_eligible, find_tier, is_active, with_status, expire_reservation_with_client,
}
use peak_pass.Orders.{get_tickets_by_order_id}
use peak_pass.Admission.{
  Gateway, AdmissionGate, purchase_command, stored_rejection, open_admission_gate, own_result,
  assert_admission_link,
}
use peak_pass.Admission.Occupy.{Settlement, Occupation, occupy_through_admission}

pub data CheckoutOutcome : Type 0 where
  result : Order → List Ticket → Settlement → CheckoutOutcome
  reservation_expired : CheckoutOutcome
  rejected : AppError → Settlement → CheckoutOutcome

-- The pending record of a checkout has no provider transaction.
abbrev pub has_checkout_key : ℕ → PaymentRecord → Bool
has_checkout_key key r = elim r.idempotency_key [
  | checkout_key k ↦ is_none r.provider_transaction_id && k == key
  | settlement_key t ↦ false
]

unfoldable pub insert_pending_record : Env → ℕ → ℕ → Tx (Unit {0})
insert_pending_record env order_id key = do
  db ← gets (λ d. d)
  check (is_none (find payment_key (env.uuid 1) db.payment_records))
      (pg (unique_violation payment_records_pkey))
  check (is_none (find_row (has_checkout_key key) db.payment_records))
      (pg (unique_violation payment_records_idempotency_key))
  modify (λ d. record d {
    payment_records =
        record {
          id = env.uuid 1;
          order_id = order_id;
          status = PaymentStatus.pending;
          provider_transaction_id = none;
          idempotency_key = checkout_key key;
          reconciliation_required = false;
        }
        ∷ d.payment_records;
  })

-- The row of the INSERT INTO orders.
abbrev pub new_order : Env → CreateOrderInput → ℕ → Order
new_order env input unit_price = record {
  id = env.uuid 0;
  user_id = input.user_id;
  event_id = input.event_id;
  quantity = input.quantity;
  tier_id = input.tier_id;
  unit_price = unit_price;
  total_amount = unit_price * input.quantity;
  status = OrderStatus.pending;
  idempotency_key = input.idempotency_key;
  reservation_id = input.reservation_id;
  payment_deadline_at = some (env.now + env.payment_window_minutes * 60000);
  paid_at = none;
}

unfoldable pub take_seats : Bool → CreateOrderInput → Tx (Unit {0})
take_seats true input = pure tt
take_seats false input = do adjust_available_seats input.event_id (neg input.quantity); pure tt

unfoldable pub create_order : Env → CreateOrderInput → Bool → Tx Order
create_order env input seats_already_held = do
  db ← gets (λ d. d)
  event ←
      require (find event_key input.event_id db.events)
        (app (not_found_error "Event" input.event_id))
  check (sale_eligible env event) (app (conflict_error (text "Event is not available for sale")))
  tier ←
      require (find_tier input.tier_id event.pricing)
        (app (validation_error (pricing_tier_not_found input.tier_id)))
  unit_price ← require (parse_unit_price tier.price) (
      app (
        validation_error (
          text
            "Pricing tier price must be between 0.01 and 99999999.99 with at most two decimal places")))
  check (leb (unit_price * input.quantity) max_money_amount)
      (app (validation_error (text "Order total exceeds the supported money range")))
  insert_order (new_order env input unit_price)
  take_seats seats_already_held input
  insert_pending_record env (env.uuid 0) input.idempotency_key
  pure (new_order env input unit_price)

-- The payload of the request is that of the order that its key made.
unfoldable pub same_request : Order → CreateOrderInput → Bool
same_request o input =
    o.user_id == input.user_id
    && o.event_id == input.event_id
    && text_eq o.tier_id input.tier_id
    && o.quantity == input.quantity
    && option_eq o.reservation_id input.reservation_id

unfoldable pub replay_order : Order → CreateOrderInput → Option AdmissionRef → Tx CheckoutOutcome
replay_order o input admission = do
  check (same_request o input)
      (app (conflict_error (text "Idempotency-Key reused with a different request payload")))
  assert_admission_link admission (some o.id) o.reservation_id
  tickets ← get_tickets_by_order_id o.id
  pure (result o tickets none)

-- The reservation is this request's.
unfoldable pub same_reservation : Reservation → CreateOrderInput → Bool
same_reservation r input =
    r.user_id == input.user_id
    && r.event_id == input.event_id
    && text_eq r.tier_id input.tier_id
    && r.quantity == input.quantity

-- The WHERE clause of the atomic UPDATE, over the row with the id.
unfoldable pub convertible : Env → CreateOrderInput → Reservation → Bool
convertible env input r = same_reservation r input && is_active r.status && ltb env.now r.expires_at

-- `rowCount === 0`: why the reservation could not be converted.
unfoldable pub not_converted : Env → ℕ → CreateOrderInput → Option Reservation → Tx CheckoutOutcome
not_converted env id input none = throw (app (not_found_error "Reservation" id))
not_converted env id input (some r) =
    if same_reservation r input
    then (if is_active r.status && leb r.expires_at env.now
        then (do expire_reservation_with_client id; pure reservation_expired)
        else throw (app (conflict_error (text "Reservation has expired or is no longer valid"))))
    else throw (app (conflict_error (text "Checkout payload does not match reservation")))

unfoldable pub convert_and_order :
    Env → ℕ → CreateOrderInput → Option AdmissionRef → Tx CheckoutOutcome
convert_and_order env id input admission = do
  modify (λ d. record d {
    reservations =
        update reservation_key id (with_status ReservationStatus.converted) d.reservations;
  })
  assert_admission_link admission none (some id)
  order ← create_order env input true
  pure (result order [] none)

unfoldable pub use_reservation :
    Env → ℕ → CreateOrderInput → Option AdmissionRef → Option Reservation → Tx CheckoutOutcome
use_reservation env id input admission none = not_converted env id input none
use_reservation env id input admission (some r) =
    if convertible env input r
    then convert_and_order env id input admission
    else not_converted env id input (some r)

unfoldable pub checkout_reservation :
    Env → ℕ → CreateOrderInput → Option AdmissionRef → Tx CheckoutOutcome
checkout_reservation env id input admission = do
  found ← gets (λ d. find reservation_key id d.reservations)
  use_reservation env id input admission found

unfoldable pub of_occupation : Occupation Order → CheckoutOutcome
of_occupation (Occupation.value o s) = result o [] s
of_occupation (Occupation.rejected e s) = rejected e s

-- `createOrder` as the `occupy` of a direct checkout.
abbrev pub occupy_order : Env → CreateOrderInput → Tx (Order × ℕ)
occupy_order env input = do order ← create_order env input false; pure (order, order.id)

-- The judgment of the ledger row, and the new occupation.
unfoldable pub replay_result : LedgerOutcome → AdmissionResult → Tx CheckoutOutcome
replay_result LedgerOutcome.rejected r = pure (rejected (stored_rejection r) none)
replay_result _ r = throw (plain "Admission result exists without its order")

unfoldable pub after_prior :
    Env
    → Gateway
    → AdmissionGate
    → PurchaseCommand
    → CreateOrderInput
    → Option AdmissionResult
    → Tx CheckoutOutcome
after_prior env gw gate c input none = do
  occupation ← occupy_through_admission env gw gate c (occupy_order env input)
  pure (of_occupation occupation)
after_prior env gw gate c input (some r) = replay_result r.outcome r

unfoldable pub direct_command : CreateOrderInput → Option AdmissionRef → PurchaseCommand
direct_command input admission =
    purchase_command AdmissionOperation.direct_checkout input.user_id input.event_id input.tier_id
      input.quantity (some input.idempotency_key) admission

unfoldable pub behind_gate :
    Env
    → Gateway
    → AdmissionGate
    → CreateOrderInput
    → Option AdmissionRef
    → Option Order
    → Tx CheckoutOutcome
behind_gate env gw gate input admission (some o) = replay_order o input admission
behind_gate env gw gate input admission none = do
  prior ← own_result gate (direct_command input admission)
  after_prior env gw gate (direct_command input admission) input prior

-- No reservation and no order of this key at the first look: the gate comes first, and the key is
-- looked up again behind its lock.
unfoldable pub checkout_direct :
    Env → Gateway → CreateOrderInput → Option AdmissionRef → Tx CheckoutOutcome
checkout_direct env gw input admission = do
  gate ← open_admission_gate env gw (direct_command input admission)
  existing ← gets (λ d. find order_idempotency_key input.idempotency_key d.orders)
  behind_gate env gw gate input admission existing

unfoldable pub checkout_keyed :
    Env
    → Gateway
    → CreateOrderInput
    → Option AdmissionRef
    → Option Order
    → Option ℕ
    → Tx CheckoutOutcome
checkout_keyed env gw input admission (some o) reservation_id = replay_order o input admission
checkout_keyed env gw input admission none none = checkout_direct env gw input admission
checkout_keyed env gw input admission none (some id) = checkout_reservation env id input admission

unfoldable pub checkout :
    Env → Gateway → CreateOrderInput → Option AdmissionRef → Tx CheckoutOutcome
checkout env gw input admission = do
  keyed ← gets (λ d. find order_idempotency_key input.idempotency_key d.orders)
  checkout_keyed env gw input admission keyed input.reservation_id
