-- ===== src/Invariant/Purchases.antt =====
-- The two purchase commands keep what the base operations keep, on every path that commits.
use peak_pass.Prelude.{ℕ, ◌≡◌, refl, ◌&&◌, leb, Option, none, some}
use peak_pass.Table.{find}
use peak_pass.Model.{
  ReservationStatus, Reservation, Order, CreateOrderInput, CreateReservationInput,
}
use peak_pass.Model.Admission.{AdmissionRef, PurchaseCommand, AdmissionResult, LedgerOutcome}
use peak_pass.Db.{Db, Env}
use peak_pass.Db.Rules.{Ensures, Ensures-gets, Ensures-if}
use peak_pass.Db.Keys.{reservation_key}
use peak_pass.Admission.{Gateway, AdmissionGate}
use peak_pass.Checkout
use peak_pass.Checkout.{
  convertible, use_reservation, checkout_reservation, behind_gate, checkout_direct, checkout_keyed,
  checkout, not_converted, convert_and_order, replay_order, same_reservation,
}
use peak_pass.Purchase
use peak_pass.Purchase.{stored_reservation, create_reservation}
use peak_pass.Frame.{
  Preserves-leaves, Preserves, Preserves-bind, Preserves-if, LeavesSales-check, LeavesSales-bind,
  LeavesSales-gets, LeavesSales-pure, LeavesSales-throw,
}
use peak_pass.Frame.Ledger.{
  open_admission_gate-LeavesSales, own_result-LeavesSales, assert_admission_link-LeavesSales,
}
use peak_pass.Frame.Occupation.{occupy_through_admission-Preserves}
use peak_pass.Orders.{get_tickets_by_order_id}
use peak_pass.Reservations.{is_active, expire_reservation_with_client}
use peak_pass.Invariant.{Invariant}

module _ {P : Db → Type 0} (inv : Invariant P) where
  replay_order-Preserves :
      (o : Order) (input : CreateOrderInput) (a : Option AdmissionRef)
      → Preserves P (replay_order o input a)
  unfolding replay_order get_tickets_by_order_id
  replay_order-Preserves o input a = Preserves-leaves inv.stable _ (
      LeavesSales-bind _ _ (LeavesSales-check _ _) λ _.
        LeavesSales-bind _ _ (assert_admission_link-LeavesSales _ _ _)
          λ _. LeavesSales-bind _ _ (LeavesSales-gets _) λ tickets. LeavesSales-pure _)

  not_converted-Preserves :
      (env : Env) (id : ℕ) (input : CreateOrderInput) (found : Option Reservation)
      → Preserves P (not_converted env id input found)
  unfolding not_converted expire_reservation_with_client
  not_converted-Preserves env id input none = Preserves-leaves inv.stable _ (LeavesSales-throw _)
  not_converted-Preserves env id input (some r) =
      Preserves-if (same_reservation r input) _ _
        (Preserves-if (is_active r.status && leb r.expires_at env.now) _ _
          (Preserves-bind _ _ (inv.on_return id ReservationStatus.expired refl)
            λ _. Preserves-leaves inv.stable _ (LeavesSales-pure _))
          (Preserves-leaves inv.stable _ (LeavesSales-throw _)))
        (Preserves-leaves inv.stable _ (LeavesSales-throw _))

  use_reservation-Preserves :
      (env : Env) (id : ℕ) (input : CreateOrderInput) (a : Option AdmissionRef)
      (found : Option Reservation) (db : Db)
      → find reservation_key id db.reservations ≡ found
      → P db
      → Ensures (use_reservation env id input a found db) (λ _ after. P after)
  unfolding use_reservation
  use_reservation-Preserves env id input a none db e b =
      not_converted-Preserves env id input none db b
  use_reservation-Preserves env id input a (some r) db e b =
      Ensures-if (convertible env input r) _ _ db
        (λ fits. inv.on_convert env id input a r db e fits b)
        (λ _. not_converted-Preserves env id input (some r) db b)

  checkout_reservation-Preserves :
      (env : Env) (id : ℕ) (input : CreateOrderInput) (a : Option AdmissionRef)
      → Preserves P (checkout_reservation env id input a)
  unfolding checkout_reservation
  checkout_reservation-Preserves env id input a db b =
      Ensures-gets _ _ _ (use_reservation-Preserves env id input a _ db refl b)

  replay_result-Preserves :
      (outcome : LedgerOutcome) (r : AdmissionResult)
      → Preserves P (Checkout.replay_result outcome r)
  unfolding Checkout.replay_result
  replay_result-Preserves LedgerOutcome.rejected r =
      Preserves-leaves inv.stable _ (LeavesSales-pure _)
  replay_result-Preserves _ r = Preserves-leaves inv.stable _ (LeavesSales-throw _)

  after_prior-Preserves :
      (env : Env) (gw : Gateway) (gate : AdmissionGate) (c : PurchaseCommand)
      (input : CreateOrderInput) (prior : Option AdmissionResult)
      → Preserves P (Checkout.after_prior env gw gate c input prior)
  unfolding Checkout.after_prior
  after_prior-Preserves env gw gate c input none =
      Preserves-bind _ _
        (occupy_through_admission-Preserves inv.stable env gw gate c _ (
          Preserves-bind _ _ (inv.on_order env input)
            λ o. Preserves-leaves inv.stable _ (LeavesSales-pure _)))
        λ occupation. Preserves-leaves inv.stable _ (LeavesSales-pure _)
  after_prior-Preserves env gw gate c input (some r) = replay_result-Preserves r.outcome r

  behind_gate-Preserves :
      (env : Env) (gw : Gateway) (gate : AdmissionGate) (input : CreateOrderInput)
      (a : Option AdmissionRef) (existing : Option Order)
      → Preserves P (behind_gate env gw gate input a existing)
  unfolding behind_gate
  behind_gate-Preserves env gw gate input a (some o) = replay_order-Preserves o input a
  behind_gate-Preserves env gw gate input a none =
      Preserves-bind _ _ (Preserves-leaves inv.stable _ (own_result-LeavesSales gate _))
        λ prior. after_prior-Preserves env gw gate _ input prior

  checkout_keyed-Preserves :
      (env : Env) (gw : Gateway) (input : CreateOrderInput) (a : Option AdmissionRef)
      (keyed : Option Order) (reservation_id : Option ℕ)
      → Preserves P (checkout_keyed env gw input a keyed reservation_id)
  unfolding checkout_keyed checkout_direct
  checkout_keyed-Preserves env gw input a (some o) reservation_id = replay_order-Preserves o input a
  checkout_keyed-Preserves env gw input a none (some id) =
      checkout_reservation-Preserves env id input a
  checkout_keyed-Preserves env gw input a none none =
      Preserves-bind _ _ (Preserves-leaves inv.stable _ (open_admission_gate-LeavesSales env gw _))
        λ gate.
          Preserves-bind _ _ (Preserves-leaves inv.stable _ (LeavesSales-gets _))
            λ existing. behind_gate-Preserves env gw gate input a existing

  -- A checkout, new or replayed, through a reservation, through the admission or neither.
  pub checkout-Preserves :
      (env : Env) (gw : Gateway) (input : CreateOrderInput) (a : Option AdmissionRef)
      → Preserves P (checkout env gw input a)
  unfolding checkout
  checkout-Preserves env gw input a =
      Preserves-bind _ _ (Preserves-leaves inv.stable _ (LeavesSales-gets _))
        λ keyed. checkout_keyed-Preserves env gw input a keyed input.reservation_id

  stored_reservation-Preserves : (id : Option ℕ) → Preserves P (stored_reservation id)
  unfolding stored_reservation
  stored_reservation-Preserves none = Preserves-leaves inv.stable _ (LeavesSales-pure _)
  stored_reservation-Preserves (some id) =
      Preserves-leaves inv.stable _
        (LeavesSales-bind _ _ (LeavesSales-gets _) λ r. LeavesSales-pure _)

  replay_reservation-Preserves :
      (outcome : LedgerOutcome) (r : AdmissionResult)
      → Preserves P (Purchase.replay_result outcome r)
  unfolding Purchase.replay_result
  replay_reservation-Preserves LedgerOutcome.rejected r =
      Preserves-leaves inv.stable _ (LeavesSales-pure _)
  replay_reservation-Preserves _ r = stored_reservation-Preserves r.reservation_id

  after_own-Preserves :
      (env : Env) (gw : Gateway) (gate : AdmissionGate) (c : PurchaseCommand)
      (input : CreateReservationInput) (prior : Option AdmissionResult)
      → Preserves P (Purchase.after_prior env gw gate c input prior)
  unfolding Purchase.after_prior
  after_own-Preserves env gw gate c input none =
      Preserves-bind _ _
        (occupy_through_admission-Preserves inv.stable env gw gate c _ (
          Preserves-bind _ _ (inv.on_reserve env input)
            λ r. Preserves-leaves inv.stable _ (LeavesSales-pure _)))
        λ occupation. Preserves-leaves inv.stable _ (LeavesSales-pure _)
  after_own-Preserves env gw gate c input (some r) = replay_reservation-Preserves r.outcome r

  -- A reservation, new or replayed, through the admission or not.
  pub create_reservation-Preserves :
      (env : Env) (gw : Gateway) (input : CreateReservationInput) (a : Option AdmissionRef)
      → Preserves P (create_reservation env gw input a)
  unfolding create_reservation
  create_reservation-Preserves env gw input a =
      Preserves-bind _ _ (Preserves-leaves inv.stable _ (open_admission_gate-LeavesSales env gw _))
        λ gate.
          Preserves-bind _ _ (Preserves-leaves inv.stable _ (own_result-LeavesSales gate _))
            λ prior. after_own-Preserves env gw gate _ input prior
