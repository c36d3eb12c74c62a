-- ===== src/Invariant/Sales.antt =====
-- A property of the orders and the tickets alone is kept by every base operation, once the changes of
-- an order keep it.
use peak_pass.Prelude.{ℕ, ◌≡◌, refl, Text, Bool, true, false, Option, none, some, List, leb}
use peak_pass.Table.{find}
use peak_pass.Model.{
  ReservationStatus, OrderStatus, Order, CreateReservationInput, CreateOrderInput,
}
use peak_pass.Model.Admission.{AdmissionRef}
use peak_pass.Db.{Db, Env}
use peak_pass.Db.Rules.{
  Ensures, Ensures-gets, Ensures-require, Ensures-check, Ensures-modify, Ensures-pure, Ensures-then,
  Ensures-modified, Ensures-if,
}
use peak_pass.Db.Keys.{order_key}
use peak_pass.Events.{CreateEventInput, create_event_with_client}
use peak_pass.Reservations.{
  is_active, set_reservation_status, create_reservation_with_client, return_seats_and_finalize,
}
use peak_pass.Orders.{
  with_order_status, set_order_status, expire_at, expire_by_status,
  expire_pending_order_with_client,
}
use peak_pass.Checkout.{new_order, take_seats, create_order, convert_and_order}
use peak_pass.Frame.{Preserves, Preserves-leaves, LeavesSales-bind, LeavesSales-pure}
use peak_pass.Frame.Payments.{insert_pending_record-LeavesSales}
use peak_pass.Frame.Ledger.{assert_admission_link-LeavesSales}
use peak_pass.Seats.Rules.{
  Ensures-take, Ensures-give, Ensures-insert_reservation, Ensures-insert_order,
}
use peak_pass.Model.{Ticket, PaymentWebhookInput}
use peak_pass.Db.Rules.{Ensures-require_last}
use peak_pass.Orders.{with_order_status}
use peak_pass.Payment.Webhook.{settle_open, fail_open, cancel_order}
use peak_pass.Table.{update}
use peak_pass.Prelude.{◌∷◌}
use peak_pass.Frame.{IsStable, Ensures-leaves}
use peak_pass.Frame.Payments.{insert_payment_record-LeavesSales}
use peak_pass.Invariant.{Invariant, is_open}

-- An order that ended without being paid.
abbrev pub is_void : OrderStatus → Bool
is_void OrderStatus.cancelled = true
is_void OrderStatus.expired = true
is_void _ = false

-- What a new order, the end of an open order and its settlement must keep.
pub record KeptByOrders (Q : List Order → List Ticket → Type 0) : Type 0 where
  pub on_add :
      (o : Order) (orders : List Order) (tickets : List Ticket)
      → find order_key o.id orders ≡ none
      → o.status ≡ OrderStatus.pending
      → Q orders tickets
      → Q (o ∷ orders) tickets
  pub on_close :
      (k : ℕ) (s : OrderStatus) (o : Order) (orders : List Order) (tickets : List Ticket)
      → find order_key k orders ≡ some o
      → is_open o.status ≡ true
      → is_void s ≡ true
      → Q orders tickets
      → Q (update order_key k (with_order_status s) orders) tickets
  pub on_settle :
      (env : Env) (o : Order) (input : PaymentWebhookInput) (key : Text) (db : Db)
      → find order_key o.id db.orders ≡ some o
      → is_open o.status ≡ true
      → Q db.orders db.tickets
      → Ensures (settle_open env o input key db) (λ _ after. Q after.orders after.tickets)

module _ {Q : List Order → List Ticket → Type 0} (keep : KeptByOrders Q) where
  abbrev Sales : Db → Type 0
  Sales db = Q db.orders db.tickets

  Sales-IsStable : IsStable Sales
  Sales-IsStable db after same h = rw (same.orders, same.tickets) h

  create_event-Sales :
      (text_of : ℕ → Text) (env : Env) (input : CreateEventInput)
      → Preserves Sales (create_event_with_client text_of env input)
  unfolding create_event_with_client
  create_event-Sales text_of env input db i = Ensures-gets _ _ _ (
      Ensures-check _ _ _ _
        λ _. Ensures-check _ _ _ _ λ _. Ensures-modify _ _ _ (Ensures-pure _ _ i))

  create_reservation_with_client-Sales :
      (env : Env) (input : CreateReservationInput)
      → Preserves Sales (create_reservation_with_client env input)
  unfolding create_reservation_with_client
  create_reservation_with_client-Sales env input db i = Ensures-gets _ _ _ (
      Ensures-require _ _ _ _ λ event _. Ensures-check _ _ _ _ λ _. Ensures-check _ _ _ _ λ _.
        Ensures-take _ _ _ _
          λ event' n found exact room. Ensures-insert_reservation _ _ _ λ fresh. Ensures-pure _ _ i)

  return_seats_and_finalize-Sales :
      (id : ℕ) (final : ReservationStatus) → Preserves Sales (return_seats_and_finalize id final)
  unfolding return_seats_and_finalize set_reservation_status
  return_seats_and_finalize-Sales id final db i = Ensures-gets _ _ _ (
      Ensures-require _ _ _ _ λ r found.
        Ensures-if (is_active r.status) _ _ db
          (λ _. Ensures-give _ _ _ _ λ event n at exact room. Ensures-modified _ _ i)
          (λ _. Ensures-pure _ _ i))

  expire_at-Sales :
      (env : Env) (id : ℕ) (o : Order) (db : Db)
      → find order_key id db.orders ≡ some o
      → o.status ≡ OrderStatus.pending
      → Sales db
      → (deadline : Option ℕ) → Ensures (expire_at env id o deadline db) (λ _ after. Sales after)
  unfolding expire_at set_order_status
  expire_at-Sales env id o db found is_pending i none = Ensures-pure _ _ i
  expire_at-Sales env id o db found is_pending i (some deadline) =
      Ensures-if (leb deadline env.now) _ _ db
        (λ _. Ensures-give _ _ _ _ λ event n at exact room. Ensures-modify _ _ _ (
          Ensures-gets _ _ _ (
            Ensures-require _ _ _ _ λ after _.
              Ensures-pure _ _
                (keep.on_close id OrderStatus.expired o _ _ found (rw is_pending refl) refl i))))
        (λ _. Ensures-pure _ _ i)

  expire_by_status-Sales :
      (env : Env) (id : ℕ) (status : OrderStatus) (o : Order) (db : Db)
      → find order_key id db.orders ≡ some o
      → o.status ≡ status
      → Sales db
      → Ensures (expire_by_status env id status o db) (λ _ after. Sales after)
  unfolding expire_by_status
  expire_by_status-Sales env id OrderStatus.pending o db found e i =
      expire_at-Sales env id o db found e i o.payment_deadline_at
  expire_by_status-Sales env id _ o db found e i = Ensures-pure _ _ i

  expire_pending_order_with_client-Sales :
      (env : Env) (id : ℕ) → Preserves Sales (expire_pending_order_with_client env id)
  unfolding expire_pending_order_with_client
  expire_pending_order_with_client-Sales env id db i =
      Ensures-gets _ _ _ (
        Ensures-require _ _ _ _ λ o found. expire_by_status-Sales env id o.status o db found refl i)

  take_seats-Sales :
      (held : Bool) (input : CreateOrderInput) → Preserves Sales (take_seats held input)
  unfolding take_seats
  take_seats-Sales true input db i = Ensures-pure _ _ i
  take_seats-Sales false input db i =
      Ensures-take _ _ _ _ λ event n found exact room. Ensures-pure _ _ i

  create_order-Sales :
      (env : Env) (input : CreateOrderInput) (held : Bool)
      → Preserves Sales (create_order env input held)
  unfolding create_order
  create_order-Sales env input held db i = Ensures-gets _ _ _ (
      Ensures-require _ _ _ _ λ event _. Ensures-check _ _ _ _ λ _.
        Ensures-require _ _ _ _ λ tier _. Ensures-require _ _ _ _ λ unit_price _.
          Ensures-check _ _ _ _ λ _. Ensures-insert_order _ _ _ λ fresh fresh_key.
            Ensures-then _ _ _
              (take_seats-Sales held input _
                (keep.on_add (new_order env input unit_price) _ _ fresh refl i))
              λ _ mid kept.
                Preserves-leaves Sales-IsStable _
                  (LeavesSales-bind _ _ (insert_pending_record-LeavesSales _ _ _)
                    λ _. LeavesSales-pure _)
                  mid kept)

  convert_and_order-Sales :
      (env : Env) (id : ℕ) (input : CreateOrderInput) (a : Option AdmissionRef)
      → Preserves Sales (convert_and_order env id input a)
  unfolding convert_and_order
  convert_and_order-Sales env id input a db i = Ensures-modify _ _ _ (
      Ensures-then _ _ _
        (Preserves-leaves Sales-IsStable _ (assert_admission_link-LeavesSales a none (some id)) _ i)
        λ _ mid kept.
          Ensures-then _ _ _ (create_order-Sales env input true mid kept)
            λ o after kept'. Ensures-pure _ _ kept')

  fail_open-Sales :
      (env : Env) (o : Order) (input : PaymentWebhookInput) (key : Text) (db : Db)
      → find order_key o.id db.orders ≡ some o
      → is_open o.status ≡ true
      → Sales db
      → Ensures (fail_open env o input key db) (λ _ after. Sales after)
  unfolding fail_open cancel_order set_order_status
  fail_open-Sales env o input key db found unsettled i =
      Ensures-leaves _ _ _ (insert_payment_record-LeavesSales _ _ _ _ _ _) λ recorded mid same.
        Ensures-give _ _ _ _ λ event n at exact room.
          Ensures-then _ _ _
            (Ensures-modify _ _ _ (
              Ensures-gets _ _ _ (
                Ensures-require_last _ _ _ λ row _.
                  keep.on_close o.id OrderStatus.cancelled o _ _ (rw same.orders found) unsettled
                    refl (Sales-IsStable db mid same i))))
            λ cancelled_order after kept. Ensures-pure _ _ kept

  pub Sales-Invariant : Invariant Sales
  Sales-Invariant = record {
    stable = Sales-IsStable;
    on_event = create_event-Sales;
    on_reserve = create_reservation_with_client-Sales;
    on_return = λ id final closed. return_seats_and_finalize-Sales id final;
    on_expire = expire_pending_order_with_client-Sales;
    on_order = λ env input. create_order-Sales env input false;
    on_convert = λ env id input a r db found fits. convert_and_order-Sales env id input a db;
    on_settle = keep.on_settle;
    on_fail = fail_open-Sales;
  }
