-- ===== src/Orders/Closed.antt =====
-- An order that is paid, cancelled or expired never changes again.
use peak_pass.Prelude.{
  ℕ, zero, suc, ◌≡◌, refl, ap, Text, true, false, none, some, List, ◌∷◌, ◌==◌, ==→eq, Bool-cases,
  inl, inr, arith,
}
use peak_pass.Table.{find, update, select}
use peak_pass.Table.Laws.{find-update}
use peak_pass.Model.{Order, PaymentWebhookInput}
use peak_pass.Db.{Db, Env}
use peak_pass.Db.Rules.{
  Ensures, Ensures-gets, Ensures-require, Ensures-check, Ensures-modify, Ensures-pure, Ensures-then,
  Ensures-modified, Ensures-if,
}
use peak_pass.Db.Keys.{order_key}
use peak_pass.Db.Insert.{insert_ticket}
use peak_pass.Orders.{with_order_status, of_order, get_tickets_by_order_id}
use peak_pass.Payment.Webhook.{
  paid_at_now, mark_order_as_paid, issue_loop, is_empty, issue_tickets_for_order, settle_open,
}
use peak_pass.Frame.{IsStable, Preserves, Ensures-leaves}
use peak_pass.Frame.Payments.{insert_payment_record-LeavesSales}
use peak_pass.Invariant.{is_open}
use peak_pass.Invariant.Sales.{KeptByOrders, Sales-Invariant}
use peak_pass.Invariant.Histories.{run_all-Preserves}
use peak_pass.System.{Command, run_all}

-- The row of the order `id` is `o`.
abbrev Stays : ℕ → Order → List Order → Type 0
Stays id o orders = find order_key id orders ≡ some o

module _ (id : ℕ) (o : Order) (closed : is_open o.status ≡ false) where
  -- An UPDATE of an open order is one of another row.
  update-Stays :
      (k : ℕ) (f : Order → Order) (other : Order) (orders : List Order)
      → ((x : Order) → (f x).id ≡ x.id)
      → find order_key k orders ≡ some other
      → is_open other.status ≡ true
      → Stays id o orders
      → find order_key id (update order_key k f orders) ≡ some o
  update-Stays k f other orders keeps found unsettled h = elim (Bool-cases (id == k)) [
    | inl y ↦
        (let same : id ≡ k = ==→eq id k y in
          let at : find order_key k orders ≡ some o = rw (← same) h in
          let row : other ≡ o = cc in
          absurd (ground (arith, closed, unsettled, ap (λ (r : Order). is_open r.status) row)))
    | inr ne ↦ rw (find-update order_key k id f orders keeps, ne) h
  ]

  new-Stays :
      (row : Order) (orders : List Order)
      → find order_key row.id orders ≡ none
      → Stays id o orders
      → find order_key id (row ∷ orders) ≡ some o
  unfolding find
  new-Stays row orders fresh h = elim (Bool-cases (row.id == id)) [
    | inl y ↦
        (let same : row.id ≡ id = ==→eq row.id id y in
          let at : find order_key id orders ≡ none = rw (← same) fresh in absurd (cc))
    | inr ne ↦ rw (ne) h
  ]

  -- A step of a settlement that leaves the orders alone.
  abbrev StaysIn : Db → Type 0
  StaysIn db = Stays id o db.orders

  StaysIn-IsStable : IsStable StaysIn
  StaysIn-IsStable db after same h = rw (same.orders) h

  issue_loop-Stays :
      (env : Env) (row : Order) (index left : ℕ) → Preserves StaysIn (issue_loop env row index left)
  unfolding issue_loop insert_ticket
  issue_loop-Stays env row index zero db h = Ensures-pure _ _ h
  issue_loop-Stays env row index (suc left) db h =
      Ensures-then _ _ _
        (Ensures-gets _ _ _ (
          Ensures-check _ _ _ _
            λ _. Ensures-check _ _ _ _ λ _. Ensures-modified {Q = λ _ after. StaysIn after} _ _ h))
        λ _ mid h'.
          Ensures-then _ _ _ (issue_loop-Stays env row (suc index) left mid h')
            λ rest after h''. Ensures-pure _ _ h''

  issue_tickets_for_order-Stays :
      (env : Env) (row : Order) → Preserves StaysIn (issue_tickets_for_order env row)
  unfolding issue_tickets_for_order get_tickets_by_order_id
  issue_tickets_for_order-Stays env row db h = Ensures-gets _ _ _ (
      Ensures-if (is_empty (select (of_order row.id) db.tickets)) _ _ db
        (λ _. issue_loop-Stays env row 0 row.quantity db h) (λ _. Ensures-pure _ _ h))

  settle_open-Stays :
      (env : Env) (other : Order) (input : PaymentWebhookInput) (key : Text) (db : Db)
      → find order_key other.id db.orders ≡ some other
      → is_open other.status ≡ true
      → StaysIn db
      → Ensures (settle_open env other input key db) (λ _ after. StaysIn after)
  unfolding settle_open mark_order_as_paid get_tickets_by_order_id
  settle_open-Stays env other input key db found unsettled h =
      Ensures-leaves _ _ _ (insert_payment_record-LeavesSales _ _ _ _ _ _) λ recorded mid same.
        Ensures-then _ _ _
          (Ensures-modify _ _ _ (
            Ensures-gets _ _ _ (
              Ensures-require _ _ _ _ λ row _. Ensures-pure {Q = λ _ after. StaysIn after} _ _ (
                update-Stays other.id (paid_at_now env) other mid.orders (λ x. refl)
                  (rw same.orders found) unsettled (rw same.orders h)))))
          λ paid_order mid' h'. Ensures-gets _ _ _ (
            Ensures-then _ _ _
              (Ensures-if (is_empty (select (of_order other.id) mid'.tickets)) _ _ mid'
                (λ _. issue_tickets_for_order-Stays env paid_order mid' h')
                (λ _. Ensures-pure _ _ h'))
              λ tickets after h''. Ensures-pure _ _ h'')

  closed_kept : KeptByOrders (λ orders tickets. Stays id o orders)
  closed_kept = record {
    on_add = λ row orders tickets fresh is_pending h. new-Stays row orders fresh h;
    on_close = λ k s other orders tickets found unsettled ends h.
        update-Stays k (with_order_status s) other orders (λ x. refl) found unsettled h;
    on_settle = settle_open-Stays;
  }

-- An order that is paid, cancelled or expired has the same row after any sequence of transactions:
-- no callback, expiration or purchase changes its status, amounts or times again.
pub closed_order_stays :
    (cs : List Command) (db : Db) (id : ℕ) (o : Order)
    → is_open o.status ≡ false
    → find order_key id db.orders ≡ some o
    → find order_key id (run_all cs db).orders ≡ some o
closed_order_stays cs db id o closed found =
    run_all-Preserves (Sales-Invariant (closed_kept id o closed)) cs db found
