-- ===== src/Checkout/Orders.antt =====
-- The order that `createOrder` of src/core/services/checkout.service.ts makes.
use peak_pass.Prelude.{◌+◌, ◌*◌, ◌≤◌, ◌≡◌, refl, Bool, some, none, leb→le}
use peak_pass.Model.{OrderStatus, Order, CreateOrderInput}
use peak_pass.Model.Money.{max_money_amount, parse_unit_price_bounds}
use peak_pass.Db.{Db, Env}
use peak_pass.Db.Rules.{
  Ensures, Ensures-gets, Ensures-require, Ensures-check, Ensures-pure, Ensures-then,
}
use peak_pass.Checkout.{create_order}
use peak_pass.Seats.Rules.{Ensures-insert_order}

-- An order as it is made: pending, at a price within the bounds of a price, with the total of its
-- seats within the range of the column, and with the deadline of its payment.
pub record Made (env : Env) (input : CreateOrderInput) (o : Order) : Type 0 where
  pub is_pending : o.status ≡ OrderStatus.pending
  pub quantity : o.quantity ≡ input.quantity
  pub price : 1 ≤ o.unit_price
  pub total : o.total_amount ≡ o.unit_price * o.quantity
  pub in_range : o.total_amount ≤ max_money_amount
  pub deadline : o.payment_deadline_at ≡ some (env.now + env.payment_window_minutes * 60000)
  pub unpaid : o.paid_at ≡ none

-- An order that the checkout makes is pending and unpaid, has the quantity that was asked for, a
-- price of at least one hundredth, the total of its seats within the range of the column, and its
-- payment's deadline one payment window after the transaction's time.
pub create_order-Made :
    (env : Env) (input : CreateOrderInput) (held : Bool) (db : Db)
    → Ensures (create_order env input held db) (λ o after. Made env input o)
unfolding create_order
create_order-Made env input held db = Ensures-gets _ _ _ (
    Ensures-require _ _ _ _ λ event _. Ensures-check _ _ _ _ λ _. Ensures-require _ _ _ _ λ tier _.
      Ensures-require _ _ _ _ λ unit_price priced. Ensures-check _ _ _ _ λ fits.
        Ensures-insert_order _ _ _ λ fresh fresh_key.
          Ensures-then {P = λ _ _. Unit {0}} _ _ _ (record { at = λ _ _ _. tt })
            λ _ mid _.
              Ensures-then {P = λ _ _. Unit {0}} _ _ _ (record { at = λ _ _ _. tt })
                λ _ after _. Ensures-pure _ _ (record {
                  is_pending = refl;
                  quantity = refl;
                  price = (parse_unit_price_bounds _ priced).0;
                  total = refl;
                  in_range = leb→le (unit_price * input.quantity) max_money_amount fits;
                  deadline = refl;
                  unpaid = refl;
                }))
