-- ===== src/Frame/Payments.antt =====
-- The records of payments and of callbacks are kept apart from the sales.
use peak_pass.Prelude.{ℕ, refl, Bool, Option, none, some, Text, List, ◌==◌, not, ◌&&◌, ◌||◌}
use peak_pass.Model.{CallbackStatus, CallbackKey, PaymentRecord}
use peak_pass.Db.{Db, Env}
use peak_pass.Payment.{
  callback_conflict, reserve_against, reserve_callback_key, insert_new_record, keep_record,
  provider_reused, record_payment, insert_payment_record, same_callback, is_settled,
}
use peak_pass.Checkout.{insert_pending_record}
use peak_pass.Frame.{
  SameSales, LeavesSales, LeavesSales-bind, LeavesSales-gets, LeavesSales-check, LeavesSales-modify,
  LeavesSales-pure, LeavesSales-if, LeavesSales-throw,
}

-- A write of the payment records alone.
same_records :
    (d : Db) {records : List PaymentRecord} → SameSales d (record d { payment_records = records })
same_records d = record { events = refl; reservations = refl; orders = refl; tickets = refl }

reserve_against-LeavesSales :
    (found : Option CallbackKey) (order_id : ℕ) (provider : Text) (status : CallbackStatus)
    (key : Text)
    → LeavesSales (reserve_against found order_id provider status key)
unfolding reserve_against callback_conflict
reserve_against-LeavesSales none order_id provider status key =
    LeavesSales-bind _ _ (LeavesSales-check _ _) λ _.
      LeavesSales-modify _
        (λ d. record { events = refl; reservations = refl; orders = refl; tickets = refl })
reserve_against-LeavesSales (some k) order_id provider status key =
    LeavesSales-if (same_callback order_id provider status k) _ _ (LeavesSales-pure _)
      (LeavesSales-bind _ _ (LeavesSales-check _ _) λ _. LeavesSales-throw _)

pub reserve_callback_key-LeavesSales :
    (order_id : ℕ) (provider : Text) (status : CallbackStatus) (key : Text)
    → LeavesSales (reserve_callback_key order_id provider status key)
unfolding reserve_callback_key
reserve_callback_key-LeavesSales order_id provider status key =
    LeavesSales-bind _ _ (LeavesSales-gets _)
      λ found. reserve_against-LeavesSales found order_id provider status key

insert_new_record-LeavesSales :
    (env : Env) (order_id : ℕ) (status : CallbackStatus) (provider key : Text) (r : Bool)
    → LeavesSales (insert_new_record env order_id status provider key r)
unfolding insert_new_record
insert_new_record-LeavesSales env order_id status provider key r =
    LeavesSales-bind _ _ (LeavesSales-gets _) λ db.
      LeavesSales-bind _ _ (LeavesSales-check _ _) λ _.
        LeavesSales-bind _ _ (LeavesSales-check _ _) λ _.
          LeavesSales-bind _ _ (LeavesSales-check _ _) λ _.
            LeavesSales-bind _ _ (LeavesSales-check _ _) λ _.
              LeavesSales-bind _ _ (LeavesSales-modify _ (λ d. same_records d))
                λ _. LeavesSales-pure _

keep_record-LeavesSales :
    (order_id : ℕ) (r : Bool) (row : PaymentRecord) → LeavesSales (keep_record order_id r row)
unfolding keep_record provider_reused
keep_record-LeavesSales order_id r row =
    LeavesSales-if (row.order_id == order_id) _ _
      (LeavesSales-if (r && (not (is_settled row.status) || not row.reconciliation_required)) _ _
        (LeavesSales-bind _ _ (LeavesSales-modify _ (λ d. same_records d)) λ _. LeavesSales-pure _)
        (LeavesSales-pure _))
      (LeavesSales-throw _)

record_payment-LeavesSales :
    (found : Option PaymentRecord) (env : Env) (order_id : ℕ) (status : CallbackStatus)
    (provider key : Text) (r : Bool)
    → LeavesSales (record_payment found env order_id status provider key r)
unfolding record_payment
record_payment-LeavesSales none env order_id status provider key r =
    insert_new_record-LeavesSales env order_id status provider key r
record_payment-LeavesSales (some row) env order_id status provider key r =
    keep_record-LeavesSales order_id r row

pub insert_payment_record-LeavesSales :
    (env : Env) (order_id : ℕ) (status : CallbackStatus) (provider key : Text) (r : Bool)
    → LeavesSales (insert_payment_record env order_id status provider key r)
unfolding insert_payment_record
insert_payment_record-LeavesSales env order_id status provider key r =
    LeavesSales-bind _ _ (LeavesSales-check _ _) λ _.
      LeavesSales-bind _ _ (LeavesSales-gets _)
        λ found. record_payment-LeavesSales found env order_id status provider key r

pub insert_pending_record-LeavesSales :
    (env : Env) (order_id key : ℕ) → LeavesSales (insert_pending_record env order_id key)
unfolding insert_pending_record
insert_pending_record-LeavesSales env order_id key = LeavesSales-bind _ _ (LeavesSales-gets _) λ db.
    LeavesSales-bind _ _ (LeavesSales-check _ _) λ _.
      LeavesSales-bind _ _ (LeavesSales-check _ _) λ _. LeavesSales-modify _ (λ d. same_records d)
