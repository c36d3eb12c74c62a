-- ===== src/Scenario/Purchases.antt =====
-- The theorems on seats, reservations and checkouts at concrete inputs.
use peak_pass.Prelude.{false, ◌≡◌, refl, [], ◌∷◌, none, text_eq, arith}
use peak_pass.Table.{find, update, select, sum}
use peak_pass.Failure.{ok, err, app, text, conflict_error}
use peak_pass.Model.{OrderStatus, CreateOrderInput}
use peak_pass.Orders.{expired_now, expire_pending_order_with_client}
use peak_pass.Checkout.{result, create_order, checkout, same_request}
use peak_pass.Checkout.Orders.{Made, create_order-Made}
use peak_pass.Db.Rules.{Ensures}
use peak_pass.Checkout.Replay.{checkout-same_request, checkout-other_request}
use peak_pass.Scenario.{env_of, no_admission, order_direct, story, empty_db, empty_db-IsBalanced}
use peak_pass.Scenario.Data.{event_with, order_with, ticket_with, held_db, pending_db, paid_db}
use peak_pass.Seats.{IsBalanced}
use peak_pass.Seats.Returns.{expire_pending_order_with_client-due}
use peak_pass.System.{run_all}
use peak_pass.System.Capacity.{run_all-IsBalanced}

run_all-IsBalanced_example : IsBalanced (run_all story empty_db)
run_all-IsBalanced_example = run_all-IsBalanced story empty_db empty_db-IsBalanced

held_db-IsBalanced : IsBalanced held_db
unfolding find sum
held_db-IsBalanced = record {
  events_unique = (refl, tt);
  reservations_unique = (refl, tt);
  orders_unique = tt;
  keys_unique = tt;
  within = (omega arith, tt);
  balance = λ e. ground arith;
}

pub pending_db-IsBalanced : IsBalanced pending_db
unfolding find sum
pending_db-IsBalanced = record {
  events_unique = (refl, tt);
  reservations_unique = tt;
  orders_unique = (refl, tt);
  keys_unique = (refl, tt);
  within = (omega arith, tt);
  balance = λ e. ground arith;
}

expire_pending_order_with_client-due_example :
    expire_pending_order_with_client (env_of 700) 300 pending_db
    ≡ ok (
      (expired_now, order_with OrderStatus.expired),
      record pending_db {
        events = event_with 5 ∷ [];
        orders = order_with OrderStatus.expired ∷ [];
      },
    )
unfolding find update
expire_pending_order_with_client-due_example =
    expire_pending_order_with_client-due (env_of 700) 300 pending_db
      (order_with OrderStatus.pending) (event_with 3) 603000 pending_db-IsBalanced refl refl refl
      (omega arith) refl

-- The request that made the order.
abbrev same_input : CreateOrderInput
same_input = record order_direct { user_id = 1; quantity = 2; idempotency_key = 55 }

checkout-same_request_example :
    checkout (env_of 9) no_admission same_input none paid_db
    ≡ ok (
      result (order_with OrderStatus.paid) (ticket_with 502 ∷ ticket_with 501 ∷ []) none,
      paid_db,
    )
unfolding find select same_request text_eq
checkout-same_request_example =
    checkout-same_request (env_of 9) no_admission same_input paid_db (order_with OrderStatus.paid)
      refl (record { user = refl; event = refl; tier = refl; quantity = refl; reservation = refl })

checkout-other_request_example :
    checkout (env_of 9) no_admission (record same_input { quantity = 1 }) none paid_db
    ≡ err (app (conflict_error (text "Idempotency-Key reused with a different request payload")))
unfolding find same_request text_eq
checkout-other_request_example =
    checkout-other_request (env_of 9) no_admission (record same_input { quantity = 1 }) paid_db
      (order_with OrderStatus.paid) refl none (λ p. omega (arith, p.quantity))

create_order-Made_example :
    Ensures
      (create_order (env_of 9) order_direct false pending_db)
      (λ o after. Made (env_of 9) order_direct o)
create_order-Made_example = create_order-Made (env_of 9) order_direct false pending_db
