-- ===== src/Checkout/Replay.antt =====
-- The idempotent replay of `checkout`.
use peak_pass.Prelude.{
  ℕ, ◌≡◌, refl, ap, true, false, Option, none, some, arith, ==_refl, ==→eq, text_eq_refl,
  text_eq→eq, Bool-cases, inl, inr,
}
use peak_pass.Table.{find, select}
use peak_pass.Failure.{ok, err, app, text, conflict_error}
use peak_pass.Model.{Order, CreateOrderInput}
use peak_pass.Model.Admission.{AdmissionRef}
use peak_pass.Db.{Db, Env, pure, throw, gets, require, modify, check, ◌>>=◌}
use peak_pass.Db.Keys.{order_idempotency_key, option_eq}
use peak_pass.Orders.{of_order, get_tickets_by_order_id}
use peak_pass.Admission.{Gateway, assert_admission_link}
use peak_pass.Checkout.{result, same_request, replay_order, checkout_keyed, checkout}

-- The order is one for this payload.
pub record SamePayload (o : Order) (input : CreateOrderInput) : Type 0 where
  pub user : o.user_id ≡ input.user_id
  pub event : o.event_id ≡ input.event_id
  pub tier : o.tier_id ≡ input.tier_id
  pub quantity : o.quantity ≡ input.quantity
  pub reservation : o.reservation_id ≡ input.reservation_id

option_eq_refl : (a : Option ℕ) → option_eq a a ≡ true
option_eq_refl none = refl
option_eq_refl (some a) = ==_refl a

option_eq→eq : (a b : Option ℕ) → option_eq a b ≡ true → a ≡ b
option_eq→eq none none h = refl
option_eq→eq none (some b) h = absurd (ground arith)
option_eq→eq (some a) none h = absurd (ground arith)
option_eq→eq (some a) (some b) h = ap some (==→eq a b h)

SamePayload→same_request :
    (o : Order) (input : CreateOrderInput) → SamePayload o input → same_request o input ≡ true
unfolding same_request
SamePayload→same_request o input p =
    rw
      (
        p.user,
        p.event,
        p.tier,
        p.quantity,
        p.reservation,
        ==_refl input.user_id,
        ==_refl input.event_id,
        text_eq_refl input.tier_id,
        ==_refl input.quantity,
        option_eq_refl input.reservation_id,
      )
      refl

same_request→SamePayload :
    (o : Order) (input : CreateOrderInput) → same_request o input ≡ true → SamePayload o input
unfolding same_request
same_request→SamePayload o input h = record {
  user = ==→eq o.user_id input.user_id (ground arith);
  event = ==→eq o.event_id input.event_id (ground arith);
  tier = text_eq→eq o.tier_id input.tier_id (ground arith);
  quantity = ==→eq o.quantity input.quantity (ground arith);
  reservation = option_eq→eq o.reservation_id input.reservation_id (ground arith);
}

other_payload :
    (o : Order) (input : CreateOrderInput) → ¬ SamePayload o input → same_request o input ≡ false
other_payload o input other = elim (Bool-cases (same_request o input)) [
  | inl y ↦ absurd (other (same_request→SamePayload o input y))
  | inr n ↦ n
]

module _ (env : Env) (gw : Gateway) (input : CreateOrderInput) (db : Db) (o : Order)
    (found : find order_idempotency_key input.idempotency_key db.orders ≡ some o) where
  -- A checkout without an admission whose key has made an order for the same user, event, tier,
  -- quantity and reservation, if any, answers that order and its tickets, and changes nothing.
  pub checkout-same_request :
      SamePayload o input
      → checkout env gw input none db ≡ ok (result o (select (of_order o.id) db.tickets) none, db)
  unfolding checkout checkout_keyed replay_order get_tickets_by_order_id assert_admission_link pure
      throw gets require modify check ◌>>=◌
  checkout-same_request same =
      rw (found, checkout_keyed, replay_order, SamePayload→same_request o input same) refl

  -- A checkout whose key has made an order that differs in the user, the event, the tier, the quantity
  -- or the reservation is refused, with an admission or without.
  pub checkout-other_request :
      (admission : Option AdmissionRef)
      → ¬ SamePayload o input
      → checkout env gw input admission db
        ≡ err
            (app (conflict_error (text "Idempotency-Key reused with a different request payload")))
  unfolding checkout checkout_keyed replay_order pure throw gets require modify check ◌>>=◌
  checkout-other_request admission other =
      rw (found, checkout_keyed, replay_order, other_payload o input other) refl
