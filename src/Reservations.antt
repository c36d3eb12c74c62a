-- ===== src/Reservations.antt =====
-- src/core/services/reservation.service.ts on its transaction's client. The log lines are left out.
use peak_pass.Prelude.{
  ℕ, ◌+◌, ◌*◌, pos, neg, Bool, true, false, ◌&&◌, ltb, Option, none, some, List, [], ◌∷◌, Text,
  text_eq, if◌then◌else◌,
}
use peak_pass.Table.{find, update}
use peak_pass.Failure.{
  app, text, pricing_tier_not_found, not_found_error, conflict_error, validation_error,
}
use peak_pass.Model.{
  EventStatus, PricingTier, Event, ReservationStatus, Reservation, CreateReservationInput,
}
use peak_pass.Db.{Env, Tx, pure, gets, require, modify, check, ◌>>=◌, ◌>>◌}
use peak_pass.Db.Keys.{event_key, reservation_key, is_some}
use peak_pass.Db.Insert.{insert_reservation}
use peak_pass.Inventory.{adjust_available_seats}

-- REDIS_TTL.RESERVATION_HOLD
abbrev pub reservation_ttl_seconds : ℕ
reservation_ttl_seconds = 300

abbrev pub is_published : EventStatus → Bool
is_published EventStatus.published = true
is_published _ = false

abbrev pub is_active : ReservationStatus → Bool
is_active ReservationStatus.active = true
is_active _ = false

-- `status = 'published' AND ends_at > NOW()`
unfoldable pub sale_eligible : Env → Event → Bool
sale_eligible env e = is_published e.status && ltb env.now e.ends_at

-- `pricing.find((tier) => tier.id === tierId)`; `some` asks whether it finds one.
unfoldable pub find_tier : Text → List PricingTier → Option PricingTier
find_tier t [] = none
find_tier t (tier ∷ pricing) = if text_eq tier.id t then some tier else find_tier t pricing

abbrev pub with_status : ReservationStatus → Reservation → Reservation
with_status s r = record r { status = s }

-- UPDATE reservations SET status = … WHERE id = …
unfoldable pub set_reservation_status : ℕ → ReservationStatus → Tx (Unit {0})
set_reservation_status id s =
    modify
      (λ d. record d { reservations = update reservation_key id (with_status s) d.reservations })

unfoldable pub create_reservation_with_client : Env → CreateReservationInput → Tx Reservation
create_reservation_with_client env input = do
  db ← gets (λ d. d)
  event ←
      require (find event_key input.event_id db.events)
        (app (not_found_error "Event" input.event_id))
  check (sale_eligible env event) (app (conflict_error (text "Event is not available for sale")))
  check (is_some (find_tier input.tier_id event.pricing))
      (app (validation_error (pricing_tier_not_found input.tier_id)))
  adjust_available_seats input.event_id (neg input.quantity)
  let reservation : Reservation = record {
    id = env.uuid 0;
    user_id = input.user_id;
    event_id = input.event_id;
    quantity = input.quantity;
    tier_id = input.tier_id;
    expires_at = env.clock + reservation_ttl_seconds * 1000;
    status = ReservationStatus.active;
  }
  insert_reservation reservation
  pure reservation

-- `final` is 'released' or 'expired'.
unfoldable pub return_seats_and_finalize : ℕ → ReservationStatus → Tx (Unit {0})
return_seats_and_finalize id final = do
  db ← gets (λ d. d)
  r ← require (find reservation_key id db.reservations) (app (not_found_error "Reservation" id))
  if is_active r.status
      then (do adjust_available_seats r.event_id (pos r.quantity); set_reservation_status id final)
      else pure tt

unfoldable pub release_reservation_with_client : ℕ → Tx (Unit {0})
release_reservation_with_client id = return_seats_and_finalize id ReservationStatus.released

unfoldable pub expire_reservation_with_client : ℕ → Tx (Unit {0})
expire_reservation_with_client id = return_seats_and_finalize id ReservationStatus.expired

unfoldable pub convert_active : Reservation → Reservation
convert_active r = if is_active r.status then with_status ReservationStatus.converted r else r

-- UPDATE … WHERE id = $1 AND status = 'active'; no command of the program calls it.
unfoldable pub convert_reservation_with_client : ℕ → Tx (Unit {0})
convert_reservation_with_client id =
    modify
      (λ d. record d { reservations = update reservation_key id convert_active d.reservations })

unfoldable pub find_reservation : ℕ → Tx (Option Reservation)
find_reservation id = gets (λ d. find reservation_key id d.reservations)

-- `hold` is what the Redis hold of the reservation holds, if it could be read.
unfoldable pub get_reservation_with_client : Option Reservation → ℕ → Tx (Option Reservation)
get_reservation_with_client (some r) id = pure (some r)
get_reservation_with_client none id = find_reservation id
