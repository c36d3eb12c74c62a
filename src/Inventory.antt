-- ===== src/Inventory.antt =====
-- src/core/services/inventory.service.ts: the one place that changes `available_seats`. The row lock
-- has no counterpart, since the statements of one transaction run here with no other between them.
pub mod Laws
use peak_pass.Prelude.{ℕ, ℤ, pos, negsuc, is_negative, abs, ◌+ℤ◌, not, ◌&&◌, leb}
use peak_pass.Table.{find, update}
use peak_pass.Failure.{
  app, pg, check_violation, events_seats_check, not_found_error, insufficient_inventory_error,
}
use peak_pass.Model.{Event}
use peak_pass.Db.{Tx, pure, throw, gets, require, modify, check, ◌>>=◌, ◌>>◌}
use peak_pass.Db.Keys.{event_key}

abbrev pub with_available : ℕ → Event → Event
with_available n e = record e { available_seats = n }

-- UPDATE events SET available_seats = next WHERE id = …, under the CHECKs of migrations 001 and 007.
unfoldable pub set_available : Event → ℤ → Tx ℕ
set_available event (negsuc n) = throw (pg (check_violation events_seats_check))
set_available event (pos n) = do
  check (leb n event.total_seats) (pg (check_violation events_seats_check))
  modify (λ d. record d { events = update event_key event.id (with_available n) d.events })
  pure n

unfoldable pub adjust_available_seats : ℕ → ℤ → Tx ℕ
unfolding set_available
adjust_available_seats event_id delta = do
  db ← gets (λ d. d)
  event ← require (find event_key event_id db.events) (app (not_found_error "Event" event_id))
  let next = pos event.available_seats +ℤ delta
  check (not (is_negative delta && is_negative next))
      (app (insufficient_inventory_error event.available_seats (abs delta)))
  set_available event next
