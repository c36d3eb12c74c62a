-- ===== src/Inventory/Laws.antt =====
-- What `adjustAvailableSeats` of src/core/services/inventory.service.ts answers on every branch.
use peak_pass.Prelude.{ℕ, ◌+◌, ◌-◌, ◌≤◌, ◌≡◌, pos, neg, leb, some, arith, if◌then◌else◌}
use peak_pass.Table.{find}
use peak_pass.Failure.{
  ok, err, app, pg, check_violation, events_seats_check, insufficient_inventory_error,
}
use peak_pass.Model.{Event}
use peak_pass.Db.{Db, pure, throw, gets, require, modify, check, ◌>>=◌}
use peak_pass.Db.Keys.{event_key}
use peak_pass.Inventory.{set_available, adjust_available_seats}
use peak_pass.Seats.Rules.{available_set}

module _ (k q : ℕ) (db : Db) (event : Event) (found : find event_key k db.events ≡ some event) where
  -- Seats are returned to an event in the table: they go on sale if they fit into its total, and the CHECK on the
  -- seats refuses the transaction otherwise.
  pub adjust_available_seats-pos : adjust_available_seats k (pos q) db ≡ (
      if leb (event.available_seats + q) event.total_seats
      then ok (event.available_seats + q, available_set db event (event.available_seats + q))
      else err (pg (check_violation events_seats_check)))
  unfolding adjust_available_seats set_available pure throw gets require modify check ◌>>=◌
  adjust_available_seats-pos = ground (arith, found)

  -- Seats are taken from an event in the table whose free seats are within its total: as many as are asked for
  -- are gone if so many are free, and the error tells the free and the requested number otherwise.
  pub adjust_available_seats-neg :
      event.available_seats ≤ event.total_seats
      → adjust_available_seats k (neg q) db ≡ (
          if leb q event.available_seats
          then ok (event.available_seats - q, available_set db event (event.available_seats - q))
          else err (app (insufficient_inventory_error event.available_seats q)))
  unfolding adjust_available_seats set_available pure throw gets require modify check ◌>>=◌
  adjust_available_seats-neg within = ground (arith, found)
