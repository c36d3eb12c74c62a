-- ===== src/Events.antt =====
-- `createEvent` of src/core/services/event.service.ts. What does not bear on the sale (name,
-- description, start) is left out. The id of a tier is the text of a UUID.
use peak_pass.Prelude.{ℕ, suc, List, [], ◌∷◌, ltb, Text}
use peak_pass.Table.{find}
use peak_pass.Failure.{pg, unique_violation, check_violation, events_pkey, events_seats_check}
use peak_pass.Model.{EventStatus, Event, PricingTier}
use peak_pass.Model.Money.{Decimal}
use peak_pass.Db.{Env, Tx, pure, gets, modify, check, ◌>>=◌, ◌>>◌}
use peak_pass.Db.Keys.{event_key, is_none}

pub record CreateEventInput : Type 0 where
  pub ends_at : ℕ
  pub total_seats : ℕ
  pub prices : List Decimal

-- Each tier draws the next UUID.
unfoldable pub pricing_tiers : (ℕ → Text) → Env → ℕ → List Decimal → List PricingTier
pricing_tiers text_of env next [] = []
pricing_tiers text_of env next (p ∷ prices) =
    record { id = text_of (env.uuid next); price = p } ∷ pricing_tiers text_of env (suc next) prices

abbrev pub new_event : (ℕ → Text) → Env → CreateEventInput → Event
new_event text_of env input = record {
  id = env.uuid 0;
  status = EventStatus.published;
  ends_at = input.ends_at;
  total_seats = input.total_seats;
  available_seats = input.total_seats;
  pricing = pricing_tiers text_of env 1 input.prices;
}

unfoldable pub create_event_with_client : (ℕ → Text) → Env → CreateEventInput → Tx Event
create_event_with_client text_of env input = do
  db ← gets (λ d. d)
  check (ltb 0 input.total_seats) (pg (check_violation events_seats_check))
  check (is_none (find event_key (env.uuid 0) db.events)) (pg (unique_violation events_pkey))
  modify (λ d. record d { events = new_event text_of env input ∷ d.events })
  pure (new_event text_of env input)
