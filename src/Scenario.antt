-- ===== src/Scenario.antt =====
-- A sale from its event to its tickets as tests, and the theorems at concrete inputs.
mod Admissions
mod Data
mod Failures
mod Polls
mod Payments
mod Purchases
mod Queries
mod Requests
mod Retries
mod WaitingRooms
use peak_pass.Prelude.{ℕ, ◌+◌, ◌*◌, ◌≡◌, refl, true, none, some, List, [], ◌∷◌, Text, pos}
use peak_pass.Table.{find, sum}
use peak_pass.Failure.{err, app, admission_error}
use peak_pass.Model.{
  Event, EventStatus, CallbackStatus, CreateReservationInput, CreateOrderInput, PaymentWebhookInput,
}
use peak_pass.Db.{Db, Env}
use peak_pass.Db.Keys.{event_key}
use peak_pass.Admission.{Gateway}
use peak_pass.Events.{CreateEventInput}
use peak_pass.Seats.{IsBalanced, held, sold}
use peak_pass.System.{Command, create_event, reserve, buy, settle, run_all}
use peak_pass.System.Capacity.{no_oversell}
use peak_pass.System.Execution.{execute}

-- The UUIDs of the transaction `n` are 100n, 100n + 1, …, and its ticket numbers 10n, 10n + 1, ….
abbrev pub env_of : ℕ → Env
env_of n = record {
  now = 1000 * n;
  clock = 1000 * n;
  uuid = λ i. 100 * n + i;
  nextval = λ i. 10 * n + i;
  year = 2026;
  payment_window_minutes = 10;
  enable_admission = true;
  fresh_epoch = 7;
  rounded = λ n. [];
  unfinished = λ db. record db { events = [] };
}

abbrev pub text_of : ℕ → Text
text_of n = n ∷ []

-- Locks are granted, and Redis admits nobody.
abbrev pub no_admission : Gateway
no_admission = record {
  lock = λ id. none;
  claim = λ c a f. err (app (admission_error "ADMISSION_NOT_READY" 409));
}

abbrev pub empty_db : Db
empty_db = record {
  users = 1 ∷ 2 ∷ [];
  events = [];
  reservations = [];
  orders = [];
  tickets = [];
  payment_records = [];
  callback_keys = [];
  admission_events = [];
  admission_results = [];
}

-- Five seats at 12.5.
abbrev pub sale : CreateEventInput
sale = record {
  ends_at = 9000000;
  total_seats = 5;
  prices = record { coefficient = pos 125; places = 1 } ∷ [];
}

abbrev pub hold : CreateReservationInput
hold = record { event_id = 100; user_id = 1; quantity = 2; tier_id = text_of 101 }

abbrev pub order_held : CreateOrderInput
order_held = record {
  event_id = 100;
  user_id = 1;
  quantity = 2;
  tier_id = text_of 101;
  idempotency_key = 55;
  reservation_id = some 200;
}

abbrev pub order_direct : CreateOrderInput
order_direct = record {
  event_id = 100;
  user_id = 2;
  quantity = 3;
  tier_id = text_of 101;
  idempotency_key = 56;
  reservation_id = none;
}

abbrev pub settled_callback : PaymentWebhookInput
settled_callback = record {
  order_id = 300;
  provider_transaction_id = b't' ∷ [];
  status = CallbackStatus.settled;
}

abbrev pub failed_callback : PaymentWebhookInput
failed_callback = record {
  order_id = 400;
  provider_transaction_id = b'u' ∷ [];
  status = CallbackStatus.failed;
}

-- A reservation of two seats becomes an order and is paid; a direct order of three fails.
abbrev pub story : List Command
story =
    create_event text_of (env_of 1) sale
    ∷ reserve (env_of 2) no_admission hold none
    ∷ buy (env_of 3) no_admission order_held none
    ∷ buy (env_of 4) no_admission order_direct none
    ∷ settle (env_of 5) settled_callback (b'k' ∷ [])
    ∷ settle (env_of 6) failed_callback (b'l' ∷ [])
    ∷ []

abbrev pub sold_event : Event
sold_event = record {
  id = 100;
  status = EventStatus.published;
  ends_at = 9000000;
  total_seats = 5;
  available_seats = 3;
  pricing = record { id = text_of 101; price = record { coefficient = pos 125; places = 1 } } ∷ [];
}

story_event : find event_key 100 (run_all story empty_db).events ≡ some sold_event
unfolding execute
story_event = refl

story_counts : (held 100 (run_all story empty_db) ≡ 0) × (sold 100 (run_all story empty_db) ≡ 2)
unfolding execute
story_counts = (refl, refl)

pub empty_db-IsBalanced : IsBalanced empty_db
unfolding sum
empty_db-IsBalanced = record {
  events_unique = tt;
  reservations_unique = tt;
  orders_unique = tt;
  keys_unique = tt;
  within = tt;
  balance = λ e. refl;
}

no_oversell_example :
    sold_event.available_seats
      + held 100 (run_all story empty_db)
      + sold 100 (run_all story empty_db)
    ≡ sold_event.total_seats
no_oversell_example = no_oversell story empty_db 100 sold_event empty_db-IsBalanced story_event
