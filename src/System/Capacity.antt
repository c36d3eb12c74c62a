-- ===== src/System/Capacity.antt =====
-- No sequence of transactions sells a seat twice.
use peak_pass.Prelude.{
  true, ℕ, ◌+◌, ◌≡◌, refl, false, none, some, List, [], ◌∷◌, ◌==◌, ==→eq, Bool-cases, ==_refl, ap,
  ◌∙◌, arith, if◌then◌else◌, inl, inr, Text,
}
use peak_pass.Table.{find, sum, Unique}
use peak_pass.Table.Laws.{key-find}
use peak_pass.Model.{OrderStatus, Event}
use peak_pass.Db.{Db, Env}
use peak_pass.Db.Rules.{Ensures-gets, Ensures-check, Ensures-modify, Ensures-pure}
use peak_pass.Db.Keys.{event_key}
use peak_pass.Events.{CreateEventInput, create_event_with_client}
use peak_pass.Seats.{IsBalanced, occupies, free, held, sold, capacity, free_weight, capacity_weight}
use peak_pass.Invariant.{Invariant, is_open}
use peak_pass.Invariant.Histories.{run_all-Preserves}
use peak_pass.Seats.Sales.{Balanced-IsStable, create_order-IsBalanced, convert_and_order-Keeps}
use peak_pass.Seats.Services.{
  Keeps, create_reservation_with_client-Keeps, return_seats_and_finalize-Keeps,
  expire_pending_order_with_client-Keeps,
}
use peak_pass.Seats.Webhooks.{settle_open-IsBalanced, fail_open-IsBalanced}
use peak_pass.Seats.Rules.{is_none→eq}
use peak_pass.System.{Command, run_all}

-- A new event has all its seats free.
create_event-Keeps :
    (text_of : ℕ → Text) (env : Env) (input : CreateEventInput)
    → Keeps (create_event_with_client text_of env input)
unfolding create_event_with_client sum
create_event-Keeps text_of env input db b = Ensures-gets _ _ _ (
    Ensures-check _ _ _ _ λ _. Ensures-check _ _ _ _ λ fresh. Ensures-modify _ _ _ (
      Ensures-pure _ _ (record {
        events_unique = (is_none→eq _ fresh, b.events_unique);
        reservations_unique = b.reservations_unique;
        orders_unique = b.orders_unique;
        keys_unique = b.keys_unique;
        within = (omega arith, b.within);
        balance = λ e. omega (arith, b.balance e);
      })))

is_open-occupies : (s : OrderStatus) → is_open s ≡ true → occupies s ≡ true
is_open-occupies OrderStatus.pending h = refl
is_open-occupies OrderStatus.delivered h = refl
is_open-occupies _ h = cc

pub seats_invariant : Invariant IsBalanced
seats_invariant = record {
  stable = Balanced-IsStable;
  on_event = create_event-Keeps;
  on_reserve = create_reservation_with_client-Keeps;
  on_return = return_seats_and_finalize-Keeps;
  on_expire = expire_pending_order_with_client-Keeps;
  on_order = λ env input db b. create_order-IsBalanced env input false db b;
  on_convert = convert_and_order-Keeps;
  on_settle = λ env o input key db found unsettled b.
      settle_open-IsBalanced env o input key db found (is_open-occupies o.status unsettled) b;
  on_fail = λ env o input key db found unsettled b.
      fail_open-IsBalanced env o input key db found (is_open-occupies o.status unsettled) b;
}

-- Any sequence of transactions keeps the account of the seats: the ids of events, reservations and
-- orders and the keys of orders stay unique, no event has more free seats than its total, and the
-- free, held and sold seats of every event add up to its total.
pub run_all-IsBalanced : (cs : List Command) (db : Db) → IsBalanced db → IsBalanced (run_all cs db)
run_all-IsBalanced cs db b = run_all-Preserves seats_invariant cs db b

sum_absent :
    (w : Event → ℕ) (e : ℕ) (rows : List Event)
    → ((r : Event) → (r.id == e) ≡ false → w r ≡ 0)
    → find event_key e rows ≡ none
    → sum w rows ≡ 0
unfolding find sum
sum_absent w e [] zero h = refl
sum_absent w e (r ∷ rows) zero h = elim (Bool-cases (r.id == e)) [
  | inl y ↦ ground arith
  | inr n ↦ ground (arith, zero r n, sum_absent w e rows zero)
]

-- With a unique key the sum over the events of one id is that of its one row.
sum_at :
    (w : Event → ℕ) (e : ℕ) (rows : List Event) (event : Event)
    → ((r : Event) → (r.id == e) ≡ false → w r ≡ 0)
    → Unique event_key rows
    → find event_key e rows ≡ some event
    → sum w rows ≡ w event
unfolding find sum
sum_at w e [] event zero u h = cc
sum_at w e (r ∷ rows) event zero u h = elim (Bool-cases (r.id == e)) [
  | inl y ↦
      (let same : r ≡ event = ground arith in
        let absent : find event_key e rows ≡ none = rw (← ==→eq r.id e y) u.0 in
        ground (arith, same, ap w same, sum_absent w e rows zero absent))
  | inr n ↦ ground (arith, zero r n, sum_at w e rows event zero u.1)
]

module _ (db : Db) (e : ℕ) (event : Event) (b : IsBalanced db)
    (found : find event_key e db.events ≡ some event) where
  weight_at : (n : ℕ) → (if event.id == e then n else 0) ≡ n
  weight_at n = rw (key-find event_key e db.events found, ==_refl e)

  free_at : free e db ≡ event.available_seats
  free_at =
      sum_at (free_weight e) e db.events event (λ r n. rw n) b.events_unique found
      ∙ weight_at event.available_seats

  capacity_at : capacity e db ≡ event.total_seats
  capacity_at =
      sum_at (capacity_weight e) e db.events event (λ r n. rw n) b.events_unique found
      ∙ weight_at event.total_seats

-- In a database whose account balances, an event's seats are on sale, held or occupied, each once.
pub IsBalanced-at :
    (db : Db) (e : ℕ) (event : Event)
    → IsBalanced db
    → find event_key e db.events ≡ some event
    → event.available_seats + held e db + sold e db ≡ event.total_seats
IsBalanced-at db e event b found =
    omega (arith, b.balance e, free_at db e event b found, capacity_at db e event b found)

-- No oversell: after any sequence of transactions from a database whose account balances, the seats
-- on sale, those held by active reservations and those of pending, paid and delivered orders add up
-- to the total of each event.
pub no_oversell :
    (cs : List Command) (db : Db) (e : ℕ) (event : Event)
    → IsBalanced db
    → find event_key e (run_all cs db).events ≡ some event
    → event.available_seats + held e (run_all cs db) + sold e (run_all cs db) ≡ event.total_seats
no_oversell cs db e event b found =
    IsBalanced-at (run_all cs db) e event (run_all-IsBalanced cs db b) found
