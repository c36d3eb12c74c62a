-- ===== src/Polling/Resuming.antt =====
-- The polling of src/frontend/admission-polling.js goes on: which answers of the status set the next
-- timer, and to when.
use peak_pass.Prelude.{
  ℕ, suc, ◌+◌, ◌-◌, ◌≤◌, Bool, true, false, ◌≡◌, refl, ◌∙◌, ap, Option, none, some, arith, ◌||◌,
  ◌==◌, ==_refl,
}
use peak_pass.Polling.{Controller, Env, Request, Body, NextPoll, Response, Flight}
use peak_pass.Polling.Delays.{max, positive}
use peak_pass.Polling.Bounds.{success_bounds, failure_delay-bounds}
use peak_pass.Polling.Answers.{
  usable_at, undecided, accept, apply_next, next_admission, recovered, schedule_next, schedule_at,
  fail, on_status, status_answer, success_draw,
}
use peak_pass.Polling.Events.{PageEvent, step, finish_flight, done}

abbrev asks_again : NextPoll → Bool
asks_again NextPoll.null_poll = false
asks_again _ = true

-- Whether the polling goes on after an answer: by its body, or for a failure.
abbrev pub goes_on : Response → Option Body → Bool
goes_on r (some b) = asks_again b.next_poll
goes_on r none = r.status == 200 || undecided r.status

-- The least wait: what a failure asks for, or a second.
abbrev pub least_wait : Response → Option Body → ℕ
least_wait r (some b) = 1000
least_wait r none = max (positive r.server_min) r.retry_after

abbrev pub longest_wait : Response → ℕ
longest_wait r = max (max (positive r.server_min) r.retry_after) 15000

record SetAt (env : Env) (low high : ℕ) (timer : Option ℕ) : Type 0 where
  due : ℕ
  is_set : timer ≡ some due
  is_after : env.now + low ≤ due
  is_before : due ≤ env.now + high

le_longest : (r : Response) (n : ℕ) → n ≤ 15000 → n ≤ longest_wait r
le_longest r n h = ground arith

success-SetAt :
    (env : Env) (r : Response) {wait : ℕ}
    → (1000 ≤ wait) × (wait ≤ 15000)
    → SetAt env 1000 (longest_wait r) (some (env.now + wait))
success-SetAt env r {wait} (low, high) =
    let most = le_longest r wait high in
    record {
      due = env.now + wait;
      is_set = refl;
      is_after = omega (arith, low);
      is_before = omega (arith, most);
    }

schedule_next-SetAt :
    (env : Env) (r : Response) (p : NextPoll) (c : Controller)
    → asks_again p ≡ true
    → SetAt env 1000 (longest_wait r) (schedule_next env p c).poll_timer
unfolding schedule_next schedule_at
schedule_next-SetAt env r NextPoll.null_poll c a = absurd (ground arith)
schedule_next-SetAt env r NextPoll.other_poll c a =
    success-SetAt env r (
      success_bounds c.mode env.hidden NextPoll.other_poll
        (success_draw c.mode env.hidden env.draw))
schedule_next-SetAt env r (NextPoll.millis n) c a =
    success-SetAt env r (
      success_bounds c.mode env.hidden (NextPoll.millis n)
        (success_draw c.mode env.hidden env.draw))

fail-SetAt :
    (env : Env) (r : Response) (c : Controller)
    → SetAt env
        (max (positive r.server_min) r.retry_after)
        (longest_wait r)
        (fail env r c).poll_timer
unfolding fail schedule_at
fail-SetAt env r c =
    let (low, w, high) =
      failure_delay-bounds (suc c.failures) env.hidden r.server_min r.retry_after env.draw in
    record {
      due = _;
      is_set = refl;
      is_after = omega (arith, low);
      is_before = omega (arith, high);
    }

status_answer-SetAt :
    (env : Env) (r : Response) (b : Option Body) (c : Controller)
    → goes_on r b ≡ true
    → SetAt env (least_wait r b) (longest_wait r) (status_answer env r b c).poll_timer
unfolding status_answer accept apply_next
status_answer-SetAt env r (some b) c g =
    schedule_next-SetAt env r b.next_poll
      (apply_next env.now b (next_admission b.admission) (recovered c)) g
status_answer-SetAt env r none c g =
    let n : (r.status == 404) ≡ false = ground arith in
    let m : (r.status == 401) ≡ false = ground arith in rw (n, m, g) (fail-SetAt env r c)

flight_status :
    (env : Env) (r : Response) (f : Flight) (c : Controller)
    → c.flight ≡ some f
    → f.request ≡ Request.read_status
    → step env (PageEvent.answered f.ticket r) c
      ≡ status_answer env r
          (usable_at env.event_id (r.status == 200) r)
          (record c { flight = none; outstanding = c.outstanding - 1; last_done = some env.now })
unfolding step finish_flight done on_status
flight_status env r f c e q = rw (e, ==_refl f.ticket, q) refl

-- The polling goes on: an answer to the status request in flight that is usable and names a next poll,
-- or that is no decision (no response, a timeout, 429, 5xx, or 200 with another body), sets the timer
-- of the next poll. After a usable answer the wait is at least a second; after a failure it is at
-- least the minimum that the server asks for and the `Retry-After` of the answer. It is at most the
-- longest of 15 s and these two.
pub status-resumes :
    (env : Env) (r : Response) (f : Flight) (c : Controller)
    → c.flight ≡ some f
    → f.request ≡ Request.read_status
    → goes_on r (usable_at env.event_id (r.status == 200) r) ≡ true
    → (due : ℕ) × ((step env (PageEvent.answered f.ticket r) c).poll_timer ≡ some due)
      × (env.now + least_wait r (usable_at env.event_id (r.status == 200) r) ≤ due)
      × (due ≤ env.now + longest_wait r)
status-resumes env r f c e q g =
    let b = usable_at env.event_id (r.status == 200) r in
    let s =
      status_answer-SetAt env r b
        (record c { flight = none; outstanding = c.outstanding - 1; last_done = some env.now }) g in
    (
      s.due,
      ap (λ x. x.poll_timer) (flight_status env r f c e q) ∙ s.is_set,
      s.is_after,
      s.is_before,
    )
