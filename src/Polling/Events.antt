-- ===== src/Polling/Events.antt =====
-- The events of the controller: an answer to a request, a timer, a change of the visibility, and a
-- call of the page. The environment of an event has the time at which it happens.
use peak_pass.Prelude.{
  ℕ, suc, ◌+◌, ◌-◌, Bool, true, false, not, ◌||◌, Option, none, some, [], ◌==◌, leb, ltb,
  if◌then◌else◌, is_some,
}
use peak_pass.Polling.{
  PollMode, Code, Response, ViewPhase, ProblemKind, PurchaseBody, PurchaseStatus, Purchase, Request,
  Flight, AdmissionValue, Body, Controller, Env, no_response,
}
use peak_pass.Polling.Delays.{failure_delay, max}
use peak_pass.Polling.Answers.{
  accept, unqueued, with_problem, fail, undecided, on_status, schedule_at, usable_at,
}
use peak_pass.Polling.Actions.{
  poll, refresh, drop, unschedule, purchasing, attempt, join, cancel, start_purchase,
  retry_purchase, stop_purchase, restore_purchase, stored,
}

-- A call of the page and what happens to the controller.
pub data PageEvent : Type 0 where
  answered : (ticket : ℕ) → Response → PageEvent
  timed_out poll_fires purchase_fires visibility_changed started joined cancelled : PageEvent
  purchased : PurchaseBody → PageEvent
  purchase_retried purchase_stopped : PageEvent
  mode_set : PollMode → PageEvent
  disposed : PageEvent

-- `refused`, with whether the answer is final.
unfoldable pub refused : Env → Response → Code → Controller → Bool × Controller
refused env r unconfirmed c =
    if r.status == 401
    then (true, with_problem ProblemKind.unauthenticated r.code none c)
    else (if undecided r.status || r.status == 200 || r.status == 201
        then (
          false,
          fail env r (record c { notice = if r.status == 429 then r.code else some unconfirmed }),
        )
        else (true, refresh env (record c { notice = r.code })))

-- A final answer ends the key of the attempt.
abbrev pub ended_attempt : Bool × Controller → Controller
ended_attempt (true, c) = record c { intent = none }
ended_attempt (false, c) = c

unfoldable pub join_answer : Env → Response → Option Body → Controller → Controller
join_answer env r (some b) c = accept env b c
join_answer env r none c =
    if r.status == 404
    then unqueued (record c { intent = none })
    else ended_attempt (refused env r Code.join_unconfirmed c)

abbrev pub is_entry : ℕ → AdmissionValue → Bool
is_entry target (AdmissionValue.entry a) = a.admission_id == target
is_entry target _ = false

abbrev pub second : Bool × Controller → Controller
second (final, c) = c

unfoldable pub cancel_answer : Env → ℕ → Response → Option Body → Controller → Controller
cancel_answer env target r none c = second (refused env r Code.cancel_unconfirmed c)
cancel_answer env target r (some b) c =
    if is_entry target b.admission
    then accept env b c
    else second (refused env r Code.cancel_unconfirmed c)

abbrev pub is_in_progress : Option Code → Bool
is_in_progress (some Code.in_progress) = true
is_in_progress _ = false

abbrev pub repeated : ℕ → Purchase → Purchase
repeated due p = record p { auto = suc p.auto; status = PurchaseStatus.retrying; timer = some due }

-- An answer to the open purchase.
unfoldable pub purchase_answer : Env → Response → Option Purchase → Controller → Controller
purchase_answer env r none c = c
purchase_answer env r (some p) c =
    if undecided r.status || is_in_progress r.code
    then (if leb 4 p.auto
        then refresh env
            (record c { purchase = some (record p { status = PurchaseStatus.unconfirmed }) })
        else record c {
          purchase = some (
              repeated
                (env.now + failure_delay (suc p.auto) false r.server_min r.retry_after env.draw) p);
        })
    else refresh env (record c { purchase = none; pending = stored env none c.pending })

-- `done` by the request.
unfoldable pub done : Env → Response → Request → Controller → Controller
done env r Request.read_status c = on_status env r c
done env r (Request.post_join epoch key) c =
    join_answer env r (usable_at env.event_id (r.status == 200 || r.status == 201) r)
      (record c { busy = none })
done env r (Request.delete_entry target epoch) c =
    cancel_answer env target r (usable_at env.event_id (r.status == 200) r)
      (record c { busy = none })
done env r (Request.post_purchase body) c = purchase_answer env r c.purchase c

-- `finish` of the current request.
unfoldable pub finish_flight : Env → Response → Flight → Controller → Controller
finish_flight env r f c =
    done env r f.request
      (record c { flight = none; outstanding = c.outstanding - 1; last_done = some env.now })

abbrev pub finish_ticket : Env → ℕ → Response → Option Flight → Controller → Controller
finish_ticket env ticket r none c = c
finish_ticket env ticket r (some f) c = if f.ticket == ticket then finish_flight env r f c else c

abbrev pub time_out : Env → Option Flight → Controller → Controller
time_out env none c = c
time_out env (some f) c = if leb f.timeout_at env.now then finish_flight env no_response f c else c

abbrev pub fire_poll : Env → Option ℕ → Controller → Controller
fire_poll env none c = c
fire_poll env (some due) c = if leb due env.now then poll env (unschedule c) else c

abbrev pub fire_purchase : Env → Purchase → Option ℕ → Controller → Controller
fire_purchase env p none c = c
fire_purchase env p (some due) c =
    if leb due env.now then attempt env (record p { timer = none }) c else c

abbrev pub fire_open : Env → Option Purchase → Controller → Controller
fire_open env none c = c
fire_open env (some p) c = fire_purchase env p p.timer c

abbrev or_zero : Option ℕ → ℕ
or_zero none = 0
or_zero (some n) = n

-- A hidden page moves its timer out.
abbrev pub hide : Option ℕ → Controller → Controller
hide none c = c
hide (some due) c = schedule_at (max due (or_zero c.last_done + 15000)) c

abbrev is_not_enabled : ViewPhase → Bool
is_not_enabled ViewPhase.not_enabled = true
is_not_enabled _ = false

-- On return within an error wait, a timer comes back to its end.
abbrev pub bring_back : Option ℕ → Controller → Controller
bring_back none c = c
bring_back (some due) c = if ltb c.not_before due then schedule_at c.not_before c else c

unfoldable pub show : Env → Controller → Controller
show env c =
    if is_some c.flight || purchasing c || is_not_enabled c.phase
    then c
    else (if ltb env.now c.not_before then bring_back c.poll_timer c else schedule_at env.now c)

unfoldable pub on_visibility : Env → Controller → Controller
on_visibility env c =
    if not c.started || c.disposed
    then c
    else (if env.hidden then hide c.poll_timer c else show env c)

unfoldable pub start : Env → Controller → Controller
start env c =
    if c.started || c.disposed
    then c
    else poll env (restore_purchase env (record c { started = true }))

unfoldable pub set_mode : PollMode → Controller → Controller
set_mode mode c = if c.disposed then c else record c { mode = mode }

abbrev pub stopped_timer : Option Purchase → Option Purchase
stopped_timer none = none
stopped_timer (some p) = some (record p { timer = none })

unfoldable pub dispose : Controller → Controller
dispose c =
    if c.disposed
    then c
    else record (unschedule (drop c)) { disposed = true; purchase = stopped_timer c.purchase }

unfoldable pub step : Env → PageEvent → Controller → Controller
step env (PageEvent.answered ticket r) c = finish_ticket env ticket r c.flight c
step env PageEvent.timed_out c = time_out env c.flight c
step env PageEvent.poll_fires c = fire_poll env c.poll_timer c
step env PageEvent.purchase_fires c = fire_open env c.purchase c
step env PageEvent.visibility_changed c = on_visibility env c
step env PageEvent.started c = start env c
step env PageEvent.joined c = join env c
step env PageEvent.cancelled c = cancel env c
step env (PageEvent.purchased body) c = start_purchase env body c
step env PageEvent.purchase_retried c = retry_purchase env c
step env PageEvent.purchase_stopped c = stop_purchase env c
step env (PageEvent.mode_set mode) c = set_mode mode c
step env PageEvent.disposed c = dispose c

-- The controller of `createController`, and what it is after the events of a list.
abbrev pub new_controller : PollMode → Option PurchaseBody → Controller
new_controller mode pending = record {
  mode = mode;
  started = false;
  disposed = false;
  flight = none;
  poll_timer = none;
  last_done = none;
  not_before = 0;
  failures = 0;
  polls = 0;
  applied = 0;
  epoch = none;
  admission = none;
  phase = ViewPhase.loading;
  problem = none;
  notice = none;
  busy = none;
  intent = none;
  purchase = none;
  reset_pending = false;
  deadline_at = none;
  pending = pending;
  tickets = 0;
  outstanding = 0;
  sent = [];
}

pub data Reached : Controller → Type 0 where
  created :
      (mode : PollMode) (pending : Option PurchaseBody) → Reached (new_controller mode pending)
  happened : {c : Controller} (env : Env) (e : PageEvent) → Reached c → Reached (step env e c)
