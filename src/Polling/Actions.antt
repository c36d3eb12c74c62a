-- ===== src/Polling/Actions.antt =====
-- The requests of the controller and the calls of the page: `send`, `poll`, `refresh`, `join`,
-- `cancel`, and the purchase with its repeats.
use peak_pass.Prelude.{
  ℕ, suc, ◌+◌, ◌-◌, Bool, true, false, not, ◌&&◌, ◌||◌, Option, none, some, ◌∷◌, ◌==◌, leb, ltb,
  if◌then◌else◌, is_some, is_none,
}
use peak_pass.Polling.{
  ViewPhase, Busy, Intent, PurchaseBody, PurchaseStatus, Purchase, Request, Admission, Controller,
  Env,
}
use peak_pass.Polling.Answers.{schedule_at}

unfoldable pub send : ℕ → Request → Env → Controller → Controller
send wait request env c = record c {
  flight = some (record { ticket = c.tickets; request = request; timeout_at = env.now + wait });
  tickets = suc c.tickets;
  outstanding = suc c.outstanding;
  sent = (env.now, request) ∷ c.sent;
}

abbrev pub drop : Controller → Controller
drop c = record c {
  flight = none;
  outstanding = if is_some c.flight then c.outstanding - 1 else c.outstanding;
}

abbrev pub unschedule : Controller → Controller
unschedule c = record c { poll_timer = none }

abbrev pub preempt : Controller → Controller
preempt c = unschedule (drop c)

abbrev pub is_left : PurchaseStatus → Bool
is_left PurchaseStatus.unconfirmed = true
is_left _ = false

abbrev pub open_purchase : Option Purchase → Bool
open_purchase none = false
open_purchase (some p) = not (is_left p.status)

abbrev pub purchasing : Controller → Bool
purchasing c = open_purchase c.purchase

abbrev pub idle : Controller → Bool
idle c = c.started && not c.disposed && is_none c.busy && is_none c.purchase

abbrev pub ready : Env → Controller → Bool
ready env c = idle c && leb c.not_before env.now

unfoldable pub poll : Env → Controller → Controller
poll env c =
    if c.disposed || is_some c.flight || purchasing c
    then c
    else send 5000 Request.read_status env (record (unschedule c) { polls = suc c.polls })

unfoldable pub refresh : Env → Controller → Controller
refresh env c = if ltb env.now c.not_before then schedule_at c.not_before c else poll env c

unfoldable pub mutate : Busy → Request → Env → Controller → Controller
mutate kind request env c =
    send 5000 request env (record (preempt c) { busy = some kind; notice = none })

-- JOINABLE
abbrev pub is_joinable : ViewPhase → Bool
is_joinable ViewPhase.not_joined = true
is_joinable ViewPhase.reset = true
is_joinable ViewPhase.consumed = true
is_joinable ViewPhase.cancelled = true
is_joinable ViewPhase.expired = true
is_joinable _ = false

abbrev entry_id : Option Admission → Option ℕ
entry_id none = none
entry_id (some a) = some a.admission_id

abbrev fresh_intent : Env → ℕ → Option Admission → Intent
fresh_intent env epoch a = record { epoch = epoch; join_request_id = env.uuid; from = entry_id a }

-- The key of the attempt: the one there is, if it is of the epoch.
unfoldable pub join_intent : Env → ℕ → Option Admission → Option Intent → Intent
join_intent env epoch a none = fresh_intent env epoch a
join_intent env epoch a (some i) = if i.epoch == epoch then i else fresh_intent env epoch a

abbrev pub join_as : Env → Intent → Controller → Controller
join_as env i c =
    mutate Busy.joining (Request.post_join i.epoch i.join_request_id) env
      (record c { intent = some i })

abbrev pub join_at : Env → Option ℕ → Controller → Controller
join_at env none c = c
join_at env (some epoch) c = join_as env (join_intent env epoch c.admission c.intent) c

unfoldable pub join : Env → Controller → Controller
join env c = if ready env c && is_joinable c.phase then join_at env c.epoch c else c

abbrev pub is_cancellable : ViewPhase → Bool
is_cancellable ViewPhase.waiting = true
is_cancellable ViewPhase.admitted = true
is_cancellable _ = false

abbrev pub cancel_entry : Env → Option Admission → Controller → Controller
cancel_entry env none c = c
cancel_entry env (some a) c =
    mutate Busy.cancelling (Request.delete_entry a.admission_id a.epoch) env c

unfoldable pub cancel : Env → Controller → Controller
cancel env c = if ready env c && is_cancellable c.phase then cancel_entry env c.admission c else c

-- `attempt` of an open purchase.
unfoldable pub attempt : Env → Purchase → Controller → Controller
attempt env p c = send 10000 (Request.post_purchase p.body) env (record c {
  purchase = some (record p { status = PurchaseStatus.sending; attempts = suc p.attempts });
})

abbrev new_purchase : PurchaseBody → Purchase
new_purchase body = record {
  body = body;
  status = PurchaseStatus.sending;
  attempts = 0;
  auto = 0;
  restored = false;
  timer = none;
}

abbrev pub is_admitted : ViewPhase → Bool
is_admitted ViewPhase.admitted = true
is_admitted _ = false

-- What `pending` has after a write of the request.
abbrev pub stored : Env → Option PurchaseBody → Option PurchaseBody → Option PurchaseBody
stored env new old = if env.keeps_pending then new else old

unfoldable pub start_purchase : Env → PurchaseBody → Controller → Controller
start_purchase env body c =
    if idle c && is_admitted c.phase
    then attempt env (new_purchase body)
        (record (preempt c) { pending = stored env (some body) c.pending; notice = none })
    else c

abbrev pub retry_open : Env → Option Purchase → Controller → Controller
retry_open env none c = c
retry_open env (some p) c =
    if is_left p.status then attempt env (record p { auto = 0 }) (preempt c) else c

unfoldable pub retry_purchase : Env → Controller → Controller
retry_purchase env c =
    if c.started && not c.disposed && is_none c.busy then retry_open env c.purchase c else c

abbrev pub unconfirmed_purchase : Purchase → Purchase
unconfirmed_purchase p = record p { status = PurchaseStatus.unconfirmed; timer = none }

abbrev pub stop_open : Env → Option Purchase → Controller → Controller
stop_open env none c = c
stop_open env (some p) c =
    if is_left p.status
    then c
    else refresh env (record (drop c) { purchase = some (unconfirmed_purchase p) })

unfoldable pub stop_purchase : Env → Controller → Controller
stop_purchase env c = if c.disposed then c else stop_open env c.purchase c

abbrev own_body : Env → PurchaseBody → Bool
own_body env b = b.user_id == env.user_id && b.event_id == env.event_id

abbrev restored_purchase : PurchaseBody → Purchase
restored_purchase body = record {
  body = body;
  status = PurchaseStatus.unconfirmed;
  attempts = 0;
  auto = 4;
  restored = true;
  timer = none;
}

-- The stored request of this user and event, if there is one.
unfoldable pub restored : Env → Option PurchaseBody → Option Purchase → Option Purchase
restored env none p = p
restored env (some b) p = if own_body env b then some (restored_purchase b) else p

abbrev pub restore_purchase : Env → Controller → Controller
restore_purchase env c = record c {
  purchase = if env.keeps_pending then restored env c.pending c.purchase else c.purchase;
}
