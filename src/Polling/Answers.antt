-- ===== src/Polling/Answers.antt =====
-- What an answer does to the controller: `usable`, `apply`, `accept`, `unqueued`, `fail`.
use peak_pass.Prelude.{
  ℕ, suc, ◌+◌, Bool, true, false, not, ◌&&◌, ◌||◌, Option, none, some, ◌==◌, leb, if◌then◌else◌,
  is_some, ℤ, pos, neg, ◌+ℤ◌,
}
use peak_pass.WaitingRoom.{EntryState, EntryPhase}
use peak_pass.Polling.{
  PollMode, NextPoll, Admission, AdmissionValue, Body, Code, Response, ViewPhase, ProblemKind,
  Intent, Controller, Env,
}
use peak_pass.Polling.Delays.{success_delay, failure_delay}

abbrev pub same_epoch : Option ℕ → Option ℕ → Bool
same_epoch (some a) (some b) = a == b
same_epoch none none = true
same_epoch _ _ = false

abbrev pub of_epoch : Option ℕ → AdmissionValue → Bool
of_epoch none v = false
of_epoch (some q) AdmissionValue.null_admission = true
of_epoch (some q) AdmissionValue.other_admission = false
of_epoch (some q) (AdmissionValue.entry a) = a.epoch == q

-- `usable` of a body about the event.
abbrev pub about : ℕ → Body → Bool
about event_id b = (b.event_id == event_id) && of_epoch b.epoch b.admission

unfoldable pub usable : ℕ → Option Body → Option Body
usable event_id none = none
usable event_id (some b) = if about event_id b then some b else none

abbrev pub next_admission : AdmissionValue → Option Admission
next_admission (AdmissionValue.entry a) = some a
next_admission _ = none

abbrev pub undecided : ℕ → Bool
undecided status = status == 0 || status == 429 || leb 500 status

-- `phaseOf`
abbrev admitted_phase : EntryPhase → ViewPhase
admitted_phase EntryPhase.idle = ViewPhase.admitted
admitted_phase _ = ViewPhase.processing

abbrev pub phase_of : EntryState → EntryPhase → ViewPhase
phase_of EntryState.waiting phase = ViewPhase.waiting
phase_of EntryState.admitted phase = admitted_phase phase
phase_of EntryState.consumed phase = ViewPhase.consumed
phase_of EntryState.cancelled phase = ViewPhase.cancelled
phase_of EntryState.expired phase = ViewPhase.expired

-- The phase of an answer, with `resetPending` for an answer without an entry.
abbrev pub shown_phase : Bool → Option Admission → ViewPhase
shown_phase reset (some a) = phase_of a.state a.phase
shown_phase true none = ViewPhase.reset
shown_phase false none = ViewPhase.not_joined

abbrev phase_index : ViewPhase → ℕ
phase_index ViewPhase.loading = 0
phase_index ViewPhase.not_joined = 1
phase_index ViewPhase.reset = 2
phase_index ViewPhase.waiting = 3
phase_index ViewPhase.admitted = 4
phase_index ViewPhase.processing = 5
phase_index ViewPhase.consumed = 6
phase_index ViewPhase.cancelled = 7
phase_index ViewPhase.expired = 8
phase_index ViewPhase.not_enabled = 9

abbrev pub same_phase : ViewPhase → ViewPhase → Bool
same_phase a b = phase_index a == phase_index b

abbrev in_queue : EntryState → Bool
in_queue EntryState.waiting = true
in_queue EntryState.admitted = true
in_queue _ = false

abbrev queued : Option Admission → Bool
queued none = false
queued (some a) = in_queue a.state

-- `resetPending` after an answer of an epoch.
unfoldable pub reset_after : Controller → Option ℕ → Option Admission → Bool
reset_after c epoch (some a) = false
reset_after c epoch none =
    c.reset_pending || (is_some c.epoch && not (same_epoch epoch c.epoch) && queued c.admission)

abbrev same_id : Option ℕ → ℕ → Bool
same_id none id = false
same_id (some i) id = i == id

-- The key of an attempt ends with an answer that shows another entry than the one it started from.
unfoldable pub intent_after : Option Intent → Option Admission → Option Intent
intent_after none next = none
intent_after (some i) none = some i
intent_after (some i) (some a) = if same_id i.from a.admission_id then some i else none

-- `timing.tRecv + left`, where both dates can be read.
abbrev until : ℕ → Option ℕ → Option ℕ → Option ℤ
until now (some expires) (some server) = some (pos (now + expires) +ℤ neg server)
until now _ _ = none

unfoldable pub deadline_of : ℕ → ViewPhase → Option Admission → Option ℕ → Option ℤ
deadline_of now ViewPhase.admitted (some a) server = until now a.expires_at server
deadline_of now _ next server = none

-- `apply`, by the entry of the answer.
unfoldable pub apply_next : ℕ → Body → Option Admission → Controller → Controller
apply_next now b next c =
    let reset = reset_after c b.epoch next in
    let phase = shown_phase reset next in
    record c {
      epoch = b.epoch;
      admission = next;
      reset_pending = reset;
      intent = intent_after c.intent next;
      phase = phase;
      notice = if same_phase phase c.phase then c.notice else none;
      deadline_at = deadline_of now phase next b.server_time;
      applied = suc c.applied;
    }

abbrev pub recovered : Controller → Controller
recovered c = record c { failures = 0; not_before = 0; problem = none }

-- `schedule`, at a time.
unfoldable pub schedule_at : ℕ → Controller → Controller
schedule_at due c = record c { poll_timer = some due }

-- The draw of a success: none, which is the middle, for a fixed or hidden page.
abbrev pub success_draw : PollMode → Bool → ℕ → ℕ
success_draw PollMode.adaptive false draw = draw
success_draw _ _ draw = 5000

unfoldable pub schedule_next : Env → NextPoll → Controller → Controller
schedule_next env NextPoll.null_poll c = c
schedule_next env base c =
    schedule_at
      (env.now + success_delay c.mode env.hidden base (success_draw c.mode env.hidden env.draw)) c

unfoldable pub accept : Env → Body → Controller → Controller
accept env b c =
    schedule_next env b.next_poll (apply_next env.now b (next_admission b.admission) (recovered c))

abbrev pub unqueued : Controller → Controller
unqueued c = record (recovered c) {
  admission = none;
  deadline_at = none;
  phase = ViewPhase.not_enabled;
}

abbrev pub with_problem : ProblemKind → Option Code → Option ℕ → Controller → Controller
with_problem kind code at c = record c {
  problem = some (record { kind = kind; code = code; retry_at = at });
}

abbrev pub failure_kind : ℕ → ProblemKind
failure_kind status =
    if status == 429
    then ProblemKind.rate_limited
    else (if status == 0 then ProblemKind.network else ProblemKind.unavailable)

abbrev failure_code : Response → Option Code
failure_code r = if r.status == 200 then some Code.protocol else r.code

unfoldable pub fail : Env → Response → Controller → Controller
fail env r c =
    let failures = suc c.failures in
    let not_before = env.now + failure_delay failures false r.server_min r.retry_after env.draw in
    let due = env.now + failure_delay failures env.hidden r.server_min r.retry_after env.draw in
    schedule_at due (
      with_problem (failure_kind r.status) (failure_code r) (some not_before)
        (record c { failures = failures; not_before = not_before }))

-- `onStatus` without a usable body.
abbrev pub status_error : Env → Response → Controller → Controller
status_error env r c =
    if r.status == 404
    then unqueued c
    else (if r.status == 401
        then with_problem ProblemKind.unauthenticated r.code none c
        else (if r.status == 200 || undecided r.status
            then fail env r c
            else with_problem ProblemKind.invalid r.code none c))

abbrev pub usable_at : ℕ → Bool → Response → Option Body
usable_at event_id ok r = if ok then usable event_id r.body else none

unfoldable pub status_answer : Env → Response → Option Body → Controller → Controller
status_answer env r (some b) c = accept env b c
status_answer env r none c = status_error env r c

unfoldable pub on_status : Env → Response → Controller → Controller
on_status env r c = status_answer env r (usable_at env.event_id (r.status == 200) r) c
