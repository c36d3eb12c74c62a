-- ===== src/Scenario/Polls.antt =====
-- A page in the waiting room: its first poll, a join whose answer is lost, and a purchase.
use peak_pass.Prelude.{
  ℕ, ◌+◌, ◌≤◌, true, false, ◌≡◌, ◌⊎◌, refl, none, some, List, [], ◌∷◌, ◌++◌, length, arith,
}
use peak_pass.WaitingRoom.{EntryState, EntryPhase}
use peak_pass.Polling.{
  Flight, PollMode, NextPoll, AdmissionValue, Response, PurchaseBody, PurchaseStatus, Purchase,
  Request, Controller, Env, no_response,
}
use peak_pass.Polling.Delays.{failure_delay, success_delay, min}
use peak_pass.Polling.Resuming.{status-resumes}
use peak_pass.Polling.Answers.{
  usable, apply_next, reset_after, intent_after, deadline_of, schedule_at, schedule_next, accept,
  fail, status_answer, on_status,
}
use peak_pass.Polling.Actions.{
  send, poll, mutate, join_intent, join, attempt, start_purchase, restored,
}
use peak_pass.Polling.Events.{
  PageEvent, Reached, new_controller, finish_flight, done, step, start, join_answer, refused,
}
use peak_pass.Polling.Exclusion.{Exclusive}
use peak_pass.Polling.Exclusion.Steps.{Reached-Exclusive}
use peak_pass.Polling.Ring.{new_trace, pushed, trace_lem}
use peak_pass.Polling.Quiet.{queue_requests, wait-Quiet}
use peak_pass.Polling.Buying.{purchase_requests}
use peak_pass.Polling.Repeats.{run_events, press-bounded}
use peak_pass.Polling.Keys.{join_repeats}
use peak_pass.Polling.Frozen.{body_of, body_in_flight, frozen-body}

abbrev page : ℕ → Env
page now = record {
  user_id = 1;
  event_id = 100;
  keeps_pending = true;
  now = now;
  hidden = false;
  draw = 5000;
  uuid = 500 + now;
}

abbrev answer_of : AdmissionValue → Response
answer_of admission = record {
  status = 200;
  body = some (record {
    epoch = some 7;
    event_id = 100;
    admission = admission;
    server_time = some 1000;
    next_poll = NextPoll.millis 2000;
  });
  code = none;
  server_min = NextPoll.millis 2000;
  retry_after = 0;
}

abbrev admitted : AdmissionValue
admitted = AdmissionValue.entry (record {
  admission_id = 900;
  epoch = 7;
  state = EntryState.admitted;
  phase = EntryPhase.idle;
  expires_at = some 31000;
})

abbrev buying : PurchaseBody
buying = record { user_id = 1; event_id = 100; template = 3 }

abbrev created : Controller
created = new_controller PollMode.adaptive none

abbrev polling : Controller
polling = step (page 0) PageEvent.started created

abbrev polling-Reached : Reached polling
polling-Reached =
    Reached.happened (page 0) PageEvent.started (Reached.created PollMode.adaptive none)

abbrev unjoined : Controller
unjoined = step (page 100) (PageEvent.answered 0 (answer_of AdmissionValue.null_admission)) polling

abbrev waiting_error : Controller
waiting_error = step (page 100) (PageEvent.answered 0 no_response) polling

abbrev entered : Controller
entered = step (page 100) (PageEvent.answered 0 (answer_of admitted)) polling

entered-Reached : Reached entered
entered-Reached =
    Reached.happened (page 100) (PageEvent.answered 0 (answer_of admitted)) polling-Reached

abbrev sending : Controller
sending = step (page 200) (PageEvent.purchased buying) entered

sending-Reached : Reached sending
sending-Reached = Reached.happened (page 200) (PageEvent.purchased buying) entered-Reached

sending_now : sending.sent ≡ (200, Request.post_purchase buying) ∷ (0, Request.read_status) ∷ []
unfolding step start poll send finish_flight done on_status status_answer usable accept apply_next
    schedule_next schedule_at reset_after intent_after deadline_of start_purchase attempt restored
sending_now = refl

Reached-Exclusive_example : Exclusive sending
Reached-Exclusive_example = Reached-Exclusive sending-Reached

wait-Quiet_example :
    queue_requests (step (page 900) PageEvent.joined waiting_error).sent
    ≡ queue_requests waiting_error.sent
unfolding step start poll send finish_flight done on_status status_answer usable fail schedule_at
    failure_delay restored
wait-Quiet_example =
    wait-Quiet (page 900) PageEvent.joined
      (Reached.happened (page 100) (PageEvent.answered 0 no_response) polling-Reached) refl
      (omega arith)

-- The answer is lost, and the repeat is answered.
abbrev repeats : List (Env × PageEvent)
repeats =
    (page 10200, PageEvent.timed_out)
    ∷ (page 11200, PageEvent.purchase_fires)
    ∷ (page 11300, PageEvent.answered 2 (record no_response { status = 201 }))
    ∷ []

press-bounded_example :
    purchase_requests
      (run_events repeats (step (page 200) (PageEvent.purchased buying) entered)).sent
    ≤ purchase_requests entered.sent + 5
press-bounded_example =
    press-bounded (page 200) (PageEvent.purchased buying) repeats entered-Reached refl refl

join_repeats_example :
    (key : ℕ) × ((join (page 200) unjoined).sent ≡ (200, Request.post_join 7 key) ∷ unjoined.sent)
    × ((join (page 9000) (
          step
            (page 5200)
            (PageEvent.answered unjoined.tickets no_response)
            (join (page 200) unjoined))).sent
        ≡ (9000, Request.post_join 7 key) ∷ (join (page 200) unjoined).sent)
unfolding step start poll send finish_flight done on_status status_answer usable accept apply_next
    schedule_next schedule_at success_delay reset_after intent_after deadline_of restored join
    mutate join_intent join_answer refused fail failure_delay
join_repeats_example =
    join_repeats (page 200) (page 5200) (page 9000) no_response 7 unjoined refl refl refl refl
      (omega arith)

abbrev sending_purchase : Purchase
sending_purchase = record {
  body = buying;
  status = PurchaseStatus.sending;
  attempts = 1;
  auto = 0;
  restored = false;
  timer = none;
}

frozen-body_example :
    ((body_of (step (page 10200) PageEvent.timed_out sending).purchase ≡ none)
      ⊎ (body_of (step (page 10200) PageEvent.timed_out sending).purchase ≡ some buying))
    × ((body_in_flight (step (page 10200) PageEvent.timed_out sending).flight ≡ none)
        ⊎ (body_in_flight (step (page 10200) PageEvent.timed_out sending).flight
            ≡ body_of (step (page 10200) PageEvent.timed_out sending).purchase))
unfolding step start poll send finish_flight done on_status status_answer usable accept apply_next
    schedule_next schedule_at reset_after intent_after deadline_of start_purchase attempt restored
frozen-body_example =
    frozen-body (page 10200) PageEvent.timed_out sending_purchase sending-Reached refl

-- A poll at 0 that is refused at 100, with 3 s in the body and 20 s in the header.
abbrev busy_answer : Response
busy_answer = record no_response {
  status = 429;
  server_min = NextPoll.millis 3000;
  retry_after = 20000;
}

abbrev first_poll : Flight
first_poll = record { ticket = 0; request = Request.read_status; timeout_at = 5000 }

status-resumes_example :
    (due : ℕ) × ((step (page 100) (PageEvent.answered 0 busy_answer) polling).poll_timer ≡ some due)
    × (100 + 20000 ≤ due)
    × (due ≤ 100 + 20000)
unfolding step start poll send restored
status-resumes_example = status-resumes (page 100) busy_answer first_poll polling refl refl refl

abbrev five : List ℕ
five = 1 ∷ 2 ∷ 3 ∷ 4 ∷ 5 ∷ []

trace_lem_example :
    (gone : List ℕ) × (gone ++ (pushed 3 five new_trace).events ≡ five)
    × (length gone ≡ (pushed 3 five new_trace).dropped)
    × (length (pushed 3 five new_trace).events ≡ min (length five) 3)
trace_lem_example = trace_lem 3 five
