-- ===== src/Polling/Quiet.antt =====
-- The error wait of src/frontend/admission-polling.js: until its end, nothing is asked of the queue.
use peak_pass.Prelude.{
  ℕ, suc, ◌<◌, Bool, true, false, ◌≡◌, refl, leb, ltb, if◌then◌else◌, Option, none, some, List, [],
  ◌∷◌, arith, ◌||◌, is_none, not, ◌&&◌,
}
use peak_pass.Polling.{
  Controller, Env, Request, Body, NextPoll, Response, Flight, Purchase, no_response,
}
use peak_pass.Polling.Answers.{
  accept, apply_next, next_admission, recovered, schedule_at, schedule_next, fail, on_status,
  undecided,
}
use peak_pass.Polling.Actions.{
  send, refresh, join, cancel, attempt, start_purchase, retry_purchase, stop_purchase, is_left,
  stop_open, retry_open,
}
use peak_pass.Polling.Events.{
  PageEvent, Reached, step, finish_flight, done, purchase_answer, is_in_progress, fire_poll,
  fire_purchase, fire_open, on_visibility, show, start, set_mode, dispose,
}
use peak_pass.Polling.Handling.{
  Handles, if_both, status_answer-Handles, join_answer-Handles, cancel_answer-Handles,
  finish_ticket-if, time_out-if,
}
use peak_pass.Polling.Waiting.{Late, Reached-Late}

abbrev is_queue : Request → Bool
is_queue (Request.post_purchase b) = false
is_queue _ = true

-- How many requests to the queue were sent: polls, joins and cancellations.
abbrev pub queue_requests : List (ℕ × Request) → ℕ
queue_requests [] = 0
queue_requests ((t, r) ∷ sent) =
    let rest = queue_requests sent in if is_queue r then suc rest else rest

-- No request more than these.
record QuietAt (count : ℕ) (sent : List (ℕ × Request)) : Type 0 where
  is_quiet : queue_requests sent ≡ count

abbrev Quiet : ℕ → Controller → Type 0
Quiet n c = QuietAt n c.sent

-- The same before the end of an error wait.
record WaitingAt (now count start : ℕ) (sent : List (ℕ × Request)) : Type 0 where
  quiet : QuietAt count sent
  early : ltb now start ≡ true

abbrev Waiting : Env → ℕ → Controller → Type 0
Waiting env n c = WaitingAt env.now n c.not_before c.sent

refresh-Quiet : (env : Env) (n : ℕ) (c : Controller) → Waiting env n c → Quiet n (refresh env c)
unfolding refresh schedule_at
refresh-Quiet env n c w = rw (w.early) w.quiet

schedule_next-Quiet :
    (env : Env) (n : ℕ) (p : NextPoll) (c : Controller)
    → Quiet n c
    → Quiet n (schedule_next env p c)
unfolding schedule_next schedule_at
schedule_next-Quiet env n NextPoll.null_poll c h = h
schedule_next-Quiet env n NextPoll.other_poll c h = h
schedule_next-Quiet env n (NextPoll.millis m) c h = h

accept-Quiet :
    (env : Env) (n : ℕ) (b : Body) (c : Controller) → Quiet n c → Quiet n (accept env b c)
unfolding accept apply_next
accept-Quiet env n b c h =
    schedule_next-Quiet env n b.next_poll
      (apply_next env.now b (next_admission b.admission) (recovered c)) h

fail-Quiet :
    (env : Env) (n : ℕ) (r : Response) (c : Controller) → Quiet n c → Quiet n (fail env r c)
unfolding fail schedule_at
fail-Quiet env n r c h = h

handles-Quiet : (env : Env) (n : ℕ) → Handles env (Waiting env n) (Quiet n)
handles-Quiet env n = record {
  kept = λ c w. w.quiet;
  problem = λ x c w. w.quiet;
  notice = λ x c w. w;
  forgotten = λ c w. w;
  intent = λ c h. h;
  accepting = λ b c w. accept-Quiet env n b c w.quiet;
  leaving = λ c w. w.quiet;
  failing = λ r c w. fail-Quiet env n r c w.quiet;
  refreshing = λ c w. refresh-Quiet env n c w;
}

purchase_answer-Quiet :
    (env : Env) (n : ℕ) (r : Response) (p : Option Purchase) (c : Controller)
    → Waiting env n c
    → Quiet n (purchase_answer env r p c)
unfolding purchase_answer
purchase_answer-Quiet env n r none c w = w.quiet
purchase_answer-Quiet env n r (some p) c w =
    if_both (Quiet n) (undecided r.status || is_in_progress r.code) _ _
      (λ y. if_both (Quiet n) (leb 4 p.auto) _ _ (λ x. refresh-Quiet env n _ w) (λ x. w.quiet))
      (λ x. refresh-Quiet env n _ w)

done-Quiet :
    (env : Env) (n : ℕ) (r : Response) (q : Request) (c : Controller)
    → Waiting env n c
    → Quiet n (done env r q c)
unfolding done on_status
done-Quiet env n r Request.read_status c w = status_answer-Handles (handles-Quiet env n) r _ c w
done-Quiet env n r (Request.post_join e k) c w = join_answer-Handles (handles-Quiet env n) r _ _ w
done-Quiet env n r (Request.delete_entry i e) c w =
    cancel_answer-Handles (handles-Quiet env n) i r _ _ w
done-Quiet env n r (Request.post_purchase b) c w = purchase_answer-Quiet env n r c.purchase c w

finish_flight-Quiet :
    (env : Env) (n : ℕ) (r : Response) (f : Flight) (c : Controller)
    → Waiting env n c
    → Quiet n (finish_flight env r f c)
unfolding finish_flight
finish_flight-Quiet env n r f c w = done-Quiet env n r f.request _ w

fire_poll-Quiet :
    (env : Env) (n : ℕ) (d : Option ℕ) (c : Controller)
    → c.poll_timer ≡ d
    → Late c
    → Waiting env n c
    → Quiet n (fire_poll env d c)
fire_poll-Quiet env n none c e l w = w.quiet
fire_poll-Quiet env n (some d) c e l w =
    if_both (Quiet n) (leb d env.now) _ _ (λ y. absurd (ground (arith, e, l.is_late, w.early, y)))
      (λ x. w.quiet)

fire_open-Quiet :
    (env : Env) (n : ℕ) (p : Option Purchase) (c : Controller)
    → Quiet n c
    → Quiet n (fire_open env p c)
unfolding attempt send
fire_open-Quiet env n none c h = h
fire_open-Quiet env n (some p) c h = by_timer p.timer
  where
    by_timer : (d : Option ℕ) → Quiet n (fire_purchase env p d c)
    by_timer none = h
    by_timer (some d) =
        if_both (Quiet n) (leb d env.now) _ _ (λ y. record { is_quiet = h.is_quiet }) (λ x. h)

stop_open-Quiet :
    (env : Env) (n : ℕ) (p : Option Purchase) (c : Controller)
    → Waiting env n c
    → Quiet n (stop_open env p c)
stop_open-Quiet env n none c w = w.quiet
stop_open-Quiet env n (some p) c w =
    if_both (Quiet n) (is_left p.status) _ _ (λ y. w.quiet) (λ x. refresh-Quiet env n _ w)

retry_open-Quiet :
    (env : Env) (n : ℕ) (p : Option Purchase) (c : Controller)
    → Quiet n c
    → Quiet n (retry_open env p c)
unfolding attempt send
retry_open-Quiet env n none c h = h
retry_open-Quiet env n (some p) c h =
    if_both (Quiet n) (is_left p.status) _ _ (λ y. record { is_quiet = h.is_quiet }) (λ x. h)

on_visibility-Quiet :
    (env : Env) (n : ℕ) (c : Controller) → Quiet n c → Quiet n (on_visibility env c)
unfolding on_visibility show schedule_at
on_visibility-Quiet env n c h = record { is_quiet = ground (arith, h.is_quiet) }

step-Quiet :
    (env : Env) (n : ℕ) (e : PageEvent) (c : Controller)
    → Late c
    → c.started ≡ true
    → Waiting env n c
    → Quiet n (step env e c)
unfolding step join cancel start_purchase attempt send retry_purchase stop_purchase set_mode dispose
    start
step-Quiet env n (PageEvent.answered ticket r) c l s w =
    finish_ticket-if (Quiet n) env ticket r c.flight c w.quiet
      (λ g e. finish_flight-Quiet env n r g c w)
step-Quiet env n PageEvent.timed_out c l s w =
    time_out-if (Quiet n) env c.flight c w.quiet
      (λ g e. finish_flight-Quiet env n no_response g c w)
step-Quiet env n PageEvent.poll_fires c l s w = fire_poll-Quiet env n c.poll_timer c refl l w
step-Quiet env n PageEvent.purchase_fires c l s w = fire_open-Quiet env n c.purchase c w.quiet
step-Quiet env n PageEvent.visibility_changed c l s w = on_visibility-Quiet env n c w.quiet
step-Quiet env n PageEvent.started c l s w =
    if_both (Quiet n) (c.started || c.disposed) c _ (λ y. w.quiet)
      (λ x. absurd (ground (arith, x, s)))
step-Quiet env n PageEvent.joined c l s w = record {
  is_quiet = ground (arith, w.quiet.is_quiet, w.early);
}
step-Quiet env n PageEvent.cancelled c l s w = record {
  is_quiet = ground (arith, w.quiet.is_quiet, w.early);
}
step-Quiet env n (PageEvent.purchased body) c l s w = record {
  is_quiet = ground (arith, w.quiet.is_quiet);
}
step-Quiet env n PageEvent.purchase_retried c l s w =
    if_both (Quiet n) (c.started && not c.disposed && is_none c.busy) _ _
      (λ y. retry_open-Quiet env n c.purchase c w.quiet) (λ x. w.quiet)
step-Quiet env n PageEvent.purchase_stopped c l s w =
    if_both (Quiet n) c.disposed _ _ (λ y. w.quiet) (λ x. stop_open-Quiet env n c.purchase c w)
step-Quiet env n (PageEvent.mode_set mode) c l s w =
    if_both (Quiet n) c.disposed _ _ (λ y. w.quiet) (λ x. w.quiet)
step-Quiet env n PageEvent.disposed c l s w =
    if_both (Quiet n) c.disposed _ _ (λ y. w.quiet) (λ x. w.quiet)

-- In every state that a started controller reaches, nothing that happens before the end of its error
-- wait sends a request to the queue: no poll, no join and no cancellation.
pub wait-Quiet :
    {c : Controller} (env : Env) (e : PageEvent)
    → Reached c
    → c.started ≡ true
    → env.now < c.not_before
    → queue_requests (step env e c).sent ≡ queue_requests c.sent
wait-Quiet {c} env e r s w =
    let h =
      step-Quiet env (queue_requests c.sent) e c (Reached-Late r) s
        (record { quiet = record { is_quiet = refl }; early = ground arith }) in
    h.is_quiet
