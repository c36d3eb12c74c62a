-- ===== src/Polling/Waiting.antt =====
-- The error wait of src/frontend/admission-polling.js: the timer of a poll is never set before its
-- end, whatever happens.
use peak_pass.Prelude.{ℕ, suc, Bool, true, ◌≡◌, refl, leb, ltb, Option, none, some, arith, ◌||◌}
use peak_pass.Polling.{
  Controller, Env, Request, Body, NextPoll, Response, Flight, Purchase, no_response,
}
use peak_pass.Polling.Bounds.{hidden_mono}
use peak_pass.Polling.Answers.{
  accept, apply_next, next_admission, schedule_at, schedule_next, fail, recovered, on_status,
  undecided,
}
use peak_pass.Polling.Actions.{
  send, poll, refresh, unschedule, mutate, join, cancel, attempt, start_purchase, retry_purchase,
  stop_purchase, restore_purchase, stop_open, is_left,
}
use peak_pass.Polling.Events.{
  PageEvent, Reached, step, finish_flight, done, purchase_answer, is_in_progress, fire_poll,
  fire_purchase, fire_open, on_visibility, show, start, set_mode, dispose,
}
use peak_pass.Polling.Handling.{
  Handles, if_both, status_answer-Handles, join_answer-Handles, cancel_answer-Handles,
  finish_ticket-if, time_out-if,
}

abbrev late : Option ℕ → ℕ → Bool
late none start = true
late (some due) start = leb start due

pub record LateAt (timer : Option ℕ) (start : ℕ) : Type 0 where
  pub is_late : late timer start ≡ true

-- The timer of the poll is not before the end of the error wait.
abbrev pub Late : Controller → Type 0
Late c = LateAt c.poll_timer c.not_before

poll-Late : (env : Env) (c : Controller) → Late c → Late (poll env c)
unfolding poll send
poll-Late env c h = record { is_late = ground (arith, h.is_late) }

refresh-Late : (env : Env) (c : Controller) → Late c → Late (refresh env c)
unfolding refresh schedule_at
refresh-Late env c h =
    if_both Late (ltb env.now c.not_before) (schedule_at c.not_before c) (poll env c)
      (λ y. record { is_late = ground arith }) (λ n. poll-Late env c h)

schedule_next-Late :
    (env : Env) (p : NextPoll) (c : Controller)
    → c.not_before ≡ 0
    → Late c
    → Late (schedule_next env p c)
unfolding schedule_next schedule_at
schedule_next-Late env p c z h = record { is_late = ground (arith, h.is_late) }

recovered-Late : (c : Controller) → Late (recovered c)
recovered-Late c = record { is_late = ground arith }

accept-Late : (env : Env) (b : Body) (c : Controller) → Late (accept env b c)
unfolding accept apply_next
accept-Late env b c =
    schedule_next-Late env b.next_poll
      (apply_next env.now b (next_admission b.admission) (recovered c)) refl (recovered-Late c)

fail-Late : (env : Env) (r : Response) (c : Controller) → Late (fail env r c)
unfolding fail schedule_at
fail-Late env r c = record {
  is_late =
      ground (arith, hidden_mono (suc c.failures) env.hidden r.server_min r.retry_after env.draw);
}

handles-Late : (env : Env) → Handles env Late Late
handles-Late env = record {
  kept = λ c h. h;
  problem = λ x c h. h;
  notice = λ x c h. h;
  forgotten = λ c h. h;
  intent = λ c h. h;
  accepting = λ b c h. accept-Late env b c;
  leaving = λ c h. recovered-Late c;
  failing = λ r c h. fail-Late env r c;
  refreshing = λ c h. refresh-Late env c h;
}

purchase_answer-Late :
    (env : Env) (r : Response) (p : Option Purchase) (c : Controller)
    → Late c
    → Late (purchase_answer env r p c)
unfolding purchase_answer
purchase_answer-Late env r none c h = h
purchase_answer-Late env r (some p) c h =
    if_both Late (undecided r.status || is_in_progress r.code) _ _
      (λ y. if_both Late (leb 4 p.auto) _ _ (λ x. refresh-Late env _ h) (λ n. h))
      (λ n. refresh-Late env _ h)

done-Late :
    (env : Env) (r : Response) (q : Request) (c : Controller) → Late c → Late (done env r q c)
unfolding done on_status
done-Late env r Request.read_status c h = status_answer-Handles (handles-Late env) r _ c h
done-Late env r (Request.post_join e k) c h = join_answer-Handles (handles-Late env) r _ _ h
done-Late env r (Request.delete_entry i e) c h = cancel_answer-Handles (handles-Late env) i r _ _ h
done-Late env r (Request.post_purchase b) c h = purchase_answer-Late env r c.purchase c h

finish_flight-Late :
    (env : Env) (r : Response) (f : Flight) (c : Controller)
    → Late c
    → Late (finish_flight env r f c)
unfolding finish_flight
finish_flight-Late env r f c h = done-Late env r f.request _ h

fire_poll-Late : (env : Env) (d : Option ℕ) (c : Controller) → Late c → Late (fire_poll env d c)
fire_poll-Late env none c h = h
fire_poll-Late env (some d) c h =
    if_both Late (leb d env.now) _ _ (λ y. poll-Late env (unschedule c) (record { is_late = refl }))
      (λ n. h)

fire_open-Late :
    (env : Env) (p : Option Purchase) (c : Controller) → Late c → Late (fire_open env p c)
unfolding attempt send
fire_open-Late env none c h = h
fire_open-Late env (some p) c h = by_timer p.timer
  where
    by_timer : (d : Option ℕ) → Late (fire_purchase env p d c)
    by_timer none = h
    by_timer (some d) = if_both Late (leb d env.now) _ _ (λ y. h) (λ n. h)

stop_open-Late :
    (env : Env) (p : Option Purchase) (c : Controller) → Late c → Late (stop_open env p c)
stop_open-Late env none c h = h
stop_open-Late env (some p) c h =
    if_both Late (is_left p.status) _ _ (λ y. h) (λ n. refresh-Late env _ h)

on_visibility-Late : (env : Env) (c : Controller) → Late c → Late (on_visibility env c)
unfolding on_visibility show schedule_at
on_visibility-Late env c h = record { is_late = ground (arith, h.is_late) }

step-Late : (env : Env) (e : PageEvent) (c : Controller) → Late c → Late (step env e c)
unfolding step join cancel mutate send start_purchase retry_purchase attempt stop_purchase start
    set_mode dispose
step-Late env (PageEvent.answered ticket r) c h =
    finish_ticket-if Late env ticket r c.flight c h (λ g e. finish_flight-Late env r g c h)
step-Late env PageEvent.timed_out c h =
    time_out-if Late env c.flight c h (λ g e. finish_flight-Late env no_response g c h)
step-Late env PageEvent.poll_fires c h = fire_poll-Late env c.poll_timer c h
step-Late env PageEvent.purchase_fires c h = fire_open-Late env c.purchase c h
step-Late env PageEvent.visibility_changed c h = on_visibility-Late env c h
step-Late env PageEvent.started c h =
    if_both Late (c.started || c.disposed) _ _ (λ y. h)
      (λ n. poll-Late env (restore_purchase env (record c { started = true })) h)
step-Late env PageEvent.joined c h = record { is_late = ground (arith, h.is_late) }
step-Late env PageEvent.cancelled c h = record { is_late = ground (arith, h.is_late) }
step-Late env (PageEvent.purchased body) c h = record { is_late = ground (arith, h.is_late) }
step-Late env PageEvent.purchase_retried c h = record { is_late = ground (arith, h.is_late) }
step-Late env PageEvent.purchase_stopped c h =
    if_both Late c.disposed _ _ (λ y. h) (λ n. stop_open-Late env c.purchase c h)
step-Late env (PageEvent.mode_set mode) c h = if_both Late c.disposed _ _ (λ y. h) (λ n. h)
step-Late env PageEvent.disposed c h =
    if_both Late c.disposed _ _ (λ y. h) (λ n. record { is_late = refl })

-- Whatever happens, the timer of the status poll is never set before the end of the error wait.
pub Reached-Late : {c : Controller} → Reached c → Late c
Reached-Late (Reached.created mode pending) = record { is_late = refl }
Reached-Late (Reached.happened env e r) = step-Late env e _ (Reached-Late r)
