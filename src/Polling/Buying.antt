-- ===== src/Polling/Buying.antt =====
-- The operations of src/frontend/admission-polling.js that leave the purchase and its requests alone:
-- the poll, and the answers of the queue.
use peak_pass.Prelude.{
  ℕ, suc, Bool, true, false, ◌≡◌, refl, ◌∙◌, leb, ltb, if◌then◌else◌, Option, none, some, List, [],
  ◌∷◌, arith, ◌||◌, is_some,
}
use peak_pass.Polling.{
  Controller, Env, Request, Body, NextPoll, Response, Flight, Purchase, PurchaseBody, no_response,
}
use peak_pass.Polling.Answers.{
  accept, apply_next, schedule_at, schedule_next, fail, on_status, next_admission, recovered,
}
use peak_pass.Polling.Actions.{
  send, poll, refresh, mutate, join, cancel, purchasing, unschedule, stop_purchase,
}
use peak_pass.Polling.Events.{
  PageEvent, step, done, finish_flight, fire_poll, fire_open, on_visibility, show, start, set_mode,
  dispose,
}
use peak_pass.Polling.Handling.{
  Handles, if_both, status_answer-Handles, join_answer-Handles, cancel_answer-Handles,
  finish_ticket-if, time_out-if,
}

-- A press of a button that sends a purchase.
abbrev pub is_press : PageEvent → Bool
is_press (PageEvent.purchased body) = true
is_press PageEvent.purchase_retried = true
is_press _ = false

pub press_if :
    (Q : PageEvent → Type 0)
    → ((b : PurchaseBody) → Q (PageEvent.purchased b))
    → Q PageEvent.purchase_retried
    → (e : PageEvent) → is_press e ≡ true
    → Q e
press_if Q h k (PageEvent.purchased body) y = h body
press_if Q h k PageEvent.purchase_retried y = k
press_if Q h k (PageEvent.answered ticket r) y = absurd (ground arith)
press_if Q h k PageEvent.timed_out y = absurd (ground arith)
press_if Q h k PageEvent.poll_fires y = absurd (ground arith)
press_if Q h k PageEvent.purchase_fires y = absurd (ground arith)
press_if Q h k PageEvent.visibility_changed y = absurd (ground arith)
press_if Q h k PageEvent.started y = absurd (ground arith)
press_if Q h k PageEvent.joined y = absurd (ground arith)
press_if Q h k PageEvent.cancelled y = absurd (ground arith)
press_if Q h k PageEvent.purchase_stopped y = absurd (ground arith)
press_if Q h k (PageEvent.mode_set m) y = absurd (ground arith)
press_if Q h k PageEvent.disposed y = absurd (ground arith)

abbrev pub is_purchase : Request → Bool
is_purchase (Request.post_purchase b) = true
is_purchase _ = false

-- How many purchase requests were sent.
abbrev pub purchase_requests : List (ℕ × Request) → ℕ
purchase_requests [] = 0
purchase_requests ((t, r) ∷ sent) =
    let rest = purchase_requests sent in if is_purchase r then suc rest else rest

-- The requests before and after, and the purchase before and after.
pub record SameAt (s t : List (ℕ × Request)) (p q : Option Purchase) : Type 0 where
  pub same_count : purchase_requests t ≡ purchase_requests s
  pub same_purchase : q ≡ p

abbrev pub SameBuy : Controller → Controller → Type 0
SameBuy c d = SameAt c.sent d.sent c.purchase d.purchase

pub same : (c : Controller) → SameBuy c c
same c = record { same_count = refl; same_purchase = refl }

-- A step that changes neither comes after one that does not.
then_same : (c d e : Controller) → SameBuy c d → SameBuy d e → SameBuy c e
then_same c d e h k = record {
  same_count = k.same_count ∙ h.same_count;
  same_purchase = k.same_purchase ∙ h.same_purchase;
}

pub poll-SameBuy : (env : Env) (c : Controller) → SameBuy c (poll env c)
unfolding poll send
poll-SameBuy env c =
    if_both (SameBuy c) (c.disposed || is_some c.flight || purchasing c) c _ (λ y. same c)
      (λ n. record { same_count = refl; same_purchase = refl })

pub refresh-SameBuy : (env : Env) (c : Controller) → SameBuy c (refresh env c)
unfolding refresh schedule_at
refresh-SameBuy env c =
    if_both (SameBuy c) (ltb env.now c.not_before) _ _ (λ y. same c) (λ n. poll-SameBuy env c)

schedule_next-SameBuy :
    (env : Env) (p : NextPoll) (c d : Controller) → SameBuy c d → SameBuy c (schedule_next env p d)
unfolding schedule_next schedule_at
schedule_next-SameBuy env NextPoll.null_poll c d h = h
schedule_next-SameBuy env NextPoll.other_poll c d h = h
schedule_next-SameBuy env (NextPoll.millis n) c d h = h

accept-SameBuy :
    (env : Env) (b : Body) (c d : Controller) → SameBuy c d → SameBuy c (accept env b d)
unfolding accept apply_next
accept-SameBuy env b c d h =
    schedule_next-SameBuy env b.next_poll c
      (apply_next env.now b (next_admission b.admission) (recovered d)) h

fail-SameBuy :
    (env : Env) (r : Response) (c d : Controller) → SameBuy c d → SameBuy c (fail env r d)
unfolding fail schedule_at
fail-SameBuy env r c d h = h

handles-SameBuy : (env : Env) (c : Controller) → Handles env (SameBuy c) (SameBuy c)
handles-SameBuy env c = record {
  kept = λ d h. h;
  problem = λ x d h. h;
  notice = λ x d h. h;
  forgotten = λ d h. h;
  intent = λ d h. h;
  accepting = λ b d h. accept-SameBuy env b c d h;
  leaving = λ d h. h;
  failing = λ r d h. fail-SameBuy env r c d h;
  refreshing = λ d h. then_same c d (refresh env d) h (refresh-SameBuy env d);
}

-- The answers of the queue, which come to a page without a purchase request in flight.
pub queue_answer-SameBuy :
    (env : Env) (r : Response) (q : Request) (c : Controller)
    → is_purchase q ≡ false
    → SameBuy c (done env r q c)
unfolding done on_status
queue_answer-SameBuy env r Request.read_status c n =
    status_answer-Handles (handles-SameBuy env c) r _ c (same c)
queue_answer-SameBuy env r (Request.post_join e k) c n =
    join_answer-Handles (handles-SameBuy env c) r _ _ (same c)
queue_answer-SameBuy env r (Request.delete_entry i e) c n =
    cancel_answer-Handles (handles-SameBuy env c) i r _ _ (same c)
queue_answer-SameBuy env r (Request.post_purchase b) c n = absurd (ground arith)

fire_poll-SameBuy : (env : Env) (d : Option ℕ) (c : Controller) → SameBuy c (fire_poll env d c)
fire_poll-SameBuy env none c = same c
fire_poll-SameBuy env (some d) c =
    if_both (SameBuy c) (leb d env.now) _ _ (λ y. poll-SameBuy env (unschedule c)) (λ n. same c)

join-SameBuy : (env : Env) (c : Controller) → SameBuy c (join env c)
unfolding join mutate send
join-SameBuy env c = record { same_count = ground arith; same_purchase = ground arith }

cancel-SameBuy : (env : Env) (c : Controller) → SameBuy c (cancel env c)
unfolding cancel mutate send
cancel-SameBuy env c = record { same_count = ground arith; same_purchase = ground arith }

on_visibility-SameBuy : (env : Env) (c : Controller) → SameBuy c (on_visibility env c)
unfolding on_visibility show schedule_at
on_visibility-SameBuy env c = record { same_count = ground arith; same_purchase = ground arith }

-- What an event does for the purchase, for a property of the states after it that a controller with
-- the same purchase and the same requests has: its cases are the events that touch a purchase.
pub record Touches (env : Env) (c : Controller) (P : Controller → Type 0) : Type 0 where
  pub unchanged : (d : Controller) → SameBuy c d → P d
  pub answering : (r : Response) (f : Flight) → c.flight ≡ some f → P (finish_flight env r f c)
  pub firing : P (fire_open env c.purchase c)
  pub starting : P (start env c)
  pub stopping : P (stop_purchase env c)
  pub disposing : P (dispose c)

pub step-Touches :
    {env : Env} {c : Controller} {P : Controller → Type 0}
    → Touches env c P
    → (e : PageEvent) → is_press e ≡ false
    → P (step env e c)
unfolding step set_mode
step-Touches {env} {c} {P} t (PageEvent.answered ticket r) n =
    finish_ticket-if P env ticket r c.flight c (t.unchanged c (same c)) (λ g e. t.answering r g e)
step-Touches {env} {c} {P} t PageEvent.timed_out n =
    time_out-if P env c.flight c (t.unchanged c (same c)) (λ g e. t.answering no_response g e)
step-Touches {env} {c} t PageEvent.poll_fires n =
    t.unchanged _ (fire_poll-SameBuy env c.poll_timer c)
step-Touches t PageEvent.purchase_fires n = t.firing
step-Touches {env} {c} t PageEvent.visibility_changed n =
    t.unchanged _ (on_visibility-SameBuy env c)
step-Touches t PageEvent.started n = t.starting
step-Touches {env} {c} t PageEvent.joined n = t.unchanged _ (join-SameBuy env c)
step-Touches {env} {c} t PageEvent.cancelled n = t.unchanged _ (cancel-SameBuy env c)
step-Touches t (PageEvent.purchased body) n = absurd (ground arith)
step-Touches t PageEvent.purchase_retried n = absurd (ground arith)
step-Touches t PageEvent.purchase_stopped n = t.stopping
step-Touches {env} {c} {P} t (PageEvent.mode_set mode) n =
    if_both P c.disposed _ _ (λ y. t.unchanged c (same c))
      (λ m. t.unchanged (record c { mode = mode }) (same c))
step-Touches t PageEvent.disposed n = t.disposing
