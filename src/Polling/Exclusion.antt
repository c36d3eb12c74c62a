-- ===== src/Polling/Exclusion.antt =====
-- One request at a time in src/frontend/admission-polling.js: what the flight, the timers, `busy` and
-- the purchase say of each other in every state.
pub mod Landing
pub mod Acts
pub mod Steps
use peak_pass.Prelude.{
  ℕ, ◌-◌, Bool, true, false, ◌≡◌, refl, sym, subst, leb, ltb, if◌then◌else◌, inl, inr, Bool-cases,
  Option, none, some, arith, ◌||◌, ◌==◌, is_some, is_none, not, ◌&&◌, ==_refl,
}
use peak_pass.Polling.{
  Controller, Env, Request, Body, NextPoll, Response, Flight, PurchaseBody, PurchaseStatus,
  Purchase, Code, Busy, PollMode, no_response,
}
use peak_pass.Polling.Answers.{
  accept, apply_next, next_admission, recovered, schedule_at, schedule_next, fail, on_status,
  undecided, usable_at,
}
use peak_pass.Polling.Actions.{
  send, poll, refresh, mutate, join, cancel, attempt, start_purchase, retry_purchase, stop_purchase,
  purchasing, is_left, restored, stop_open, retry_open, drop, unconfirmed_purchase,
  restore_purchase, unschedule,
}
use peak_pass.Polling.Events.{
  PageEvent, Reached, step, finish_flight, done, purchase_answer, fire_poll, fire_purchase,
  fire_open, on_visibility, show, start, set_mode, dispose, is_in_progress,
}
use peak_pass.Polling.Handling.{
  Handles, if_both, status_answer-Handles, join_answer-Handles, cancel_answer-Handles,
  finish_ticket-if, time_out-if,
}

abbrev pub same_body : PurchaseBody → PurchaseBody → Bool
same_body a b = a.user_id == b.user_id && a.event_id == b.event_id && a.template == b.template

-- A purchase that repeats has its timer, and no other has one; at most four repeats are automatic.
abbrev pub timed : PurchaseStatus → Option ℕ → Bool
timed PurchaseStatus.retrying t = is_some t
timed PurchaseStatus.sending t = is_none t
timed PurchaseStatus.unconfirmed t = is_none t

abbrev pub sound_purchase : Purchase → Bool
sound_purchase p = timed p.status p.timer && leb p.auto 4

-- No purchase, or one whose outcome is open but for which nothing is sent any more.
abbrev pub settled : Option Purchase → Bool
settled none = true
settled (some p) = is_left p.status && sound_purchase p

abbrev pub is_sending : PurchaseStatus → Bool
is_sending PurchaseStatus.sending = true
is_sending _ = false

abbrev pub stopped : Option Purchase → Bool
stopped none = true
stopped (some p) = is_none p.timer && leb p.auto 4

-- The request in flight is the one that the page waits for.
abbrev pub expected : Request → Option Busy → Option Purchase → Bool
expected Request.read_status none p = settled p
expected (Request.post_join e k) (some Busy.joining) none = true
expected (Request.delete_entry i e) (some Busy.cancelling) none = true
expected (Request.post_purchase b) none (some p) =
    is_sending p.status && sound_purchase p && same_body p.body b
expected _ _ _ = false

-- Nothing is in flight: a purchase that repeats has the place of the poll.
abbrev pub at_rest : Option ℕ → Option Busy → Option Purchase → Bool
at_rest t none none = true
at_rest none none (some p) = not (is_sending p.status) && sound_purchase p
at_rest (some d) none (some p) = is_left p.status && sound_purchase p
at_rest _ _ _ = false

-- The first argument is whether the controller is started, the second whether it is disposed.
abbrev pub coherent :
    Bool → Bool → Option Flight → Option ℕ → Option Busy → Option Purchase → ℕ → Bool
coherent false d none none none none n = n == 0
coherent false d _ _ _ _ n = false
coherent true true none none b p n = stopped p && (n == 0)
coherent true true _ _ b p n = false
coherent true false none t b p n = at_rest t b p && (n == 0)
coherent true false (some f) none b p n = expected f.request b p && (n == 1)
coherent true false (some f) (some d) b p n = false

pub record Exclusive (c : Controller) : Type 0 where
  pub is_coherent :
      coherent c.started c.disposed c.flight c.poll_timer c.busy c.purchase c.outstanding ≡ true

-- Nothing is in flight and no purchase goes on.
pub record FreeAt (s : Bool) (d : Bool) (f : Option Flight) (b : Option Busy) (p : Option Purchase)
    (n : ℕ) : Type 0 where
  pub begun : s ≡ true
  pub running : d ≡ false
  pub landed : f ≡ none
  pub not_busy : b ≡ none
  pub is_settled : settled p ≡ true
  pub none_out : n ≡ 0

abbrev pub Free : Controller → Type 0
Free c = FreeAt c.started c.disposed c.flight c.busy c.purchase c.outstanding

at_rest-settled : (t : Option ℕ) (p : Option Purchase) → settled p ≡ true → at_rest t none p ≡ true
at_rest-settled t none h = refl
at_rest-settled none (some p) h = ground arith
at_rest-settled (some d) (some p) h = h

pub Free-Exclusive : (c : Controller) → Free c → Exclusive c
Free-Exclusive c f = record {
  is_coherent =
      rw
        (
          f.begun,
          f.running,
          f.landed,
          f.not_busy,
          f.none_out,
          at_rest-settled c.poll_timer c.purchase f.is_settled,
        )
        refl;
}

pub poll-Free : (env : Env) (c : Controller) → Free c → Exclusive (poll env c)
unfolding poll send
poll-Free env c f = elim (Bool-cases (c.disposed || is_some c.flight || purchasing c)) [
  | inl y ↦ rw (y) (Free-Exclusive c f)
  | inr n ↦
      rw (n) (record {
        is_coherent = rw (f.begun, f.running, f.not_busy, f.none_out, f.is_settled) refl;
      })
]

pub refresh-Free : (env : Env) (c : Controller) → Free c → Exclusive (refresh env c)
unfolding refresh schedule_at
refresh-Free env c f = elim (Bool-cases (ltb env.now c.not_before)) [
  | inl y ↦ rw (y) (Free-Exclusive _ f)
  | inr n ↦ rw (n) (poll-Free env c f)
]
