-- ===== src/Polling/Handling.antt =====
-- What the handlers of an answer in src/frontend/admission-polling.js have in common: each of them
-- accepts the answer, fails, leaves the queue, reads the state again or notes something.
use peak_pass.Prelude.{
  ℕ, Bool, true, false, ◌≡◌, refl, if◌then◌else◌, inl, inr, Bool-cases, Option, none, some, ◌||◌,
  ◌==◌, leb,
}
use peak_pass.Polling.{Controller, Env, Body, Response, Flight, Code, Problem, no_response}
use peak_pass.Polling.Answers.{accept, unqueued, fail, undecided, status_answer, status_error}
use peak_pass.Polling.Actions.{refresh}
use peak_pass.Polling.Events.{
  refused, second, ended_attempt, join_answer, is_entry, cancel_answer, finish_flight,
  finish_ticket, time_out,
}

-- `Q` holds before an answer is handled, and `P` afterwards.
pub record Handles (env : Env) (Q P : Controller → Type 0) : Type 0 where
  pub kept : (c : Controller) → Q c → P c
  pub problem : (x : Option Problem) (c : Controller) → Q c → P (record c { problem = x })
  pub notice : (x : Option Code) (c : Controller) → Q c → Q (record c { notice = x })
  pub forgotten : (c : Controller) → Q c → Q (record c { intent = none })
  pub intent : (c : Controller) → P c → P (record c { intent = none })
  pub accepting : (b : Body) (c : Controller) → Q c → P (accept env b c)
  pub leaving : (c : Controller) → Q c → P (unqueued c)
  pub failing : (r : Response) (c : Controller) → Q c → P (fail env r c)
  pub refreshing : (c : Controller) → Q c → P (refresh env c)

pub if_both :
    (P : Controller → Type 0) (t : Bool) (c d : Controller)
    → (t ≡ true → P c)
    → (t ≡ false → P d)
    → P (if t then c else d)
if_both P true c d h k = h refl
if_both P false c d h k = k refl

module _ {env : Env} {Q P : Controller → Type 0} (h : Handles env Q P) where
  status_error-Handles : (r : Response) (c : Controller) → Q c → P (status_error env r c)
  status_error-Handles r c q =
      if_both P (r.status == 404) _ _ (λ y. h.leaving c q)
        (λ n.
          if_both P (r.status == 401) _ _ (λ y. h.problem _ c q)
            (λ m.
              if_both P (r.status == 200 || undecided r.status) _ _ (λ y. h.failing r c q)
                (λ l. h.problem _ c q)))

  pub status_answer-Handles :
      (r : Response) (b : Option Body) (c : Controller) → Q c → P (status_answer env r b c)
  unfolding status_answer
  status_answer-Handles r none c q = status_error-Handles r c q
  status_answer-Handles r (some b) c q = h.accepting b c q

  refused-Handles :
      (r : Response) (k : Code) (c : Controller) → Q c → P (second (refused env r k c))
  unfolding refused
  refused-Handles r k c q = elim (Bool-cases (r.status == 401)) [
    | inl y ↦ rw (y) (h.problem _ c q)
    | inr n ↦ elim (Bool-cases (undecided r.status || r.status == 200 || r.status == 201)) [
      | inl y ↦ rw (n, y) (h.failing r _ (h.notice _ c q))
      | inr m ↦ rw (n, m) (h.refreshing _ (h.notice _ c q))
    ]
  ]

  ended_attempt-Handles : (x : Bool × Controller) → P (second x) → P (ended_attempt x)
  ended_attempt-Handles (true, c) p = h.intent c p
  ended_attempt-Handles (false, c) p = p

  pub join_answer-Handles :
      (r : Response) (b : Option Body) (c : Controller) → Q c → P (join_answer env r b c)
  unfolding join_answer
  join_answer-Handles r (some b) c q = h.accepting b c q
  join_answer-Handles r none c q =
      if_both P (r.status == 404) _ _ (λ y. h.leaving _ (h.forgotten c q))
        (λ n. ended_attempt-Handles _ (refused-Handles r Code.join_unconfirmed c q))

  pub cancel_answer-Handles :
      (target : ℕ) (r : Response) (b : Option Body) (c : Controller)
      → Q c
      → P (cancel_answer env target r b c)
  unfolding cancel_answer
  cancel_answer-Handles target r none c q = refused-Handles r Code.cancel_unconfirmed c q
  cancel_answer-Handles target r (some b) c q =
      if_both P (is_entry target b.admission) _ _ (λ y. h.accepting b c q)
        (λ n. refused-Handles r Code.cancel_unconfirmed c q)

-- An answer and a timeout, for a property that holds after the end of the request in flight.
pub finish_ticket-if :
    (P : Controller → Type 0) (env : Env) (ticket : ℕ) (r : Response) (f : Option Flight)
    (c : Controller)
    → P c
    → ((g : Flight) → f ≡ some g → P (finish_flight env r g c))
    → P (finish_ticket env ticket r f c)
finish_ticket-if P env ticket r none c p k = p
finish_ticket-if P env ticket r (some f) c p k =
    if_both P (f.ticket == ticket) _ _ (λ y. k f refl) (λ n. p)

pub time_out-if :
    (P : Controller → Type 0) (env : Env) (f : Option Flight) (c : Controller)
    → P c
    → ((g : Flight) → f ≡ some g → P (finish_flight env no_response g c))
    → P (time_out env f c)
time_out-if P env none c p k = p
time_out-if P env (some f) c p k = if_both P (leb f.timeout_at env.now) _ _ (λ y. k f refl) (λ n. p)
