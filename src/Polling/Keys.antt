-- ===== src/Polling/Keys.antt =====
-- The keys of a repeated request in src/frontend/admission-polling.js: a join that is repeated after a
-- lost answer.
use peak_pass.Prelude.{
  ℕ, ◌+◌, ◌≤◌, true, false, ◌≡◌, refl, sym, ◌∙◌, ap, subst, if◌then◌else◌, inl, inr, Bool-cases,
  Option, none, some, ◌∷◌, arith, ◌||◌, ◌==◌, ==→eq, ◌-◌, ==_refl,
}
use peak_pass.Polling.{Controller, Env, Request, Response, Flight, Intent, Admission, Code}
use peak_pass.Polling.Answers.{schedule_at, fail, usable_at, undecided}
use peak_pass.Polling.Actions.{send, mutate, join, join_as, join_intent, ready, is_joinable}
use peak_pass.Polling.Events.{PageEvent, step, finish_flight, done, refused, join_answer}

intent_epoch :
    (env : Env) (e : ℕ) (a : Option Admission) (i : Option Intent)
    → (join_intent env e a i).epoch ≡ e
unfolding join_intent
intent_epoch env e a none = refl
intent_epoch env e a (some i) = elim (Bool-cases (i.epoch == e)) [
  | inl y ↦ rw (y) (==→eq i.epoch e y)
  | inr n ↦ rw (n) refl
]

join-ready :
    (env : Env) (e : ℕ) (c : Controller)
    → ready env c ≡ true
    → is_joinable c.phase ≡ true
    → c.epoch ≡ some e
    → join env c ≡ join_as env (join_intent env e c.admission c.intent) c
unfolding join
join-ready env e c r p q = rw (r, p, q) refl

not_usable :
    (event : ℕ) (r : Response)
    → undecided r.status ≡ true
    → usable_at event (r.status == 200 || r.status == 201) r ≡ none
not_usable event r u = ground (arith, u)

undecided_lost :
    (env : Env) (r : Response) (c : Controller)
    → undecided r.status ≡ true
    → join_answer env r none c
      ≡ fail env r
          (record c { notice = if r.status == 429 then r.code else some Code.join_unconfirmed })
unfolding join_answer refused
undecided_lost env r c u =
    let n : (r.status == 404) ≡ false = ground (arith, u) in
    let m : (r.status == 401) ≡ false = ground (arith, u) in
    let y : (undecided r.status || r.status == 200 || r.status == 201) ≡ true = ground (arith, u) in
    rw (n, m, y) refl

-- The controller when the answer to a join was lost.
abbrev after_loss : Env → Response → Controller → Controller
after_loss env r c = fail env r (record c {
  flight = none;
  outstanding = c.outstanding - 1;
  last_done = some env.now;
  busy = none;
  notice = if r.status == 429 then r.code else some Code.join_unconfirmed;
})

lost_step :
    (env : Env) (r : Response) (i : Intent) (c : Controller) (f : Flight)
    → undecided r.status ≡ true
    → c.flight ≡ some f
    → f.request ≡ Request.post_join i.epoch i.join_request_id
    → step env (PageEvent.answered f.ticket r) c ≡ after_loss env r c
unfolding step finish_flight done
lost_step env r i c f u e q =
    rw (e, ==_refl f.ticket, q, not_usable env.event_id r u)
      (undecided_lost env r
        (record c {
          flight = none;
          outstanding = c.outstanding - 1;
          last_done = some env.now;
          busy = none;
        })
        u)

kept_intent :
    (env : Env) (e : ℕ) (a : Option Admission) (i : Intent)
    → i.epoch ≡ e
    → join_intent env e a (some i) ≡ i
unfolding join_intent
kept_intent env e a i q = rw (q, ==_refl e) refl

-- A ready controller is ready again after the wait, with the same attempt.
again :
    (env1 env2 env3 : Env) (r : Response) (e : ℕ) (i : Intent) (c : Controller)
    → ready env1 c ≡ true
    → is_joinable c.phase ≡ true
    → c.epoch ≡ some e
    → i.epoch ≡ e
    → (after_loss env2 r (join_as env1 i c)).not_before ≤ env3.now
    → (join env3 (after_loss env2 r (join_as env1 i c))).sent
      ≡ (env3.now, Request.post_join i.epoch i.join_request_id) ∷ (join_as env1 i c).sent
unfolding fail schedule_at mutate send
again env1 env2 env3 r e i c rd j p q w =
    let d = after_loss env2 r (join_as env1 i c) in
    ap (λ x. x.sent) (join-ready env3 e d (ground (arith, rd, w)) j p)
    ∙ ap (λ k. (env3.now, Request.post_join k.epoch k.join_request_id) ∷ (join_as env1 i c).sent)
        (kept_intent env3 e c.admission i q)

-- A join that is sent in an epoch and whose answer is lost (no response, a timeout, 429 or 5xx) is
-- repeated after the wait with the same key: both requests are of this epoch and of one key.
pub join_repeats :
    (env1 env2 env3 : Env) (r : Response) (e : ℕ) (c : Controller)
    → ready env1 c ≡ true
    → is_joinable c.phase ≡ true
    → c.epoch ≡ some e
    → undecided r.status ≡ true
    → (step env2 (PageEvent.answered c.tickets r) (join env1 c)).not_before ≤ env3.now
    → (key : ℕ) × ((join env1 c).sent ≡ (env1.now, Request.post_join e key) ∷ c.sent)
      × ((join env3 (step env2 (PageEvent.answered c.tickets r) (join env1 c))).sent
          ≡ (env3.now, Request.post_join e key) ∷ (join env1 c).sent)
unfolding mutate send
join_repeats env1 env2 env3 r e c rd j p u w =
    let i = join_intent env1 e c.admission c.intent in
    let q = intent_epoch env1 e c.admission c.intent in
    let first = join-ready env1 e c rd j p in
    let d = join_as env1 i c in
    let lost =
      ap (step env2 (PageEvent.answered c.tickets r)) first
      ∙ lost_step env2 r i d
          (record {
            ticket = c.tickets;
            request = Request.post_join i.epoch i.join_request_id;
            timeout_at = env1.now + 5000;
          })
          u refl refl in
    (
      i.join_request_id,
      ap (λ x. x.sent) first
          ∙ ap (λ x. (env1.now, Request.post_join x i.join_request_id) ∷ c.sent) q,
      ap (λ x. (join env3 x).sent) lost
          ∙ (again env1 env2 env3 r e i c rd j p q (subst (λ x. x.not_before ≤ env3.now) lost w)
              ∙ (ap (λ x. (env3.now, Request.post_join x i.join_request_id) ∷ d.sent) q
                  ∙ ap (λ x. (env3.now, Request.post_join e i.join_request_id) ∷ x.sent)
                      (sym first))),
    )
