-- ===== src/Polling/Frozen.antt =====
-- The body of a purchase in src/frontend/admission-polling.js: while its outcome is open, every request
-- repeats it.
use peak_pass.Prelude.{
  ℕ, ◌-◌, true, false, ◌≡◌, ◌⊎◌, refl, sym, ◌∙◌, ap, subst, leb, inl, inr, Bool-cases, Option-cases,
  ==→eq, Option, none, some, arith, ◌||◌, is_none, not, ◌&&◌,
}
use peak_pass.Polling.{
  Controller, Env, Request, Response, Flight, PurchaseBody, PurchaseStatus, Purchase,
}
use peak_pass.Polling.Answers.{undecided}
use peak_pass.Polling.Actions.{
  attempt, send, refresh, drop, start_purchase, stop_purchase, stop_open, retry_purchase,
  retry_open, is_left, is_admitted, idle, unconfirmed_purchase, stored,
}
use peak_pass.Polling.Events.{
  PageEvent, Reached, step, finish_flight, done, purchase_answer, fire_purchase, fire_open, start,
  dispose, is_in_progress, stopped_timer,
}
use peak_pass.Polling.Handling.{if_both}
use peak_pass.Polling.Exclusion.{same_body, Exclusive}
use peak_pass.Polling.Exclusion.Steps.{step-Exclusive, Reached-Exclusive}
use peak_pass.Polling.Buying.{
  SameBuy, is_press, press_if, refresh-SameBuy, queue_answer-SameBuy, Touches, step-Touches,
}

abbrev pub body_of : Option Purchase → Option PurchaseBody
body_of none = none
body_of (some p) = some p.body

-- The purchase before is over, or has its body still.
abbrev Kept : Option PurchaseBody → Controller → Type 0
Kept b d = (body_of d.purchase ≡ none) ⊎ (body_of d.purchase ≡ b)

still-Kept : (c d : Controller) → SameBuy c d → Kept (body_of c.purchase) d
still-Kept c d s = inr (ap body_of s.same_purchase)

refresh-Kept :
    (env : Env) (b : Option PurchaseBody) (d : Controller) → Kept b d → Kept b (refresh env d)
refresh-Kept env b d k = let s = refresh-SameBuy env d in rw (s.same_purchase) k

purchase_answer-Kept :
    (env : Env) (r : Response) (p : Option Purchase) (c : Controller)
    → c.purchase ≡ p
    → Kept (body_of p) (purchase_answer env r p c)
unfolding purchase_answer
purchase_answer-Kept env r none c e = inr (ap body_of e)
purchase_answer-Kept env r (some p) c e =
    if_both (Kept (some p.body)) (undecided r.status || is_in_progress r.code) _ _
      (λ y.
        if_both (Kept (some p.body)) (leb 4 p.auto) _ _
          (λ x.
            refresh-Kept env (some p.body)
              (record c { purchase = some (record p { status = PurchaseStatus.unconfirmed }) })
              (inr refl))
          (λ n. inr refl))
      (λ n.
        refresh-Kept env (some p.body)
          (record c { purchase = none; pending = stored env none c.pending }) (inl refl))

done-Kept :
    (env : Env) (r : Response) (q : Request) (c : Controller)
    → Kept (body_of c.purchase) (done env r q c)
unfolding done
done-Kept env r Request.read_status c =
    still-Kept c (done env r Request.read_status c)
      (queue_answer-SameBuy env r Request.read_status c refl)
done-Kept env r (Request.post_join e k) c =
    still-Kept c (done env r (Request.post_join e k) c)
      (queue_answer-SameBuy env r (Request.post_join e k) c refl)
done-Kept env r (Request.delete_entry i e) c =
    still-Kept c (done env r (Request.delete_entry i e) c)
      (queue_answer-SameBuy env r (Request.delete_entry i e) c refl)
done-Kept env r (Request.post_purchase b) c = purchase_answer-Kept env r c.purchase c refl

finish_flight-Kept :
    (env : Env) (r : Response) (f : Flight) (c : Controller)
    → Kept (body_of c.purchase) (finish_flight env r f c)
unfolding finish_flight
finish_flight-Kept env r f c =
    done-Kept env r f.request
      (record c { flight = none; outstanding = c.outstanding - 1; last_done = some env.now })

fire_open-Kept :
    (env : Env) (p : Option Purchase) (c : Controller)
    → c.purchase ≡ p
    → Kept (body_of p) (fire_open env p c)
unfolding attempt send
fire_open-Kept env none c e = inr (ap body_of e)
fire_open-Kept env (some p) c e = by_timer p.timer
  where
    by_timer : (d : Option ℕ) → Kept (some p.body) (fire_purchase env p d c)
    by_timer none = inr (ap body_of e)
    by_timer (some d) =
        if_both (Kept (some p.body)) (leb d env.now) _ _ (λ y. inr refl) (λ n. inr (ap body_of e))

retry_open-Kept :
    (env : Env) (p : Option Purchase) (c : Controller)
    → c.purchase ≡ p
    → Kept (body_of p) (retry_open env p c)
unfolding attempt send
retry_open-Kept env none c e = inr (ap body_of e)
retry_open-Kept env (some p) c e =
    if_both (Kept (some p.body)) (is_left p.status) _ _ (λ y. inr refl) (λ n. inr (ap body_of e))

stop_open-Kept :
    (env : Env) (p : Option Purchase) (c : Controller)
    → c.purchase ≡ p
    → Kept (body_of p) (stop_open env p c)
stop_open-Kept env none c e = inr (ap body_of e)
stop_open-Kept env (some p) c e =
    if_both (Kept (some p.body)) (is_left p.status) _ _ (λ y. inr (ap body_of e))
      (λ n.
        refresh-Kept env (some p.body)
          (record (drop c) { purchase = some (unconfirmed_purchase p) }) (inr refl))

not_idle :
    (c : Controller) (p : Purchase) → c.purchase ≡ some p → (idle c && is_admitted c.phase) ≡ false
not_idle c p e = ground (arith, e)

started_once :
    (c : Controller) (p : Purchase)
    → Exclusive c
    → c.purchase ≡ some p
    → (c.started || c.disposed) ≡ true
started_once c p h e = ground (arith, h.is_coherent, e)

stopped_body : (p : Option Purchase) → body_of (stopped_timer p) ≡ body_of p
stopped_body none = refl
stopped_body (some p) = refl

touches-Kept :
    (env : Env) (c : Controller) (p : Purchase)
    → Exclusive c
    → c.purchase ≡ some p
    → Touches env c (Kept (body_of c.purchase))
unfolding start stop_purchase dispose
touches-Kept env c p h e = record {
  unchanged = λ d s. still-Kept c d s;
  answering = λ r f q. finish_flight-Kept env r f c;
  firing = fire_open-Kept env c.purchase c refl;
  starting =
      if_both (Kept (body_of c.purchase)) (c.started || c.disposed) _ _ (λ y. inr refl)
        (λ n. absurd (ground (arith, n, started_once c p h e)));
  stopping =
      if_both (Kept (body_of c.purchase)) c.disposed _ _ (λ y. inr refl)
        (λ n. stop_open-Kept env c.purchase c refl);
  disposing =
      if_both (Kept (body_of c.purchase)) c.disposed _ _ (λ y. inr refl)
        (λ n. inr (stopped_body c.purchase));
}

-- A press of a button does not change an open purchase either.
press-Kept :
    (env : Env) (e : PageEvent) (c : Controller) (p : Purchase)
    → c.purchase ≡ some p
    → is_press e ≡ true
    → Kept (body_of c.purchase) (step env e c)
unfolding step start_purchase retry_purchase
press-Kept env e c p o y =
    press_if (λ x. Kept (body_of c.purchase) (step env x c))
      (λ b.
        if_both (Kept (body_of c.purchase)) (idle c && is_admitted c.phase) _ _
          (λ x. absurd (ground (arith, x, not_idle c p o))) (λ n. inr refl))
      (if_both (Kept (body_of c.purchase)) (c.started && not c.disposed && is_none c.busy) _ _
        (λ x. retry_open-Kept env c.purchase c refl) (λ n. inr refl))
      e y

step-Kept :
    (env : Env) (e : PageEvent) (c : Controller) (p : Purchase)
    → Exclusive c
    → c.purchase ≡ some p
    → Kept (body_of c.purchase) (step env e c)
step-Kept env e c p h o = elim (Bool-cases (is_press e)) [
  | inl y ↦ press-Kept env e c p o y
  | inr n ↦ step-Touches (touches-Kept env c p h o) e n
]

same_body→eq : (a b : PurchaseBody) → same_body a b ≡ true → a ≡ b
same_body→eq a b h =
    let u : a.user_id ≡ b.user_id = ==→eq a.user_id b.user_id (ground arith) in
    let e : a.event_id ≡ b.event_id = ==→eq a.event_id b.event_id (ground arith) in
    let t : a.template ≡ b.template = ==→eq a.template b.template (ground arith) in
    λ i. record { user_id = u i; event_id = e i; template = t i }

flying_body :
    (c : Controller) (f : Flight) (b : PurchaseBody)
    → Exclusive c
    → c.flight ≡ some f
    → f.request ≡ Request.post_purchase b
    → body_of c.purchase ≡ some b
flying_body c f b h e q = elim (Option-cases c.purchase) [
  | inl n ↦ absurd (ground (arith, h.is_coherent, e, q, n))
  | inr (p, m) ↦
      ap body_of m ∙ ap some (same_body→eq p.body b (ground (arith, h.is_coherent, e, q, m)))
]

-- The body of the purchase request in flight.
abbrev request_body : Request → Option PurchaseBody
request_body (Request.post_purchase b) = some b
request_body _ = none

abbrev pub body_in_flight : Option Flight → Option PurchaseBody
body_in_flight none = none
body_in_flight (some f) = request_body f.request

in_flight :
    (c : Controller) (f : Option Flight)
    → Exclusive c
    → c.flight ≡ f
    → (body_in_flight f ≡ none) ⊎ (body_in_flight f ≡ body_of c.purchase)
in_flight c none h e = inl refl
in_flight c (some f) h e = by_request f.request refl
  where
    by_request :
        (q : Request)
        → f.request ≡ q
        → (request_body q ≡ none) ⊎ (request_body q ≡ body_of c.purchase)
    by_request Request.read_status m = inl refl
    by_request (Request.post_join k j) m = inl refl
    by_request (Request.delete_entry k j) m = inl refl
    by_request (Request.post_purchase b) m = inr (sym (flying_body c f b h e m))

-- In every state that is reached with a purchase, whatever happens next ends that purchase or leaves
-- its body as it is; and then the request in flight is no purchase, or of the body of the purchase.
pub frozen-body :
    {c : Controller} (env : Env) (e : PageEvent) (p : Purchase)
    → Reached c
    → c.purchase ≡ some p
    → ((body_of (step env e c).purchase ≡ none) ⊎ (body_of (step env e c).purchase ≡ some p.body))
      × ((body_in_flight (step env e c).flight ≡ none)
          ⊎ (body_in_flight (step env e c).flight ≡ body_of (step env e c).purchase))
frozen-body {c} env e p r o = (
  subst (λ x. Kept x (step env e c)) (ap body_of o) (step-Kept env e c p (Reached-Exclusive r) o),
  in_flight (step env e c) (step env e c).flight (step-Exclusive env e c (Reached-Exclusive r))
      refl,
)
