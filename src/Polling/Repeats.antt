-- ===== src/Polling/Repeats.antt =====
-- The repeats of a purchase in src/frontend/admission-polling.js: how many there are without a press.
use peak_pass.Prelude.{
  ℕ, ◌+◌, ◌-◌, ◌≤◌, Bool, true, ◌≡◌, refl, leb, if◌then◌else◌, Option, none, some, List, [], ◌∷◌,
  arith, ◌||◌, is_none, not, ◌&&◌,
}
use peak_pass.Polling.{
  Controller, Env, Request, Response, Flight, PurchaseBody, PurchaseStatus, Purchase,
}
use peak_pass.Polling.Answers.{undecided}
use peak_pass.Polling.Actions.{
  attempt, send, refresh, drop, start_purchase, stop_purchase, stop_open, retry_purchase,
  retry_open, is_left, is_admitted, idle, unconfirmed_purchase, stored, restored, restore_purchase,
}
use peak_pass.Polling.Events.{
  PageEvent, Reached, step, finish_flight, done, purchase_answer, fire_purchase, fire_open, start,
  dispose, is_in_progress,
}
use peak_pass.Polling.Handling.{if_both}
use peak_pass.Polling.Exclusion.{Exclusive}
use peak_pass.Polling.Exclusion.Steps.{step-Exclusive, Reached-Exclusive}
use peak_pass.Polling.Buying.{
  SameBuy, purchase_requests, is_press, press_if, same, poll-SameBuy, refresh-SameBuy,
  queue_answer-SameBuy, Touches, step-Touches,
}

-- The requests that a purchase can still send without a press of a button.
abbrev left_in : PurchaseStatus → ℕ → ℕ
left_in PurchaseStatus.sending auto = 4 - auto
left_in PurchaseStatus.retrying auto = 5 - auto
left_in PurchaseStatus.unconfirmed auto = 0

abbrev pub left : Option Purchase → ℕ
left none = 0
left (some p) = left_in p.status p.auto

-- What is sent and what is left, together, is at most so many.
record Within (most : ℕ) (d : Controller) : Type 0 where
  no_more : purchase_requests d.sent + left d.purchase ≤ most

abbrev budget : Controller → ℕ
budget c = purchase_requests c.sent + left c.purchase

abbrev Spends : Controller → Controller → Type 0
Spends c d = Within (budget c) d

SameBuy-Spends : (c d : Controller) → SameBuy c d → Spends c d
SameBuy-Spends c d s = record { no_more = rw (s.same_count, s.same_purchase) (omega arith) }

-- A purchase that is left for its button, or that is over, sends nothing more.
over-Spends :
    (env : Env) (c d : Controller)
    → purchase_requests d.sent ≡ purchase_requests c.sent
    → left d.purchase ≡ 0
    → Spends c (refresh env d)
over-Spends env c d e z =
    let s = refresh-SameBuy env d in
    record { no_more = rw (s.same_count, s.same_purchase, e, z) (omega arith) }

timed_retrying :
    (p : Purchase) (d : ℕ) (c : Controller)
    → c.purchase ≡ some p
    → p.timer ≡ some d
    → Exclusive c
    → (p.status ≡ PurchaseStatus.retrying) × (p.auto ≤ 4)
timed_retrying p d c e t h = ground (arith, e, t, h.is_coherent)

flying_sending :
    (b : PurchaseBody) (f : Flight) (p : Purchase) (c : Controller)
    → c.flight ≡ some f
    → f.request ≡ Request.post_purchase b
    → c.purchase ≡ some p
    → Exclusive c
    → p.status ≡ PurchaseStatus.sending
flying_sending b f p c e q m h = ground (arith, e, q, m, h.is_coherent)

purchase_answer-Spends :
    (env : Env) (r : Response) (p : Option Purchase) (c : Controller)
    → c.purchase ≡ p
    → ((q : Purchase) → p ≡ some q → q.status ≡ PurchaseStatus.sending)
    → Spends c (purchase_answer env r p c)
unfolding purchase_answer
purchase_answer-Spends env r none c e k = SameBuy-Spends c c (same c)
purchase_answer-Spends env r (some p) c e k =
    if_both (Spends c) (undecided r.status || is_in_progress r.code) _ _
      (λ y.
        if_both (Spends c) (leb 4 p.auto) _ _
          (λ x.
            over-Spends env c
              (record c { purchase = some (record p { status = PurchaseStatus.unconfirmed }) }) refl
              refl)
          (λ n. record { no_more = rw (e, k p refl) (ground (arith, n)) }))
      (λ n.
        over-Spends env c (record c { purchase = none; pending = stored env none c.pending }) refl
          refl)

done-Spends :
    (env : Env) (r : Response) (q : Request) (c : Controller)
    → ((b : PurchaseBody) (p : Purchase)
        → q ≡ Request.post_purchase b
        → c.purchase ≡ some p
        → p.status ≡ PurchaseStatus.sending)
    → Spends c (done env r q c)
unfolding done
done-Spends env r Request.read_status c k =
    SameBuy-Spends c _ (queue_answer-SameBuy env r Request.read_status c refl)
done-Spends env r (Request.post_join e j) c k =
    SameBuy-Spends c _ (queue_answer-SameBuy env r (Request.post_join e j) c refl)
done-Spends env r (Request.delete_entry i e) c k =
    SameBuy-Spends c _ (queue_answer-SameBuy env r (Request.delete_entry i e) c refl)
done-Spends env r (Request.post_purchase b) c k =
    purchase_answer-Spends env r c.purchase c refl (λ p e. k b p refl e)

finish_flight-Spends :
    (env : Env) (r : Response) (f : Flight) (c : Controller)
    → c.flight ≡ some f
    → Exclusive c
    → Spends c (finish_flight env r f c)
unfolding finish_flight
finish_flight-Spends env r f c e h =
    let s =
      done-Spends env r f.request
        (record c { flight = none; outstanding = c.outstanding - 1; last_done = some env.now })
        (λ b p q m. flying_sending b f p c e q m h) in
    record { no_more = s.no_more }

fire_purchase-Spends :
    (env : Env) (p : Purchase) (d : Option ℕ) (c : Controller)
    → c.purchase ≡ some p
    → p.timer ≡ d
    → Exclusive c
    → Spends c (fire_purchase env p d c)
unfolding attempt send
fire_purchase-Spends env p none c e t h = SameBuy-Spends c c (same c)
fire_purchase-Spends env p (some d) c e t h =
    if_both (Spends c) (leb d env.now) _ _
      (λ y. record {
        no_more = (let (x, l) = timed_retrying p d c e t h in rw (e, x) (ground (arith, l)));
      })
      (λ n. SameBuy-Spends c c (same c))

fire_open-Spends :
    (env : Env) (p : Option Purchase) (c : Controller)
    → c.purchase ≡ p
    → Exclusive c
    → Spends c (fire_open env p c)
fire_open-Spends env none c e h = SameBuy-Spends c c (same c)
fire_open-Spends env (some p) c e h = fire_purchase-Spends env p p.timer c e refl h

stop_open-Spends : (env : Env) (p : Option Purchase) (c : Controller) → Spends c (stop_open env p c)
stop_open-Spends env none c = SameBuy-Spends c c (same c)
stop_open-Spends env (some p) c =
    if_both (Spends c) (is_left p.status) _ _ (λ y. SameBuy-Spends c c (same c))
      (λ n.
        over-Spends env c (record (drop c) { purchase = some (unconfirmed_purchase p) }) refl refl)

restored_left :
    (t : Bool) (env : Env) (b : Option PurchaseBody) (p : Option Purchase)
    → left (if t then restored env b p else p) ≤ left p
unfolding restored
restored_left t env b p = ground arith

start-Spends : (env : Env) (c : Controller) → Spends c (start env c)
unfolding start
start-Spends env c =
    if_both (Spends c) (c.started || c.disposed) _ _ (λ y. SameBuy-Spends c c (same c))
      (λ n.
        let s = poll-SameBuy env (restore_purchase env (record c { started = true })) in
        record {
          no_more =
              rw (s.same_count, s.same_purchase)
                (ground (arith, restored_left env.keeps_pending env c.pending c.purchase));
        })

touches-Spends : (env : Env) (c : Controller) → Exclusive c → Touches env c (Spends c)
unfolding stop_purchase dispose
touches-Spends env c h = record {
  unchanged = λ d s. SameBuy-Spends c d s;
  answering = λ r f e. finish_flight-Spends env r f c e h;
  firing = fire_open-Spends env c.purchase c refl h;
  starting = start-Spends env c;
  stopping =
      if_both (Spends c) c.disposed _ _ (λ y. SameBuy-Spends c c (same c))
        (λ m. stop_open-Spends env c.purchase c);
  disposing = record { no_more = ground arith };
}

-- The events of a list, one after the other.
abbrev pub run_events : List (Env × PageEvent) → Controller → Controller
run_events [] c = c
run_events ((env, e) ∷ es) c = run_events es (step env e c)

abbrev pub no_press : List (Env × PageEvent) → Bool
no_press [] = true
no_press ((env, e) ∷ es) = not (is_press e) && no_press es

run-Spends :
    (es : List (Env × PageEvent)) (c : Controller)
    → Exclusive c
    → no_press es ≡ true
    → Spends c (run_events es c)
run-Spends [] c h n = SameBuy-Spends c c (same c)
run-Spends ((env, e) ∷ es) c h n =
    let s = step-Touches (touches-Spends env c h) e (ground (arith, n)) in
    let t = run-Spends es (step env e c) (step-Exclusive env e c h) (ground (arith, n)) in
    record { no_more = ground (arith, s.no_more, t.no_more) }

status_le : (s : PurchaseStatus) (n : ℕ) → left_in s n ≤ 5
status_le PurchaseStatus.sending n = omega arith
status_le PurchaseStatus.retrying n = omega arith
status_le PurchaseStatus.unconfirmed n = omega arith

left_le : (p : Option Purchase) → left p ≤ 5
left_le none = omega arith
left_le (some p) = status_le p.status p.auto

-- One request at once, and at most four repeats.
abbrev Presses : Controller → Controller → Type 0
Presses c d = Within (purchase_requests c.sent + 5) d

unpressed : (c : Controller) → Presses c c
unpressed c = record { no_more = ground (arith, left_le c.purchase) }

retry_open-Presses :
    (env : Env) (p : Option Purchase) (c : Controller) → Presses c (retry_open env p c)
unfolding attempt send
retry_open-Presses env none c = unpressed c
retry_open-Presses env (some p) c =
    if_both (Presses c) (is_left p.status) _ _ (λ y. record { no_more = omega arith })
      (λ n. unpressed c)

purchased-Presses :
    (env : Env) (b : PurchaseBody) (c : Controller) → Presses c (start_purchase env b c)
unfolding start_purchase attempt send
purchased-Presses env b c =
    if_both (Presses c) (idle c && is_admitted c.phase) _ _ (λ y. record { no_more = omega arith })
      (λ n. unpressed c)

retry_purchase-Presses : (env : Env) (c : Controller) → Presses c (retry_purchase env c)
unfolding retry_purchase
retry_purchase-Presses env c =
    if_both (Presses c) (c.started && not c.disposed && is_none c.busy) _ _
      (λ y. retry_open-Presses env c.purchase c) (λ n. unpressed c)

press-Presses :
    (env : Env) (e : PageEvent) (c : Controller) → is_press e ≡ true → Presses c (step env e c)
unfolding step
press-Presses env e c y =
    press_if (λ x. Presses c (step env x c)) (λ b. purchased-Presses env b c)
      (retry_purchase-Presses env c) e y

-- Whatever happens after a press of a button that sends a purchase, until the next one at most five
-- requests are sent for it.
pub press-bounded :
    {c : Controller} (env : Env) (e : PageEvent) (es : List (Env × PageEvent))
    → Reached c
    → is_press e ≡ true
    → no_press es ≡ true
    → purchase_requests (run_events es (step env e c)).sent ≤ purchase_requests c.sent + 5
press-bounded {c} env e es r y n =
    let s = run-Spends es (step env e c) (step-Exclusive env e c (Reached-Exclusive r)) n in
    let p = press-Presses env e c y in ground (arith, s.no_more, p.no_more)
