-- ===== src/Polling/Exclusion/Landing.antt =====
-- One request at a time: what an answer does.
use peak_pass.Prelude.{
  ℕ, true, false, ◌≡◌, refl, subst, leb, inl, inr, Bool-cases, Option, none, some, arith, ◌||◌,
  ◌&&◌,
}
use peak_pass.Polling.{
  Controller, Env, Request, Body, NextPoll, Response, Flight, PurchaseBody, Purchase, Busy,
}
use peak_pass.Polling.Answers.{
  accept, apply_next, next_admission, recovered, schedule_at, schedule_next, fail, on_status,
  unqueued, undecided,
}
use peak_pass.Polling.Events.{finish_flight, done, purchase_answer, is_in_progress}
use peak_pass.Polling.Handling.{
  Handles, status_answer-Handles, join_answer-Handles, cancel_answer-Handles,
}
use peak_pass.Polling.Exclusion.{
  sound_purchase, settled, is_sending, expected, Exclusive, Free, FreeAt, Free-Exclusive,
  refresh-Free,
}

schedule_next-Free :
    (env : Env) (p : NextPoll) (c : Controller) → Free c → Free (schedule_next env p c)
unfolding schedule_next schedule_at
schedule_next-Free env NextPoll.null_poll c f = f
schedule_next-Free env NextPoll.other_poll c f = f
schedule_next-Free env (NextPoll.millis n) c f = f

accept-Free : (env : Env) (b : Body) (c : Controller) → Free c → Free (accept env b c)
unfolding accept apply_next
accept-Free env b c f =
    schedule_next-Free env b.next_poll
      (apply_next env.now b (next_admission b.admission) (recovered c)) f

fail-Free : (env : Env) (r : Response) (c : Controller) → Free c → Free (fail env r c)
unfolding fail schedule_at
fail-Free env r c f = f

handles-Free : (env : Env) → Handles env Free Exclusive
handles-Free env = record {
  kept = λ c f. Free-Exclusive c f;
  problem = λ x c f. Free-Exclusive (record c { problem = x }) f;
  notice = λ x c f. f;
  forgotten = λ c f. f;
  intent = λ c h. record { is_coherent = h.is_coherent };
  accepting = λ b c f. Free-Exclusive (accept env b c) (accept-Free env b c f);
  leaving = λ c f. Free-Exclusive (unqueued c) f;
  failing = λ r c f. Free-Exclusive (fail env r c) (fail-Free env r c f);
  refreshing = λ c f. refresh-Free env c f;
}

-- The state in which the answer of a purchase is handled.
purchase_answer-Exclusive :
    (env : Env) (r : Response) (p : Purchase) (c : Controller)
    → FreeAt c.started c.disposed c.flight c.busy none c.outstanding
    → c.poll_timer ≡ none
    → (is_sending p.status && sound_purchase p) ≡ true
    → Exclusive (purchase_answer env r (some p) c)
unfolding purchase_answer
purchase_answer-Exclusive env r p c f t h =
    elim (Bool-cases (undecided r.status || is_in_progress r.code)) [
      | inl y ↦ elim (Bool-cases (leb 4 p.auto)) [
        | inl x ↦
            rw (y, x)
              (refresh-Free env _ (record {
                begun = f.begun;
                running = f.running;
                landed = f.landed;
                not_busy = f.not_busy;
                is_settled = ground (arith, h);
                none_out = f.none_out;
              }))
        | inr n ↦
            rw (y, n)
              (record {
                is_coherent =
                    rw (f.begun, f.running, f.landed, f.not_busy, f.none_out, t)
                      (ground (arith, h));
              })
      ]
      | inr n ↦ rw (n) (
          refresh-Free env _ (record {
            begun = f.begun;
            running = f.running;
            landed = f.landed;
            not_busy = f.not_busy;
            is_settled = refl;
            none_out = f.none_out;
          }))
    ]

-- What holds when an answer is handled.
record Handled (q : Request) (c : Controller) : Type 0 where
  began : c.started ≡ true
  active : c.disposed ≡ false
  received : c.flight ≡ none
  untimed : c.poll_timer ≡ none
  none_left : c.outstanding ≡ 0
  is_expected : expected q c.busy c.purchase ≡ true

expected_read :
    (b : Option Busy) (p : Option Purchase)
    → expected Request.read_status b p ≡ true
    → (b ≡ none) × (settled p ≡ true)
expected_read b p h = ground (arith, h)

expected_join :
    (e k : ℕ) (b : Option Busy) (p : Option Purchase)
    → expected (Request.post_join e k) b p ≡ true
    → p ≡ none
expected_join e k b p h = ground (arith, h)

expected_delete :
    (i e : ℕ) (b : Option Busy) (p : Option Purchase)
    → expected (Request.delete_entry i e) b p ≡ true
    → p ≡ none
expected_delete i e b p h = ground (arith, h)

expected_purchase :
    (q : PurchaseBody) (b : Option Busy) (p : Purchase)
    → expected (Request.post_purchase q) b (some p) ≡ true
    → (b ≡ none) × ((is_sending p.status && sound_purchase p) ≡ true)
expected_purchase q b p h = ground (arith, h)

purchase_done-Exclusive :
    (env : Env) (r : Response) (q : PurchaseBody) (p : Option Purchase) (c : Controller)
    → c.purchase ≡ p
    → Handled (Request.post_purchase q) c
    → Exclusive (purchase_answer env r p c)
unfolding purchase_answer
purchase_done-Exclusive env r q none c e h = absurd (ground (arith, h.is_expected, e))
purchase_done-Exclusive env r q (some p) c e h =
    let (b, s) =
      expected_purchase q c.busy p
        (subst (λ o. expected (Request.post_purchase q) c.busy o ≡ true) e h.is_expected) in
    purchase_answer-Exclusive env r p c
      (record {
        begun = h.began;
        running = h.active;
        landed = h.received;
        not_busy = b;
        is_settled = refl;
        none_out = h.none_left;
      })
      h.untimed s

done-Exclusive :
    (env : Env) (r : Response) (q : Request) (c : Controller)
    → Handled q c
    → Exclusive (done env r q c)
unfolding done on_status
done-Exclusive env r Request.read_status c h =
    let (b, s) = expected_read c.busy c.purchase h.is_expected in
    status_answer-Handles (handles-Free env) r _ c (record {
      begun = h.began;
      running = h.active;
      landed = h.received;
      not_busy = b;
      is_settled = s;
      none_out = h.none_left;
    })
done-Exclusive env r (Request.post_join e k) c h =
    let p = expected_join e k c.busy c.purchase h.is_expected in
    join_answer-Handles (handles-Free env) r _ (record c { busy = none })
      (record {
        begun = h.began;
        running = h.active;
        landed = h.received;
        not_busy = refl;
        is_settled = rw (p) refl;
        none_out = h.none_left;
      })
done-Exclusive env r (Request.delete_entry i e) c h =
    let p = expected_delete i e c.busy c.purchase h.is_expected in
    cancel_answer-Handles (handles-Free env) i r _ (record c { busy = none })
      (record {
        begun = h.began;
        running = h.active;
        landed = h.received;
        not_busy = refl;
        is_settled = rw (p) refl;
        none_out = h.none_left;
      })
done-Exclusive env r (Request.post_purchase q) c h =
    purchase_done-Exclusive env r q c.purchase c refl h

coherent-Handled :
    (f : Flight) (c : Controller)
    → Exclusive c
    → c.flight ≡ some f
    → (c.started ≡ true)
      × (c.disposed ≡ false)
      × (c.poll_timer ≡ none)
      × (c.outstanding ≡ 1)
      × (expected f.request c.busy c.purchase ≡ true)
coherent-Handled f c h e = ground (arith, h.is_coherent, e)

pub finish_flight-Exclusive :
    (env : Env) (r : Response) (f : Flight) (c : Controller)
    → c.flight ≡ some f
    → Exclusive c
    → Exclusive (finish_flight env r f c)
unfolding finish_flight
finish_flight-Exclusive env r f c e h =
    let (s, d, t, n, x) = coherent-Handled f c h e in
    done-Exclusive env r f.request _ (record {
      began = s;
      active = d;
      received = refl;
      untimed = t;
      none_left = ground (arith, n);
      is_expected = x;
    })
