-- ===== src/Polling/Exclusion/Acts.antt =====
-- One request at a time: the timers and the calls of the page.
use peak_pass.Prelude.{
  ℕ, Bool, true, false, ◌≡◌, refl, sym, subst, leb, if◌then◌else◌, inl, inr, Bool-cases, Option,
  none, some, arith, ◌||◌, is_none, not, ◌&&◌, ==_refl,
}
use peak_pass.Polling.{Controller, Env, PurchaseBody, Purchase}
use peak_pass.Polling.Answers.{schedule_at}
use peak_pass.Polling.Actions.{
  send, poll, mutate, join, cancel, attempt, start_purchase, retry_purchase, stop_purchase, is_left,
  restored, stop_open, retry_open,
}
use peak_pass.Polling.Events.{
  fire_poll, fire_purchase, fire_open, on_visibility, show, start, set_mode, dispose,
}
use peak_pass.Polling.Handling.{if_both}
use peak_pass.Polling.Exclusion.{settled, Exclusive, poll-Free, refresh-Free}

pub fire_poll-Exclusive :
    (env : Env) (d : Option ℕ) (c : Controller)
    → c.poll_timer ≡ d
    → Exclusive c
    → Exclusive (fire_poll env d c)
unfolding poll send
fire_poll-Exclusive env none c e h = h
fire_poll-Exclusive env (some d) c e h =
    if_both Exclusive (leb d env.now) _ c
      (λ y. (record { is_coherent = ground (arith, e, h.is_coherent) })) (λ n. h)

fire_purchase-Exclusive :
    (env : Env) (p : Purchase) (d : Option ℕ) (c : Controller)
    → c.purchase ≡ some p
    → p.timer ≡ d
    → Exclusive c
    → Exclusive (fire_purchase env p d c)
unfolding attempt send
fire_purchase-Exclusive env p none c e t h = h
fire_purchase-Exclusive env p (some d) c e t h =
    if_both Exclusive (leb d env.now) _ c
      (λ y. (record {
        is_coherent = ground (
          arith,
          e,
          t,
          h.is_coherent,
          ==_refl p.body.user_id,
          ==_refl p.body.event_id,
          ==_refl p.body.template,
        );
      }))
      (λ n. h)

pub fire_open-Exclusive :
    (env : Env) (p : Option Purchase) (c : Controller)
    → c.purchase ≡ p
    → Exclusive c
    → Exclusive (fire_open env p c)
fire_open-Exclusive env none c e h = h
fire_open-Exclusive env (some p) c e h = fire_purchase-Exclusive env p p.timer c e refl h

pub join-Exclusive : (env : Env) (c : Controller) → Exclusive c → Exclusive (join env c)
unfolding join mutate send
join-Exclusive env c h = record { is_coherent = ground (arith, h.is_coherent) }

pub cancel-Exclusive : (env : Env) (c : Controller) → Exclusive c → Exclusive (cancel env c)
unfolding cancel mutate send
cancel-Exclusive env c h = record { is_coherent = ground (arith, h.is_coherent) }

pub start_purchase-Exclusive :
    (env : Env) (b : PurchaseBody) (c : Controller)
    → Exclusive c
    → Exclusive (start_purchase env b c)
unfolding start_purchase attempt send
start_purchase-Exclusive env b c h = record {
  is_coherent =
      ground (arith, h.is_coherent, ==_refl b.user_id, ==_refl b.event_id, ==_refl b.template);
}

retry_open-Exclusive :
    (env : Env) (p : Option Purchase) (c : Controller)
    → c.purchase ≡ p
    → c.disposed ≡ false
    → c.busy ≡ none
    → Exclusive c
    → Exclusive (retry_open env p c)
unfolding attempt send
retry_open-Exclusive env none c e d b h = h
retry_open-Exclusive env (some p) c e d b h = elim (Bool-cases (is_left p.status)) [
  | inl y ↦ rw (y) (record {
    is_coherent = ground (
      arith,
      e,
      d,
      b,
      y,
      h.is_coherent,
      ==_refl p.body.user_id,
      ==_refl p.body.event_id,
      ==_refl p.body.template,
    );
  })
  | inr n ↦ rw (n) h
]

pub on_visibility-Exclusive :
    (env : Env) (c : Controller) → Exclusive c → Exclusive (on_visibility env c)
unfolding on_visibility show schedule_at
on_visibility-Exclusive env c h = record { is_coherent = ground (arith, h.is_coherent) }

pub set_mode-Exclusive : (m : _) (c : Controller) → Exclusive c → Exclusive (set_mode m c)
unfolding set_mode
set_mode-Exclusive m c h =
    if_both Exclusive c.disposed c _ (λ y. h) (λ n. (record { is_coherent = h.is_coherent }))

pub dispose-Exclusive : (c : Controller) → Exclusive c → Exclusive (dispose c)
unfolding dispose
dispose-Exclusive c h = record { is_coherent = ground (arith, h.is_coherent) }

pub retry_purchase-Exclusive :
    (env : Env) (c : Controller) → Exclusive c → Exclusive (retry_purchase env c)
unfolding retry_purchase
retry_purchase-Exclusive env c h =
    elim (Bool-cases (c.started && not c.disposed && is_none c.busy)) [
      | inl y ↦ rw (y) (retry_open-Exclusive env c.purchase c refl (ground arith) (ground arith) h)
      | inr n ↦ rw (n) h
    ]

stop_open-Exclusive :
    (env : Env) (p : Option Purchase) (c : Controller)
    → c.purchase ≡ p
    → c.disposed ≡ false
    → Exclusive c
    → Exclusive (stop_open env p c)
stop_open-Exclusive env none c e d h = h
stop_open-Exclusive env (some p) c e d h = elim (Bool-cases (is_left p.status)) [
  | inl y ↦ rw (y) h
  | inr n ↦ rw (n) (
      refresh-Free env _ (record {
        begun = ground (arith, e, d, n, h.is_coherent);
        running = d;
        landed = refl;
        not_busy = ground (arith, e, d, n, h.is_coherent);
        is_settled = ground (arith, e, d, n, h.is_coherent);
        none_out = ground (arith, e, d, n, h.is_coherent);
      }))
]

pub stop_purchase-Exclusive :
    (env : Env) (c : Controller) → Exclusive c → Exclusive (stop_purchase env c)
unfolding stop_purchase
stop_purchase-Exclusive env c h =
    if_both Exclusive c.disposed c _ (λ d. h) (λ n. stop_open-Exclusive env c.purchase c refl n h)

restored_settled : (env : Env) (b : Option PurchaseBody) → settled (restored env b none) ≡ true
unfolding restored
restored_settled env b = ground arith

restored_or :
    (t : Bool) (env : Env) (b : Option PurchaseBody) (p : Option Purchase)
    → p ≡ none
    → settled (if t then restored env b p else p) ≡ true
restored_or true env b p e =
    subst (λ q. settled (restored env b q) ≡ true) (sym e) (restored_settled env b)
restored_or false env b p e = rw (e) refl

untouched :
    (c : Controller)
    → Exclusive c
    → c.started ≡ false
    → (c.flight ≡ none) × (c.busy ≡ none) × (c.purchase ≡ none) × (c.outstanding ≡ 0)
untouched c h s = ground (arith, h.is_coherent, s)

pub start-Exclusive : (env : Env) (c : Controller) → Exclusive c → Exclusive (start env c)
unfolding start
start-Exclusive env c h =
    if_both Exclusive (c.started || c.disposed) c _ (λ y. h)
      (λ n.
        let s : c.started ≡ false = ground arith in
        let d : c.disposed ≡ false = ground arith in
        let (f, b, p, o) = untouched c h s in
        poll-Free env _ (record {
          begun = refl;
          running = d;
          landed = f;
          not_busy = b;
          is_settled = restored_or env.keeps_pending env c.pending c.purchase p;
          none_out = o;
        }))
