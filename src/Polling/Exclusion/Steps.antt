-- ===== src/Polling/Exclusion/Steps.antt =====
-- One request at a time: every event.
use peak_pass.Prelude.{refl}
use peak_pass.Polling.{Controller, Env, no_response}
use peak_pass.Polling.Events.{PageEvent, Reached, step}
use peak_pass.Polling.Handling.{finish_ticket-if, time_out-if}
use peak_pass.Polling.Exclusion.{Exclusive}
use peak_pass.Polling.Exclusion.Landing.{finish_flight-Exclusive}
use peak_pass.Polling.Exclusion.Acts.{
  fire_poll-Exclusive, fire_open-Exclusive, join-Exclusive, cancel-Exclusive,
  start_purchase-Exclusive, on_visibility-Exclusive, set_mode-Exclusive, dispose-Exclusive,
  retry_purchase-Exclusive, stop_purchase-Exclusive, start-Exclusive,
}

pub step-Exclusive :
    (env : Env) (e : PageEvent) (c : Controller) → Exclusive c → Exclusive (step env e c)
unfolding step
step-Exclusive env (PageEvent.answered ticket r) c h =
    finish_ticket-if Exclusive env ticket r c.flight c h
      (λ g e. finish_flight-Exclusive env r g c e h)
step-Exclusive env PageEvent.timed_out c h =
    time_out-if Exclusive env c.flight c h (λ g e. finish_flight-Exclusive env no_response g c e h)
step-Exclusive env PageEvent.poll_fires c h = fire_poll-Exclusive env c.poll_timer c refl h
step-Exclusive env PageEvent.purchase_fires c h = fire_open-Exclusive env c.purchase c refl h
step-Exclusive env PageEvent.visibility_changed c h = on_visibility-Exclusive env c h
step-Exclusive env PageEvent.started c h = start-Exclusive env c h
step-Exclusive env PageEvent.joined c h = join-Exclusive env c h
step-Exclusive env PageEvent.cancelled c h = cancel-Exclusive env c h
step-Exclusive env (PageEvent.purchased body) c h = start_purchase-Exclusive env body c h
step-Exclusive env PageEvent.purchase_retried c h = retry_purchase-Exclusive env c h
step-Exclusive env PageEvent.purchase_stopped c h = stop_purchase-Exclusive env c h
step-Exclusive env (PageEvent.mode_set mode) c h = set_mode-Exclusive mode c h
step-Exclusive env PageEvent.disposed c h = dispose-Exclusive c h

-- In every state that is reached, at most one request is neither answered nor aborted, and it is the
-- one that the page waits for: with a join or a cancellation in flight the page is busy and has no
-- purchase, with a purchase in flight the page is sending that body, and no poll is scheduled meanwhile.
-- A purchase that waits to repeat has its timer and no poll beside it, and at most four repeats were
-- automatic. A disposed controller has neither a request nor a timer.
pub Reached-Exclusive : {c : Controller} → Reached c → Exclusive c
Reached-Exclusive (Reached.created mode pending) = record { is_coherent = refl }
Reached-Exclusive (Reached.happened env e r) = step-Exclusive env e _ (Reached-Exclusive r)
