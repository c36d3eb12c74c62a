-- ===== src/Purchase/Replay.antt =====
-- What `createReservation` of src/core/services/reservation.service.ts answers to a request without
-- its admission, and to one whose admission has been spent.
use peak_pass.Prelude.{ℕ, ◌≡◌, refl, true, false, ◌&&◌, ◌==◌, none, some}
use peak_pass.Table.{find}
use peak_pass.Failure.{ok, err, app, admission_error}
use peak_pass.Model.{Event, CreateReservationInput}
use peak_pass.Model.Admission.{AdmissionRef, LedgerOutcome, AdmissionResult, AdmissionPolicy}
use peak_pass.Db.{Db, Env, pure, throw, gets, require, modify, check, ◌>>=◌}
use peak_pass.Db.Keys.{event_key, reservation_key, policy_key, result_key}
use peak_pass.Admission.{
  Gateway, stored_rejection, add_policy, ensure_policy, read_admission_policy, after_wait,
  lock_admission, read_prior, open_admission_gate, same_fingerprint, judge, own_result, is_closed,
}
use peak_pass.Admission.Occupy.{value, rejected, occupy_protected, occupy_through_admission}
use peak_pass.Purchase.{
  reservation_command, stored_reservation, replay_result, after_prior, create_reservation,
}

module _ (env : Env) (gw : Gateway) (input : CreateReservationInput) (db : Db) (event : Event)
    (policy : AdmissionPolicy) (on_sale : find event_key input.event_id db.events ≡ some event)
    (known : find policy_key input.event_id db.admission_events ≡ some policy) where
  read_admission_policy-known : read_admission_policy env input.event_id db ≡ ok (policy, db)
  unfolding read_admission_policy ensure_policy add_policy pure throw gets require modify check
      ◌>>=◌
  read_admission_policy-known = rw (on_sale, known, add_policy, known) refl

  -- A reservation without an admission is refused on an event that is in the table and whose policy
  -- protects it.
  pub create_reservation-unadmitted :
      policy.protected ≡ true
      → create_reservation env gw input none db
        ≡ err (app (admission_error "ADMISSION_INVALID_INPUT" 400))
  unfolding create_reservation open_admission_gate reservation_command read_prior own_result judge
      after_prior occupy_through_admission occupy_protected pure throw gets require modify check
      ◌>>=◌
  create_reservation-unadmitted guarded =
      rw (◌>>=◌, read_admission_policy-known, ◌>>=◌, guarded) refl

  module _ (a : AdmissionRef) (r : AdmissionResult) (granted : gw.lock a.admission_id ≡ none)
      (spent : find result_key a.admission_id db.admission_results ≡ some r) where
    open_admission_gate-spent :
        open_admission_gate env gw (reservation_command input (some a)) db
        ≡ ok (record { policy = policy; prior = some r }, db)
    unfolding open_admission_gate reservation_command read_prior lock_admission after_wait pure
        throw gets require modify check ◌>>=◌
    open_admission_gate-spent =
        rw (◌>>=◌, read_admission_policy-known, ◌>>=◌, granted, after_wait, spent) refl

    module _ (owner : r.user_id == input.user_id && r.event_id == input.event_id ≡ true)
        (same : same_fingerprint (reservation_command input (some a)) r.fingerprint ≡ true) where
      own_result-spent :
          (closed : is_closed r.outcome ≡ false)
          → own_result
              (record { policy = policy; prior = some r })
              (reservation_command input (some a))
              db
            ≡ ok (some r, db)
      unfolding own_result judge reservation_command pure throw gets require modify check ◌>>=◌
      own_result-spent closed = rw (owner, same, closed) refl

      -- A reservation whose admission was spent by the same user at the same event on the same request,
      -- with the outcome `consumed`, is answered with the reservation that it made, as a replay, and
      -- changes nothing. The event and its policy are in the tables, and the lock is granted.
      pub create_reservation-consumed :
          (id : ℕ)
          → r.outcome ≡ LedgerOutcome.consumed
          → r.reservation_id ≡ some id
          → create_reservation env gw input (some a) db
            ≡ ok ((value (find reservation_key id db.reservations) none, true), db)
      unfolding create_reservation after_prior replay_result stored_reservation pure throw gets
          require modify check ◌>>=◌
      create_reservation-consumed id consumed made =
          rw
            (
              ◌>>=◌,
              open_admission_gate-spent,
              ◌>>=◌,
              own_result-spent (rw consumed refl),
              after_prior,
              consumed,
              replay_result,
              made,
              stored_reservation,
            )
            refl

      -- A reservation whose admission was spent by the same user at the same event on the same request,
      -- with the outcome `rejected`, is rejected again in the stored words, and changes nothing. The
      -- event and its policy are in the tables, and the lock is granted.
      pub create_reservation-rejected :
          r.outcome ≡ LedgerOutcome.rejected
          → create_reservation env gw input (some a) db
            ≡ ok ((rejected (stored_rejection r) none, false), db)
      unfolding create_reservation after_prior replay_result pure throw gets require modify check
          ◌>>=◌
      create_reservation-rejected refused =
          rw
            (
              ◌>>=◌,
              open_admission_gate-spent,
              ◌>>=◌,
              own_result-spent (rw refused refl),
              after_prior,
              refused,
              replay_result,
            )
            refl
