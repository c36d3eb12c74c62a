-- ===== src/Admission.antt =====
-- src/core/services/admission-consumption.ts and src/infra/postgres/admission-policy.ts, inside the
-- transaction of a purchase. The timeouts that they set bound the waits alone; how a wait for the
-- admission lock ends, and what Redis answers to the claim, come from outside.
pub mod Ledger
pub mod Occupy
pub mod Spending
use peak_pass.Prelude.{
  ℕ, ◌+◌, Bool, true, false, ◌&&◌, ◌||◌, not, leb, ltb, ◌==◌, Option, none, some, List, [], ◌∷◌,
  String, Text, text_eq, length, includes, if◌then◌else◌,
}
use peak_pass.Table.{find}
use peak_pass.Failure.{
  AppError, Failure, Result, ok, err, app, refused, pg, plain, text, SqlState, lock_not_available,
  not_found_error, admission_error, is_business, unique_violation, foreign_key_violation,
  check_violation, admission_results_pkey, admission_results_reservation, admission_results_order,
  admission_results_user_fkey, admission_results_shape_check,
}
use peak_pass.Model.{Reservation, Order}
use peak_pass.Model.Admission.{
  AdmissionOperation, AdmissionRef, PurchaseCommand, Fingerprint, LedgerOutcome, AdmissionResult,
  Phase, recovering, open_phase, AdmissionPolicy, AdmissionClaim, OutcomeKind, AdmissionOutcome,
}
use peak_pass.Db.{Db, Env, Tx, pure, throw, gets, require, modify, check, ◌>>=◌, ◌>>◌}
use peak_pass.Db.Keys.{
  event_key, reservation_key, order_key, policy_key, result_key, is_some, is_none, member, find_row,
  option_eq,
}

-- What a purchase takes from the locks and from Redis.
pub record Gateway : Type 0 where
  -- How `pg_advisory_xact_lock` ends: `none` when it is granted.
  pub lock : ℕ → Option SqlState
  -- `admissionService.claim`, whose AppErrors are AdmissionErrors.
  pub claim : PurchaseCommand → AdmissionRef → Fingerprint → Result AdmissionClaim

abbrev pub operation_eq : AdmissionOperation → AdmissionOperation → Bool
operation_eq AdmissionOperation.reservation AdmissionOperation.reservation = true
operation_eq AdmissionOperation.direct_checkout AdmissionOperation.direct_checkout = true
operation_eq _ _ = false

unfoldable pub fingerprint_eq : Fingerprint → Fingerprint → Bool
fingerprint_eq f g =
    f.user_id == g.user_id
    && f.event_id == g.event_id
    && f.epoch == g.epoch
    && operation_eq f.operation g.operation
    && text_eq f.tier_id g.tier_id
    && f.quantity == g.quantity
    && option_eq f.checkout_key g.checkout_key

-- Inputs are canonical, so that the `toLowerCase` of `purchaseCommand` changes nothing.
abbrev pub purchase_command :
    AdmissionOperation → ℕ → ℕ → Text → ℕ → Option ℕ → Option AdmissionRef → PurchaseCommand
purchase_command operation user_id event_id tier_id quantity checkout_key admission = record {
  operation = operation;
  user_id = user_id;
  event_id = event_id;
  tier_id = tier_id;
  quantity = quantity;
  checkout_key = checkout_key;
  admission = admission;
}

abbrev pub admission_fingerprint : PurchaseCommand → AdmissionRef → Fingerprint
admission_fingerprint c a = record {
  user_id = c.user_id;
  event_id = c.event_id;
  epoch = a.epoch;
  operation = c.operation;
  tier_id = c.tier_id;
  quantity = c.quantity;
  checkout_key = c.checkout_key;
}

abbrev pub or_text : Option String → String
or_text none = ""
or_text (some s) = s

-- The stored rejection or closing; the CHECK on the shape of a row says that its fields are there.
unfoldable pub stored_rejection : AdmissionResult → AppError
stored_rejection r = record {
  code = or_text r.error_code;
  status_code = elim r.http_status [ none ↦ 0 | some s ↦ s ];
  message = elim r.error_message [ none ↦ text "" | some m ↦ m ];
}

-- INSERT … ON CONFLICT DO NOTHING and the read of `readAdmissionPolicy`.
unfoldable pub add_policy : Option AdmissionPolicy → Env → ℕ → Db → Db
add_policy (some p) env event_id d = d
add_policy none env event_id d = record d {
  admission_events =
      record { event_id = event_id; protected = false; epoch = env.fresh_epoch; phase = recovering }
      ∷ d.admission_events;
}

unfoldable pub ensure_policy : Env → ℕ → Db → Db
ensure_policy env event_id d =
    add_policy (find policy_key event_id d.admission_events) env event_id d

unfoldable pub read_admission_policy : Env → ℕ → Tx AdmissionPolicy
read_admission_policy env event_id = do
  db ← gets (λ d. d)
  check (is_some (find event_key event_id db.events)) (app (not_found_error "Event" event_id))
  modify (ensure_policy env event_id)
  after ← gets (λ d. find policy_key event_id d.admission_events)
  require after (
      app (record {
        code = "ADMISSION_UNAVAILABLE";
        status_code = 503;
        message = text "Admission policy unavailable";
      }))

pub record AdmissionGate : Type 0 where
  pub policy : AdmissionPolicy
  pub prior : Option AdmissionResult

unfoldable pub lock_failure : SqlState → Failure
lock_failure lock_not_available = app (admission_error "ADMISSION_IN_PROGRESS" 409)
lock_failure s = pg s

unfoldable pub after_wait : Option SqlState → Tx (Unit {0})
after_wait none = pure tt
after_wait (some s) = throw (lock_failure s)

unfoldable pub lock_admission : Gateway → ℕ → Tx (Unit {0})
lock_admission gw id = after_wait (gw.lock id)

unfoldable pub read_prior : Gateway → Option AdmissionRef → Tx (Option AdmissionResult)
read_prior gw none = pure none
read_prior gw (some a) = do
  lock_admission gw a.admission_id
  gets (λ d. find result_key a.admission_id d.admission_results)

unfoldable pub open_admission_gate : Env → Gateway → PurchaseCommand → Tx AdmissionGate
open_admission_gate env gw c = do
  policy ← read_admission_policy env c.event_id
  prior ← read_prior gw c.admission
  pure (record { policy = policy; prior = prior })

abbrev pub is_closed : LedgerOutcome → Bool
is_closed LedgerOutcome.closed = true
is_closed _ = false

unfoldable pub same_fingerprint : PurchaseCommand → Fingerprint → Bool
same_fingerprint c f = elim c.admission [
  | none ↦ false
  | some a ↦ fingerprint_eq f (admission_fingerprint c a)
]

unfoldable pub judge : Option AdmissionResult → PurchaseCommand → Tx (Option AdmissionResult)
judge none c = pure none
judge (some r) c = do
  check (r.user_id == c.user_id && r.event_id == c.event_id)
      (app (admission_error "ADMISSION_NOT_FOUND" 404))
  check (same_fingerprint c r.fingerprint) (app (admission_error "ADMISSION_REQUEST_MISMATCH" 409))
  if is_closed r.outcome
      then throw (app (admission_error (stored_rejection r).code (stored_rejection r).status_code))
      else pure (some r)

unfoldable pub own_result : AdmissionGate → PurchaseCommand → Tx (Option AdmissionResult)
own_result gate c = judge gate.prior c

-- A ledger row that is bound to this order or to this reservation; NULL equals nothing.
unfoldable pub linked : Option ℕ → Option ℕ → AdmissionResult → Bool
linked order_id reservation_id r =
    is_some order_id && option_eq r.order_id order_id
    || is_some reservation_id && option_eq r.reservation_id reservation_id

unfoldable pub compare_link : AdmissionRef → Option AdmissionResult → Tx (Unit {0})
compare_link a none = pure tt
compare_link a (some r) =
    check (r.admission_id == a.admission_id && r.epoch == a.epoch)
      (app (admission_error "ADMISSION_REQUEST_MISMATCH" 409))

unfoldable pub assert_admission_link : Option AdmissionRef → Option ℕ → Option ℕ → Tx (Unit {0})
assert_admission_link none order_id reservation_id = pure tt
assert_admission_link (some a) order_id reservation_id = do
  link ← gets (λ d. find_row (linked order_id reservation_id) d.admission_results)
  compare_link a link
