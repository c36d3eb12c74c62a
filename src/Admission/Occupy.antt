-- ===== src/Admission/Occupy.antt =====
-- `occupyThroughAdmission` of src/core/services/admission-consumption.ts, with the constraints of
-- migration 013 on the ledger.
use peak_pass.Prelude.{
  ℕ, Bool, true, false, ◌&&◌, not, leb, ◌==◌, Option, none, some, ◌∷◌, text_eq, length, includes,
  if◌then◌else◌,
}
use peak_pass.Table.{find}
use peak_pass.Failure.{
  AppError, Failure, Result, ok, err, app, refused, pg, plain, admission_error, is_business,
  unique_violation, foreign_key_violation, check_violation, admission_results_pkey,
  admission_results_reservation, admission_results_order, admission_results_user_fkey,
  admission_results_shape_check,
}
use peak_pass.Model.Admission.{
  AdmissionOperation, AdmissionRef, PurchaseCommand, LedgerOutcome, AdmissionResult, Phase,
  recovering, open_phase, AdmissionPolicy, AdmissionClaim, OutcomeKind, AdmissionOutcome,
}
use peak_pass.Db.{
  Db, Env, Session, savepoint, interrupted, rollback_to_savepoint, Tx, pure, throw, gets, modify,
  check, ◌>>=◌, ◌>>◌,
}
use peak_pass.Db.Keys.{
  reservation_key, order_key, result_key, is_some, is_none, member, find_row, option_eq,
}
use peak_pass.Admission.{Gateway, AdmissionGate, admission_fingerprint}

pub record AdmissionSettlement : Type 0 where
  pub claim : AdmissionClaim
  pub outcome : AdmissionOutcome

-- What Redis is told after the commit, if anything.
abbrev pub Settlement : Type 0
Settlement = Option AdmissionSettlement

pub data Occupation (T : Type 0) : Type 0 where
  value : T → Settlement → Occupation T
  rejected : AppError → Settlement → Occupation T

unfoldable pub is_recovering : Phase → Bool
is_recovering recovering = true
is_recovering open_phase = false

-- The CHECK admission_results_shape_check.
unfoldable pub shape_ok : AdmissionResult → Bool
shape_ok r = elim r.outcome [
  | LedgerOutcome.consumed ↦
      is_none r.error_code && is_none r.http_status && is_none r.error_message && elim r.operation [
        | AdmissionOperation.reservation ↦ is_some r.reservation_id && is_none r.order_id
        | AdmissionOperation.direct_checkout ↦ is_some r.order_id && is_none r.reservation_id
      ]
  | _ ↦
      is_none r.reservation_id
      && is_none r.order_id
      && is_some r.error_code
      && is_some r.error_message
      && elim r.http_status [ none ↦ false | some s ↦ leb 400 s && leb s 499 ]
]

-- The UNIQUE columns of the ledger; NULL collides with nothing.
abbrev pub taken_reservation : AdmissionResult → AdmissionResult → Bool
taken_reservation r s = is_some r.reservation_id && option_eq s.reservation_id r.reservation_id

abbrev pub taken_order : AdmissionResult → AdmissionResult → Bool
taken_order r s = is_some r.order_id && option_eq s.order_id r.order_id

unfoldable pub insert_result : AdmissionResult → Tx (Unit {0})
insert_result r = do
  db ← gets (λ d. d)
  check (shape_ok r) (pg (check_violation admission_results_shape_check))
  check (member r.user_id db.users) (pg (foreign_key_violation admission_results_user_fkey))
  check (is_none (find result_key r.admission_id db.admission_results))
      (pg (unique_violation admission_results_pkey))
  check (is_none (find_row (taken_reservation r) db.admission_results))
      (pg (unique_violation admission_results_reservation))
  check (is_none (find_row (taken_order r) db.admission_results))
      (pg (unique_violation admission_results_order))
  modify (λ d. record d { admission_results = r ∷ d.admission_results })

-- The row of the ledger for a request, before its outcome is known.
abbrev pub ledger_row : PurchaseCommand → AdmissionRef → LedgerOutcome → AdmissionResult
ledger_row c a outcome = record {
  admission_id = a.admission_id;
  user_id = c.user_id;
  event_id = c.event_id;
  epoch = a.epoch;
  operation = c.operation;
  fingerprint = admission_fingerprint c a;
  outcome = outcome;
  reservation_id = none;
  order_id = none;
  error_code = none;
  http_status = none;
  error_message = none;
}

abbrev pub rejected_row : PurchaseCommand → AdmissionRef → AppError → AdmissionResult
rejected_row c a e = record (ledger_row c a LedgerOutcome.rejected) {
  error_code = some e.code;
  http_status = some e.status_code;
  error_message = some e.message;
}

abbrev pub consumed_row : PurchaseCommand → AdmissionRef → ℕ → AdmissionResult
consumed_row c a target = elim c.operation [
  | AdmissionOperation.reservation ↦ record (ledger_row c a LedgerOutcome.consumed) {
    reservation_id = some target;
  }
  | AdmissionOperation.direct_checkout ↦ record (ledger_row c a LedgerOutcome.consumed) {
    order_id = some target;
  }
]

-- The WHERE clause of the INSERT … SELECT: the target is the row made for exactly this request.
unfoldable pub target_matches : AdmissionOperation → PurchaseCommand → ℕ → Db → Bool
target_matches AdmissionOperation.reservation c target db =
    elim (find reservation_key target db.reservations) [
      | none ↦ false
      | some r ↦
          r.user_id == c.user_id
          && r.event_id == c.event_id
          && text_eq r.tier_id c.tier_id
          && r.quantity == c.quantity
    ]
target_matches AdmissionOperation.direct_checkout c target db =
    elim (find order_key target db.orders) [
      | none ↦ false
      | some o ↦
          o.user_id == c.user_id
          && o.event_id == c.event_id
          && text_eq o.tier_id c.tier_id
          && o.quantity == c.quantity
          && is_none o.reservation_id
          && option_eq (some o.idempotency_key) c.checkout_key
    ]

-- An AdmissionError thrown before the savepoint is marked as unconfirmed.
abbrev pub unconfirmed : Failure → Failure
unconfirmed (app e) = refused e
unconfirmed f = f

unfoldable pub claimed : Result AdmissionClaim → Tx AdmissionClaim
claimed (ok c) = pure c
claimed (err f) = throw (unconfirmed f)

-- The checks before the claim, and the claim.
unfoldable pub approve :
    Env → Gateway → AdmissionPolicy → PurchaseCommand → AdmissionRef → Tx AdmissionClaim
approve env gw policy c a = do
  check env.enable_admission (refused (admission_error "ADMISSION_UNAVAILABLE" 503))
  check (not (is_recovering policy.phase)) (refused (admission_error "ADMISSION_RECOVERING" 503))
  check (policy.epoch == a.epoch) (refused (admission_error "ADMISSION_RESET" 410))
  db ← gets (λ d. d)
  check (member c.user_id db.users) (refused (admission_error "UNAUTHENTICATED" 401))
  claimed (gw.claim c a (admission_fingerprint c a))

unfoldable pub outcome_kind : AdmissionOperation → OutcomeKind
outcome_kind AdmissionOperation.reservation = OutcomeKind.reservation
outcome_kind AdmissionOperation.direct_checkout = OutcomeKind.direct_checkout

abbrev pub rejected_settlement : AdmissionClaim → AppError → Settlement
rejected_settlement claim e = some (record {
  claim = claim;
  outcome = record { kind = OutcomeKind.rejected; resource_id = none; code = some e.code };
})

-- The durable rejection.
unfoldable pub reject :
    {T : Type 0} → PurchaseCommand → AdmissionRef → AdmissionClaim → AppError → Tx (Occupation T)
reject c a claim e = do
  insert_result (rejected_row c a e)
  pure (rejected e (rejected_settlement claim e))

unfoldable pub consume :
    {T : Type 0} → PurchaseCommand → AdmissionRef → AdmissionClaim → T → ℕ → Tx (Occupation T)
consume c a claim t target = do
  db ← gets (λ d. d)
  check (target_matches c.operation c target db)
      (plain "Admission result target does not match its request")
  insert_result (consumed_row c a target)
  pure (
      value t (
        some (record {
          claim = claim;
          outcome = record {
            kind = outcome_kind c.operation;
            resource_id = some target;
            code = none;
          };
        })))

-- What follows `await occupy()`, which began with the savepoint and has thrown or not.
unfoldable pub after_occupy :
    {T : Type 0}
    → Env
    → PurchaseCommand
    → AdmissionRef
    → AdmissionClaim
    → Session
    → Result ((T × ℕ) × Db)
    → Result (Occupation T × Db)
after_occupy env c a claim s (ok ((t, target), db)) = consume c a claim t target db
after_occupy env c a claim s (err (app e)) =
    let back = rollback_to_savepoint (interrupted env s) in
    if is_business e then reject c a claim e back.current else err (app e)
after_occupy env c a claim s (err f) = err f

-- A protected event: `occupy` runs inside the savepoint, after the claim.
unfoldable pub occupy_protected :
    {T : Type 0}
    → Env
    → Gateway
    → AdmissionPolicy
    → PurchaseCommand
    → Option AdmissionRef
    → Tx (T × ℕ)
    → Tx (Occupation T)
occupy_protected env gw policy c none occupy =
    throw (app (admission_error "ADMISSION_INVALID_INPUT" 400))
occupy_protected env gw policy c (some a) occupy = do
  check (leb (length c.tier_id) 50 && not (includes c.tier_id 0))
      (app (admission_error "ADMISSION_INVALID_INPUT" 400))
  claim ← approve env gw policy c a
  λ db. let s = savepoint db in after_occupy env c a claim s (occupy s.current)

-- The pair that `occupy` returns is the value and its target's id.
unfoldable pub occupy_through_admission :
    {T : Type 0} → Env → Gateway → AdmissionGate → PurchaseCommand → Tx (T × ℕ) → Tx (Occupation T)
occupy_through_admission env gw gate c occupy =
    if gate.policy.protected
    then occupy_protected env gw gate.policy c c.admission occupy
    else (do made ← occupy; pure (value made.0 none))
