-- ===== src/Admission/Spending.antt =====
-- What an admission is spent on in `occupyThroughAdmission` of
-- src/core/services/admission-consumption.ts.
use peak_pass.Prelude.{ℕ, ◌≡◌, Bool, true, false, Option, none, some, if◌then◌else◌}
use peak_pass.Failure.{AppError, Result, ok, err, app, is_business}
use peak_pass.Model.Admission.{AdmissionRef, PurchaseCommand, AdmissionPolicy, AdmissionClaim}
use peak_pass.Db.{savepoint, interrupted, rollback_to_savepoint, Db, Env, Tx, pure, ◌>>=◌}
use peak_pass.Db.Rules.{
  Ensures, Ensures-gets, Ensures-check, Ensures-pure, Ensures-then, Ensures-throw, Ensures-choose,
  ensures_err,
}
use peak_pass.Admission.{Gateway, AdmissionGate}
use peak_pass.Admission.Occupy.{
  Settlement, Occupation, value, rejected, consume, reject, after_occupy, occupy_protected,
  occupy_through_admission,
}
use peak_pass.Frame.{SameSales, SameSales-trans, Ensures-leaves}
use peak_pass.Frame.Ledger.{approve-LeavesSales, insert_result-LeavesSales}

-- A rejection leaves the sales as they were.
abbrev Traceless : {T : Type 0} → Db → Occupation T → Db → Type 0
Traceless db (value t s) after = Unit
Traceless db (rejected e s) after = SameSales db after

module _ {T : Type 0} where
  reject-Traceless :
      (c : PurchaseCommand) (a : AdmissionRef) (claim : AdmissionClaim) (e : AppError)
      (db saved : Db)
      → SameSales db saved
      → Ensures (reject {T = T} c a claim e saved) (Traceless db)
  unfolding reject
  reject-Traceless c a claim e db saved same =
      Ensures-leaves _ _ _ (insert_result-LeavesSales _)
        λ _ after same'. Ensures-pure _ _ (SameSales-trans same same')

  consume-Traceless :
      (c : PurchaseCommand) (a : AdmissionRef) (claim : AdmissionClaim) (t : T) (target : ℕ)
      (db mid : Db)
      → Ensures (consume c a claim t target mid) (Traceless db)
  unfolding consume
  consume-Traceless c a claim t target db mid = Ensures-gets _ _ _ (
      Ensures-check _ _ _ _
        λ _. Ensures-leaves _ _ _ (insert_result-LeavesSales _) λ _ after _. Ensures-pure _ _ tt)

  after_occupy-Traceless :
      (env : Env) (c : PurchaseCommand) (a : AdmissionRef) (claim : AdmissionClaim) (db saved : Db)
      (r : Result ((T × ℕ) × Db))
      → SameSales db saved
      → Ensures (after_occupy env c a claim (savepoint saved) r) (Traceless db)
  unfolding after_occupy savepoint interrupted rollback_to_savepoint
  after_occupy-Traceless env c a claim db saved (ok ((t, target), mid)) same =
      consume-Traceless c a claim t target db mid
  after_occupy-Traceless env c a claim db saved (err (app e)) same =
      Ensures-choose (is_business e) _ _ (reject-Traceless c a claim e db saved same)
        (ensures_err _)
  after_occupy-Traceless env c a claim db saved (err f) same = ensures_err f

  occupy_protected-Traceless :
      (env : Env) (gw : Gateway) (policy : AdmissionPolicy) (c : PurchaseCommand)
      (admission : Option AdmissionRef) (occupy : Tx (T × ℕ)) (db : Db)
      → Ensures (occupy_protected env gw policy c admission occupy db) (Traceless db)
  unfolding occupy_protected savepoint
  occupy_protected-Traceless env gw policy c none occupy db = Ensures-throw _ db
  occupy_protected-Traceless env gw policy c (some a) occupy db = Ensures-check _ _ _ _ λ _.
      Ensures-leaves _ _ _ (approve-LeavesSales env gw policy c a)
        λ claim saved same. after_occupy-Traceless env c a claim db saved (occupy saved) same

  occupy_through_admission-Traceless :
      (env : Env) (gw : Gateway) (gate : AdmissionGate) (c : PurchaseCommand) (occupy : Tx (T × ℕ))
      (db : Db) (b : Bool)
      → Ensures
          ((if b
              then occupy_protected env gw gate.policy c c.admission occupy
              else (occupy >>= λ made. pure (value made.0 none)))
            db)
          (Traceless db)
  occupy_through_admission-Traceless env gw gate c occupy db true =
      occupy_protected-Traceless env gw gate.policy c c.admission occupy db
  occupy_through_admission-Traceless env gw gate c occupy db false =
      Ensures-then {P = λ made after. Unit {0}} _ _ _ (record { at = λ made after e. tt })
        λ made after _. Ensures-pure _ _ tt

  -- A purchase that the savepoint rolled back and that commits as rejected has changed no event,
  -- reservation, order or ticket.
  pub occupy_through_admission-rejected :
      (env : Env) (gw : Gateway) (gate : AdmissionGate) (c : PurchaseCommand) (occupy : Tx (T × ℕ))
      (db after : Db) (e : AppError) (s : Settlement)
      → occupy_through_admission env gw gate c occupy db ≡ ok (rejected e s, after)
      → SameSales db after
  unfolding occupy_through_admission
  occupy_through_admission-rejected env gw gate c occupy db after e s h =
      (occupy_through_admission-Traceless env gw gate c occupy db gate.policy.protected).at
        (rejected e s) after h
