-- ===== src/Frame/Occupation.antt =====
-- What the occupation of seats through the admission keeps is what the occupation itself keeps.
use peak_pass.Prelude.{ℕ, refl, Option, none, some}
use peak_pass.Failure.{AppError, Result, ok, err, app, is_business}
use peak_pass.Model.Admission.{AdmissionRef, PurchaseCommand, AdmissionPolicy, AdmissionClaim}
use peak_pass.Db.{savepoint, interrupted, rollback_to_savepoint, Db, Env, Tx}
use peak_pass.Db.Rules.{Ensures, ensures_err, Ensures-choose}
use peak_pass.Admission.{Gateway, AdmissionGate}
use peak_pass.Admission.Occupy.{
  reject, consume, after_occupy, occupy_protected, occupy_through_admission,
}
use peak_pass.Frame.{
  LeavesSales, LeavesSales-bind, LeavesSales-gets, LeavesSales-check, LeavesSales-pure, Preserves,
  IsStable, Preserves-leaves, Preserves-bind, Preserves-if, LeavesSales-throw,
}
use peak_pass.Frame.Ledger.{insert_result-LeavesSales, approve-LeavesSales}

module _ {T : Type 0} (c : PurchaseCommand) (a : AdmissionRef) (claim : AdmissionClaim) where
  reject-LeavesSales : (e : AppError) → LeavesSales (reject {T = T} c a claim e)
  unfolding reject
  reject-LeavesSales e = LeavesSales-bind _ _ (insert_result-LeavesSales _) λ _. LeavesSales-pure _

  consume-LeavesSales : (t : T) (target : ℕ) → LeavesSales (consume c a claim t target)
  unfolding consume
  consume-LeavesSales t target = LeavesSales-bind _ _ (LeavesSales-gets _) λ db.
      LeavesSales-bind _ _ (LeavesSales-check _ _)
        λ _. LeavesSales-bind _ _ (insert_result-LeavesSales _) λ _. LeavesSales-pure _

module _ {T : Type 0} {P : Db → Type 0} (stable : IsStable P) where
  after_occupy-Preserves :
      (env : Env) (c : PurchaseCommand) (a : AdmissionRef) (claim : AdmissionClaim) (saved : Db)
      (r : Result ((T × ℕ) × Db))
      → P saved
      → Ensures r (λ _ after. P after)
      → Ensures (after_occupy env c a claim (savepoint saved) r) (λ _ after. P after)
  unfolding after_occupy savepoint interrupted rollback_to_savepoint
  after_occupy-Preserves env c a claim saved (ok ((t, target), db)) p kept =
      Preserves-leaves stable _ (consume-LeavesSales c a claim t target) db
        (kept.at (t, target) db refl)
  after_occupy-Preserves env c a claim saved (err (app e)) p kept =
      Ensures-choose (is_business e) _ _
        (Preserves-leaves stable _ (reject-LeavesSales c a claim e) saved p) (ensures_err _)
  after_occupy-Preserves env c a claim saved (err f) p kept = ensures_err f

  occupy_protected-Preserves :
      (env : Env) (gw : Gateway) (policy : AdmissionPolicy) (c : PurchaseCommand)
      (admission : Option AdmissionRef) (occupy : Tx (T × ℕ))
      → Preserves P occupy
      → Preserves P (occupy_protected env gw policy c admission occupy)
  unfolding occupy_protected savepoint
  occupy_protected-Preserves env gw policy c none occupy kept =
      Preserves-leaves stable _ (LeavesSales-throw _)
  occupy_protected-Preserves env gw policy c (some a) occupy kept =
      Preserves-bind _ _ (Preserves-leaves stable _ (LeavesSales-check _ _)) λ _.
        Preserves-bind _ _ (Preserves-leaves stable _ (approve-LeavesSales env gw policy c a))
          λ claim saved p.
            after_occupy-Preserves env c a claim saved (occupy saved) p (kept saved p)

  -- The savepoint, the claim and the ledger row add nothing to the sales.
  pub occupy_through_admission-Preserves :
      (env : Env) (gw : Gateway) (gate : AdmissionGate) (c : PurchaseCommand) (occupy : Tx (T × ℕ))
      → Preserves P occupy
      → Preserves P (occupy_through_admission env gw gate c occupy)
  unfolding occupy_through_admission
  occupy_through_admission-Preserves env gw gate c occupy kept =
      Preserves-if gate.policy.protected _ _
        (occupy_protected-Preserves env gw gate.policy c c.admission occupy kept)
        (Preserves-bind _ _ kept λ made. Preserves-leaves stable _ (LeavesSales-pure _))
