-- ===== src/Admission/Ledger.antt =====
-- The ledger row of a protected purchase in `occupyThroughAdmission` of
-- src/core/services/admission-consumption.ts: there is one, and only one.
use peak_pass.Prelude.{
  ℕ, ◌≡◌, refl, Bool, true, Option, none, some, ◌∷◌, if◌then◌else◌, ==_refl, arith,
}
use peak_pass.Table.{find}
use peak_pass.Failure.{AppError, Result, ok, err, app, is_business}
use peak_pass.Model.Admission.{
  AdmissionOperation, AdmissionRef, PurchaseCommand, AdmissionResult, AdmissionPolicy,
  AdmissionClaim,
}
use peak_pass.Db.{savepoint, interrupted, rollback_to_savepoint, Db, Env, Tx, pure, ◌>>=◌}
use peak_pass.Db.Rules.{
  Ensures, Ensures-gets, Ensures-check, Ensures-pure, Ensures-then, Ensures-throw, Ensures-modified,
  Ensures-choose, Ensures-weaken, ensures_err,
}
use peak_pass.Db.Keys.{result_key}
use peak_pass.Admission.{Gateway, AdmissionGate, admission_fingerprint}
use peak_pass.Admission.Occupy.{
  Occupation, value, insert_result, rejected_row, consumed_row, consume, reject, claimed,
  after_occupy, approve, occupy_protected, occupy_through_admission,
}
use peak_pass.Seats.Rules.{is_none→eq}

-- The INSERT found no row of the admission, and left one.
record Entered (r : AdmissionResult) (db : Db) (u : Unit {0}) (after : Db) : Type 0 where
  fresh : find result_key r.admission_id db.admission_results ≡ none
  made : after ≡ record db { admission_results = r ∷ db.admission_results }

insert_result-Entered :
    (r : AdmissionResult) (db : Db) → Ensures (insert_result r db) (Entered r db)
unfolding insert_result
insert_result-Entered r db = Ensures-gets _ _ _ (
    Ensures-check _ _ _ _ λ _. Ensures-check _ _ _ _ λ _. Ensures-check _ _ _ _ λ fresh.
      Ensures-check _ _ _ _ λ _.
        Ensures-check _ _ _ _
          λ _. Ensures-modified _ _ (record { fresh = is_none→eq _ fresh; made = refl }))

-- The ledger binds the admission to exactly this request.
pub record Recorded (c : PurchaseCommand) (a : AdmissionRef) (db after : Db) : Type 0 where
  pub row : AdmissionResult
  pub found : find result_key a.admission_id after.admission_results ≡ some row
  pub request : row.fingerprint ≡ admission_fingerprint c a
  pub fresh : find result_key a.admission_id db.admission_results ≡ none

entered :
    (c : PurchaseCommand) (a : AdmissionRef) (r : AdmissionResult) (db after : Db)
    → r.admission_id ≡ a.admission_id
    → r.fingerprint ≡ admission_fingerprint c a
    → Entered r db tt after
    → Recorded c a db after
unfolding find
entered c a r db after same request e = record {
  row = r;
  found = rw (e.made, same, ==_refl a.admission_id) refl;
  request = request;
  fresh = rw (← same) e.fresh;
}

-- The row of a consumption is one for the admission and the request, whatever its operation.
consumed_row-entered :
    (c : PurchaseCommand) (a : AdmissionRef) (n : ℕ) (o : AdmissionOperation)
    → c.operation ≡ o
    → ((consumed_row c a n).admission_id ≡ a.admission_id)
      × ((consumed_row c a n).fingerprint ≡ admission_fingerprint c a)
consumed_row-entered c a n AdmissionOperation.reservation e = ground (arith, e)
consumed_row-entered c a n AdmissionOperation.direct_checkout e = ground (arith, e)

approve-same :
    (env : Env) (gw : Gateway) (policy : AdmissionPolicy) (c : PurchaseCommand) (a : AdmissionRef)
    (db : Db)
    → Ensures (approve env gw policy c a db) (λ _ after. after ≡ db)
unfolding approve claimed
approve-same env gw policy c a db = Ensures-check _ _ _ _ λ _. Ensures-check _ _ _ _ λ _.
    Ensures-check _ _ _ _ λ _.
      Ensures-gets _ _ _
        (Ensures-check _ _ _ _ λ _. claimed-same (gw.claim c a (admission_fingerprint c a)))
  where
    claimed-same : (r : Result AdmissionClaim) → Ensures (claimed r db) (λ _ after. after ≡ db)
    claimed-same (ok claim) = Ensures-pure _ _ refl
    claimed-same (err f) = Ensures-throw _ db

-- The work of the purchase leaves the ledger alone.
abbrev pub LeavesLedger : {A : Type 0} → Tx A → Type 0
LeavesLedger m =
    (db : Db) → Ensures (m db) (λ _ after. after.admission_results ≡ db.admission_results)

module _ {T : Type 0} (c : PurchaseCommand) (a : AdmissionRef) where
  reject-Recorded :
      (claim : AdmissionClaim) (e : AppError) (db : Db)
      → Ensures (reject {T = T} c a claim e db) (λ _ after. Recorded c a db after)
  unfolding reject
  reject-Recorded claim e db =
      Ensures-then _ _ _ (insert_result-Entered (rejected_row c a e) db)
        λ _ after i. Ensures-pure _ _ (entered c a (rejected_row c a e) db after refl refl i)

  consume-Recorded :
      (claim : AdmissionClaim) (t : T) (target : ℕ) (db : Db)
      → Ensures (consume c a claim t target db) (λ _ after. Recorded c a db after)
  unfolding consume
  consume-Recorded claim t target db = Ensures-gets _ _ _ (
      Ensures-check _ _ _ _ λ _.
        Ensures-then _ _ _ (insert_result-Entered (consumed_row c a target) db) λ _ after i.
          let same = consumed_row-entered c a target c.operation refl in
          Ensures-pure _ _ (entered c a (consumed_row c a target) db after same.0 same.1 i))

  after_occupy-Recorded :
      (env : Env) (claim : AdmissionClaim) (saved : Db) (r : Result ((T × ℕ) × Db))
      → Ensures r (λ _ mid. mid.admission_results ≡ saved.admission_results)
      → Ensures
          (after_occupy env c a claim (savepoint saved) r)
          (λ _ after. Recorded c a saved after)
  unfolding after_occupy savepoint interrupted rollback_to_savepoint
  after_occupy-Recorded env claim saved (ok ((t, target), mid)) same =
      Ensures-weaken _ (consume-Recorded claim t target mid) λ _ after r. record {
        row = r.row;
        found = r.found;
        request = r.request;
        fresh = rw (← same.at (t, target) mid refl) r.fresh;
      }
  after_occupy-Recorded env claim saved (err (app e)) same =
      Ensures-choose (is_business e) _ _ (reject-Recorded claim e saved) (ensures_err _)
  after_occupy-Recorded env claim saved (err f) same = ensures_err f

  occupy_protected-Recorded :
      (env : Env) (gw : Gateway) (policy : AdmissionPolicy) (occupy : Tx (T × ℕ)) (db : Db)
      → LeavesLedger occupy
      → Ensures
          (occupy_protected env gw policy c (some a) occupy db)
          (λ _ after. Recorded c a db after)
  unfolding occupy_protected savepoint
  occupy_protected-Recorded env gw policy occupy db leaves = Ensures-check _ _ _ _ λ _.
      Ensures-then _ _ _ (approve-same env gw policy c a db)
        λ claim saved same. rw (same) (after_occupy-Recorded env claim db (occupy db) (leaves db))

  guarded-Recorded :
      (env : Env) (gw : Gateway) (policy : AdmissionPolicy) (occupy : Tx (T × ℕ)) (db : Db)
      (b : Bool) (admission : Option AdmissionRef)
      → b ≡ true
      → admission ≡ some a
      → LeavesLedger occupy
      → Ensures
          ((if b
              then occupy_protected env gw policy c admission occupy
              else (occupy >>= λ made. pure (value made.0 none)))
            db)
          (λ _ after. Recorded c a db after)
  guarded-Recorded env gw policy occupy db true (some a') guarded admitted leaves =
      let same : a' ≡ a = cc in rw (same) (occupy_protected-Recorded env gw policy occupy db leaves)
  guarded-Recorded env gw policy occupy db _ _ guarded admitted leaves = absurd (cc)

  -- A protected purchase that commits, whatever its outcome, had an admission of which the ledger
  -- had no row, and leaves a row that binds the admission to the fingerprint of its request; so no
  -- admission is spent twice. The work of the purchase must leave the ledger alone.
  pub occupy_through_admission-Recorded :
      (env : Env) (gw : Gateway) (gate : AdmissionGate) (occupy : Tx (T × ℕ)) (db after : Db)
      (outcome : Occupation T)
      → gate.policy.protected ≡ true
      → c.admission ≡ some a
      → LeavesLedger occupy
      → occupy_through_admission env gw gate c occupy db ≡ ok (outcome, after)
      → Recorded c a db after
  unfolding occupy_through_admission
  occupy_through_admission-Recorded env gw gate occupy db after outcome guarded admitted leaves h =
      (guarded-Recorded env gw gate.policy occupy db gate.policy.protected c.admission guarded
          admitted leaves).at
        outcome after h
