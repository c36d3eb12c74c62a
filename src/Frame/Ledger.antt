-- ===== src/Frame/Ledger.antt =====
-- The steps of the admission on the policy and on the ledger leave the sales alone.
use peak_pass.Prelude.{ℕ, refl, Option, none, some, List}
use peak_pass.Failure.{Result, ok, err, SqlState}
use peak_pass.Model.Admission.{
  AdmissionRef, PurchaseCommand, AdmissionResult, AdmissionPolicy, AdmissionClaim,
}
use peak_pass.Db.{Db, Env}
use peak_pass.Admission.{
  Gateway, AdmissionGate, add_policy, after_wait, compare_link, ensure_policy,
  read_admission_policy, lock_admission, read_prior, open_admission_gate, judge, own_result,
  assert_admission_link, is_closed,
}
use peak_pass.Admission.Occupy.{insert_result, claimed, approve}
use peak_pass.Frame.{
  SameSales, SameSales-refl, LeavesSales, LeavesSales-bind, LeavesSales-gets, LeavesSales-check,
  LeavesSales-modify, LeavesSales-pure, LeavesSales-if, LeavesSales-throw, LeavesSales-require,
}

same_policies :
    (d : Db) {policies : List AdmissionPolicy}
    → SameSales d (record d { admission_events = policies })
same_policies d = record { events = refl; reservations = refl; orders = refl; tickets = refl }

add_policy-SameSales :
    (o : Option AdmissionPolicy) (env : Env) (k : ℕ) (d : Db) → SameSales d (add_policy o env k d)
unfolding add_policy
add_policy-SameSales none env k d = same_policies d
add_policy-SameSales (some p) env k d = SameSales-refl d

ensure_policy-SameSales : (env : Env) (k : ℕ) (d : Db) → SameSales d (ensure_policy env k d)
unfolding ensure_policy
ensure_policy-SameSales env k d = add_policy-SameSales _ env k d

read_admission_policy-LeavesSales : (env : Env) (k : ℕ) → LeavesSales (read_admission_policy env k)
unfolding read_admission_policy
read_admission_policy-LeavesSales env k = LeavesSales-bind _ _ (LeavesSales-gets _) λ db.
    LeavesSales-bind _ _ (LeavesSales-check _ _) λ _.
      LeavesSales-bind _ _ (LeavesSales-modify _ (ensure_policy-SameSales env k))
        λ _. LeavesSales-bind _ _ (LeavesSales-gets _) λ after. LeavesSales-require _ _

after_wait-LeavesSales : (o : Option SqlState) → LeavesSales (after_wait o)
unfolding after_wait
after_wait-LeavesSales none = LeavesSales-pure tt
after_wait-LeavesSales (some s) = LeavesSales-throw _

lock_admission-LeavesSales : (gw : Gateway) (id : ℕ) → LeavesSales (lock_admission gw id)
unfolding lock_admission
lock_admission-LeavesSales gw id = after_wait-LeavesSales (gw.lock id)

read_prior-LeavesSales : (gw : Gateway) (a : Option AdmissionRef) → LeavesSales (read_prior gw a)
unfolding read_prior
read_prior-LeavesSales gw none = LeavesSales-pure _
read_prior-LeavesSales gw (some a) =
    LeavesSales-bind _ _ (lock_admission-LeavesSales gw a.admission_id) λ _. LeavesSales-gets _

pub open_admission_gate-LeavesSales :
    (env : Env) (gw : Gateway) (c : PurchaseCommand) → LeavesSales (open_admission_gate env gw c)
unfolding open_admission_gate
open_admission_gate-LeavesSales env gw c =
    LeavesSales-bind _ _ (read_admission_policy-LeavesSales env c.event_id) λ policy.
      LeavesSales-bind _ _ (read_prior-LeavesSales gw c.admission) λ prior. LeavesSales-pure _

judge-LeavesSales :
    (prior : Option AdmissionResult) (c : PurchaseCommand) → LeavesSales (judge prior c)
unfolding judge
judge-LeavesSales none c = LeavesSales-pure _
judge-LeavesSales (some r) c = LeavesSales-bind _ _ (LeavesSales-check _ _) λ _.
    LeavesSales-bind _ _ (LeavesSales-check _ _)
      λ _. LeavesSales-if (is_closed r.outcome) _ _ (LeavesSales-throw _) (LeavesSales-pure _)

pub own_result-LeavesSales :
    (gate : AdmissionGate) (c : PurchaseCommand) → LeavesSales (own_result gate c)
unfolding own_result
own_result-LeavesSales gate c = judge-LeavesSales gate.prior c

compare_link-LeavesSales :
    (a : AdmissionRef) (link : Option AdmissionResult) → LeavesSales (compare_link a link)
unfolding compare_link
compare_link-LeavesSales a none = LeavesSales-pure tt
compare_link-LeavesSales a (some r) = LeavesSales-check _ _

pub assert_admission_link-LeavesSales :
    (a : Option AdmissionRef) (order_id reservation_id : Option ℕ)
    → LeavesSales (assert_admission_link a order_id reservation_id)
unfolding assert_admission_link
assert_admission_link-LeavesSales none order_id reservation_id = LeavesSales-pure tt
assert_admission_link-LeavesSales (some a) order_id reservation_id =
    LeavesSales-bind _ _ (LeavesSales-gets _) λ link. compare_link-LeavesSales a link

pub insert_result-LeavesSales : (r : AdmissionResult) → LeavesSales (insert_result r)
unfolding insert_result
insert_result-LeavesSales r = LeavesSales-bind _ _ (LeavesSales-gets _) λ db.
    LeavesSales-bind _ _ (LeavesSales-check _ _) λ _.
      LeavesSales-bind _ _ (LeavesSales-check _ _) λ _.
        LeavesSales-bind _ _ (LeavesSales-check _ _) λ _.
          LeavesSales-bind _ _ (LeavesSales-check _ _) λ _.
            LeavesSales-bind _ _ (LeavesSales-check _ _) λ _.
              LeavesSales-modify _
                (λ d. record { events = refl; reservations = refl; orders = refl; tickets = refl })

claimed-LeavesSales : (r : Result AdmissionClaim) → LeavesSales (claimed r)
unfolding claimed
claimed-LeavesSales (ok c) = LeavesSales-pure c
claimed-LeavesSales (err f) = LeavesSales-throw _

pub approve-LeavesSales :
    (env : Env) (gw : Gateway) (p : AdmissionPolicy) (c : PurchaseCommand) (a : AdmissionRef)
    → LeavesSales (approve env gw p c a)
unfolding approve
approve-LeavesSales env gw p c a = LeavesSales-bind _ _ (LeavesSales-check _ _) λ _.
    LeavesSales-bind _ _ (LeavesSales-check _ _) λ _.
      LeavesSales-bind _ _ (LeavesSales-check _ _) λ _.
        LeavesSales-bind _ _ (LeavesSales-gets _)
          λ db. LeavesSales-bind _ _ (LeavesSales-check _ _) λ _. claimed-LeavesSales _
