-- ===== src/Model/Admission.antt =====
-- src/core/models/admission.ts and the types of services/admission-consumption.ts: the command of a
-- purchase, its fingerprint, the ledger row and the policy of an event.
use peak_pass.Prelude.{ℕ, Bool, Option, String, Text}
use peak_pass.Failure.{Message}

pub data AdmissionOperation : Type 0 where
  reservation direct_checkout : AdmissionOperation

pub record AdmissionRef : Type 0 where
  pub admission_id : ℕ
  pub epoch : ℕ

pub record PurchaseCommand : Type 0 where
  pub operation : AdmissionOperation
  pub user_id : ℕ
  pub event_id : ℕ
  pub tier_id : Text
  pub quantity : ℕ
  pub checkout_key : Option ℕ
  pub admission : Option AdmissionRef

-- The canonical array that `admissionFingerprint` prints as JSON. JSON.stringify is injective on
-- such arrays, so the array itself stands for the text.
pub record Fingerprint : Type 0 where
  pub user_id : ℕ
  pub event_id : ℕ
  pub epoch : ℕ
  pub operation : AdmissionOperation
  pub tier_id : Text
  pub quantity : ℕ
  pub checkout_key : Option ℕ

pub data LedgerOutcome : Type 0 where
  consumed rejected closed : LedgerOutcome

-- A row of admission_results.
pub record AdmissionResult : Type 0 where
  pub admission_id : ℕ
  pub user_id : ℕ
  pub event_id : ℕ
  pub epoch : ℕ
  pub operation : AdmissionOperation
  pub fingerprint : Fingerprint
  pub outcome : LedgerOutcome
  pub reservation_id : Option ℕ
  pub order_id : Option ℕ
  pub error_code : Option String
  pub http_status : Option ℕ
  pub error_message : Option Message

pub data Phase : Type 0 where
  recovering open_phase : Phase

-- A row of admission_events; `protected` is a word of its own in PostgreSQL only.
pub record AdmissionPolicy : Type 0 where
  pub event_id : ℕ
  pub protected : Bool
  pub epoch : ℕ
  pub phase : Phase

pub record AdmissionClaim : Type 0 where
  pub event_id : ℕ
  pub user_id : ℕ
  pub admission_id : ℕ
  pub epoch : ℕ
  pub fingerprint : Fingerprint
  pub claim_token : ℕ
  pub deadline : ℕ

pub data OutcomeKind : Type 0 where
  reservation direct_checkout rejected : OutcomeKind

pub record AdmissionOutcome : Type 0 where
  pub kind : OutcomeKind
  pub resource_id : Option ℕ
  pub code : Option String
