-- ===== src/WaitingRoom.antt =====
-- src/infra/redis/admission.ts: the waiting room of an event in Redis, with the script that makes
-- every change of it. The 13 keys of a run are a `Room`; a key of a wrong type or without its
-- sentinel makes the namespace `damaged`.
pub mod Script
pub mod Entries
pub mod Requests
pub mod Finish
pub mod Tick
pub mod Lifecycle
pub mod Run
pub mod Steps
pub mod Health
pub mod Put
pub mod Changes
pub mod Ends
pub mod Updates
pub mod Entering
pub mod Running
pub mod Expiry
pub mod Joining
pub mod Claiming
pub mod Cleaning
pub mod Ticking
pub mod Bodies
pub mod Rooms
pub mod Keeping
pub mod Histories
pub mod Order
pub mod Limits
use peak_pass.Prelude.{
  if◌then◌else◌, ℕ, Bool, true, false, Option, none, some, List, [], ◌∷◌, ◌==◌, String,
}
use peak_pass.Model.Admission.{Fingerprint, AdmissionOutcome}
use peak_pass.Redis.{Hash, Zset}

pub data EntryState : Type 0 where
  waiting admitted consumed cancelled expired : EntryState

pub data EntryPhase : Type 0 where
  idle processing reconciling : EntryPhase

-- The epoch of an entry is that of its namespace, and its position stands in the answers alone.
pub record Entry : Type 0 where
  pub admission_id : ℕ
  pub user_id : ℕ
  pub sequence : ℕ
  pub state : EntryState
  pub phase : EntryPhase
  pub joined_at : ℕ
  pub admitted_at : Option ℕ
  pub expires_at : Option ℕ
  pub reason : Option String
  pub outcome : Option AdmissionOutcome
  pub fingerprint : Option Fingerprint
  pub claim_token : Option ℕ
  pub deadline : Option ℕ

-- The fields of `admissionProfile` that the script reads.
pub record Profile : Type 0 where
  pub rate : ℕ
  pub capacity : ℕ
  pub ttl_ms : ℕ
  pub claim_ms : ℕ
  pub batch : ℕ
  pub cleanup : ℕ
  pub reclaim : ℕ
  pub lease_ms : ℕ
  pub max_waiting : ℕ
  pub max_entries : ℕ
  pub epoch_ms : ℕ

abbrev pub admission_profile : Profile
admission_profile = record {
  rate = 2;
  capacity = 8;
  ttl_ms = 30000;
  claim_ms = 15000;
  batch = 2;
  cleanup = 100;
  reclaim = 8;
  lease_ms = 120000;
  max_waiting = 1000;
  max_entries = 10000;
  epoch_ms = 86400000;
}

-- KEYS[2] to KEYS[12]: `end_at` and `users` are the fields of the meta hash, and `holders` is the
-- hash `users` of the active admission of each user.
pub record Namespace : Type 0 where
  pub end_at : ℕ
  pub users : ℕ
  pub entries : Hash Entry
  pub joins : Hash ℕ
  pub latest : Hash ℕ
  pub holders : Hash ℕ
  pub queue : Zset
  pub leases : Zset
  pub active : Zset
  pub claims : Zset
  pub window : Zset
  pub sequence : ℕ

pub data Keys : Type 0 where
  absent damaged : Keys
  whole : Namespace → Keys

pub data Mode : Type 0 where
  initializing ready frozen : Mode

pub record Control : Type 0 where
  pub generation : ℕ
  pub epoch : ℕ
  pub mode : Mode
  pub run_id : ℕ
  pub dirty : Bool

-- KEYS[1]: missing, of another type, or the hash that `initialize` writes whole.
pub data ControlKey : Type 0 where
  missing other_type : ControlKey
  hash : Control → ControlKey

-- `Operation` with the input that the callers of `runAdmission` give each. The fingerprint and the
-- token of a claim are those of `ClaimIdentity` and `AdmissionClaim`.
pub data Operation : Type 0 where
  status : (user_id : ℕ) → Operation
  join : (user_id join_request_id admission_id : ℕ) → Operation
  tick reconcile : Operation
  inspect : (admission_id : ℕ) → Operation
  cancel : (user_id admission_id : ℕ) → Operation
  claim : (user_id admission_id : ℕ) → Fingerprint → (claim_token : ℕ) → Operation
  complete :
      (user_id admission_id : ℕ) → Fingerprint → (claim_token : ℕ) → AdmissionOutcome → Operation
  close : (user_id admission_id : ℕ) → Fingerprint → (claim_token : ℕ) → Operation
  initialize : (generation run_id : ℕ) → Operation
  publish freeze : (generation : ℕ) → Operation
  probe : (generation run_id : ℕ) → Operation

-- The operations that the limiter counts.
pub data Limited : Type 0 where
  statuses joins cancels : Limited

-- The keys of an event: KEYS[2] to KEYS[12] for each epoch, since their names carry it.
-- `limits` are the keys KEYS[13] of the users and the operations, `none` where a key is of another
-- type. Their expiry after a minute without a request removes only requests that the next one
-- would remove.
pub record Room : Type 0 where
  pub control : ControlKey
  pub keys : ℕ → Keys
  pub limits : ℕ → Limited → Option Zset

-- An entry as it is answered, with its position in the queue.
pub record Shown : Type 0 where
  pub entry : Entry
  pub position : Option ℕ

-- `result`, less the time and the epoch that each answer carries. `fault` is a script error.
-- `shown` is an answer with an entry, with `created` for `join`; `probed` is `ok` and `empty`.
pub data Answer : Type 0 where
  fault : Answer
  denied : Option String → ℕ → Option ℕ → Option Shown → Answer
  done : Answer
  shown : Option Shown → Option Bool → Answer
  ticked : List ℕ → ℕ → Answer
  claimed : List Entry → Answer
  probed : Bool → Bool → Answer
