-- ===== src/Polling.antt =====
-- src/frontend/admission-polling.js: the controller of a page in the waiting room. Times are whole
-- milliseconds, ids and bodies are numbers. What the controller only reports is left out: the
-- measurements, the view and the notices of a change. A call of the page that answers a notice is an
-- event of its own, and a timer fires at its time or later.
pub mod Delays
pub mod Answers
pub mod Actions
pub mod Events
pub mod Bounds
pub mod Handling
pub mod Waiting
pub mod Quiet
pub mod Exclusion
pub mod Buying
pub mod Repeats
pub mod Keys
pub mod Frozen
pub mod Ring
pub mod Resuming
use peak_pass.Prelude.{ℕ, Bool, true, false, Option, none, some, List, ℤ}
use peak_pass.WaitingRoom.{EntryState, EntryPhase}

pub data PollMode : Type 0 where
  fixed adaptive : PollMode

-- `nextPollAfterMs` of an answer: null, no positive number, or a number of milliseconds from 1 on.
pub data NextPoll : Type 0 where
  null_poll other_poll : NextPoll
  millis : ℕ → NextPoll

-- An entry as the server shows it, with its times as `Date.parse` reads them.
pub record Admission : Type 0 where
  pub admission_id : ℕ
  pub epoch : ℕ
  pub state : EntryState
  pub phase : EntryPhase
  pub expires_at : Option ℕ

-- `admission` of a body: null, an entry, or neither.
pub data AdmissionValue : Type 0 where
  null_admission other_admission : AdmissionValue
  entry : Admission → AdmissionValue

-- A body with a `queue`: its epoch, if it is a string, and its event.
pub record Body : Type 0 where
  pub epoch : Option ℕ
  pub event_id : ℕ
  pub admission : AdmissionValue
  pub server_time : Option ℕ
  pub next_poll : NextPoll

-- A code of an error; `unconfirmed` and `protocol` are the controller's own.
pub data Code : Type 0 where
  in_progress join_unconfirmed cancel_unconfirmed protocol : Code
  other_code : ℕ → Code

-- An answer of the transport. NO_RESPONSE and TIMED_OUT have the status 0. `server_min` is the
-- `nextPollAfterMs` of any body, `retry_after` the wait of the header, or 0.
pub record Response : Type 0 where
  pub status : ℕ
  pub body : Option Body
  pub code : Option Code
  pub server_min : NextPoll
  pub retry_after : ℕ

abbrev pub no_response : Response
no_response = record {
  status = 0;
  body = none;
  code = none;
  server_min = NextPoll.other_poll;
  retry_after = 0;
}

pub data ViewPhase : Type 0 where
  loading not_joined reset waiting admitted processing consumed cancelled expired not_enabled :
      ViewPhase

pub data ProblemKind : Type 0 where
  rate_limited network unavailable unauthenticated invalid : ProblemKind

pub record Problem : Type 0 where
  pub kind : ProblemKind
  pub code : Option Code
  pub retry_at : Option ℕ

pub data Busy : Type 0 where
  joining cancelling : Busy

pub record Intent : Type 0 where
  pub epoch : ℕ
  pub join_request_id : ℕ
  pub from : Option ℕ

-- The body of a purchase request.
pub record PurchaseBody : Type 0 where
  pub user_id : ℕ
  pub event_id : ℕ
  pub template : ℕ

pub data PurchaseStatus : Type 0 where
  sending retrying unconfirmed : PurchaseStatus

-- `timer` is the time of the timer that repeats the request.
pub record Purchase : Type 0 where
  pub body : PurchaseBody
  pub status : PurchaseStatus
  pub attempts : ℕ
  pub auto : ℕ
  pub restored : Bool
  pub timer : Option ℕ

-- What is sent. A cancellation names the entry that it is for.
pub data Request : Type 0 where
  read_status : Request
  post_join : (epoch join_request_id : ℕ) → Request
  delete_entry : (admission_id epoch : ℕ) → Request
  post_purchase : PurchaseBody → Request

-- The request in flight: a number of its own, what it is, and when it times out.
pub record Flight : Type 0 where
  pub ticket : ℕ
  pub request : Request
  pub timeout_at : ℕ

-- A timer is the time from which it fires. `tickets` counts the requests,
-- `outstanding` those that are neither answered nor aborted, and `sent` are the requests so far with
-- their times, the last one first.
pub record Controller : Type 0 where
  pub mode : PollMode
  pub started : Bool
  pub disposed : Bool
  pub flight : Option Flight
  pub poll_timer : Option ℕ
  pub last_done : Option ℕ
  pub not_before : ℕ
  pub failures : ℕ
  pub polls : ℕ
  pub applied : ℕ
  pub epoch : Option ℕ
  pub admission : Option Admission
  pub phase : ViewPhase
  pub problem : Option Problem
  pub notice : Option Code
  pub busy : Option Busy
  pub intent : Option Intent
  pub purchase : Option Purchase
  pub reset_pending : Bool
  pub deadline_at : Option ℤ
  pub pending : Option PurchaseBody
  pub tickets : ℕ
  pub outstanding : ℕ
  pub sent : List (ℕ × Request)

-- What the options of a controller say, and what it reads at an event: the clock, the visibility,
-- a random draw and a fresh id. The draw `u` is `(draw - 5000) / 1000`, so `draw` is from 4000 on and
-- below 6000.
pub record Env : Type 0 where
  pub user_id : ℕ
  pub event_id : ℕ
  pub keeps_pending : Bool
  pub now : ℕ
  pub hidden : Bool
  pub draw : ℕ
  pub uuid : ℕ
