-- ===== src/Db.antt =====
-- The PostgreSQL database and a transaction on it. A transaction that throws is rolled back, so the
-- error carries no state. A savepoint is a `Session`: what a part of the transaction wrote before it
-- threw stays until ROLLBACK TO SAVEPOINT.
pub mod Rules
pub mod Keys
pub mod Insert
use peak_pass.Prelude.{ℕ, Bool, true, false, Option, none, some, List, Text}
use peak_pass.Failure.{Failure, Result, ok, err}
use peak_pass.Model.{Event, Reservation, Order, Ticket, PaymentRecord, CallbackKey}
use peak_pass.Model.Admission.{AdmissionResult, AdmissionPolicy}

pub record Db : Type 0 where
  pub users : List ℕ
  pub events : List Event
  pub reservations : List Reservation
  pub orders : List Order
  pub tickets : List Ticket
  pub payment_records : List PaymentRecord
  pub callback_keys : List CallbackKey
  pub admission_events : List AdmissionPolicy
  pub admission_results : List AdmissionResult

-- What one transaction takes from outside: NOW(), `Date.now()`, the UUIDs that it draws, in order,
-- the values that it draws from ticket_number_seq, the year of the clock, and the configuration.
-- Times are in milliseconds. `unfinished` is the database of the transaction when a part of it has
-- thrown, from the database at the start of that part: nothing is assumed of it. `rounded` is
-- how JavaScript prints an integer above 2^53.
pub record Env : Type 0 where
  pub now : ℕ
  pub clock : ℕ
  pub uuid : ℕ → ℕ
  pub nextval : ℕ → ℕ
  pub year : ℕ
  pub payment_window_minutes : ℕ
  pub enable_admission : Bool
  pub fresh_epoch : ℕ
  pub unfinished : Db → Db
  pub rounded : ℕ → Text

-- A transaction with a savepoint: its database now, and the one that the savepoint marked.
pub record Session : Type 0 where
  pub current : Db
  pub marked : Db

-- SAVEPOINT
unfoldable pub savepoint : Db → Session
savepoint db = record { current = db; marked = db }

-- The part after the savepoint has thrown.
unfoldable pub interrupted : Env → Session → Session
interrupted env s = record s { current = env.unfinished s.current }

-- ROLLBACK TO SAVEPOINT
unfoldable pub rollback_to_savepoint : Session → Session
rollback_to_savepoint s = record s { current = s.marked }

abbrev pub Tx : Type 0 → Type 0
Tx A = Db → Result (A × Db)

module _ {A : Type 0} where
  unfoldable pub pure : A → Tx A
  pure a db = ok (a, db)

  unfoldable pub throw : Failure → Tx A
  throw e db = err e

  -- A SELECT.
  unfoldable pub gets : (Db → A) → Tx A
  gets f db = ok (f db, db)

  -- The row, or the error that the code throws where there is none.
  unfoldable pub require : Option A → Failure → Tx A
  require none e db = err e
  require (some a) e db = ok (a, db)

-- An INSERT or an UPDATE whose constraints hold.
unfoldable pub modify : (Db → Db) → Tx (Unit {0})
modify f db = ok (tt, f db)

unfoldable pub check : Bool → Failure → Tx (Unit {0})
check true e db = ok (tt, db)
check false e db = err e

infixl 5 ◌>>=◌ ◌>>◌
unfoldable pub ◌>>=◌ : {A B : Type 0} → Tx A → (A → Tx B) → Tx B
unfolding pure throw gets require modify check
◌>>=◌ m f db = elim (m db) [ err e ↦ err e | ok (a, db') ↦ f a db' ]

abbrev pub ◌>>◌ : {A B : Type 0} → Tx A → Tx B → Tx B
m >> k = m >>= λ _. k
