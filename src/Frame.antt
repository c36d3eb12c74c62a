-- ===== src/Frame.antt =====
-- What a step of a transaction leaves alone: the tables of the sales, or those of the seats.
pub mod Payments
pub mod Ledger
pub mod Occupation
use peak_pass.Prelude.{◌≡◌, refl, sym, ◌∙◌, Bool, true, false, Option, none, some, if◌then◌else◌}
use peak_pass.Failure.{Failure}
use peak_pass.Db.{Db, Tx, pure, throw, gets, require, modify, check, ◌>>=◌}
use peak_pass.Db.Rules.{
  Ensures, Ensures-gets, Ensures-require, Ensures-check, Ensures-modify, Ensures-pure, Ensures-then,
  Ensures-throw, Ensures-weaken, Ensures-modified,
}

-- Events, reservations, orders and tickets are as they were.
pub record SameSales (db after : Db) : Type 0 where
  pub events : after.events ≡ db.events
  pub reservations : after.reservations ≡ db.reservations
  pub orders : after.orders ≡ db.orders
  pub tickets : after.tickets ≡ db.tickets

pub SameSales-refl : (db : Db) → SameSales db db
SameSales-refl db = record { events = refl; reservations = refl; orders = refl; tickets = refl }

pub SameSales-trans : {a b c : Db} → SameSales a b → SameSales b c → SameSales a c
SameSales-trans p q = record {
  events = q.events ∙ p.events;
  reservations = q.reservations ∙ p.reservations;
  orders = q.orders ∙ p.orders;
  tickets = q.tickets ∙ p.tickets;
}

-- A transaction that leaves the sales alone where it commits.
abbrev pub LeavesSales : {A : Type 0} → Tx A → Type 0
LeavesSales m = (db : Db) → Ensures (m db) (λ _ after. SameSales db after)

-- A property of the sales survives such a step.
pub Ensures-leaves :
    {A B : Type 0} {Q : B → Db → Type 0} (m : Tx A) (f : A → Tx B) (db : Db)
    → LeavesSales m
    → ((a : A) (after : Db) → SameSales db after → Ensures (f a after) Q)
    → Ensures ((m >>= f) db) Q
Ensures-leaves m f db leaves rest = Ensures-then m f db (leaves db) rest

pub LeavesSales-bind :
    {A B : Type 0} (m : Tx A) (f : A → Tx B)
    → LeavesSales m
    → ((a : A) → LeavesSales (f a))
    → LeavesSales (m >>= f)
LeavesSales-bind m f first second db =
    Ensures-leaves m f db first
      λ a mid same. Ensures-weaken _ (second a mid) (λ b after same'. SameSales-trans same same')

pub LeavesSales-gets : {A : Type 0} (g : Db → A) → LeavesSales (gets g)
unfolding gets pure
LeavesSales-gets g db = Ensures-pure _ _ (SameSales-refl db)

pub LeavesSales-pure : {A : Type 0} (a : A) → LeavesSales (pure a)
LeavesSales-pure a db = Ensures-pure _ _ (SameSales-refl db)

pub LeavesSales-throw : {A : Type 0} (e : Failure) → LeavesSales (throw {A = A} e)
LeavesSales-throw e db = Ensures-throw e db

pub LeavesSales-check : (b : Bool) (e : Failure) → LeavesSales (check b e)
unfolding check pure throw
LeavesSales-check true e db = Ensures-pure tt db (SameSales-refl db)
LeavesSales-check false e db = Ensures-throw {A = Unit {0}} e db

pub LeavesSales-require : {A : Type 0} (o : Option A) (e : Failure) → LeavesSales (require o e)
unfolding require pure throw
LeavesSales-require none e db = Ensures-throw _ db
LeavesSales-require (some a) e db = Ensures-pure _ _ (SameSales-refl db)

pub LeavesSales-if :
    {A : Type 0} (b : Bool) (m n : Tx A)
    → LeavesSales m
    → LeavesSales n
    → LeavesSales (if b then m else n)
LeavesSales-if true m n p q = p
LeavesSales-if false m n p q = q

pub LeavesSales-modify : (g : Db → Db) → ((db : Db) → SameSales db (g db)) → LeavesSales (modify g)
LeavesSales-modify g same db = Ensures-modified g db (same db)

pub ruleset leaves_rules = (
  LeavesSales-bind, LeavesSales-gets, LeavesSales-pure, LeavesSales-throw, LeavesSales-check,
  LeavesSales-require, LeavesSales-if,
)

-- A transaction keeps a property of the database where it commits.
abbrev pub Preserves : {A : Type 0} → (Db → Type 0) → Tx A → Type 0
Preserves P m = (db : Db) → P db → Ensures (m db) (λ _ after. P after)

-- A property of the sales alone.
abbrev pub IsStable : (Db → Type 0) → Type 0
IsStable P = (db after : Db) → SameSales db after → P db → P after

pub Preserves-leaves :
    {A : Type 0} {P : Db → Type 0} → IsStable P → (m : Tx A) → LeavesSales m → Preserves P m
Preserves-leaves stable m leaves db p =
    Ensures-weaken _ (leaves db) (λ _ after same. stable db after same p)

pub Preserves-bind :
    {A B : Type 0} {P : Db → Type 0} (m : Tx A) (f : A → Tx B)
    → Preserves P m
    → ((a : A) → Preserves P (f a))
    → Preserves P (m >>= f)
Preserves-bind m f first second db p = Ensures-then m f db (first db p) λ a mid q. second a mid q

pub Preserves-if :
    {A : Type 0} {P : Db → Type 0} (b : Bool) (m n : Tx A)
    → Preserves P m
    → Preserves P n
    → Preserves P (if b then m else n)
Preserves-if true m n p q = p
Preserves-if false m n p q = q
