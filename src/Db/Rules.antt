-- ===== src/Db/Rules.antt =====
-- Postconditions of transactions, one rule for each way to build a transaction.
use peak_pass.Prelude.{◌≡◌, refl, Bool, true, false, Option, none, some, subst, if◌then◌else◌}
use peak_pass.Failure.{Failure, Result, ok, err}
use peak_pass.Db.{Db, Tx, pure, throw, gets, require, modify, check, ◌>>=◌}

-- Where the transaction commits, its value and the new database satisfy `Q`.
pub record Ensures {A : Type 0} (r : Result (A × Db)) (Q : A → Db → Type 0) : Type 0 where
  pub at : (a : A) (db : Db) → r ≡ ok (a, db) → Q a db

module _ {A : Type 0} {Q : A → Db → Type 0} where
  ensures_ok : (a : A) (db : Db) → Q a db → Ensures (ok (a, db)) Q
  ensures_ok a db h = record {
    at = λ b db' e.
        let same : ◌≡◌ {A = A × Db} (a, db) (b, db') = cc e in
        subst (λ (t : A × Db). Q t.0 t.1) same h;
  }

  pub ensures_err : (e : Failure) → Ensures (err e) Q
  ensures_err e = record { at = λ b db' e. cc }

  pub Ensures-pure : (a : A) (db : Db) → Q a db → Ensures (pure a db) Q
  unfolding pure
  Ensures-pure a db h = ensures_ok a db h

  pub Ensures-throw : (e : Failure) (db : Db) → Ensures (throw e db) Q
  unfolding throw
  Ensures-throw e db = ensures_err e

  pub Ensures-if :
      (b : Bool) (m n : Tx A) (db : Db)
      → (b ≡ true → Ensures (m db) Q)
      → (b ≡ false → Ensures (n db) Q)
      → Ensures ((if b then m else n) db) Q
  Ensures-if true m n db km kn = km refl
  Ensures-if false m n db km kn = kn refl

module _ {A B : Type 0} {Q : B → Db → Type 0} where
  continue :
      (r : Result (A × Db)) (m : Tx A) (f : A → Tx B) (db : Db)
      → m db ≡ r
      → ((a : A) (db' : Db) → r ≡ ok (a, db') → Ensures (f a db') Q)
      → Ensures ((m >>= f) db) Q
  unfolding ◌>>=◌
  continue (ok (a, db')) m f db e k = rw (e, ◌>>=◌) (k a db' refl)
  continue (err x) m f db e k = rw (e, ◌>>=◌) (ensures_err x)

  -- The rest of the block may use what the step returned.
  pub Ensures-bind :
      (m : Tx A) (f : A → Tx B) (db : Db)
      → ((a : A) (db' : Db) → m db ≡ ok (a, db') → Ensures (f a db') Q)
      → Ensures ((m >>= f) db) Q
  Ensures-bind m f db k = continue (m db) m f db refl k

  -- A step whose postcondition is known.
  pub Ensures-then :
      {P : A → Db → Type 0} (m : Tx A) (f : A → Tx B) (db : Db)
      → Ensures (m db) P
      → ((a : A) (db' : Db) → P a db' → Ensures (f a db') Q)
      → Ensures ((m >>= f) db) Q
  Ensures-then m f db known k = Ensures-bind m f db (λ a db' e. k a db' (known.at a db' e))

  pub Ensures-gets :
      (g : Db → A) (f : A → Tx B) (db : Db)
      → Ensures (f (g db) db) Q
      → Ensures ((gets g >>= f) db) Q
  unfolding ◌>>=◌
  Ensures-gets g f db h = h

  pub Ensures-require :
      (o : Option A) (x : Failure) (f : A → Tx B) (db : Db)
      → ((a : A) → o ≡ some a → Ensures (f a db) Q)
      → Ensures ((require o x >>= f) db) Q
  unfolding ◌>>=◌
  Ensures-require none x f db k = ensures_err x
  Ensures-require (some a) x f db k = k a refl

module _ {B : Type 0} {Q : B → Db → Type 0} where
  pub Ensures-check :
      (b : Bool) (x : Failure) (f : Unit {0} → Tx B) (db : Db)
      → (b ≡ true → Ensures (f tt db) Q)
      → Ensures ((check b x >>= f) db) Q
  unfolding ◌>>=◌
  Ensures-check true x f db k = k refl
  Ensures-check false x f db k = ensures_err x

  pub Ensures-modify :
      (g : Db → Db) (f : Unit {0} → Tx B) (db : Db)
      → Ensures (f tt (g db)) Q
      → Ensures ((modify g >>= f) db) Q
  unfolding ◌>>=◌
  Ensures-modify g f db h = h

-- A transaction that ends in a write.
pub Ensures-modified :
    {Q : Unit {0} → Db → Type 0} (g : Db → Db) (db : Db) → Q tt (g db) → Ensures (modify g db) Q
unfolding modify
Ensures-modified g db h = ensures_ok tt (g db) h

-- A transaction that commits with its postcondition leaves a database with a property that it
-- implies; one that rolls back leaves the database as it was.
pub Ensures-weaken :
    {A : Type 0} {P Q : A → Db → Type 0} (r : Result (A × Db))
    → Ensures r P
    → ((a : A) (db : Db) → P a db → Q a db)
    → Ensures r Q
Ensures-weaken r known k = record { at = λ a db e. k a db (known.at a db e) }

pub Ensures-choose :
    {A : Type 0} {Q : A → Db → Type 0} (b : Bool) (r s : Result (A × Db))
    → Ensures r Q
    → Ensures s Q
    → Ensures (if b then r else s) Q
Ensures-choose true r s p q = p
Ensures-choose false r s p q = q

-- A transaction that ends by reading a row that must be there.
pub Ensures-require_last :
    {A : Type 0} {Q : A → Db → Type 0} (o : Option A) (x : Failure) (db : Db)
    → ((a : A) → o ≡ some a → Q a db)
    → Ensures (require o x db) Q
unfolding require
Ensures-require_last none x db k = ensures_err x
Ensures-require_last (some a) x db k = ensures_ok a db (k a refl)
