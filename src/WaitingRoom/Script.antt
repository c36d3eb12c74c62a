-- ===== src/WaitingRoom/Script.antt =====
-- The body of the script as a small monad over the namespace. A script error leaves the dirty bit
-- set, after which no run reads the namespace again, so an error carries no namespace.
use peak_pass.Prelude.{Option, none, some}
use peak_pass.WaitingRoom.{Namespace}

abbrev pub Script : Type 0 → Type 0
Script A = Namespace → Option (A × Namespace)

unfoldable pub pure : {A : Type 0} → A → Script A
pure a n = some (a, n)

unfoldable pub gets : {A : Type 0} → (Namespace → A) → Script A
gets f n = some (f n, n)

unfoldable pub modify : (Namespace → Namespace) → Script (Unit {0})
modify f n = some (tt, f n)

-- A value that must be there, or a script error.
unfoldable pub need : {A : Type 0} → Option A → Script A
need none n = none
need (some a) n = some (a, n)

-- The rest of the script, unless there was an error.
abbrev pub continue_with :
    {A B : Type 0} → (A → Script B) → Option (A × Namespace) → Option (B × Namespace)
continue_with f none = none
continue_with f (some (a, n)) = f a n

infixl 5 ◌>>=◌ ◌>>◌
unfoldable pub ◌>>=◌ : {A B : Type 0} → Script A → (A → Script B) → Script B
◌>>=◌ m f n = continue_with f (m n)

abbrev pub ◌>>◌ : {A B : Type 0} → Script A → Script B → Script B
m >> k = m >>= λ _. k
