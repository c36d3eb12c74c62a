-- ===== src/WaitingRoom/Running.antt =====
-- The statement that a part of the script meets no script error, keeps a namespace in order and
-- takes each entry through steps of its life, with its rules.
use peak_pass.Prelude.{◌≡◌, refl, ap, ◌∙◌, Bool, true, false, Option, some, if◌then◌else◌}
use peak_pass.WaitingRoom.{Profile, Namespace, Answer}
use peak_pass.WaitingRoom.Script.{Script, pure, gets, modify, need, continue_with, ◌>>=◌}
use peak_pass.WaitingRoom.Changes.{Next, Next-refl, Next-trans}
use peak_pass.WaitingRoom.Health.{Healthy}

pub record Runs (p : Profile) {A : Type 0} (m : Script A) (n : Namespace)
    (Q : A → Namespace → Type 0) : Type 0 where
  pub value : A
  pub after : Namespace
  pub runs : m n ≡ some (value, after)
  pub next : Next p n after
  pub result : Q value after

-- No more than that it runs.
abbrev pub Any : {A : Type 0} → A → Namespace → Type 0
Any a n = Unit

abbrev pub is_fault : Answer → Bool
is_fault Answer.fault = true
is_fault _ = false

-- The answer is not a script error.
abbrev pub Answered : Answer → Namespace → Type 0
Answered a n = is_fault a ≡ false

module _ {p : Profile} {n : Namespace} {A : Type 0} where
  pub pure-Runs : {Q : A → Namespace → Type 0} → (a : A) → Healthy p n → Q a n → Runs p (pure a) n Q
  unfolding pure
  pure-Runs a h q = record { value = a; after = n; runs = refl; next = Next-refl h; result = q }

  pub gets-Runs : (f : Namespace → A) → Healthy p n → Runs p (gets f) n (λ a m. (a ≡ f n) × (m ≡ n))
  unfolding gets
  gets-Runs f h = record {
    value = f n;
    after = n;
    runs = refl;
    next = Next-refl h;
    result = (refl, refl);
  }

  pub need-Runs :
      (o : Option A) (a : A)
      → o ≡ some a
      → Healthy p n
      → Runs p (need o) n (λ b m. (b ≡ a) × (m ≡ n))
  unfolding need
  need-Runs o a e h = record {
    value = a;
    after = n;
    runs = rw (e) refl;
    next = Next-refl h;
    result = (refl, refl);
  }

  pub bind-Runs :
      {B : Type 0} {m : Script A} {f : A → Script B} {Q : A → Namespace → Type 0}
      {R : B → Namespace → Type 0}
      → Runs p m n Q
      → ((a : A) (after : Namespace) → Next p n after → Q a after → Runs p (f a) after R)
      → Runs p (m >>= f) n R
  unfolding ◌>>=◌
  bind-Runs {m = m} {f = f} r k =
      let s = k r.value r.after r.next r.result in
      record {
        value = s.value;
        after = s.after;
        runs = ap (continue_with f) r.runs ∙ s.runs;
        next = Next-trans r.next s.next;
        result = s.result;
      }

  pub weaken-Runs :
      {m : Script A} {Q R : A → Namespace → Type 0}
      → Runs p m n Q
      → ((a : A) (after : Namespace) → Next p n after → Q a after → R a after)
      → Runs p m n R
  weaken-Runs r k = record {
    value = r.value;
    after = r.after;
    runs = r.runs;
    next = r.next;
    result = k r.value r.after r.next r.result;
  }

  pub if-Runs :
      {a b : Script A} {Q : A → Namespace → Type 0} (t : Bool)
      → (t ≡ true → Runs p a n Q)
      → (t ≡ false → Runs p b n Q)
      → Runs p (if t then a else b) n Q
  if-Runs true f g = f refl
  if-Runs false f g = g refl

pub modify-Runs :
    {p : Profile} {n : Namespace} (f : Namespace → Namespace)
    → Next p n (f n)
    → Runs p (modify f) n (λ t m. m ≡ f n)
unfolding modify
modify-Runs {n = n} f s = record { value = tt; after = f n; runs = refl; next = s; result = refl }

-- The steps of a script that leave no choice.
module _ {p : Profile} {n : Namespace} {B : Type 0} {R : B → Namespace → Type 0} where
  pub gets_then :
      {A : Type 0} (f : Namespace → A) (k : A → Script B)
      → Runs p (k (f n)) n R
      → Runs p (gets f >>= k) n R
  unfolding gets ◌>>=◌
  gets_then f k r = record {
    value = r.value;
    after = r.after;
    runs = r.runs;
    next = r.next;
    result = r.result;
  }

  pub need_then :
      {A : Type 0} {o : Option A} (a : A) (k : A → Script B)
      → o ≡ some a
      → Runs p (k a) n R
      → Runs p (need o >>= k) n R
  unfolding need ◌>>=◌
  need_then a k e r = record {
    value = r.value;
    after = r.after;
    runs = ap (λ o. continue_with k (need o n)) e ∙ r.runs;
    next = r.next;
    result = r.result;
  }

  pub modify_then :
      (f : Namespace → Namespace) (k : Unit {0} → Script B)
      → Next p n (f n)
      → Runs p (k tt) (f n) R
      → Runs p (modify f >>= k) n R
  unfolding modify ◌>>=◌
  modify_then f k s r = record {
    value = r.value;
    after = r.after;
    runs = r.runs;
    next = Next-trans s r.next;
    result = r.result;
  }

  -- Two writes that are one change.
  pub two_then :
      (f g : Namespace → Namespace) (k : Script B)
      → Next p n (g (f n))
      → Runs p k (g (f n)) R
      → Runs p (modify f >>= λ t. modify g >>= λ u. k) n R
  unfolding modify ◌>>=◌
  two_then f g k s r = record {
    value = r.value;
    after = r.after;
    runs = r.runs;
    next = Next-trans s r.next;
    result = r.result;
  }
