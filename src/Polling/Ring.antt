-- ===== src/Polling/Ring.antt =====
-- The ring of `createTrace` in src/frontend/admission-polling.js, against the list of all its events.
use peak_pass.Prelude.{
  ℕ, suc, ◌+◌, ◌≤◌, true, ◌≡◌, refl, sym, ◌∙◌, ap, subst, ltb, inl, inr, Bool-cases, List, [], ◌∷◌,
  ◌++◌, length, arith,
}
use peak_pass.Polling.Delays.{Trace, push, shift, min}

abbrev pub new_trace : {A : Type 0} → Trace A
new_trace = record { events = []; dropped = 0 }

-- The events of a list, from the first one on.
abbrev pub pushed : {A : Type 0} → ℕ → List A → Trace A → Trace A
pushed limit [] t = t
pushed limit (x ∷ xs) t = pushed limit xs (push limit x t)

-- A trace of these events: what it has dropped, then what it has.
record Ring {A : Type 0} (limit : ℕ) (all : List A) (t : Trace A) : Type 0 where
  gone : List A
  whole : gone ++ t.events ≡ all
  counted : length gone ≡ t.dropped
  kept : length t.events ≡ min (length all) limit

append_assoc : {A : Type 0} (xs ys zs : List A) → (xs ++ ys) ++ zs ≡ xs ++ (ys ++ zs)
append_assoc [] ys zs = refl
append_assoc (x ∷ xs) ys zs = ap (λ w. x ∷ w) (append_assoc xs ys zs)

length-append : {A : Type 0} (xs ys : List A) → length (xs ++ ys) ≡ length xs + length ys
length-append [] ys = omega arith
length-append (x ∷ xs) ys = ground (arith, length-append xs ys)

append_empty : {A : Type 0} (xs : List A) → xs ++ [] ≡ xs
append_empty [] = refl
append_empty (x ∷ xs) = ap (λ w. x ∷ w) (append_empty xs)

snoc_cases :
    {A : Type 0} (xs : List A) (x : A) → (y : A) × (xs ++ (x ∷ []) ≡ y ∷ shift (xs ++ (x ∷ [])))
snoc_cases [] x = (x, refl)
snoc_cases (y ∷ xs) x = (y, refl)

-- What is kept is no more than everything.
kept_le :
    {A : Type 0} {limit : ℕ} {all : List A} {t : Trace A}
    → Ring limit all t
    → length t.events ≤ length all
kept_le {limit = l} {all = all} {t = t} r = ground (arith, r.kept)

full-Ring :
    {A : Type 0} (limit : ℕ) (all : List A) (x : A) (t : Trace A)
    → Ring limit all t
    → ltb limit (length (t.events ++ (x ∷ []))) ≡ true
    → Ring limit (all ++ (x ∷ [])) (push limit x t)
unfolding push
full-Ring limit all x t r y =
    let (h, e) = snoc_cases t.events x in
    let more = t.events ++ (x ∷ []) in
    rw (y) (record {
      gone = r.gone ++ (h ∷ []);
      whole =
          append_assoc r.gone (h ∷ []) (shift more)
          ∙ (ap (λ w. r.gone ++ w) (sym e)
              ∙ (sym (append_assoc r.gone t.events (x ∷ [])) ∙ ap (λ w. w ++ (x ∷ [])) r.whole));
      counted = length-append r.gone (h ∷ []) ∙ omega (arith, r.counted);
      kept =
          (let n : length more ≡ suc (length (shift more)) = ap length e in
            ground
              (arith, n, y, r.kept, length-append t.events (x ∷ []), length-append all (x ∷ [])));
    })

push-Ring :
    {A : Type 0} (limit : ℕ) (all : List A) (x : A) (t : Trace A)
    → Ring limit all t
    → Ring limit (all ++ (x ∷ [])) (push limit x t)
unfolding push
push-Ring limit all x t r = elim (Bool-cases (ltb limit (length (t.events ++ (x ∷ []))))) [
  | inl y ↦ full-Ring limit all x t r y
  | inr n ↦ rw (n) (record {
    gone = r.gone;
    whole = sym (append_assoc r.gone t.events (x ∷ [])) ∙ ap (λ w. w ++ (x ∷ [])) r.whole;
    counted = r.counted;
    kept = ground (
      arith,
      n,
      r.kept,
      r.whole,
      length-append t.events (x ∷ []),
      length-append all (x ∷ []),
      kept_le r,
    );
  })
]

pushed-Ring :
    {A : Type 0} (limit : ℕ) (xs : List A) (all : List A) (t : Trace A)
    → Ring limit all t
    → Ring limit (all ++ xs) (pushed limit xs t)
pushed-Ring limit [] all t r = subst (λ w. Ring limit w t) (sym (append_empty all)) r
pushed-Ring limit (x ∷ xs) all t r =
    subst (λ w. Ring limit w (pushed limit xs (push limit x t))) (append_assoc all (x ∷ []) xs)
      (pushed-Ring limit xs (all ++ (x ∷ [])) (push limit x t) (push-Ring limit all x t r))

-- A trace of a limit has the last events of those pushed, as many as the limit allows, and it counts
-- those that it has dropped.
pub trace_lem :
    {A : Type 0} (limit : ℕ) (xs : List A)
    → (gone : List A) × (gone ++ (pushed limit xs new_trace).events ≡ xs)
      × (length gone ≡ (pushed limit xs new_trace).dropped)
      × (length (pushed limit xs new_trace).events ≡ min (length xs) limit)
trace_lem limit xs =
    let r =
      pushed-Ring limit xs [] new_trace
        (record { gone = []; whole = refl; counted = refl; kept = ground arith }) in
    (r.gone, r.whole, r.counted, r.kept)
