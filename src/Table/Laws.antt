-- ===== src/Table/Laws.antt =====
-- What an UPDATE and an INSERT do to a later SELECT, to the constraints and to a sum.
use peak_pass.Prelude.{
  ℕ, ◌+◌, ◌≡◌, inl, inr, refl, none, some, List, [], ◌∷◌, arith, ◌==◌, ==→eq, Bool-cases, subst,
  sym, if◌then◌else◌,
}
use peak_pass.Table.{find, update, sum, All, Unique}
use mathlib.Core.Option

module _ {ℓ} {A : Type ℓ} (key : A → ℕ) where
  pub key-find : (k : ℕ) (rows : List A) {r : A} → find key k rows ≡ some r → key r ≡ k
  unfolding find
  key-find k [] h = cc
  key-find k (x ∷ rows) h = elim (Bool-cases (key x == k)) [
    | inl e ↦ ground (arith, ==→eq (key x) k e)
    | inr e ↦ key-find k rows (rw e at h)
  ]

  -- An UPDATE that keeps the key changes just the row with that key.
  pub find-update :
      (k j : ℕ) (f : A → A) (rows : List A)
      → ((r : A) → key (f r) ≡ key r)
      → find key j (update key k f rows)
        ≡ (if j == k then Option.map f (find key j rows) else find key j rows)
  unfolding find update
  find-update k j f [] keeps = ground arith
  find-update k j f (x ∷ rows) keeps = ground (arith, find-update k j f rows keeps, keeps x)

  find-update-none :
      (k j : ℕ) (f : A → A) (rows : List A)
      → ((r : A) → key (f r) ≡ key r)
      → find key j rows ≡ none
      → find key j (update key k f rows) ≡ none
  find-update-none k j f rows keeps h = rw (find-update k j f rows keeps, h) (ground arith)

  pub update-Unique :
      (k : ℕ) (f : A → A) (rows : List A)
      → ((r : A) → key (f r) ≡ key r)
      → Unique key rows
      → Unique key (update key k f rows)
  unfolding update
  update-Unique k f [] keeps h = tt
  update-Unique k f (x ∷ rows) keeps h = elim (Bool-cases (key x == k)) [
    | inl e ↦
        rw (e, keeps x)
          (find-update-none k (key x) f rows keeps h.0, update-Unique k f rows keeps h.1)
    | inr e ↦ rw e (find-update-none k (key x) f rows keeps h.0, update-Unique k f rows keeps h.1)
  ]

  -- A key that no row has is not updated, and its rows weigh nothing.
  update_absent :
      (k : ℕ) (f : A → A) (rows : List A) → find key k rows ≡ none → update key k f rows ≡ rows
  unfolding find update
  update_absent k f [] h = refl
  update_absent k f (x ∷ rows) h = ground (arith, update_absent k f rows)

  -- An UPDATE by a key that is unique moves a sum by the change of its one row.
  pub sum-update :
      (w : A → ℕ) (k : ℕ) (f : A → A) (rows : List A) (r : A)
      → Unique key rows
      → find key k rows ≡ some r
      → sum w (update key k f rows) + w r ≡ sum w rows + w (f r)
  unfolding find update sum
  sum-update w k f [] r u h = cc
  sum-update w k f (x ∷ rows) r u h = elim (Bool-cases (key x == k)) [
    | inl e ↦ ground (arith, ==→eq (key x) k e, update_absent k f rows)
    | inr e ↦ ground (arith, sum-update w k f rows r u.1)
  ]

  -- A predicate on rows survives an UPDATE that keeps it on the rows with the key.
  pub update-All {κ} :
      {P : A → Type κ} (k : ℕ) (f : A → A) (rows : List A)
      → ((r : A) → key r ≡ k → P r → P (f r))
      → All P rows
      → All P (update key k f rows)
  unfolding update
  update-All k f [] keeps h = tt
  update-All k f (x ∷ rows) keeps h = elim (Bool-cases (key x == k)) [
    | inl e ↦ rw e (keeps x (==→eq (key x) k e) h.0, update-All k f rows keeps h.1)
    | inr e ↦ rw e (h.0, update-All k f rows keeps h.1)
  ]

  -- The row that a SELECT finds has what every row has.
  pub find-All {κ} :
      (P : A → Type κ) (k : ℕ) (rows : List A) {r : A} → All P rows → find key k rows ≡ some r → P r
  unfolding find
  find-All P k [] h e = absurd (cc)
  find-All P k (x ∷ rows) {r} h e = elim (Bool-cases (key x == k)) [
    | inl y ↦ (let same : x ≡ r = ground arith in subst P same h.0)
    | inr n ↦ find-All P k rows h.1 (rw n at e)
  ]

  -- The one row with a unique key is the only row that an UPDATE by it changes.
  pub update-All_found {κ} :
      (P : A → Type κ) (k : ℕ) (f : A → A) (rows : List A) {r : A}
      → Unique key rows
      → find key k rows ≡ some r
      → P (f r)
      → All P rows
      → All P (update key k f rows)
  unfolding find update
  update-All_found P k f [] u e p h = absurd (cc)
  update-All_found P k f (x ∷ rows) {r} u e p h = elim (Bool-cases (key x == k)) [
    | inl y ↦
        (let same : r ≡ x = ground arith in
          let absent : find key k rows ≡ none = rw (← ==→eq (key x) k y) u.0 in
          rw (y, update_absent k f rows absent) (subst (λ z. P (f z)) same p, h.1))
    | inr n ↦ rw n (h.0, update-All_found P k f rows u.1 (rw n at e) p h.1)
  ]

  -- A row that was found is found by its own key.
  pub find_self :
      (k : ℕ) (rows : List A) (r : A) → find key k rows ≡ some r → find key (key r) rows ≡ some r
  find_self k rows r h = subst (λ j. find key j rows ≡ some r) (sym (key-find k rows h)) h

-- An UPDATE by one column keeps a UNIQUE constraint on another that it does not write.
module _ {ℓ} {A : Type ℓ} (key other : A → ℕ) where
  find_other-update :
      (k j : ℕ) (f : A → A) (rows : List A)
      → ((r : A) → other (f r) ≡ other r)
      → find other j rows ≡ none
      → find other j (update key k f rows) ≡ none
  unfolding find update
  find_other-update k j f [] keeps h = refl
  find_other-update k j f (x ∷ rows) keeps h =
      ground (arith, find_other-update k j f rows keeps, keeps x)

  pub update-Unique_other :
      (k : ℕ) (f : A → A) (rows : List A)
      → ((r : A) → other (f r) ≡ other r)
      → Unique other rows
      → Unique other (update key k f rows)
  unfolding update
  update-Unique_other k f [] keeps h = tt
  update-Unique_other k f (x ∷ rows) keeps h = elim (Bool-cases (key x == k)) [
    | inl e ↦
        rw (e, keeps x)
          (find_other-update k (other x) f rows keeps h.0, update-Unique_other k f rows keeps h.1)
    | inr e ↦
        rw e
          (find_other-update k (other x) f rows keeps h.0, update-Unique_other k f rows keeps h.1)
  ]
