-- ===== src/Redis/Members.antt =====
-- The members that a read of a sorted set gives.
use peak_pass.Prelude.{
  ℕ, ◌-◌, ◌≡◌, true, false, ◌&&◌, none, List, [], ◌∷◌, ◌==◌, Bool-cases, inl, inr, leb, ltb,
  is_some, arith, ==_refl,
}
use peak_pass.Redis.{Zset, hget, zup_to, ztake}
use peak_pass.Redis.Laws.{Keyed}

abbrev pub All : (ℕ → Type 0) → List ℕ → Type 0
All P [] = Unit
All P (x ∷ xs) = P x × All P xs

-- No member stands twice.
abbrev pub Distinct : List ℕ → Type 0
Distinct [] = Unit
Distinct (x ∷ xs) = All (λ y. (x == y) ≡ false) xs × Distinct xs

pub map-All : {P Q : ℕ → Type 0} (xs : List ℕ) → ((x : ℕ) → P x → Q x) → All P xs → All Q xs
map-All [] f a = tt
map-All (x ∷ xs) f a = (f x a.0, map-All xs f a.1)

member_head : (j t : ℕ) (z : Zset) → is_some (hget j ((j, t) ∷ z)) ≡ true
unfolding hget
member_head j t z = ground (arith, ==_refl j)

member_tail :
    (id j t : ℕ) (z : Zset) → is_some (hget id z) ≡ true → is_some (hget id ((j, t) ∷ z)) ≡ true
unfolding hget
member_tail id j t z h = ground arith

pub ztake-All :
    {P : ℕ → Type 0} (n : ℕ) (z : Zset)
    → ((id : ℕ) → is_some (hget id z) ≡ true → P id)
    → All P (ztake n z)
unfolding ztake
ztake-All n [] f = tt
ztake-All n ((j, t) ∷ z) f = elim (Bool-cases (ltb 0 n)) [
  | inl y ↦
      rw (y) (f j (member_head j t z), ztake-All (n - 1) z (λ id h. f id (member_tail id j t z h)))
  | inr ne ↦ rw (ne) tt
]

pub zup_to-All :
    {P : ℕ → Type 0} (s n : ℕ) (z : Zset)
    → ((id : ℕ) → is_some (hget id z) ≡ true → P id)
    → All P (zup_to s n z)
unfolding zup_to
zup_to-All s n [] f = tt
zup_to-All s n ((j, t) ∷ z) f = elim (Bool-cases (leb t s && ltb 0 n)) [
  | inl y ↦
      rw (y)
        (f j (member_head j t z), zup_to-All s (n - 1) z (λ id h. f id (member_tail id j t z h)))
  | inr ne ↦ rw (ne) tt
]

other_member :
    (j id : ℕ) (z : Zset) → hget j z ≡ none → is_some (hget id z) ≡ true → (j == id) ≡ false
other_member j id z ne h = elim (Bool-cases (j == id)) [
  | inl y ↦ absurd (ground arith)
  | inr other ↦ other
]

pub ztake-Distinct : (n : ℕ) (z : Zset) → Keyed z → Distinct (ztake n z)
unfolding ztake
ztake-Distinct n [] u = tt
ztake-Distinct n ((j, t) ∷ z) u = elim (Bool-cases (ltb 0 n)) [
  | inl y ↦
      rw (y) (ztake-All (n - 1) z (λ id h. other_member j id z u.0 h), ztake-Distinct (n - 1) z u.1)
  | inr ne ↦ rw (ne) tt
]
