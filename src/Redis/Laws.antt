-- ===== src/Redis/Laws.antt =====
-- The laws of hashes and sorted sets.
use peak_pass.Prelude.{
  ℕ, ◌+◌, ◌≤◌, ◌≡◌, refl, true, none, some, [], ◌∷◌, ◌==◌, ==→eq, ==_refl, Bool-cases, inl, inr,
  leb, length, is_some, arith, if◌then◌else◌,
}
use peak_pass.Redis.{Hash, hget, hset, hdel, Zset, precedes, zinsert, zadd, zremove_to, zrank}

module _ {V : Type 0} where
  -- Each field stands once.
  abbrev pub Keyed : Hash V → Type 0
  Keyed [] = Unit
  Keyed ((j, v) ∷ h) = (hget j h ≡ none) × Keyed h

  pub hget-hset :
      (k j : ℕ) (v : V) (h : Hash V) → hget j (hset k v h) ≡ (if k == j then some v else hget j h)
  unfolding hget hset
  hget-hset k j v [] = ground arith
  hget-hset k j v ((i, w) ∷ h) = ground (arith, hget-hset k j v h)

  pub hget-hdel : (k j : ℕ) (h : Hash V) → hget j (hdel k h) ≡ (if k == j then none else hget j h)
  unfolding hget hdel
  hget-hdel k j [] = ground arith
  hget-hdel k j ((i, w) ∷ h) = ground (arith, hget-hdel k j h)

  pub hset-Keyed : (k : ℕ) (v : V) (h : Hash V) → Keyed h → Keyed (hset k v h)
  unfolding hset hget
  hset-Keyed k v [] u = (refl, tt)
  hset-Keyed k v ((i, w) ∷ h) u = elim (Bool-cases (i == k)) [
    | inl y ↦ (let same : i ≡ k = ==→eq i k y in rw (y) (rw (← same) u.0, u.1))
    | inr ne ↦ rw (ne) (ground (arith, hget-hset k i v h), hset-Keyed k v h u.1)
  ]

  pub hdel-Keyed : (k : ℕ) (h : Hash V) → Keyed h → Keyed (hdel k h)
  unfolding hdel hget
  hdel-Keyed k [] u = tt
  hdel-Keyed k ((i, w) ∷ h) u = elim (Bool-cases (i == k)) [
    | inl y ↦ rw (y) (hdel-Keyed k h u.1)
    | inr ne ↦ rw (ne) (ground (arith, hget-hdel k i h), hdel-Keyed k h u.1)
  ]

  pub length-hset :
      (k : ℕ) (v : V) (h : Hash V)
      → length (hset k v h) ≡ (if is_some (hget k h) then length h else length h + 1)
  unfolding hset hget
  length-hset k v [] = ground arith
  length-hset k v ((i, w) ∷ h) = ground (arith, length-hset k v h)

  pub hdel_absent : (k : ℕ) (h : Hash V) → hget k h ≡ none → hdel k h ≡ h
  unfolding hdel hget
  hdel_absent k [] e = refl
  hdel_absent k ((i, w) ∷ h) e = ground (arith, hdel_absent k h)

  -- Removing a field that is there makes the hash one shorter.
  pub length-hdel :
      (k : ℕ) (h : Hash V)
      → Keyed h
      → length (hdel k h) + (if is_some (hget k h) then 1 else 0) ≡ length h
  unfolding hdel hget
  length-hdel k [] u = ground arith
  length-hdel k ((i, w) ∷ h) u = elim (Bool-cases (i == k)) [
    | inl y ↦
        (let same : i ≡ k = ==→eq i k y in
          let absent : hget k h ≡ none = rw (← same) u.0 in ground (arith, hdel_absent k h absent))
    | inr ne ↦ ground (arith, length-hdel k h u.1)
  ]

hget-zinsert :
    (k j s : ℕ) (z : Zset)
    → hget k z ≡ none
    → hget j (zinsert k s z) ≡ (if k == j then some s else hget j z)
unfolding hget zinsert
hget-zinsert k j s [] e = ground arith
hget-zinsert k j s ((i, t) ∷ z) e = ground (arith, hget-zinsert k j s z)

pub hget-zadd : (k j s : ℕ) (z : Zset) → hget j (zadd k s z) ≡ (if k == j then some s else hget j z)
unfolding zadd
hget-zadd k j s z =
    ground (arith, hget-zinsert k j s (hdel k z), hget-hdel k k z, hget-hdel k j z, ==_refl k)

zinsert-Keyed : (k s : ℕ) (z : Zset) → hget k z ≡ none → Keyed z → Keyed (zinsert k s z)
unfolding zinsert hget
zinsert-Keyed k s [] e u = (refl, tt)
zinsert-Keyed k s ((i, t) ∷ z) e u = elim (Bool-cases (i == k)) [
  | inl y ↦ absurd (ground arith)
  | inr ne ↦ elim (Bool-cases (precedes k s i t)) [
    | inl y ↦ rw (y) (ground arith, u)
    | inr nx ↦ rw (nx) (ground (arith, hget-zinsert k i s z), zinsert-Keyed k s z (rw ne at e) u.1)
  ]
]

pub zadd-Keyed : (k s : ℕ) (z : Zset) → Keyed z → Keyed (zadd k s z)
unfolding zadd
zadd-Keyed k s z u =
    zinsert-Keyed k s (hdel k z) (ground (arith, hget-hdel k k z, ==_refl k)) (hdel-Keyed k z u)

length-zinsert : (k s : ℕ) (z : Zset) → length (zinsert k s z) ≡ length z + 1
unfolding zinsert
length-zinsert k s [] = refl
length-zinsert k s ((i, t) ∷ z) = ground (arith, length-zinsert k s z)

pub length-zadd :
    (k s : ℕ) (z : Zset)
    → Keyed z
    → length (zadd k s z) ≡ (if is_some (hget k z) then length z else length z + 1)
unfolding zadd
length-zadd k s z u = ground (arith, length-zinsert k s (hdel k z), length-hdel k z u)

length-hdel-le : (k : ℕ) (z : Zset) → length (hdel k z) ≤ length z
unfolding hdel
length-hdel-le k [] = omega arith
length-hdel-le k ((i, t) ∷ z) = ground (arith, length-hdel-le k z)

pub length-zadd-le : (k s : ℕ) (z : Zset) → length (zadd k s z) ≤ length z + 1
unfolding zadd
length-zadd-le k s z = ground (arith, length-zinsert k s (hdel k z), length-hdel-le k z)

pub zremove_to-Keyed : (s : ℕ) (z : Zset) → Keyed z → Keyed (zremove_to s z)
unfolding zremove_to hget
zremove_to-Keyed s [] u = tt
zremove_to-Keyed s ((i, t) ∷ z) u = elim (Bool-cases (leb t s)) [
  | inl y ↦ rw (y) (zremove_to-Keyed s z u.1)
  | inr ne ↦ rw (ne) (zremove_to-absent i s z u.0, zremove_to-Keyed s z u.1)
]
  where
    zremove_to-absent : (i s : ℕ) (z : Zset) → hget i z ≡ none → hget i (zremove_to s z) ≡ none
    zremove_to-absent i s [] e = refl
    zremove_to-absent i s ((j, t) ∷ z) e = ground (arith, zremove_to-absent i s z)

pub length-zremove_to : (s : ℕ) (z : Zset) → length (zremove_to s z) ≤ length z
unfolding zremove_to
length-zremove_to s [] = omega arith
length-zremove_to s ((i, t) ∷ z) = ground (arith, length-zremove_to s z)

-- A member has a rank, and it is within the set.
pub zrank-some : (k : ℕ) (z : Zset) → is_some (hget k z) ≡ true → is_some (zrank k z) ≡ true
unfolding zrank hget
zrank-some k [] e = cc
zrank-some k ((j, t) ∷ z) e = ground (arith, zrank-some k z)
