-- ===== src/Redis.antt =====
-- The Redis values that the scripts of src/infra/redis use: a hash as the list of its fields, and a
-- sorted set as the list of its members by score. A member or a field is a UUID, so that the order
-- of members of one score is that of the numbers that they denote. The sentinel `__` of the source,
-- of score +inf and so always the last member, has no counterpart here: a set that has it is one
-- that exists.
pub mod Laws
pub mod Members
use peak_pass.Prelude.{
  ℕ, suc, ◌-◌, Bool, true, false, ◌||◌, ◌&&◌, not, Option, none, some, List, [], ◌∷◌, ◌==◌, leb,
  ltb, if◌then◌else◌,
}

abbrev pub Hash : Type 0 → Type 0
Hash V = List (ℕ × V)

module _ {V : Type 0} where
  unfoldable pub hget : ℕ → Hash V → Option V
  hget k [] = none
  hget k ((j, v) ∷ h) = if j == k then some v else hget k h

  unfoldable pub hset : ℕ → V → Hash V → Hash V
  hset k v [] = (k, v) ∷ []
  hset k v ((j, w) ∷ h) = let rest = hset k v h in if j == k then (k, v) ∷ h else (j, w) ∷ rest

  unfoldable pub hdel : ℕ → Hash V → Hash V
  hdel k [] = []
  hdel k ((j, w) ∷ h) = let rest = hdel k h in if j == k then rest else (j, w) ∷ rest

-- A sorted set: a hash from members to scores, kept in the order of the scores.
abbrev pub Zset : Type 0
Zset = Hash ℕ

-- Whether the member `k` of score `s` comes before the member `j` of score `t`.
abbrev pub precedes : ℕ → ℕ → ℕ → ℕ → Bool
precedes k s j t = ltb s t || s == t && ltb k j

unfoldable pub zinsert : ℕ → ℕ → Zset → Zset
zinsert k s [] = (k, s) ∷ []
zinsert k s ((j, t) ∷ z) =
    let rest = zinsert k s z in if precedes k s j t then (k, s) ∷ (j, t) ∷ z else (j, t) ∷ rest

-- ZADD
unfoldable pub zadd : ℕ → ℕ → Zset → Zset
zadd k s z = zinsert k s (hdel k z)

-- ZREMRANGEBYSCORE … -inf s
unfoldable pub zremove_to : ℕ → Zset → Zset
zremove_to s [] = []
zremove_to s ((j, t) ∷ z) = let rest = zremove_to s z in if leb t s then rest else (j, t) ∷ rest

-- ZRANGEBYSCORE … -inf s LIMIT 0 n: the members.
unfoldable pub zup_to : ℕ → ℕ → Zset → List ℕ
zup_to s n [] = []
zup_to s n ((j, t) ∷ z) =
    let rest = zup_to s (n - 1) z in if leb t s && ltb 0 n then j ∷ rest else []

-- ZRANGE … 0 n - 1: the members.
unfoldable pub ztake : ℕ → Zset → List ℕ
ztake n [] = []
ztake n ((j, t) ∷ z) = let rest = ztake (n - 1) z in if ltb 0 n then j ∷ rest else []

abbrev pub next_rank : Option ℕ → Option ℕ
next_rank none = none
next_rank (some n) = some (suc n)

-- ZRANK
unfoldable pub zrank : ℕ → Zset → Option ℕ
zrank k [] = none
zrank k ((j, t) ∷ z) = let rest = zrank k z in if j == k then some 0 else next_rank rest
