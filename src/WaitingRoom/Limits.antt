-- ===== src/WaitingRoom/Limits.antt =====
-- The limiter of the requests of a user.
use peak_pass.Prelude.{
  ℕ, ◌+◌, ◌-◌, ◌≤◌, ◌≡◌, refl, ap, Bool-cases, inl, inr, Option, none, some, [], ◌∷◌, leb, length,
  arith,
}
use peak_pass.Redis.{Zset, zremove_to}
use peak_pass.Redis.Laws.{length-zadd-le, length-zremove_to}
use peak_pass.WaitingRoom.{Limited, Answer}
use peak_pass.WaitingRoom.Requests.{deny, limit_of, limit_wait, within_minute, limiter}

within_minute-length : (now : ℕ) (z : Zset) → length (within_minute now z) ≤ length z
within_minute-length now z = ground (arith, length-zremove_to (now - 60000) z)

-- A user with at most the limit of requests in the window has at most the limit after one more,
-- admitted or refused.
pub limiter-bounded :
    (now request_id : ℕ) (l : Limited) (z : Zset)
    → length z ≤ limit_of l
    → length (limiter now request_id l z).1 ≤ limit_of l
unfolding limiter
limiter-bounded now request_id l z b =
    ground (arith, within_minute-length now z, length-zadd-le request_id now (within_minute now z))

-- The oldest request leaves the window after the wait.
first_leaves :
    (now : ℕ) (z : Zset)
    → 1 ≤ length z
    → length (within_minute (now + limit_wait now z) z) + 1 ≤ length z
unfolding zremove_to
first_leaves now [] b = absurd (omega arith)
first_leaves now ((k, t) ∷ z) b =
    ground (arith, length-zremove_to (now + limit_wait now ((k, t) ∷ z) - 60000) z)

abbrev wait_of : Option Answer → ℕ
wait_of (some (Answer.denied code status (some wait) shown)) = wait
wait_of _ = 0

not_limited :
    (now next_id : ℕ) (l : Limited) (z : Zset)
    → length (within_minute now z) + 1 ≤ limit_of l
    → (limiter now next_id l z).0 ≡ none
unfolding limiter
not_limited now next_id l z few =
    elim (Bool-cases (leb (limit_of l) (length (within_minute now z)))) [
      | inl y ↦ absurd (ground arith)
      | inr ne ↦ rw (ne) refl
    ]

some_limit : (l : Limited) → 1 ≤ limit_of l
some_limit l = ground arith

-- A user with at most the limit of requests in the window whose request is refused, and who waits
-- for as long as the answer says before the next one, is not refused again.
pub limiter-wait :
    (now request_id next_id : ℕ) (l : Limited) (z : Zset) (wait : ℕ)
    → length z ≤ limit_of l
    → (limiter now request_id l z).0 ≡ some (deny "ADMISSION_RATE_LIMITED" 429 (some wait))
    → (limiter (now + wait) next_id l (limiter now request_id l z).1).0 ≡ none
unfolding limiter
limiter-wait now request_id next_id l z wait b refused =
    elim (Bool-cases (leb (limit_of l) (length (within_minute now z)))) [
      | inl y ↦
          (let same : limit_wait now (within_minute now z) ≡ wait =
              ap wait_of (rw (y) at refused) in
            let many : 1 ≤ length (within_minute now z) = ground (arith, some_limit l) in
            rw (y) (
              not_limited (now + wait) next_id l (within_minute now z) (
                ground (
                  arith,
                  rw (same) at (first_leaves now (within_minute now z) many),
                  within_minute-length now z,
                ))))
      | inr ne ↦ absurd (cc (rw (ne) at refused))
    ]
