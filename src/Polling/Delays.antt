-- ===== src/Polling/Delays.antt =====
-- The policy of the waits: `successDelay`, `failureDelay`, `parseRetryAfter`, and the ring of
-- `createTrace`. The waits are exact where the source computes with floating-point numbers.
use peak_pass.Prelude.{
  ℕ, zero, suc, ◌+◌, ◌-◌, ◌*◌, ◌/◌, Bool, true, false, ◌&&◌, Option, none, some, List, [], ◌∷◌,
  ◌++◌, leb, ltb, length, Text, if◌then◌else◌,
}
use peak_pass.Polling.{PollMode, NextPoll}

abbrev pub min : ℕ → ℕ → ℕ
min a b = if leb a b then a else b

abbrev pub max : ℕ → ℕ → ℕ
max a b = if leb a b then b else a

-- Amounts of 1 / 5000 ms. `jittered` of a draw, and `Math.round`.
abbrev pub jittered : ℕ → ℕ → ℕ
jittered ms draw = ms * draw

abbrev pub exact : ℕ → ℕ
exact ms = ms * 5000

abbrev pub round : ℕ → ℕ
round x = (2 * x + 5000) / 10000

abbrev pub positive : NextPoll → ℕ
positive (NextPoll.millis n) = n
positive _ = 0

abbrev pub or_max : ℕ → ℕ
or_max zero = 5000
or_max (suc n) = suc n

unfoldable pub success_delay : PollMode → Bool → NextPoll → ℕ → ℕ
success_delay mode true base draw = 15000
success_delay PollMode.fixed false base draw = 1000
success_delay PollMode.adaptive false base draw =
    round (min (exact 5000) (max (exact 1000) (jittered (or_max (positive base)) draw)))

-- `POLICY.backoffMs` at the number of failures, which counts from 1.
abbrev pub backoff_step : ℕ → ℕ
backoff_step zero = 1000
backoff_step (suc zero) = 1000
backoff_step (suc (suc zero)) = 2000
backoff_step (suc (suc (suc zero))) = 4000
backoff_step (suc (suc (suc (suc zero)))) = 8000
backoff_step (suc (suc (suc (suc (suc n))))) = 15000

unfoldable pub failure_delay : ℕ → Bool → NextPoll → ℕ → ℕ → ℕ
failure_delay failures hidden server_min retry_after draw =
    let backoff = min (exact 15000) (jittered (backoff_step failures) draw) in
    round (
      max (max backoff (if hidden then exact 15000 else 0))
        (max (exact (positive server_min)) (exact retry_after)))

abbrev is_digit : ℕ → Bool
is_digit c = leb 48 c && leb c 57

abbrev all_digits : Text → Bool
all_digits [] = true
all_digits (c ∷ s) = is_digit c && all_digits s

abbrev number : ℕ → Text → ℕ
number n [] = n
number n (c ∷ s) = number (10 * n + (c - 48)) s

-- `parseRetryAfter` of a trimmed text: the seconds as milliseconds.
unfoldable pub parse_retry_after : Text → Option ℕ
parse_retry_after [] = none
parse_retry_after (c ∷ s) = if all_digits (c ∷ s) then some (number 0 (c ∷ s) * 1000) else none

-- The ring of a trace.
pub record Trace (A : Type 0) : Type 0 where
  pub events : List A
  pub dropped : ℕ

abbrev pub shift : {A : Type 0} → List A → List A
shift [] = []
shift (x ∷ xs) = xs

unfoldable pub push : {A : Type 0} → ℕ → A → Trace A → Trace A
push limit event t =
    if ltb limit (length (t.events ++ (event ∷ [])))
    then record { events = shift (t.events ++ (event ∷ [])); dropped = suc t.dropped }
    else record t { events = t.events ++ (event ∷ []) }
