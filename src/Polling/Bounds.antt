-- ===== src/Polling/Bounds.antt =====
-- The bounds of the waits of src/frontend/admission-polling.js.
use peak_pass.Prelude.{ℕ, ◌≤◌, Bool, true, false, ◌≡◌, if◌then◌else◌, arith}
use peak_pass.Polling.{PollMode, NextPoll}
use peak_pass.Polling.Delays.{
  success_delay, failure_delay, min, max, round, jittered, exact, positive, or_max, backoff_step,
}

round_mono : (a b : ℕ) → a ≤ b → round a ≤ round b
round_mono a b h = omega arith

round-exact : (n : ℕ) → round (exact n) ≡ n
round-exact n = omega arith

max_mono : (a b c d : ℕ) → a ≤ b → c ≤ d → max a c ≤ max b d
max_mono a b c d h k = ground arith

left_max : (a b : ℕ) → a ≤ max a b
left_max a b = ground arith

right_max : (a b : ℕ) → b ≤ max a b
right_max a b = ground arith

min_between : (lo hi x : ℕ) → lo ≤ hi → (lo ≤ min hi (max lo x)) × (min hi (max lo x) ≤ hi)
min_between lo hi x h = ground arith

pub adaptive_bounds :
    (base : NextPoll) (draw : ℕ)
    → (1000 ≤ success_delay PollMode.adaptive false base draw)
      × (success_delay PollMode.adaptive false base draw ≤ 5000)
unfolding success_delay
adaptive_bounds base draw =
    let (low, high) =
      min_between 5000000 25000000 (jittered (or_max (positive base)) draw) (omega arith) in
    (round_mono 5000000 _ low, round_mono _ 25000000 high)

pub success_bounds :
    (mode : PollMode) (hidden : Bool) (base : NextPoll) (draw : ℕ)
    → (1000 ≤ success_delay mode hidden base draw) × (success_delay mode hidden base draw ≤ 15000)
unfolding success_delay
success_bounds mode true base draw = (omega arith, omega arith)
success_bounds PollMode.fixed false base draw = (omega arith, omega arith)
success_bounds PollMode.adaptive false base draw =
    let (low, high) = adaptive_bounds base draw in (low, omega (arith, high))

abbrev none_or : Bool → ℕ
none_or hidden = if hidden then exact 15000 else 0

zero_min : (hidden : Bool) → 0 ≤ none_or hidden
zero_min hidden = omega arith

pub hidden_mono :
    (failures : ℕ) (hidden : Bool) (server : NextPoll) (retry draw : ℕ)
    → failure_delay failures false server retry draw
      ≤ failure_delay failures hidden server retry draw
unfolding failure_delay
hidden_mono failures hidden server retry draw =
    let wait = min (exact 15000) (jittered (backoff_step failures) draw) in
    let asked = max (exact (positive server)) (exact retry) in
    round_mono _ _ (
      max_mono _ _ _ _ (max_mono wait wait 0 (none_or hidden) (omega arith) (zero_min hidden))
        (omega arith))

abbrev waited : (w k s r : ℕ) → ℕ
waited w k s r = round (max (max w (exact k)) (max (exact s) (exact r)))

asked_le : (w k s r : ℕ) → max s r ≤ waited w k s r
asked_le w k s r = ground arith

hidden_le : (w k s r : ℕ) → k ≤ waited w k s r
hidden_le w k s r = ground arith

waited_le : (w k s r : ℕ) → w ≤ exact 15000 → k ≤ 15000 → waited w k s r ≤ max (max s r) 15000
waited_le w k s r h l = ground arith

waited_bounds :
    (w k s r : ℕ)
    → w ≤ exact 15000
    → k ≤ 15000
    → (max s r ≤ waited w k s r) × (k ≤ waited w k s r) × (waited w k s r ≤ max (max s r) 15000)
waited_bounds w k s r h l = (asked_le w k s r, hidden_le w k s r, waited_le w k s r h l)

min_le : (a b : ℕ) → min a b ≤ a
min_le a b = ground arith

-- The shortest wait of a page.
abbrev hidden_wait : Bool → ℕ
hidden_wait hidden = if hidden then 15000 else 0

-- The wait after a failure is never shorter than the minimum that the server asks for or the
-- `Retry-After` of the answer, nor than 15 s on a hidden page; and it is at most the longest of
-- 15 s and these two.
pub failure_delay-bounds :
    (failures : ℕ) (hidden : Bool) (server : NextPoll) (retry draw : ℕ)
    → (max (positive server) retry ≤ failure_delay failures hidden server retry draw)
      × (hidden_wait hidden ≤ failure_delay failures hidden server retry draw)
      × (failure_delay failures hidden server retry draw ≤ max (max (positive server) retry) 15000)
unfolding failure_delay
failure_delay-bounds failures true server retry draw =
    let ms = jittered (backoff_step failures) draw in
    waited_bounds (min (exact 15000) ms) 15000 (positive server) retry (min_le (exact 15000) ms)
      (omega arith)
failure_delay-bounds failures false server retry draw =
    let ms = jittered (backoff_step failures) draw in
    waited_bounds (min (exact 15000) ms) 0 (positive server) retry (min_le (exact 15000) ms)
      (omega arith)
