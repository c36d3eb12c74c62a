-- ===== src/Guards/Windows.antt =====
-- The sliding window of a rate limit against the list of the requests that it allowed.
use peak_pass.Prelude.{
  ℕ, suc, ◌+◌, ◌-◌, ◌≤◌, ◌≡◌, refl, Bool, true, false, Bool-cases, inl, inr, none, List, [], ◌∷◌,
  leb, ltb, length, if◌then◌else◌, arith,
}
use peak_pass.Redis.{Zset, hget, zinsert, zadd, zremove_to}
use peak_pass.Redis.Laws.{hdel_absent}
use peak_pass.Guards.{within_window, count_request}

-- The requests of the window that ends at `t`.
abbrev pub since : ℕ → ℕ → List ℕ → ℕ
since t window_ms [] = 0
since t window_ms (s ∷ times) =
    if ltb t (s + window_ms) then suc (since t window_ms times) else since t window_ms times

-- The same of a key.
abbrev in_key : ℕ → ℕ → Zset → ℕ
in_key t window_ms [] = 0
in_key t window_ms ((k, s) ∷ z) =
    if ltb t (s + window_ms) then suc (in_key t window_ms z) else in_key t window_ms z

-- The key of a user and the times of the requests that were allowed.
pub record Window : Type 0 where
  pub key : Zset
  pub allowed : List ℕ

abbrev allowed_by : ℕ → Window → (Bool × ℕ) × Zset → Window
allowed_by now w ((true, n), z) = record { key = z; allowed = now ∷ w.allowed }
allowed_by now w ((false, n), z) = record { key = z; allowed = w.allowed }

-- A request is its time and its id.
unfoldable pub request : ℕ → ℕ → ℕ × ℕ → Window → Window
request window_ms limit (now, id) w = allowed_by now w (count_request now window_ms limit id w.key)

unfoldable pub requests : ℕ → ℕ → List (ℕ × ℕ) → Window → Window
requests window_ms limit [] w = w
requests window_ms limit (r ∷ rs) w = requests window_ms limit rs (request window_ms limit r w)

-- The clock does not go back, and no id is in the key already.
unfoldable pub Orderly : ℕ → ℕ → ℕ → List (ℕ × ℕ) → Window → Type 0
Orderly window_ms limit start [] w = Unit
Orderly window_ms limit start (r ∷ rs) w =
    (start ≤ r.0)
    × ((hget r.1 (within_window r.0 window_ms w.key) ≡ none)
        × Orderly window_ms limit r.0 rs (request window_ms limit r w))

-- The time of the last request.
abbrev pub last_time : ℕ → List (ℕ × ℕ) → ℕ
last_time start [] = start
last_time start (r ∷ rs) = last_time r.0 rs

length-in_key : (t w : ℕ) (z : Zset) → length (zremove_to t z) ≡ in_key (t + w) w z
unfolding zremove_to
length-in_key t w [] = refl
length-in_key t w ((k, s) ∷ z) = ground (arith, length-in_key t w z)

early-in_key : (t w : ℕ) (z : Zset) → t + 1 ≤ w → in_key t w z ≡ length z
early-in_key t w [] h = refl
early-in_key t w ((k, s) ∷ z) h = ground (arith, early-in_key t w z h)

within_window-length : (now w : ℕ) (z : Zset) → length (within_window now w z) ≡ in_key now w z
within_window-length now w z = elim (Bool-cases (leb w now)) [
  | inl y ↦
      (let same : now - w + w ≡ now = ground arith in
        rw (y) (rw (same) at (length-in_key (now - w) w z)))
  | inr ne ↦ rw (ne) (ground (arith, early-in_key now w z (ground arith)))
]

removed-in_key : (t w s : ℕ) (z : Zset) → s + w ≤ t → in_key t w (zremove_to s z) ≡ in_key t w z
unfolding zremove_to
removed-in_key t w s [] h = refl
removed-in_key t w s ((k, r) ∷ z) h = ground (arith, removed-in_key t w s z h)

within_window-in_key :
    (t now w : ℕ) (z : Zset) → now ≤ t → in_key t w (within_window now w z) ≡ in_key t w z
within_window-in_key t now w z h = elim (Bool-cases (leb w now)) [
  | inl y ↦ rw (y) (removed-in_key t w (now - w) z (ground arith))
  | inr ne ↦ rw (ne) refl
]

zinsert-in_key :
    (t w k s : ℕ) (z : Zset)
    → in_key t w (zinsert k s z) ≡ (if ltb t (s + w) then suc (in_key t w z) else in_key t w z)
unfolding zinsert
zinsert-in_key t w k s [] = refl
zinsert-in_key t w k s ((j, r) ∷ z) = ground (arith, zinsert-in_key t w k s z)

zadd-in_key :
    (t w k s : ℕ) (z : Zset)
    → hget k z ≡ none
    → in_key t w (zadd k s z) ≡ (if ltb t (s + w) then suc (in_key t w z) else in_key t w z)
unfolding zadd
zadd-in_key t w k s z fresh = rw (hdel_absent k z fresh) (zinsert-in_key t w k s z)

later-in_key : (start now w : ℕ) (z : Zset) → start ≤ now → in_key now w z ≤ in_key start w z
later-in_key start now w [] h = omega arith
later-in_key start now w ((k, s) ∷ z) h = ground (arith, later-in_key start now w z h)

-- What the key knows: the allowed requests of each window from now on, and no more than the limit.
record Counts (window_ms limit start : ℕ) (w : Window) : Type 0 where
  agrees : (t : ℕ) → start ≤ t → since t window_ms w.allowed ≡ in_key t window_ms w.key
  bounded : in_key start window_ms w.key ≤ limit

request-Counts :
    (window_ms limit start now id : ℕ) (w : Window)
    → start ≤ now
    → hget id (within_window now window_ms w.key) ≡ none
    → Counts window_ms limit start w
    → Counts window_ms limit now (request window_ms limit (now, id) w)
unfolding request count_request
request-Counts window_ms limit start now id w later fresh c =
    let known = within_window-length now window_ms w.key in
    elim (Bool-cases (leb limit (length (within_window now window_ms w.key)))) [
      | inl y ↦ rw (y) (record {
        agrees = λ t h.
            ground (arith, c.agrees t (omega arith), within_window-in_key t now window_ms w.key h);
        bounded = ground (
          arith,
          within_window-in_key now now window_ms w.key (omega arith),
          later-in_key start now window_ms w.key later,
          c.bounded,
        );
      })
      | inr ne ↦ rw (ne) (record {
        agrees = λ t h. ground (
          arith,
          c.agrees t (omega arith),
          within_window-in_key t now window_ms w.key h,
          zadd-in_key t window_ms id now (within_window now window_ms w.key) fresh,
        );
        bounded = ground (
          arith,
          known,
          within_window-in_key now now window_ms w.key (omega arith),
          zadd-in_key now window_ms id now (within_window now window_ms w.key) fresh,
        );
      })
    ]

requests-Counts :
    (window_ms limit start : ℕ) (rs : List (ℕ × ℕ)) (w : Window)
    → Orderly window_ms limit start rs w
    → Counts window_ms limit start w
    → Counts window_ms limit (last_time start rs) (requests window_ms limit rs w)
unfolding requests Orderly
requests-Counts window_ms limit start [] w o c = c
requests-Counts window_ms limit start ((now, id) ∷ rs) w o c =
    requests-Counts window_ms limit now rs _ o.1.1
      (request-Counts window_ms limit start now id w o.0 o.1.0 c)

later-since :
    (start now w : ℕ) (times : List ℕ) → start ≤ now → since now w times ≤ since start w times
later-since start now w [] h = omega arith
later-since start now w (s ∷ times) h = ground (arith, later-since start now w times h)

abbrev pub no_requests : Window
no_requests = record { key = []; allowed = [] }

-- Of any requests from an empty key on, at times that do not go back and with ids that are not in
-- the key, at most `limit` were allowed in the window that ends at the last request or later.
pub requests-bounded :
    (window_ms limit : ℕ) (rs : List (ℕ × ℕ))
    → Orderly window_ms limit 0 rs no_requests
    → (t : ℕ) → last_time 0 rs ≤ t
    → since t window_ms (requests window_ms limit rs no_requests).allowed ≤ limit
requests-bounded window_ms limit rs o t h =
    let c =
      requests-Counts window_ms limit 0 rs no_requests o
        (record { agrees = λ t h. refl; bounded = omega arith }) in
    let last = last_time 0 rs in
    let now = c.agrees last (omega arith) in
    let fewer = later-since last t window_ms (requests window_ms limit rs no_requests).allowed h in
    omega (arith, now, fewer, c.bounded)
