-- ===== src/WaitingRoom/Requests.antt =====
-- The branches `status`, `join` and `cancel` of the script, and the limiter that they pass first.
use peak_pass.Prelude.{
  ℕ, suc, ◌+◌, ◌-◌, Bool, true, false, ◌||◌, not, Option, none, some, [], ◌∷◌, ◌==◌, leb, length,
  String, is_some, if◌then◌else◌,
}
use peak_pass.Redis.{Zset, hset, zadd, zremove_to}
use peak_pass.WaitingRoom.{EntryState, EntryPhase, Entry, Profile, Namespace, Limited, Answer}
use peak_pass.WaitingRoom.Script.{Script, pure, gets, modify, ◌>>=◌, ◌>>◌}
use peak_pass.WaitingRoom.Entries.{
  is_waiting, is_admitted, is_idle, saved, terminal, expire, expire_optional, snapshot,
  snapshot_optional,
}

-- `deny`
abbrev pub deny : String → ℕ → Option ℕ → Answer
deny code status wait = Answer.denied (some code) status wait none

abbrev pub limit_of : Limited → ℕ
limit_of Limited.statuses = 120
limit_of _ = 10

abbrev pub first_score : Zset → ℕ
first_score [] = 0
first_score ((k, t) ∷ z) = t

-- The time until the oldest request leaves the minute, one millisecond at least.
abbrev pub limit_wait : ℕ → Zset → ℕ
limit_wait now z = if leb (first_score z + 60000) now then 1 else first_score z + 60000 - now

-- ZREMRANGEBYSCORE to `now - 60000`, which is negative in the first minute.
abbrev pub within_minute : ℕ → Zset → Zset
within_minute now z = if leb 60000 now then zremove_to (now - 60000) z else z

-- The limiter: the requests of the last minute, and the answer that it gives when they are too many.
unfoldable pub limiter : ℕ → ℕ → Limited → Zset → Option Answer × Zset
limiter now request_id op z =
    if leb (limit_of op) (length (within_minute now z))
    then (
      some (deny "ADMISSION_RATE_LIMITED" 429 (some (limit_wait now (within_minute now z)))),
      within_minute now z,
    )
    else (none, zadd request_id now (within_minute now z))

abbrev pub renewed : ℕ → Profile → Entry → Entry
renewed now p e = record e { expires_at = some (now + p.lease_ms) }

-- The lease of a waiting entry starts again.
unfoldable pub renew : ℕ → Profile → Entry → Script Entry
renew now p e =
    if is_waiting e.state
    then (do
      modify (saved (renewed now p e))
      modify (λ n. record n { leases = zadd e.admission_id (now + p.lease_ms) n.leases })
      pure (renewed now p e))
    else pure e

unfoldable pub renew_optional : ℕ → Profile → Option Entry → Script (Option Entry)
renew_optional now p none = pure none
renew_optional now p (some e) = do after ← renew now p e; pure (some after)

unfoldable pub status : ℕ → Profile → Option Entry → Script Answer
status now p latest = do
  current ← expire_optional now latest
  after ← renew_optional now p current
  s ← snapshot_optional after
  pure (Answer.shown s none)

abbrev pub new_entry : ℕ → Profile → ℕ → ℕ → ℕ → Entry
new_entry now p user_id admission_id seq = record {
  admission_id = admission_id;
  user_id = user_id;
  sequence = seq;
  state = EntryState.waiting;
  phase = EntryPhase.idle;
  joined_at = now;
  admitted_at = none;
  expires_at = some (now + p.lease_ms);
  reason = none;
  outcome = none;
  fingerprint = none;
  claim_token = none;
  deadline = none;
}

-- The writes of a new entry of the sequence number `seq`. `fresh` is set for the first entry of
-- its user.
unfoldable pub enter : ℕ → Profile → ℕ → ℕ → ℕ → ℕ → Bool → Namespace → Namespace
enter now p user_id join_request_id admission_id seq fresh n = record n {
  sequence = seq;
  entries = hset admission_id (new_entry now p user_id admission_id seq) n.entries;
  joins = hset join_request_id admission_id n.joins;
  users = if fresh then suc n.users else n.users;
  latest = hset user_id admission_id n.latest;
  holders = hset user_id admission_id n.holders;
  queue = zadd admission_id seq n.queue;
  leases = zadd admission_id (now + p.lease_ms) n.leases;
}

-- `join` of a request that has joined before.
unfoldable pub rejoin : ℕ → Profile → ℕ → Entry → Script Answer
rejoin now p user_id joined =
    if not (joined.user_id == user_id)
    then pure (deny "ADMISSION_REQUEST_MISMATCH" 409 none)
    else (do
      current ← expire now joined
      after ← renew now p current
      s ← snapshot after
      pure (Answer.shown (some s) (some false)))

abbrev pub is_live : Option Entry → Bool
is_live none = false
is_live (some e) = is_waiting e.state || is_admitted e.state

abbrev pub queue_full : Profile → Namespace → Bool
queue_full p n = leb p.max_waiting (length n.queue) || leb p.max_entries n.sequence

unfoldable pub join_new : ℕ → Profile → ℕ → ℕ → ℕ → Bool → Script Answer
join_new now p user_id join_request_id admission_id fresh = do
  full ← gets (queue_full p)
  if full then pure (deny "ADMISSION_QUEUE_FULL" 429 (some 1000)) else (do
    seq ← gets (λ n. suc n.sequence)
    modify (enter now p user_id join_request_id admission_id seq fresh)
    s ← snapshot (new_entry now p user_id admission_id seq)
    pure (Answer.shown (some s) (some true)))

unfoldable pub join :
    ℕ → Profile → ℕ → ℕ → ℕ → Option Entry → Option Entry → Option Entry → Script Answer
join now p user_id join_request_id admission_id latest active (some joined) =
    rejoin now p user_id joined
join now p user_id join_request_id admission_id latest active none = do
  current ← expire_optional now active
  if is_live current
      then (do
        s ← snapshot_optional current
        pure (Answer.denied (some "ACTIVE_ADMISSION_EXISTS") 409 none s))
      else join_new now p user_id join_request_id admission_id (not (is_some latest))

abbrev pub is_consumed : EntryState → Bool
is_consumed EntryState.consumed = true
is_consumed _ = false

unfoldable pub cancel_idle : Entry → Script Answer
cancel_idle e = do
  after ←
      if is_live (some e)
      then terminal e EntryState.cancelled (some "ADMISSION_CANCELLED")
      else pure e
  s ← snapshot after
  pure (Answer.shown (some s) none)

unfoldable pub cancel : ℕ → Entry → Script Answer
cancel now target = do
  e ← expire now target
  if is_consumed e.state
      then pure (deny "ADMISSION_ALREADY_CONSUMED" 409 none)
      else if not (is_idle e.phase)
      then pure (deny "ADMISSION_IN_PROGRESS" 409 none)
      else cancel_idle e
