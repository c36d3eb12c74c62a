-- ===== src/WaitingRoom/Entries.antt =====
-- The local functions of the script on one entry: `read`, `save`, `clearActive`, `terminal`,
-- `expire` and `snapshot`.
use peak_pass.Prelude.{
  ℕ, suc, Bool, true, false, ◌&&◌, ◌||◌, Option, none, some, ◌==◌, leb, String, if◌then◌else◌,
}
use peak_pass.Redis.{Hash, hget, hset, hdel, zrank}
use peak_pass.WaitingRoom.{EntryState, EntryPhase, Entry, Namespace, Shown}
use peak_pass.WaitingRoom.Script.{Script, pure, gets, modify, need, ◌>>=◌, ◌>>◌}

abbrev pub is_waiting : EntryState → Bool
is_waiting EntryState.waiting = true
is_waiting _ = false

abbrev pub is_admitted : EntryState → Bool
is_admitted EntryState.admitted = true
is_admitted _ = false

abbrev pub is_idle : EntryPhase → Bool
is_idle EntryPhase.idle = true
is_idle _ = false

-- An entry of the id that it is stored under.
abbrev pub with_id : ℕ → Option Entry → Option Entry
with_id id none = none
with_id id (some e) = if e.admission_id == id then some e else none

unfoldable pub read : ℕ → Script Entry
read id = do found ← gets (λ n. hget id n.entries); need (with_id id found)

-- `read` of an id that may be nil.
unfoldable pub read_optional : Option ℕ → Script (Option Entry)
read_optional none = pure none
read_optional (some id) = do e ← read id; pure (some e)

abbrev pub saved : Entry → Namespace → Namespace
saved e n = record n { entries = hset e.admission_id e n.entries }

abbrev pub without_holder : Option ℕ → ℕ → ℕ → Hash ℕ → Hash ℕ
without_holder none user id h = h
without_holder (some held) user id h = if held == id then hdel user h else h

unfoldable pub clear_active : Entry → Namespace → Namespace
clear_active e n = record n {
  queue = hdel e.admission_id n.queue;
  leases = hdel e.admission_id n.leases;
  active = hdel e.admission_id n.active;
  claims = hdel e.admission_id n.claims;
  holders = without_holder (hget e.user_id n.holders) e.user_id e.admission_id n.holders;
}

abbrev pub ended : EntryState → Option String → Entry → Entry
ended state reason e = record e {
  state = state;
  phase = EntryPhase.idle;
  expires_at = none;
  reason = reason;
}

unfoldable pub terminal : Entry → EntryState → Option String → Script Entry
terminal e state reason = do
  modify (clear_active e)
  modify (saved (ended state reason e))
  pure (ended state reason e)

unfoldable pub expire : ℕ → Entry → Script Entry
expire now e =
    if is_waiting e.state || is_admitted e.state && is_idle e.phase
    then (do
      expires_at ← need e.expires_at
      if leb expires_at now
          then terminal e EntryState.expired (some "ADMISSION_EXPIRED")
          else pure e)
    else pure e

unfoldable pub expire_optional : ℕ → Option Entry → Script (Option Entry)
expire_optional now none = pure none
expire_optional now (some e) = do after ← expire now e; pure (some after)

unfoldable pub snapshot : Entry → Script Shown
snapshot e =
    if is_waiting e.state
    then (do
      found ← gets (λ n. zrank e.admission_id n.queue)
      rank ← need found
      pure (record { entry = e; position = some (suc rank) }))
    else pure (record { entry = e; position = none })

unfoldable pub snapshot_optional : Option Entry → Script (Option Shown)
snapshot_optional none = pure none
snapshot_optional (some e) = do s ← snapshot e; pure (some s)
