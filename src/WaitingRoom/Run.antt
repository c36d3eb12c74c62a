-- ===== src/WaitingRoom/Run.antt =====
-- The script as a whole: the checks before each branch, the entries that a run refers to, and the
-- dirty bit around the branches.
use peak_pass.Prelude.{
  ℕ, Bool, true, false, ◌&&◌, ◌||◌, not, Option, none, some, ◌==◌, ltb, is_some, if◌then◌else◌,
}
use peak_pass.Redis.{Hash, Zset, hget}
use peak_pass.WaitingRoom.{
  Entry, Profile, Namespace, Keys, Control, ControlKey, Operation, Limited, Room, Answer,
}
use peak_pass.WaitingRoom.Script.{Script, pure, gets, ◌>>=◌}
use peak_pass.WaitingRoom.Entries.{read_optional, snapshot_optional}
use peak_pass.WaitingRoom.Requests
use peak_pass.WaitingRoom.Requests.{deny, limiter}
use peak_pass.WaitingRoom.Finish
use peak_pass.WaitingRoom.Lifecycle.{
  recovering, is_ready, structures, set_keys, probe, initialize, publish, freeze,
}
use peak_pass.WaitingRoom.Tick

abbrev pub is_finalizing : Operation → Bool
is_finalizing (Operation.complete user_id id f token o) = true
is_finalizing (Operation.close user_id id f token) = true
is_finalizing Operation.reconcile = true
is_finalizing _ = false

-- `arg.userId`
abbrev pub user_of : Operation → Option ℕ
user_of (Operation.status user_id) = some user_id
user_of (Operation.join user_id join_request_id id) = some user_id
user_of (Operation.cancel user_id id) = some user_id
user_of (Operation.claim user_id id f token) = some user_id
user_of (Operation.complete user_id id f token o) = some user_id
user_of (Operation.close user_id id f token) = some user_id
user_of _ = none

-- `arg.admissionId`, except for `join`.
abbrev pub target_of : Operation → Option ℕ
target_of (Operation.inspect id) = some id
target_of (Operation.cancel user_id id) = some id
target_of (Operation.claim user_id id f token) = some id
target_of (Operation.complete user_id id f token o) = some id
target_of (Operation.close user_id id f token) = some id
target_of _ = none

-- `arg.joinRequestId`
abbrev pub request_of : Operation → Option ℕ
request_of (Operation.join user_id join_request_id id) = some join_request_id
request_of _ = none

abbrev pub limited : Operation → Option (ℕ × Limited)
limited (Operation.status user_id) = some (user_id, Limited.statuses)
limited (Operation.join user_id join_request_id id) = some (user_id, Limited.joins)
limited (Operation.cancel user_id id) = some (user_id, Limited.cancels)
limited _ = none

-- The entries that a run refers to, read before it writes.
pub record References : Type 0 where
  pub target : Option Entry
  pub latest : Option Entry
  pub active : Option Entry
  pub joined : Option Entry

-- The id under a key that may be nil.
abbrev pub field : Option ℕ → Hash ℕ → Option ℕ
field none h = none
field (some k) h = hget k h

abbrev pub existing : Option ℕ → Hash Entry → Option ℕ
existing none h = none
existing (some id) h = if is_some (hget id h) then some id else none

unfoldable pub references : Operation → Script References
references op = do
  target_id ← gets (λ n. existing (target_of op) n.entries)
  target ← read_optional target_id
  latest_id ← gets (λ n. field (user_of op) n.latest)
  latest ← read_optional latest_id
  active_id ← gets (λ n. field (user_of op) n.holders)
  active ← read_optional active_id
  joined_id ← gets (λ n. field (request_of op) n.joins)
  joined ← read_optional joined_id
  pure (record { target = target; latest = latest; active = active; joined = joined })

abbrev pub of_user : Option ℕ → Option Entry → Bool
of_user user_id none = true
of_user none (some e) = true
of_user (some user_id) (some e) = e.user_id == user_id

-- The branches that need an entry of the user.
unfoldable pub on_target : ℕ → Option Entry → (Entry → Script Answer) → Script Answer
on_target user_id none k = pure (deny "ADMISSION_NOT_FOUND" 404 none)
on_target user_id (some e) k =
    if e.user_id == user_id then k e else pure (deny "ADMISSION_NOT_FOUND" 404 none)

unfoldable pub body : ℕ → Profile → Operation → References → Script Answer
body now p (Operation.status user_id) r = Requests.status now p r.latest
body now p (Operation.join user_id join_request_id id) r =
    Requests.join now p user_id join_request_id id r.latest r.active r.joined
body now p Operation.tick r = Tick.tick now p
body now p Operation.reconcile r = Tick.reconcile now p
body now p (Operation.inspect id) r = do s ← snapshot_optional r.target; pure (Answer.shown s none)
body now p (Operation.cancel user_id id) r = on_target user_id r.target (Requests.cancel now)
body now p (Operation.claim user_id id f token) r =
    on_target user_id r.target (Finish.claim now p f token)
body now p (Operation.complete user_id id f token o) r =
    on_target user_id r.target (Finish.finish (some o) f token)
body now p (Operation.close user_id id f token) r =
    on_target user_id r.target (Finish.finish none f token)
body now p _ r = pure (deny "ADMISSION_INVALID_INPUT" 400 none)

-- A script error after the first write: the dirty bit stays, and the namespace is not read again.
abbrev pub broken : ℕ → Control → Room → Room
broken epoch c room = record room {
  control = ControlKey.hash (record c { dirty = true });
  keys = set_keys epoch Keys.damaged room.keys;
}

abbrev pub with_namespace : ℕ → Namespace → Room → Room
with_namespace epoch n room = record room { keys = set_keys epoch (Keys.whole n) room.keys }

abbrev pub after_body : ℕ → Control → Room → Option (Answer × Namespace) → Answer × Room
after_body epoch c room none = (Answer.fault, broken epoch c room)
after_body epoch c room (some (a, n)) = (a, with_namespace epoch n room)

unfoldable pub run_body :
    ℕ → Profile → ℕ → Operation → References → Control → Namespace → Room → Answer × Room
run_body now p epoch op r c n room = after_body epoch c room (body now p op r n)

abbrev same_limited : Limited → Limited → Bool
same_limited Limited.statuses Limited.statuses = true
same_limited Limited.joins Limited.joins = true
same_limited Limited.cancels Limited.cancels = true
same_limited _ _ = false

abbrev pub with_limit : ℕ → Limited → Zset → Room → Room
with_limit user_id l z room = record room {
  limits = λ u k. if u == user_id && same_limited k l then some z else room.limits u k;
}

-- After the limiter: the answer that it gives, or the branch.
abbrev pub after_limiter :
    ℕ → Limited → (Room → Answer × Room) → Room → Option Answer × Zset → Answer × Room
after_limiter user_id l k room (some a, z) = (a, with_limit user_id l z room)
after_limiter user_id l k room (none, z) = k (with_limit user_id l z room)

abbrev pub with_limiter :
    ℕ → ℕ → Option (ℕ × Limited) → (Room → Answer × Room) → Room → Answer × Room
with_limiter now request_id none k room = k room
with_limiter now request_id (some (user_id, l)) k room = elim (room.limits user_id l) [
  | none ↦ (deny "ADMISSION_UNAVAILABLE" 503 (some 1000), room)
  | some z ↦ after_limiter user_id l k room (limiter now request_id l z)
]

-- A run with the entries that it refers to.
unfoldable pub run_limited :
    ℕ → Profile → ℕ → ℕ → Operation → References → Control → Namespace → Room → Answer × Room
run_limited now p request_id epoch op r c n room =
    with_limiter now request_id (limited op) (run_body now p epoch op r c n) room

-- An entry under a wrong reference is an error before the first write.
abbrev pub after_references :
    Operation
    → (References → Room → Answer × Room)
    → Room
    → Option (References × Namespace)
    → Answer × Room
after_references op k room none = (Answer.fault, room)
after_references op k room (some (r, n)) =
    if of_user (user_of op) r.latest && of_user (user_of op) r.active
    then k r room
    else (recovering, room)

unfoldable pub run_open :
    ℕ → Profile → ℕ → ℕ → Operation → Control → Namespace → Room → Answer × Room
run_open now p request_id epoch op c n room =
    after_references op (λ r. run_limited now p request_id epoch op r c n) room (references op n)

abbrev pub publish_of : Operation → Option ℕ
publish_of (Operation.publish generation) = some generation
publish_of _ = none

abbrev pub freeze_of : Operation → Option ℕ
freeze_of (Operation.freeze generation) = some generation
freeze_of _ = none

-- The branch of an operation that has a generation, or what the others do.
abbrev pub or_else : Option ℕ → (ℕ → Answer × Room) → Answer × Room → Answer × Room
or_else none f rest = rest
or_else (some generation) f rest = f generation

-- A run after the checks on the control key and the structures.
unfoldable pub run_checked :
    ℕ → Profile → ℕ → ℕ → Operation → Control → Namespace → Room → Answer × Room
run_checked now p request_id epoch op c n room =
    or_else (publish_of op) (λ g. publish g c room)
      (if is_ready c.mode && (ltb now n.end_at || is_finalizing op)
        then run_open now p request_id epoch op c n room
        else (recovering, room))

abbrev pub in_order : (Namespace → Room → Answer × Room) → Room → Option Namespace → Answer × Room
in_order k room none = (recovering, room)
in_order k room (some n) = k n room

unfoldable pub run_hash : ℕ → Profile → ℕ → ℕ → Operation → Control → Room → Answer × Room
run_hash now p request_id epoch op c room =
    if not (c.epoch == epoch)
    then (deny "ADMISSION_RESET" 410 none, room)
    else or_else (freeze_of op) (λ g. freeze g c room)
        (if c.dirty
          then (recovering, room)
          else in_order (run_checked now p request_id epoch op c) room
              (structures (room.keys epoch)))

abbrev pub with_control : (Control → Room → Answer × Room) → ControlKey → Room → Answer × Room
with_control k (ControlKey.hash c) room = k c room
with_control k _ room = (recovering, room)

-- One run of the script at the time `now` with the fresh id `request_id`.
unfoldable pub run_admission : ℕ → Profile → ℕ → ℕ → Operation → Room → Answer × Room
run_admission now p request_id epoch (Operation.probe generation run_id) room =
    (probe now epoch generation run_id room, room)
run_admission now p request_id epoch (Operation.initialize generation run_id) room =
    initialize now p epoch generation run_id room
run_admission now p request_id epoch op room =
    with_control (run_hash now p request_id epoch op) room.control room
