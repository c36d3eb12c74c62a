-- ===== src/WaitingRoom/Lifecycle.antt =====
-- The branches `probe`, `initialize`, `publish` and `freeze` of the script, on the control key of
-- an event.
use peak_pass.Prelude.{
  ℕ, ◌+◌, Bool, true, false, ◌&&◌, not, Option, none, some, [], ◌==◌, leb, ltb, length, is_some,
  if◌then◌else◌,
}
use peak_pass.WaitingRoom.{Profile, Namespace, Keys, Mode, Control, ControlKey, Room, Answer}
use peak_pass.WaitingRoom.Requests.{deny}

abbrev pub recovering : Answer
recovering = deny "ADMISSION_RECOVERING" 503 (some 1000)

-- The largest sequence number, 2 ^ 53 - 2.
abbrev pub max_sequence : ℕ
max_sequence = 9007199254740990

-- The counts of `structures()`. Each hash of the source has a sentinel field besides.
unfoldable pub counts_agree : Namespace → Bool
counts_agree n =
    leb n.sequence max_sequence
    && length n.entries == n.sequence
    && length n.joins == n.sequence
    && length n.latest == n.users
    && length n.queue == length n.leases
    && length n.holders == length n.queue + length n.active

-- `structures()`
abbrev pub structures : Keys → Option Namespace
structures Keys.absent = none
structures Keys.damaged = none
structures (Keys.whole n) = if counts_agree n then some n else none

abbrev pub is_absent : Keys → Bool
is_absent Keys.absent = true
is_absent _ = false

abbrev pub is_ready : Mode → Bool
is_ready Mode.ready = true
is_ready _ = false

abbrev pub is_frozen : Mode → Bool
is_frozen Mode.frozen = true
is_frozen _ = false

abbrev open_at : ℕ → Option Namespace → Bool
open_at now none = false
open_at now (some n) = ltb now n.end_at

unfoldable pub intact : ℕ → ℕ → ℕ → ℕ → Room → Bool
intact now epoch generation run_id room = elim room.control [
  | ControlKey.hash c ↦
      c.generation == generation
      && c.epoch == epoch
      && c.run_id == run_id
      && not c.dirty
      && not (is_frozen c.mode)
      && open_at now (structures (room.keys epoch))
  | _ ↦ false
]

unfoldable pub probe : ℕ → ℕ → ℕ → ℕ → Room → Answer
probe now epoch generation run_id room =
    Answer.probed (intact now epoch generation run_id room) (is_absent (room.keys epoch))

abbrev pub empty_namespace : ℕ → Namespace
empty_namespace end_at = record {
  end_at = end_at;
  users = 0;
  entries = [];
  joins = [];
  latest = [];
  holders = [];
  queue = [];
  leases = [];
  active = [];
  claims = [];
  window = [];
  sequence = 0;
}

abbrev pub set_keys : ℕ → Keys → (ℕ → Keys) → ℕ → Keys
set_keys epoch ks f e = if e == epoch then ks else f e

abbrev pub fresh_control : ℕ → ℕ → ℕ → Control
fresh_control epoch generation run_id = record {
  generation = generation;
  epoch = epoch;
  mode = Mode.initializing;
  run_id = run_id;
  dirty = false;
}

-- The part of `initialize` that writes, for keys that are all absent.
unfoldable pub create : ℕ → Profile → ℕ → ℕ → ℕ → Room → Answer × Room
create now p epoch generation run_id room =
    if is_absent (room.keys epoch)
    then (
      Answer.done,
      record room {
        control = ControlKey.hash (fresh_control epoch generation run_id);
        keys = set_keys epoch (Keys.whole (empty_namespace (now + p.epoch_ms))) room.keys;
      },
    )
    else (recovering, room)

abbrev pub same_namespace : ℕ → ℕ → Control → Room → Bool
same_namespace epoch run_id c room =
    c.epoch == epoch
    && c.run_id == run_id
    && not (is_frozen c.mode)
    && not c.dirty
    && is_some (structures (room.keys epoch))

unfoldable pub initialize : ℕ → Profile → ℕ → ℕ → ℕ → Room → Answer × Room
initialize now p epoch generation run_id room = elim room.control [
  | ControlKey.hash c ↦
      if ltb generation c.generation
      then (recovering, room)
      else if c.generation == generation
      then (if same_namespace epoch run_id c room then (Answer.done, room) else (recovering, room))
      else create now p epoch generation run_id room
  | _ ↦ create now p epoch generation run_id room
]

abbrev pub in_mode : Mode → Control → Room → Room
in_mode mode c room = record room { control = ControlKey.hash (record c { mode = mode }) }

unfoldable pub freeze : ℕ → Control → Room → Answer × Room
freeze generation c room =
    if c.generation == generation
    then (Answer.done, in_mode Mode.frozen c room)
    else (recovering, room)

unfoldable pub publish : ℕ → Control → Room → Answer × Room
publish generation c room =
    if c.generation == generation && not (is_frozen c.mode)
    then (Answer.done, in_mode Mode.ready c room)
    else (recovering, room)
