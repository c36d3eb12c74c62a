-- ===== src/WaitingRoom/Keeping.antt =====
-- What a run of the script keeps of the waiting room of an event, and a sequence of runs.
use peak_pass.Prelude.{
  ℕ, ◌+◌, ◌≡◌, refl, sym, subst, Bool, true, false, ◌&&◌, ◌||◌, not, Option, none, some, ◌==◌, ltb,
  if◌then◌else◌, arith,
}
use peak_pass.Redis.{hget}
use peak_pass.WaitingRoom.{Profile, Namespace, Keys, Control, ControlKey, Operation, Room, Answer}
use peak_pass.WaitingRoom.Lifecycle.{
  recovering, counts_agree, structures, set_keys, empty_namespace, probe, create, initialize,
  publish, freeze, fresh_control, same_namespace, is_absent, is_ready, is_frozen,
}
use peak_pass.WaitingRoom.Run.{
  in_order, publish_of, freeze_of, or_else, with_control, is_finalizing, run_checked, run_hash,
  run_admission,
}
use peak_pass.WaitingRoom.Health.{Healthy}
use peak_pass.WaitingRoom.Steps.{EntrySteps, here}
use peak_pass.WaitingRoom.Bodies.{IsFresh}
use peak_pass.WaitingRoom.Rooms.{
  KeysHealthy, RoomHealthy, entries_of, RunKeeps, keys_kept, keys_written, run_open-RunKeeps,
}

empty-Healthy : (p : Profile) (end_at : ℕ) → Healthy p (empty_namespace end_at)
unfolding hget
empty-Healthy p end_at = record {
  indexed = record {
    entries_sound = λ id e found. absurd (cc found);
    queue_waits = λ id. refl;
    leases_wait = λ id. refl;
    active_admitted = λ id. refl;
    claims_claimed = λ id. refl;
    holders_live = λ u. refl;
    latest_owned = λ u. refl;
    joins_exist = λ r. refl;
  };
  counted = record {
    queue_keyed = tt;
    leases_keyed = tt;
    active_keyed = tt;
    holders_keyed = tt;
    entries_counted = refl;
    joins_counted = refl;
    latest_counted = refl;
    leases_counted = refl;
    holders_counted = refl;
    sequence_bounded = omega arith;
    queue_bounded = omega arith;
    active_bounded = omega arith;
    window_bounded = omega arith;
  };
}

create-RunKeeps :
    {p : Profile} (now epoch generation run_id : ℕ) (room : Room)
    → RoomHealthy p room
    → RunKeeps p room (create now p epoch generation run_id room)
unfolding create hget
create-RunKeeps {p} now epoch generation run_id room h = by_keys (room.keys epoch) refl
  where
    fresh_room : Room
    fresh_room = record room {
      control = ControlKey.hash (fresh_control epoch generation run_id);
      keys = set_keys epoch (Keys.whole (empty_namespace (now + p.epoch_ms))) room.keys;
    }

    by_keys :
        (ks : Keys)
        → room.keys epoch ≡ ks
        → RunKeeps p room (if is_absent ks then (Answer.done, fresh_room) else (recovering, room))
    by_keys Keys.absent at =
        keys_written epoch (Keys.whole (empty_namespace (now + p.epoch_ms))) h refl refl
          (empty-Healthy p _)
          (λ id. subst (λ k. EntrySteps (hget id (entries_of k)) none) (sym at) here)
    by_keys Keys.damaged at = keys_kept _ h refl refl
    by_keys (Keys.whole n) at = keys_kept _ h refl refl

if-RunKeeps :
    {p : Profile} {room : Room} {a b : Answer × Room} (t : Bool)
    → RunKeeps p room a
    → RunKeeps p room b
    → RunKeeps p room (if t then a else b)
if-RunKeeps true x y = x
if-RunKeeps false x y = y

initialize-RunKeeps :
    {p : Profile} (now epoch generation run_id : ℕ) (room : Room)
    → RoomHealthy p room
    → RunKeeps p room (initialize now p epoch generation run_id room)
unfolding initialize
initialize-RunKeeps {p} now epoch generation run_id room h = by_control room.control
  where
    refused : RunKeeps p room (recovering, room)
    refused = keys_kept _ h refl refl

    created : RunKeeps p room (create now p epoch generation run_id room)
    created = create-RunKeeps now epoch generation run_id room h

    by_control :
        (k : ControlKey)
        → RunKeeps p room (elim k [
          | ControlKey.hash c ↦
              if ltb generation c.generation
              then (recovering, room)
              else if c.generation == generation
              then (if same_namespace epoch run_id c room
                  then (Answer.done, room)
                  else (recovering, room))
              else create now p epoch generation run_id room
          | _ ↦ create now p epoch generation run_id room
        ])
    by_control ControlKey.missing = created
    by_control ControlKey.other_type = created
    by_control (ControlKey.hash c) = if-RunKeeps (ltb generation c.generation) refused (
        if-RunKeeps (c.generation == generation)
          (if-RunKeeps (same_namespace epoch run_id c room) (keys_kept _ h refl refl) refused)
          created)

or_else-RunKeeps :
    {p : Profile} {room : Room} {rest : Answer × Room} (o : Option ℕ) (f : ℕ → Answer × Room)
    → ((generation : ℕ) → RunKeeps p room (f generation))
    → RunKeeps p room rest
    → RunKeeps p room (or_else o f rest)
or_else-RunKeeps none f y r = r
or_else-RunKeeps (some g) f y r = y g

run_checked-RunKeeps :
    {p : Profile} (now request_id epoch : ℕ) (op : Operation) (c : Control) (n : Namespace)
    (room : Room)
    → RoomHealthy p room
    → room.keys epoch ≡ Keys.whole n
    → Healthy p n
    → IsFresh op n.entries
    → RunKeeps p room (run_checked now p request_id epoch op c n room)
unfolding run_checked publish
run_checked-RunKeeps {p} now request_id epoch op c n room h at hn fresh =
    or_else-RunKeeps (publish_of op) (λ g. publish g c room)
      (λ g.
        if-RunKeeps (c.generation == g && not (is_frozen c.mode)) (keys_kept _ h refl refl)
          (keys_kept _ h refl refl))
      (if-RunKeeps (is_ready c.mode && (ltb now n.end_at || is_finalizing op))
        (run_open-RunKeeps now request_id epoch op c n room h at hn fresh)
        (keys_kept _ h refl refl))

run_hash-RunKeeps :
    {p : Profile} (now request_id epoch : ℕ) (op : Operation) (c : Control) (room : Room)
    → RoomHealthy p room
    → IsFresh op (entries_of (room.keys epoch))
    → RunKeeps p room (run_hash now p request_id epoch op c room)
unfolding run_hash freeze
run_hash-RunKeeps {p} now request_id epoch op c room h fresh =
    if-RunKeeps (not (c.epoch == epoch)) (keys_kept _ h refl refl) (
      or_else-RunKeeps (freeze_of op) (λ g. freeze g c room)
        (λ g. if-RunKeeps (c.generation == g) (keys_kept _ h refl refl) (keys_kept _ h refl refl))
        (if-RunKeeps c.dirty (keys_kept _ h refl refl) (by_keys (room.keys epoch) refl)))
  where
    counted :
        (b : Bool) (n : Namespace)
        → room.keys epoch ≡ Keys.whole n
        → RunKeeps p room
            (in_order (run_checked now p request_id epoch op c) room (if b then some n else none))
    counted false n at = keys_kept _ h refl refl
    counted true n at =
        run_checked-RunKeeps now request_id epoch op c n room h at
          (subst (KeysHealthy p) at (h epoch)) (subst (λ k. IsFresh op (entries_of k)) at fresh)

    by_keys :
        (ks : Keys)
        → room.keys epoch ≡ ks
        → RunKeeps p room (in_order (run_checked now p request_id epoch op c) room (structures ks))
    by_keys Keys.absent at = keys_kept _ h refl refl
    by_keys Keys.damaged at = keys_kept _ h refl refl
    by_keys (Keys.whole n) at = counted (counts_agree n) n at

with_control-RunKeeps :
    {p : Profile} (k : Control → Room → Answer × Room) (key : ControlKey) (room : Room)
    → RoomHealthy p room
    → ((c : Control) → RunKeeps p room (k c room))
    → RunKeeps p room (with_control k key room)
with_control-RunKeeps k ControlKey.missing room h f = keys_kept _ h refl refl
with_control-RunKeeps k ControlKey.other_type room h f = keys_kept _ h refl refl
with_control-RunKeeps k (ControlKey.hash c) room h f = f c

-- A run on a room in order meets no script error, leaves the room in order, and takes each entry
-- through steps of its life. The id of a new entry is one that no entry of the epoch has.
pub run_admission-RunKeeps :
    {p : Profile} (now request_id epoch : ℕ) (op : Operation) (room : Room)
    → RoomHealthy p room
    → IsFresh op (entries_of (room.keys epoch))
    → RunKeeps p room (run_admission now p request_id epoch op room)
unfolding run_admission probe
run_admission-RunKeeps now request_id epoch (Operation.probe g r) room h fresh =
    keys_kept _ h refl refl
run_admission-RunKeeps now request_id epoch (Operation.initialize g r) room h fresh =
    initialize-RunKeeps now epoch g r room h
run_admission-RunKeeps now request_id epoch (Operation.status u) room h fresh =
    with_control-RunKeeps _ room.control room h
      (λ c. run_hash-RunKeeps now request_id epoch (Operation.status u) c room h fresh)
run_admission-RunKeeps now request_id epoch (Operation.join u r i) room h fresh =
    with_control-RunKeeps _ room.control room h
      (λ c. run_hash-RunKeeps now request_id epoch (Operation.join u r i) c room h fresh)
run_admission-RunKeeps now request_id epoch Operation.tick room h fresh =
    with_control-RunKeeps _ room.control room h
      (λ c. run_hash-RunKeeps now request_id epoch Operation.tick c room h fresh)
run_admission-RunKeeps now request_id epoch Operation.reconcile room h fresh =
    with_control-RunKeeps _ room.control room h
      (λ c. run_hash-RunKeeps now request_id epoch Operation.reconcile c room h fresh)
run_admission-RunKeeps now request_id epoch (Operation.inspect i) room h fresh =
    with_control-RunKeeps _ room.control room h
      (λ c. run_hash-RunKeeps now request_id epoch (Operation.inspect i) c room h fresh)
run_admission-RunKeeps now request_id epoch (Operation.cancel u i) room h fresh =
    with_control-RunKeeps _ room.control room h
      (λ c. run_hash-RunKeeps now request_id epoch (Operation.cancel u i) c room h fresh)
run_admission-RunKeeps now request_id epoch (Operation.claim u i f t) room h fresh =
    with_control-RunKeeps _ room.control room h
      (λ c. run_hash-RunKeeps now request_id epoch (Operation.claim u i f t) c room h fresh)
run_admission-RunKeeps now request_id epoch (Operation.complete u i f t o) room h fresh =
    with_control-RunKeeps _ room.control room h
      (λ c. run_hash-RunKeeps now request_id epoch (Operation.complete u i f t o) c room h fresh)
run_admission-RunKeeps now request_id epoch (Operation.close u i f t) room h fresh =
    with_control-RunKeeps _ room.control room h
      (λ c. run_hash-RunKeeps now request_id epoch (Operation.close u i f t) c room h fresh)
run_admission-RunKeeps now request_id epoch (Operation.publish g) room h fresh =
    with_control-RunKeeps _ room.control room h
      (λ c. run_hash-RunKeeps now request_id epoch (Operation.publish g) c room h fresh)
run_admission-RunKeeps now request_id epoch (Operation.freeze g) room h fresh =
    with_control-RunKeeps _ room.control room h
      (λ c. run_hash-RunKeeps now request_id epoch (Operation.freeze g) c room h fresh)
