-- ===== src/WaitingRoom/Histories.antt =====
-- The runs of the script on the waiting room of an event, one after the other.
use peak_pass.Prelude.{
  ℕ, ◌≤◌, ◌≡◌, sym, subst, true, false, ◌||◌, not, Option, some, length, arith, List, [], ◌∷◌,
  Bool-cases, inl, inr,
}
use peak_pass.Redis.{hget}
use peak_pass.WaitingRoom.{Entry, Profile, Namespace, Keys, Operation, Room, Answer}
use peak_pass.WaitingRoom.Lifecycle.{max_sequence, counts_agree, structures}
use peak_pass.WaitingRoom.Run.{run_admission}
use peak_pass.WaitingRoom.Health.{live, is_id, Healthy}
use peak_pass.WaitingRoom.Steps.{EntrySteps, here, EntrySteps-trans, is_ended, EntrySteps-is_ended}
use peak_pass.WaitingRoom.Running.{is_fault}
use peak_pass.WaitingRoom.Bodies.{IsFresh}
use peak_pass.WaitingRoom.Rooms.{KeysHealthy, RoomHealthy, entries_of, entry_at}
use peak_pass.WaitingRoom.Keeping.{run_admission-RunKeeps}

-- A run: its time, its request id, the epoch that it is for and the operation.
pub record Call : Type 0 where
  pub now : ℕ
  pub request_id : ℕ
  pub epoch : ℕ
  pub operation : Operation

abbrev pub run_call : Profile → Call → Room → Answer × Room
run_call p c room = run_admission c.now p c.request_id c.epoch c.operation room

unfoldable pub run_calls : Profile → List Call → Room → Room
run_calls p [] room = room
run_calls p (c ∷ cs) room = run_calls p cs (run_call p c room).1

-- Each `join` has an id that no entry of its epoch has by then.
unfoldable pub AllFresh : Profile → List Call → Room → Type 0
AllFresh p [] room = Unit
AllFresh p (c ∷ cs) room =
    IsFresh c.operation (entries_of (room.keys c.epoch)) × AllFresh p cs (run_call p c room).1

-- From a room in which every namespace is in order, any runs whose joins have fresh ids leave
-- every namespace in order: its entries are in the indexes of their state and in no other, its
-- references lead to entries of their user, its counts agree, and no script error has broken it.
pub run_calls-RoomHealthy :
    (p : Profile) (calls : List Call) (room : Room)
    → RoomHealthy p room
    → AllFresh p calls room
    → RoomHealthy p (run_calls p calls room)
unfolding run_calls AllFresh
run_calls-RoomHealthy p [] room h fresh = h
run_calls-RoomHealthy p (c ∷ cs) room h fresh =
    run_calls-RoomHealthy p cs _
      (run_admission-RunKeeps c.now c.request_id c.epoch c.operation room h fresh.0).healthy fresh.1

-- In a room in which every namespace is in order, a run whose join has a fresh id ends without a
-- script error.
pub run_admission-answered :
    (p : Profile) (now request_id epoch : ℕ) (op : Operation) (room : Room)
    → RoomHealthy p room
    → IsFresh op (entries_of (room.keys epoch))
    → is_fault (run_admission now p request_id epoch op room).0 ≡ false
run_admission-answered p now request_id epoch op room h fresh =
    (run_admission-RunKeeps now request_id epoch op room h fresh).answered

-- From a room in which every namespace is in order, any runs whose joins have fresh ids take each
-- entry along the transitions of its life: waiting, admitted, claimed, overdue and ended.
pub run_calls-EntrySteps :
    (p : Profile) (calls : List Call) (room : Room)
    → RoomHealthy p room
    → AllFresh p calls room
    → (epoch id : ℕ)
    → EntrySteps (entry_at epoch id room) (entry_at epoch id (run_calls p calls room))
unfolding run_calls AllFresh
run_calls-EntrySteps p [] room h fresh epoch id = here
run_calls-EntrySteps p (c ∷ cs) room h fresh epoch id =
    let r = run_admission-RunKeeps c.now c.request_id c.epoch c.operation room h fresh.0 in
    EntrySteps-trans (r.moved epoch id) (run_calls-EntrySteps p cs _ r.healthy fresh.1 epoch id)

-- From a room in which every namespace is in order, an entry that is consumed, cancelled or
-- expired stands unchanged after any runs whose joins have fresh ids.
pub run_calls-ended :
    (p : Profile) (calls : List Call) (room : Room)
    → RoomHealthy p room
    → AllFresh p calls room
    → (epoch id : ℕ) → is_ended (entry_at epoch id room) ≡ true
    → entry_at epoch id (run_calls p calls room) ≡ entry_at epoch id room
run_calls-ended p calls room h fresh epoch id over =
    sym (EntrySteps-is_ended (run_calls-EntrySteps p calls room h fresh epoch id) over)

-- After any runs from a room without namespaces whose joins have fresh ids, a namespace has at
-- most `capacity` admitted entries, `max_waiting` waiting ones and `max_entries` in all, and at
-- most `rate` promotions in its window.
pub run_calls-bounded :
    (p : Profile) (calls : List Call) (room : Room)
    → ((epoch : ℕ) → room.keys epoch ≡ Keys.absent)
    → AllFresh p calls room
    → (epoch : ℕ) (n : Namespace) → (run_calls p calls room).keys epoch ≡ Keys.whole n
    → (length n.active ≤ p.capacity)
      × ((length n.queue ≤ p.max_waiting)
          × ((length n.entries ≤ p.max_entries) × (length n.window ≤ p.rate)))
run_calls-bounded p calls room none_yet fresh epoch n at =
    let start : RoomHealthy p room = λ e. subst (KeysHealthy p) (sym (none_yet e)) tt in
    let h : Healthy p n =
      subst (KeysHealthy p) at (run_calls-RoomHealthy p calls room start fresh epoch) in
    let c = h.counted in
    (
      c.active_bounded,
      (c.queue_bounded, (ground (arith, c.entries_counted, c.sequence_bounded), c.window_bounded)),
    )

-- A namespace in order passes the check of the script before each run, when `max_entries` is at
-- most the largest sequence number.
pub structures-Healthy :
    (p : Profile) (n : Namespace)
    → Healthy p n
    → p.max_entries ≤ max_sequence
    → structures (Keys.whole n) ≡ some n
unfolding counts_agree
structures-Healthy p n h small =
    let c = h.counted in
    ground (
      arith, c.entries_counted, c.joins_counted, c.latest_counted, c.leases_counted,
      c.holders_counted, c.sequence_bounded,
    )

held_id :
    (e : Entry) (o : Option ℕ) (id : ℕ)
    → (not (live e) || is_id id o) ≡ true
    → live e ≡ true
    → o ≡ some id
held_id e o id h l = ground arith

Healthy-one_live :
    (p : Profile) (n : Namespace) (i j : ℕ) (d e : Entry)
    → Healthy p n
    → hget i n.entries ≡ some d
    → hget j n.entries ≡ some e
    → d.user_id ≡ e.user_id
    → live d ≡ true
    → live e ≡ true
    → i ≡ j
Healthy-one_live p n i j d e h at_i at_j same ld le =
    let hi = held_id d (hget d.user_id n.holders) i (h.indexed.entries_sound i d at_i).1 ld in
    let hj = held_id e (hget e.user_id n.holders) j (h.indexed.entries_sound j e at_j).1 le in
    ground (arith, hi, rw (← same) at hj)

one_live_at :
    (p : Profile) (ks : Keys) (i j : ℕ) (d e : Entry)
    → KeysHealthy p ks
    → hget i (entries_of ks) ≡ some d
    → hget j (entries_of ks) ≡ some e
    → d.user_id ≡ e.user_id
    → live d ≡ true
    → live e ≡ true
    → i ≡ j
unfolding hget
one_live_at p Keys.absent i j d e h at_i at_j same ld le = cc
one_live_at p Keys.damaged i j d e h at_i at_j same ld le = cc
one_live_at p (Keys.whole n) i j d e h at_i at_j same ld le =
    Healthy-one_live p n i j d e h at_i at_j same ld le

not_both_live :
    (i j : ℕ) (e : Entry) → (live e ≡ true → i ≡ j) → ¬ (i ≡ j) → is_ended (some e) ≡ true
unfolding live
not_both_live i j e same differ = elim (Bool-cases (live e)) [
  | inl l ↦ absurd (differ (same l))
  | inr n ↦ ground arith
]

-- After any runs from a room without namespaces whose joins have fresh ids, of two different entries
-- of one epoch and one user, where the one waits or is admitted, the other is consumed, cancelled or
-- expired: no user stands twice in the queue or holds two admissions.
pub run_calls-one_live :
    (p : Profile) (calls : List Call) (room : Room)
    → ((epoch : ℕ) → room.keys epoch ≡ Keys.absent)
    → AllFresh p calls room
    → (epoch i j : ℕ) (d e : Entry) → entry_at epoch i (run_calls p calls room) ≡ some d
    → entry_at epoch j (run_calls p calls room) ≡ some e
    → d.user_id ≡ e.user_id
    → ¬ (i ≡ j)
    → live d ≡ true
    → is_ended (some e) ≡ true
run_calls-one_live p calls room none_yet fresh epoch i j d e at_i at_j same differ ld =
    let h =
      run_calls-RoomHealthy p calls room (λ x. subst (KeysHealthy p) (sym (none_yet x)) tt) fresh
        epoch in
    not_both_live i j e
      (one_live_at p ((run_calls p calls room).keys epoch) i j d e h at_i at_j same ld) differ
