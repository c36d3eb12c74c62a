-- ===== src/WaitingRoom/Rooms.antt =====
-- The runs of the script on the waiting room of an event.
use peak_pass.Prelude.{
  ℕ, ◌≡◌, refl, sym, ap, subst, ◌∙◌, Bool, true, false, ◌&&◌, not, Option, none, some, ◌==◌, ==→eq,
  if◌then◌else◌, inl, inr, Bool-cases, arith, [],
}
use peak_pass.Redis.{Hash, Zset, hget}
use peak_pass.WaitingRoom.{
  Entry, Profile, Namespace, Keys, Control, Operation, Limited, Room, Answer,
}
use peak_pass.WaitingRoom.Requests.{deny, limiter}
use peak_pass.WaitingRoom.Lifecycle.{recovering, set_keys}
use peak_pass.WaitingRoom.Run.{
  user_of, References, limited, of_user, after_body, run_body, with_limit, after_limiter,
  with_limiter, run_limited, after_references, run_open,
}
use peak_pass.WaitingRoom.Health.{Healthy}
use peak_pass.WaitingRoom.Steps.{EntrySteps, here}
use peak_pass.WaitingRoom.Running.{is_fault}
use peak_pass.WaitingRoom.Bodies.{referred, references-Runs, IsFresh, body-Runs}

-- No script error has happened, and each namespace is in order.
abbrev pub KeysHealthy : Profile → Keys → Type 0
KeysHealthy p Keys.absent = Unit
KeysHealthy p Keys.damaged = ⊥
KeysHealthy p (Keys.whole n) = Healthy p n

abbrev pub RoomHealthy : Profile → Room → Type 0
RoomHealthy p room = (epoch : ℕ) → KeysHealthy p (room.keys epoch)

abbrev pub entries_of : Keys → Hash Entry
entries_of (Keys.whole n) = n.entries
entries_of _ = []

-- The entry of an id in the room.
abbrev pub entry_at : ℕ → ℕ → Room → Option Entry
entry_at epoch id room = hget id (entries_of (room.keys epoch))

-- What a run keeps of a room that is in order.
pub record RunKeeps (p : Profile) (room : Room) (result : Answer × Room) : Type 0 where
  pub answered : is_fault result.0 ≡ false
  pub healthy : RoomHealthy p result.1
  pub moved : (epoch id : ℕ) → EntrySteps (entry_at epoch id room) (entry_at epoch id result.1)

-- A run that leaves the keys.
pub keys_kept :
    {p : Profile} {room : Room} (result : Answer × Room)
    → RoomHealthy p room
    → is_fault result.0 ≡ false
    → result.1.keys ≡ room.keys
    → RunKeeps p room result
keys_kept {p} {room} result h a same = record {
  answered = a;
  healthy = λ epoch. subst (λ k. KeysHealthy p (k epoch)) (sym same) (h epoch);
  moved = λ epoch id.
      subst (λ k. EntrySteps (entry_at epoch id room) (hget id (entries_of (k epoch)))) (sym same)
        here;
}

-- A run that writes the namespace of an epoch.
pub keys_written :
    {p : Profile} {room : Room} {result : Answer × Room} (epoch : ℕ) (ks : Keys)
    → RoomHealthy p room
    → is_fault result.0 ≡ false
    → result.1.keys ≡ set_keys epoch ks room.keys
    → KeysHealthy p ks
    → ((id : ℕ) → EntrySteps (entry_at epoch id room) (hget id (entries_of ks)))
    → RunKeeps p room result
keys_written {p} {room} epoch ks h a same k steps = record {
  answered = a;
  healthy = λ e. subst (λ f. KeysHealthy p (f e)) (sym same) (healthy_at e);
  moved = λ e id.
      subst (λ f. EntrySteps (entry_at e id room) (hget id (entries_of (f e)))) (sym same)
        (moved_at e id);
}
  where
    healthy_at : (e : ℕ) → KeysHealthy p (set_keys epoch ks room.keys e)
    healthy_at e = elim (Bool-cases (e == epoch)) [ inl y ↦ rw (y) k | inr ne ↦ rw (ne) (h e) ]

    moved_at :
        (e id : ℕ)
        → EntrySteps (entry_at e id room) (hget id (entries_of (set_keys epoch ks room.keys e)))
    moved_at e id = elim (Bool-cases (e == epoch)) [
      | inl y ↦ rw (y) (
          subst (λ x. EntrySteps (entry_at x id room) (hget id (entries_of ks)))
            (sym (==→eq e epoch y)) (steps id))
      | inr ne ↦ rw (ne) here
    ]

run_body-RunKeeps :
    {p : Profile} (now epoch : ℕ) (op : Operation) (c : Control) (n : Namespace) (room : Room)
    → RoomHealthy p room
    → room.keys epoch ≡ Keys.whole n
    → Healthy p n
    → IsFresh op n.entries
    → RunKeeps p room (run_body now p epoch op (referred op n) c n room)
unfolding run_body
run_body-RunKeeps {p} now epoch op c n room h at hn fresh =
    let r = body-Runs now op hn fresh in
    subst (λ o. RunKeeps p room (after_body epoch c room o)) (sym r.runs)
      (keys_written epoch (Keys.whole r.after) h r.result refl r.next.healthy (λ id.
        subst (λ k. EntrySteps (hget id (entries_of k)) (hget id r.after.entries)) (sym at)
          (r.next.moved id)))

-- The refusal of the limiter is no script error.
abbrev refused_well : Option Answer → Bool
refused_well none = true
refused_well (some a) = not (is_fault a)

limiter_answers :
    (now request_id : ℕ) (l : Limited) (z : Zset)
    → refused_well (limiter now request_id l z).0 ≡ true
unfolding limiter
limiter_answers now request_id l z = ground arith

-- Rooms of the same keys are kept alike.
same_room :
    {p : Profile} {other room : Room} {result : Answer × Room}
    → other.keys ≡ room.keys
    → RunKeeps p other result
    → RunKeeps p room result
same_room {p} {other} {room} {result} same r = record {
  answered = r.answered;
  healthy = r.healthy;
  moved = λ epoch id.
      subst (λ k. EntrySteps (hget id (entries_of (k epoch))) (entry_at epoch id result.1)) same
        (r.moved epoch id);
}

-- The limiter writes its own key alone.
with_limiter-RunKeeps :
    {p : Profile} (now request_id : ℕ) (o : Option (ℕ × Limited)) (k : Room → Answer × Room)
    (room : Room)
    → RoomHealthy p room
    → ((other : Room) → other.keys ≡ room.keys → RunKeeps p other (k other))
    → RunKeeps p room (with_limiter now request_id o k room)
unfolding limiter
with_limiter-RunKeeps now request_id none k room h f = f room refl
with_limiter-RunKeeps {p} now request_id (some (user_id, l)) k room h f =
    by_limit (room.limits user_id l)
  where
    by_answer :
        (r : Option Answer × Zset)
        → refused_well r.0 ≡ true
        → RunKeeps p room (after_limiter user_id l k room r)
    by_answer (some a, z) ok = keys_kept _ h (ground arith) refl
    by_answer (none, z) ok =
        same_room {other = with_limit user_id l z room} {room = room} refl
          (f (with_limit user_id l z room) refl)

    by_limit :
        (o : Option Zset)
        → RunKeeps p room (elim o [
          | none ↦ (deny "ADMISSION_UNAVAILABLE" 503 (some 1000), room)
          | some z ↦ after_limiter user_id l k room (limiter now request_id l z)
        ])
    by_limit none = keys_kept _ h refl refl
    by_limit (some z) = by_answer (limiter now request_id l z) (limiter_answers now request_id l z)

pub run_open-RunKeeps :
    {p : Profile} (now request_id epoch : ℕ) (op : Operation) (c : Control) (n : Namespace)
    (room : Room)
    → RoomHealthy p room
    → room.keys epoch ≡ Keys.whole n
    → Healthy p n
    → IsFresh op n.entries
    → RunKeeps p room (run_open now p request_id epoch op c n room)
unfolding run_open run_limited
run_open-RunKeeps {p} now request_id epoch op c n room h at hn fresh =
    let r = references-Runs op hn in
    subst
      (λ o.
        RunKeeps p room
          (after_references op (λ r. run_limited now p request_id epoch op r c n) room o))
      (sym r.runs)
      (by_test (of_user (user_of op) r.value.latest && of_user (user_of op) r.value.active) r.value
        r.result.1)
  where
    by_test :
        (b : Bool) (r : References)
        → r ≡ referred op n
        → RunKeeps p room
            (if b then run_limited now p request_id epoch op r c n room else (recovering, room))
    by_test false r same = keys_kept _ h refl refl
    by_test true r same = with_limiter-RunKeeps now request_id (limited op) _ room h (λ other keys.
        subst (λ x. RunKeeps p other (run_body now p epoch op x c n other)) (sym same)
          (run_body-RunKeeps now epoch op c n other
            (subst (λ k. (e : ℕ) → KeysHealthy p (k e)) (sym keys) h) (ap (λ k. k epoch) keys ∙ at)
            hn fresh))
