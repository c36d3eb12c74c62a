-- ===== src/WaitingRoom/Joining.antt =====
-- Lemmas on `status`, `join` and `cancel` in a namespace in order.
use peak_pass.Prelude.{
  ℕ, suc, ◌≡◌, refl, sym, ap, Bool, true, false, not, Option, none, some, ◌==◌, is_some, arith,
  ==_refl, Option-cases, inl, inr, Bool-cases,
}
use peak_pass.Redis.{Hash, hget}
use peak_pass.Redis.Laws.{hget-hset, hget-hdel}
use peak_pass.WaitingRoom.{EntryState, Entry, Profile, Namespace}
use peak_pass.WaitingRoom.Entries.{is_waiting, is_idle, saved, clear_active}
use peak_pass.WaitingRoom.Requests.{
  renewed, renew, renew_optional, status, new_entry, enter, rejoin, is_live, queue_full, join_new,
  join, is_consumed, cancel_idle, cancel,
}
use peak_pass.WaitingRoom.Health.{live, when, live_of, owned, Healthy}
use peak_pass.WaitingRoom.Changes.{Stored}
use peak_pass.WaitingRoom.Updates.{renewed-Next}
use peak_pass.WaitingRoom.Entering.{enter-Next}
use peak_pass.WaitingRoom.Steps.{EntryStep, is_open}
use peak_pass.WaitingRoom.Running.{
  Runs, Answered, pure-Runs, bind-Runs, weaken-Runs, if-Runs, gets_then, modify_then,
}
use peak_pass.WaitingRoom.Expiry.{
  two_modifies, terminal-Runs, Expired, kept, lapsed, lapsed_entry, Expired-Stored, expire-Runs,
  snapshot-Runs, StoredOptional, ExpiredOptional, expire_optional-Runs, ExpiredOptional-Stored,
  snapshot_optional-Runs, entry_after, same_of_sound,
}

module _ {p : Profile} {n : Namespace} where
  pub renew-Runs :
      (now : ℕ) (e : Entry) → Healthy p n → Stored e n → Runs p (renew now p e) n Stored
  unfolding renew
  renew-Runs now e h at =
      if-Runs (is_waiting e.state)
        (λ w.
          weaken-Runs
            (two_modifies (saved (renewed now p e)) _ (renewed now p e) (renewed-Next h at now w))
            (λ a m nx q.
              rw (q.0, q.1)
                (rw
                  (
                    hget-hset e.admission_id e.admission_id (renewed now p e) n.entries,
                    ==_refl e.admission_id,
                  )
                  refl)))
        (λ closed. pure-Runs e h at)

  renew_optional-Runs :
      (now : ℕ) (o : Option Entry)
      → Healthy p n
      → StoredOptional o n
      → Runs p (renew_optional now p o) n StoredOptional
  unfolding renew_optional
  renew_optional-Runs now none h at = pure-Runs none h tt
  renew_optional-Runs now (some e) h at =
      bind-Runs (renew-Runs now e h at) (λ a m nx q. pure-Runs (some a) nx.healthy q)

pub status-Runs :
    {p : Profile} {n : Namespace} (now : ℕ) (latest : Option Entry)
    → Healthy p n
    → StoredOptional latest n
    → Runs p (status now p latest) n Answered
unfolding status
status-Runs {n = n} now latest h at = bind-Runs (expire_optional-Runs now latest h at) (λ a m nx q.
    bind-Runs (renew_optional-Runs now a nx.healthy (ExpiredOptional-Stored latest a n m at q))
      (λ b k nx' q'.
        bind-Runs (snapshot_optional-Runs b nx'.healthy q')
          (λ s l nx'' q''. pure-Runs _ nx''.healthy refl)))

rejoin-Runs :
    {p : Profile} {n : Namespace} (now user_id : ℕ) (joined : Entry)
    → Healthy p n
    → Stored joined n
    → Runs p (rejoin now p user_id joined) n Answered
unfolding rejoin
rejoin-Runs now user_id joined h at =
    if-Runs (not (joined.user_id == user_id)) (λ other. pure-Runs _ h refl)
      (λ own. bind-Runs (expire-Runs now joined h at) (λ a m nx q.
        bind-Runs (renew-Runs now a nx.healthy (Expired-Stored at q)) (λ b k nx' q'.
          bind-Runs (snapshot-Runs b nx'.healthy q')
            (λ s l nx'' q''. pure-Runs _ nx''.healthy refl))))

-- The entry of an id that may be nil.
abbrev pub follow : Hash Entry → Option ℕ → Option Entry
follow h none = none
follow h (some id) = hget id h

entered_at :
    (p : Profile) (n : Namespace) (now user_id request id : ℕ) (fresh : Bool)
    → Stored
        (new_entry now p user_id id (suc n.sequence))
        (enter now p user_id request id (suc n.sequence) fresh n)
unfolding enter
entered_at p n now user_id request id fresh =
    rw (hget-hset id id (new_entry now p user_id id (suc n.sequence)) n.entries, ==_refl id) refl

join_new-Runs :
    {p : Profile} {n : Namespace} (now user_id request id : ℕ)
    → Healthy p n
    → hget id n.entries ≡ none
    → hget request n.joins ≡ none
    → hget user_id n.holders ≡ none
    → Runs p (join_new now p user_id request id (not (is_some (hget user_id n.latest)))) n Answered
unfolding join_new
join_new-Runs {p} {n} now user_id request id h fresh new free = gets_then (queue_full p) _ (
    if-Runs (queue_full p n) (λ y. pure-Runs _ h refl)
      (λ room.
        (let step =
            enter-Next h now user_id request id fresh new free (ground arith) (ground arith) in
          gets_then (λ m. suc m.sequence) _
            (modify_then _ _ step (
              bind-Runs
                (snapshot-Runs (new_entry now p user_id id (suc n.sequence)) step.healthy
                  (entered_at p n now user_id request id _))
                (λ s m nx q. pure-Runs _ nx.healthy refl))))))

-- What the reference of a user leads to is the live entry that it holds.
held_entry :
    {p : Profile} (n : Namespace) (user_id : ℕ) (e : Entry)
    → Healthy p n
    → some e ≡ follow n.entries (hget user_id n.holders)
    → (live e ≡ true) × ((e.user_id ≡ user_id) × (hget user_id n.holders ≡ some e.admission_id))
held_entry n user_id e h found = elim (Option-cases (hget user_id n.holders)) [
  | inl ne ↦ absurd (cc (rw (ne) at found))
  | inr (id, at) ↦
      (let there : hget id n.entries ≡ some e = sym (rw (at) at found) in
        let alive : live_of user_id e ≡ true =
          rw (there) at (rw (at) at (h.indexed.holders_live user_id)) in
        let s = (h.indexed.entries_sound id e there).0 in
        let same : e.admission_id ≡ id = same_of_sound id e s in
        (ground arith, (ground arith, rw (at, same) refl)))
]

none_held_before :
    {p : Profile} (n : Namespace) (user_id : ℕ)
    → Healthy p n
    → none ≡ follow n.entries (hget user_id n.holders)
    → hget user_id n.holders ≡ none
none_held_before n user_id h found = elim (Option-cases (hget user_id n.holders)) [
  | inl ne ↦ ne
  | inr (id, at) ↦
      (let there : hget id n.entries ≡ none = sym (rw (at) at found) in
        absurd (cc (rw (there) at (rw (at) at (h.indexed.holders_live user_id)))))
]

none_joined_before :
    {p : Profile} (n : Namespace) (request : ℕ)
    → Healthy p n
    → none ≡ follow n.entries (hget request n.joins)
    → hget request n.joins ≡ none
none_joined_before n request h found = elim (Option-cases (hget request n.joins)) [
  | inl ne ↦ ne
  | inr (id, at) ↦
      (let there : hget id n.entries ≡ none = sym (rw (at) at found) in
        absurd (cc (rw (there) at (rw (at) at (h.indexed.joins_exist request)))))
]

-- What `join` needs of the namespace after the expiry of the entry that the user holds.
record Cleared (user_id id : ℕ) (n m : Namespace) : Type 0 where
  unheld : hget user_id m.holders ≡ none
  absent : hget id m.entries ≡ none
  joins_kept : m.joins ≡ n.joins
  latest_kept : m.latest ≡ n.latest

clear_held :
    {p : Profile} {n m : Namespace} (user_id id : ℕ) (e a : Entry)
    → Healthy p n
    → Stored e n
    → some e ≡ follow n.entries (hget user_id n.holders)
    → Expired e n a m
    → live a ≡ false
    → hget id n.entries ≡ none
    → Cleared user_id id n m
unfolding clear_active
clear_held {n = n} user_id id e a h at found (kept same r) dead fresh =
    absurd (cc (rw (same) at dead, (held_entry n user_id e h found).0))
clear_held {n = n} user_id id e a h at found (lapsed same r) dead fresh =
    let (alive, (user, held)) = held_entry n user_id e h found in
    rw (r) (record {
      unheld =
          ground
            (arith, hget-hdel user_id user_id n.holders, ==_refl user_id, ==_refl e.admission_id);
      absent = ground (arith, hget-hset e.admission_id id (lapsed_entry e) n.entries);
      joins_kept = refl;
      latest_kept = refl;
    })

expire_held :
    {p : Profile} {n m : Namespace} (user_id id : ℕ) (o a : Option Entry)
    → Healthy p n
    → StoredOptional o n
    → o ≡ follow n.entries (hget user_id n.holders)
    → ExpiredOptional o n a m
    → is_live a ≡ false
    → hget id n.entries ≡ none
    → Cleared user_id id n m
unfolding live
expire_held {n = n} user_id id none none h at found q dead fresh = record {
  unheld = rw (q) (none_held_before n user_id h found);
  absent = rw (q) fresh;
  joins_kept = ap (λ x. x.joins) q;
  latest_kept = ap (λ x. x.latest) q;
}
expire_held user_id id (some e) (some a) h at found q dead fresh =
    clear_held user_id id e a h at found q dead fresh
expire_held user_id id none (some a) h at found q dead fresh = absurd q
expire_held user_id id (some e) none h at found q dead fresh = absurd q

some_followed :
    {p : Profile} (n : Namespace) (user_id : ℕ) (o : Option Entry)
    → Healthy p n
    → o ≡ follow n.entries (hget user_id n.latest)
    → is_some o ≡ is_some (hget user_id n.latest)
some_followed n user_id o h found = elim (Option-cases (hget user_id n.latest)) [
  | inl ne ↦ rw (found, ne) refl
  | inr (id, at) ↦
      (let f = rw (at) at (h.indexed.latest_owned user_id) in
        rw (found, at) (there_is (hget id n.entries) (owned user_id) f))
]
  where
    there_is : (o : Option Entry) (f : Entry → Bool) → when o f ≡ true → is_some o ≡ true
    there_is none f e = e
    there_is (some d) f e = refl

pub join-Runs :
    {p : Profile} {n : Namespace} (now user_id request id : ℕ) (latest active joined : Option Entry)
    → Healthy p n
    → StoredOptional latest n
    → StoredOptional active n
    → StoredOptional joined n
    → latest ≡ follow n.entries (hget user_id n.latest)
    → active ≡ follow n.entries (hget user_id n.holders)
    → joined ≡ follow n.entries (hget request n.joins)
    → hget id n.entries ≡ none
    → Runs p (join now p user_id request id latest active joined) n Answered
unfolding join
join-Runs {p} now user_id request id latest active (some joined) h l a j fl fa fj fresh =
    rejoin-Runs now user_id joined h j
join-Runs {p} {n} now user_id request id latest active none h l a j fl fa fj fresh =
    bind-Runs (expire_optional-Runs now active h a) (λ e m nx q.
      if-Runs (is_live e)
        (λ y.
          bind-Runs (snapshot_optional-Runs e nx.healthy (ExpiredOptional-Stored active e n m a q))
            (λ s k nx' q'. pure-Runs _ nx'.healthy refl))
        (λ dead.
          (let c = expire_held user_id id active e h a fa q dead fresh in
            let first : is_some latest ≡ is_some (hget user_id m.latest) =
              rw (c.latest_kept) (some_followed n user_id latest h fl) in
            rw (first) (
              join_new-Runs now user_id request id nx.healthy c.absent
                (rw (c.joins_kept) (none_joined_before n request h fj)) c.unheld))))

cancel_idle-Runs :
    {p : Profile} {n : Namespace} (e : Entry)
    → Healthy p n
    → Stored e n
    → is_idle e.phase ≡ true
    → Runs p (cancel_idle e) n Answered
unfolding cancel_idle live is_open
cancel_idle-Runs {p} {n} e h at idle =
    bind-Runs {Q = Stored}
      (if-Runs (is_live (some e))
        (λ l.
          weaken-Runs
            (terminal-Runs e e EntryState.cancelled (some "ADMISSION_CANCELLED") h at l refl refl
              refl (EntryStep.cancelled e (some "ADMISSION_CANCELLED") (ground arith)))
            (λ a m nx q. entry_after _ (q.0) (q.1)))
        (λ dead. pure-Runs e h at))
      (λ a m nx q.
        bind-Runs (snapshot-Runs a nx.healthy q) (λ s k nx' q'. pure-Runs _ nx'.healthy refl))

pub cancel-Runs :
    {p : Profile} {n : Namespace} (now : ℕ) (e : Entry)
    → Healthy p n
    → Stored e n
    → Runs p (cancel now e) n Answered
unfolding cancel
cancel-Runs now e h at = bind-Runs (expire-Runs now e h at) (λ a m nx q.
    if-Runs (is_consumed a.state) (λ y. pure-Runs _ nx.healthy refl)
      (λ ne. elim (Bool-cases (is_idle a.phase)) [
        | inl y ↦ rw (y) (cancel_idle-Runs a nx.healthy (Expired-Stored at q) y)
        | inr busy ↦ rw (busy) (pure-Runs _ nx.healthy refl)
      ]))
