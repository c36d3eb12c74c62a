-- ===== src/WaitingRoom/Expiry.antt =====
-- Lemmas on the local functions of the script in a namespace in order.
use peak_pass.Prelude.{
  ℕ, ◌≡◌, refl, ap, ◌∙◌, true, false, ◌&&◌, ◌||◌, Option, none, some, leb, is_some, arith, ==_refl,
  Option-cases, inl, inr, String,
}
use peak_pass.Redis.{hget, zrank}
use peak_pass.Redis.Laws.{hget-hset, zrank-some}
use peak_pass.WaitingRoom.{EntryState, Entry, Profile, Namespace}
use peak_pass.WaitingRoom.Script.{pure, gets, modify, need, ◌>>=◌}
use peak_pass.WaitingRoom.Entries.{
  is_waiting, is_admitted, is_idle, read, saved, clear_active, ended, terminal, expire,
  expire_optional, snapshot, snapshot_optional,
}
use peak_pass.WaitingRoom.Health.{live, sound, Healthy}
use peak_pass.WaitingRoom.Changes.{Next, Next-refl, Stored, Stored-sound}
use peak_pass.WaitingRoom.Ends.{ended-Next}
use peak_pass.WaitingRoom.Steps.{EntryStep, is_open}
use peak_pass.WaitingRoom.Running.{
  Runs, Any, pure-Runs, gets-Runs, need-Runs, bind-Runs, weaken-Runs, if-Runs,
}

pub same_of_sound : (id : ℕ) (e : Entry) → sound id e ≡ true → e.admission_id ≡ id
unfolding sound
same_of_sound id e s = ground arith

module _ {p : Profile} {n : Namespace} where
  pub read-Runs :
      (id : ℕ)
      → Healthy p n
      → is_some (hget id n.entries) ≡ true
      → Runs p (read id) n (λ e m. (m ≡ n) × ((hget id n.entries ≡ some e) × (e.admission_id ≡ id)))
  unfolding read ◌>>=◌ gets need
  read-Runs id h there = elim (Option-cases (hget id n.entries)) [
    | inl ne ↦ absurd (cc (rw (ne) at there))
    | inr (e, found) ↦
        (let s = (h.indexed.entries_sound id e found).0 in
          let same : e.admission_id ≡ id = same_of_sound id e s in
          record {
            value = e;
            after = n;
            runs = rw (found, same, ==_refl id) refl;
            next = Next-refl h;
            result = (refl, (found, same));
          })
  ]

  -- Two writes that are one change.
  pub two_modifies :
      {A : Type 0} (f g : Namespace → Namespace) (a : A)
      → Next p n (g (f n))
      → Runs p (modify f >>= λ t. modify g >>= λ u. pure a) n (λ b m. (b ≡ a) × (m ≡ g (f n)))
  unfolding modify pure ◌>>=◌
  two_modifies f g a s = record {
    value = a;
    after = g (f n);
    runs = refl;
    next = s;
    result = (refl, refl);
  }

  pub terminal-Runs :
      (d e : Entry) (state : EntryState) (reason : Option String)
      → Healthy p n
      → Stored d n
      → live d ≡ true
      → e.admission_id ≡ d.admission_id
      → e.user_id ≡ d.user_id
      → (is_waiting state || is_admitted state) ≡ false
      → EntryStep (some d) (some (ended state reason e))
      → Runs p (terminal e state reason) n (λ a m.
        (a ≡ ended state reason e) × (m ≡ saved (ended state reason e) (clear_active e n)))
  unfolding terminal
  terminal-Runs d e state reason h at l same user over step =
      two_modifies _ _ _ (ended-Next e state reason h at l same user over step)

abbrev pub lapsed_entry : Entry → Entry
lapsed_entry = ended EntryState.expired (some "ADMISSION_EXPIRED")

-- `expire` leaves the entry as it is, or ends it.
pub data Expired (e : Entry) (n : Namespace) (a : Entry) (after : Namespace) : Type 0 where
  kept : a ≡ e → after ≡ n → Expired e n a after
  lapsed :
      a ≡ lapsed_entry e → after ≡ saved (lapsed_entry e) (clear_active e n) → Expired e n a after

pub entry_after : {a e : Entry} (m : Namespace) {k : Namespace} → a ≡ e → k ≡ saved e m → Stored a k
entry_after {a} {e} m same r =
    rw (same, r)
      (rw (hget-hset e.admission_id e.admission_id e m.entries, ==_refl e.admission_id) refl)

pub Expired-Stored : {e a : Entry} {n m : Namespace} → Stored e n → Expired e n a m → Stored a m
Expired-Stored at (kept same r) = rw (r, same) at
Expired-Stored at (lapsed same r) = entry_after _ same r

module _ {p : Profile} {n : Namespace} where
  pub expire-Runs :
      (now : ℕ) (e : Entry) → Healthy p n → Stored e n → Runs p (expire now e) n (Expired e n)
  unfolding expire live sound is_open
  expire-Runs now e h at =
      if-Runs (is_waiting e.state || is_admitted e.state && is_idle e.phase)
        (λ o.
          (let l : live e ≡ true = ground arith in
            let s = Stored-sound h at in
            elim (Option-cases e.expires_at) [
              | inl ne ↦ absurd (ground arith)
              | inr (t, found) ↦ bind-Runs (need-Runs e.expires_at t found h) (λ t' m nx q.
                  if-Runs (leb t' now)
                    (λ due.
                      weaken-Runs
                        (terminal-Runs e e EntryState.expired (some "ADMISSION_EXPIRED") nx.healthy
                          (rw (q.1) at) l refl refl refl
                          (EntryStep.lapsed e (some "ADMISSION_EXPIRED") o))
                        (λ a k nx' r.
                          lapsed (r.0)
                            (r.1 ∙ ap (λ x. saved (lapsed_entry e) (clear_active e x)) q.1)))
                    (λ later. pure-Runs e nx.healthy (kept refl q.1)))
            ]))
        (λ closed. pure-Runs e h (kept refl refl))

  -- A waiting entry has its place in the queue.
  waiting_rank :
      (e : Entry)
      → Healthy p n
      → Stored e n
      → is_waiting e.state ≡ true
      → (rank : ℕ) × (zrank e.admission_id n.queue ≡ some rank)
  waiting_rank e h at w = elim (Option-cases (zrank e.admission_id n.queue)) [
    | inl ne ↦
        (let there : is_some (hget e.admission_id n.queue) ≡ true =
            rw (h.indexed.queue_waits e.admission_id, at) w in
          absurd (cc (zrank-some e.admission_id n.queue there, ne)))
    | inr found ↦ found
  ]

  pub snapshot-Runs :
      (e : Entry)
      → Healthy p n
      → Stored e n
      → Runs p (snapshot e) n (λ s m. (s.entry ≡ e) × (m ≡ n))
  unfolding snapshot
  snapshot-Runs e h at =
      if-Runs (is_waiting e.state)
        (λ w.
          (let (rank, found) = waiting_rank e h at w in
            bind-Runs (gets-Runs (λ m. zrank e.admission_id m.queue) h) (λ o m nx q.
              bind-Runs (need-Runs o rank (q.0 ∙ found) nx.healthy)
                (λ r k nx' q'. pure-Runs _ nx'.healthy (refl, q'.1 ∙ q.1)))))
        (λ closed. pure-Runs _ h (refl, refl))

-- An optional entry that stands under its id.
abbrev pub StoredOptional : Option Entry → Namespace → Type 0
StoredOptional none n = Unit
StoredOptional (some e) n = Stored e n

abbrev pub ExpiredOptional : Option Entry → Namespace → Option Entry → Namespace → Type 0
ExpiredOptional none n none m = m ≡ n
ExpiredOptional (some e) n (some a) m = Expired e n a m
ExpiredOptional _ n _ m = ⊥

pub expire_optional-Runs :
    {p : Profile} {n : Namespace} (now : ℕ) (o : Option Entry)
    → Healthy p n
    → StoredOptional o n
    → Runs p (expire_optional now o) n (ExpiredOptional o n)
unfolding expire_optional
expire_optional-Runs now none h at = pure-Runs none h refl
expire_optional-Runs now (some e) h at =
    bind-Runs (expire-Runs now e h at) (λ a m nx q. pure-Runs (some a) nx.healthy q)

pub ExpiredOptional-Stored :
    (o a : Option Entry) (n m : Namespace)
    → StoredOptional o n
    → ExpiredOptional o n a m
    → StoredOptional a m
ExpiredOptional-Stored none none n m at q = tt
ExpiredOptional-Stored (some e) (some a) n m at q = Expired-Stored at q
ExpiredOptional-Stored none (some a) n m at q = absurd q
ExpiredOptional-Stored (some e) none n m at q = absurd q

pub snapshot_optional-Runs :
    {p : Profile} {n : Namespace} (o : Option Entry)
    → Healthy p n
    → StoredOptional o n
    → Runs p (snapshot_optional o) n Any
unfolding snapshot_optional
snapshot_optional-Runs none h at = pure-Runs none h tt
snapshot_optional-Runs (some e) h at =
    bind-Runs (snapshot-Runs e h at) (λ s m nx q. pure-Runs (some s) nx.healthy tt)
