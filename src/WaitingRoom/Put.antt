-- ===== src/WaitingRoom/Put.antt =====
-- An entry put in place of that of its id: when the namespace stays in order.
use peak_pass.Prelude.{
  ℕ, ◌≡◌, refl, ap, Bool, true, false, Option, none, some, ◌==◌, is_some, if◌then◌else◌, arith,
  ==→eq, Bool-cases, inl, inr,
}
use peak_pass.Redis.{hget}
use peak_pass.WaitingRoom.{Entry, Namespace}
use peak_pass.WaitingRoom.Steps.{is_claimed}
use peak_pass.WaitingRoom.Health.{
  live, when, waits, admits, sound, owned, leads, IsSound, any_entry, live_of, Indexed,
}
use peak_pass.WaitingRoom.Steps.{EntryStep, EntrySteps, here, next}

-- `after` is `n` with the entry `e` in place of that of its id, in the indexes that it belongs to.
pub record Put (e : Entry) (n after : Namespace) : Type 0 where
  pub in_entries :
      (j : ℕ) → hget j after.entries ≡ (if e.admission_id == j then some e else hget j n.entries)
  pub in_queue :
      (j : ℕ)
      → is_some (hget j after.queue)
        ≡ (if e.admission_id == j then waits e else is_some (hget j n.queue))
  pub in_leases :
      (j : ℕ)
      → is_some (hget j after.leases)
        ≡ (if e.admission_id == j then waits e else is_some (hget j n.leases))
  pub in_active :
      (j : ℕ)
      → is_some (hget j after.active)
        ≡ (if e.admission_id == j then admits e else is_some (hget j n.active))
  pub in_claims :
      (j : ℕ)
      → is_some (hget j after.claims)
        ≡ (if e.admission_id == j then is_claimed e else is_some (hget j n.claims))
  pub in_holders :
      (u : ℕ)
      → hget u after.holders ≡ (
          if e.user_id == u
          then (if live e then some e.admission_id else none)
          else hget u n.holders)

-- The user of `e` holds no other entry.
abbrev pub free_for : Entry → Option ℕ → Bool
free_for e none = true
free_for e (some id) = e.admission_id == id

-- An entry of this id is of the same user.
abbrev pub same_user : Entry → Option Entry → Bool
same_user e none = true
same_user e (some d) = d.user_id == e.user_id

-- Each entry goes some steps of its life.
abbrev pub Moves : Namespace → Namespace → Type 0
Moves n after = (id : ℕ) → EntrySteps (hget id n.entries) (hget id after.entries)

some_inj : {d e : Entry} → some d ≡ some e → d ≡ e
some_inj {d} h = ap (λ o. elim o [ none ↦ d | some x ↦ x ]) h

other_user :
    (e : Entry) (o : Option Entry) (user_id : ℕ)
    → (e.user_id == user_id) ≡ false
    → same_user e o ≡ true
    → when o (live_of user_id) ≡ true
    → live_of user_id e ≡ true
other_user e none user_id ne same h = cc
other_user e (some d) user_id ne same h = absurd (ground arith)

module _ {e : Entry} {n after : Namespace} where
  Put-IsSound :
      Put e n after
      → sound e.admission_id e ≡ true
      → free_for e (hget e.user_id n.holders) ≡ true
      → Indexed n
      → IsSound after
  Put-IsSound put s free idx id d found = elim (Bool-cases (e.admission_id == id)) [
    | inl y ↦
        (let same : e ≡ d = some_inj (ground (arith, put.in_entries id)) in
          rw (← same)
            (ground (arith, put.in_holders e.user_id, s), ground (arith, put.in_holders e.user_id)))
    | inr ne ↦
        (let old : hget id n.entries ≡ some d = ground (arith, put.in_entries id) in
          let before = idx.entries_sound id d old in
          (before.0, ground (arith, put.in_holders d.user_id, before, idx.holders_live d.user_id)))
  ]

  pub Put-leads :
      (f : Entry → Bool) (o : Option ℕ)
      → Put e n after
      → leads n.entries f o ≡ true
      → (when (hget e.admission_id n.entries) f ≡ true → f e ≡ true)
      → leads after.entries f o ≡ true
  Put-leads f none put h k = refl
  Put-leads f (some id) put h k = ground (arith, put.in_entries id)

  Put-queue :
      Put e n after
      → Indexed n
      → (id : ℕ) → is_some (hget id after.queue) ≡ when (hget id after.entries) waits
  Put-queue put idx id = ground (arith, put.in_queue id, put.in_entries id, idx.queue_waits id)

  Put-leases :
      Put e n after
      → Indexed n
      → (id : ℕ) → is_some (hget id after.leases) ≡ when (hget id after.entries) waits
  Put-leases put idx id = ground (arith, put.in_leases id, put.in_entries id, idx.leases_wait id)

  Put-active :
      Put e n after
      → Indexed n
      → (id : ℕ) → is_some (hget id after.active) ≡ when (hget id after.entries) admits
  Put-active put idx id =
      ground (arith, put.in_active id, put.in_entries id, idx.active_admitted id)

  Put-claims :
      Put e n after
      → Indexed n
      → (id : ℕ) → is_some (hget id after.claims) ≡ when (hget id after.entries) is_claimed
  Put-claims put idx id = ground (arith, put.in_claims id, put.in_entries id, idx.claims_claimed id)

  Put-holders :
      Put e n after
      → Indexed n
      → same_user e (hget e.admission_id n.entries) ≡ true
      → (user_id : ℕ) → leads after.entries (live_of user_id) (hget user_id after.holders) ≡ true
  Put-holders put idx same user_id = elim (Bool-cases (e.user_id == user_id)) [
    | inl y ↦ ground (arith, put.in_holders user_id, put.in_entries e.admission_id)
    | inr ne ↦
        (let before : hget user_id after.holders ≡ hget user_id n.holders =
            ground (arith, put.in_holders user_id) in
          rw before (
            Put-leads (live_of user_id) (hget user_id n.holders) put (idx.holders_live user_id)
              (λ h. other_user e (hget e.admission_id n.entries) user_id ne same h)))
  ]

  pub Put-Indexed :
      Put e n after
      → Indexed n
      → sound e.admission_id e ≡ true
      → free_for e (hget e.user_id n.holders) ≡ true
      → same_user e (hget e.admission_id n.entries) ≡ true
      → ((user_id : ℕ) → leads after.entries (owned user_id) (hget user_id after.latest) ≡ true)
      → ((request : ℕ) → leads after.entries any_entry (hget request after.joins) ≡ true)
      → Indexed after
  Put-Indexed put idx s free same latest joins = record {
    entries_sound = Put-IsSound put s free idx;
    queue_waits = Put-queue put idx;
    leases_wait = Put-leases put idx;
    active_admitted = Put-active put idx;
    claims_claimed = Put-claims put idx;
    holders_live = Put-holders put idx same;
    latest_owned = latest;
    joins_exist = joins;
  }

  pub Put-Moves : Put e n after → EntryStep (hget e.admission_id n.entries) (some e) → Moves n after
  Put-Moves put step id = elim (Bool-cases (e.admission_id == id)) [
    | inl y ↦
        (let same : e.admission_id ≡ id = ==→eq e.admission_id id y in
          let now : hget id after.entries ≡ some e = ground (arith, put.in_entries id) in
          rw (now, ← same) (next here step))
    | inr ne ↦
        (let before : hget id after.entries ≡ hget id n.entries =
            ground (arith, put.in_entries id) in
          rw before here)
  ]
