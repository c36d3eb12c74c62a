-- ===== src/WaitingRoom/Updates.antt =====
-- The changes of a live entry that leave it live: its lease starts again, it is admitted, a
-- purchase claims it, and the claim becomes overdue.
use peak_pass.Prelude.{
  ℕ, ◌+◌, ◌≤◌, ◌≡◌, refl, Bool, true, false, some, ◌==◌, length, is_some, if◌then◌else◌, arith,
  ==→eq, Bool-cases, inl, inr,
}
use peak_pass.Model.Admission.{Fingerprint}
use peak_pass.Redis.{Zset, hget, hset, zadd}
use peak_pass.Redis.Laws.{
  hget-hset, hget-hdel, hget-zadd, hdel-Keyed, zadd-Keyed, length-hset, length-hdel, length-zadd,
  length-zadd-le,
}
use peak_pass.WaitingRoom.{EntryPhase, Entry, Profile, Namespace}
use peak_pass.WaitingRoom.Entries.{is_waiting, is_admitted, is_idle, saved}
use peak_pass.WaitingRoom.Health.{live, when, waits, admits, sound, Counted, Healthy}
use peak_pass.WaitingRoom.Put.{Put}
use peak_pass.WaitingRoom.Steps.{EntryStep, is_claimed}
use peak_pass.WaitingRoom.Requests.{renewed}
use peak_pass.WaitingRoom.Tick.{promoted, admit}
use peak_pass.WaitingRoom.Finish.{in_phase, approved}
use peak_pass.WaitingRoom.Changes.{Next, Stored, Stored-sound, live-held, replace-Next}

abbrev pub with_lease : ℕ → Profile → Entry → Namespace → Namespace
with_lease now p e n = record (saved (renewed now p e) n) {
  leases = zadd e.admission_id (now + p.lease_ms) n.leases;
}

abbrev pub with_claim : ℕ → Profile → Entry → Entry → Namespace → Namespace
with_claim now p d e n =
    saved e (record n { claims = zadd d.admission_id (now + p.claim_ms) n.claims })

module _ {p : Profile} {n : Namespace} {d : Entry} (h : Healthy p n) (at : Stored d n) where
  in_index :
      (f : Entry → Bool) (b : ℕ → Bool)
      → ((id : ℕ) → b id ≡ when (hget id n.entries) f)
      → b d.admission_id ≡ f d
  in_index f b g = rw (at) at (g d.admission_id)

  -- What stands of a live entry, for its user and its id.
  held_by :
      live d ≡ true
      → (u : ℕ)
      → hget u n.holders ≡ (if d.user_id == u then some d.admission_id else hget u n.holders)
  held_by l u = elim (Bool-cases (d.user_id == u)) [
    | inl y ↦
        (let same : d.user_id ≡ u = ==→eq d.user_id u y in rw (y) (rw (← same) (live-held h at l)))
    | inr ne ↦ rw (ne) refl
  ]

  same_at :
      (x : Bool) (b : ℕ → Bool)
      → b d.admission_id ≡ x
      → (j : ℕ) → b j ≡ (if d.admission_id == j then x else b j)
  same_at x b e j = elim (Bool-cases (d.admission_id == j)) [
    | inl y ↦ (let same : d.admission_id ≡ j = ==→eq d.admission_id j y in rw (y) (rw (← same) e))
    | inr ne ↦ rw (ne) refl
  ]

  stored_count :
      (e : Entry)
      → e.admission_id ≡ d.admission_id
      → length (hset e.admission_id e n.entries) ≡ n.sequence
  stored_count e same =
      ground (arith, length-hset e.admission_id e n.entries, h.counted.entries_counted)

  pub renewed-Next : (now : ℕ) → is_waiting d.state ≡ true → Next p n (with_lease now p d n)
  unfolding live sound is_claimed
  renewed-Next now w =
      let c = h.counted in
      let s : sound d.admission_id d ≡ true = Stored-sound h at in
      let l : live d ≡ true = ground arith in
      let there : is_some (hget d.admission_id n.leases) ≡ true =
        rw (w) at (in_index waits _ h.indexed.leases_wait) in
      replace-Next {e = renewed now p d} h at l refl refl (ground arith)
        (record {
          in_entries = λ j. hget-hset d.admission_id j (renewed now p d) n.entries;
          in_queue =
              same_at _ _ (in_index waits (λ id. is_some (hget id n.queue)) h.indexed.queue_waits);
          in_leases = λ j. ground (arith, hget-zadd d.admission_id j (now + p.lease_ms) n.leases);
          in_active =
              same_at _ _
                (in_index admits (λ id. is_some (hget id n.active)) h.indexed.active_admitted);
          in_claims =
              same_at _ _
                (in_index is_claimed (λ id. is_some (hget id n.claims)) h.indexed.claims_claimed);
          in_holders = λ u. rw (w) (held_by l u);
        })
        (EntryStep.renewed d (now + p.lease_ms) w) refl refl
        (record {
          queue_keyed = c.queue_keyed;
          leases_keyed = zadd-Keyed d.admission_id (now + p.lease_ms) n.leases c.leases_keyed;
          active_keyed = c.active_keyed;
          holders_keyed = c.holders_keyed;
          entries_counted = stored_count (renewed now p d) refl;
          joins_counted = c.joins_counted;
          latest_counted = c.latest_counted;
          leases_counted = ground (
            arith,
            length-zadd d.admission_id (now + p.lease_ms) n.leases c.leases_keyed,
            c.leases_counted,
          );
          holders_counted = c.holders_counted;
          sequence_bounded = c.sequence_bounded;
          queue_bounded = c.queue_bounded;
          active_bounded = c.active_bounded;
          window_bounded = c.window_bounded;
        })

  -- A change of the entry and of the claims alone.
  claims_Counted :
      (e : Entry) (z : Zset)
      → e.admission_id ≡ d.admission_id
      → Counted p (saved e (record n { claims = z }))
  claims_Counted e z same =
      let c = h.counted in
      record {
        queue_keyed = c.queue_keyed;
        leases_keyed = c.leases_keyed;
        active_keyed = c.active_keyed;
        holders_keyed = c.holders_keyed;
        entries_counted = stored_count e same;
        joins_counted = c.joins_counted;
        latest_counted = c.latest_counted;
        leases_counted = c.leases_counted;
        holders_counted = c.holders_counted;
        sequence_bounded = c.sequence_bounded;
        queue_bounded = c.queue_bounded;
        active_bounded = c.active_bounded;
        window_bounded = c.window_bounded;
      }

  pub approved-Next :
      (now : ℕ) (f : Fingerprint) (token : ℕ)
      → is_admitted d.state ≡ true
      → is_idle d.phase ≡ true
      → Next p n (with_claim now p d (approved now p f token d) n)
  unfolding live sound is_claimed
  approved-Next now f token a idle =
      let s : sound d.admission_id d ≡ true = Stored-sound h at in
      let l : live d ≡ true = ground arith in
      let w : is_waiting d.state ≡ false = ground arith in
      replace-Next {e = approved now p f token d} h at l refl refl (ground arith)
        (record {
          in_entries = λ j. hget-hset d.admission_id j (approved now p f token d) n.entries;
          in_queue =
              same_at _ _ (in_index waits (λ id. is_some (hget id n.queue)) h.indexed.queue_waits);
          in_leases =
              same_at _ _ (in_index waits (λ id. is_some (hget id n.leases)) h.indexed.leases_wait);
          in_active =
              same_at _ _
                (in_index admits (λ id. is_some (hget id n.active)) h.indexed.active_admitted);
          in_claims = λ j. ground (arith, hget-zadd d.admission_id j (now + p.claim_ms) n.claims);
          in_holders = λ u. rw (a, w) (held_by l u);
        })
        (EntryStep.approved d f token (now + p.claim_ms) a idle) refl refl
        (claims_Counted (approved now p f token d) _ refl)

  pub overdue-Next : is_claimed d ≡ true → Next p n (saved (in_phase EntryPhase.reconciling d) n)
  unfolding live sound is_claimed
  overdue-Next claimed =
      let s : sound d.admission_id d ≡ true = Stored-sound h at in
      let l : live d ≡ true = ground arith in
      let w : is_waiting d.state ≡ false = ground arith in
      let a : is_admitted d.state ≡ true = ground arith in
      replace-Next {e = in_phase EntryPhase.reconciling d} h at l refl refl (ground arith)
        (record {
          in_entries =
              λ j. hget-hset d.admission_id j (in_phase EntryPhase.reconciling d) n.entries;
          in_queue =
              same_at _ _ (in_index waits (λ id. is_some (hget id n.queue)) h.indexed.queue_waits);
          in_leases =
              same_at _ _ (in_index waits (λ id. is_some (hget id n.leases)) h.indexed.leases_wait);
          in_active =
              same_at _ _
                (in_index admits (λ id. is_some (hget id n.active)) h.indexed.active_admitted);
          in_claims =
              same_at _ (λ id. is_some (hget id n.claims))
                (rw
                  (in_index is_claimed (λ id. is_some (hget id n.claims)) h.indexed.claims_claimed)
                  (ground arith));
          in_holders = λ u. rw (a, w) (held_by l u);
        })
        (EntryStep.overdue d claimed) refl refl
        (claims_Counted (in_phase EntryPhase.reconciling d) n.claims refl)

  admit-Put :
      (now : ℕ)
      → is_waiting d.state ≡ true
      → is_idle d.phase ≡ true
      → live d ≡ true
      → Put (promoted now p d) n (admit now p d.admission_id d n)
  unfolding admit live is_claimed
  admit-Put now w idle l = record {
    in_entries = λ j. hget-hset d.admission_id j (promoted now p d) n.entries;
    in_queue = λ j. ground (arith, hget-hdel d.admission_id j n.queue);
    in_leases = λ j. ground (arith, hget-hdel d.admission_id j n.leases);
    in_active = λ j. ground (arith, hget-zadd d.admission_id j (now + p.ttl_ms) n.active);
    in_claims =
        same_at _ (λ id. is_some (hget id n.claims))
          (rw (in_index is_claimed (λ id. is_some (hget id n.claims)) h.indexed.claims_claimed)
            (ground arith));
    in_holders = λ u. held_by l u;
  }

  admit-Counted :
      (now : ℕ)
      → is_waiting d.state ≡ true
      → length n.active + 1 ≤ p.capacity
      → length n.window + 1 ≤ p.rate
      → Counted p (admit now p d.admission_id d n)
  unfolding admit
  admit-Counted now w free slot =
      let c = h.counted in
      let in_queue : is_some (hget d.admission_id n.queue) ≡ true =
        rw (w) at (in_index waits (λ id. is_some (hget id n.queue)) h.indexed.queue_waits) in
      let in_leases : is_some (hget d.admission_id n.leases) ≡ true =
        rw (w) at (in_index waits (λ id. is_some (hget id n.leases)) h.indexed.leases_wait) in
      let not_active : is_some (hget d.admission_id n.active) ≡ false =
        rw (in_index admits (λ id. is_some (hget id n.active)) h.indexed.active_admitted)
          (ground arith) in
      let queue = length-hdel d.admission_id n.queue c.queue_keyed in
      let leases = length-hdel d.admission_id n.leases c.leases_keyed in
      let active = length-zadd d.admission_id (now + p.ttl_ms) n.active c.active_keyed in
      record {
        queue_keyed = hdel-Keyed d.admission_id n.queue c.queue_keyed;
        leases_keyed = hdel-Keyed d.admission_id n.leases c.leases_keyed;
        active_keyed = zadd-Keyed d.admission_id (now + p.ttl_ms) n.active c.active_keyed;
        holders_keyed = c.holders_keyed;
        entries_counted = stored_count (promoted now p d) refl;
        joins_counted = c.joins_counted;
        latest_counted = c.latest_counted;
        leases_counted = ground (arith, c.leases_counted);
        holders_counted = ground (arith, c.holders_counted);
        sequence_bounded = c.sequence_bounded;
        queue_bounded = ground (arith, c.queue_bounded);
        active_bounded = ground arith;
        window_bounded = ground (arith, length-zadd-le d.admission_id now n.window);
      }

  pub admit-Next :
      (now : ℕ)
      → is_waiting d.state ≡ true
      → length n.active + 1 ≤ p.capacity
      → length n.window + 1 ≤ p.rate
      → Next p n (admit now p d.admission_id d n)
  unfolding admit live sound is_claimed
  admit-Next now w free slot =
      let s : sound d.admission_id d ≡ true = Stored-sound h at in
      let l : live d ≡ true = ground arith in
      let idle : is_idle d.phase ≡ true = ground arith in
      replace-Next {e = promoted now p d} h at l refl refl (ground arith) (admit-Put now w idle l)
        (EntryStep.promoted d now (now + p.ttl_ms) w) refl refl (admit-Counted now w free slot)
