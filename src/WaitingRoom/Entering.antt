-- ===== src/WaitingRoom/Entering.antt =====
-- A new entry, and the requests that leave the window of a second.
use peak_pass.Prelude.{
  ℕ, suc, ◌+◌, ◌≤◌, ◌≡◌, refl, sym, subst, Bool, true, false, not, none, some, ◌==◌, length,
  is_some, if◌then◌else◌, arith, ==→eq, ==_refl, Bool-cases, inl, inr,
}
use peak_pass.Redis.{Hash, hget, hset}
use peak_pass.Redis.Laws.{hget-hset, hget-zadd, hset-Keyed, zadd-Keyed, length-hset, length-zadd}
use peak_pass.WaitingRoom.{Entry, Profile, Namespace}
use peak_pass.WaitingRoom.Health.{
  live, when, admits, sound, owned, leads, any_entry, Counted, Healthy,
}
use peak_pass.WaitingRoom.Put.{Put, Put-leads, Put-Indexed, Put-Moves}
use peak_pass.WaitingRoom.Steps.{EntryStep, here, is_claimed}
use peak_pass.WaitingRoom.Requests.{new_entry, enter}
use peak_pass.WaitingRoom.Changes.{Next}

module _ {p : Profile} {n : Namespace} (h : Healthy p n) (now user_id request id : ℕ) where
  abbrev e : Entry
  e = new_entry now p user_id id (suc n.sequence)

  abbrev after : Namespace
  after = enter now p user_id request id (suc n.sequence) (not (is_some (hget user_id n.latest))) n

  absent_at :
      (b : ℕ → Bool) (f : Entry → Bool)
      → ((j : ℕ) → b j ≡ when (hget j n.entries) f)
      → hget id n.entries ≡ none
      → (j : ℕ) → b j ≡ (if id == j then false else b j)
  absent_at b f g fresh j = elim (Bool-cases (id == j)) [
    | inl y ↦ (let same : id ≡ j = ==→eq id j y in rw (y) (rw (← same) (rw (g id, fresh) refl)))
    | inr ne ↦ rw (ne) refl
  ]

  enter-Put : hget id n.entries ≡ none → Put e n after
  unfolding enter live is_claimed
  enter-Put fresh = record {
    in_entries = λ j. hget-hset id j e n.entries;
    in_queue = λ j. ground (arith, hget-zadd id j (suc n.sequence) n.queue);
    in_leases = λ j. ground (arith, hget-zadd id j (now + p.lease_ms) n.leases);
    in_active = absent_at (λ j. is_some (hget j n.active)) admits h.indexed.active_admitted fresh;
    in_claims =
        absent_at (λ j. is_some (hget j n.claims)) is_claimed h.indexed.claims_claimed fresh;
    in_holders = λ u. hget-hset user_id u id n.holders;
  }

  enter-Counted :
      hget id n.entries ≡ none
      → hget request n.joins ≡ none
      → hget user_id n.holders ≡ none
      → length n.queue + 1 ≤ p.max_waiting
      → n.sequence + 1 ≤ p.max_entries
      → Counted p after
  unfolding enter
  enter-Counted fresh new free room left =
      let c = h.counted in
      let queue = length-zadd id (suc n.sequence) n.queue c.queue_keyed in
      let leases = length-zadd id (now + p.lease_ms) n.leases c.leases_keyed in
      let no_queue : is_some (hget id n.queue) ≡ false =
        rw (h.indexed.queue_waits id, fresh) refl in
      let no_lease : is_some (hget id n.leases) ≡ false =
        rw (h.indexed.leases_wait id, fresh) refl in
      let holders = length-hset user_id id n.holders in
      record {
        queue_keyed = zadd-Keyed id (suc n.sequence) n.queue c.queue_keyed;
        leases_keyed = zadd-Keyed id (now + p.lease_ms) n.leases c.leases_keyed;
        active_keyed = c.active_keyed;
        holders_keyed = hset-Keyed user_id id n.holders c.holders_keyed;
        entries_counted = ground (arith, length-hset id e n.entries, c.entries_counted);
        joins_counted = ground (arith, length-hset request id n.joins, c.joins_counted);
        latest_counted = ground (arith, length-hset user_id id n.latest, c.latest_counted);
        leases_counted = ground (arith, c.leases_counted);
        holders_counted = ground (arith, c.holders_counted);
        sequence_bounded = omega arith;
        queue_bounded = ground arith;
        active_bounded = c.active_bounded;
        window_bounded = c.window_bounded;
      }

  -- A reference to the new entry among others.
  enter-leads :
      (f : ℕ → Entry → Bool) (key : ℕ) (refs : Hash ℕ)
      → Put e n after
      → hget id n.entries ≡ none
      → ((u : ℕ) → leads n.entries (f u) (hget u refs) ≡ true)
      → f key e ≡ true
      → (u : ℕ) → leads after.entries (f u) (hget u (hset key id refs)) ≡ true
  enter-leads f key refs put fresh g new u = elim (Bool-cases (key == u)) [
    | inl y ↦
        (let same : key ≡ u = ==→eq key u y in
          let now_at : hget id after.entries ≡ some e = rw (put.in_entries id, ==_refl id) refl in
          rw (hget-hset key u id refs, y) (rw (now_at) (rw (← same) new)))
    | inr ne ↦
        rw (hget-hset key u id refs, ne)
          (Put-leads (f u) (hget u refs) put (g u) (λ o. absurd (cc (rw (fresh) at o))))
  ]

  pub enter-Next :
      hget id n.entries ≡ none
      → hget request n.joins ≡ none
      → hget user_id n.holders ≡ none
      → length n.queue + 1 ≤ p.max_waiting
      → n.sequence + 1 ≤ p.max_entries
      → Next p n after
  unfolding enter live sound
  enter-Next fresh new free room left =
      let put = enter-Put fresh in
      record {
        healthy = record {
          indexed =
              Put-Indexed put h.indexed (ground (arith, ==_refl id)) (rw (free) refl)
                (rw (fresh) refl)
                (enter-leads owned user_id n.latest put fresh h.indexed.latest_owned
                  (==_refl user_id))
                (enter-leads (λ u. any_entry) request n.joins put fresh h.indexed.joins_exist refl);
          counted = enter-Counted fresh new free room left;
        };
        moved =
            Put-Moves put
              (subst (λ o. EntryStep o (some e)) (sym fresh) (EntryStep.entered e refl refl));
      }

-- The requests of the window are read by `tick` alone.
pub window-Next :
    {p : Profile} {n : Namespace} (z : Hash ℕ)
    → Healthy p n
    → length z ≤ p.rate
    → Next p n (record n { window = z })
window-Next z h shorter =
    let i = h.indexed in
    let c = h.counted in
    record {
      healthy = record {
        indexed = record {
          entries_sound = i.entries_sound;
          queue_waits = i.queue_waits;
          leases_wait = i.leases_wait;
          active_admitted = i.active_admitted;
          claims_claimed = i.claims_claimed;
          holders_live = i.holders_live;
          latest_owned = i.latest_owned;
          joins_exist = i.joins_exist;
        };
        counted = record {
          queue_keyed = c.queue_keyed;
          leases_keyed = c.leases_keyed;
          active_keyed = c.active_keyed;
          holders_keyed = c.holders_keyed;
          entries_counted = c.entries_counted;
          joins_counted = c.joins_counted;
          latest_counted = c.latest_counted;
          leases_counted = c.leases_counted;
          holders_counted = c.holders_counted;
          sequence_bounded = c.sequence_bounded;
          queue_bounded = c.queue_bounded;
          active_bounded = c.active_bounded;
          window_bounded = shorter;
        };
      };
      moved = λ id. here;
    }
