-- ===== src/WaitingRoom/Ends.antt =====
-- The end of an entry, which leaves the indexes and frees its user.
use peak_pass.Prelude.{
  ◌+◌, ◌≡◌, refl, true, false, ◌||◌, Option, some, is_some, if◌then◌else◌, arith, ==_refl, String,
}
use peak_pass.Redis.{hget, hdel}
use peak_pass.Redis.Laws.{hget-hset, hget-hdel, hdel-Keyed, length-hset, length-hdel}
use peak_pass.WaitingRoom.{EntryState, Entry, Profile, Namespace}
use peak_pass.WaitingRoom.Entries.{
  is_waiting, is_admitted, saved, clear_active, without_holder, ended,
}
use peak_pass.WaitingRoom.Health.{live, waits, admits, sound, Counted, Healthy}
use peak_pass.WaitingRoom.Put.{Put}
use peak_pass.WaitingRoom.Steps.{EntryStep, is_claimed}
use peak_pass.WaitingRoom.Changes.{Next, Stored, live-held, replace-Next}

-- The sum of a live entry's places in the queue and among the admitted.
live_once :
    (e : Entry) → live e ≡ true → (if waits e then 1 else 0) + (if admits e then 1 else 0) ≡ 1
unfolding live
live_once e l = ground arith

module _ (e : Entry) (state : EntryState) (reason : Option String) {n : Namespace} where
  ended-Put :
      hget e.user_id n.holders ≡ some e.admission_id
      → (is_waiting state || is_admitted state) ≡ false
      → Put (ended state reason e) n (saved (ended state reason e) (clear_active e n))
  unfolding clear_active live is_claimed
  ended-Put held over = record {
    in_entries = λ j. hget-hset e.admission_id j (ended state reason e) n.entries;
    in_queue = λ j. ground (arith, hget-hdel e.admission_id j n.queue);
    in_leases = λ j. ground (arith, hget-hdel e.admission_id j n.leases);
    in_active = λ j. ground (arith, hget-hdel e.admission_id j n.active);
    in_claims = λ j. ground (arith, hget-hdel e.admission_id j n.claims);
    in_holders = λ u.
        rw (held, over) (ground (arith, hget-hdel e.user_id u n.holders, ==_refl e.admission_id));
  }

  ended-Counted :
      {p : Profile}
      → Healthy p n
      → hget e.user_id n.holders ≡ some e.admission_id
      → is_some (hget e.admission_id n.entries) ≡ true
      → (if is_some (hget e.admission_id n.queue) then 1 else 0)
          + (if is_some (hget e.admission_id n.active) then 1 else 0)
        ≡ 1
      → is_some (hget e.admission_id n.queue) ≡ is_some (hget e.admission_id n.leases)
      → Counted p (saved (ended state reason e) (clear_active e n))
  unfolding clear_active
  ended-Counted h held there once both =
      let c = h.counted in
      let freed : without_holder (hget e.user_id n.holders) e.user_id e.admission_id n.holders
          ≡ hdel e.user_id n.holders =
        rw (held) (ground (arith, ==_refl e.admission_id)) in
      let shorter = length-hdel e.user_id n.holders c.holders_keyed in
      let queue = length-hdel e.admission_id n.queue c.queue_keyed in
      let leases = length-hdel e.admission_id n.leases c.leases_keyed in
      let active = length-hdel e.admission_id n.active c.active_keyed in
      record {
        queue_keyed = hdel-Keyed e.admission_id n.queue c.queue_keyed;
        leases_keyed = hdel-Keyed e.admission_id n.leases c.leases_keyed;
        active_keyed = hdel-Keyed e.admission_id n.active c.active_keyed;
        holders_keyed = rw (freed) (hdel-Keyed e.user_id n.holders c.holders_keyed);
        entries_counted =
            ground (
              arith,
              length-hset e.admission_id (ended state reason e) n.entries,
              c.entries_counted,
            );
        joins_counted = c.joins_counted;
        latest_counted = c.latest_counted;
        leases_counted = ground (arith, queue, leases, c.leases_counted);
        holders_counted = rw (freed) (ground (arith, shorter, queue, active, c.holders_counted));
        sequence_bounded = c.sequence_bounded;
        queue_bounded = ground (arith, queue, c.queue_bounded);
        active_bounded = ground (arith, active, c.active_bounded);
        window_bounded = c.window_bounded;
      }

  -- `d` is the stored entry, of which `e` may be a copy with an outcome.
  pub ended-Next :
      {p : Profile} {d : Entry}
      → Healthy p n
      → Stored d n
      → live d ≡ true
      → e.admission_id ≡ d.admission_id
      → e.user_id ≡ d.user_id
      → (is_waiting state || is_admitted state) ≡ false
      → EntryStep (some d) (some (ended state reason e))
      → Next p n (saved (ended state reason e) (clear_active e n))
  unfolding clear_active live sound is_claimed
  ended-Next {p} {d} h at l same user over step =
      let held : hget e.user_id n.holders ≡ some e.admission_id =
        rw (user, same) (live-held h at l) in
      let queue : is_some (hget e.admission_id n.queue) ≡ waits d =
        rw (same) (rw (at) at (h.indexed.queue_waits d.admission_id)) in
      let leases : is_some (hget e.admission_id n.leases) ≡ waits d =
        rw (same) (rw (at) at (h.indexed.leases_wait d.admission_id)) in
      let active : is_some (hget e.admission_id n.active) ≡ admits d =
        rw (same) (rw (at) at (h.indexed.active_admitted d.admission_id)) in
      replace-Next h at l same user (ground (arith, ==_refl e.admission_id)) (ended-Put held over)
        step refl refl
        (ended-Counted h held (rw (same, at) refl) (rw (queue, active) (live_once d l))
          (rw (queue, leases) refl))
