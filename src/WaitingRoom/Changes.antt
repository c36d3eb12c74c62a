-- ===== src/WaitingRoom/Changes.antt =====
-- Lemmas on a change that the script makes of an entry.
use peak_pass.Prelude.{ℕ, ◌≡◌, refl, sym, subst, true, some, arith, ==_refl}
use peak_pass.Redis.{hget}
use peak_pass.WaitingRoom.{Entry, Profile, Namespace}
use peak_pass.WaitingRoom.Health.{live, sound, owned, leads, any_entry, Counted, Healthy}
use peak_pass.WaitingRoom.Put.{Put, Moves, Put-leads, Put-Indexed, Put-Moves}
use peak_pass.WaitingRoom.Steps.{EntryStep, EntrySteps-trans, here}

-- In order after some steps of the entries.
pub record Next (p : Profile) (n after : Namespace) : Type 0 where
  pub healthy : Healthy p after
  pub moved : Moves n after

pub Next-refl : {p : Profile} {n : Namespace} → Healthy p n → Next p n n
Next-refl h = record { healthy = h; moved = λ id. here }

pub Next-trans :
    {p : Profile} {n m after : Namespace} → Next p n m → Next p m after → Next p n after
Next-trans a b = record {
  healthy = b.healthy;
  moved = λ id. EntrySteps-trans (a.moved id) (b.moved id);
}

-- The entry that stands under its id.
abbrev pub Stored : Entry → Namespace → Type 0
Stored e n = hget e.admission_id n.entries ≡ some e

module _ {p : Profile} {n : Namespace} where
  pub Stored-sound : {e : Entry} → Healthy p n → Stored e n → sound e.admission_id e ≡ true
  Stored-sound {e} h at = (h.indexed.entries_sound e.admission_id e at).0

  -- A live entry is the one that its user holds.
  pub live-held :
      {e : Entry}
      → Healthy p n
      → Stored e n
      → live e ≡ true
      → hget e.user_id n.holders ≡ some e.admission_id
  live-held {e} h at l = ground (arith, (h.indexed.entries_sound e.admission_id e at).1)

  Put-latest :
      {d e : Entry} {after : Namespace}
      → Healthy p n
      → Stored d n
      → e.admission_id ≡ d.admission_id
      → e.user_id ≡ d.user_id
      → Put e n after
      → (user_id : ℕ) → leads after.entries (owned user_id) (hget user_id n.latest) ≡ true
  Put-latest {d} {e} h at same user put user_id =
      Put-leads (owned user_id) (hget user_id n.latest) put (h.indexed.latest_owned user_id)
        (λ o. rw (user) (rw (same, at) at o))

  -- A live entry `d` is replaced by `e`.
  pub replace-Next :
      {d e : Entry} {after : Namespace}
      → Healthy p n
      → Stored d n
      → live d ≡ true
      → e.admission_id ≡ d.admission_id
      → e.user_id ≡ d.user_id
      → sound e.admission_id e ≡ true
      → Put e n after
      → EntryStep (some d) (some e)
      → after.latest ≡ n.latest
      → after.joins ≡ n.joins
      → Counted p after
      → Next p n after
  replace-Next {d} {e} h at l same user s put step latest joins counted =
      let old : hget e.admission_id n.entries ≡ some d = rw (same) at in
      let held : hget e.user_id n.holders ≡ some d.admission_id = rw (user) (live-held h at l) in
      record {
        healthy = record {
          indexed =
              Put-Indexed put h.indexed s (rw (held, same) (==_refl d.admission_id))
                (rw (old, user) (==_refl d.user_id))
                (λ user_id. rw latest (Put-latest h at same user put user_id))
                (λ request. rw joins (
                  Put-leads any_entry (hget request n.joins) put (h.indexed.joins_exist request)
                    (λ o. refl)));
          counted = counted;
        };
        moved = Put-Moves put (subst (λ o. EntryStep o (some e)) (sym old) step);
      }
