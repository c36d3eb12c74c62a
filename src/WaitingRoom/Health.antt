-- ===== src/WaitingRoom/Health.antt =====
-- When a namespace is in order: each entry is in the indexes that its state asks for
-- and in no other, the references lead to entries of their user, and the counts agree.
use peak_pass.Prelude.{
  ℕ, ◌+◌, ◌≤◌, ◌≡◌, Bool, true, false, ◌&&◌, ◌||◌, not, Option, none, some, ◌==◌, length, is_some,
}
use peak_pass.Redis.{Hash, hget}
use peak_pass.Redis.Laws.{Keyed}
use peak_pass.WaitingRoom.{Entry, Profile, Namespace}
use peak_pass.WaitingRoom.Entries.{is_waiting, is_admitted, is_idle}
use peak_pass.WaitingRoom.Steps.{is_claimed}

unfoldable pub live : Entry → Bool
live e = is_waiting e.state || is_admitted e.state

abbrev pub when : Option Entry → (Entry → Bool) → Bool
when none f = false
when (some e) f = f e

abbrev pub waits : Entry → Bool
waits e = is_waiting e.state

abbrev pub admits : Entry → Bool
admits e = is_admitted e.state

-- An entry under its own id, with the times that the script reads of it.
unfoldable pub sound : ℕ → Entry → Bool
sound id e =
    e.admission_id == id
    && (not (live e) || is_some e.expires_at)
    && (is_idle e.phase || is_claimed e && is_some e.deadline)

abbrev pub is_id : ℕ → Option ℕ → Bool
is_id id none = false
is_id id (some j) = j == id

abbrev pub owned : ℕ → Entry → Bool
owned user_id e = e.user_id == user_id

-- An id under a reference leads to an entry that passes the test.
abbrev pub leads : Hash Entry → (Entry → Bool) → Option ℕ → Bool
leads h f none = true
leads h f (some id) = when (hget id h) f

-- The entries that are there.
abbrev pub IsSound : Namespace → Type 0
IsSound n =
    (id : ℕ) (e : Entry)
    → hget id n.entries ≡ some e
    → (sound id e ≡ true) × (not (live e) || is_id id (hget e.user_id n.holders) ≡ true)

abbrev pub any_entry : Entry → Bool
any_entry e = true

abbrev pub live_of : ℕ → Entry → Bool
live_of user_id e = live e && owned user_id e

pub record Indexed (n : Namespace) : Type 0 where
  pub entries_sound : IsSound n
  pub queue_waits : (id : ℕ) → is_some (hget id n.queue) ≡ when (hget id n.entries) waits
  pub leases_wait : (id : ℕ) → is_some (hget id n.leases) ≡ when (hget id n.entries) waits
  pub active_admitted : (id : ℕ) → is_some (hget id n.active) ≡ when (hget id n.entries) admits
  pub claims_claimed : (id : ℕ) → is_some (hget id n.claims) ≡ when (hget id n.entries) is_claimed
  pub holders_live :
      (user_id : ℕ) → leads n.entries (live_of user_id) (hget user_id n.holders) ≡ true
  pub latest_owned : (user_id : ℕ) → leads n.entries (owned user_id) (hget user_id n.latest) ≡ true
  pub joins_exist : (request : ℕ) → leads n.entries any_entry (hget request n.joins) ≡ true

pub record Counted (p : Profile) (n : Namespace) : Type 0 where
  pub queue_keyed : Keyed n.queue
  pub leases_keyed : Keyed n.leases
  pub active_keyed : Keyed n.active
  pub holders_keyed : Keyed n.holders
  pub entries_counted : length n.entries ≡ n.sequence
  pub joins_counted : length n.joins ≡ n.sequence
  pub latest_counted : length n.latest ≡ n.users
  pub leases_counted : length n.queue ≡ length n.leases
  pub holders_counted : length n.holders ≡ length n.queue + length n.active
  pub sequence_bounded : n.sequence ≤ p.max_entries
  pub queue_bounded : length n.queue ≤ p.max_waiting
  pub active_bounded : length n.active ≤ p.capacity
  pub window_bounded : length n.window ≤ p.rate

pub record Healthy (p : Profile) (n : Namespace) : Type 0 where
  pub indexed : Indexed n
  pub counted : Counted p n
