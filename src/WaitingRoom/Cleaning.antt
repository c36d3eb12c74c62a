-- ===== src/WaitingRoom/Cleaning.antt =====
-- Lemmas on the expiry of overdue entries by `tick` in a namespace in order.
use peak_pass.Prelude.{
  ℕ, ◌≡◌, refl, sym, ap, subst, ◌∙◌, Bool, true, false, Option, none, some, ◌==◌, ltb, is_some,
  arith, Option-cases, inl, inr, List, [], ◌∷◌,
}
use peak_pass.Redis.{hget, hset}
use peak_pass.Redis.Laws.{hget-hset}
use peak_pass.Redis.Members.{All, Distinct, map-All}
use peak_pass.WaitingRoom.{EntryPhase, Entry, Profile, Namespace}
use peak_pass.WaitingRoom.Script.{Script, ◌>>=◌}
use peak_pass.WaitingRoom.Entries.{is_idle, read, clear_active}
use peak_pass.WaitingRoom.Finish.{in_phase}
use peak_pass.WaitingRoom.Tick.{expire_all, overdue_idle, expire_if, expire_admitted}
use peak_pass.WaitingRoom.Health.{live, sound, when, admits, Healthy}
use peak_pass.WaitingRoom.Changes.{Stored, Stored-sound}
use peak_pass.WaitingRoom.Steps.{EntrySteps-is_some, is_claimed}
use peak_pass.WaitingRoom.Running.{Runs, Any, pure-Runs, bind-Runs, if-Runs, need_then}
use peak_pass.WaitingRoom.Expiry.{Expired, kept, lapsed, lapsed_entry, expire-Runs, read-Runs}

abbrev pub Known : List ℕ → Namespace → Type 0
Known ids n = All (λ id. is_some (hget id n.entries) ≡ true) ids

-- The entries under the ids pass the test.
abbrev pub Pass : (Entry → Bool) → List ℕ → Namespace → Type 0
Pass f ids n = All (λ id. when (hget id n.entries) f ≡ true) ids

pub when_there : (o : Option Entry) (f : Entry → Bool) → when o f ≡ true → is_some o ≡ true
when_there none f h = h
when_there (some e) f h = refl

-- An entry that is read stands under its id.
pub read_then :
    {p : Profile} {n : Namespace} {B : Type 0} {R : B → Namespace → Type 0} (id : ℕ)
    (k : Entry → Script B)
    → Healthy p n
    → is_some (hget id n.entries) ≡ true
    → ((e : Entry) → e.admission_id ≡ id → Stored e n → Runs p (k e) n R)
    → Runs p (read id >>= k) n R
read_then {p} {n} {B} {R} id k h there f = bind-Runs (read-Runs id h there) (λ e m nx q.
    subst (λ x. Runs p (k e) x R) (sym q.0) (f e q.1.1 (ap (λ x. hget x n.entries) q.1.1 ∙ q.1.0)))

pub expire_all-Runs :
    {p : Profile} {n : Namespace} (now : ℕ) (ids : List ℕ)
    → Healthy p n
    → Known ids n
    → Runs p (expire_all now ids) n Any
unfolding expire_all
expire_all-Runs now [] h k = pure-Runs tt h tt
expire_all-Runs now (id ∷ ids) h k = read_then id _ h k.0 (λ e same at.
    bind-Runs (expire-Runs now e h at) (λ a m nx q.
      expire_all-Runs now ids nx.healthy (map-All ids (λ i. EntrySteps-is_some (nx.moved i)) k.1)))

pub overdue_idle-Runs :
    {p : Profile} {n : Namespace} (now : ℕ) (e : Entry)
    → Healthy p n
    → Stored e n
    → live e ≡ true
    → Runs p (overdue_idle now e) n (λ b m. m ≡ n)
unfolding overdue_idle sound
overdue_idle-Runs now e h at l =
    let s = Stored-sound h at in
    if-Runs (is_idle e.phase)
      (λ idle. elim (Option-cases e.expires_at) [
        | inl ne ↦ absurd (ground arith)
        | inr (t, found) ↦ need_then t _ found (pure-Runs _ h refl)
      ])
      (λ busy. pure-Runs false h refl)

-- The expiry of an entry leaves the others.
pub Expired-Pass :
    {n m : Namespace} {e a : Entry} (f : Entry → Bool) (ids : List ℕ)
    → Expired e n a m
    → All (λ y. (e.admission_id == y) ≡ false) ids
    → Pass f ids n
    → Pass f ids m
unfolding clear_active
Expired-Pass f [] x u k = tt
Expired-Pass {n = n} {e = e} f (id ∷ ids) (kept same r) u k =
    subst (λ x. Pass f (id ∷ ids) x) (sym r) k
Expired-Pass {n = n} {e = e} f (id ∷ ids) (lapsed same r) u k = (
  rw (r) (rw (hget-hset e.admission_id id (lapsed_entry e) n.entries, u.0) k.0),
  Expired-Pass {e = e} f ids (lapsed same r) u.1 k.1,
)

pub expire_if-Runs :
    {p : Profile} {n : Namespace} (now : ℕ) (e : Entry) (b : Bool) (cleaned : ℕ) (ids : List ℕ)
    → Healthy p n
    → Stored e n
    → All (λ y. (e.admission_id == y) ≡ false) ids
    → Pass live ids n
    → Runs p (expire_if now e b cleaned) n (λ c m. Pass live ids m)
unfolding expire_if
expire_if-Runs now e true cleaned ids h at u k =
    bind-Runs (expire-Runs now e h at)
      (λ a m nx q. pure-Runs _ nx.healthy (Expired-Pass live ids q u k))
expire_if-Runs now e false cleaned ids h at u k = pure-Runs _ h k

pub admitted_live : (o : Option Entry) → when o admits ≡ true → when o live ≡ true
unfolding live
admitted_live none a = a
admitted_live (some e) a = ground arith

-- A claimed entry that becomes overdue is still claimed.
pub still_claimed :
    (n : Namespace) (e : Entry) (id : ℕ)
    → is_claimed e ≡ true
    → when (hget id n.entries) is_claimed ≡ true
    → when (hget id (hset e.admission_id (in_phase EntryPhase.reconciling e) n.entries)) is_claimed
      ≡ true
unfolding is_claimed
still_claimed n e id c x =
    rw (hget-hset e.admission_id id (in_phase EntryPhase.reconciling e) n.entries) (ground arith)

pub expire_admitted-Runs :
    {p : Profile} {n : Namespace} (now : ℕ) (ids : List ℕ) (cleaned : ℕ)
    → Healthy p n
    → Distinct ids
    → Pass live ids n
    → Runs p (expire_admitted now p ids cleaned) n Any
unfolding expire_admitted
expire_admitted-Runs now [] cleaned h u k = pure-Runs cleaned h tt
expire_admitted-Runs {p} {n} now (id ∷ ids) cleaned h u k =
    bind-Runs {Q = λ c m. Pass live ids m}
      (if-Runs (ltb cleaned p.cleanup)
        (λ y. read_then id _ h (when_there (hget id n.entries) live k.0) (λ e same at.
          (let found : hget id n.entries ≡ some e = ap (λ x. hget x n.entries) (sym same) ∙ at in
            let l : live e ≡ true = rw (found) at k.0 in
            bind-Runs (overdue_idle-Runs now e h at l) (λ b m nx q.
              expire_if-Runs now e b cleaned ids nx.healthy (rw (q) at) (rw (same) u.0)
                (rw (q) k.1)))))
        (λ ne. pure-Runs cleaned h k.1))
      (λ c m nx q. expire_admitted-Runs now ids c nx.healthy u.1 q)
