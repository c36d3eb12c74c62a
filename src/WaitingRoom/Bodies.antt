-- ===== src/WaitingRoom/Bodies.antt =====
-- The references and the branches of a run on a namespace in order.
use peak_pass.Prelude.{
  ℕ, ◌≡◌, refl, sym, subst, Bool, true, Option, none, some, ◌==◌, is_some, Option-cases, inl, inr,
}
use peak_pass.Redis.{Hash, hget}
use peak_pass.WaitingRoom.{Entry, Profile, Namespace, Operation, Answer}
use peak_pass.WaitingRoom.Script.{Script, ◌>>=◌}
use peak_pass.WaitingRoom.Entries.{read_optional}
use peak_pass.WaitingRoom.Run.{
  user_of, target_of, request_of, References, field, existing, references, on_target, body,
}
use peak_pass.WaitingRoom.Health.{leads, when, owned, live_of, any_entry, Healthy}
use peak_pass.WaitingRoom.Changes.{Stored}
use peak_pass.WaitingRoom.Running.{Runs, Answered, pure-Runs, bind-Runs, if-Runs, gets_then}
use peak_pass.WaitingRoom.Expiry.{same_of_sound, read-Runs, StoredOptional, snapshot_optional-Runs}
use peak_pass.WaitingRoom.Joining.{follow, status-Runs, join-Runs, cancel-Runs}
use peak_pass.WaitingRoom.Claiming.{claim-Runs, finish-Runs}
use peak_pass.WaitingRoom.Ticking.{tick-Runs, reconcile-Runs}

when_any : (o : Option Entry) (f : Entry → Bool) → when o f ≡ true → is_some o ≡ true
when_any none f h = h
when_any (some e) f h = refl

leads_any :
    (h : Hash Entry) (f : Entry → Bool) (o : Option ℕ)
    → leads h f o ≡ true
    → leads h any_entry o ≡ true
leads_any h f none e = refl
leads_any h f (some id) e = any_when (hget id h) (when_any (hget id h) f e)
  where
    any_when : (o : Option Entry) → is_some o ≡ true → when o any_entry ≡ true
    any_when none e = e
    any_when (some e) t = refl

-- A reference that leads somewhere is read.
read_optional_then :
    {p : Profile} {n : Namespace} {B : Type 0} {R : B → Namespace → Type 0} (o : Option ℕ)
    (k : Option Entry → Script B)
    → Healthy p n
    → leads n.entries any_entry o ≡ true
    → Runs p (k (follow n.entries o)) n R
    → Runs p (read_optional o >>= k) n R
unfolding read_optional
read_optional_then {p} {n} {B} {R} none k h there r =
    bind-Runs {Q = λ a m. (m ≡ n) × (a ≡ none)} (pure-Runs none h (refl, refl)) (λ a m nx q.
      subst (λ x. Runs p (k a) x R) (sym q.0) (subst (λ x. Runs p (k x) n R) (sym q.1) r))
read_optional_then {p} {n} {B} {R} (some id) k h there r =
    bind-Runs {Q = λ a m. (m ≡ n) × (a ≡ hget id n.entries)}
      (bind-Runs (read-Runs id h (when_any (hget id n.entries) any_entry there))
        (λ e m nx q. pure-Runs (some e) nx.healthy (q.0, sym q.1.0)))
      (λ a m nx q.
        subst (λ x. Runs p (k a) x R) (sym q.0) (subst (λ x. Runs p (k x) n R) (sym q.1) r))

abbrev pub referred : Operation → Namespace → References
referred op n = record {
  target = follow n.entries (existing (target_of op) n.entries);
  latest = follow n.entries (field (user_of op) n.latest);
  active = follow n.entries (field (user_of op) n.holders);
  joined = follow n.entries (field (request_of op) n.joins);
}

field-leads :
    (h : Hash Entry) (refs : Hash ℕ) (o : Option ℕ)
    → ((k : ℕ) → leads h any_entry (hget k refs) ≡ true)
    → leads h any_entry (field o refs) ≡ true
field-leads h refs none f = refl
field-leads h refs (some k) f = f k

existing-leads : (h : Hash Entry) (o : Option ℕ) → leads h any_entry (existing o h) ≡ true
existing-leads h none = refl
existing-leads h (some id) = elim (Option-cases (hget id h)) [
  | inl ne ↦ rw (ne) refl
  | inr (e, found) ↦ rw (found) (rw (found) refl)
]

pub references-Runs :
    {p : Profile} {n : Namespace} (op : Operation)
    → Healthy p n
    → Runs p (references op) n (λ r m. (m ≡ n) × (r ≡ referred op n))
unfolding references
references-Runs {p} {n} op h =
    let i = h.indexed in
    gets_then _ _ (
      read_optional_then _ _ h (existing-leads n.entries (target_of op)) (
        gets_then _ _ (
          read_optional_then _ _ h
            (field-leads n.entries n.latest (user_of op)
              (λ u. leads_any n.entries (owned u) _ (i.latest_owned u)))
            (gets_then _ _ (
              read_optional_then _ _ h
                (field-leads n.entries n.holders (user_of op)
                  (λ u. leads_any n.entries (live_of u) _ (i.holders_live u)))
                (gets_then _ _ (
                  read_optional_then _ _ h
                    (field-leads n.entries n.joins (request_of op) i.joins_exist)
                    (pure-Runs _ h (refl, refl)))))))))

follow-Stored :
    {p : Profile} (n : Namespace) (o : Option ℕ)
    → Healthy p n
    → StoredOptional (follow n.entries o) n
follow-Stored n none h = tt
follow-Stored n (some id) h = elim (Option-cases (hget id n.entries)) [
  | inl ne ↦ rw (ne) tt
  | inr (e, found) ↦ rw (found) (
      subst (λ x. hget x n.entries ≡ some e)
        (sym (same_of_sound id e (h.indexed.entries_sound id e found).0)) found)
]

on_target-Runs :
    {p : Profile} {n : Namespace} (user_id : ℕ) (o : Option Entry) (k : Entry → Script Answer)
    → Healthy p n
    → StoredOptional o n
    → ((e : Entry) → Stored e n → Runs p (k e) n Answered)
    → Runs p (on_target user_id o k) n Answered
unfolding on_target
on_target-Runs user_id none k h at f = pure-Runs _ h refl
on_target-Runs user_id (some e) k h at f =
    if-Runs (e.user_id == user_id) (λ own. f e at) (λ other. pure-Runs _ h refl)

-- The id of a new entry is one that no entry has.
abbrev pub IsFresh : Operation → Hash Entry → Type 0
IsFresh (Operation.join user_id request id) h = hget id h ≡ none
IsFresh _ h = Unit

pub body-Runs :
    {p : Profile} {n : Namespace} (now : ℕ) (op : Operation)
    → Healthy p n
    → IsFresh op n.entries
    → Runs p (body now p op (referred op n)) n Answered
unfolding body
body-Runs {n = n} now (Operation.status user_id) h fresh =
    status-Runs now _ h (follow-Stored n (hget user_id n.latest) h)
body-Runs {n = n} now (Operation.join user_id request id) h fresh =
    join-Runs now user_id request id _ _ _ h (follow-Stored n (hget user_id n.latest) h)
      (follow-Stored n (hget user_id n.holders) h) (follow-Stored n (hget request n.joins) h) refl
      refl refl fresh
body-Runs now Operation.tick h fresh = tick-Runs now h
body-Runs now Operation.reconcile h fresh = reconcile-Runs now h
body-Runs {n = n} now (Operation.inspect id) h fresh =
    bind-Runs (snapshot_optional-Runs _ h (follow-Stored n (existing (some id) n.entries) h))
      (λ s m nx q. pure-Runs _ nx.healthy refl)
body-Runs {n = n} now (Operation.cancel user_id id) h fresh =
    on_target-Runs user_id _ _ h (follow-Stored n (existing (some id) n.entries) h)
      (λ e at. cancel-Runs now e h at)
body-Runs {n = n} now (Operation.claim user_id id f token) h fresh =
    on_target-Runs user_id _ _ h (follow-Stored n (existing (some id) n.entries) h)
      (λ e at. claim-Runs now f token e h at)
body-Runs {n = n} now (Operation.complete user_id id f token o) h fresh =
    on_target-Runs user_id _ _ h (follow-Stored n (existing (some id) n.entries) h)
      (λ e at. finish-Runs (some o) f token e h at)
body-Runs {n = n} now (Operation.close user_id id f token) h fresh =
    on_target-Runs user_id _ _ h (follow-Stored n (existing (some id) n.entries) h)
      (λ e at. finish-Runs none f token e h at)
body-Runs now (Operation.initialize g r) h fresh = pure-Runs _ h refl
body-Runs now (Operation.publish g) h fresh = pure-Runs _ h refl
body-Runs now (Operation.freeze g) h fresh = pure-Runs _ h refl
body-Runs now (Operation.probe g r) h fresh = pure-Runs _ h refl
