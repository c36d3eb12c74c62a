-- ===== src/WaitingRoom/Tick.antt =====
-- The branches `tick` and `reconcile` of the script: expiry, promotion and overdue claims.
use peak_pass.Prelude.{
  ℕ, zero, suc, ◌+◌, ◌-◌, Bool, true, false, Option, none, some, List, [], ◌∷◌, leb, ltb, length,
  if◌then◌else◌,
}
use peak_pass.Redis.{Zset, hdel, zadd, zremove_to, zup_to, ztake}
use peak_pass.WaitingRoom.{EntryState, EntryPhase, Entry, Profile, Namespace, Answer}
use peak_pass.WaitingRoom.Script.{Script, pure, gets, modify, need, ◌>>=◌, ◌>>◌}
use peak_pass.WaitingRoom.Entries.{is_idle, read, saved, expire}
use peak_pass.WaitingRoom.Finish.{in_phase}

-- The entries of the overdue leases.
unfoldable pub expire_all : ℕ → List ℕ → Script (Unit {0})
expire_all now [] = pure tt
expire_all now (id ∷ ids) = do e ← read id; expire now e; expire_all now ids

-- Whether an admitted entry is idle and overdue.
unfoldable pub overdue_idle : ℕ → Entry → Script Bool
overdue_idle now e =
    if is_idle e.phase
    then (do expires_at ← need e.expires_at; pure (leb expires_at now))
    else pure false

unfoldable pub expire_if : ℕ → Entry → Bool → ℕ → Script ℕ
expire_if now e true cleaned = do expire now e; pure (suc cleaned)
expire_if now e false cleaned = pure cleaned

-- The overdue entries among those that are admitted, while the budget lasts: what was cleaned.
unfoldable pub expire_admitted : ℕ → Profile → List ℕ → ℕ → Script ℕ
expire_admitted now p [] cleaned = pure cleaned
expire_admitted now p (id ∷ ids) cleaned = do
  after ←
      if ltb cleaned p.cleanup
      then (do e ← read id; overdue ← overdue_idle now e; expire_if now e overdue cleaned)
      else pure cleaned
  expire_admitted now p ids after

abbrev pub promoted : ℕ → Profile → Entry → Entry
promoted now p e = record e {
  state = EntryState.admitted;
  admitted_at = some now;
  expires_at = some (now + p.ttl_ms);
}

unfoldable pub admit : ℕ → Profile → ℕ → Entry → Namespace → Namespace
admit now p id e n = saved (promoted now p e) (record n {
  queue = hdel id n.queue;
  leases = hdel id n.leases;
  active = zadd id (now + p.ttl_ms) n.active;
  window = zadd id now n.window;
})

abbrev pub first_member : Zset → Option ℕ
first_member [] = none
first_member ((k, t) ∷ z) = some k

-- `n` promotions at most, from the front of the queue.
unfoldable pub promote : ℕ → Profile → ℕ → Script (List ℕ)
promote now p zero = pure []
promote now p (suc k) = do
  first ← gets (λ n. first_member n.queue)
  elim first [
    | none ↦ pure []
    | some id ↦ (do
      e ← read id
      expires_at ← need e.expires_at
      if leb expires_at now
          then pure []
          else (do modify (admit now p id e); ids ← promote now p k; pure (id ∷ ids)))
  ]

-- ZREMRANGEBYSCORE to `now - 1000`, which is negative in the first second.
abbrev pub within_second : ℕ → Zset → Zset
within_second now z = if leb 1000 now then zremove_to (now - 1000) z else z

abbrev min : ℕ → ℕ → ℕ
min a b = if leb a b then a else b

-- How many entries a tick may promote. Where the source's number is negative it is 0 here, and
-- the loop runs for neither.
abbrev pub promotions : Profile → Namespace → ℕ
promotions p n = min p.batch (min (p.rate - length n.window) (p.capacity - length n.active))

unfoldable pub tick : ℕ → Profile → Script Answer
tick now p = do
  overdue ← gets (λ n. zup_to now p.cleanup n.leases)
  expire_all now overdue
  admitted ← gets (λ n. ztake p.capacity n.active)
  cleaned ← expire_admitted now p admitted (length overdue)
  modify (λ n. record n { window = within_second now n.window })
  k ← gets (promotions p)
  ids ← if ltb cleaned p.cleanup then promote now p k else pure []
  pure (Answer.ticked ids cleaned)

unfoldable pub mark_overdue : List ℕ → Script (List Entry)
mark_overdue [] = pure []
mark_overdue (id ∷ ids) = do
  e ← read id
  modify (saved (in_phase EntryPhase.reconciling e))
  es ← mark_overdue ids
  pure (in_phase EntryPhase.reconciling e ∷ es)

unfoldable pub reconcile : ℕ → Profile → Script Answer
reconcile now p = do
  overdue ← gets (λ n. zup_to now p.reclaim n.claims)
  es ← mark_overdue overdue
  pure (Answer.claimed es)
