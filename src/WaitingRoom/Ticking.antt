-- ===== src/WaitingRoom/Ticking.antt =====
-- Lemmas on the promotions of `tick` and on `reconcile` in a namespace in order.
use peak_pass.Prelude.{
  ℕ, zero, suc, ◌+◌, ◌-◌, ◌≤◌, ◌≡◌, refl, sym, ap, subst, ◌∙◌, true, some, leb, ltb, is_some,
  if◌then◌else◌, arith, ==_refl, Option-cases, inl, inr, List, [], ◌∷◌, ◌++◌, length,
}
use peak_pass.Redis.{Zset, hget, hdel, zup_to, ztake}
use peak_pass.Redis.Laws.{length-zadd-le, length-zremove_to, Keyed, hdel_absent}
use peak_pass.Redis.Members.{map-All, ztake-All, zup_to-All, ztake-Distinct}
use peak_pass.WaitingRoom.{Entry, Profile, Namespace, Answer}
use peak_pass.WaitingRoom.Script.{pure, gets, modify, ◌>>=◌}
use peak_pass.WaitingRoom.Entries.{is_waiting}
use peak_pass.WaitingRoom.Tick.{
  expire_admitted, admit, first_member, promote, within_second, promotions, tick, mark_overdue,
  reconcile,
}
use peak_pass.WaitingRoom.Health.{live, sound, when, waits, Healthy}
use peak_pass.WaitingRoom.Changes.{Next, Stored, Stored-sound}
use peak_pass.WaitingRoom.Updates.{admit-Next, overdue-Next}
use peak_pass.WaitingRoom.Entering.{window-Next}
use peak_pass.WaitingRoom.Steps.{is_claimed}
use peak_pass.WaitingRoom.Running.{
  Runs, Any, Answered, pure-Runs, bind-Runs, weaken-Runs, if-Runs, gets_then, need_then,
  modify_then,
}
use peak_pass.WaitingRoom.Cleaning.{
  Pass, when_there, read_then, expire_all-Runs, admitted_live, still_claimed, expire_admitted-Runs,
}

first_member-some : (z : Zset) (id : ℕ) → first_member z ≡ some id → is_some (hget id z) ≡ true
unfolding hget
first_member-some [] id e = absurd (cc e)
first_member-some ((j, t) ∷ z) id e = ground (arith, ==_refl id)

waiting_expires :
    {p : Profile} {n : Namespace} (e : Entry)
    → Healthy p n
    → Stored e n
    → is_waiting e.state ≡ true
    → (t : ℕ) × (e.expires_at ≡ some t)
unfolding live sound
waiting_expires e h at w =
    let s = Stored-sound h at in
    elim (Option-cases e.expires_at) [ inl ne ↦ absurd (ground arith) | inr found ↦ found ]

-- The front of the queue waits.
first_waiting :
    {p : Profile} {n : Namespace} (id : ℕ)
    → Healthy p n
    → first_member n.queue ≡ some id
    → when (hget id n.entries) waits ≡ true
first_waiting {p} {n} id h front =
    sym (h.indexed.queue_waits id) ∙ first_member-some n.queue id front

-- Places for `k` promotions.
abbrev pub Places : Profile → Namespace → ℕ → Type 0
Places p n k = (length n.active + k ≤ p.capacity) × (length n.window + k ≤ p.rate)

-- A promotion takes one place at most.
admit-active :
    (p : Profile) (n : Namespace) (now k id : ℕ) (e : Entry)
    → Places p n (suc k)
    → Places p (admit now p id e n) k
unfolding admit
admit-active p n now k id e room = (
  ground (arith, length-zadd-le id (now + p.ttl_ms) n.active, room.0),
  ground (arith, length-zadd-le id now n.window, room.1),
)

-- The members of a sorted set, in order.
abbrev pub members : Zset → List ℕ
members [] = []
members ((id, t) ∷ z) = id ∷ members z

first_removed :
    (z : Zset) (id : ℕ) → Keyed z → first_member z ≡ some id → id ∷ members (hdel id z) ≡ members z
unfolding hdel
first_removed [] id u e = absurd (cc e)
first_removed ((j, t) ∷ z) id u e =
    let same : j ≡ id = ground arith in
    let removed : hdel id ((j, t) ∷ z) ≡ z = ground (arith, hdel_absent j z u.0) in
    rw (removed, same) refl

-- The promoted are taken from the front of the queue.
pub promote-Runs :
    {p : Profile} (now k : ℕ) (n : Namespace)
    → Healthy p n
    → Places p n k
    → Runs p (promote now p k) n (λ ids m. ids ++ members m.queue ≡ members n.queue)
unfolding promote admit
promote-Runs now zero n h room = pure-Runs [] h refl
promote-Runs {p} now (suc k) n h room =
    gets_then (λ m. first_member m.queue) _
      (elim (Option-cases (first_member n.queue)) [
        | inl ne ↦ rw (ne) (pure-Runs [] h refl)
        | inr (id, front) ↦
            (let waits_there = first_waiting id h front in
              rw (front) (
                read_then id _ h (when_there (hget id n.entries) waits waits_there) (λ e same at.
                  (let found : hget id n.entries ≡ some e =
                      ap (λ x. hget x n.entries) (sym same) ∙ at in
                    let w : is_waiting e.state ≡ true = rw (found) at waits_there in
                    let (t, expires) = waiting_expires e h at w in
                    need_then t _ expires (
                      if-Runs (leb t now) (λ y. pure-Runs [] h refl)
                        (λ ne.
                          (let step =
                              subst (λ x. Next p n (admit now p x e n)) same
                                (admit-Next h at now w (ground (arith, room.0))
                                  (ground (arith, room.1))) in
                            modify_then _ _ step (
                              bind-Runs
                                (promote-Runs now k _ step.healthy
                                  (admit-active p n now k id e room))
                                (λ ids m nx q. pure-Runs _ nx.healthy (
                                  ap (λ x. id ∷ x) q
                                  ∙ first_removed n.queue id h.counted.queue_keyed front))))))))))
      ])

some_promoted :
    (p : Profile) (n : Namespace)
    → length n.active ≤ p.capacity
    → length n.window ≤ p.rate
    → Places p n (promotions p n)
some_promoted p n c w = (ground arith, ground arith)

pruned :
    {p : Profile} (now : ℕ) (n : Namespace)
    → Healthy p n
    → Next p n (record n { window = within_second now n.window })
pruned now n h =
    window-Next _ h
      (ground (arith, length-zremove_to (now - 1000) n.window, h.counted.window_bounded))

pub tick-Runs :
    {p : Profile} {n : Namespace} (now : ℕ) → Healthy p n → Runs p (tick now p) n Answered
unfolding tick
tick-Runs {p} {n} now h =
    gets_then (λ m. zup_to now p.cleanup m.leases) _
      (bind-Runs
        (expire_all-Runs now (zup_to now p.cleanup n.leases) h (
          zup_to-All now p.cleanup n.leases (λ id there.
            when_there (hget id n.entries) waits (sym (h.indexed.leases_wait id) ∙ there))))
        (λ t m nx q. after_leases (length (zup_to now p.cleanup n.leases)) m nx.healthy))
  where
    promoting :
        (cleaned : ℕ) (m : Namespace)
        → Healthy p m
        → Runs p
            ((if ltb cleaned p.cleanup then promote now p (promotions p m) else pure []) >>= λ ids.
              pure (Answer.ticked ids cleaned))
            m
            Answered
    promoting cleaned m h =
        bind-Runs {Q = Any}
          (if-Runs (ltb cleaned p.cleanup)
            (λ y.
              weaken-Runs
                (promote-Runs now (promotions p m) m h
                  (some_promoted p m h.counted.active_bounded h.counted.window_bounded))
                (λ a k nx q. tt))
            (λ ne. pure-Runs [] h tt))
          (λ ids k nx q. pure-Runs _ nx.healthy refl)

    after_leases :
        (cleaned : ℕ) (m : Namespace)
        → Healthy p m
        → Runs p
            (gets (λ x. ztake p.capacity x.active) >>= λ admitted.
              expire_admitted now p admitted cleaned >>= λ c.
              modify (λ x. record x { window = within_second now x.window }) >>= λ t.
              gets (promotions p) >>= λ k.
              (if ltb c p.cleanup then promote now p k else pure []) >>= λ ids.
              pure (Answer.ticked ids c))
            m
            Answered
    after_leases cleaned m h =
        gets_then (λ x. ztake p.capacity x.active) _
          (bind-Runs
            (expire_admitted-Runs now (ztake p.capacity m.active) cleaned h
              (ztake-Distinct p.capacity m.active h.counted.active_keyed)
              (ztake-All p.capacity m.active (λ id there.
                admitted_live (hget id m.entries) (sym (h.indexed.active_admitted id) ∙ there))))
            (λ c k nx q.
              modify_then _ _ (pruned now k nx.healthy)
                (gets_then (promotions p) _ (promoting c _ (pruned now k nx.healthy).healthy))))

mark_overdue-Runs :
    {p : Profile} (ids : List ℕ) (n : Namespace)
    → Healthy p n
    → Pass is_claimed ids n
    → Runs p (mark_overdue ids) n Any
unfolding mark_overdue
mark_overdue-Runs [] n h k = pure-Runs [] h tt
mark_overdue-Runs {p} (id ∷ ids) n h k =
    read_then id _ h (when_there (hget id n.entries) is_claimed k.0) (λ e same at.
      (let found : hget id n.entries ≡ some e = ap (λ x. hget x n.entries) (sym same) ∙ at in
        let c : is_claimed e ≡ true = rw (found) at k.0 in
        let step = overdue-Next h at c in
        modify_then _ _ step (
          bind-Runs
            (mark_overdue-Runs ids _ step.healthy
              (map-All ids (λ i x. still_claimed n e i c x) k.1))
            (λ es m nx q. pure-Runs _ nx.healthy tt))))

pub reconcile-Runs :
    {p : Profile} {n : Namespace} (now : ℕ) → Healthy p n → Runs p (reconcile now p) n Answered
unfolding reconcile
reconcile-Runs {p} {n} now h =
    gets_then (λ m. zup_to now p.reclaim m.claims) _
      (bind-Runs
        (mark_overdue-Runs (zup_to now p.reclaim n.claims) n h (
          zup_to-All now p.reclaim n.claims
            (λ id there. sym (h.indexed.claims_claimed id) ∙ there)))
        (λ es m nx q. pure-Runs _ nx.healthy refl))
