-- ===== src/WaitingRoom/Claiming.antt =====
-- Lemmas on `claim`, `complete` and `close` in a namespace in order.
use peak_pass.Prelude.{
  ℕ, ◌≡◌, refl, true, ◌||◌, not, Option, none, some, leb, arith, ==_refl, Option-cases, inl, inr,
  Bool-cases,
}
use peak_pass.Model.Admission.{Fingerprint, AdmissionOutcome}
use peak_pass.Redis.Laws.{hget-hset}
use peak_pass.WaitingRoom.{EntryState, Entry, Profile, Namespace, Answer}
use peak_pass.WaitingRoom.Script.{pure, ◌>>=◌}
use peak_pass.WaitingRoom.Entries.{is_admitted, is_idle, snapshot}
use peak_pass.WaitingRoom.Finish.{
  other_fingerprint, same_claim, approved, claim_admitted, claim_in, claim, with_outcome,
  finish_admitted, is_finished, finish,
}
use peak_pass.WaitingRoom.Health.{live, sound, Healthy}
use peak_pass.WaitingRoom.Changes.{Stored, Stored-sound}
use peak_pass.WaitingRoom.Updates.{with_claim, approved-Next, overdue-Next}
use peak_pass.WaitingRoom.Steps.{EntryStep, is_claimed}
use peak_pass.WaitingRoom.Running.{
  Runs, Answered, pure-Runs, bind-Runs, weaken-Runs, if-Runs, need_then, modify_then, two_then,
}
use peak_pass.WaitingRoom.Expiry.{
  terminal-Runs, Expired-Stored, expire-Runs, snapshot-Runs, entry_after,
}

-- An answer with the entry.
pub show-Runs :
    {p : Profile} {n : Namespace} (e : Entry)
    → Healthy p n
    → Stored e n
    → Runs p (snapshot e >>= λ s. pure (Answer.shown (some s) none)) n Answered
show-Runs e h at = bind-Runs (snapshot-Runs e h at) (λ s m nx q. pure-Runs _ nx.healthy refl)

approved_at :
    (p : Profile) (n : Namespace) (now : ℕ) (f : Fingerprint) (token : ℕ) (e : Entry)
    → Stored (approved now p f token e) (with_claim now p e (approved now p f token e) n)
approved_at p n now f token e =
    rw
      (
        hget-hset e.admission_id e.admission_id (approved now p f token e) n.entries,
        ==_refl e.admission_id,
      )
      refl

claim_admitted-Runs :
    {p : Profile} {n : Namespace} (now : ℕ) (f : Fingerprint) (token : ℕ) (e : Entry)
    → Healthy p n
    → Stored e n
    → is_admitted e.state ≡ true
    → Runs p (claim_admitted now p f token e) n Answered
unfolding claim_admitted sound is_claimed
claim_admitted-Runs {p} {n} now f token e h at a = elim (Bool-cases (is_idle e.phase)) [
  | inl idle ↦
      (let step = approved-Next h at now f token a idle in
        rw (idle) (
          two_then _ _ _ step
            (show-Runs (approved now p f token e) step.healthy (approved_at p n now f token e))))
  | inr busy ↦
      (let s = Stored-sound h at in
        elim (Option-cases e.deadline) [
          | inl ne ↦ absurd (ground arith)
          | inr (t, found) ↦ rw (busy) (
              need_then t _ found (
                if-Runs (leb t now)
                  (λ due.
                    modify_then _ _ (overdue-Next h at (ground arith))
                      (pure-Runs _ (overdue-Next h at (ground arith)).healthy refl))
                  (λ later. show-Runs e h at)))
        ])
]

pub claim-Runs :
    {p : Profile} {n : Namespace} (now : ℕ) (f : Fingerprint) (token : ℕ) (e : Entry)
    → Healthy p n
    → Stored e n
    → Runs p (claim now p f token e) n Answered
unfolding claim claim_in
claim-Runs {p} now f token e h at = bind-Runs (expire-Runs now e h at) (λ a m nx q.
    if-Runs (other_fingerprint a.fingerprint f) (λ y. pure-Runs _ nx.healthy refl)
      (λ same. by_state a.state a m nx.healthy (Expired-Stored at q) refl))
  where
    by_state :
        (state : EntryState) (a : Entry) (m : Namespace)
        → Healthy p m
        → Stored a m
        → a.state ≡ state
        → Runs p (claim_in state now p f token a) m Answered
    by_state EntryState.waiting a m h at s = pure-Runs _ h refl
    by_state EntryState.consumed a m h at s = pure-Runs _ h refl
    by_state EntryState.expired a m h at s = pure-Runs _ h refl
    by_state EntryState.cancelled a m h at s = pure-Runs _ h refl
    by_state EntryState.admitted a m h at s = claim_admitted-Runs now f token a h at (rw (s) refl)

finish_admitted-Runs :
    {p : Profile} {n : Namespace} (o : Option AdmissionOutcome) (e : Entry)
    → Healthy p n
    → Stored e n
    → is_claimed e ≡ true
    → Runs p (finish_admitted o e) n Stored
unfolding finish_admitted live is_claimed
finish_admitted-Runs {n = n} (some o) e h at c =
    weaken-Runs
      (terminal-Runs e (with_outcome o e) EntryState.consumed none h at (ground arith) refl refl
        refl (EntryStep.consumed e o c))
      (λ a m nx q. entry_after _ (q.0) (q.1))
finish_admitted-Runs {n = n} none e h at c =
    weaken-Runs
      (terminal-Runs e e EntryState.expired (some "ADMISSION_EXPIRED") h at (ground arith) refl refl
        refl (EntryStep.closed e (some "ADMISSION_EXPIRED") c))
      (λ a m nx q. entry_after _ (q.0) (q.1))

pub finish-Runs :
    {p : Profile} {n : Namespace} (o : Option AdmissionOutcome) (f : Fingerprint) (token : ℕ)
    (e : Entry)
    → Healthy p n
    → Stored e n
    → Runs p (finish o f token e) n Answered
unfolding finish is_claimed
finish-Runs o f token e h at =
    if-Runs (not (same_claim e.claim_token e.fingerprint token f)) (λ y. pure-Runs _ h refl)
      (λ same.
        if-Runs (is_finished e.state) (λ y. show-Runs e h at)
          (λ going.
            if-Runs (not (is_admitted e.state) || is_idle e.phase) (λ y. pure-Runs _ h refl)
              (λ c.
                bind-Runs (finish_admitted-Runs o e h at (ground arith))
                  (λ a m nx q. show-Runs a nx.healthy q))))
