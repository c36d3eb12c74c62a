-- ===== src/WaitingRoom/Finish.antt =====
-- The branches `claim`, `complete` and `close` of the script: the claim of an admitted entry by a
-- purchase, and its end by the purchase that holds the token.
use peak_pass.Prelude.{
  ℕ, ◌+◌, Bool, true, false, ◌||◌, ◌&&◌, not, Option, none, some, ◌==◌, leb, if◌then◌else◌,
}
use peak_pass.Model.Admission.{Fingerprint, AdmissionOutcome}
use peak_pass.Admission.{fingerprint_eq}
use peak_pass.Redis.{zadd}
use peak_pass.WaitingRoom.{EntryState, EntryPhase, Entry, Profile, Answer}
use peak_pass.WaitingRoom.Script.{Script, pure, modify, need, ◌>>=◌, ◌>>◌}
use peak_pass.WaitingRoom.Entries.{is_admitted, is_idle, saved, terminal, expire, snapshot}
use peak_pass.WaitingRoom.Requests.{deny}

-- Whether a fingerprint is there and another one.
abbrev pub other_fingerprint : Option Fingerprint → Fingerprint → Bool
other_fingerprint none f = false
other_fingerprint (some g) f = not (fingerprint_eq g f)

abbrev pub same_claim : Option ℕ → Option Fingerprint → ℕ → Fingerprint → Bool
same_claim (some u) (some g) t f = u == t && fingerprint_eq g f
same_claim _ _ t f = false

abbrev pub in_phase : EntryPhase → Entry → Entry
in_phase phase e = record e { phase = phase }

abbrev pub approved : ℕ → Profile → Fingerprint → ℕ → Entry → Entry
approved now p f token e = record e {
  phase = EntryPhase.processing;
  fingerprint = some f;
  claim_token = some token;
  deadline = some (now + p.claim_ms);
}

unfoldable pub claim_admitted : ℕ → Profile → Fingerprint → ℕ → Entry → Script Answer
claim_admitted now p f token e =
    if not (is_idle e.phase)
    then (do
      deadline ← need e.deadline
      if leb deadline now
          then (do
            modify (saved (in_phase EntryPhase.reconciling e))
            pure (deny "ADMISSION_IN_PROGRESS" 409 none))
          else (do s ← snapshot e; pure (Answer.shown (some s) none)))
    else (do
      modify (λ n. record n { claims = zadd e.admission_id (now + p.claim_ms) n.claims })
      modify (saved (approved now p f token e))
      s ← snapshot (approved now p f token e)
      pure (Answer.shown (some s) none))

-- The answer by the state of the entry.
unfoldable pub claim_in : EntryState → ℕ → Profile → Fingerprint → ℕ → Entry → Script Answer
claim_in EntryState.waiting now p f token e = pure (deny "ADMISSION_NOT_READY" 409 none)
claim_in EntryState.consumed now p f token e = pure (deny "ADMISSION_ALREADY_CONSUMED" 409 none)
claim_in EntryState.expired now p f token e = pure (Answer.denied e.reason 410 none none)
claim_in EntryState.cancelled now p f token e = pure (Answer.denied e.reason 410 none none)
claim_in EntryState.admitted now p f token e = claim_admitted now p f token e

unfoldable pub claim : ℕ → Profile → Fingerprint → ℕ → Entry → Script Answer
claim now p f token target = do
  e ← expire now target
  if other_fingerprint e.fingerprint f
      then pure (deny "ADMISSION_REQUEST_MISMATCH" 409 none)
      else claim_in e.state now p f token e

abbrev pub with_outcome : AdmissionOutcome → Entry → Entry
with_outcome o e = record e { outcome = some o }

-- `complete` has an outcome, `close` none.
unfoldable pub finish_admitted : Option AdmissionOutcome → Entry → Script Entry
finish_admitted (some o) e = terminal (with_outcome o e) EntryState.consumed none
finish_admitted none e = terminal e EntryState.expired (some "ADMISSION_EXPIRED")

abbrev pub is_finished : EntryState → Bool
is_finished EntryState.consumed = true
is_finished EntryState.expired = true
is_finished _ = false

unfoldable pub finish : Option AdmissionOutcome → Fingerprint → ℕ → Entry → Script Answer
finish outcome f token e =
    if not (same_claim e.claim_token e.fingerprint token f)
    then pure (deny "ADMISSION_REQUEST_MISMATCH" 409 none)
    else if is_finished e.state
    then (do s ← snapshot e; pure (Answer.shown (some s) none))
    else if not (is_admitted e.state) || is_idle e.phase
    then pure (deny "ADMISSION_IN_PROGRESS" 409 none)
    else (do
      after ← finish_admitted outcome e
      s ← snapshot after
      pure (Answer.shown (some s) none))
