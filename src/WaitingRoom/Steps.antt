-- ===== src/WaitingRoom/Steps.antt =====
-- The life of an entry as the documents of the waiting room tell it, apart from the script.
use peak_pass.Prelude.{
  ℕ, ◌≡◌, refl, Bool, true, false, ◌||◌, ◌&&◌, if◌then◌else◌, Option, none, some, String, is_some,
  arith,
}
use peak_pass.Model.Admission.{Fingerprint, AdmissionOutcome}
use peak_pass.WaitingRoom.{EntryState, EntryPhase, Entry}
use peak_pass.WaitingRoom.Entries.{is_waiting, is_admitted, is_idle, ended}
use peak_pass.WaitingRoom.Finish.{in_phase, with_outcome}

-- Whether an entry may still expire or be cancelled: it waits, or no purchase has claimed it.
unfoldable pub is_open : Entry → Bool
is_open e = is_waiting e.state || is_admitted e.state && is_idle e.phase

-- Whether a purchase has claimed the entry and has not finished.
unfoldable pub is_claimed : Entry → Bool
is_claimed e = is_admitted e.state && (if is_idle e.phase then false else true)

pub data EntryStep : Option Entry → Option Entry → Type 0 where
  entered :
      (e : Entry)
      → e.state ≡ EntryState.waiting
      → e.phase ≡ EntryPhase.idle
      → EntryStep none (some e)
  renewed :
      (e : Entry) (t : ℕ)
      → is_waiting e.state ≡ true
      → EntryStep (some e) (some (record e { expires_at = some t }))
  promoted :
      (e : Entry) (now t : ℕ)
      → is_waiting e.state ≡ true
      → EntryStep (some e) (
          some
            (record e { state = EntryState.admitted; admitted_at = some now; expires_at = some t }))
  approved :
      (e : Entry) (f : Fingerprint) (token t : ℕ)
      → is_admitted e.state ≡ true
      → is_idle e.phase ≡ true
      → EntryStep (some e) (
          some (record e {
            phase = EntryPhase.processing;
            fingerprint = some f;
            claim_token = some token;
            deadline = some t;
          }))
  overdue :
      (e : Entry)
      → is_claimed e ≡ true
      → EntryStep (some e) (some (in_phase EntryPhase.reconciling e))
  lapsed :
      (e : Entry) (reason : Option String)
      → is_open e ≡ true
      → EntryStep (some e) (some (ended EntryState.expired reason e))
  cancelled :
      (e : Entry) (reason : Option String)
      → is_open e ≡ true
      → EntryStep (some e) (some (ended EntryState.cancelled reason e))
  consumed :
      (e : Entry) (o : AdmissionOutcome)
      → is_claimed e ≡ true
      → EntryStep (some e) (some (ended EntryState.consumed none (with_outcome o e)))
  closed :
      (e : Entry) (reason : Option String)
      → is_claimed e ≡ true
      → EntryStep (some e) (some (ended EntryState.expired reason e))

-- Any number of steps.
pub data EntrySteps (a : Option Entry) : Option Entry → Type 0 where
  here : EntrySteps a a
  next : {b c : Option Entry} → EntrySteps a b → EntryStep b c → EntrySteps a c

pub EntrySteps-trans : {a b c : Option Entry} → EntrySteps a b → EntrySteps b c → EntrySteps a c
EntrySteps-trans r here = r
EntrySteps-trans r (next s t) = next (EntrySteps-trans r s) t

EntryStep-is_some : {a b : Option Entry} → EntryStep a b → is_some b ≡ true
EntryStep-is_some (entered e h g) = refl
EntryStep-is_some (renewed e t h) = refl
EntryStep-is_some (promoted e now t h) = refl
EntryStep-is_some (approved e f token t h g) = refl
EntryStep-is_some (overdue e h) = refl
EntryStep-is_some (lapsed e reason h) = refl
EntryStep-is_some (cancelled e reason h) = refl
EntryStep-is_some (consumed e o h) = refl
EntryStep-is_some (closed e reason h) = refl

-- An entry is never removed.
pub EntrySteps-is_some : {a b : Option Entry} → EntrySteps a b → is_some a ≡ true → is_some b ≡ true
EntrySteps-is_some here h = h
EntrySteps-is_some (next s t) h = EntryStep-is_some t

-- Whether an entry has ended.
abbrev pub is_ended : Option Entry → Bool
is_ended none = false
is_ended (some e) = if is_waiting e.state || is_admitted e.state then false else true

EntryStep-is_ended : {a b : Option Entry} → EntryStep a b → is_ended a ≡ false
unfolding is_open is_claimed
EntryStep-is_ended (entered e h g) = refl
EntryStep-is_ended (renewed e t h) = ground arith
EntryStep-is_ended (promoted e now t h) = ground arith
EntryStep-is_ended (approved e f token t h g) = ground arith
EntryStep-is_ended (overdue e h) = ground arith
EntryStep-is_ended (lapsed e reason h) = ground arith
EntryStep-is_ended (cancelled e reason h) = ground arith
EntryStep-is_ended (consumed e o h) = ground arith
EntryStep-is_ended (closed e reason h) = ground arith

-- An entry that has ended does not change.
pub EntrySteps-is_ended : {a b : Option Entry} → EntrySteps a b → is_ended a ≡ true → a ≡ b
EntrySteps-is_ended here h = refl
EntrySteps-is_ended (next s t) h =
    absurd (let same = EntrySteps-is_ended s h in cc (EntryStep-is_ended t, same, h))
