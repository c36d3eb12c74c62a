-- ===== src/Guards/Idempotency.antt =====
-- src/api/middleware/idempotency.ts. A key that is empty or blank is no key; fingerprints and bodies
-- of answers are numbers. What Redis answers to the reads and to the lock is given.
use peak_pass.Prelude.{
  ℕ, ◌≡◌, refl, ap, Bool-cases, inl, inr, ◌⊎◌, Option, none, some, ◌==◌, ==→eq, if◌then◌else◌,
}

pub data Scope : Type 0 where
  checkout payment_settlement : Scope

-- A stored answer. A fingerprint that is no text is none.
pub record CachedResult : Type 0 where
  pub status_code : Option ℕ
  pub body : ℕ
  pub request_fingerprint : Option ℕ

-- The end of `tryAcquireIdempotencyLock`.
pub data LockAnswer : Type 0 where
  lock_failed lock_busy : LockAnswer
  locked : ℕ → LockAnswer

-- How the middleware ends: the handler runs with the key and the token that it has, or an answer.
pub data Outcome : Type 0 where
  proceeds : Option ℕ → Option ℕ → Outcome
  replies : ℕ → ℕ → Outcome
  missing_key in_progress conflict : Outcome

-- `getCachedStatusCode`
abbrev pub get_cached_status_code : CachedResult → ℕ
get_cached_status_code c = elim c.status_code [ none ↦ 201 | some code ↦ code ]

abbrev by_fingerprint : ℕ → CachedResult → Outcome → Option ℕ → Outcome
by_fingerprint fingerprint c rest none = rest
by_fingerprint fingerprint c rest (some f) =
    if f == fingerprint then Outcome.replies (get_cached_status_code c) c.body else Outcome.conflict

-- `matchesCallbackCache` and `sendCachedResult` for a read, or the rest of the middleware.
unfoldable pub replay_cached : ℕ → Option CachedResult → Outcome → Outcome
replay_cached fingerprint none rest = rest
replay_cached fingerprint (some c) rest = by_fingerprint fingerprint c rest c.request_fingerprint

abbrev pub after_lock : Scope → ℕ → ℕ → LockAnswer → Option CachedResult → Outcome
after_lock scope key fingerprint LockAnswer.lock_failed later = Outcome.proceeds (some key) none
after_lock scope key fingerprint (LockAnswer.locked token) later =
    Outcome.proceeds (some key) (some token)
after_lock Scope.checkout key fingerprint LockAnswer.lock_busy later =
    Outcome.proceeds (some key) none
after_lock Scope.payment_settlement key fingerprint LockAnswer.lock_busy later =
    replay_cached fingerprint later Outcome.in_progress

-- `idempotencyMiddleware`, with the answer of the first read, of the lock and of the read after it.
unfoldable pub idempotency_middleware :
    Option Scope → Option ℕ → ℕ → Option CachedResult → LockAnswer → Option CachedResult → Outcome
idempotency_middleware none key fingerprint first lock later = Outcome.proceeds none none
idempotency_middleware (some Scope.checkout) none fingerprint first lock later = Outcome.missing_key
idempotency_middleware (some Scope.payment_settlement) none fingerprint first lock later =
    Outcome.proceeds none none
idempotency_middleware (some Scope.checkout) (some key) fingerprint first lock later =
    after_lock Scope.checkout key fingerprint lock later
idempotency_middleware (some Scope.payment_settlement) (some key) fingerprint first lock later =
    replay_cached fingerprint first (after_lock Scope.payment_settlement key fingerprint lock later)

-- A stored answer of this callback.
abbrev pub Stores : ℕ → ℕ → Option CachedResult → Type 0
Stores fingerprint body none = ⊥
Stores fingerprint body (some c) = (c.request_fingerprint ≡ some fingerprint) × (c.body ≡ body)

body_of : Outcome → ℕ
body_of (Outcome.replies code body) = body
body_of _ = 0

replay_cached-replies :
    (fingerprint code body : ℕ) (o : Option CachedResult) (rest : Outcome)
    → replay_cached fingerprint o rest ≡ Outcome.replies code body
    → Stores fingerprint body o ⊎ (rest ≡ Outcome.replies code body)
unfolding replay_cached body_of
replay_cached-replies fingerprint code body none rest e = inr e
replay_cached-replies fingerprint code body (some c) rest e = by_case c.request_fingerprint refl e
  where
    by_case :
        (f : Option ℕ)
        → c.request_fingerprint ≡ f
        → by_fingerprint fingerprint c rest f ≡ Outcome.replies code body
        → Stores fingerprint body (some c) ⊎ (rest ≡ Outcome.replies code body)
    by_case none at e = inr e
    by_case (some f) at e = elim (Bool-cases (f == fingerprint)) [
      | inl y ↦ inl (rw (at) (ap some (==→eq f fingerprint y)), ap body_of (rw (y) at e))
      | inr ne ↦ absurd (cc (rw (ne) at e))
    ]

-- A request that is answered from the store is a payment callback, and what it is answered is an
-- answer stored for a callback of the same fingerprint, found before the lock or after it.
pub idempotency_middleware-replies :
    (scope : Option Scope) (key : Option ℕ) (fingerprint : ℕ) (first : Option CachedResult)
    (lock : LockAnswer) (later : Option CachedResult) (code body : ℕ)
    → idempotency_middleware scope key fingerprint first lock later ≡ Outcome.replies code body
    → (scope ≡ some Scope.payment_settlement)
      × (Stores fingerprint body first ⊎ Stores fingerprint body later)
unfolding idempotency_middleware
idempotency_middleware-replies none key fp first lock later code body e = absurd (cc e)
idempotency_middleware-replies (some Scope.checkout) none fp first lock later code body e =
    absurd (cc e)
idempotency_middleware-replies (some Scope.payment_settlement) none fp first lock later code body
      e =
    absurd (cc e)
idempotency_middleware-replies (some Scope.checkout) (some key) fp first LockAnswer.lock_failed
      later code body e =
    absurd (cc e)
idempotency_middleware-replies (some Scope.checkout) (some key) fp first LockAnswer.lock_busy later
      code body e =
    absurd (cc e)
idempotency_middleware-replies (some Scope.checkout) (some key) fp first (LockAnswer.locked t) later
      code body e =
    absurd (cc e)
idempotency_middleware-replies (some Scope.payment_settlement) (some key) fp first lock later code
      body e =
    (
      refl,
      elim (replay_cached-replies fp code body first _ e) [
        | inl s ↦ inl s
        | inr r ↦ inr (of_lock lock r)
      ],
    )
  where
    of_later :
        Stores fp body later ⊎ (Outcome.in_progress ≡ Outcome.replies code body)
        → Stores fp body later
    of_later (inl s) = s
    of_later (inr x) = absurd (cc x)

    of_lock :
        (l : LockAnswer)
        → after_lock Scope.payment_settlement key fp l later ≡ Outcome.replies code body
        → Stores fp body later
    of_lock LockAnswer.lock_failed r = absurd (cc r)
    of_lock (LockAnswer.locked t) r = absurd (cc r)
    of_lock LockAnswer.lock_busy r =
        of_later (replay_cached-replies fp code body later Outcome.in_progress r)
