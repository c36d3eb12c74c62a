-- ===== src/Guards/Owners.antt =====
-- The lock of an idempotency key belongs to the token that it was taken with.
use peak_pass.Prelude.{ℕ, ◌<◌, ◌≡◌, ◌≢◌, none, some, arith}
use peak_pass.Guards.{live_value, try_acquire_idempotency_lock, release_idempotency_lock}

-- While a lock is held and has not expired, no other request takes it, and a release with another
-- token leaves it to its owner.
pub idempotency_lock-owner :
    (now ttl_seconds owner token expires_at : ℕ)
    → now < expires_at
    → token ≢ owner
    → ((try_acquire_idempotency_lock now ttl_seconds token
          (some (record { value = owner; expires_at = expires_at }))).0
        ≡ none)
      × ((live_value now (
              release_idempotency_lock now token
                (some (record { value = owner; expires_at = expires_at })))
            ≡ some owner)
          × (release_idempotency_lock now owner
                (some (record { value = owner; expires_at = expires_at }))
              ≡ none))
unfolding try_acquire_idempotency_lock release_idempotency_lock
idempotency_lock-owner now ttl_seconds owner token expires_at early other =
    (ground arith, (ground arith, ground arith))
