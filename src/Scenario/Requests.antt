-- ===== src/Scenario/Requests.antt =====
-- Three requests under a limit of two in a second, a repeated callback, and a ticket number.
use peak_pass.Prelude.{ℕ, ◌≤◌, ◌≡◌, ◌⊎◌, refl, none, some, List, [], ◌∷◌, arith}
use peak_pass.Scenario.{text_of}
use peak_pass.Model.TicketNumber.{generate_ticket_number}
use peak_pass.Model.TicketNumber.Reading.{read_sequence, read_sequence-generate_ticket_number}
use peak_pass.Guards.Idempotency.{
  Scope, CachedResult, LockAnswer, replay_cached, idempotency_middleware, Stores,
  idempotency_middleware-replies,
}
use peak_pass.Redis.{hget, hdel, zinsert, zadd, zremove_to}
use peak_pass.Guards.{count_request}
use peak_pass.Guards.Windows.{since, request, requests, Orderly, no_requests, requests-bounded}

abbrev three : List (ℕ × ℕ)
three = (5000, 1) ∷ (5400, 2) ∷ (5900, 3) ∷ []

-- The third is refused.
three-allowed : (requests 1000 2 three no_requests).allowed ≡ 5400 ∷ 5000 ∷ []
unfolding requests request count_request hget hdel zinsert zadd zremove_to
three-allowed = refl

three-Orderly : Orderly 1000 2 0 three no_requests
unfolding Orderly requests request count_request hget hdel zinsert zadd zremove_to
three-Orderly = (omega arith, (refl, (omega arith, (refl, (omega arith, (refl, tt))))))

requests-bounded_example : since 5950 1000 (requests 1000 2 three no_requests).allowed ≤ 2
requests-bounded_example = requests-bounded 1000 2 three three-Orderly 5950 (omega arith)

abbrev stored : CachedResult
stored = record { status_code = some 200; body = 33; request_fingerprint = some 77 }

-- A repeated callback finds the answer of the first one after the lock.
idempotency_middleware-replies_example :
    (some Scope.payment_settlement ≡ some Scope.payment_settlement)
    × (Stores 77 33 none ⊎ Stores 77 33 (some stored))
unfolding idempotency_middleware replay_cached
idempotency_middleware-replies_example =
    idempotency_middleware-replies (some Scope.payment_settlement) (some 9) 77 none
      LockAnswer.lock_busy (some stored) 200 33 refl

read_sequence-generate_ticket_number_example :
    read_sequence (generate_ticket_number text_of 2026 1234567) ≡ 1234567
read_sequence-generate_ticket_number_example =
    read_sequence-generate_ticket_number text_of 2026 1234567 (omega arith) (omega arith)
