-- ===== src/WaitingRoom/Order.antt =====
-- The order of the promotions.
use peak_pass.Prelude.{ℕ, ◌+◌, ◌≤◌, ◌≡◌, List, ◌++◌, some, length}
use peak_pass.WaitingRoom.{Profile, Namespace}
use peak_pass.WaitingRoom.Tick.{promote}
use peak_pass.WaitingRoom.Health.{Healthy}
use peak_pass.WaitingRoom.Ticking.{members, promote-Runs}

-- In a namespace in order with `k` places among the admitted and in the window, the promotion of
-- at most `k` entries succeeds, and those that it promotes followed by those that still wait are
-- those that waited, in the order of the queue.
pub promote-members :
    (p : Profile) (now k : ℕ) (n : Namespace)
    → Healthy p n
    → length n.active + k ≤ p.capacity
    → length n.window + k ≤ p.rate
    → (ids : List ℕ) × ((after : Namespace) × ((promote now p k n ≡ some (ids, after))
          × (ids ++ members after.queue ≡ members n.queue)))
promote-members p now k n h places slots =
    let r = promote-Runs now k n h (places, slots) in (r.value, (r.after, (r.runs, r.result)))
