-- ===== src/Tickets.antt =====
-- The account of the tickets: how many each order has, and how many it is due. This is the
-- specification of the settlement in src/core/services/payment-webhook.service.ts.
pub mod Answers
pub mod Changes
pub mod Issue
pub mod Sales
use peak_pass.Prelude.{
  ℕ, ◌+◌, ◌≡◌, Bool, true, false, Option, none, some, List, ◌==◌, if◌then◌else◌,
}
use peak_pass.Table.{find, sum}
use peak_pass.Model.{OrderStatus, Order, Ticket}
use peak_pass.Db.{Db}
use peak_pass.Db.Keys.{order_key}

abbrev pub is_paid : OrderStatus → Bool
is_paid OrderStatus.paid = true
is_paid _ = false

abbrev pub ticket_weight : ℕ → Ticket → ℕ
ticket_weight id t = if t.order_id == id then 1 else 0

-- The number of tickets of the order `id`.
abbrev pub issued : ℕ → Db → ℕ
issued id db = sum (ticket_weight id) db.tickets

-- A paid order is due one ticket for each seat, and any other order none.
abbrev pub due_to : Order → ℕ
due_to o = if is_paid o.status then o.quantity else 0

abbrev pub due_of : Option Order → ℕ
due_of none = 0
due_of (some o) = due_to o

-- The number of tickets that the order `id` is due.
abbrev pub due : ℕ → Db → ℕ
due id db = due_of (find order_key id db.orders)

-- The account with the tickets, `out`, that the running transaction has yet to issue.
abbrev pub Owing : (ℕ → ℕ) → Db → Type 0
Owing out db = (id : ℕ) → issued id db + out id ≡ due id db

-- Every order has the tickets that it is due.
abbrev pub IsIssuedBy : List Order → List Ticket → Type 0
IsIssuedBy orders tickets =
    (id : ℕ) → sum (ticket_weight id) tickets ≡ due_of (find order_key id orders)

-- The invariant between two transactions.
abbrev pub IsIssued : Db → Type 0
IsIssued db = IsIssuedBy db.orders db.tickets
