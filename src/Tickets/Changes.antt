-- ===== src/Tickets/Changes.antt =====
-- What the changes of the orders and the tickets do to the account of the tickets.
use peak_pass.Prelude.{
  ℕ, ◌+◌, ◌≡◌, ap, none, some, List, ◌∷◌, ◌==◌, ==→eq, Bool-cases, inl, inr, arith,
}
use peak_pass.Table.{find, update}
use peak_pass.Table.Laws.{find-update}
use peak_pass.Model.{Order, Ticket}
use peak_pass.Db.{Db}
use peak_pass.Db.Keys.{order_key}
use peak_pass.Frame.{IsStable}
use peak_pass.Seats.{seats_at}
use peak_pass.Tickets.{due_to, due_of, Owing, IsIssuedBy, IsIssued}

pub IsIssued-IsStable : IsStable IsIssued
IsIssued-IsStable db after same i = λ id. rw (same.orders, same.tickets) (i id)

-- A row of the orders is changed by `f`, which keeps its id.
due-update :
    (k : ℕ) (f : Order → Order) (orders : List Order) (o : Order) (n id : ℕ)
    → ((x : Order) → (f x).id ≡ x.id)
    → find order_key k orders ≡ some o
    → due_to (f o) ≡ due_to o + n
    → due_of (find order_key id (update order_key k f orders))
      ≡ due_of (find order_key id orders) + seats_at k n id
due-update k f orders o n id keeps found more = elim (Bool-cases (id == k)) [
  | inl y ↦
      (let same : id ≡ k = ==→eq id k y in
        ground (
          arith,
          find-update order_key k id f orders keeps,
          ap (λ j. find order_key j orders) same,
          found,
          more,
        ))
  | inr ne ↦ ground (arith, find-update order_key k id f orders keeps)
]

-- An order becomes due `n` more tickets.
pub Owing-set_order :
    (k : ℕ) (f : Order → Order) (o : Order) (n : ℕ) (db : Db)
    → ((x : Order) → (f x).id ≡ x.id)
    → find order_key k db.orders ≡ some o
    → due_to (f o) ≡ due_to o + n
    → IsIssued db
    → Owing (seats_at k n) (record db { orders = update order_key k f db.orders })
Owing-set_order k f o n db keeps found more i =
    λ id. ground (arith, i id, due-update k f db.orders o n id keeps found more)

pub IsIssued-set_order :
    (k : ℕ) (f : Order → Order) (o : Order) (orders : List Order) (tickets : List Ticket)
    → ((x : Order) → (f x).id ≡ x.id)
    → find order_key k orders ≡ some o
    → due_to (f o) ≡ due_to o
    → IsIssuedBy orders tickets
    → IsIssuedBy (update order_key k f orders) tickets
IsIssued-set_order k f o orders tickets keeps found more i =
    λ id. ground (arith, i id, due-update k f orders o 0 id keeps found (ground (arith, more)))

-- A new order that is due nothing.
pub IsIssued-add_order :
    (o : Order) (orders : List Order) (tickets : List Ticket)
    → find order_key o.id orders ≡ none
    → due_to o ≡ 0
    → IsIssuedBy orders tickets
    → IsIssuedBy (o ∷ orders) tickets
unfolding find
IsIssued-add_order o orders tickets fresh nothing i = λ id. elim (Bool-cases (o.id == id)) [
  | inl y ↦
      (let same : o.id ≡ id = ==→eq o.id id y in
        ground (arith, i id, ap (λ j. find order_key j orders) same, fresh, nothing))
  | inr ne ↦ ground (arith, i id)
]
