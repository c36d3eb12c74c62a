-- ===== src/Tickets/Sales.antt =====
-- Every history keeps the account of the tickets.
use peak_pass.Prelude.{ℕ, ◌≡◌, refl, some, List, arith, if◌then◌else◌}
use peak_pass.Table.{find}
use peak_pass.Model.{Order}
use peak_pass.Db.{Db}
use peak_pass.Db.Rules.{Ensures-weaken}
use peak_pass.Db.Keys.{order_key}
use peak_pass.Orders.{with_order_status}
use peak_pass.Invariant.Sales.{KeptByOrders, Sales-Invariant}
use peak_pass.Invariant.Histories.{run_all-Preserves}
use peak_pass.System.{Command, run_all}
use peak_pass.Tickets.{issued, is_paid, IsIssued, IsIssuedBy}
use peak_pass.Tickets.Changes.{IsIssued-set_order, IsIssued-add_order}
use peak_pass.Tickets.Issue.{settle_open-Settled}

tickets_kept : KeptByOrders IsIssuedBy
tickets_kept = record {
  on_add = λ o orders tickets fresh is_pending i.
      IsIssued-add_order o orders tickets fresh (rw is_pending refl) i;
  on_close = λ k s o orders tickets found unsettled ends i.
      IsIssued-set_order k (with_order_status s) o orders tickets (λ x. refl) found
        (ground (arith, unsettled, ends)) i;
  on_settle = λ env o input key db found unsettled i.
      Ensures-weaken _ (settle_open-Settled env o input key db found unsettled i)
        (λ outcome after s. s.issue.kept);
}

-- After any sequence of transactions from a database in which every order has the tickets that it is
-- due, an order in the table has one ticket for each of its seats if it is paid, and none otherwise.
pub tickets_of_order :
    (cs : List Command) (db : Db) (id : ℕ) (o : Order)
    → IsIssued db
    → find order_key id (run_all cs db).orders ≡ some o
    → issued id (run_all cs db) ≡ (if is_paid o.status then o.quantity else 0)
tickets_of_order cs db id o i found =
    rw (run_all-Preserves (Sales-Invariant tickets_kept) cs db i id, found) refl
