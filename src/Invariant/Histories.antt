-- ===== src/Invariant/Histories.antt =====
-- What the base operations keep, every sequence of transactions keeps.
use peak_pass.Prelude.{refl, List, [], ◌∷◌, inl, inr}
use peak_pass.Failure.{Result-cases}
use peak_pass.Model.{ReservationStatus}
use peak_pass.Db.{Db, Tx}
use peak_pass.Reservations.{release_reservation_with_client, expire_reservation_with_client}
use peak_pass.Purchase.{committed}
use peak_pass.Frame.{Preserves}
use peak_pass.Invariant.{Invariant}
use peak_pass.Invariant.Purchases.{create_reservation-Preserves, checkout-Preserves}
use peak_pass.Invariant.Webhooks.{process_payment_webhook-Preserves}
use peak_pass.System.{
  Command, create_event, reserve, buy, settle, release, expire_reservation, expire_order, run,
  run_all,
}

-- A transaction that keeps a property where it commits keeps it where it rolls back.
committed-Preserves :
    {A : Type 0} {P : Db → Type 0} (m : Tx A)
    → Preserves P m
    → (db : Db) → P db
    → P (committed m db)
unfolding committed
committed-Preserves {P = P} m kept db p = elim (Result-cases (m db)) [
  | inl ((a, after), e) ↦ rw (e, committed) ((kept db p).at a after e)
  | inr (x, e) ↦ rw (e, committed) p
]

module _ {P : Db → Type 0} (inv : Invariant P) where
  pub run-Preserves : (c : Command) (db : Db) → P db → P (run c db)
  unfolding run release_reservation_with_client expire_reservation_with_client
  run-Preserves (create_event text_of env input) =
      committed-Preserves _ (inv.on_event text_of env input)
  run-Preserves (reserve env gw input a) =
      committed-Preserves _ (create_reservation-Preserves inv env gw input a)
  run-Preserves (buy env gw input a) = committed-Preserves _ (checkout-Preserves inv env gw input a)
  run-Preserves (settle env input key) =
      committed-Preserves _ (process_payment_webhook-Preserves inv env input key)
  run-Preserves (release id) =
      committed-Preserves _ (inv.on_return id ReservationStatus.released refl)
  run-Preserves (expire_reservation id) =
      committed-Preserves _ (inv.on_return id ReservationStatus.expired refl)
  run-Preserves (expire_order env id) = committed-Preserves _ (inv.on_expire env id)

  pub run_all-Preserves : (cs : List Command) (db : Db) → P db → P (run_all cs db)
  unfolding run_all
  run_all-Preserves [] db p = p
  run_all-Preserves (c ∷ cs) db p = run_all-Preserves cs (run c db) (run-Preserves c db p)
