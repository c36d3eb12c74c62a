-- ===== src/System/Execution.antt =====
-- `run_all` with every definition that it calls opened, for tests by evaluation.
use peak_pass.Prelude.{List}
use peak_pass.Table.{find, update, sum, select}
use peak_pass.Db.{
  Db, savepoint, interrupted, rollback_to_savepoint, pure, throw, gets, require, modify, check,
  ◌>>=◌,
}
use peak_pass.Db.Keys.{member, find_row}
use peak_pass.Db.Insert.{insert_reservation, insert_order, insert_ticket}
use peak_pass.Inventory.{set_available, adjust_available_seats}
use peak_pass.Events.{pricing_tiers, create_event_with_client}
use peak_pass.Reservations.{
  sale_eligible, find_tier, set_reservation_status, create_reservation_with_client,
  return_seats_and_finalize, release_reservation_with_client, expire_reservation_with_client,
}
use peak_pass.Orders.{
  get_tickets_by_order_id, set_order_status, expire_at, expire_by_status,
  expire_pending_order_with_client,
}
use peak_pass.Model.Money.{parse_unit_price}
use peak_pass.Model.TicketNumber.{digits, decimal, zeros, pad_start, generate_ticket_number}
use peak_pass.Admission.{
  fingerprint_eq, stored_rejection, add_policy, ensure_policy, read_admission_policy, lock_failure,
  after_wait, lock_admission, read_prior, open_admission_gate, same_fingerprint, judge, own_result,
  linked, compare_link, assert_admission_link,
}
use peak_pass.Admission.Occupy.{
  is_recovering, shape_ok, insert_result, target_matches, claimed, approve, outcome_kind, reject,
  consume, after_occupy, occupy_protected, occupy_through_admission,
}
use peak_pass.Checkout.{
  insert_pending_record, take_seats, create_order, same_request, replay_order, same_reservation,
  convertible, not_converted, convert_and_order, use_reservation, checkout_reservation,
  of_occupation, replay_result as replay_result_checkout, after_prior as after_prior_checkout,
  direct_command, behind_gate, checkout_direct, checkout_keyed, checkout,
}
use peak_pass.Payment.{
  same_callback, callback_conflict, reserve_against, reserve_callback_key, insert_new_record,
  provider_reused, keep_record, record_payment, insert_payment_record,
}
use peak_pass.Payment.Webhook.{
  map_outcome_to_response, mark_order_as_paid, cancel_order, issue_loop, issue_tickets_for_order,
  settle_open, handle_settle, fail_open, handle_fail, record_late, dispatch, apply_transition,
  process_payment_webhook,
}
use peak_pass.Purchase.{
  reservation_command, stored_reservation, replay_result as replay_result_purchase,
  after_prior as after_prior_purchase, create_reservation, committed,
}
use peak_pass.System.{Command, run, run_all}
use peak_pass.Prelude.Strings.{text_eq, includes}

unfoldable pub execute : List Command → Db → Db
unfolding find update sum select pure throw gets require modify check ◌>>=◌ member find_row
    insert_reservation insert_order insert_ticket set_available adjust_available_seats pricing_tiers
    create_event_with_client sale_eligible find_tier set_reservation_status
    create_reservation_with_client return_seats_and_finalize release_reservation_with_client
    expire_reservation_with_client get_tickets_by_order_id set_order_status expire_at
    expire_by_status expire_pending_order_with_client parse_unit_price digits decimal zeros
    pad_start generate_ticket_number fingerprint_eq stored_rejection add_policy ensure_policy
    read_admission_policy lock_failure after_wait lock_admission read_prior open_admission_gate
    same_fingerprint judge own_result linked compare_link assert_admission_link is_recovering
    shape_ok insert_result target_matches claimed approve outcome_kind reject consume savepoint
    interrupted rollback_to_savepoint after_occupy occupy_protected occupy_through_admission
    insert_pending_record take_seats create_order same_request replay_order same_reservation
    convertible not_converted convert_and_order use_reservation checkout_reservation of_occupation
    replay_result_checkout after_prior_checkout direct_command behind_gate checkout_direct
    checkout_keyed checkout same_callback callback_conflict reserve_against reserve_callback_key
    insert_new_record provider_reused keep_record record_payment insert_payment_record
    map_outcome_to_response mark_order_as_paid cancel_order issue_loop issue_tickets_for_order
    settle_open handle_settle fail_open handle_fail record_late dispatch apply_transition
    process_payment_webhook reservation_command stored_reservation replay_result_purchase
    after_prior_purchase create_reservation committed run run_all text_eq includes
execute = run_all
