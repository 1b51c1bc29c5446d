-- ===== src/Withdrawal/Lifecycle/Tests.antt =====
-- Instances of the theorems on sequences of calls.
use painel_mt_affiliates.Common.{◌≡◌, refl, true, some, All}
use painel_mt_affiliates.Withdrawal.Types.{Withdrawal, Store, completed}
use painel_mt_affiliates.Withdrawal.Rows.{find_unique}
use painel_mt_affiliates.Withdrawal.Webhook.{
  duplicate_event, unknown_reference, handle_gateway_webhook_event, set_event_status, record_event,
}
use painel_mt_affiliates.Withdrawal.Types.{orphan}
use painel_mt_affiliates.Withdrawal.Webhook.Events.{key_of, webhook-seen}
use painel_mt_affiliates.Withdrawal.Manage.{mark_paid_manually}
use painel_mt_affiliates.Withdrawal.Approve.{approve_and_dispatch}
use painel_mt_affiliates.Withdrawal.Create.{create}
use painel_mt_affiliates.Withdrawal.Frequency.{is_withdrawal_day_allowed}
use painel_mt_affiliates.Withdrawal.Lifecycle.Steps.{Grows, IsUnique, IsSound, fixed, run_all}
use painel_mt_affiliates.Withdrawal.Lifecycle.Theorems.{
  run_all-Grows, run_all-final, run_all-IsSound,
}
use painel_mt_affiliates.Withdrawal.Lifecycle.Delivery.{webhook-once}
use painel_mt_affiliates.Withdrawal.Samples.{
  empty, calls, done_store, done_row, late_calls, paid_event,
}

run_all-Grows_example :
    Grows true empty.withdrawals (run_all calls empty).withdrawals
    × IsUnique (run_all calls empty).withdrawals
run_all-Grows_example = run_all-Grows calls empty tt (refl, (tt, (tt, (tt, tt))))

run_all-final_example :
    (v : Withdrawal) × (find_unique "w1" (run_all late_calls done_store) ≡ some v)
    × (v.status ≡ completed)
    × (fixed v ≡ fixed done_row)
unfolding find_unique
run_all-final_example =
    run_all-final late_calls done_store "w1" done_row (refl, tt) (tt, (tt, tt)) refl refl

run_all-IsSound_example : All IsSound (run_all calls empty).withdrawals
run_all-IsSound_example = run_all-IsSound calls empty tt (refl, (tt, (tt, (tt, tt)))) tt

webhook-once_example :
    handle_gateway_webhook_event 9 "pay" paid_event
      (run_all calls (handle_gateway_webhook_event 6 "pay" paid_event done_store).1)
    ≡ (
      duplicate_event,
      run_all calls (handle_gateway_webhook_event 6 "pay" paid_event done_store).1,
    )
webhook-once_example = webhook-once 6 9 "pay" paid_event paid_event calls done_store refl refl refl

-- the store after the event that came too early
abbrev early : Store
early =
    set_event_status (key_of "pay" paid_event) orphan (record_event (key_of "pay" paid_event) empty)

orphaned : handle_gateway_webhook_event 6 "pay" paid_event empty ≡ (unknown_reference, early)
unfolding handle_gateway_webhook_event
orphaned = refl

-- The event comes before the withdrawal, which is then created and approved, and is never paid.
never_paid :
    handle_gateway_webhook_event 9 "pay" paid_event (run_all calls early)
    ≡ (duplicate_event, run_all calls early)
unfolding run_all mark_paid_manually handle_gateway_webhook_event approve_and_dispatch create
    is_withdrawal_day_allowed
never_paid = webhook-seen 9 "pay" paid_event (run_all calls early) refl refl
