-- ===== src/Withdrawal/Payout/Transfers.antt =====
-- No call but the approval asks the gateway for a payout.
use painel_mt_affiliates.Common.{
  ℕ, ◌≡◌, refl, ◌∙◌, true, Option, List, [], ◌∷◌, String, arith, take, filter,
}
use painel_mt_affiliates.Withdrawal.Types.{Withdrawal, Store, EventKey}
use painel_mt_affiliates.Withdrawal.Rows.{update_many, find_unique}
use painel_mt_affiliates.Withdrawal.Create.{create}
use painel_mt_affiliates.Withdrawal.External.{create_for_external}
use painel_mt_affiliates.Withdrawal.Manage.{
  update_status, mark_paid_manually, set_status_for_external,
}
use painel_mt_affiliates.Withdrawal.Webhook.{
  EventData, Payload, PayoutEvent, payout_completed, payout_failed, payout_refunded,
  apply_completed, apply_failed, apply_refunded, apply_event, process_event,
  handle_gateway_webhook_event,
}
use painel_mt_affiliates.Withdrawal.Reconcile.{
  Counts, reconcile_one, reconcile_all, reconcile_stuck_processing, PayoutStatus, sort_by_sent,
  is_stuck,
}
use painel_mt_affiliates.Withdrawal.Lifecycle.Steps.{
  Operation, do_create, do_create_external, do_update_status, do_mark_paid, do_set_external,
  do_approve, do_webhook, do_reconcile, run, is_plain,
}

abbrev SendsNone : (Store → Store) → Type 0
SendsNone f = (s : Store) → (f s).transfers ≡ s.transfers

refunded-transfers :
    (now : ℕ) (name : String) (d : EventData) (w : Withdrawal)
    → SendsNone (λ s. (apply_refunded now name d w s).1)
unfolding apply_refunded update_many find_unique
refunded-transfers now name d w s = ground arith

apply_event-transfers :
    (now : ℕ) (key : EventKey) (e : PayoutEvent) (d : EventData) (w : Withdrawal)
    → SendsNone (λ s. (apply_event now key e d w s).1)
unfolding apply_event apply_completed apply_failed update_many
apply_event-transfers now key payout_completed d w s = ground arith
apply_event-transfers now key payout_failed d w s = ground arith
apply_event-transfers now key payout_refunded d w s =
    ground (arith, refunded-transfers now key.event d w s)

process_event-transfers :
    (now : ℕ) (key : EventKey) (d : EventData) → SendsNone (λ s. (process_event now key d s).1)
unfolding process_event
process_event-transfers now key d s = grind (arith, apply_event-transfers)

webhook-transfers :
    (now : ℕ) (provider : String) (p : Payload)
    → SendsNone (λ s. (handle_gateway_webhook_event now provider p s).1)
unfolding handle_gateway_webhook_event
webhook-transfers now provider p s = grind (arith, process_event-transfers)

reconcile_one-transfers :
    (now : ℕ) (provider : String) (query : String → Option PayoutStatus) (w : Withdrawal)
    (c : Counts)
    → SendsNone (λ s. (reconcile_one now provider query w (c, s)).1)
unfolding reconcile_one
reconcile_one-transfers now provider query w c s = grind (arith, webhook-transfers)

reconcile_all-transfers :
    (now : ℕ) (provider : String) (query : String → Option PayoutStatus) (ws : List Withdrawal)
    (acc : Counts × Store)
    → (reconcile_all now provider query ws acc).1.transfers ≡ acc.1.transfers
unfolding reconcile_all
reconcile_all-transfers now provider query [] acc = refl
reconcile_all-transfers now provider query (w ∷ ws) (c, s) =
    reconcile_all-transfers now provider query ws (reconcile_one now provider query w (c, s))
    ∙ reconcile_one-transfers now provider query w c s

pub run-transfers : (op : Operation) → is_plain op ≡ true → SendsNone (run op)
unfolding run create create_for_external update_status mark_paid_manually set_status_for_external
    update_many reconcile_stuck_processing
run-transfers (do_create env id user dto) h s = ground arith
run-transfers (do_create_external env id user pix dto) h s = ground arith
run-transfers (do_update_status now id admin yes_ memo) h s = ground arith
run-transfers (do_mark_paid now id admin memo) h s = ground arith
run-transfers (do_set_external id owners target memo) h s = ground arith
run-transfers (do_approve now provider id admin memo amount balance gateway) h s = absurd (cc)
run-transfers (do_webhook now provider p) h s = webhook-transfers now provider p s
run-transfers (do_reconcile now provider query) h s =
    reconcile_all-transfers now provider query
      (take 50 (sort_by_sent (filter (is_stuck now) s.withdrawals))) (_, s)
