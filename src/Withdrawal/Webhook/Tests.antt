-- ===== src/Withdrawal/Webhook/Tests.antt =====
-- Runs of the event handler and of the reconciliation.
use painel_mt_affiliates.Common.{◌≡◌, refl, some, [], ◌∷◌, map}
use painel_mt_affiliates.Common.Int.{pos}
use painel_mt_affiliates.Withdrawal.Types.{Withdrawal}
use painel_mt_affiliates.Withdrawal.Webhook.{
  refund_ignored, Payload, no_data, handle_gateway_webhook_event,
}
use painel_mt_affiliates.Withdrawal.Samples.{done_store, pending_store}

abbrev refund : Payload
refund = record {
  event = some "PayOutRefunded";
  details =
      some (record no_data { correlation_id = some "w1"; refunded_amount = some (pos 99999) });
}

-- A refund is cut at the original amount.
refunded :
    map
      (λ (w : Withdrawal). w.gateway_refunded_amount)
      (handle_gateway_webhook_event 9 "pay" refund done_store).1.withdrawals
    ≡ some 12345 ∷ []
unfolding handle_gateway_webhook_event
refunded = refl

-- A refund of what was never paid is ignored.
unpaid : (handle_gateway_webhook_event 9 "pay" refund pending_store).0 ≡ refund_ignored
unfolding handle_gateway_webhook_event
unpaid = refl
