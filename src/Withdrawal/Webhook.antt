-- ===== src/Withdrawal/Webhook.antt =====
-- `handleGatewayWebhookEvent`:
-- backend-vexxa/src/modules/withdrawal/application/withdrawal.service.ts.
-- An event is recorded first, under a key without its time, and a key that is there already ends
-- the call. Amounts of a payload are taken in whole cents.
pub mod Events
mod Tests
use painel_mt_affiliates.Common.{
  ℕ, suc, ◌+◌, Bool, true, false, not, ◌&&◌, ◌||◌, Option, none, some, List, [], ◌∷◌, ◌++◌, String,
  str_eq, any, find, filter, take, length, leb, or_else, is_some, truthy, ltb, if◌then◌else◌,
}
use painel_mt_affiliates.Common.Int.{ℤ, pos, pos_part, ltb_ℤ, max_ℤ, min_ℤ}
use painel_mt_affiliates.Withdrawal.Types.{
  Status, approved, processing, completed, failed, Withdrawal, EventKey, GatewayEvent, EventStatus,
  received, ignored, orphan, processed, Store, notify, general, withdrawal_failed,
  withdrawal_completed, emit_status_changed, audit, receipt_and_proof,
}
use painel_mt_affiliates.Withdrawal.Rows.{has_id, status_in, update_many, find_unique, fire}
use painel_mt_affiliates.Withdrawal.Manage.{in_status}

pub record EventData : Type 0 where
  pub reference_code : Option String
  pub correlation_id : Option String
  pub status : Option String
  pub end_to_end : Option String
  pub error_message : Option String
  pub completed_at : Option ℕ
  pub refunded_amount : Option ℤ
  pub amount : Option ℤ

pub record Payload : Type 0 where
  pub event : Option String
  pub details : Option EventData

-- The answer of the handler, with the reason that it gives.
pub data Answer : Type 0 where
  invalid_payload duplicate_event ignored_event unknown_reference refund_ignored applied : Answer

pub data PayoutEvent : Type 0 where
  payout_completed payout_failed payout_refunded : PayoutEvent

abbrev pub payout_event : String → Option PayoutEvent
payout_event name =
    if str_eq name "PayOutCompleted"
    then some payout_completed
    else if str_eq name "PayOutFailed"
    then some payout_failed
    else if str_eq name "PayOutRefunded"
    then some payout_refunded
    else none

-- `a ?? b` on values that may be null
abbrev pub first_of_two : Option String → Option String → Option String
first_of_two none b = b
first_of_two (some a) b = some a

abbrev pub reference_of : Option EventData → Option String
reference_of none = none
reference_of (some d) = first_of_two d.reference_code d.correlation_id

abbrev pub key_eq : EventKey → EventKey → Bool
key_eq a b =
    str_eq a.provider b.provider && str_eq a.reference b.reference && str_eq a.event b.event

abbrev pub has_event : EventKey → Store → Bool
has_event key s = any (λ (e : GatewayEvent). key_eq e.key key) s.events

unfoldable pub update_events :
    EventKey → (GatewayEvent → GatewayEvent) → List GatewayEvent → List GatewayEvent
update_events key f [] = []
update_events key f (e ∷ es) = (if key_eq e.key key then f e else e) ∷ update_events key f es

abbrev pub set_event_status : EventKey → EventStatus → Store → Store
set_event_status key st s = record s {
  events = update_events key (λ e. record e { status = st }) s.events;
}

abbrev pub set_event_withdrawal : EventKey → String → Store → Store
set_event_withdrawal key id s = record s {
  events = update_events key (λ e. record e { withdrawal_id = some id }) s.events;
}

abbrev pub record_event : EventKey → Store → Store
record_event key s = record s {
  events = record { key = key; withdrawal_id = none; status = received } ∷ s.events;
}

abbrev pub has_gateway_id : String → Withdrawal → Bool
has_gateway_id reference w = elim w.gateway_id [ none ↦ false | some g ↦ str_eq g reference ]

-- by the gateway's id, else by our own, if the event names it
unfoldable pub lookup_withdrawal : String → EventData → Store → Option Withdrawal
unfolding find_unique
lookup_withdrawal reference d s = elim (find (has_gateway_id reference) s.withdrawals) [
  | some w ↦ some w
  | none ↦ if truthy d.correlation_id then find_unique (or_else d.correlation_id "") s else none
]

abbrev pub in_flight : List Status
in_flight = approved ∷ processing ∷ []

abbrev pub completed_row : ℕ → String → EventData → Withdrawal → Withdrawal
completed_row now name d w = record w {
  status = completed;
  gateway_status = some (or_else d.status name);
  gateway_completed_at = some (or_else d.completed_at now);
  gateway_end_to_end = d.end_to_end;
}

unfoldable pub apply_completed : ℕ → String → EventData → Withdrawal → Store → Store
unfolding update_many
apply_completed now name d w s =
    let (matched, s') = update_many (in_status w.id in_flight) (completed_row now name d) s in
    if matched
    then fire (emit_status_changed w.id completed (some processing))
        (fire (notify w.user_id withdrawal_completed) (fire (receipt_and_proof w.id) s'))
    else s'

abbrev pub failed_row : String → EventData → Withdrawal → Withdrawal
failed_row name d w = record w {
  status = failed;
  gateway_status = some (or_else d.status name);
  gateway_failure_reason = some (or_else d.error_message "Gateway reported PayOutFailed");
}

unfoldable pub apply_failed : String → EventData → Withdrawal → Store → Store
unfolding update_many
apply_failed name d w s =
    let (matched, s') = update_many (in_status w.id in_flight) (failed_row name d) s in
    if matched
    then fire (emit_status_changed w.id failed (some processing))
        (fire (notify w.user_id withdrawal_failed) s')
    else s'

-- `refundedAmount`, else `amount`
abbrev pub refund_of : EventData → Option ℤ
refund_of d = elim d.refunded_amount [ some r ↦ some r | none ↦ d.amount ]

-- `Math.max(0, Math.min(refunded, originalAmount))`
unfoldable pub clamp_refund : ℕ → ℤ → ℕ
clamp_refund original refunded = pos_part (max_ℤ (pos 0) (min_ℤ refunded (pos original)))

abbrev pub set_refund : Option ℤ → ℕ → Withdrawal → Withdrawal
set_refund none original w = w
set_refund (some r) original w = record w {
  gateway_refunded_amount = some (clamp_refund original r);
}

-- `gatewayStatus || 'REFUNDED'`
abbrev pub refund_status : String → String
refund_status status = if str_eq status "" then "REFUNDED" else status

abbrev pub refunded_row : ℕ → String → EventData → ℕ → Withdrawal → Withdrawal
refunded_row now name d original w = record (set_refund (refund_of d) original w) {
  gateway_status = some (refund_status (or_else d.status name));
  gateway_refunded_at = some (or_else d.completed_at now);
}

abbrev pub settled : List Status
settled = completed ∷ processing ∷ []

abbrev pub notify_refund : Option ℤ → ℕ → Withdrawal → Store → Store
notify_refund none original w s = s
notify_refund (some r) original w s =
    if ltb 0 (clamp_refund original r) then fire (notify w.user_id general) s else s

-- The row is read again for its original amount and status; a status that is not paid or in
-- flight ends the call.
unfoldable pub apply_refunded : ℕ → String → EventData → Withdrawal → Store → Bool × Store
unfolding update_many find_unique clamp_refund
apply_refunded now name d w s = elim (find_unique w.id s) [
  | none ↦ (true, fire (audit w.id) (notify_refund (refund_of d) 0 w s))
  | some v ↦
      if status_in v.status settled
      then (
        true,
        fire (audit w.id) (
            notify_refund (refund_of d) v.original_amount w
              (update_many (in_status w.id settled) (refunded_row now name d v.original_amount)
                s).1),
      )
      else (false, s)
]

abbrev pub finish : EventKey → Withdrawal → Store → Answer × Store
finish key w s = (applied, fire (audit w.id) (set_event_status key processed s))

unfoldable pub apply_event :
    ℕ → EventKey → PayoutEvent → EventData → Withdrawal → Store → Answer × Store
unfolding apply_completed apply_failed apply_refunded update_events
apply_event now key payout_completed d w s = finish key w (apply_completed now key.event d w s)
apply_event now key payout_failed d w s = finish key w (apply_failed key.event d w s)
apply_event now key payout_refunded d w s =
    let (done, s') = apply_refunded now key.event d w s in
    if done then finish key w s' else (refund_ignored, set_event_status key processed s')

-- after the event has been recorded
unfoldable pub process_event : ℕ → EventKey → EventData → Store → Answer × Store
unfolding lookup_withdrawal apply_event update_events
process_event now key d s = elim (payout_event key.event) [
  | none ↦ (ignored_event, set_event_status key ignored s)
  | some e ↦ elim (lookup_withdrawal key.reference d s) [
    | none ↦ (unknown_reference, set_event_status key orphan s)
    | some w ↦ apply_event now key e d w (set_event_withdrawal key w.id s)
  ]
]

abbrev pub no_data : EventData
no_data = record {
  reference_code = none;
  correlation_id = none;
  status = none;
  end_to_end = none;
  error_message = none;
  completed_at = none;
  refunded_amount = none;
  amount = none;
}

unfoldable pub handle_gateway_webhook_event : ℕ → String → Payload → Store → Answer × Store
unfolding process_event
handle_gateway_webhook_event now provider p s =
    let reference = reference_of p.details in
    if not (truthy p.event) || not (truthy reference)
    then (invalid_payload, s)
    else let key : EventKey = record {
      provider = provider;
      reference = or_else reference "";
      event = or_else p.event "";
    } in
      if has_event key s
      then (duplicate_event, s)
      else process_event now key (or_else p.details no_data) (record_event key s)
