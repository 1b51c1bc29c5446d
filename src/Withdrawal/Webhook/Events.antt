-- ===== src/Withdrawal/Webhook/Events.antt =====
-- The record of events: what is recorded stays recorded, and ends a second delivery at once.
use text.Mathlib.TextPositions.{eq_refl}
use painel_mt_affiliates.Common.{
  ℕ, ◌≡◌, refl, ap, ◌∙◌, inl, inr, Bool, true, false, not, ◌&&◌, ◌||◌, Option, none, some, List, [],
  ◌∷◌, String, any, or_else, truthy, ltb, Bool-cases, Option-cases, find,
}
use painel_mt_affiliates.Common.Int.{ℤ}
use painel_mt_affiliates.Withdrawal.Types.{
  Withdrawal, EventKey, EventStatus, GatewayEvent, Store, processed, orphan, ignored,
}
use painel_mt_affiliates.Withdrawal.Rows.{status_in, update_many, find_unique, has_id}
use painel_mt_affiliates.Withdrawal.Manage.{in_status}
use painel_mt_affiliates.Withdrawal.Webhook.{
  EventData, Payload, duplicate_event, PayoutEvent, payout_completed, payout_failed,
  payout_refunded, payout_event, reference_of, key_eq, has_event, update_events, record_event,
  set_event_status, set_event_withdrawal, lookup_withdrawal, in_flight, settled, apply_completed,
  apply_failed, refund_of, clamp_refund, notify_refund, apply_refunded, apply_event, process_event,
  no_data, handle_gateway_webhook_event,
}

-- The key under which a payload is recorded.
abbrev pub key_of : String → Payload → EventKey
key_of provider p = record {
  provider = provider;
  reference = or_else (reference_of p.details) "";
  event = or_else p.event "";
}

-- A payload that names an event and a reference.
abbrev pub is_valid : Payload → Bool
is_valid p = truthy p.event && truthy (reference_of p.details)

key_eq_refl : (k : EventKey) → key_eq k k ≡ true
key_eq_refl k = rw (eq_refl k.provider, eq_refl k.reference, eq_refl k.event) refl

has-update_events :
    (k key : EventKey) (f : GatewayEvent → GatewayEvent) (es : List GatewayEvent)
    → ((e : GatewayEvent) → (f e).key ≡ e.key)
    → any (λ (e : GatewayEvent). key_eq e.key k) (update_events key f es)
      ≡ any (λ (e : GatewayEvent). key_eq e.key k) es
unfolding update_events
has-update_events k key f [] keep = refl
has-update_events k key f (e ∷ es) keep = elim (Bool-cases (key_eq e.key key)) [
  | inl t ↦ rw (t, keep e, has-update_events k key f es keep) refl
  | inr t ↦ rw (t, has-update_events k key f es keep) refl
]

completed-events :
    (now : ℕ) (name : String) (d : EventData) (w : Withdrawal) (s : Store)
    → (apply_completed now name d w s).events ≡ s.events
unfolding apply_completed update_many
completed-events now name d w s = elim (Bool-cases (any (in_status w.id in_flight) s.withdrawals)) [
  | inl m ↦ rw m refl
  | inr m ↦ rw m refl
]

failed-events :
    (name : String) (d : EventData) (w : Withdrawal) (s : Store)
    → (apply_failed name d w s).events ≡ s.events
unfolding apply_failed update_many
failed-events name d w s = elim (Bool-cases (any (in_status w.id in_flight) s.withdrawals)) [
  | inl m ↦ rw m refl
  | inr m ↦ rw m refl
]

notify_refund-events :
    (r : Option ℤ) (original : ℕ) (w : Withdrawal) (s : Store)
    → (notify_refund r original w s).events ≡ s.events
notify_refund-events none original w s = refl
notify_refund-events (some r) original w s = elim (Bool-cases (ltb 0 (clamp_refund original r))) [
  | inl h ↦ rw h refl
  | inr h ↦ rw h refl
]

refunded-events :
    (now : ℕ) (name : String) (d : EventData) (w : Withdrawal) (s : Store)
    → (apply_refunded now name d w s).1.events ≡ s.events
unfolding apply_refunded update_many find_unique
refunded-events now name d w s = elim (Option-cases (find (has_id w.id) s.withdrawals)) [
  | inl e ↦ rw (e, apply_refunded) (notify_refund-events (refund_of d) 0 w s)
  | inr (v, e) ↦ elim (Bool-cases (status_in v.status settled)) [
    | inr st ↦ rw (e, st, apply_refunded) refl
    | inl st ↦ rw (e, st, apply_refunded) (notify_refund-events (refund_of d) v.original_amount w _)
  ]
]

abbrev KeepsEvents : (Store → Store) → Type 0
KeepsEvents f = (k : EventKey) (s : Store) → has_event k (f s) ≡ has_event k s

status-kept : (key : EventKey) (st : EventStatus) → KeepsEvents (set_event_status key st)
status-kept key st k s =
    has-update_events k key (λ e. record e { status = st }) s.events (λ e. refl)

abbrev has : EventKey → List GatewayEvent → Bool
has k = any (λ (e : GatewayEvent). key_eq e.key k)

apply_event-kept :
    (now : ℕ) (key : EventKey) (e : PayoutEvent) (d : EventData) (w : Withdrawal)
    → KeepsEvents (λ s. (apply_event now key e d w s).1)
unfolding apply_event
apply_event-kept now key payout_completed d w k s =
    status-kept key processed k (apply_completed now key.event d w s)
    ∙ ap (has k) (completed-events now key.event d w s)
apply_event-kept now key payout_failed d w k s =
    status-kept key processed k (apply_failed key.event d w s)
    ∙ ap (has k) (failed-events key.event d w s)
apply_event-kept now key payout_refunded d w k s =
    let kept =
      status-kept key processed k (apply_refunded now key.event d w s).1
      ∙ ap (has k) (refunded-events now key.event d w s) in
    elim (Bool-cases (apply_refunded now key.event d w s).0) [
      | inl e ↦ rw e kept
      | inr e ↦ rw e kept
    ]

process_event-kept :
    (now : ℕ) (key : EventKey) (d : EventData) → KeepsEvents (λ s. (process_event now key d s).1)
unfolding process_event
process_event-kept now key d k s = elim (Option-cases (payout_event key.event)) [
  | inl e ↦ rw (e, process_event) (status-kept key ignored k s)
  | inr (kind, e) ↦ elim (Option-cases (lookup_withdrawal key.reference d s)) [
    | inl f ↦ rw (e, f, process_event) (status-kept key orphan k s)
    | inr (w, f) ↦
        rw (e, f, process_event)
          (apply_event-kept now key kind d w k (set_event_withdrawal key w.id s)
            ∙ has-update_events k key (λ e. record e { withdrawal_id = some w.id }) s.events
                (λ e. refl))
  ]
]

-- The events recorded before the call are recorded after it.
pub webhook-keeps :
    (now : ℕ) (provider : String) (p : Payload) (k : EventKey) (s : Store)
    → has_event k s ≡ true
    → has_event k (handle_gateway_webhook_event now provider p s).1 ≡ true
unfolding handle_gateway_webhook_event
webhook-keeps now provider p k s h =
    let key = key_of provider p in
    elim (Bool-cases (not (truthy p.event) || not (truthy (reference_of p.details)))) [
      | inl v ↦ rw v h
      | inr v ↦ elim (Bool-cases (has_event key s)) [
        | inl seen ↦ rw (v, seen) h
        | inr new ↦
            rw (v, new)
              (process_event-kept now key (or_else p.details no_data) k (record_event key s)
                ∙ rw h (or-true (key_eq key k)))
      ]
    ]
  where
    or-true : (b : Bool) → (b || true) ≡ true
    or-true true = refl
    or-true false = refl

valid-guard : (a b : Bool) → (a && b) ≡ true → (not a || not b) ≡ false
valid-guard true true h = refl
valid-guard true false h = absurd (cc)
valid-guard false b h = absurd (cc)

-- Whatever the answer to a valid payload, its event is recorded.
pub webhook-records :
    (now : ℕ) (provider : String) (p : Payload) (s : Store)
    → is_valid p ≡ true
    → has_event (key_of provider p) (handle_gateway_webhook_event now provider p s).1 ≡ true
unfolding handle_gateway_webhook_event
webhook-records now provider p s valid =
    let key = key_of provider p in
    let guard = valid-guard (truthy p.event) (truthy (reference_of p.details)) valid in
    elim (Bool-cases (has_event key s)) [
      | inl seen ↦ rw (guard, seen) seen
      | inr new ↦
          rw (guard, new)
            (process_event-kept now key (or_else p.details no_data) key (record_event key s)
              ∙ rw (key_eq_refl key) refl)
    ]

-- An event that is recorded ends the call.
pub webhook-seen :
    (now : ℕ) (provider : String) (p : Payload) (s : Store)
    → is_valid p ≡ true
    → has_event (key_of provider p) s ≡ true
    → handle_gateway_webhook_event now provider p s ≡ (duplicate_event, s)
unfolding handle_gateway_webhook_event
webhook-seen now provider p s valid seen =
    rw (valid-guard (truthy p.event) (truthy (reference_of p.details)) valid, seen) refl
