-- ===== src/Withdrawal/Lifecycle/Delivery.antt =====
-- Each event of the gateway takes effect once, whatever calls come between its deliveries.

use painel_mt_affiliates.Common.{
  ltb, filter, take, ℕ, ◌-◌, ◌≡◌, refl, ap, ◌∙◌, inl, inr, Bool, true, Option, List, [], ◌∷◌,
  String, find, Bool-cases, Option-cases, arith,
}
use painel_mt_affiliates.Common.Int.{ℤ, pos, eqb_ℤ}
use painel_mt_affiliates.Withdrawal.Types.{Withdrawal, Store, EventKey}
use painel_mt_affiliates.Withdrawal.Rows.{update_many, has_id}
use painel_mt_affiliates.Withdrawal.Create.{Env, CreateDto, create}
use painel_mt_affiliates.Withdrawal.External.{create_for_external}
use painel_mt_affiliates.Withdrawal.Manage.{
  ExternalStatus, update_status, is_external_row, mark_paid_manually, set_status_for_external,
}
use painel_mt_affiliates.Withdrawal.Gateway.{
  BalanceResult, TransferResult, check_sufficient_balance,
}
use painel_mt_affiliates.Withdrawal.Approve.{
  approve_and_dispatch, claim, confirm_and_dispatch, dispatch, settle, settle_duplicate,
  settle_accepted, mark_failed, roll_back, send, normalize_pix_key_type,
}
use painel_mt_affiliates.Withdrawal.Webhook.{
  Payload, duplicate_event, has_event, handle_gateway_webhook_event,
}
use painel_mt_affiliates.Withdrawal.Reconcile.{
  PayoutStatus, event_of_status, build_synthetic_payout_payload, Counts, reconcile_one,
  reconcile_all, sort_by_sent, is_stuck, reconcile_stuck_processing,
}
use painel_mt_affiliates.Withdrawal.Webhook.Events.{
  key_of, is_valid, webhook-keeps, webhook-records, webhook-seen,
}
use painel_mt_affiliates.Withdrawal.Lifecycle.Steps.{
  Operation, do_create, do_create_external, do_update_status, do_mark_paid, do_set_external,
  do_approve, do_webhook, do_reconcile, run, run_all,
}

create-events :
    (env : Env) (id user : String) (dto : CreateDto) (s : Store)
    → (create env id user dto s).1.events ≡ s.events
unfolding create
create-events env id user dto s = ground arith

external-events :
    (env : Env) (id user pix : String) (dto : CreateDto) (s : Store)
    → (create_for_external env id user pix dto s).1.events ≡ s.events
unfolding create_for_external
external-events env id user pix dto s = ground arith

update_status-events :
    (now : ℕ) (id admin : String) (yes_ : Bool) (memo : Option String) (s : Store)
    → (update_status now id admin yes_ memo s).1.events ≡ s.events
unfolding update_status update_many
update_status-events now id admin yes_ memo s = ground arith

mark_paid-events :
    (now : ℕ) (id admin : String) (memo : Option String) (s : Store)
    → (mark_paid_manually now id admin memo s).1.events ≡ s.events
unfolding mark_paid_manually update_many
mark_paid-events now id admin memo s = ground arith

set_external-events :
    (id : String) (owners : List String) (target : ExternalStatus) (memo : Option String)
    (s : Store)
    → (set_status_for_external id owners target memo s).1.events ≡ s.events
unfolding set_status_for_external update_many
set_external-events id owners target memo s = ground arith

settle-events :
    (now : ℕ) (provider : String) (w : Withdrawal) (answer : TransferResult) (s : Store)
    → (settle now provider w answer s).1.events ≡ s.events
unfolding settle settle_duplicate settle_accepted mark_failed update_many
settle-events now provider w answer s = ground arith

dispatch-events :
    (now : ℕ) (provider : String) (balance : BalanceResult) (gateway : ℕ → TransferResult)
    (w : Withdrawal) (pix_key_type : String) (s : Store)
    → (dispatch now provider balance gateway w pix_key_type s).1.events ≡ s.events
unfolding dispatch send roll_back mark_failed update_many
dispatch-events now provider balance gateway w t s =
    let cents : ℕ = w.original_amount - w.withdrawal_fee in
    elim (Bool-cases (ltb 0 cents)) [
      | inr c ↦ rw c refl
      | inl c ↦ elim (Bool-cases (check_sufficient_balance balance cents)) [
        | inr b ↦ rw (c, b) refl
        | inl b ↦ rw (c, b) (settle-events now provider w (gateway cents) (send w t cents s))
      ]
    ]

approve-events :
    (now : ℕ) (provider id admin : String) (memo : Option String) (amount : ℤ)
    (balance : BalanceResult) (gateway : ℕ → TransferResult) (s : Store)
    → (approve_and_dispatch now provider id admin memo amount balance gateway s).1.events ≡ s.events
unfolding approve_and_dispatch claim confirm_and_dispatch roll_back mark_failed update_many
approve-events now provider id admin memo amount balance gateway s =
    let s' = (claim now id admin memo s).1 in
    elim (Bool-cases (is_external_row id s)) [
      | inl e ↦ rw e refl
      | inr e ↦ elim (Bool-cases (claim now id admin memo s).0) [
        | inr c ↦ rw (e, c) refl
        | inl c ↦ elim (Option-cases (find (has_id id) s'.withdrawals)) [
          | inl f ↦ rw (e, c, f) refl
          | inr (w, f) ↦ elim (Bool-cases (eqb_ℤ (pos w.original_amount) amount)) [
            | inr a ↦ rw (e, c, f, a) refl
            | inl a ↦ elim (Option-cases (normalize_pix_key_type w.pix_key_type)) [
              | inl t ↦ rw (e, c, f, a, t) refl
              | inr (t, n) ↦
                  rw (e, c, f, a, n) (dispatch-events now provider balance gateway w t s')
            ]
          ]
        ]
      ]
    ]

reconcile_one-keeps :
    (now : ℕ) (provider : String) (query : String → Option PayoutStatus) (w : Withdrawal)
    (c : Counts) (k : EventKey) (s : Store)
    → has_event k s ≡ true
    → has_event k (reconcile_one now provider query w (c, s)).1 ≡ true
unfolding reconcile_one
reconcile_one-keeps now provider query w c k s h = elim (Option-cases w.gateway_id) [
  | inl e ↦ rw (e, reconcile_one) h
  | inr (g, e) ↦ elim (Option-cases (query g)) [
    | inl q ↦ rw (e, q, reconcile_one) h
    | inr (d, q) ↦ elim (Option-cases (event_of_status d.status)) [
      | inl n ↦ rw (e, q, n, reconcile_one) h
      | inr (name, n) ↦
          rw (e, q, n, reconcile_one)
            (webhook-keeps now provider (build_synthetic_payout_payload name w.id d) k s h)
    ]
  ]
]

reconcile_all-keeps :
    (now : ℕ) (provider : String) (query : String → Option PayoutStatus) (ws : List Withdrawal)
    (acc : Counts × Store) (k : EventKey)
    → has_event k acc.1 ≡ true
    → has_event k (reconcile_all now provider query ws acc).1 ≡ true
unfolding reconcile_all
reconcile_all-keeps now provider query [] acc k h = h
reconcile_all-keeps now provider query (w ∷ ws) (c, s) k h =
    reconcile_all-keeps now provider query ws (reconcile_one now provider query w (c, s)) k
      (reconcile_one-keeps now provider query w c k s h)

run-keeps :
    (op : Operation) (k : EventKey) (s : Store)
    → has_event k s ≡ true
    → has_event k (run op s) ≡ true
unfolding run reconcile_stuck_processing
run-keeps (do_create env id user dto) k s h = rw (create-events env id user dto s) h
run-keeps (do_create_external env id user pix dto) k s h =
    rw (external-events env id user pix dto s) h
run-keeps (do_update_status now id admin yes_ memo) k s h =
    rw (update_status-events now id admin yes_ memo s) h
run-keeps (do_mark_paid now id admin memo) k s h = rw (mark_paid-events now id admin memo s) h
run-keeps (do_set_external id owners target memo) k s h =
    rw (set_external-events id owners target memo s) h
run-keeps (do_approve now provider id admin memo amount balance gateway) k s h =
    rw (approve-events now provider id admin memo amount balance gateway s) h
run-keeps (do_webhook now provider p) k s h = webhook-keeps now provider p k s h
run-keeps (do_reconcile now provider query) k s h =
    reconcile_all-keeps now provider query
      (take 50 (sort_by_sent (filter (is_stuck now) s.withdrawals))) (_, s) k h

run_all-keeps :
    (ops : List Operation) (k : EventKey) (s : Store)
    → has_event k s ≡ true
    → has_event k (run_all ops s) ≡ true
unfolding run_all
run_all-keeps [] k s h = h
run_all-keeps (op ∷ ops) k s h = run_all-keeps ops k (run op s) (run-keeps op k s h)

-- Once a valid payload has been handled, with whatever answer, and whatever calls follow, handling
-- a payload of the same provider, reference and event again answers `duplicate_event` and changes
-- nothing in the store.
pub webhook-once :
    (now now' : ℕ) (provider : String) (p p' : Payload) (ops : List Operation) (s : Store)
    → is_valid p ≡ true
    → is_valid p' ≡ true
    → key_of provider p' ≡ key_of provider p
    → handle_gateway_webhook_event now' provider p'
        (run_all ops (handle_gateway_webhook_event now provider p s).1)
      ≡ (duplicate_event, run_all ops (handle_gateway_webhook_event now provider p s).1)
webhook-once now now' provider p p' ops s valid valid' same =
    let s' = (handle_gateway_webhook_event now provider p s).1 in
    webhook-seen now' provider p' (run_all ops s') valid' (
      ap (λ k. has_event k (run_all ops s')) same
      ∙ run_all-keeps ops (key_of provider p) s' (webhook-records now provider p s valid))
