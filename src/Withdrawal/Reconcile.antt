-- ===== src/Withdrawal/Reconcile.antt =====
-- `reconcileStuckProcessing`: asks the gateway for payouts whose events did not come.
-- backend-vexxa/src/modules/withdrawal/application/withdrawal.service.ts.
use painel_mt_affiliates.Common.{
  ℕ, ◌+◌, Bool, false, ◌&&◌, ◌||◌, Option, none, some, List, [], ◌∷◌, String, str_eq, filter, take,
  length, leb, or_else, is_some, ltb, if◌then◌else◌,
}
use painel_mt_affiliates.Withdrawal.Types.{processing, Withdrawal, Store}
use painel_mt_affiliates.Withdrawal.Rows.{status_in}
use painel_mt_affiliates.Withdrawal.Webhook.{Payload, Answer, applied, handle_gateway_webhook_event}

-- `getPayoutStatus`, with the status in lower case; `none` where the query fails
pub record PayoutStatus : Type 0 where
  pub reference_code : String
  pub status : String
  pub completed_at : Option ℕ
  pub error_message : Option String

abbrev pub event_of_status : String → Option String
event_of_status status =
    if str_eq status "completed"
    then some "PayOutCompleted"
    else if str_eq status "failed" || str_eq status "rejected"
    then some "PayOutFailed"
    else none

unfoldable pub build_synthetic_payout_payload : String → String → PayoutStatus → Payload
build_synthetic_payout_payload event id d = record {
  event = some event;
  details = some (record {
    reference_code = some d.reference_code;
    correlation_id = some id;
    status = some d.status;
    end_to_end = none;
    error_message = d.error_message;
    completed_at = d.completed_at;
    refunded_amount = none;
    amount = none;
  });
}

-- sent more than ten minutes ago, and no answer yet
abbrev pub is_stuck : ℕ → Withdrawal → Bool
is_stuck now w =
    status_in w.status (processing ∷ [])
    && is_some w.gateway_id
    && (elim w.gateway_sent_at [ none ↦ false | some t ↦ ltb (t + 600000) now ])

pub record Counts : Type 0 where
  pub checked : ℕ
  pub completed : ℕ
  pub failed : ℕ

abbrev pub tally : String → Answer → Counts → Counts
tally event applied c =
    if str_eq event "PayOutCompleted"
    then record c { completed = c.completed + 1 }
    else record c { failed = c.failed + 1 }
tally event _ c = c

-- one round of the loop of `reconcileStuckProcessing`
unfoldable pub reconcile_one :
    ℕ → String → (String → Option PayoutStatus) → Withdrawal → Counts × Store → Counts × Store
unfolding handle_gateway_webhook_event build_synthetic_payout_payload
reconcile_one now provider query w (c, s) = elim w.gateway_id [
  | none ↦ (c, s)
  | some g ↦ elim (query g) [
    | none ↦ (c, s)
    | some d ↦ elim (event_of_status d.status) [
      | none ↦ (c, s)
      | some event ↦
          let (answer, s') =
            handle_gateway_webhook_event now provider (build_synthetic_payout_payload event w.id d)
              s in
          (tally event answer c, s')
    ]
  ]
]

unfoldable pub reconcile_all :
    ℕ → String → (String → Option PayoutStatus) → List Withdrawal → Counts × Store → Counts × Store
unfolding reconcile_one
reconcile_all now provider query [] acc = acc
reconcile_all now provider query (w ∷ ws) acc =
    reconcile_all now provider query ws (reconcile_one now provider query w acc)

-- `orderBy: { gatewaySentAt: 'asc' }`
abbrev pub sent_at : Withdrawal → ℕ
sent_at w = or_else w.gateway_sent_at 0

abbrev pub insert_by_sent : Withdrawal → List Withdrawal → List Withdrawal
insert_by_sent w [] = w ∷ []
insert_by_sent w (v ∷ vs) =
    if leb (sent_at w) (sent_at v) then w ∷ v ∷ vs else v ∷ insert_by_sent w vs

abbrev pub sort_by_sent : List Withdrawal → List Withdrawal
sort_by_sent [] = []
sort_by_sent (w ∷ ws) = insert_by_sent w (sort_by_sent ws)

-- The 50 that wait longest, looked up once before the loop.
unfoldable pub reconcile_stuck_processing :
    ℕ → String → (String → Option PayoutStatus) → Store → Counts × Store
unfolding reconcile_all
reconcile_stuck_processing now provider query s =
    let stuck = take 50 (sort_by_sent (filter (is_stuck now) s.withdrawals)) in
    reconcile_all now provider query stuck
      (record { checked = length stuck; completed = 0; failed = 0 }, s)
