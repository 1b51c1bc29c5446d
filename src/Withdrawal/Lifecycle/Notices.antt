-- ===== src/Withdrawal/Lifecycle/Notices.antt =====
-- What the gateway's events and the reconciliation do to the rows.
use painel_mt_affiliates.Common.{
  ℕ, ◌≤◌, ◌≡◌, refl, inl, inr, Bool, true, not, ◌||◌, Option, none, some, List, [], ◌∷◌, String,
  All-map, arith, find, any, take, filter, Bool-cases, Option-cases, truthy, or_else, ltb,
}
use painel_mt_affiliates.Common.Int.{ℤ}
use painel_mt_affiliates.Withdrawal.Types.{
  Status, approved, processing, completed, Withdrawal, Store, EventKey,
}
use painel_mt_affiliates.Withdrawal.Rows.{status_in, update_rows, update_many, has_id, find_unique}
use painel_mt_affiliates.Withdrawal.Manage.{in_status}
use painel_mt_affiliates.Withdrawal.Webhook.{
  EventData, Payload, PayoutEvent, payout_completed, payout_failed, payout_refunded, payout_event,
  reference_of, has_event, set_event_withdrawal, record_event, lookup_withdrawal, in_flight,
  completed_row, apply_completed, failed_row, apply_failed, refund_of, clamp_refund, refunded_row,
  settled, notify_refund, apply_refunded, apply_event, process_event, no_data,
  handle_gateway_webhook_event,
}
use painel_mt_affiliates.Withdrawal.Reconcile.{
  PayoutStatus, event_of_status, build_synthetic_payout_payload, is_stuck, Counts, reconcile_one,
  reconcile_all, sort_by_sent, reconcile_stuck_processing,
}
use painel_mt_affiliates.Withdrawal.Lifecycle.Steps
use painel_mt_affiliates.Withdrawal.Lifecycle.Steps.{
  Leads, stays, onwards, fixed, Refunds, Step, IsUnique, Moves,
}
use painel_mt_affiliates.Withdrawal.Lifecycle.Growth.{
  Moves-refl, Moves-trans, Moves-update, Moves-update-All, &&-left, &&-right, may_break,
}
use painel_mt_affiliates.Withdrawal.Lifecycle.Identity.{IsUnique-found, IsUnique-Moves}
use painel_mt_affiliates.Withdrawal.Lifecycle.Dispatch.{OnlyMoves}

clamp_refund-le : (original : ℕ) (r : ℤ) → clamp_refund original r ≤ original
unfolding clamp_refund
clamp_refund-le original r = ground arith

notify_refund-rows :
    (r : Option ℤ) (original : ℕ) (w : Withdrawal) (s : Store)
    → (notify_refund r original w s).withdrawals ≡ s.withdrawals
notify_refund-rows none original w s = refl
notify_refund-rows (some r) original w s = elim (Bool-cases (ltb 0 (clamp_refund original r))) [
  | inl h ↦ rw h refl
  | inr h ↦ rw h refl
]

module _ (b : Bool) where
  may_complete : (s : Status) → status_in s in_flight ≡ true → Leads b s completed
  may_complete approved h = onwards Steps.pay_claimed stays
  may_complete processing h = onwards Steps.pay_sent stays
  may_complete _ h = absurd (cc)

  pub Moves-completed :
      (now : ℕ) (name : String) (d : EventData) (w : Withdrawal)
      → OnlyMoves b (apply_completed now name d w)
  unfolding apply_completed update_many
  Moves-completed now name d w s =
      let grown =
        Moves-update b (in_status w.id in_flight) (completed_row now name d)
          (λ v h. record {
            keeps = refl;
            leads = may_complete v.status (&&-right (has_id w.id v) _ h);
            refunds = inl refl;
          })
          s.withdrawals in
      elim (Bool-cases (any (in_status w.id in_flight) s.withdrawals)) [
        | inl m ↦ rw m grown
        | inr m ↦ rw m grown
      ]

  pub Moves-failed :
      (name : String) (d : EventData) (w : Withdrawal) → OnlyMoves b (apply_failed name d w)
  unfolding apply_failed update_many
  Moves-failed name d w s =
      let grown =
        Moves-update b (in_status w.id in_flight) (failed_row name d)
          (λ v h. record {
            keeps = refl;
            leads = may_break b v.status (&&-right (has_id w.id v) _ h);
            refunds = inl refl;
          })
          s.withdrawals in
      elim (Bool-cases (any (in_status w.id in_flight) s.withdrawals)) [
        | inl m ↦ rw m grown
        | inr m ↦ rw m grown
      ]

  refunded-Step :
      (now : ℕ) (name : String) (d : EventData) (r : Option ℤ) (v w : Withdrawal)
      → refund_of d ≡ r
      → w ≡ v
      → Step b w (refunded_row now name d v.original_amount w)
  refunded-Step now name d none v w e same =
      rw e (record { keeps = refl; leads = stays; refunds = inl refl })
  refunded-Step now name d (some r) v w e same =
      rw (e, same)
        (record {
          keeps = refl;
          leads = stays;
          refunds =
              inr (clamp_refund v.original_amount r, refl, clamp_refund-le v.original_amount r);
        })

  -- The calls that need the ids to be unique, because they write what they read by an id.
  abbrev pub UniqueMoves : (Store → Store) → Type 0
  UniqueMoves f = (s : Store) → IsUnique s.withdrawals → Moves b s.withdrawals (f s).withdrawals

  pub Moves-refunded :
      (now : ℕ) (name : String) (d : EventData) (w : Withdrawal)
      → UniqueMoves (λ s. (apply_refunded now name d w s).1)
  unfolding apply_refunded update_many find_unique
  Moves-refunded now name d w s u = elim (Option-cases (find (has_id w.id) s.withdrawals)) [
    | inl e ↦
        rw (e, apply_refunded)
          (rw (notify_refund-rows (refund_of d) 0 w s) (Moves-refl b s.withdrawals))
    | inr (v, e) ↦ elim (Bool-cases (status_in v.status settled)) [
      | inr st ↦ rw (e, st, apply_refunded) (Moves-refl b s.withdrawals)
      | inl st ↦
          let f = refunded_row now name d v.original_amount in
          let rows = update_rows (in_status w.id settled) f s.withdrawals in
          rw (e, st, apply_refunded)
            (rw
              (notify_refund-rows (refund_of d) v.original_amount w
                (record s { withdrawals = rows }))
              (Moves-update-All b (in_status w.id settled) f s.withdrawals (
                All-map _ _
                  (λ x same t.
                    refunded-Step now name d (refund_of d) v x refl
                      (same (&&-left (has_id w.id x) _ t)))
                  s.withdrawals (IsUnique-found w.id v s.withdrawals u e))))
    ]
  ]

  pub Moves-apply_event :
      (now : ℕ) (key : EventKey) (e : PayoutEvent) (d : EventData) (w : Withdrawal)
      → UniqueMoves (λ s. (apply_event now key e d w s).1)
  unfolding apply_event
  Moves-apply_event now key payout_completed d w s u = Moves-completed now key.event d w s
  Moves-apply_event now key payout_failed d w s u = Moves-failed key.event d w s
  Moves-apply_event now key payout_refunded d w s u =
      elim (Bool-cases (apply_refunded now key.event d w s).0) [
        | inl e ↦ rw e (Moves-refunded now key.event d w s u)
        | inr e ↦ rw e (Moves-refunded now key.event d w s u)
      ]

  pub Moves-process :
      (now : ℕ) (key : EventKey) (d : EventData) → UniqueMoves (λ s. (process_event now key d s).1)
  unfolding process_event
  Moves-process now key d s u = elim (Option-cases (payout_event key.event)) [
    | inl e ↦ rw (e, process_event) (Moves-refl b s.withdrawals)
    | inr (k, e) ↦ elim (Option-cases (lookup_withdrawal key.reference d s)) [
      | inl f ↦ rw (e, f, process_event) (Moves-refl b s.withdrawals)
      | inr (w, f) ↦
          rw (e, f, process_event)
            (Moves-apply_event now key k d w (set_event_withdrawal key w.id s) u)
    ]
  ]

  pub Moves-webhook :
      (now : ℕ) (provider : String) (p : Payload)
      → UniqueMoves (λ s. (handle_gateway_webhook_event now provider p s).1)
  unfolding handle_gateway_webhook_event
  Moves-webhook now provider p s u =
      let key : EventKey = record {
        provider = provider;
        reference = or_else (reference_of p.details) "";
        event = or_else p.event "";
      } in
      elim (Bool-cases (not (truthy p.event) || not (truthy (reference_of p.details)))) [
        | inl v ↦ rw v (Moves-refl b s.withdrawals)
        | inr v ↦ elim (Bool-cases (has_event key s)) [
          | inl k ↦ rw (v, k) (Moves-refl b s.withdrawals)
          | inr k ↦
              rw (v, k) (Moves-process now key (or_else p.details no_data) (record_event key s) u)
        ]
      ]

  Moves-reconcile_one :
      (now : ℕ) (provider : String) (query : String → Option PayoutStatus) (w : Withdrawal)
      (c : Counts)
      → UniqueMoves (λ s. (reconcile_one now provider query w (c, s)).1)
  unfolding reconcile_one
  Moves-reconcile_one now provider query w c s u = elim (Option-cases w.gateway_id) [
    | inl e ↦ rw (e, reconcile_one) (Moves-refl b s.withdrawals)
    | inr (g, e) ↦ elim (Option-cases (query g)) [
      | inl q ↦ rw (e, q, reconcile_one) (Moves-refl b s.withdrawals)
      | inr (d, q) ↦ elim (Option-cases (event_of_status d.status)) [
        | inl n ↦ rw (e, q, n, reconcile_one) (Moves-refl b s.withdrawals)
        | inr (name, n) ↦
            rw (e, q, n, reconcile_one)
              (Moves-webhook now provider (build_synthetic_payout_payload name w.id d) s u)
      ]
    ]
  ]

  Moves-reconcile_all :
      (now : ℕ) (provider : String) (query : String → Option PayoutStatus) (ws : List Withdrawal)
      (acc : Counts × Store)
      → IsUnique acc.1.withdrawals
      → Moves b acc.1.withdrawals (reconcile_all now provider query ws acc).1.withdrawals
  unfolding reconcile_all
  Moves-reconcile_all now provider query [] (c, s) u = Moves-refl b s.withdrawals
  Moves-reconcile_all now provider query (w ∷ ws) (c, s) u =
      let next = reconcile_one now provider query w (c, s) in
      let moved = Moves-reconcile_one now provider query w c s u in
      Moves-trans b s.withdrawals next.1.withdrawals _ moved (
        Moves-reconcile_all now provider query ws next
          (IsUnique-Moves b s.withdrawals next.1.withdrawals moved u))

  pub Moves-reconcile :
      (now : ℕ) (provider : String) (query : String → Option PayoutStatus)
      → UniqueMoves (λ s. (reconcile_stuck_processing now provider query s).1)
  unfolding reconcile_stuck_processing
  Moves-reconcile now provider query s u =
      Moves-reconcile_all now provider query
        (take 50 (sort_by_sent (filter (is_stuck now) s.withdrawals))) (_, s) u
