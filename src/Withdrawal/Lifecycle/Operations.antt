-- ===== src/Withdrawal/Lifecycle/Operations.antt =====
-- What each operation does to the rows: a step of the diagram at most, and new rows behind them.
use painel_mt_affiliates.Common.{
  ℕ, ◌≡◌, refl, inl, inr, Bool, true, ◌&&◌, Option, none, some, List, [], ◌∷◌, String, find, any,
  Bool-cases, Option-cases,
}
use painel_mt_affiliates.Withdrawal.Types.{
  Status, pending, approved, rejected, processing, completed, Withdrawal, Store,
}
use painel_mt_affiliates.Withdrawal.Rows.{status_in, update_rows, update_many, has_id}
use painel_mt_affiliates.Withdrawal.Manage.{
  with_note, in_status, reload, is_external_row, update_status, reject_row, after_reject,
  mark_paid_manually, paid_row, after_paid, ExternalStatus, to_processing, to_completed,
  to_rejected, external_to, external_from, external_row_of, set_status_for_external, is_empty,
}
use painel_mt_affiliates.Withdrawal.Lifecycle.Steps.{
  pay_pending, pay_sent, Leads, stays, onwards, fixed, Step, Moves,
}
use painel_mt_affiliates.Withdrawal.Lifecycle.Growth.{
  Moves-refl, Moves-update, &&-right, may_refuse, may_refuse_any, may_pay, may_start,
}

-- A reload changes no row, if what follows it does not.
pub reload-rows :
    (id : String) (s : Store) (after : Withdrawal → Store → Store)
    → ((w : Withdrawal) → (after w s).withdrawals ≡ s.withdrawals)
    → (reload id s after).1.withdrawals ≡ s.withdrawals
reload-rows id s after h = elim (Option-cases (find (has_id id) s.withdrawals)) [
  | inl e ↦ rw (e, reload) refl
  | inr (w, e) ↦ rw (e, reload) (h w)
]

module _ (b : Bool) where
  -- A row function that moves the status and may take a note.
  pub with_note-moves :
      (f : Withdrawal → Withdrawal) (note : Option String) (t : Status) (w : Withdrawal)
      → ((v : Withdrawal)
          → (fixed (f v) ≡ fixed v)
            × ((f v).status ≡ t)
            × ((f v).gateway_refunded_amount ≡ v.gateway_refunded_amount))
      → Leads b w.status t
      → Step b w (f (with_note note w))
  with_note-moves f none t w h l =
      let (k, s, r) = h w in record { keeps = k; leads = rw s l; refunds = inl r }
  with_note-moves f (some n) t w h l =
      let (k, s, r) = h (with_note (some n) w) in
      record { keeps = k; leads = rw s l; refunds = inl r }

  pub Moves-update_status :
      (now : ℕ) (id admin : String) (yes_ : Bool) (note : Option String) (s : Store)
      → Moves b s.withdrawals (update_status now id admin yes_ note s).1.withdrawals
  unfolding update_status update_many
  Moves-update_status now id admin yes_ note s =
      let test = in_status id (pending ∷ []) in
      let f = reject_row admin note now in
      let grown =
        Moves-update b test f
          (λ w h.
            with_note-moves
              (λ v. record v {
                status = rejected;
                approved_at = some now;
                approved_by = some admin;
              })
              note rejected w (λ v. (refl, refl, refl))
              (may_refuse b w.status (&&-right (has_id id w) _ h)))
          s.withdrawals in
      elim (Bool-cases (is_external_row id s)) [
        | inl e ↦ rw e (Moves-refl b s.withdrawals)
        | inr e ↦ elim (Bool-cases yes_) [
          | inl y ↦ rw (e, y) (Moves-refl b s.withdrawals)
          | inr y ↦ elim (Bool-cases (any test s.withdrawals)) [
            | inl m ↦
                rw (e, y, m)
                  (rw
                    (reload-rows id (record s { withdrawals = update_rows test f s.withdrawals })
                      after_reject (λ w. refl))
                    grown)
            | inr m ↦ rw (e, y, m) grown
          ]
        ]
      ]

  pub Moves-mark_paid :
      (now : ℕ) (id admin : String) (note : Option String) (s : Store)
      → Moves b s.withdrawals (mark_paid_manually now id admin note s).1.withdrawals
  unfolding mark_paid_manually update_many
  Moves-mark_paid now id admin note s =
      let test = in_status id (pending ∷ approved ∷ processing ∷ []) in
      let f = paid_row admin note now in
      let grown =
        Moves-update b test f
          (λ w h.
            with_note-moves
              (λ v. record v {
                status = completed;
                approved_at = some now;
                approved_by = some admin;
              })
              note completed w (λ v. (refl, refl, refl))
              (may_pay b w.status (&&-right (has_id id w) _ h)))
          s.withdrawals in
      elim (Bool-cases (is_external_row id s)) [
        | inl e ↦ rw e (Moves-refl b s.withdrawals)
        | inr e ↦ elim (Bool-cases (any test s.withdrawals)) [
          | inl m ↦
              rw (e, m)
                (rw
                  (reload-rows id (record s { withdrawals = update_rows test f s.withdrawals })
                    after_paid (λ w. refl))
                  grown)
          | inr m ↦ rw (e, m) grown
        ]
      ]

  external-Leads :
      (target : ExternalStatus) (s : Status)
      → status_in s (external_from target) ≡ true
      → Leads b s (external_to target)
  external-Leads to_processing s h = may_start b s h
  external-Leads to_completed pending h = onwards pay_pending stays
  external-Leads to_completed processing h = onwards pay_sent stays
  external-Leads to_completed _ h = absurd (cc)
  external-Leads to_rejected s h = may_refuse_any b s h

  pub Moves-set_external :
      (id : String) (owners : List String) (target : ExternalStatus) (note : Option String)
      (s : Store)
      → Moves b s.withdrawals (set_status_for_external id owners target note s).1.withdrawals
  unfolding set_status_for_external update_many
  Moves-set_external id owners target note s =
      let test : Withdrawal → Bool =
        λ w. external_row_of id owners w && status_in w.status (external_from target) in
      let f : Withdrawal → Withdrawal =
        λ w. record (with_note note w) { status = external_to target } in
      let grown =
        Moves-update b test f
          (λ w h.
            with_note-moves (λ v. record v { status = external_to target }) note
              (external_to target) w (λ v. (refl, refl, refl))
              (external-Leads target w.status (&&-right (external_row_of id owners w) _ h)))
          s.withdrawals in
      elim (Bool-cases (is_empty owners)) [
        | inl e ↦ rw e (Moves-refl b s.withdrawals)
        | inr e ↦
            elim (Option-cases
              (find (external_row_of id owners) (update_rows test f s.withdrawals))) [
                | inl m ↦ rw (e, m) grown
                | inr (w, m) ↦ elim (Bool-cases (any test s.withdrawals)) [
                  | inl t ↦ rw (e, m, t) grown
                  | inr t ↦ rw (e, m, t) grown
                ]
              ]
      ]
