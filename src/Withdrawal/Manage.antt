-- ===== src/Withdrawal/Manage.antt =====
-- Status changes that involve no gateway: `updateStatus`, `markPaidManually`,
-- `setStatusForExternal`, and the guards and helpers that they share.
-- backend-vexxa/src/modules/withdrawal/application/withdrawal.service.ts.
use painel_mt_affiliates.Common.{
  ℕ, Bool, true, false, ◌&&◌, Option, none, some, List, [], ◌∷◌, String, str_eq, any, find,
  if◌then◌else◌,
}
use painel_mt_affiliates.Withdrawal.Types.{
  Status, pending, approved, rejected, processing, completed, Withdrawal, User, Store, notify,
  general, emit_status_changed, audit, Error, not_found, external_row, approval_needs_amount,
  already_processed, Result, ok, err,
}
use painel_mt_affiliates.Withdrawal.Rows.{status_in, has_id, update_many, find_unique, fire}

-- the row's owner is a sub-user of a partner
unfoldable pub is_external_row : String → Store → Bool
unfolding find_unique
is_external_row id s = elim (find_unique id s) [
  | none ↦ false
  | some w ↦ elim (find (λ (u : User). str_eq u.id w.user_id) s.users) [
    | none ↦ false
    | some u ↦ u.is_external
  ]
]

-- what is thrown when no row matched
unfoldable pub not_matched : String → Store → Error
unfolding find_unique
not_matched id s = elim (find_unique id s) [
  | none ↦ not_found
  | some w ↦ already_processed w.status
]

-- `...(note !== undefined ? { adminNote: note } : {})`
abbrev pub with_note : Option String → Withdrawal → Withdrawal
with_note none w = w
with_note (some n) w = record w { admin_note = n }

abbrev pub in_status : String → List Status → Withdrawal → Bool
in_status id statuses w = has_id id w && status_in w.status statuses

-- the row that is read back after the update, with the effects that follow
abbrev pub reload : String → Store → (Withdrawal → Store → Store) → Result Withdrawal × Store
reload id s after = elim (find (has_id id) s.withdrawals) [
  | none ↦ (err not_found, s)
  | some w ↦ (ok w, after w s)
]

abbrev pub reject_row : String → Option String → ℕ → Withdrawal → Withdrawal
reject_row admin memo now w = record (with_note memo w) {
  status = rejected;
  approved_at = some now;
  approved_by = some admin;
}

abbrev pub after_reject : Withdrawal → Store → Store
after_reject w s =
    fire (emit_status_changed w.id w.status (some pending)) (fire (notify w.user_id general) s)

-- `is_approval`: the body's status is `approved`, which this call refuses.
unfoldable pub update_status :
    ℕ → String → String → Bool → Option String → Store → Result Withdrawal × Store
unfolding is_external_row not_matched update_many
update_status now id admin is_approval memo s =
    if is_external_row id s
    then (err external_row, s)
    else if is_approval
    then (err approval_needs_amount, s)
    else let (matched, s') =
        update_many (in_status id (pending ∷ [])) (reject_row admin memo now) s in
      if matched then reload id s' after_reject else (err (not_matched id s'), s')

abbrev pub paid_row : String → Option String → ℕ → Withdrawal → Withdrawal
paid_row admin memo now w = record (with_note memo w) {
  status = completed;
  approved_at = some now;
  approved_by = some admin;
}

abbrev pub after_paid : Withdrawal → Store → Store
after_paid w s =
    fire (emit_status_changed w.id w.status none)
      (fire (audit w.id) (fire (notify w.user_id general) s))

unfoldable pub mark_paid_manually :
    ℕ → String → String → Option String → Store → Result Withdrawal × Store
unfolding is_external_row not_matched update_many
mark_paid_manually now id admin memo s =
    if is_external_row id s
    then (err external_row, s)
    else let (matched, s') =
        update_many (in_status id (pending ∷ approved ∷ processing ∷ [])) (paid_row admin memo now)
          s in
      if matched then reload id s' after_paid else (err (not_matched id s'), s')

pub data ExternalStatus : Type 0 where
  to_processing to_completed to_rejected : ExternalStatus

-- `EXTERNAL_STATUS_TRANSITIONS`
abbrev pub external_to : ExternalStatus → Status
external_to to_processing = processing
external_to to_completed = completed
external_to to_rejected = rejected

abbrev pub external_from : ExternalStatus → List Status
external_from to_processing = pending ∷ []
external_from to_completed = pending ∷ processing ∷ []
external_from to_rejected = pending ∷ processing ∷ []

abbrev pub external_row_of : String → List String → Withdrawal → Bool
external_row_of id owners w = has_id id w && any (str_eq w.user_id) owners

abbrev pub is_empty : List String → Bool
is_empty [] = true
is_empty (_ ∷ _) = false

abbrev pub after_external : Withdrawal → Store → Store
after_external w s = fire (emit_status_changed w.id w.status none) s

unfoldable pub set_status_for_external :
    String → List String → ExternalStatus → Option String → Store → Result Withdrawal × Store
unfolding update_many
set_status_for_external id owners target memo s =
    if is_empty owners
    then (err not_found, s)
    else let (matched, s') =
        update_many (λ w. external_row_of id owners w && status_in w.status (external_from target))
          (λ w. record (with_note memo w) { status = external_to target }) s in
      elim (find (external_row_of id owners) s'.withdrawals) [
        | none ↦ (err not_found, s')
        | some w ↦
            if matched then (ok w, after_external w s') else (err (already_processed w.status), s')
      ]
