-- ===== src/Withdrawal/Lifecycle/Steps.antt =====
-- The status diagram, what a row keeps, and the operations as one type.
use painel_mt_affiliates.Common.{
  ℕ, ◌+◌, ◌≤◌, ◌≡◌, ◌⊎◌, Bool, Option, none, some, List, [], ◌∷◌, String, All, any, true, false,
}
use painel_mt_affiliates.Common.Int.{ℤ}
use painel_mt_affiliates.Withdrawal.Types.{
  Status, pending, approved, rejected, processing, completed, failed, Withdrawal, Store,
}
use painel_mt_affiliates.Withdrawal.Rows.{has_id}
use painel_mt_affiliates.Withdrawal.Create.{Env, CreateDto, create}
use painel_mt_affiliates.Withdrawal.External.{create_for_external}
use painel_mt_affiliates.Withdrawal.Manage.{
  ExternalStatus, update_status, mark_paid_manually, set_status_for_external,
}
use painel_mt_affiliates.Withdrawal.Gateway.{BalanceResult, TransferResult}
use painel_mt_affiliates.Withdrawal.Approve.{approve_and_dispatch}
use painel_mt_affiliates.Withdrawal.Webhook.{Payload, handle_gateway_webhook_event}
use painel_mt_affiliates.Withdrawal.Reconcile.{PayoutStatus, reconcile_stuck_processing}

-- The arrows of the status diagram. Only the roll-back of an approval leads back; the relations
-- below take whether it is allowed.
pub data Edge (back : Bool) : Status → Status → Type 0 where
  claim : Edge back pending approved
  unclaim : back ≡ true → Edge back approved pending
  send : Edge back approved processing
  start : Edge back pending processing
  break_claimed : Edge back approved failed
  break_sent : Edge back processing failed
  pay_pending : Edge back pending completed
  pay_claimed : Edge back approved completed
  pay_sent : Edge back processing completed
  refuse : Edge back pending rejected
  refuse_started : Edge back processing rejected

pub data Leads (back : Bool) : Status → Status → Type 0 where
  stays : {s : Status} → Leads back s s
  onwards : {s t u : Status} → Edge back s t → Leads back t u → Leads back s u

-- The columns that nothing changes.
pub record FixedColumns : Type 0 where
  pub id : String
  pub user_id : String
  pub betting_house : String
  pub original_amount : ℕ
  pub withdrawal_fee : ℕ
  pub amount : ℕ
  pub pix_key : String
  pub pix_key_type : String
  pub created_at : ℕ

abbrev pub fixed : Withdrawal → FixedColumns
fixed w = record {
  id = w.id;
  user_id = w.user_id;
  betting_house = w.betting_house;
  original_amount = w.original_amount;
  withdrawal_fee = w.withdrawal_fee;
  amount = w.amount;
  pix_key = w.pix_key;
  pix_key_type = w.pix_key_type;
  created_at = w.created_at;
}

-- A refund is the old one, or at most the original amount.
abbrev pub Refunds : Withdrawal → Withdrawal → Type 0
Refunds w v =
    (v.gateway_refunded_amount ≡ w.gateway_refunded_amount)
    ⊎ ((r : ℕ) × (v.gateway_refunded_amount ≡ some r) × (r ≤ w.original_amount))

pub record Step (back : Bool) (w v : Withdrawal) : Type 0 where
  pub keeps : fixed v ≡ fixed w
  pub leads : Leads back w.status v.status
  pub refunds : Refunds w v

-- A new row is pending, with its amounts in balance and nothing refunded.
pub record IsNew (w : Withdrawal) : Type 0 where
  pub status : w.status ≡ pending
  pub split : w.amount + w.withdrawal_fee ≡ w.original_amount
  pub unrefunded : w.gateway_refunded_amount ≡ none

-- Every row is still there, at its place, and there is no other.
abbrev pub Moves : Bool → List Withdrawal → List Withdrawal → Type 0
Moves back [] [] = Unit
Moves back [] (v ∷ vs) = ⊥
Moves back (w ∷ ws) [] = ⊥
Moves back (w ∷ ws) (v ∷ vs) = Step back w v × Moves back ws vs

-- No two rows have the same id: the primary key.
abbrev pub IsUnique : List Withdrawal → Type 0
IsUnique [] = Unit
IsUnique (w ∷ ws) = (any (has_id w.id) ws ≡ false) × IsUnique ws

-- Every row is still there, at its place, and what was added behind them is new.
abbrev pub Grows : Bool → List Withdrawal → List Withdrawal → Type 0
Grows back [] vs = All (λ v. (w : Withdrawal) × IsNew w × Step back w v) vs
Grows back (w ∷ ws) [] = ⊥
Grows back (w ∷ ws) (v ∷ vs) = Step back w v × Grows back ws vs

-- The columns of a row that the money depends on.
pub record IsSound (w : Withdrawal) : Type 0 where
  pub split : w.amount + w.withdrawal_fee ≡ w.original_amount
  pub refund : (r : ℕ) → w.gateway_refunded_amount ≡ some r → r ≤ w.original_amount

-- The calls that change withdrawals, with what comes in from outside.
pub data Operation : Type 0 where
  do_create : Env → String → String → CreateDto → Operation
  do_create_external : Env → String → String → String → CreateDto → Operation
  do_update_status : ℕ → String → String → Bool → Option String → Operation
  do_mark_paid : ℕ → String → String → Option String → Operation
  do_set_external : String → List String → ExternalStatus → Option String → Operation
  do_approve :
      ℕ
      → String
      → String
      → String
      → Option String
      → ℤ
      → BalanceResult
      → (ℕ → TransferResult)
      → Operation
  do_webhook : ℕ → String → Payload → Operation
  do_reconcile : ℕ → String → (String → Option PayoutStatus) → Operation

-- every call but the approval, which is taken apart
abbrev pub is_plain : Operation → Bool
is_plain (do_approve now provider id admin memo amount balance gateway) = false
is_plain (do_create env id user dto) = true
is_plain (do_create_external env id user pix dto) = true
is_plain (do_update_status now id admin yes_ memo) = true
is_plain (do_mark_paid now id admin memo) = true
is_plain (do_set_external id owners target memo) = true
is_plain (do_webhook now provider p) = true
is_plain (do_reconcile now provider query) = true

unfoldable pub run : Operation → Store → Store
run (do_create env id user dto) s = (create env id user dto s).1
run (do_create_external env id user pix dto) s = (create_for_external env id user pix dto s).1
run (do_update_status now id admin yes_ memo) s = (update_status now id admin yes_ memo s).1
run (do_mark_paid now id admin memo) s = (mark_paid_manually now id admin memo s).1
run (do_set_external id owners target memo) s = (set_status_for_external id owners target memo s).1
run (do_approve now provider id admin memo amount balance gateway) s =
    (approve_and_dispatch now provider id admin memo amount balance gateway s).1
run (do_webhook now provider p) s = (handle_gateway_webhook_event now provider p s).1
run (do_reconcile now provider query) s = (reconcile_stuck_processing now provider query s).1

unfoldable pub run_all : List Operation → Store → Store
unfolding run
run_all [] s = s
run_all (op ∷ ops) s = run_all ops (run op s)

-- The id that the database gives to a new row is not in use.
abbrev pub IsFresh : Operation → Store → Type 0
IsFresh (do_create env id user dto) s = any (has_id id) s.withdrawals ≡ false
IsFresh (do_create_external env id user pix dto) s = any (has_id id) s.withdrawals ≡ false
IsFresh _ s = Unit

abbrev pub AreFresh : List Operation → Store → Type 0
AreFresh [] s = Unit
AreFresh (op ∷ ops) s = IsFresh op s × AreFresh ops (run op s)
