-- ===== src/Withdrawal/Types.antt =====
-- The rows that the withdrawal service reads and writes, and the results of its operations:
-- backend-vexxa/prisma/schema.prisma (WithdrawalRequest, WithdrawalDayRelease, GatewayWebhookEvent)
-- and backend-vexxa/src/modules/withdrawal/domain/types/withdrawal.types.ts.
-- Amounts are in cents, times in milliseconds of local time. The raw JSON snapshots of the
-- gateway's requests and answers are left out.
use painel_mt_affiliates.Common.{
  ℕ, Bool, true, false, Option, none, some, List, String, if◌then◌else◌,
}
use painel_mt_affiliates.Common.Int.{ℤ, pos, leb_ℤ, ◌+ℤ◌}
use painel_mt_affiliates.Withdrawal.PinbetLimit.{Dimension}

pub data Status : Type 0 where
  pending approved rejected processing completed failed : Status

pub record Withdrawal : Type 0 where
  pub id : String
  pub user_id : String
  pub amount : ℕ
  pub original_amount : ℕ
  pub withdrawal_fee : ℕ
  pub betting_house : String
  pub pinbet_dimension : Option Dimension
  pub request_note : String
  pub pix_key_type : String
  pub pix_key : String
  pub status : Status
  pub admin_note : String
  pub approved_at : Option ℕ
  pub approved_by : Option String
  pub gateway_provider : Option String
  pub gateway_id : Option String
  pub gateway_status : Option String
  pub gateway_sent_at : Option ℕ
  pub gateway_completed_at : Option ℕ
  pub gateway_failure_reason : Option String
  pub gateway_end_to_end : Option String
  pub gateway_attempts : ℕ
  pub gateway_refunded_amount : Option ℕ
  pub gateway_refunded_at : Option ℕ
  pub created_at : ℕ

pub record Release : Type 0 where
  pub id : String
  pub user_id : String
  pub betting_house : String
  pub release_date : ℕ
  pub consumed_at : Option ℕ

pub record User : Type 0 where
  pub id : String
  pub pix_key : Option String
  pub pix_key_type : Option String
  pub withdrawal_blocked : Bool
  pub is_external : Bool
  pub bonus_balance : ℤ

-- `eventKey` is the hash of provider, reference code and event name.
pub record EventKey : Type 0 where
  pub provider : String
  pub reference : String
  pub event : String

pub data EventStatus : Type 0 where
  received ignored orphan processed : EventStatus

pub record GatewayEvent : Type 0 where
  pub key : EventKey
  pub withdrawal_id : Option String
  pub status : EventStatus

-- One call of `createTransfer`, as the gateway receives it.
pub record Transfer : Type 0 where
  pub withdrawal_id : String
  pub amount_cents : ℕ
  pub pix_key : String
  pub pix_key_type : String

pub data NotificationType : Type 0 where
  general withdrawal_failed withdrawal_approved withdrawal_completed : NotificationType

-- What is fired and forgotten: a notification, a webhook of the affiliate's network, an audit
-- record, the receipt and its proof message.
pub data Effect : Type 0 where
  notify : String → NotificationType → Effect
  emit_created : String → Effect
  emit_status_changed : String → Status → Option Status → Effect
  audit : String → Effect
  receipt_and_proof : String → Effect

pub record Store : Type 0 where
  pub withdrawals : List Withdrawal
  pub releases : List Release
  pub users : List User
  pub events : List GatewayEvent
  pub transfers : List Transfer
  pub effects : List Effect

-- The exceptions, each with the place that throws it.
pub data Error : Type 0 where
  no_pix_key withdrawals_blocked house_disabled day_not_allowed too_few_cpas daily_limit : Error
  metrics_incomplete net_pl_not_positive no_bonus below_minimum average_too_low : Error
  house_required bonus_not_supported no_balance : Error
  not_found external_row invalid_status approval_needs_amount : Error
  already_processed : Status → Error
  amount_mismatch invalid_pix_key_type invalid_payload gateway_balance gateway_failed : Error

pub data Result (A : Type 0) : Type 0 where
  err : Error → Result A
  ok : A → Result A

-- `await` of a call that may throw: the rest runs on its value alone.
infixl 5 ◌>>=◌
abbrev pub ◌>>=◌ : {A B : Type 0} → Result A → (A → Result B) → Result B
err thrown >>= rest = err thrown
ok value >>= rest = rest value

-- A guard: `if (test) throw error`.
abbrev pub throw_if : Bool → Error → Result (Unit {0})
throw_if false error = ok tt
throw_if true error = err error

infixl 5 ◌>>◌
abbrev pub ◌>>◌ : {B : Type 0} → Result (Unit {0}) → Result B → Result B
guard >> rest = guard >>= λ _. rest

pub data RefundState : Type 0 where
  no_refund partial full : RefundState

-- with the tolerance of one cent
unfoldable pub derive_refund_state : ℕ → Option ℤ → RefundState
derive_refund_state original none = no_refund
derive_refund_state original (some refunded) =
    if leb_ℤ refunded (pos 0)
    then no_refund
    else if leb_ℤ (pos original) (refunded +ℤ pos 1)
    then full
    else partial
