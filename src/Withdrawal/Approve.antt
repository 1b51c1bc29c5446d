-- ===== src/Withdrawal/Approve.antt =====
-- `approveAndDispatch`: backend-vexxa/src/modules/withdrawal/application/withdrawal.service.ts.
-- Each call of the database is one function of the store, so that the steps can also be
-- interleaved (`Payout`); here they run in a row.
use painel_mt_affiliates.Common.{
  ℕ, ◌+◌, ◌-◌, Bool, false, ◌&&◌, not, Option, none, some, [], ◌∷◌, String, str_eq, find, is_some,
  ltb, ◌==◌, if◌then◌else◌,
}
use painel_mt_affiliates.Common.Int.{ℤ, pos, eqb_ℤ}
use painel_mt_affiliates.Withdrawal.Types.{
  pending, approved, processing, failed, Withdrawal, Store, notify, withdrawal_failed,
  withdrawal_approved, audit, emit_status_changed, not_found, external_row, amount_mismatch,
  invalid_pix_key_type, invalid_payload, gateway_balance, gateway_failed, Result, err,
}
use painel_mt_affiliates.Withdrawal.Rows.{has_id, status_eq, update_many, fire}
use painel_mt_affiliates.Withdrawal.Manage.{
  is_external_row, not_matched, with_note, in_status, reload,
}
use painel_mt_affiliates.Withdrawal.Gateway.{
  BalanceResult, TransferResult, accepted, refused, check_sufficient_balance,
}

-- `normalizePixKeyType`, on a type that is trimmed and in upper case
unfoldable pub normalize_pix_key_type : String → Option String
normalize_pix_key_type raw =
    if str_eq raw "CPF"
    then some "CPF"
    else if str_eq raw "CNPJ"
    then some "CNPJ"
    else if str_eq raw "EMAIL"
    then some "EMAIL"
    else if str_eq raw "PHONE"
    then some "PHONE"
    else if str_eq raw "EVP"
    then some "EVP"
    else if str_eq raw "RANDOM"
    then some "EVP"
    else none

abbrev pub unsent : Withdrawal → Bool
unsent w = not (is_some w.gateway_id)

abbrev pub is_claimable : String → Withdrawal → Bool
is_claimable id w = has_id id w && status_eq w.status pending && unsent w

abbrev pub claim_row : String → Option String → ℕ → Withdrawal → Withdrawal
claim_row admin memo now w = record (with_note memo w) {
  status = approved;
  approved_at = some now;
  approved_by = some admin;
  gateway_attempts = w.gateway_attempts + 1;
}

-- 1. PENDING and not sent → APPROVED
unfoldable pub claim : ℕ → String → String → Option String → Store → Bool × Store
unfolding update_many
claim now id admin memo = update_many (is_claimable id) (claim_row admin memo now)

abbrev pub is_claimed : String → Withdrawal → Bool
is_claimed id w = has_id id w && status_eq w.status approved && unsent w

abbrev pub unclaim_row : Withdrawal → Withdrawal
unclaim_row w = record w { status = pending; approved_at = none; approved_by = none }

-- back to PENDING, after a wrong amount or too little balance at the gateway
unfoldable pub roll_back : String → Store → Store
unfolding update_many
roll_back id s = (update_many (is_claimed id) unclaim_row s).1

abbrev pub fail_row : String → String → Withdrawal → Withdrawal
fail_row provider reason w = record w {
  status = failed;
  gateway_provider = some provider;
  gateway_failure_reason = some reason;
}

unfoldable pub mark_failed : String → String → String → Store → Store
unfolding update_many
mark_failed provider id reason s =
    (update_many (in_status id (approved ∷ processing ∷ [])) (fail_row provider reason) s).1

-- 7. the call of the gateway
unfoldable pub send : Withdrawal → String → ℕ → Store → Store
send w pix_key_type amount_cents s = record s {
  transfers =
      record {
        withdrawal_id = w.id;
        amount_cents = amount_cents;
        pix_key = w.pix_key;
        pix_key_type = pix_key_type;
      }
      ∷ s.transfers;
}

abbrev pub adopt : Option String → Withdrawal → Withdrawal
adopt none w = w
adopt (some reference) w = record w { gateway_id = some reference }

abbrev pub duplicate_row : ℕ → String → Option String → Withdrawal → Withdrawal
duplicate_row now provider existing w = record (adopt existing w) {
  status = processing;
  gateway_provider = some provider;
  gateway_status = some "duplicate_correlation_id";
  gateway_sent_at = some now;
}

-- the answer 409: a payout with this id is already in flight
unfoldable pub settle_duplicate : ℕ → String → String → Option String → Store → Store
unfolding update_many
settle_duplicate now provider id existing s =
    (update_many (is_claimed id) (duplicate_row now provider existing) s).1

abbrev pub sent_row : ℕ → String → String → String → Withdrawal → Withdrawal
sent_row now provider gateway_id gateway_status w = record w {
  status = processing;
  gateway_provider = some provider;
  gateway_id = some gateway_id;
  gateway_status = some gateway_status;
  gateway_sent_at = some now;
}

unfoldable pub settle_accepted : ℕ → String → String → String → String → Store → Store
unfolding update_many
settle_accepted now provider id gateway_id gateway_status s =
    (update_many (in_status id (approved ∷ [])) (sent_row now provider gateway_id gateway_status)
      s).1

abbrev pub is_conflict : Option ℕ → Bool
is_conflict none = false
is_conflict (some code) = code == 409

abbrev pub no_effect : Withdrawal → Store → Store
no_effect w s = s

-- what follows the gateway's answer
unfoldable pub settle : ℕ → String → Withdrawal → TransferResult → Store → Result Withdrawal × Store
unfolding settle_duplicate settle_accepted mark_failed
settle now provider w (accepted gateway_id gateway_status) s =
    reload w.id
      (fire (notify w.user_id withdrawal_approved)
        (fire (audit w.id) (settle_accepted now provider w.id gateway_id gateway_status s)))
      (λ v t. fire (emit_status_changed v.id v.status (some pending)) t)
settle now provider w (refused code reason existing) s =
    if is_conflict code
    then reload w.id (settle_duplicate now provider w.id existing s) no_effect
    else (
      err gateway_failed,
      fire (audit w.id)
          (fire (notify w.user_id withdrawal_failed) (mark_failed provider w.id reason s)),
    )

-- 5. and 6.: the amount in cents, and the balance of the gateway
unfoldable pub dispatch :
    ℕ
    → String
    → BalanceResult
    → (ℕ → TransferResult)
    → Withdrawal
    → String
    → Store
    → Result Withdrawal × Store
unfolding settle send roll_back mark_failed check_sufficient_balance
dispatch now provider balance gateway w pix_key_type s =
    let amount_cents : ℕ = w.original_amount - w.withdrawal_fee in
    if not (ltb 0 amount_cents)
    then (err invalid_payload, mark_failed provider w.id "invalid payload" s)
    else if not (check_sufficient_balance balance amount_cents)
    then (err gateway_balance, roll_back w.id s)
    else settle now provider w (gateway amount_cents) (send w pix_key_type amount_cents s)

-- 3. and 4.: the amount that the admin saw, within half a cent, and the kind of key
unfoldable pub confirm_and_dispatch :
    ℕ
    → String
    → ℤ
    → BalanceResult
    → (ℕ → TransferResult)
    → Withdrawal
    → Store
    → Result Withdrawal × Store
unfolding dispatch roll_back mark_failed normalize_pix_key_type
confirm_and_dispatch now provider confirm_amount balance gateway w s =
    if not (eqb_ℤ (pos w.original_amount) confirm_amount)
    then (err amount_mismatch, roll_back w.id s)
    else elim (normalize_pix_key_type w.pix_key_type) [
      | none ↦ (err invalid_pix_key_type, mark_failed provider w.id "invalid pix key type" s)
      | some pix_key_type ↦ dispatch now provider balance gateway w pix_key_type s
    ]

-- `confirm_amount` comes in whole cents.
unfoldable pub approve_and_dispatch :
    ℕ
    → String
    → String
    → String
    → Option String
    → ℤ
    → BalanceResult
    → (ℕ → TransferResult)
    → Store
    → Result Withdrawal × Store
unfolding claim confirm_and_dispatch is_external_row not_matched
approve_and_dispatch now provider id admin memo confirm_amount balance gateway s =
    if is_external_row id s
    then (err external_row, s)
    else let (claimed, s') = claim now id admin memo s in
      if claimed
      then elim (find (has_id id) s'.withdrawals) [
        | none ↦ (err not_found, s')
        | some w ↦ confirm_and_dispatch now provider confirm_amount balance gateway w s'
      ]
      else (err (not_matched id s'), s')
