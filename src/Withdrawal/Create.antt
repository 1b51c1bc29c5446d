-- ===== src/Withdrawal/Create.antt =====
-- `WithdrawalService.create`:
-- backend-vexxa/src/modules/withdrawal/application/withdrawal.service.ts.
-- The advisory lock makes the transaction of one user atomic: it is one function of the store, and
-- an exception inside it rolls the store back. The balance of `DashboardBalanceService`, in cents,
-- the house's row, the CPA count and the fee setting are read from other tables: they are `Env`.
pub mod Amounts
pub mod Daily
pub mod Bonus
mod Tests
use painel_mt_affiliates.Common.{
  ℕ, ◌+◌, ◌-◌, ◌*◌, ◌/◌, Bool, true, false, not, ◌&&◌, ◌||◌, truthy, Option, none, some, List, [],
  ◌∷◌, ◌++◌, map, String, str_eq, any, find, or_else, is_some, ltb, leb, if◌then◌else◌,
}
use painel_mt_affiliates.Common.Int.{ℤ, pos, pos_part, ◌+ℤ◌, ◌-ℤ◌, leb_ℤ, ltb_ℤ, max_ℤ, min_ℤ}
use painel_mt_affiliates.Withdrawal.PinbetLimit.{
  Restriction, Dimension, metrics_syncing, net_pl_non_positive, combined,
}
use painel_mt_affiliates.Withdrawal.Calendar.{Date}
use painel_mt_affiliates.Withdrawal.Frequency.{WithdrawalSchedule, is_withdrawal_day_allowed}
use painel_mt_affiliates.Withdrawal.Types.{
  Status, pending, approved, processing, completed, Withdrawal, Release, User, Store, Effect,
  emit_created, audit, Error, no_pix_key, withdrawals_blocked, house_disabled, day_not_allowed,
  too_few_cpas, daily_limit, metrics_incomplete, net_pl_not_positive, no_bonus, below_minimum,
  average_too_low, house_required, bonus_not_supported, no_balance, not_found, Result, ok, err,
  ◌>>=◌, ◌>>◌, throw_if,
}
use painel_mt_affiliates.Withdrawal.Rows.{status_in, fire}

pub record HouseRow : Type 0 where
  pub enabled : Bool
  pub schedule : WithdrawalSchedule
  pub min_cpa_to_withdraw : ℕ
  pub min_withdrawal_amount : Option ℕ

pub record HouseBalance : Type 0 where
  pub house : String
  pub total : ℤ
  pub withdrawable : Option ℤ
  pub restriction : Option Restriction

pub record BalanceData : Type 0 where
  pub per_house : List HouseBalance
  pub min_withdrawal_amount : ℕ
  pub exempt_by_network_head : Bool
  pub below_minimum : Bool

-- `fee_setting`: the setting, if any, as `parseFloat` reads it, in millionths; `some none` is NaN.
pub record Env : Type 0 where
  pub now : ℕ
  pub today : Date
  pub house : Option HouseRow
  pub cpa_qualified : ℕ
  pub balance : BalanceData
  pub fee_setting : Option (Option ℤ)

-- The note comes trimmed, and so does the slug of the external API, in lower case.
pub record CreateDto : Type 0 where
  pub betting_house : String
  pub request_note : Option String

-- `setHours(0, 0, 0, 0)`
abbrev pub start_of_day : ℕ → ℕ
start_of_day now = now / 86400000 * 86400000

abbrev pub active : List Status
active = pending ∷ approved ∷ processing ∷ completed ∷ []

-- the rows that count for the limit of one withdrawal a day
abbrev pub counts_today : List Status → String → String → ℕ → Withdrawal → Bool
counts_today statuses user house start w =
    str_eq w.user_id user
    && str_eq w.betting_house house
    && leb start w.created_at
    && status_in w.status statuses

abbrev pub is_open_release : String → String → ℕ → Release → Bool
is_open_release user house start r =
    str_eq r.user_id user
    && str_eq r.betting_house house
    && leb start r.release_date
    && not (is_some r.consumed_at)

abbrev pub consume_one : String → ℕ → Release → Release
consume_one id now r = if str_eq r.id id then record r { consumed_at = some now } else r

unfoldable pub consume : String → ℕ → List Release → List Release
consume id now [] = []
consume id now (r ∷ rs) = consume_one id now r ∷ consume id now rs

-- step 3: the limit of the day, or a release of one more, which is consumed
unfoldable pub take_day : ℕ → String → String → Store → Result (List Release)
unfolding consume
take_day now user house s =
    if any (counts_today active user house (start_of_day now)) s.withdrawals
    then elim (find (is_open_release user house (start_of_day now)) s.releases) [
      | none ↦ err daily_limit
      | some r ↦ ok (consume r.id now s.releases)
    ]
    else ok s.releases

-- step 1 of `create`
unfoldable pub check_user : User → Result (Unit {0})
check_user u = do
  throw_if (not (truthy u.pix_key) || not (truthy u.pix_key_type)) no_pix_key
  throw_if u.withdrawal_blocked withdrawals_blocked

-- step 2: the house's own rules; a slug with no row passes
unfoldable pub check_house : Env → Result (Unit {0})
check_house env = elim env.house [
  | none ↦ ok tt
  | some h ↦ do
    throw_if (not h.enabled) house_disabled
    throw_if (not (is_withdrawal_day_allowed h.schedule env.today)) day_not_allowed
    throw_if (ltb 0 h.min_cpa_to_withdraw && ltb env.cpa_qualified h.min_cpa_to_withdraw)
        too_few_cpas
]

-- `aggregate` with `_sum`, over the bonus withdrawals in an active status
unfoldable pub bonus_sums : String → List Withdrawal → ℕ × ℕ
bonus_sums user [] = (0, 0)
bonus_sums user (w ∷ ws) =
    let (original, refunded) = bonus_sums user ws in
    if str_eq w.user_id user && str_eq w.betting_house "bonus" && status_in w.status active
    then (w.original_amount + original, or_else w.gateway_refunded_amount 0 + refunded)
    else (original, refunded)

unfoldable pub bonus_available : User → List Withdrawal → ℤ
unfolding bonus_sums
bonus_available u ws =
    let (original, refunded) = bonus_sums u.id ws in
    max_ℤ (pos 0) (u.bonus_balance -ℤ (pos original -ℤ pos refunded))

abbrev pub find_house : String → List HouseBalance → Option HouseBalance
find_house house = find (λ b. str_eq b.house house)

-- `houseBalance?.withdrawable ?? houseBalance?.total ?? 0`
abbrev pub offered : Option HouseBalance → ℤ
offered none = pos 0
offered (some b) = or_else b.withdrawable b.total

abbrev pub restriction_error : Option HouseBalance → Result (Unit {0})
restriction_error none = ok tt
restriction_error (some b) = elim b.restriction [
  | some metrics_syncing ↦ err metrics_incomplete
  | some net_pl_non_positive ↦ err net_pl_not_positive
  | _ ↦ ok tt
]

-- the house's own minimum comes before the global one
abbrev pub minimum_of : Env → ℕ
minimum_of env = elim env.house [
  | none ↦ env.balance.min_withdrawal_amount
  | some h ↦ or_else h.min_withdrawal_amount env.balance.min_withdrawal_amount
]

-- steps 4 to 6 for a house
unfoldable pub house_available : Env → String → Result ℤ
house_available env house =
    let found = find_house house env.balance.per_house in
    let available : ℤ = max_ℤ (pos 0) (offered found) in
    do
      restriction_error found
      throw_if (ltb_ℤ available (pos (minimum_of env))) below_minimum
      throw_if (not env.balance.exempt_by_network_head && env.balance.below_minimum) average_too_low
      ok available

-- steps 4 and 5 for the bonus
unfoldable pub bonus_or_throw : User → List Withdrawal → Result ℤ
unfolding bonus_available
bonus_or_throw u ws = do
  throw_if (leb_ℤ (bonus_available u ws) (pos 0)) no_bonus
  ok (bonus_available u ws)

-- step 7, in millionths
unfoldable pub fee_rate : Option (Option ℤ) → ℕ
fee_rate setting =
    pos_part (min_ℤ (pos 1000000) (max_ℤ (pos 0) (or_else (or_else setting none) (pos 60000))))

-- `toFixed(2)` of a product with the rate, half a cent going up
unfoldable pub fee_of : ℕ → ℕ → ℕ
fee_of original rate = (2 * original * rate + 1000000) / 2000000

abbrev pub combined_for : String → Option Dimension
combined_for house = if str_eq house "pinbet-mensal" then some combined else none

-- step 8: the row with the columns that no caller sets at their defaults
abbrev pub new_row : String → String → CreateDto → ℕ → ℕ → ℕ → String → String → Withdrawal
new_row id user dto now original fee pix_key_type pix_key = record {
  id = id;
  user_id = user;
  amount = original - fee;
  original_amount = original;
  withdrawal_fee = fee;
  betting_house = dto.betting_house;
  pinbet_dimension = combined_for dto.betting_house;
  request_note = or_else dto.request_note "";
  pix_key_type = pix_key_type;
  pix_key = pix_key;
  status = pending;
  admin_note = "";
  approved_at = none;
  approved_by = none;
  gateway_provider = none;
  gateway_id = none;
  gateway_status = none;
  gateway_sent_at = none;
  gateway_completed_at = none;
  gateway_failure_reason = none;
  gateway_end_to_end = none;
  gateway_attempts = 0;
  gateway_refunded_amount = none;
  gateway_refunded_at = none;
  created_at = now;
}

unfoldable pub available_for : Env → User → String → Store → Result ℤ
unfolding bonus_or_throw house_available
available_for env u house s =
    if str_eq house "bonus" then bonus_or_throw u s.withdrawals else house_available env house

-- The whole of `create` up to its commit: the releases left, and the row.
unfoldable pub prepare :
    Env → String → User → CreateDto → Store → Result (List Release × Withdrawal)
unfolding check_user check_house take_day available_for fee_rate fee_of
prepare env new_id u dto s = do
  check_user u
  if str_eq dto.betting_house "bonus" then ok tt else check_house env
  releases ← take_day env.now u.id dto.betting_house s
  available ← available_for env u dto.betting_house s
  let original = pos_part available
  let fee = fee_of original (fee_rate env.fee_setting)
  ok (
    releases,
    new_row new_id u.id dto env.now original fee (or_else u.pix_key_type "") (or_else u.pix_key ""),
  )

abbrev pub commit : List Release → Withdrawal → Store → Store
commit releases w s =
    fire (emit_created w.id)
      (fire (audit w.id) (record s { releases = releases; withdrawals = s.withdrawals ++ w ∷ [] }))

unfoldable pub create : Env → String → String → CreateDto → Store → Result Withdrawal × Store
unfolding prepare
create env new_id user_id dto s = elim (find (λ (u : User). str_eq u.id user_id) s.users) [
  | none ↦ (err not_found, s)
  | some u ↦ elim (prepare env new_id u dto s) [
    | ok (releases, w) ↦ (ok w, commit releases w s)
    | err e ↦ (err e, s)
  ]
]
