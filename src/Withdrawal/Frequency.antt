-- ===== src/Withdrawal/Frequency.antt =====
-- The cadence of withdrawals of one house:
-- backend-vexxa/src/modules/withdrawal/domain/withdrawal-frequency.ts.
pub mod Next
pub mod Window
mod Tests
use painel_mt_affiliates.Common.{
  ℕ, zero, suc, Bool, true, false, not, ◌&&◌, ◌||◌, Option, none, some, or_else, is_some, leb, ◌==◌,
  if◌then◌else◌,
}
use painel_mt_affiliates.Withdrawal.Calendar.{Date, next_day}

-- `weekday` counts from 0 on Sunday; `null` is `none`.
pub record WithdrawalSchedule : Type 0 where
  pub withdrawal_weekday : Option ℕ
  pub withdrawal_day : Option ℕ
  pub withdrawal_day_end : Option ℕ
  pub withdrawal_day2 : Option ℕ
  pub withdrawal_day2_end : Option ℕ

unfoldable pub in_range : ℕ → Option ℕ → Option ℕ → Bool
in_range day none end = false
in_range day (some start) end = leb start day && leb day (or_else end start)

-- the test of the monthly windows, once no weekday is set
unfoldable pub is_day_allowed : WithdrawalSchedule → ℕ → Bool
unfolding in_range
is_day_allowed house day =
    if not (is_some house.withdrawal_day) && not (is_some house.withdrawal_day2)
    then true
    else in_range day house.withdrawal_day house.withdrawal_day_end
      || in_range day house.withdrawal_day2 house.withdrawal_day2_end

unfoldable pub is_withdrawal_day_allowed : WithdrawalSchedule → Date → Bool
unfolding is_day_allowed
is_withdrawal_day_allowed house now = elim house.withdrawal_weekday [
  | some w ↦ now.weekday == w
  | none ↦ is_day_allowed house now.day
]

-- the `for` loop of `nextWithdrawalDate`, over the rounds left
unfoldable pub walk : WithdrawalSchedule → ℕ → Date → Option Date
walk house zero probe = none
walk house (suc rounds) probe =
    let d = next_day probe in
    let rest = walk house rounds d in if is_withdrawal_day_allowed house d then some d else rest

unfoldable pub is_unrestricted : WithdrawalSchedule → Bool
is_unrestricted house =
    not (is_some house.withdrawal_weekday)
    && not (is_some house.withdrawal_day)
    && not (is_some house.withdrawal_day2)

-- `none` where no restriction is configured, and after 62 days without an open one.
unfoldable pub next_withdrawal_date : WithdrawalSchedule → Date → Option Date
unfolding walk is_unrestricted
next_withdrawal_date house now =
    if is_unrestricted house
    then none
    else if is_withdrawal_day_allowed house now
    then some now
    else walk house 62 now

unfoldable pub is_full_month_window : WithdrawalSchedule → Bool
is_full_month_window house = elim house.withdrawal_day [
  | none ↦ false
  | some start ↦
      not (is_some house.withdrawal_weekday)
      && not (is_some house.withdrawal_day2)
      && leb start 1
      && leb 31 (or_else house.withdrawal_day_end start)
]

-- The texts of `describeFrequency`, with the windows that they print.
pub data Cadence : Type 0 where
  weekly : ℕ → Cadence
  daily : Cadence
  biweekly : ℕ → ℕ → ℕ → ℕ → Cadence
  monthly : ℕ → ℕ → Cadence

-- the part after the weekday and the full month, by the two windows
unfoldable pub by_windows : WithdrawalSchedule → Option ℕ → Option ℕ → Cadence
by_windows house (some a) (some b) =
    biweekly a (or_else house.withdrawal_day_end a) b (or_else house.withdrawal_day2_end b)
by_windows house (some a) none = monthly a (or_else house.withdrawal_day_end a)
by_windows house none (some b) = monthly b (or_else house.withdrawal_day2_end b)
by_windows house none none = daily

unfoldable pub describe_frequency : WithdrawalSchedule → Cadence
unfolding is_full_month_window by_windows
describe_frequency house = elim house.withdrawal_weekday [
  | some w ↦ weekly w
  | none ↦
      if is_full_month_window house
      then daily
      else by_windows house house.withdrawal_day house.withdrawal_day2
]
