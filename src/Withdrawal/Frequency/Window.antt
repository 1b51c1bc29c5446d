-- ===== src/Withdrawal/Frequency/Window.antt =====
-- The label of a cadence agrees with the days that it opens.
use painel_mt_affiliates.Common.{◌≡◌, true, arith}
use painel_mt_affiliates.Withdrawal.Calendar.{Date, IsDate, days_in_month_bounds}
use painel_mt_affiliates.Withdrawal.Frequency.{
  WithdrawalSchedule, is_day_allowed, is_withdrawal_day_allowed, is_full_month_window, by_windows,
  describe_frequency, daily,
}

by_windows-daily :
    (h : WithdrawalSchedule) (now : Date)
    → by_windows h h.withdrawal_day h.withdrawal_day2 ≡ daily
    → is_day_allowed h now.day ≡ true
unfolding by_windows is_day_allowed
by_windows-daily h now e = ground arith

full_month-allowed :
    (h : WithdrawalSchedule) (now : Date)
    → IsDate now
    → is_full_month_window h ≡ true
    → is_day_allowed h now.day ≡ true
unfolding is_full_month_window is_day_allowed
full_month-allowed h now v e = ground (arith, days_in_month_bounds now.year now.month)

-- A house that is described as daily is open on every date.
pub describe_frequency-daily :
    (h : WithdrawalSchedule) (now : Date)
    → IsDate now
    → describe_frequency h ≡ daily
    → is_withdrawal_day_allowed h now ≡ true
unfolding describe_frequency is_withdrawal_day_allowed
describe_frequency-daily h now v e =
    ground (arith, by_windows-daily h now, full_month-allowed h now v)
