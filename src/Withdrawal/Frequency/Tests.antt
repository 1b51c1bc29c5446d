-- ===== src/Withdrawal/Frequency/Tests.antt =====
-- Runs of the cadence rules, and instances of their theorems.
use painel_mt_affiliates.Common.{ℕ, ◌≤◌, ◌≡◌, ◌≢◌, refl, none, some, arith}
use painel_mt_affiliates.Withdrawal.Calendar.{Date, IsDate, advance, days_in_month, next_day}
use painel_mt_affiliates.Withdrawal.Frequency.{
  WithdrawalSchedule, is_withdrawal_day_allowed, next_withdrawal_date,
}
use painel_mt_affiliates.Withdrawal.Frequency.Next.{
  IsFirst, next_withdrawal_date-IsFirst, next_withdrawal_date-monthly,
}

-- 31 January 2026 is a Saturday.
abbrev january : Date
january = record { year = 2026; month = 1; day = 31; weekday = 6 }

abbrev on_the_30th : WithdrawalSchedule
on_the_30th = record {
  withdrawal_weekday = none;
  withdrawal_day = some 30;
  withdrawal_day_end = none;
  withdrawal_day2 = none;
  withdrawal_day2_end = none;
}

abbrev fridays : WithdrawalSchedule
fridays = record {
  withdrawal_weekday = some 5;
  withdrawal_day = none;
  withdrawal_day_end = none;
  withdrawal_day2 = none;
  withdrawal_day2_end = none;
}

abbrev whole_month : WithdrawalSchedule
whole_month = record {
  withdrawal_weekday = none;
  withdrawal_day = some 1;
  withdrawal_day_end = some 31;
  withdrawal_day2 = none;
  withdrawal_day2_end = none;
}

-- February has no 30th: the next window is in March.
abbrev march : Date
march = record { year = 2026; month = 3; day = 30; weekday = 1 }

next-january : next_withdrawal_date on_the_30th january ≡ some march
unfolding next_withdrawal_date is_withdrawal_day_allowed next_day days_in_month
next-january = refl

next_withdrawal_date-IsFirst_example :
    (k : ℕ) × (k ≤ 62) × (march ≡ advance k january) × IsFirst on_the_30th january k
next_withdrawal_date-IsFirst_example =
    next_withdrawal_date-IsFirst on_the_30th january march next-january

january-IsDate : IsDate january
unfolding days_in_month
january-IsDate = omega arith

next_withdrawal_date-monthly_example : next_withdrawal_date on_the_30th january ≢ none
next_withdrawal_date-monthly_example =
    next_withdrawal_date-monthly on_the_30th 30 january refl refl (omega arith) (omega arith)
      (omega arith) january-IsDate
