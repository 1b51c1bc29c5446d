-- ===== src/Withdrawal/Calendar.antt =====
-- What the withdrawal code uses of the language's `Date`: `getDay`, `getDate`, and
-- `setDate(getDate() + 1)`, which goes on to the first of the next month after the last day.
use Prim.Native.Nat.add
use native.Mathlib.Nat.{zero-add}
use native.Mathlib.Decide.{dec_le}
use painel_mt_affiliates.Common.{
  ℕ, zero, suc, ◌+◌, ◌-◌, ◌%◌, ◌≤◌, ◌<◌, ◌≡◌, ◌⊎◌, refl, ap, Bool, not, ◌&&◌, ◌||◌, ltb, ◌==◌,
  if◌then◌else◌, arith, inl, inr,
}

-- A local date. `month` counts from 1, `weekday` from 0 on Sunday.
pub record Date : Type 0 where
  pub year : ℕ
  pub month : ℕ
  pub day : ℕ
  pub weekday : ℕ

unfoldable pub is_leap : ℕ → Bool
is_leap y = y % 4 == 0 && (not (y % 100 == 0) || y % 400 == 0)

unfoldable pub days_in_month : ℕ → ℕ → ℕ
unfolding is_leap
days_in_month y m =
    if m == 2
    then if is_leap y then 29 else 28
    else if m == 4 || m == 6 || m == 9 || m == 11
    then 30
    else 31

unfoldable pub next_day : Date → Date
next_day d =
    if ltb d.day (days_in_month d.year d.month)
    then record { year = d.year; month = d.month; day = d.day + 1; weekday = (d.weekday + 1) % 7 }
    else if d.month == 12
    then record { year = d.year + 1; month = 1; day = 1; weekday = (d.weekday + 1) % 7 }
    else record { year = d.year; month = d.month + 1; day = 1; weekday = (d.weekday + 1) % 7 }

unfoldable pub advance : ℕ → Date → Date
advance zero d = d
advance (suc n) d = advance n (next_day d)

pub record IsDate (d : Date) : Type 0 where
  pub month_ge : 1 ≤ d.month
  pub month_le : d.month ≤ 12
  pub day_ge : 1 ≤ d.day
  pub day_le : d.day ≤ days_in_month d.year d.month
  pub weekday_lt : d.weekday < 7

-- Every month has 28 to 31 days, and of two months in a row one has 31.
pub days_in_month_bounds : (y m : ℕ) → (28 ≤ days_in_month y m) × (days_in_month y m ≤ 31)
unfolding days_in_month
days_in_month_bounds y m = ground arith

pub next_day-weekday : (d : Date) → (next_day d).weekday ≡ (d.weekday + 1) % 7
unfolding next_day
next_day-weekday d = ground arith

pub next_day-inside :
    (d : Date)
    → d.day < days_in_month d.year d.month
    → ((next_day d).day ≡ d.day + 1) × ((next_day d).month ≡ d.month) × ((next_day d).year ≡ d.year)
unfolding next_day
next_day-inside d h = ground arith

next_day-month :
    (d : Date)
    → d.day ≡ days_in_month d.year d.month
    → ((next_day d).day ≡ 1) × ((d.month ≡ 12) ⊎ ((next_day d).month ≡ d.month + 1))
unfolding next_day
next_day-month d h = ground arith

days_in_month-next : (y y' m : ℕ) → days_in_month y m < 31 → days_in_month y' (m + 1) ≡ 31
unfolding days_in_month
days_in_month-next y y' m h = ground arith

days_in_month-december : (y : ℕ) → days_in_month y 12 ≡ 31
unfolding days_in_month
days_in_month-december y = refl

-- After the last day of a month comes the first of the next, which has 31 days if this one has
-- fewer.
pub next_day-turn :
    (d : Date)
    → d.day ≡ days_in_month d.year d.month
    → ((next_day d).day ≡ 1)
      × (days_in_month d.year d.month < 31
          → days_in_month (next_day d).year (next_day d).month ≡ 31)
next_day-turn d h =
    let (first, month) = next_day-month d h in
    (
      first,
      λ short. elim month [
        | inl december ↦
            absurd
              (omega (arith, days_in_month-december d.year, ap (days_in_month d.year) december))
        | inr next ↦ rw next (days_in_month-next d.year (next_day d).year d.month short)
      ],
    )

pub next_day-IsDate : (d : Date) → IsDate d → IsDate (next_day d)
unfolding next_day
next_day-IsDate d v =
    ground (arith, days_in_month_bounds d.year (d.month + 1), days_in_month_bounds (d.year + 1) 1)

pub advance-weekday :
    (k : ℕ) (d : Date) → d.weekday < 7 → (advance k d).weekday ≡ (d.weekday + k) % 7
unfolding advance
advance-weekday zero d h = omega arith
advance-weekday (suc k) d h =
    omega (
      arith,
      next_day-weekday d,
      advance-weekday k (next_day d) (omega (arith, next_day-weekday d)),
    )

pub advance-add : (a b : ℕ) (d : Date) → advance (a + b) d ≡ advance b (advance a d)
unfolding advance
advance-add zero b d = rw zero-add
advance-add (suc a) b d = rw (add.suc a b) (advance-add a b (next_day d))

pub advance-inside :
    (j : ℕ) (d : Date)
    → d.day + j ≤ days_in_month d.year d.month
    → ((advance j d).day ≡ d.day + j)
      × ((advance j d).month ≡ d.month)
      × ((advance j d).year ≡ d.year)
unfolding advance
advance-inside zero d h = omega arith
advance-inside (suc j) d h =
    let (day, month, year) = next_day-inside d (omega arith) in
    let length : days_in_month (next_day d).year (next_day d).month ≡ days_in_month d.year d.month =
      rw (month, year) in
    let ih = advance-inside j (next_day d) (omega arith) in omega (arith, ih)

-- From the first of a month to a day of that month.
day_of_month :
    (d : Date) (s : ℕ)
    → d.day ≤ s
    → s ≤ days_in_month d.year d.month
    → (advance (s - d.day) d).day ≡ s
day_of_month d s lo hi = omega (arith, advance-inside (s - d.day) d (omega arith))

abbrev month_length : Date → ℕ
month_length d = days_in_month d.year d.month

-- To the first of the next month.
turn_of_month :
    (d : Date)
    → d.day ≤ month_length d
    → let e = advance (month_length d - d.day + 1) d in
      (e.day ≡ 1) × (month_length d < 31 → month_length e ≡ 31)
unfolding advance
turn_of_month d h =
    let last = advance (month_length d - d.day) d in
    let (day, month, year) = advance-inside (month_length d - d.day) d (omega arith) in
    let same : month_length last ≡ month_length d = rw (month, year) in
    let (first, next) = next_day-turn last (omega (arith, day, same)) in
    rw (advance-add (month_length d - d.day) 1 d) (first, λ short. next (omega (arith, same)))

-- From any date, every day number up to 31 comes within 62 days.
pub day_within :
    (d : Date) (s : ℕ) → IsDate d → 1 ≤ s → s ≤ 31 → (k : ℕ) × (k ≤ 62) × ((advance k d).day ≡ s)
day_within d s v lo hi = elim (dec_le d.day s) [
  | yes after ↦ elim (dec_le s (month_length d)) [
    | yes within ↦ (
      s - d.day,
      omega (arith, days_in_month_bounds d.year d.month),
      day_of_month d s after within,
    )
    | no beyond ↦
        let long = (turn_of_month d v.day_le).1 (omega arith) in next_month (omega (arith, long))
  ]
  | no before ↦ elim (dec_le s (month_length e)) [
    | yes within ↦ next_month within
    | no beyond ↦
        let first = (turn_of_month d v.day_le).0 in
        let bounds = days_in_month_bounds e.year e.month in
        let turned = turn_of_month e (omega (arith, first, bounds)) in
        let b = month_length e - e.day + 1 in
        let f = advance b e in
        let within : s ≤ month_length f = omega (arith, turned.1 (omega arith)) in
        (
          a + (b + (s - f.day)),
          omega (arith, first, bounds, days_in_month_bounds d.year d.month, turned.0, v.day_ge),
          rw (advance-add a (b + (s - f.day)) d) (
              rw (advance-add b (s - f.day) e) (day_of_month f s (omega (arith, turned.0)) within)),
        )
  ]
]
  where
    a : ℕ
    a = month_length d - d.day + 1

    e : Date
    e = advance a d

    next_month : s ≤ month_length e → (k : ℕ) × (k ≤ 62) × ((advance k d).day ≡ s)
    next_month within =
        let first = (turn_of_month d v.day_le).0 in
        (
          a + (s - e.day),
          omega (arith, days_in_month_bounds d.year d.month, v.day_ge),
          rw (advance-add a (s - e.day) d) (day_of_month e s (omega (arith, first)) within),
        )
