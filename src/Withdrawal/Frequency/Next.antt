-- ===== src/Withdrawal/Frequency/Next.antt =====
-- `nextWithdrawalDate` returns the first day that is open, and finds one.
use painel_mt_affiliates.Common.{
  ℕ, zero, suc, ◌+◌, ◌-◌, ◌%◌, ◌≤◌, ◌<◌, ◌≡◌, ◌≢◌, true, false, none, some, Bool-cases, inl, inr,
  arith, or_else,
}
use painel_mt_affiliates.Withdrawal.Calendar.{
  Date, IsDate, next_day, advance-weekday, day_within, advance,
}
use painel_mt_affiliates.Withdrawal.Frequency.{
  WithdrawalSchedule, is_day_allowed, is_withdrawal_day_allowed, walk, next_withdrawal_date,
  is_unrestricted,
}

-- The first open day at `k` days from `d`: none before it is open.
abbrev pub IsFirst : WithdrawalSchedule → Date → ℕ → Type 0
IsFirst h d k =
    (is_withdrawal_day_allowed h (advance k d) ≡ true)
    × ((j : ℕ) → j < k → is_withdrawal_day_allowed h (advance j d) ≡ false)

-- One more closed day in front.
IsFirst-suc :
    (h : WithdrawalSchedule) (d : Date) (k : ℕ)
    → is_withdrawal_day_allowed h d ≡ false
    → IsFirst h (next_day d) k
    → IsFirst h d (suc k)
unfolding advance
IsFirst-suc h d k closed (opens, before) = (opens, go)
  where
    go : (j : ℕ) → j < suc k → is_withdrawal_day_allowed h (advance j d) ≡ false
    go zero lt = closed
    go (suc j) lt = before j (omega arith)

walk-IsFirst :
    (h : WithdrawalSchedule) (n : ℕ) (d r : Date)
    → is_withdrawal_day_allowed h d ≡ false
    → walk h n d ≡ some r
    → (k : ℕ) × (k ≤ n) × (r ≡ advance k d) × IsFirst h d k
unfolding walk advance
walk-IsFirst h zero d r closed e = absurd (cc)
walk-IsFirst h (suc n) d r closed e = elim (Bool-cases (is_withdrawal_day_allowed h (next_day d))) [
  | inl opens ↦
      let found : some (next_day d) ≡ some r = rw opens at e in
      (1, omega arith, cc, IsFirst-suc h d 0 closed (opens, λ j lt. absurd (omega arith)))
  | inr shut ↦
      let rest : walk h n (next_day d) ≡ some r = rw shut at e in
      let (k, le, same, first) = walk-IsFirst h n (next_day d) r shut rest in
      (suc k, omega arith, same, IsFirst-suc h d k closed first)
]

-- The date that is returned is open, at most 62 days ahead, and no earlier day is open.
pub next_withdrawal_date-IsFirst :
    (h : WithdrawalSchedule) (now r : Date)
    → next_withdrawal_date h now ≡ some r
    → (k : ℕ) × (k ≤ 62) × (r ≡ advance k now) × IsFirst h now k
unfolding next_withdrawal_date advance
next_withdrawal_date-IsFirst h now r e = elim (Bool-cases (is_unrestricted h)) [
  | inl free ↦ absurd (let e' : none ≡ some r = rw free at e in cc)
  | inr bound ↦ elim (Bool-cases (is_withdrawal_day_allowed h now)) [
    | inl opens ↦
        let found : some now ≡ some r = rw (bound, opens) at e in
        (0, omega arith, cc, (opens, λ j lt. absurd (omega arith)))
    | inr shut ↦
        let found : walk h 62 now ≡ some r = rw (bound, shut) at e in
        walk-IsFirst h 62 now r shut found
  ]
]

-- A day that is open within the rounds is not missed.
walk-found :
    (h : WithdrawalSchedule) (n k : ℕ) (d : Date)
    → k < n
    → is_withdrawal_day_allowed h (advance (suc k) d) ≡ true
    → walk h n d ≢ none
unfolding walk advance
walk-found h zero k d lt o = absurd (omega arith)
walk-found h (suc n) zero d lt o = rw o (λ e. cc)
walk-found h (suc n) (suc k) d lt o = ground (arith, walk-found h n k (next_day d))

-- If a day within 62 is open, and some restriction is configured, a date is returned.
next_withdrawal_date-found :
    (h : WithdrawalSchedule) (k : ℕ) (now : Date)
    → k ≤ 62
    → is_unrestricted h ≡ false
    → is_withdrawal_day_allowed h (advance k now) ≡ true
    → next_withdrawal_date h now ≢ none
unfolding next_withdrawal_date advance
next_withdrawal_date-found h zero now le bound o = rw (bound, o) (λ e. cc)
next_withdrawal_date-found h (suc k) now le bound o =
    elim (Bool-cases (is_withdrawal_day_allowed h now)) [
      | inl opens ↦ rw (bound, opens) (λ e. cc)
      | inr shut ↦ rw (bound, shut) (walk-found h 62 k now (omega arith) o)
    ]

-- A house that pays on one weekday always has a next date.
pub next_withdrawal_date-weekly :
    (h : WithdrawalSchedule) (w : ℕ) (now : Date)
    → h.withdrawal_weekday ≡ some w
    → w < 7
    → now.weekday < 7
    → next_withdrawal_date h now ≢ none
unfolding is_withdrawal_day_allowed is_unrestricted
next_withdrawal_date-weekly h w now set lt today =
    let k = (w + 7 - now.weekday) % 7 in
    let reached : (advance k now).weekday ≡ w = omega (arith, advance-weekday k now today) in
    next_withdrawal_date-found h k now (omega arith) (rw set) (ground (arith, reached))

-- A house with no weekday and with a monthly window that starts on a day from 1 to 31 and does not
-- end before it always has a next date: the walk of 62 days is long enough.
pub next_withdrawal_date-monthly :
    (h : WithdrawalSchedule) (s : ℕ) (now : Date)
    → h.withdrawal_weekday ≡ none
    → h.withdrawal_day ≡ some s
    → 1 ≤ s
    → s ≤ 31
    → s ≤ or_else h.withdrawal_day_end s
    → IsDate now
    → next_withdrawal_date h now ≢ none
unfolding is_withdrawal_day_allowed is_unrestricted is_day_allowed
next_withdrawal_date-monthly h s now free set lo hi window v =
    let (k, le, reached) = day_within now s v lo hi in
    next_withdrawal_date-found h k now le (rw (free, set)) (ground (arith, reached))
