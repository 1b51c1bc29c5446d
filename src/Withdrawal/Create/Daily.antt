-- ===== src/Withdrawal/Create/Daily.antt =====
-- The limit of one withdrawal a day and house, with its releases.
use text.Mathlib.TextPositions.{eq_refl}
use painel_mt_affiliates.Common.{
  ℕ, ◌+◌, ◌≤◌, ◌≡◌, ap, sym, ◌∙◌, Bool, true, false, ◌&&◌, some, List, [], ◌∷◌, String, str_eq, leb,
  any, find, count, count-append, any-count, is_some, Bool-cases, Option-cases, inl, inr, arith,
  if◌then◌else◌,
}
use painel_mt_affiliates.Withdrawal.Types.{Withdrawal, Release, Store, ok}
use painel_mt_affiliates.Withdrawal.Create.{
  Env, CreateDto, create, take_day, consume, consume_one, active, counts_today, is_open_release,
  start_of_day,
}
use painel_mt_affiliates.Withdrawal.Create.Amounts.{create-Prepared}

-- The releases of the day that a withdrawal has used up.
abbrev pub is_used_release : String → String → ℕ → Release → Bool
is_used_release user house start r =
    str_eq r.user_id user
    && str_eq r.betting_house house
    && leb start r.release_date
    && is_some r.consumed_at

abbrev pub withdrawals_today : String → String → ℕ → Store → ℕ
withdrawals_today user house start s = count (counts_today active user house start) s.withdrawals

abbrev pub used_releases : String → String → ℕ → List Release → ℕ
used_releases user house start rs = count (is_used_release user house start) rs

-- At most one withdrawal counts, and one more for each release that was used.
abbrev pub WithinLimit : String → String → ℕ → Store → Type 0
WithinLimit user house start s =
    withdrawals_today user house start s ≤ 1 + used_releases user house start s.releases

module _ (user house : String) (start now : ℕ) where
  consume_one-used :
      (id : String) (r : Release)
      → (if is_used_release user house start r then 1 else 0)
        ≤ (if is_used_release user house start (consume_one id now r) then 1 else 0)
  consume_one-used id r = elim (Bool-cases (str_eq r.id id)) [
    | inl named ↦ rw named (ground arith)
    | inr other ↦ rw other (omega arith)
  ]

  open_used :
      (r : Release)
      → is_open_release user house start r ≡ true
      → (is_used_release user house start (record r { consumed_at = some now }) ≡ true)
        × (is_used_release user house start r ≡ false)
  open_used r h = ground arith

  consume-used :
      (id : String) (rs : List Release)
      → used_releases user house start rs ≤ used_releases user house start (consume id now rs)
  unfolding consume
  consume-used id [] = omega arith
  consume-used id (r ∷ rs) = omega (arith, consume-used id rs, consume_one-used id r)

  -- Consuming the release that was found uses up one more.
  consume-open :
      (rs : List Release) (r : Release)
      → find (is_open_release user house start) rs ≡ some r
      → used_releases user house start rs + 1 ≤ used_releases user house start (consume r.id now rs)
  unfolding consume
  consume-open [] r e = absurd (cc)
  consume-open (x ∷ rs) r e = elim (Bool-cases (is_open_release user house start x)) [
    | inl opens ↦
        let found : some x ≡ some r = rw opens at e in
        let same : x ≡ r = cc in
        let (used, unused) = open_used x opens in
        rw (← same, eq_refl x.id, used, unused)
          (omega (arith, consume-used x.id rs, consume-used r.id rs))
    | inr shut ↦
        let ih = consume-open rs r (rw shut at e) in omega (arith, ih, consume_one-used r.id x)
  ]

-- Taking the day either finds no withdrawal in it or uses up a release.
take_day-room :
    (user house : String) (now : ℕ) (s : Store) (rs : List Release)
    → take_day now user house s ≡ ok rs
    → WithinLimit user house (start_of_day now) s
    → withdrawals_today user house (start_of_day now) s + 1
      ≤ 1 + used_releases user house (start_of_day now) rs
unfolding take_day
take_day-room user house now s rs e h =
    elim (Bool-cases (any (counts_today active user house (start_of_day now)) s.withdrawals)) [
      | inr free ↦
          let found : ok s.releases ≡ ok rs = rw (take_day, free) at e in
          let same : s.releases ≡ rs = cc in
          rw (← same) (
            omega (
              arith,
              any-count (counts_today active user house (start_of_day now)) s.withdrawals free,
            ))
      | inl taken ↦
          elim (Option-cases (find (is_open_release user house (start_of_day now)) s.releases)) [
            | inl spent ↦ absurd (let e' = rw (take_day, taken, spent) at e in cc)
            | inr (r, found) ↦
                let used : ok (consume r.id now s.releases) ≡ ok rs =
                  rw (take_day, taken, found) at e in
                let same : consume r.id now s.releases ≡ rs = cc in
                rw (← same) (
                  omega
                    (arith, consume-open user house (start_of_day now) now s.releases r found, h))
          ]
    ]

-- A `create` that succeeds keeps the limit of its user, house and day: at most one withdrawal in
-- an active status, and one more for each release that was used up.
pub create-WithinLimit :
    (env : Env) (id user_id : String) (dto : CreateDto) (s s' : Store) (w : Withdrawal)
    → create env id user_id dto s ≡ (ok w, s')
    → WithinLimit user_id dto.betting_house (start_of_day env.now) s
    → WithinLimit user_id dto.betting_house (start_of_day env.now) s'
create-WithinLimit env id user_id dto s s' w e h =
    let (u, rs, named, _, made, after) = create-Prepared env id user_id dto s s' w e in
    let start = start_of_day env.now in
    let test = counts_today active user_id dto.betting_house start in
    let room =
      take_day-room user_id dto.betting_house env.now s rs
        (ap (λ i. take_day env.now i dto.betting_house s) (sym named) ∙ made.day) h in
    let one : count test (w ∷ []) ≤ 1 = ground arith in
    rw after (omega (arith, room, one, count-append test s.withdrawals (w ∷ [])))
