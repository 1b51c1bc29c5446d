-- ===== src/Withdrawal/PinbetLimit/Segments.antt =====
-- Limits of the tracking dimensions of one house, added up.
use painel_mt_affiliates.Common.{
  ℕ, ◌+◌, ◌*◌, ◌≤◌, ◌≡◌, ◌≢◌, ◌⊎◌, refl, ap, true, not, none, List, [], ◌∷◌, map, all, or_else, All,
  Bool-cases, inl, inr, arith,
}
use painel_mt_affiliates.Common.Int.{ℤ, pos, pos_part, ◌≤ℤ◌, ◌+ℤ◌, ◌-ℤ◌, max_ℤ, min_ℤ, int_laws}
use painel_mt_affiliates.Withdrawal.PinbetLimit.{
  Limit, Segment, SegmentedLimit, money, is_pinbet_house, syncing, segment_limit, total_of,
  combine_segments, is_syncing, calculate_segmented_pinbet_withdrawal_limit, mensal_input,
}
use painel_mt_affiliates.Withdrawal.PinbetLimit.Caps.{
  money-one, max-nonneg, limit-cases, withdrawable_bounds, withdrawable_cap,
}

abbrev pub sum_by : (Segment → ℕ) → List Segment → ℕ
sum_by f [] = 0
sum_by f (s ∷ ss) = f s + sum_by f ss

abbrev pub IsComplete : Segment → Type 0
IsComplete s = (s.metrics_complete ≡ true) × (s.net_pl ≢ none)

-- What is left of a total after the combined withdrawals.
remaining_of :
    (t c : ℤ)
    → pos 0 ≤ℤ c
    → pos 0 ≤ℤ t
    → (max_ℤ (pos 0) (money 1 (t -ℤ c)) ≡ pos 0)
      ⊎ (pos_part (max_ℤ (pos 0) (money 1 (t -ℤ c))) + pos_part c ≤ pos_part t)
unfolding ◌-ℤ◌
remaining_of (pos t) (pos c) hc ht = rw money-one (ground arith)
remaining_of t c hc ht = absurd (omega arith)

min-nonneg :
    (u v : ℤ)
    → pos 0 ≤ℤ u
    → pos 0 ≤ℤ v
    → (pos 0 ≤ℤ min_ℤ u v) × (pos_part (min_ℤ u v) ≤ pos_part v) × (v ≡ pos 0 → min_ℤ u v ≡ pos 0)
min-nonneg (pos u) (pos v) hu hv = ground arith
min-nonneg u v hu hv = absurd (omega arith)

-- The smaller of balance and remaining limit, after the combined withdrawals.
capped_by :
    (b0 c t : ℤ)
    → pos 0 ≤ℤ c
    → pos 0 ≤ℤ t
    → let w = min_ℤ (max_ℤ (pos 0) (money 1 (b0 -ℤ c))) (max_ℤ (pos 0) (money 1 (t -ℤ c))) in
      (w ≡ pos 0) ⊎ ((pos 0 ≤ℤ w) × (pos_part w + pos_part c ≤ pos_part t))
capped_by b0 c t hc ht =
    let u = max_ℤ (pos 0) (money 1 (b0 -ℤ c)) in
    let v = max_ℤ (pos 0) (money 1 (t -ℤ c)) in
    let h = min-nonneg u v (max-nonneg (money 1 (b0 -ℤ c))) (max-nonneg (money 1 (t -ℤ c))) in
    elim (remaining_of t c hc ht) [
      | inl z ↦ inl (h.2 z)
      | inr le ↦ inr (h.0, omega (arith, h.1, le))
    ]

module _ (units : ℕ) where
  -- the positive part of a dimension's Net P&L, in cents
  abbrev pub positive_net_pl : Segment → ℕ
  positive_net_pl s = pos_part (money units (or_else s.net_pl (pos 0)))

  abbrev pub own_balance : Segment → ℕ
  own_balance s = pos_part (money units s.balance)

  abbrev own_withdrawable : Segment → ℕ
  own_withdrawable s = pos_part (segment_limit units s).1.withdrawable

  segment_covered :
      (s : Segment)
      → (own_withdrawable s ≡ 0)
        ⊎ (IsComplete s × (10 * own_withdrawable s ≤ 8 * positive_net_pl s))
  unfolding segment_limit is_pinbet_house
  segment_covered s = elim (withdrawable_cap units (mensal_input s) refl) [
    | inl z ↦ inl (rw z)
    | inr (q, known, complete, le) ↦
        let same : positive_net_pl s ≡ pos_part (money units q) =
          ap (λ n. pos_part (money units (or_else n (pos 0)))) known in
        inr ((complete, λ missing. absurd (cc)), omega (arith, le, same))
  ]

  -- One dimension stays within its balance and within 80% of its own Net P&L.
  segment_cap :
      (s : Segment)
      → (pos 0 ≤ℤ (segment_limit units s).1.withdrawable)
        × (own_withdrawable s ≤ own_balance s)
        × (10 * own_withdrawable s ≤ 8 * positive_net_pl s)
  unfolding segment_limit
  segment_cap s =
      let bounds = withdrawable_bounds units (mensal_input s) in
      (bounds.0, ground (arith, bounds.1, bounds.0), ground (arith, segment_covered s))

  total-withdrawable :
      (ss : List Segment) (acc : ℤ)
      → pos 0 ≤ℤ acc
      → let t = total_of (λ l. l.withdrawable) acc (map (segment_limit units) ss) in
        (pos 0 ≤ℤ t) × (pos_part t ≡ pos_part acc + sum_by own_withdrawable ss)
  unfolding total_of
  total-withdrawable [] acc h = omega arith
  total-withdrawable (s ∷ ss) acc h =
      let w = (segment_limit units s).1.withdrawable in
      let ih = total-withdrawable ss (acc +ℤ w) (omega (int_laws, segment_cap s)) in
      omega (int_laws, ih, segment_cap s)

  sum-own_withdrawable :
      (ss : List Segment)
      → (sum_by own_withdrawable ss ≤ sum_by own_balance ss)
        × (10 * sum_by own_withdrawable ss ≤ 8 * sum_by positive_net_pl ss)
  sum-own_withdrawable [] = omega arith
  sum-own_withdrawable (s ∷ ss) = omega (arith, segment_cap s, sum-own_withdrawable ss)

  abbrev pub segmented : List Segment → ℤ → SegmentedLimit
  segmented = calculate_segmented_pinbet_withdrawal_limit units

  abbrev pub combined_cents : ℤ → ℤ
  combined_cents c = max_ℤ (pos 0) (money units c)

  not_syncing-IsComplete :
      (s : Segment) → not (is_syncing (segment_limit units s).1.restriction) ≡ true → IsComplete s
  unfolding segment_limit syncing is_pinbet_house
  not_syncing-IsComplete s h = elim (limit-cases units (mensal_input s)) [
    | inl (other, _) ↦ absurd (cc)
    | inr (inl (_, e)) ↦
        absurd (let e' = ap (λ (l : Limit). not (is_syncing l.restriction)) e in cc)
    | inr (inr (q, known, complete, _)) ↦ (complete, λ missing. absurd (cc))
  ]

  all-IsComplete :
      (ss : List Segment)
      → all (λ s. not (is_syncing s.1.restriction)) (map (segment_limit units) ss) ≡ true
      → All IsComplete ss
  all-IsComplete [] h = tt
  all-IsComplete (s ∷ ss) h =
      (not_syncing-IsComplete s (ground arith), all-IsComplete ss (ground arith))

  -- Either nothing may be withdrawn, or every dimension is synced and has a Net P&L, and the
  -- withdrawal, which is not negative, and the combined earlier ones together stay within the sum of
  -- the dimensions' balances and within 80% of the sum of their positive Net P&Ls.
  pub segmented_cap :
      (ss : List Segment) (c : ℤ)
      → ((segmented ss c).withdrawable ≡ pos 0)
        ⊎ (All IsComplete ss
            × (pos 0 ≤ℤ (segmented ss c).withdrawable)
            × (pos_part (segmented ss c).withdrawable + pos_part (combined_cents c)
                ≤ sum_by own_balance ss)
            × (10 * (pos_part (segmented ss c).withdrawable + pos_part (combined_cents c))
                ≤ 8 * sum_by positive_net_pl ss))
  unfolding calculate_segmented_pinbet_withdrawal_limit combine_segments
  segmented_cap ss c =
      let segs = map (segment_limit units) ss in
      elim (Bool-cases (all (λ s. not (is_syncing s.1.restriction)) segs)) [
        | inr partial ↦ inl (rw partial)
        | inl complete ↦
            elim (capped_by b0 (combined_cents c) t (max-nonneg (money units c)) total.0) [
              | inl z ↦ inl (rw complete z)
              | inr h ↦
                  let parts = sum-own_withdrawable ss in
                  inr (
                    all-IsComplete ss complete,
                    rw complete h.0,
                    rw complete (omega (arith, h.1, total.1, parts)),
                    rw complete (omega (arith, h.1, total.1, parts)),
                  )
            ]
      ]
    where
      t : ℤ
      t = total_of (λ l. l.withdrawable) (pos 0) (map (segment_limit units) ss)

      b0 : ℤ
      b0 = money 1 (total_of (λ l. l.balance) (pos 0) (map (segment_limit units) ss))

      total : (pos 0 ≤ℤ t) × (pos_part t ≡ 0 + sum_by own_withdrawable ss)
      total = total-withdrawable ss (pos 0) (omega arith)
