-- ===== src/Withdrawal/PinbetLimit/Caps.antt =====
-- The limit of one house: bounds, the 80% cap and what each restriction means.
use painel_mt_affiliates.Common.{
  ℕ, ◌+◌, ◌*◌, ◌/◌, ◌≤◌, ◌≡◌, ◌⊎◌, ◌↔◌, refl, true, false, none, some, Bool-cases, Option-cases,
  inl, inr, arith,
}
use painel_mt_affiliates.Common.Int.{ℤ, pos, negsuc, pos_part, ◌≤ℤ◌, ◌-ℤ◌, leb_ℤ, max_ℤ}
use painel_mt_affiliates.Withdrawal.PinbetLimit.{
  Limit, LimitInput, money, times_eight, capped, is_pinbet_house, unrestricted, syncing, by_net_pl,
  calculate_pinbet_withdrawal_limit,
}

-- An amount in whole cents is its own truncation.
pub money-one : (x : ℤ) → money 1 x ≡ x
unfolding money
money-one (pos n) = ground arith
money-one (negsuc n) = ground arith

money_pos : (units n : ℕ) → money units (pos n) ≡ pos (n / units)
unfolding money
money_pos units n = refl

-- 80% of whole cents, cut at the cent.
money-times_eight : (p : ℕ) → money 10 (times_eight (pos p)) ≡ pos (8 * p / 10)
money-times_eight p =
    let e : times_eight (pos p) ≡ pos (8 * p) = ground arith in rw e (money_pos 10 (8 * p))

pub max-nonneg : (x : ℤ) → pos 0 ≤ℤ max_ℤ (pos 0) x
max-nonneg x = ground arith

-- What may be withdrawn under a positive Net P&L, and how the answer names the cap.
abbrev pub IsCapped : ℤ → ℤ → ℤ → Limit → Type 0
IsCapped b c p r =
    (pos 0 ≤ℤ r.withdrawable)
    × (r.withdrawable ≤ℤ b)
    × ((r.withdrawable ≡ pos 0) ⊎ (10 * (pos_part r.withdrawable + pos_part c) ≤ 8 * pos_part p))
    × ((r.restriction ≡ none) ↔ (r.withdrawable ≡ b))

capped-IsCapped : (b c p : ℤ) → pos 0 ≤ℤ b → pos 0 ≤ℤ c → pos 1 ≤ℤ p → IsCapped b c p (capped b c p)
unfolding capped ◌-ℤ◌
capped-IsCapped (pos b) (pos c) (pos p) hb hc hp = rw (money-times_eight, money-one) (ground arith)
capped-IsCapped b c p hb hc hp = absurd (omega arith)

by_net_pl-nonneg :
    (b c p : ℤ)
    → pos 0 ≤ℤ b
    → pos 0 ≤ℤ c
    → (pos 0 ≤ℤ (by_net_pl b c p).withdrawable) × ((by_net_pl b c p).withdrawable ≤ℤ b)
unfolding by_net_pl
by_net_pl-nonneg b c p hb hc = elim (Bool-cases (leb_ℤ p (pos 0))) [
  | inl low ↦ rw low (omega arith, hb)
  | inr high ↦ let h = capped-IsCapped b c p hb hc (ground arith) in rw high (h.0, h.1)
]

by_net_pl-cap :
    (b c p : ℤ)
    → pos 0 ≤ℤ b
    → pos 0 ≤ℤ c
    → ((by_net_pl b c p).withdrawable ≡ pos 0)
      ⊎ (10 * (pos_part (by_net_pl b c p).withdrawable + pos_part c) ≤ 8 * pos_part p)
unfolding by_net_pl
by_net_pl-cap b c p hb hc = elim (Bool-cases (leb_ℤ p (pos 0))) [
  | inl low ↦ rw low (inl refl)
  | inr high ↦ let h = capped-IsCapped b c p hb hc (ground arith) in rw high h.2
]

by_net_pl-none_iff :
    (b c p : ℤ)
    → pos 0 ≤ℤ b
    → pos 0 ≤ℤ c
    → ((by_net_pl b c p).restriction ≡ none) ↔ (((by_net_pl b c p).withdrawable ≡ b) × (pos 1 ≤ℤ p))
unfolding by_net_pl
by_net_pl-none_iff b c p hb hc = elim (Bool-cases (leb_ℤ p (pos 0))) [
  | inl low ↦ rw low ((λ e. absurd (cc)), λ h. absurd (ground arith))
  | inr high ↦
      let h = capped-IsCapped b c p hb hc (ground arith) in
      rw high ((λ e. (h.3.0 e, ground arith)), λ k. h.3.1 k.0)
]

module _ (units : ℕ) (i : LimitInput) where
  abbrev pub limit : Limit
  limit = calculate_pinbet_withdrawal_limit units i

  abbrev pub balance : ℤ
  balance = max_ℤ (pos 0) (money units i.balance)

  abbrev pub consumed : ℤ
  consumed = max_ℤ (pos 0) (money units i.consumed)

  -- The branches of the calculation with their conditions.
  abbrev pub IsOther : Type 0
  IsOther = (is_pinbet_house i.house ≡ false) × (limit ≡ unrestricted balance i.net_pl consumed)

  abbrev pub IsSyncing : Type 0
  IsSyncing =
      ((i.metrics_complete ≡ false) ⊎ (i.net_pl ≡ none)) × (limit ≡ syncing balance consumed)

  abbrev pub IsSynced : Type 0
  IsSynced =
      (q : ℤ) × (i.net_pl ≡ some q)
      × (i.metrics_complete ≡ true)
      × (limit ≡ by_net_pl balance consumed (money units q))

  pub limit-cases : IsOther ⊎ (IsSyncing ⊎ IsSynced)
  unfolding calculate_pinbet_withdrawal_limit
  limit-cases = elim (Bool-cases (is_pinbet_house i.house)) [
    | inr other ↦ inl (other, rw other)
    | inl pinbet ↦ elim (Bool-cases i.metrics_complete) [
      | inr partial ↦ inr (inl (inl partial, rw (pinbet, partial)))
      | inl complete ↦ elim (Option-cases i.net_pl) [
        | inl missing ↦ inr (inl (inr missing, rw (pinbet, complete, missing)))
        | inr (q, e) ↦ inr (inr (q, e, complete, rw (pinbet, complete, e)))
      ]
    ]
  ]

  -- Whatever comes in, the withdrawable amount lies between zero and the balance.
  pub withdrawable_bounds : (pos 0 ≤ℤ limit.withdrawable) × (limit.withdrawable ≤ℤ balance)
  unfolding unrestricted syncing
  withdrawable_bounds = elim limit-cases [
    | inl (_, e) ↦ rw e (max-nonneg (money units i.balance), omega arith)
    | inr (inl (_, e)) ↦ rw e (omega arith, max-nonneg (money units i.balance))
    | inr (inr (q, _, _, e)) ↦ rw e (
        by_net_pl-nonneg balance consumed (money units q) (max-nonneg (money units i.balance))
          (max-nonneg (money units i.consumed)))
  ]

  -- A Pinbet house pays out nothing, or its metrics are complete with a Net P&L, and the
  -- withdrawal together with the earlier ones stays within 80% of it.
  pub withdrawable_cap :
      is_pinbet_house i.house ≡ true
      → (limit.withdrawable ≡ pos 0)
        ⊎ ((q : ℤ) × (i.net_pl ≡ some q)
            × (i.metrics_complete ≡ true)
            × (10 * (pos_part limit.withdrawable + pos_part consumed)
                ≤ 8 * pos_part (money units q)))
  unfolding syncing
  withdrawable_cap pinbet = elim limit-cases [
    | inl (other, _) ↦ absurd (cc)
    | inr (inl (_, e)) ↦ inl (rw e)
    | inr (inr (q, known, complete, e)) ↦
        elim (by_net_pl-cap balance consumed (money units q) (max-nonneg (money units i.balance))
          (max-nonneg (money units i.consumed))) [
            | inl z ↦ inl (rw e z)
            | inr le ↦ inr (q, known, complete, rw e le)
          ]
  ]

  -- A Pinbet house is unrestricted exactly when its metrics are complete, its Net P&L is positive
  -- and the whole balance may be withdrawn.
  pub restriction-none_iff :
      is_pinbet_house i.house ≡ true
      → (limit.restriction ≡ none) ↔ (
          (limit.withdrawable ≡ balance)
          × ((q : ℤ) × (i.net_pl ≡ some q)
              × (i.metrics_complete ≡ true)
              × (pos 1 ≤ℤ money units q)))
  unfolding syncing
  restriction-none_iff pinbet = elim limit-cases [
    | inl (other, _) ↦ absurd (cc)
    | inr (inl (inl partial, e)) ↦ rw e ((λ n. absurd (cc)), λ h. absurd (let c = h.1.2 in cc))
    | inr (inl (inr missing, e)) ↦ rw e ((λ n. absurd (cc)), λ h. absurd (let c = h.1.1 in cc))
    | inr (inr (q, known, complete, e)) ↦
        let iff =
          by_net_pl-none_iff balance consumed (money units q) (max-nonneg (money units i.balance))
            (max-nonneg (money units i.consumed)) in
        rw e (
          λ n. ((iff.0 n).0, (q, known, complete, (iff.0 n).1)),
          λ h.
              let (r, found, _, positive) = h.1 in
              let same : r ≡ q = cc in iff.1 (h.0, rw same at positive),
        )
  ]
