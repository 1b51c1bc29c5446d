-- ===== src/Link/Cpa/Sign.antt =====
-- A resolved CPA is never negative.
use mathlib.Core.Path.{subst}
use painel_mt_affiliates.Common.{
  ◌≡◌, refl, ap, ◌∙◌, Bool, not, ◌&&◌, Option, none, some, List, [], ◌∷◌, String, All, truthy,
  is_some, ltb, find, Bool-cases, Option-cases, inl, inr, arith,
}
use painel_mt_affiliates.Common.Int.{ℤ, pos, ◌≤ℤ◌, ◌-ℤ◌, ltb_ℤ, eqb_ℤ}
use painel_mt_affiliates.Link.Types.{
  AffiliateLink, LinkRequest, RuleType, inviter_discount, range, mirror, RangeTier, HouseLinkRule,
}
use painel_mt_affiliates.Link.Tiers.{find_tier, is_in_tier}
use painel_mt_affiliates.Link.Cpa.{
  latest_link, is_real_cpa_link, read_real_cpa, Params, inviter_house_cpa, discounted,
  reference_house, resolve_mirror, by_tier, resolve_range, resolve_inviter, is_within, by_rule,
  with_inviter, resolve_cpa,
}

-- The amounts of a rule that passed its validation.
pub record IsValidRule (r : HouseLinkRule) : Type 0 where
  pub default_ok : pos 0 ≤ℤ r.default_cpa
  pub fallback_ok : pos 0 ≤ℤ r.fallback_cpa
  pub tiers_ok : r.rule_type ≡ range → All (λ (t : RangeTier). pos 0 ≤ℤ t.cpa) r.range_tiers

abbrev pub HasNoNegative : AffiliateLink → Type 0
HasNoNegative l = (c : ℤ) → l.cpa ≡ some c → pos 0 ≤ℤ c

latest-link :
    (test : AffiliateLink → Bool) (ls : List AffiliateLink) (l : AffiliateLink)
    → All HasNoNegative ls
    → latest_link test ls ≡ some l
    → HasNoNegative l
latest-link test [] l h e = absurd (cc)
latest-link test (x ∷ ls) l (hx, h) e = elim (Bool-cases (test x)) [
  | inr t ↦ latest-link test ls l h (rw t at e)
  | inl t ↦ elim (Option-cases (latest_link test ls)) [
    | inl n ↦
        let e' : some x ≡ some l = rw (t, n) at e in
        let same : x ≡ l = cc in subst HasNoNegative same hx
    | inr (y, m) ↦ elim (Bool-cases (ltb x.updated_at y.updated_at)) [
      | inl o ↦
          let e' : some y ≡ some l = rw (t, m, o) at e in
          let same : y ≡ l = cc in latest-link test ls l h (m ∙ ap some same)
      | inr o ↦
          let e' : some x ≡ some l = rw (t, m, o) at e in
          let same : x ≡ l = cc in subst HasNoNegative same hx
    ]
  ]
]

read-nonneg :
    (links : List AffiliateLink) (user house : String) (c : ℤ)
    → All HasNoNegative links
    → read_real_cpa links user house ≡ some c
    → pos 0 ≤ℤ c
unfolding read_real_cpa
read-nonneg links user house c h e =
    elim (Option-cases (latest_link (is_real_cpa_link user house) links)) [
      | inl n ↦ absurd (let e' = rw (n, read_real_cpa) at e in cc)
      | inr (l, m) ↦
          latest-link (is_real_cpa_link user house) links l h m c (rw (m, read_real_cpa) at e)
    ]

find-All :
    (test : RangeTier → Bool) (ts : List RangeTier) (t : RangeTier)
    → All (λ (t : RangeTier). pos 0 ≤ℤ t.cpa) ts
    → find test ts ≡ some t
    → pos 0 ≤ℤ t.cpa
find-All test [] t h e = absurd (cc)
find-All test (x ∷ ts) t (hx, h) e = elim (Bool-cases (test x)) [
  | inl y ↦
      let e' : some x ≡ some t = rw y at e in
      let same : x ≡ t = cc in subst (λ (u : RangeTier). pos 0 ≤ℤ u.cpa) same hx
  | inr n ↦ find-All test ts t h (rw n at e)
]

tier-nonneg :
    (x : ℤ) (ts : List RangeTier) (t : RangeTier)
    → All (λ (t : RangeTier). pos 0 ≤ℤ t.cpa) ts
    → find_tier x ts ≡ some t
    → pos 0 ≤ℤ t.cpa
unfolding find_tier
tier-nonneg x ts t h e = find-All (is_in_tier x) ts t h e

discounted-nonneg : (c d : ℤ) → pos 0 ≤ℤ discounted c d
unfolding discounted
discounted-nonneg c d = elim (Bool-cases (ltb_ℤ (pos 0) (c -ℤ d))) [
  | inl h ↦ rw h (ground (arith, h))
  | inr h ↦ rw h (omega arith)
]

by_tier-nonneg :
    (p : Params) (inviter : Option ℤ) (reference : ℤ) (tier : RangeTier)
    → pos 0 ≤ℤ tier.cpa
    → pos 0 ≤ℤ (by_tier p inviter reference tier).cpa
unfolding by_tier
by_tier-nonneg p none reference tier h = h
by_tier-nonneg p (some i) reference tier h = elim (Bool-cases (eqb_ℤ tier.cpa i)) [
  | inl e ↦ rw e (discounted-nonneg tier.cpa p.rule.inviter_cpa_discount)
  | inr e ↦ rw e h
]

by_rule-nonneg :
    (links : List AffiliateLink) (p : Params) (t : RuleType) (inviter : Option ℤ)
    → p.rule.rule_type ≡ t
    → All HasNoNegative links
    → IsValidRule p.rule
    → pos 0 ≤ℤ (by_rule links p t inviter).cpa
unfolding by_rule resolve_mirror resolve_range resolve_inviter
by_rule-nonneg links p mirror inviter is h v =
    elim (Option-cases (read_real_cpa links p.user_id (reference_house p))) [
      | inl e ↦ rw (e, resolve_mirror) v.fallback_ok
      | inr (c, e) ↦ rw (e, resolve_mirror) (read-nonneg links p.user_id (reference_house p) c h e)
    ]
by_rule-nonneg links p range inviter is h v =
    elim (Option-cases (read_real_cpa links p.user_id (reference_house p))) [
      | inl e ↦ rw (e, resolve_range) v.fallback_ok
      | inr (c, e) ↦ elim (Option-cases (find_tier c p.rule.range_tiers)) [
        | inl t ↦ rw (e, t, resolve_range) v.fallback_ok
        | inr (tier, t) ↦
            rw (e, t, resolve_range)
              (by_tier-nonneg p inviter c tier
                (tier-nonneg c p.rule.range_tiers tier (v.tiers_ok is) t))
      ]
    ]
by_rule-nonneg links p inviter_discount inviter is h v = elim (Bool-cases p.rule.use_inviter_cpa) [
  | inr u ↦ rw u v.default_ok
  | inl u ↦ elim (Option-cases inviter) [
    | inl n ↦ elim (Bool-cases p.rule.apply_default_no_inviter) [
      | inl a ↦ rw (u, n, a) v.default_ok
      | inr a ↦ rw (u, n, a) v.fallback_ok
    ]
    | inr (c, s) ↦ elim (Bool-cases (is_within c p.rule.inviter_cpa_threshold)) [
      | inl w ↦ rw (u, s, w) (discounted-nonneg c p.rule.inviter_cpa_discount)
      | inr w ↦ rw (u, s, w) v.default_ok
    ]
  ]
]

-- When the rule's default and fallback, and the tiers of a RANGE rule, are not negative,
-- and no link has a negative CPA, the resolved CPA is not negative, whatever the discount.
pub resolve_cpa_nonneg :
    (links : List AffiliateLink) (requests : List LinkRequest) (p : Params)
    → All HasNoNegative links
    → IsValidRule p.rule
    → pos 0 ≤ℤ (resolve_cpa links requests p).cpa
unfolding resolve_cpa with_inviter
resolve_cpa_nonneg links requests p h v = go (inviter_house_cpa links requests p)
  where
    go : (inviter : Option ℤ) → pos 0 ≤ℤ (with_inviter links p inviter).cpa
    go inviter = elim (Bool-cases (truthy p.inviter_id && not (is_some inviter))) [
      | inl held ↦ rw held (omega arith)
      | inr free ↦ rw free (by_rule-nonneg links p p.rule.rule_type inviter refl h v)
    ]
