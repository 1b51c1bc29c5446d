-- ===== src/Link/Cpa/Laws.antt =====
-- When `resolveCpa` (backend-vexxa/src/modules/link-request/application/
-- cpa-resolution.service.ts) holds a request, and its discount.

use painel_mt_affiliates.Common.{
  ◌≡◌, ◌↔◌, refl, true, false, Option, none, some, List, truthy, Bool-cases, inl, inr, arith,
}
use painel_mt_affiliates.Common.Int.{ℤ, pos, ◌-ℤ◌, ltb_ℤ, eqb_ℤ, max_ℤ}
use painel_mt_affiliates.Link.Types.{
  AffiliateLink, RuleType, inviter_discount, range, mirror, RangeTier,
}
use painel_mt_affiliates.Link.Cpa.{
  Params, discounted, resolve_mirror, by_tier, resolve_range, resolve_inviter, by_rule,
  with_inviter,
}

by_tier-hold :
    (p : Params) (inviter : Option ℤ) (reference : ℤ) (tier : RangeTier)
    → (by_tier p inviter reference tier).hold ≡ false
unfolding by_tier
by_tier-hold p none reference tier = refl
by_tier-hold p (some i) reference tier = elim (Bool-cases (eqb_ℤ tier.cpa i)) [
  | inl e ↦ rw e refl
  | inr e ↦ rw e refl
]

pub by_rule-hold :
    (links : List AffiliateLink) (p : Params) (t : RuleType) (inviter : Option ℤ)
    → (by_rule links p t inviter).hold ≡ false
unfolding by_rule resolve_mirror resolve_range resolve_inviter
by_rule-hold links p mirror inviter = ground arith
by_rule-hold links p range inviter = grind (arith, by_tier-hold)
by_rule-hold links p inviter_discount inviter = ground arith

-- Behind the guard on the inviter nothing is held.
pub hold_iff :
    (links : List AffiliateLink) (p : Params) (inviter : Option ℤ)
    → ((with_inviter links p inviter).hold ≡ true)
      ↔ ((truthy p.inviter_id ≡ true) × (inviter ≡ none))
unfolding with_inviter
hold_iff links p none = elim (Bool-cases (truthy p.inviter_id)) [
  | inl t ↦ (λ h. (t, refl), λ h. rw t refl)
  | inr t ↦ (
    λ h. absurd (let h' = rw t at h in let n = by_rule-hold links p p.rule.rule_type none in cc),
    λ h. absurd (let c = h.0 in cc),
  )
]
hold_iff links p (some c) = elim (Bool-cases (truthy p.inviter_id)) [
  | inl t ↦ (
    λ h.
        absurd (let h' = rw t at h in let n = by_rule-hold links p p.rule.rule_type (some c) in cc),
    λ h. absurd (let c = h.1 in cc),
  )
  | inr t ↦ (
    λ h.
        absurd (let h' = rw t at h in let n = by_rule-hold links p p.rule.rule_type (some c) in cc),
    λ h. absurd (let c = h.0 in cc),
  )
]

pub discounted_max : (c d : ℤ) → discounted c d ≡ max_ℤ (pos 0) (c -ℤ d)
unfolding discounted
discounted_max c d = elim (Bool-cases (ltb_ℤ (pos 0) (c -ℤ d))) [
  | inl h ↦ rw h (ground (arith, h))
  | inr h ↦ rw h (ground (arith, h))
]
