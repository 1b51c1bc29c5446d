-- ===== src/Link/Cpa/Ranges.antt =====
-- `resolveRange` of backend-vexxa/src/modules/link-request/application/cpa-resolution.service.ts,
-- within `resolveCpa`.
use painel_mt_affiliates.Common.{◌≡◌, Option, none, some, List, All, ◌⊎◌}
use painel_mt_affiliates.Common.Int.{ℤ, pos, ◌≤ℤ◌, ◌-ℤ◌, max_ℤ}
use painel_mt_affiliates.Link.Types.{AffiliateLink, RangeTier}
use painel_mt_affiliates.Link.Cpa.{Params, reference_house}
use painel_mt_affiliates.Link.Cpa.Newest.{Any}
use painel_mt_affiliates.Link.Cpa.Reads.{NoCpa, NewestCpa}

-- no bound, or one that the CPA keeps
abbrev pub IsAbove : Option ℤ → ℤ → Type 0
IsAbove none c = Unit
IsAbove (some lo) c = lo ≤ℤ c

abbrev pub IsBelow : ℤ → Option ℤ → Type 0
IsBelow c none = Unit
IsBelow c (some hi) = c ≤ℤ hi

abbrev pub IsIn : ℤ → RangeTier → Type 0
IsIn c t = IsAbove t.min c × IsBelow c t.max

-- The tier's CPA, or where it is the inviter's, that less the discount and no less than zero.
abbrev pub Compared : Params → ℤ → RangeTier → ℤ → Type 0
Compared p inviter t cpa =
    ((t.cpa ≡ inviter) × (cpa ≡ max_ℤ (pos 0) (inviter -ℤ p.rule.inviter_cpa_discount)))
    ⊎ ((t.cpa ≡ inviter → ⊥) × (cpa ≡ t.cpa))

-- The fallback, where the reference CPA lies in no tier.
abbrev pub Tiered : Params → ℤ → ℤ → ℤ → Type 0
Tiered p inviter reference cpa =
    (All (λ t. IsIn reference t → ⊥) p.rule.range_tiers × (cpa ≡ p.rule.fallback_cpa))
    ⊎ ((t : RangeTier) × Any (λ x. x ≡ t) p.rule.range_tiers
        × IsIn reference t
        × Compared p inviter t cpa)

-- The fallback, where the user has no CPA in the reference house.
abbrev pub Ranged : Params → List AffiliateLink → ℤ → ℤ → Type 0
Ranged p links inviter cpa =
    (NoCpa p.user_id (reference_house p) links × (cpa ≡ p.rule.fallback_cpa))
    ⊎ ((reference : ℤ) × NewestCpa p.user_id (reference_house p) reference links
        × Tiered p inviter reference cpa)
