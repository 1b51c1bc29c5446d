-- ===== src/Link/Cpa.antt =====
-- `CpaResolutionService`:
-- backend-vexxa/src/modules/link-request/application/cpa-resolution.service.ts.
-- The two tables that it reads are arguments.
pub mod Newest
pub mod Reads
pub mod Laws
pub mod Inviter
pub mod Ranges
pub mod Sign
mod Tests
use painel_mt_affiliates.Common.{
  ℕ, Bool, true, false, not, ◌&&◌, ◌||◌, Option, none, some, List, [], ◌∷◌, String, str_eq, or_else,
  is_some, truthy, ltb, if◌then◌else◌,
}
use painel_mt_affiliates.Common.Int.{ℤ, pos, leb_ℤ, ltb_ℤ, eqb_ℤ, ◌-ℤ◌}
use painel_mt_affiliates.Link.Types.{
  AffiliateLink, LinkRequest, fulfilled, request_status_eq, RuleType, inviter_discount, range,
  mirror, RangeTier, HouseLinkRule, RuleApplied, by_default, inviter_minus_discount, fallback,
  range_rule, mirror_reference, CpaResolution, is_real_active_link_row,
}
use painel_mt_affiliates.Link.Tiers.{find_tier}

abbrev pub newer_link : AffiliateLink → Option AffiliateLink → Option AffiliateLink
newer_link l none = some l
newer_link l (some m) = if ltb l.updated_at m.updated_at then some m else some l

-- `findFirst` with `orderBy: { updatedAt: 'desc' }`
abbrev pub latest_link : (AffiliateLink → Bool) → List AffiliateLink → Option AffiliateLink
latest_link test [] = none
latest_link test (l ∷ ls) =
    let rest = latest_link test ls in if test l then newer_link l rest else rest

abbrev pub is_real_cpa_link : String → String → AffiliateLink → Bool
is_real_cpa_link user house l =
    str_eq l.user_id user
    && str_eq l.betting_house house
    && is_real_active_link_row l
    && is_some l.cpa

abbrev pub link_cpa : Option AffiliateLink → Option ℤ
link_cpa none = none
link_cpa (some l) = l.cpa

unfoldable pub read_real_cpa : List AffiliateLink → String → String → Option ℤ
unfolding is_real_active_link_row
read_real_cpa links user house = link_cpa (latest_link (is_real_cpa_link user house) links)

-- descending, where a missing time comes first
abbrev pub is_before : Option ℕ → ℕ → Option ℕ → ℕ → Bool
is_before none u none v = ltb u v
is_before none u (some g) v = false
is_before (some f) u none v = true
is_before (some f) u (some g) v = ltb f g || (not (ltb g f) && ltb u v)

abbrev pub newer_request : LinkRequest → Option LinkRequest → Option LinkRequest
newer_request r none = some r
newer_request r (some q) =
    if is_before r.fulfilled_at r.updated_at q.fulfilled_at q.updated_at then some q else some r

abbrev pub latest_request : (LinkRequest → Bool) → List LinkRequest → Option LinkRequest
latest_request test [] = none
latest_request test (r ∷ rs) =
    let rest = latest_request test rs in if test r then newer_request r rest else rest

abbrev pub is_deal : String → Option String → Bool
is_deal deal none = false
is_deal deal (some d) = str_eq d deal

abbrev pub is_deal_request : String → String → String → LinkRequest → Bool
is_deal_request user house deal r =
    str_eq r.user_id user
    && is_deal deal r.deal_id
    && str_eq r.betting_house_slug house
    && request_status_eq r.status fulfilled
    && is_some r.resolved_cpa

abbrev pub request_cpa : Option LinkRequest → Option ℤ
request_cpa none = none
request_cpa (some r) = r.resolved_cpa

unfoldable pub read_deal_cpa : List LinkRequest → String → String → String → Option ℤ
read_deal_cpa requests user house deal =
    request_cpa (latest_request (is_deal_request user house deal) requests)

pub record Params : Type 0 where
  pub house_slug : String
  pub deal_id : Option String
  pub user_id : String
  pub inviter_id : Option String
  pub rule : HouseLinkRule

-- the CPA of the inviter in the same house
unfoldable pub inviter_house_cpa : List AffiliateLink → List LinkRequest → Params → Option ℤ
unfolding read_real_cpa read_deal_cpa
inviter_house_cpa links requests p =
    if truthy p.inviter_id
    then if str_eq p.house_slug "superbet" && truthy p.deal_id
      then read_deal_cpa requests (or_else p.inviter_id "") p.house_slug (or_else p.deal_id "")
      else read_real_cpa links (or_else p.inviter_id "") p.house_slug
    else none

-- `build({})`, with the toggles
abbrev pub build : Params → List String → CpaResolution
build p toggles = record {
  cpa = pos 0;
  revshare = p.rule.default_revshare;
  rule_applied = by_default;
  inviter_id = p.inviter_id;
  inviter_cpa = none;
  range_reference_house = none;
  range_reference_cpa = none;
  fallback_used = false;
  toggles_applied = toggles;
  hold = false;
}

abbrev pub fall_back : Params → List String → CpaResolution
fall_back p toggles = record (build p toggles) {
  cpa = p.rule.fallback_cpa;
  rule_applied = fallback;
  fallback_used = true;
}

-- `a - b > 0 ? a - b : 0`
unfoldable pub discounted : ℤ → ℤ → ℤ
discounted cpa discount = if ltb_ℤ (pos 0) (cpa -ℤ discount) then cpa -ℤ discount else pos 0

abbrev pub reference_house : Params → String
reference_house p = or_else p.rule.range_reference_house p.house_slug

unfoldable pub resolve_mirror : List AffiliateLink → Params → CpaResolution
unfolding read_real_cpa
resolve_mirror links p = elim (read_real_cpa links p.user_id (reference_house p)) [
  | none ↦ record (fall_back p ("mirrorRef" ∷ "noReferenceCpa" ∷ [])) {
    range_reference_house = some (reference_house p);
  }
  | some cpa ↦ record (build p ("mirrorRef" ∷ [])) {
    range_reference_house = some (reference_house p);
    range_reference_cpa = some cpa;
    cpa = cpa;
    rule_applied = mirror_reference;
  }
]

-- the tier, against the CPA of the inviter
unfoldable pub by_tier : Params → Option ℤ → ℤ → RangeTier → CpaResolution
unfolding discounted
by_tier p inviter reference tier =
    let plain : CpaResolution = record (build p ("rangeSelfRef" ∷ [])) {
      inviter_cpa = inviter;
      range_reference_house = some (reference_house p);
      range_reference_cpa = some reference;
      cpa = tier.cpa;
      rule_applied = range_rule;
    } in
    elim inviter [
      | none ↦ plain
      | some inviter_cpa ↦
          if eqb_ℤ tier.cpa inviter_cpa
          then record plain {
            cpa = discounted tier.cpa p.rule.inviter_cpa_discount;
            rule_applied = inviter_minus_discount;
            toggles_applied = "rangeSelfRef" ∷ "equalToInviterMinusDiscount" ∷ [];
          }
          else plain
    ]

unfoldable pub resolve_range : List AffiliateLink → Params → Option ℤ → CpaResolution
unfolding read_real_cpa find_tier by_tier
resolve_range links p inviter = elim (read_real_cpa links p.user_id (reference_house p)) [
  | none ↦ record (fall_back p ("rangeSelfRef" ∷ "noReferenceCpa" ∷ [])) {
    range_reference_house = some (reference_house p);
  }
  | some reference ↦ elim (find_tier reference p.rule.range_tiers) [
    | none ↦ record (fall_back p ("rangeSelfRef" ∷ "noTierMatch" ∷ [])) {
      range_reference_house = some (reference_house p);
      range_reference_cpa = some reference;
    }
    | some tier ↦ by_tier p inviter reference tier
  ]
]

abbrev pub is_within : ℤ → Option ℤ → Bool
is_within cpa none = true
is_within cpa (some threshold) = leb_ℤ cpa threshold

unfoldable pub resolve_inviter : Params → Option ℤ → CpaResolution
unfolding discounted
resolve_inviter p inviter =
    if not p.rule.use_inviter_cpa
    then record (build p ("useInviterCpa=false" ∷ [])) { cpa = p.rule.default_cpa }
    else elim inviter [
      | none ↦
          if p.rule.apply_default_no_inviter
          then record (build p ("applyDefaultNoInviter" ∷ [])) { cpa = p.rule.default_cpa }
          else fall_back p []
      | some cpa ↦
          if is_within cpa p.rule.inviter_cpa_threshold
          then record (build p ("useInviterCpa" ∷ "inviterDiscount" ∷ [])) {
            inviter_cpa = some cpa;
            cpa = discounted cpa p.rule.inviter_cpa_discount;
            rule_applied = inviter_minus_discount;
          }
          else record (build p ("useInviterCpa" ∷ [])) {
            inviter_cpa = some cpa;
            cpa = p.rule.default_cpa;
          }
    ]

unfoldable pub by_rule : List AffiliateLink → Params → RuleType → Option ℤ → CpaResolution
unfolding resolve_mirror resolve_range resolve_inviter
by_rule links p mirror inviter = resolve_mirror links p
by_rule links p range inviter = resolve_range links p inviter
by_rule links p inviter_discount inviter = resolve_inviter p inviter

-- An inviter without a CPA in the house holds the request; behind that guard an inviter's CPA is
-- there exactly when there is an inviter.
unfoldable pub with_inviter : List AffiliateLink → Params → Option ℤ → CpaResolution
unfolding by_rule
with_inviter links p inviter =
    if truthy p.inviter_id && not (is_some inviter)
    then record (build p ("holdInviterNoCpa" ∷ [])) { hold = true }
    else by_rule links p p.rule.rule_type inviter

unfoldable pub resolve_cpa : List AffiliateLink → List LinkRequest → Params → CpaResolution
unfolding inviter_house_cpa with_inviter
resolve_cpa links requests p = with_inviter links p (inviter_house_cpa links requests p)
