-- ===== src/Link/Validation/Accepted.antt =====
-- What holds of a rule that the validation accepts.
use mathlib.Core.Path.{subst}
use text.Mathlib.TextPositions.{eq_refl}
use painel_mt_affiliates.Common.{
  ◌≤◌, ◌≡◌, refl, inl, inr, Bool, true, false, ◌&&◌, Option, none, some, List, [], ◌∷◌, ◌++◌,
  String, str_eq, eq_iff, any, count, All, Bool-cases, arith,
}
use painel_mt_affiliates.Common.Int.{ℤ, pos, ◌≤ℤ◌}
use painel_mt_affiliates.Link.Types.{range, RangeTier, HouseLinkRule, AffiliateLink, LinkRequest}
use painel_mt_affiliates.Link.Tiers.{find_tier_overlap, is_in_tier, find_tier_overlap_unique}
use painel_mt_affiliates.Link.Cycle.{mem, adjacent, find_dependency_cycle}
use painel_mt_affiliates.Link.Cycle.Closed.{Requires}
use painel_mt_affiliates.Link.Cycle.Theorems.{find_dependency_cycle-decides}
use painel_mt_affiliates.Link.Cpa.{Params, resolve_cpa}
use painel_mt_affiliates.Link.Cpa.Sign.{IsValidRule, HasNoNegative, resolve_cpa_nonneg}
use painel_mt_affiliates.Link.Validation.{
  Issue, requires_itself, block_message_missing, Context, issue_if, is_negative, amount_issues,
  overlap_issues, type_issues, inactive_issues, cycle_issues, required_issues,
  validate_house_link_rule,
}

issue_if-nil : (test : Bool) (i : Issue) → issue_if test i ≡ [] → test ≡ false
issue_if-nil true i h = absurd (cc)
issue_if-nil false i h = refl

not_negative : (x : ℤ) → is_negative x ≡ false → pos 0 ≤ℤ x
not_negative x h = ground arith

tiers_nonneg :
    (ts : List RangeTier)
    → any (λ (t : RangeTier). is_negative t.cpa) ts ≡ false
    → All (λ (t : RangeTier). pos 0 ≤ℤ t.cpa) ts
tiers_nonneg [] h = tt
tiers_nonneg (t ∷ ts) h = elim (Bool-cases (is_negative t.cpa)) [
  | inl n ↦ absurd (let h' = rw n at h in cc)
  | inr n ↦ (not_negative t.cpa n, tiers_nonneg ts (rw n at h))
]

-- The parts of an accepted rule have no issues.
no_issues :
    (r : HouseLinkRule) (ctx : Context)
    → validate_house_link_rule r ctx ≡ []
    → (amount_issues r ≡ []) × (type_issues ctx r r.rule_type ≡ []) × (required_issues ctx r ≡ [])
unfolding validate_house_link_rule
no_issues r ctx h = ground arith

amounts-ok :
    (r : HouseLinkRule)
    → amount_issues r ≡ []
    → (pos 0 ≤ℤ r.default_cpa) × (pos 0 ≤ℤ r.fallback_cpa) × (pos 0 ≤ℤ r.inviter_cpa_discount)
unfolding amount_issues
amounts-ok r h = ground arith

range-ok :
    (ctx : Context) (r : HouseLinkRule)
    → type_issues ctx r range ≡ []
    → (any (λ (t : RangeTier). is_negative t.cpa) r.range_tiers ≡ false)
      × (overlap_issues (find_tier_overlap r.range_tiers) ≡ [])
unfolding type_issues
range-ok ctx r h = ground arith

overlap-none : (o : Option (RangeTier × RangeTier)) → overlap_issues o ≡ [] → o ≡ none
overlap-none none h = refl
overlap-none (some (a, b)) h = absurd (cc)

accepted-IsValidRule :
    (r : HouseLinkRule) (ctx : Context) → validate_house_link_rule r ctx ≡ [] → IsValidRule r
accepted-IsValidRule r ctx h =
    let (amounts, types, _) = no_issues r ctx h in
    let (default_ok, fallback_ok, _) = amounts-ok r amounts in
    record {
      default_ok = default_ok;
      fallback_ok = fallback_ok;
      tiers_ok = λ is.
          tiers_nonneg r.range_tiers
            (range-ok ctx r (subst (λ t. type_issues ctx r t ≡ []) is types)).0;
    }

-- A rule that the validation accepts never resolves to a negative CPA, as long as no link has
-- one, whatever the discount.
pub accepted_nonneg :
    (p : Params) (ctx : Context) (links : List AffiliateLink) (requests : List LinkRequest)
    → validate_house_link_rule p.rule ctx ≡ []
    → All HasNoNegative links
    → pos 0 ≤ℤ (resolve_cpa links requests p).cpa
accepted_nonneg p ctx links requests h no_neg =
    resolve_cpa_nonneg links requests p no_neg (accepted-IsValidRule p.rule ctx h)

-- In a RANGE rule that the validation accepts, a reference CPA lies in at most one tier.
pub accepted_unique :
    (r : HouseLinkRule) (ctx : Context) (x : ℤ)
    → validate_house_link_rule r ctx ≡ []
    → r.rule_type ≡ range
    → count (is_in_tier x) r.range_tiers ≤ 1
accepted_unique r ctx x h is =
    let (_, types, _) = no_issues r ctx h in
    let (_, apart) = range-ok ctx r (subst (λ t. type_issues ctx r t ≡ []) is types) in
    find_tier_overlap_unique x r.range_tiers (overlap-none (find_tier_overlap r.range_tiers) apart)

all_nil : (a b c d : List Issue) → a ++ b ++ c ++ d ≡ [] → (a ≡ []) × (b ≡ []) × (c ≡ [])
all_nil [] [] [] d h = (refl, refl, refl)
all_nil (x ∷ a) b c d h = absurd (cc)
all_nil [] (x ∷ b) c d h = absurd (cc)
all_nil [] [] (x ∷ c) d h = absurd (cc)

required-ok :
    (ctx : Context) (r : HouseLinkRule)
    → r.require_active_link_in_houses ≡ true
    → required_issues ctx r ≡ []
    → (mem ctx.self_slug r.required_house_slugs ≡ false)
      × (inactive_issues ctx r.required_house_slugs ≡ [])
      × (cycle_issues
            (find_dependency_cycle ctx.dependency_graph ctx.self_slug r.required_house_slugs)
          ≡ [])
unfolding required_issues
required-ok ctx r on h =
    let cycles =
      cycle_issues
        (find_dependency_cycle ctx.dependency_graph ctx.self_slug r.required_house_slugs) in
    let (own, inactive, none_found) =
      all_nil (issue_if (mem ctx.self_slug r.required_house_slugs) requires_itself)
        (inactive_issues ctx r.required_house_slugs) cycles
        (issue_if (r.block_on_required_fail && str_eq r.block_message "") block_message_missing)
        (rw on at h) in
    (
      issue_if-nil (mem ctx.self_slug r.required_house_slugs) requires_itself own,
      inactive,
      none_found,
    )

active-ok :
    (ctx : Context) (slugs : List String)
    → inactive_issues ctx slugs ≡ []
    → mem ctx.self_slug slugs ≡ false
    → All (λ slug. mem slug ctx.active_house_slugs ≡ true) slugs
unfolding inactive_issues
active-ok ctx [] h own = tt
active-ok ctx (s ∷ rest) h own = elim (Bool-cases (str_eq ctx.self_slug s)) [
  | inl same ↦ absurd (let e = rw same at own in cc)
  | inr other ↦ elim (Bool-cases (str_eq s ctx.self_slug)) [
    | inl same ↦
        absurd (let e = rw ((eq_iff s ctx.self_slug).0 same, eq_refl ctx.self_slug) at other in cc)
    | inr differs ↦ elim (Bool-cases (mem s ctx.active_house_slugs)) [
      | inl on ↦ (on, active-ok ctx rest (rw (differs, on, inactive_issues) at h) (rw other at own))
      | inr off ↦ absurd (let e = rw (differs, off, inactive_issues) at h in cc)
    ]
  ]
]

-- When the validation accepts a rule that requires links in other houses, it does not require its
-- own house, all the houses that it requires are active, and no chain of requirements leads from
-- the house back to it.
pub accepted_acyclic :
    (r : HouseLinkRule) (ctx : Context)
    → validate_house_link_rule r ctx ≡ []
    → r.require_active_link_in_houses ≡ true
    → (mem ctx.self_slug r.required_house_slugs ≡ false)
      × All (λ slug. mem slug ctx.active_house_slugs ≡ true) r.required_house_slugs
      × (Requires
            (adjacent ctx.dependency_graph ctx.self_slug r.required_house_slugs)
            ctx.self_slug
            ctx.self_slug
          → ⊥)
accepted_acyclic r ctx h on =
    let (_, _, required) = no_issues r ctx h in
    let (own, active, none_found) = required-ok ctx r on required in
    (
      own,
      active-ok ctx r.required_house_slugs active own,
      elim (find_dependency_cycle-decides ctx.dependency_graph ctx.self_slug
          r.required_house_slugs) [
            | inl (_, no_way_back) ↦ no_way_back
            | inr (path, found, _) ↦ absurd (let e = rw found at none_found in cc)
          ],
    )
