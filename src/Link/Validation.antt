-- ===== src/Link/Validation.antt =====
-- `validateHouseLinkRule`:
-- backend-vexxa/src/modules/link-request/application/link-rule-validation.ts.
-- Each message is one constructor; the block message comes trimmed.
pub mod Accepted
mod Tests
use painel_mt_affiliates.Common.{
  Bool, true, false, not, ◌&&◌, ◌||◌, Option, none, some, List, [], ◌∷◌, ◌++◌, String, str_eq, any,
  or_else, is_some, truthy, if◌then◌else◌,
}
use painel_mt_affiliates.Common.Int.{ℤ, pos, leb_ℤ}
use painel_mt_affiliates.Link.Types.{
  RuleType, inviter_discount, range, mirror, RangeTier, HouseLinkRule,
}
use painel_mt_affiliates.Link.Tiers.{find_tier_overlap}
use painel_mt_affiliates.Link.Cycle.{
  Graph, mem, Outcome, cycle, no_cycle, out_of_fuel, find_dependency_cycle,
}

pub data Issue : Type 0 where
  negative_default negative_fallback negative_discount threshold_missing : Issue
  reference_missing no_tiers negative_tier requires_itself block_message_missing : Issue
  reference_inactive : String → Issue
  tiers_overlap : RangeTier → RangeTier → Issue
  required_inactive : String → Issue
  circular : List String → Issue

pub record Context : Type 0 where
  pub self_slug : String
  pub active_house_slugs : List String
  pub dependency_graph : Graph

-- `if (test) issues.push(issue)`
abbrev pub issue_if : Bool → Issue → List Issue
issue_if true issue = issue ∷ []
issue_if false issue = []

abbrev pub is_negative : ℤ → Bool
is_negative x = not (leb_ℤ (pos 0) x)

unfoldable pub amount_issues : HouseLinkRule → List Issue
amount_issues r =
    issue_if (is_negative r.default_cpa) negative_default
    ++ issue_if (is_negative r.fallback_cpa) negative_fallback
    ++ issue_if (is_negative r.inviter_cpa_discount) negative_discount

unfoldable pub reference_issues : Context → Option String → List Issue
reference_issues ctx house =
    if truthy house
    then issue_if (not (mem (or_else house "") ctx.active_house_slugs))
        (reference_inactive (or_else house ""))
    else reference_missing ∷ []

abbrev pub is_nil : List RangeTier → Bool
is_nil [] = true
is_nil (_ ∷ _) = false

abbrev pub overlap_issues : Option (RangeTier × RangeTier) → List Issue
overlap_issues none = []
overlap_issues (some (a, b)) = tiers_overlap a b ∷ []

unfoldable pub type_issues : Context → HouseLinkRule → RuleType → List Issue
unfolding reference_issues find_tier_overlap
type_issues ctx r inviter_discount =
    issue_if (not (is_some r.inviter_cpa_threshold)) threshold_missing
type_issues ctx r mirror = reference_issues ctx r.range_reference_house
type_issues ctx r range =
    reference_issues ctx r.range_reference_house
    ++ issue_if (is_nil r.range_tiers) no_tiers
    ++ issue_if (any (λ (t : RangeTier). is_negative t.cpa) r.range_tiers) negative_tier
    ++ overlap_issues (find_tier_overlap r.range_tiers)

unfoldable pub inactive_issues : Context → List String → List Issue
inactive_issues ctx [] = []
inactive_issues ctx (slug ∷ rest) =
    issue_if (not (str_eq slug ctx.self_slug) && not (mem slug ctx.active_house_slugs))
      (required_inactive slug)
    ++ inactive_issues ctx rest

-- The search always has fuel enough (`Cycle.Theorems`).
abbrev pub cycle_issues : Outcome → List Issue
cycle_issues (cycle path) = circular path ∷ []
cycle_issues no_cycle = []
cycle_issues out_of_fuel = []

unfoldable pub required_issues : Context → HouseLinkRule → List Issue
unfolding inactive_issues find_dependency_cycle
required_issues ctx r =
    if r.require_active_link_in_houses
    then issue_if (mem ctx.self_slug r.required_house_slugs) requires_itself
      ++ inactive_issues ctx r.required_house_slugs
      ++ cycle_issues
          (find_dependency_cycle ctx.dependency_graph ctx.self_slug r.required_house_slugs)
      ++ issue_if (r.block_on_required_fail && str_eq r.block_message "") block_message_missing
    else []

unfoldable pub validate_house_link_rule : HouseLinkRule → Context → List Issue
unfolding amount_issues type_issues required_issues
validate_house_link_rule r ctx =
    amount_issues r ++ type_issues ctx r r.rule_type ++ required_issues ctx r
