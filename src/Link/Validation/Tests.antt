-- ===== src/Link/Validation/Tests.antt =====
-- Validations of a rule, and instances of the theorems on accepted ones.
use painel_mt_affiliates.Common.{◌≤◌, ◌≡◌, refl, true, false, none, some, [], ◌∷◌, count, All}
use painel_mt_affiliates.Common.Int.{pos, ◌≤ℤ◌}
use painel_mt_affiliates.Link.Types.{HouseLinkRule, range}
use painel_mt_affiliates.Link.Tiers.{is_in_tier}
use painel_mt_affiliates.Link.Cycle.{mem, adjacent}
use painel_mt_affiliates.Link.Cycle.Closed.{Requires}
use painel_mt_affiliates.Link.Cpa.{Params, resolve_cpa}
use painel_mt_affiliates.Link.Validation.{
  Context, circular, reference_inactive, required_inactive, validate_house_link_rule,
}
use painel_mt_affiliates.Link.Validation.Accepted.{
  accepted_nonneg, accepted_unique, accepted_acyclic,
}

abbrev rule : HouseLinkRule
rule = record {
  request_enabled = true;
  auto_assign_enabled = true;
  rule_type = range;
  default_cpa = pos 500000;
  fallback_cpa = pos 550000;
  inviter_cpa_threshold = none;
  inviter_cpa_discount = pos 50000;
  default_revshare = pos 0;
  range_reference_house = some "superbet";
  range_tiers =
      record { min = none; max = some (pos 550000); cpa = pos 500000 }
      ∷ record { min = some (pos 560000); max = none; cpa = pos 550000 }
      ∷ [];
  use_inviter_cpa = true;
  apply_default_no_inviter = true;
  require_active_link_in_houses = true;
  required_house_slugs = "superbet" ∷ [];
  block_on_required_fail = false;
  block_message = "";
}

abbrev context : Context
context = record {
  self_slug = "esportiva";
  active_house_slugs = "superbet" ∷ "esportiva" ∷ [];
  dependency_graph = ("superbet", []) ∷ [];
}

abbrev params : Params
params = record {
  house_slug = "esportiva";
  deal_id = none;
  user_id = "ana";
  inviter_id = none;
  rule = rule;
}

accepted : validate_house_link_rule rule context ≡ []
unfolding validate_house_link_rule
accepted = refl

-- The required house requires this one, and it is not active.
refused :
    validate_house_link_rule rule (record context {
      active_house_slugs = [];
      dependency_graph = ("superbet", "esportiva" ∷ []) ∷ [];
    })
    ≡ reference_inactive "superbet"
      ∷ required_inactive "superbet"
      ∷ circular ("esportiva" ∷ "superbet" ∷ "esportiva" ∷ [])
      ∷ []
unfolding validate_house_link_rule
refused = refl

accepted_nonneg_example : pos 0 ≤ℤ (resolve_cpa [] [] params).cpa
accepted_nonneg_example = accepted_nonneg params context [] [] accepted tt

accepted_unique_example : count (is_in_tier (pos 550000)) rule.range_tiers ≤ 1
accepted_unique_example = accepted_unique rule context (pos 550000) accepted refl

accepted_acyclic_example :
    (mem "esportiva" ("superbet" ∷ []) ≡ false)
    × All (λ slug. mem slug ("superbet" ∷ "esportiva" ∷ []) ≡ true) ("superbet" ∷ [])
    × (Requires
          (adjacent (("superbet", []) ∷ []) "esportiva" ("superbet" ∷ []))
          "esportiva"
          "esportiva"
        → ⊥)
accepted_acyclic_example = accepted_acyclic rule context accepted refl
