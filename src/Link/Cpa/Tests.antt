-- ===== src/Link/Cpa/Tests.antt =====
-- Resolutions of a CPA, and instances of their theorems.
use painel_mt_affiliates.Common.{List, ◌≡◌, ◌↔◌, refl, true, false, none, some, [], ◌∷◌, truthy}
use painel_mt_affiliates.Common.Int.{pos, ◌-ℤ◌}
use painel_mt_affiliates.Link.Types.{
  RuleType, AffiliateLink, manual, HouseLinkRule, inviter_discount, inviter_minus_discount,
}
use painel_mt_affiliates.Link.Cpa.{Params, resolve_cpa}
use painel_mt_affiliates.Link.Cpa.Inviter.{LacksCpa, resolve_cpa-hold_iff}

abbrev rule : HouseLinkRule
rule = record {
  request_enabled = true;
  auto_assign_enabled = true;
  rule_type = inviter_discount;
  default_cpa = pos 500000;
  fallback_cpa = pos 450000;
  inviter_cpa_threshold = some (pos 600000);
  inviter_cpa_discount = pos 50000;
  default_revshare = pos 0;
  range_reference_house = none;
  range_tiers = [];
  use_inviter_cpa = true;
  apply_default_no_inviter = true;
  require_active_link_in_houses = false;
  required_house_slugs = [];
  block_on_required_fail = false;
  block_message = "";
}

-- An inviter with a CPA of 60 in the house.
abbrev link : AffiliateLink
link = record {
  id = "link";
  campaign_id = "7-a";
  affiliate_id = "7";
  user_link = none;
  link_type = none;
  user_id = "leo";
  betting_house = "betano";
  deleted_at = none;
  source = manual;
  cpa = some (pos 600000);
  revshare = none;
  updated_at = 3;
}

abbrev params : Params
params = record {
  house_slug = "betano";
  deal_id = none;
  user_id = "ana";
  inviter_id = some "leo";
  rule = rule;
}

by_discount : (resolve_cpa (link ∷ []) [] params).rule_applied ≡ inviter_minus_discount
unfolding resolve_cpa
by_discount = refl

to_55 : (resolve_cpa (link ∷ []) [] params).cpa ≡ pos 550000
unfolding resolve_cpa ◌-ℤ◌
to_55 = refl

-- In Superbet, with a deal, the inviter's link does not count.
abbrev superbet_params : Params
superbet_params = record params { house_slug = "superbet"; deal_id = some "d" }

abbrev superbet_link : AffiliateLink
superbet_link = record link { betting_house = "superbet" }

superbet_held : (resolve_cpa (superbet_link ∷ []) [] superbet_params).hold ≡ true
unfolding resolve_cpa
superbet_held = refl

resolve_cpa-hold_iff_example :
    ((resolve_cpa (superbet_link ∷ []) [] superbet_params).hold ≡ true) ↔ (
      (truthy superbet_params.inviter_id ≡ true)
      × LacksCpa true superbet_params (superbet_link ∷ []) [])
resolve_cpa-hold_iff_example = resolve_cpa-hold_iff (superbet_link ∷ []) [] superbet_params

-- A CPA of 60 in Superbet lies in the tier of the inviter's CPA.
abbrev by_range : Params
by_range = record params {
  rule = record rule {
    rule_type = RuleType.range;
    range_reference_house = some "superbet";
    range_tiers = record { min = some (pos 500000); max = none; cpa = pos 600000 } ∷ [];
  };
}

abbrev both_links : List AffiliateLink
both_links = link ∷ record link { id = "own"; user_id = "ana"; betting_house = "superbet" } ∷ []

to_55_by_range : (resolve_cpa both_links [] by_range).cpa ≡ pos 550000
unfolding resolve_cpa ◌-ℤ◌
to_55_by_range = refl
