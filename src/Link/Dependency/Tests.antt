-- ===== src/Link/Dependency/Tests.antt =====
-- Runs of `checkRequiredLinks`, and instances of its theorems.
use painel_mt_affiliates.Common.{◌≡◌, ◌↔◌, refl, true, false, none, [], ◌∷◌, String}
use painel_mt_affiliates.Common.Int.{pos}
use painel_mt_affiliates.Link.Types.{AffiliateLink, pool, placeholder, HouseLinkRule, mirror}
use painel_mt_affiliates.Link.Dependency.{check_required_links}
use painel_mt_affiliates.Link.Dependency.Laws.{is_asked, has_link, check_required_links-ok_iff}

abbrev rule : HouseLinkRule
rule = record {
  request_enabled = true;
  auto_assign_enabled = true;
  rule_type = mirror;
  default_cpa = pos 0;
  fallback_cpa = pos 0;
  inviter_cpa_threshold = none;
  inviter_cpa_discount = pos 0;
  default_revshare = pos 0;
  range_reference_house = none;
  range_tiers = [];
  use_inviter_cpa = true;
  apply_default_no_inviter = true;
  require_active_link_in_houses = true;
  required_house_slugs = "betano" ∷ "SuperBet" ∷ "esportiva" ∷ "betano" ∷ [];
  block_on_required_fail = true;
  block_message = "";
}

abbrev betano : AffiliateLink
betano = record {
  id = "link";
  campaign_id = "7-a";
  affiliate_id = "7";
  user_link = none;
  link_type = none;
  user_id = "leo";
  betting_house = "betano";
  deleted_at = none;
  source = pool;
  cpa = none;
  revshare = none;
  updated_at = 1;
}

abbrev esportiva : AffiliateLink
esportiva = record betano { betting_house = "esportiva" }

-- A placeholder is no link, and Superbet is never asked for.
missing :
    check_required_links (betano ∷ record esportiva { source = placeholder } ∷ []) "leo" rule
    ≡ record {
      ok = false;
      required_houses = "betano" ∷ "esportiva" ∷ [];
      missing_houses = "esportiva" ∷ [];
    }
unfolding check_required_links
missing = refl

passes :
    check_required_links (betano ∷ esportiva ∷ []) "leo" rule
    ≡ record { ok = true; required_houses = "betano" ∷ "esportiva" ∷ []; missing_houses = [] }
unfolding check_required_links
passes = refl

check_required_links-ok_iff_example :
    ((check_required_links (betano ∷ esportiva ∷ []) "leo" rule).ok ≡ true) ↔ (
      (slug : String)
      → is_asked rule slug ≡ true
      → has_link (betano ∷ esportiva ∷ []) "leo" slug ≡ true)
check_required_links-ok_iff_example =
    check_required_links-ok_iff (betano ∷ esportiva ∷ []) "leo" rule
