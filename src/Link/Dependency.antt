-- ===== src/Link/Dependency.antt =====
-- `LinkDependencyService.checkRequiredLinks`:
-- backend-vexxa/src/modules/link-request/application/link-dependency.service.ts.
-- The table of links is an argument.
pub mod Laws
mod Tests
use painel_mt_affiliates.Common.{
  Bool, true, false, not, ◌&&◌, List, [], ◌∷◌, map, String, str_eq, filter, if◌then◌else◌,
}
use painel_mt_affiliates.Common.Sets.{mem, add_all}
use painel_mt_affiliates.Link.Types.{AffiliateLink, HouseLinkRule, is_real_active_link_row}
use painel_mt_affiliates.Link.Lowered.{is_lowered}

pub record DependencyCheck : Type 0 where
  pub ok : Bool
  pub required_houses : List String
  pub missing_houses : List String

abbrev pub is_metrics_slug : String → Bool
is_metrics_slug slug = is_lowered slug "superbet"

unfoldable pub required_of : HouseLinkRule → List String
required_of rule =
    if rule.require_active_link_in_houses
    then add_all (filter (λ slug. not (is_metrics_slug slug)) rule.required_house_slugs) []
    else []

-- the `where` of the query
unfoldable pub is_required_link : String → List String → AffiliateLink → Bool
unfolding is_real_active_link_row
is_required_link user_id required link =
    str_eq link.user_id user_id && (mem link.betting_house required && is_real_active_link_row link)

abbrev pub is_none : List String → Bool
is_none [] = true
is_none (x ∷ xs) = false

abbrev pub check_all : List AffiliateLink → String → List String → DependencyCheck
check_all links user_id [] = record { ok = true; required_houses = []; missing_houses = [] }
check_all links user_id (slug ∷ slugs) =
    let required = slug ∷ slugs in
    let have = map (λ l. l.betting_house) (filter (is_required_link user_id required) links) in
    let missing = filter (λ s. not (mem s have)) required in
    record { ok = is_none missing; required_houses = required; missing_houses = missing }

unfoldable pub check_required_links : List AffiliateLink → String → HouseLinkRule → DependencyCheck
unfolding required_of is_required_link
check_required_links links user_id rule = check_all links user_id (required_of rule)
