-- ===== src/User/Visibility.antt =====
-- `filterLinksForActiveAgreements`:
-- backend-vexxa/src/modules/user/application/membership-visibility.ts.
-- The URL parser of the platform is a parameter: `none` where `new URL` throws, else `get` of the
-- search parameters.
pub mod Laws
mod Tests
use Prim.Native.String.{◌++◌ as str_append}
use painel_mt_affiliates.Common.{
  Bool, true, false, not, ◌&&◌, Option, none, some, List, [], ◌∷◌, ◌++◌, map, String, str_eq, any,
  filter, or_else, is_some, truthy, if◌then◌else◌,
}
use painel_mt_affiliates.Common.Sets.{mem, add_all}

-- An entry of `links`: an object with a `url` that is a string, or any other value.
pub data Entry : Type 0 where
  with_url : String → Entry
  malformed : Entry

-- `links`: an array, or any other value
pub data Links : Type 0 where
  array : List Entry → Links
  not_array : Links

-- `deal` is the `active` of the deal, where there is one.
pub record AgreementVisibilityRequest : Type 0 where
  betting_house_slug : String
  deal_id : Option String
  status : String
  deal : Option Bool
  links : Links

-- the columns of `T` that the filter reads
pub record HouseLink : Type 0 where
  betting_house : String
  campaign_id : Option String

abbrev pub is_empty {ℓ} : {A : Type ℓ} → List A → Bool
is_empty [] = true
is_empty (x ∷ xs) = false

abbrev pub campaign_of_pair : Option String → Option String → List String
campaign_of_pair site campaign =
    if truthy site && truthy campaign
    then str_append (or_else site "") (str_append "-" (or_else campaign "")) ∷ []
    else []

abbrev pub campaign_of_params : Option (String → Option String) → List String
campaign_of_params none = []
campaign_of_params (some get) = campaign_of_pair (get "siteid") (get "c")

-- A `Map` from houses to sets, in which the newest entry of a house counts.
abbrev pub CampaignMap : Type 0
CampaignMap = List (String × List String)

abbrev pub get_campaigns : String → CampaignMap → Option (List String)
get_campaigns house [] = none
get_campaigns house ((key, set) ∷ rest) =
    if str_eq house key then some set else get_campaigns house rest

abbrev pub is_fulfilled : AgreementVisibilityRequest → Bool
is_fulfilled r = str_eq r.status "FULFILLED"

abbrev pub has_deal : AgreementVisibilityRequest → Bool
has_deal r = is_some r.deal_id

abbrev pub is_visible_request : AgreementVisibilityRequest → Bool
is_visible_request r = if not (is_some r.deal_id) then true else or_else r.deal false

module _ (new_url : String → Option (String → Option String)) where
  abbrev pub campaign_of : Entry → List String
  campaign_of malformed = []
  campaign_of (with_url url) = campaign_of_params (new_url url)

  abbrev pub flat_campaigns : List Entry → List String
  flat_campaigns [] = []
  flat_campaigns (e ∷ es) = campaign_of e ++ flat_campaigns es

  abbrev pub extract_campaign_ids : Links → List String
  extract_campaign_ids not_array = []
  extract_campaign_ids (array es) = flat_campaigns es

  -- the loop over the visible requests
  unfoldable pub collect : List AgreementVisibilityRequest → CampaignMap → CampaignMap
  collect [] m = m
  collect (r ∷ rs) m =
      let ids = extract_campaign_ids r.links in
      let house = r.betting_house_slug in
      let set = add_all ids (or_else (get_campaigns house m) []) in
      collect rs (if is_empty ids then m else (house, set) ∷ m)

  -- the test of the last `filter`
  unfoldable pub is_link_visible : List String → List String → CampaignMap → HouseLink → Bool
  is_link_visible with_history visible campaigns link =
      let set = or_else (get_campaigns link.betting_house campaigns) [] in
      if not (mem link.betting_house with_history)
      then true
      else if not (mem link.betting_house visible)
      then false
      else if is_empty set
      then true
      else is_some link.campaign_id && mem (or_else link.campaign_id "") set

  unfoldable pub filter_links_for_active_agreements :
      List HouseLink → List AgreementVisibilityRequest → List HouseLink
  unfolding collect is_link_visible
  filter_links_for_active_agreements links requests =
      let fulfilled = filter is_fulfilled requests in
      let visible_requests = filter is_visible_request fulfilled in
      filter
        (is_link_visible (map (λ r. r.betting_house_slug) (filter has_deal fulfilled))
          (map (λ r. r.betting_house_slug) visible_requests) (collect visible_requests []))
        links
