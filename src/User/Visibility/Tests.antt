-- ===== src/User/Visibility/Tests.antt =====
-- A run of the filter of links, and an instance of its theorem.
use painel_mt_affiliates.Common.{
  ◌≡◌, refl, true, false, none, some, Bool, Option, List, [], ◌∷◌, String, str_eq, filter,
  if◌then◌else◌,
}
use painel_mt_affiliates.User.Visibility.{
  AgreementVisibilityRequest, HouseLink, Entry, with_url, malformed, array,
  filter_links_for_active_agreements, collect, is_link_visible,
}
use painel_mt_affiliates.User.Visibility.Laws.{
  should_show, filter_links_for_active_agreements-decides,
}

-- A parser that takes the whole text for the campaign, of the site 7, and throws on none.
abbrev parse : String → Option (String → Option String)
parse url =
    if str_eq url ""
    then none
    else some (λ name. if str_eq name "siteid" then some "7" else some url)

abbrev agreement : String → Bool → Entry → AgreementVisibilityRequest
agreement house active entry = record {
  betting_house_slug = house;
  deal_id = some "deal";
  status = "FULFILLED";
  deal = some active;
  links = array (entry ∷ malformed ∷ []);
}

abbrev requests : List AgreementVisibilityRequest
requests =
    agreement "superbet" true (with_url "a")
    ∷ agreement "superbet" false (with_url "b")
    ∷ agreement "betano" false (with_url "c")
    ∷ []

abbrev link : String → String → HouseLink
link house campaign = record { betting_house = house; campaign_id = some campaign }

abbrev links : List HouseLink
links = link "superbet" "7-a" ∷ link "superbet" "7-b" ∷ link "betano" "7-c" ∷ link "pinbet" "x" ∷ []

-- the agreement that ended takes its campaign away, and its house where it was the only one
shown :
    filter_links_for_active_agreements parse links requests
    ≡ link "superbet" "7-a" ∷ link "pinbet" "x" ∷ []
unfolding filter_links_for_active_agreements collect is_link_visible
shown = refl

filter_links_for_active_agreements-decides_example :
    filter_links_for_active_agreements parse links requests
    ≡ filter (should_show parse requests) links
filter_links_for_active_agreements-decides_example =
    filter_links_for_active_agreements-decides parse links requests
