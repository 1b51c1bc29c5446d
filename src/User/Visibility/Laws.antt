-- ===== src/User/Visibility/Laws.antt =====
-- Which links `filterLinksForActiveAgreements`
-- (backend-vexxa/src/modules/user/application/membership-visibility.ts) keeps, said of the requests
-- alone, without its sets and its map.
use painel_mt_affiliates.Common.{
  Bool, true, false, not, ◌&&◌, ◌||◌, Option, List, [], ◌∷◌, map, String, str_eq, any, any-map,
  any-filter, any-cong, filter, or_else, is_some, arith, eq_iff, if◌then◌else◌, ◌≡◌, refl, ap, ◌∙◌,
  Bool-cases, inl, inr,
}
use painel_mt_affiliates.Common.Sets.{mem, add, add_all, mem-add_all}
use painel_mt_affiliates.User.Visibility.{
  AgreementVisibilityRequest, HouseLink, CampaignMap, is_empty, get_campaigns, is_fulfilled,
  has_deal, is_visible_request, extract_campaign_ids, collect, is_link_visible,
  filter_links_for_active_agreements,
}

module _ {ℓ} {A : Type ℓ} where
  filter-cong : (p q : A → Bool) → ((x : A) → p x ≡ q x) → (xs : List A) → filter p xs ≡ filter q xs
  filter-cong p q h [] = refl
  filter-cong p q h (x ∷ xs) =
      rw (h x) (ap (λ fs. if q x then x ∷ fs else fs) (filter-cong p q h xs))

and_assoc : (a b c d : Bool) → (a && (b && (c && d))) ≡ ((a && (b && c)) && d)
and_assoc true true c d = refl
and_assoc true false c d = refl
and_assoc false b c d = refl

is_empty-add : (x : String) (set : List String) → is_empty (add x set) ≡ false
is_empty-add x [] = refl
is_empty-add x (y ∷ ys) = elim (Bool-cases (mem x (y ∷ ys))) [
  | inl old ↦ rw old refl
  | inr new ↦ rw new refl
]

is_empty-add_all :
    (xs set : List String) → is_empty (add_all xs set) ≡ (is_empty set && is_empty xs)
is_empty-add_all [] set = ground arith
is_empty-add_all (x ∷ xs) set =
    is_empty-add_all xs (add x set) ∙ rw (is_empty-add x set) (ground arith)

-- The map after one request, which adds the campaigns `ids` of a house.
abbrev record_ids : List String → String → CampaignMap → CampaignMap
record_ids ids slug m =
    if is_empty ids then m else (slug, add_all ids (or_else (get_campaigns slug m) [])) ∷ m

mem-record_ids :
    (c house slug : String) (ids : List String) (m : CampaignMap)
    → mem c (or_else (get_campaigns house (record_ids ids slug m)) [])
      ≡ (mem c (or_else (get_campaigns house m) []) || (str_eq house slug && mem c ids))
mem-record_ids c house slug [] m = ground arith
mem-record_ids c house slug (x ∷ xs) m = elim (Bool-cases (str_eq house slug)) [
  | inl same ↦
      rw (same, (eq_iff house slug).0 same)
        (mem-add_all c (x ∷ xs) (or_else (get_campaigns slug m) []))
  | inr other ↦ rw other (ground arith)
]

is_empty-record_ids :
    (house slug : String) (ids : List String) (m : CampaignMap)
    → is_empty (or_else (get_campaigns house (record_ids ids slug m)) []) ≡ (
        is_empty (or_else (get_campaigns house m) [])
        && not (str_eq house slug && not (is_empty ids)))
is_empty-record_ids house slug [] m = ground arith
is_empty-record_ids house slug (x ∷ xs) m = elim (Bool-cases (str_eq house slug)) [
  | inl same ↦
      rw (same, (eq_iff house slug).0 same)
        (is_empty-add_all (x ∷ xs) (or_else (get_campaigns slug m) []) ∙ ground arith)
  | inr other ↦ rw other (ground arith)
]

module _ (new_url : String → Option (String → Option String)) where
  abbrev ids_of : AgreementVisibilityRequest → List String
  ids_of r = extract_campaign_ids new_url r.links

  -- what the loop leaves in the set of a house
  mem-collect :
      (c house : String) (rs : List AgreementVisibilityRequest) (m : CampaignMap)
      → mem c (or_else (get_campaigns house (collect new_url rs m)) []) ≡ (
          mem c (or_else (get_campaigns house m) [])
          || any (λ r. str_eq house r.betting_house_slug && mem c (ids_of r)) rs)
  unfolding collect
  mem-collect c house [] m = ground arith
  mem-collect c house (r ∷ rs) m =
      mem-collect c house rs (record_ids (ids_of r) r.betting_house_slug m)
      ∙ rw (mem-record_ids c house r.betting_house_slug (ids_of r) m) (ground arith)

  is_empty-collect :
      (house : String) (rs : List AgreementVisibilityRequest) (m : CampaignMap)
      → is_empty (or_else (get_campaigns house (collect new_url rs m)) []) ≡ (
          is_empty (or_else (get_campaigns house m) [])
          && not (any (λ r. str_eq house r.betting_house_slug && not (is_empty (ids_of r))) rs))
  unfolding collect
  is_empty-collect house [] m = ground arith
  is_empty-collect house (r ∷ rs) m =
      is_empty-collect house rs (record_ids (ids_of r) r.betting_house_slug m)
      ∙ rw (is_empty-record_ids house r.betting_house_slug (ids_of r) m) (ground arith)

  -- a fulfilled request of a house that came from a deal
  abbrev is_agreement : String → AgreementVisibilityRequest → Bool
  is_agreement house r = is_fulfilled r && (has_deal r && str_eq house r.betting_house_slug)

  -- a fulfilled request of a house whose deal, if any, is active
  abbrev pub is_in_force : String → AgreementVisibilityRequest → Bool
  is_in_force house r =
      is_fulfilled r && (is_visible_request r && str_eq house r.betting_house_slug)

  -- the links that should be shown
  abbrev pub should_show : List AgreementVisibilityRequest → HouseLink → Bool
  should_show requests link =
      let house = link.betting_house in
      not (any (is_agreement house) requests)
      || (any (is_in_force house) requests
          && (not (any (λ r. is_in_force house r && not (is_empty (ids_of r))) requests)
              || (is_some link.campaign_id
                  && any (λ r. is_in_force house r && mem (or_else link.campaign_id "") (ids_of r))
                      requests)))

  -- the two sets and the map that the test reads, said of the requests
  history_lem :
      (house : String) (rs : List AgreementVisibilityRequest)
      → mem house (map (λ r. r.betting_house_slug) (filter has_deal (filter is_fulfilled rs)))
        ≡ any (is_agreement house) rs
  history_lem house rs =
      any-map (str_eq house) (λ r. r.betting_house_slug) _
      ∙ any-filter _ has_deal (filter is_fulfilled rs)
      ∙ any-filter _ is_fulfilled rs

  any-in_force :
      (house : String) (p : AgreementVisibilityRequest → Bool)
      (rs : List AgreementVisibilityRequest)
      → any
          (λ r. str_eq house r.betting_house_slug && p r)
          (filter is_visible_request (filter is_fulfilled rs))
        ≡ any (λ r. is_in_force house r && p r) rs
  any-in_force house p rs =
      any-filter _ is_visible_request (filter is_fulfilled rs)
      ∙ any-filter _ is_fulfilled rs
      ∙ any-cong _ _ (λ r. and_assoc (is_fulfilled r) (is_visible_request r) _ (p r)) rs

  visible_lem :
      (house : String) (rs : List AgreementVisibilityRequest)
      → mem house
          (map (λ r. r.betting_house_slug) (filter is_visible_request (filter is_fulfilled rs)))
        ≡ any (is_in_force house) rs
  visible_lem house rs =
      any-map (str_eq house) (λ r. r.betting_house_slug) _
      ∙ any-filter _ is_visible_request (filter is_fulfilled rs)
      ∙ any-filter _ is_fulfilled rs

  is_link_visible-shown :
      (requests : List AgreementVisibilityRequest) (link : HouseLink)
      → is_link_visible new_url
          (map (λ r. r.betting_house_slug) (filter has_deal (filter is_fulfilled requests)))
          (map
            (λ r. r.betting_house_slug)
            (filter is_visible_request (filter is_fulfilled requests)))
          (collect new_url (filter is_visible_request (filter is_fulfilled requests)) [])
          link
        ≡ should_show requests link
  unfolding is_link_visible
  is_link_visible-shown requests link =
      let house = link.betting_house in
      let rs = filter is_visible_request (filter is_fulfilled requests) in
      rw
        (
          history_lem house requests,
          visible_lem house requests,
          is_empty-collect house rs [],
          mem-collect (or_else link.campaign_id "") house rs [],
          any-in_force house (λ r. not (is_empty (ids_of r))) requests,
          any-in_force house (λ r. mem (or_else link.campaign_id "") (ids_of r)) requests,
        )
        (ground arith)

  -- The filter keeps, in their order, exactly the links of a house in which no fulfilled request
  -- has a deal, or one is in force, and either none in force names a campaign or one names the
  -- link's. A request is in force when it is fulfilled with no deal or an active one.
  pub filter_links_for_active_agreements-decides :
      (links : List HouseLink) (requests : List AgreementVisibilityRequest)
      → filter_links_for_active_agreements new_url links requests
        ≡ filter (should_show requests) links
  unfolding filter_links_for_active_agreements is_link_visible
  filter_links_for_active_agreements-decides links requests =
      filter-cong _ _ (is_link_visible-shown requests) links
