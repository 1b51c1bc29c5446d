-- ===== src/Link/Dependency/Laws.antt =====
-- What `checkRequiredLinks` (backend-vexxa/src/modules/link-request/application/
-- link-dependency.service.ts) answers, said of the rule and of the links.
use painel_mt_affiliates.Common.{
  Bool, true, false, not, ◌&&◌, List, [], ◌∷◌, map, String, str_eq, eq_iff, any, any-map,
  any-filter, any-cong, filter, arith, ◌≡◌, refl, sym, ◌∙◌, ◌↔◌, Bool-cases, inl, inr,
}
use painel_mt_affiliates.Common.Sets.{mem, mem-add_all, mem-filter}
use painel_mt_affiliates.Link.Types.{AffiliateLink, HouseLinkRule, is_real_active_link_row}
use painel_mt_affiliates.Link.Dependency.{
  is_metrics_slug, required_of, is_required_link, is_none, check_all, check_required_links,
}

-- a house that the rule asks for
abbrev pub is_asked : HouseLinkRule → String → Bool
is_asked rule slug =
    rule.require_active_link_in_houses
    && (mem slug rule.required_house_slugs && not (is_metrics_slug slug))

abbrev pub has_link : List AffiliateLink → String → String → Bool
has_link links user_id slug =
    any
      (λ l. str_eq l.user_id user_id && (str_eq slug l.betting_house && is_real_active_link_row l))
      links

required_lem :
    (rule : HouseLinkRule) (slug : String) → mem slug (required_of rule) ≡ is_asked rule slug
unfolding required_of
required_lem rule slug = elim (Bool-cases rule.require_active_link_in_houses) [
  | inl on ↦ rw on (
      mem-add_all slug _ []
      ∙ mem-filter slug (λ s. not (is_metrics_slug s)) rule.required_house_slugs)
  | inr off ↦ rw off refl
]

have_lem :
    (links : List AffiliateLink) (user_id slug : String) (required : List String)
    → mem slug required ≡ true
    → mem slug (map (λ l. l.betting_house) (filter (is_required_link user_id required) links))
      ≡ has_link links user_id slug
unfolding is_required_link
have_lem links user_id slug required h =
    any-map (str_eq slug) (λ l. l.betting_house) _
    ∙ any-filter _ (is_required_link user_id required) links
    ∙ any-cong _ _
        (λ l. elim (Bool-cases (str_eq slug l.betting_house)) [
          | inl same ↦
              let asked : mem l.betting_house required ≡ true =
                rw (sym ((eq_iff slug l.betting_house).0 same)) h in
              rw (same, asked) (ground arith)
          | inr other ↦ rw other (ground arith)
        ])
        links

missing_lem :
    (links : List AffiliateLink) (user_id slug : String) (required : List String)
    → mem slug (check_all links user_id required).missing_houses
      ≡ (mem slug required && not (has_link links user_id slug))
missing_lem links user_id slug [] = refl
missing_lem links user_id slug (r ∷ rs) =
    mem-filter slug
      (λ s.
        not (mem s (map (λ l. l.betting_house) (filter (is_required_link user_id (r ∷ rs)) links))))
      (r ∷ rs)
    ∙ elim (Bool-cases (mem slug (r ∷ rs))) [
      | inl asked ↦ rw (asked, have_lem links user_id slug (r ∷ rs) asked) refl
      | inr spare ↦ rw spare refl
    ]

-- The missing houses are the ones that the rule asks for, being required and not Superbet, in
-- which the user has no real active link.
pub check_required_links-missing :
    (links : List AffiliateLink) (user_id slug : String) (rule : HouseLinkRule)
    → mem slug (check_required_links links user_id rule).missing_houses
      ≡ (is_asked rule slug && not (has_link links user_id slug))
unfolding check_required_links
check_required_links-missing links user_id slug rule =
    missing_lem links user_id slug (required_of rule) ∙ rw (required_lem rule slug) refl

none_in : (xs : List String) → ((slug : String) → mem slug xs ≡ false) → is_none xs ≡ true
none_in [] h = refl
none_in (x ∷ xs) h =
    absurd
      (let here : mem x (x ∷ xs) ≡ true = rw ((eq_iff x x).1 refl) refl in let away = h x in cc)

no_member : (xs : List String) → is_none xs ≡ true → (slug : String) → mem slug xs ≡ false
no_member [] h slug = refl
no_member (x ∷ xs) h slug = absurd (cc)

ok_lem :
    (links : List AffiliateLink) (user_id : String) (required : List String)
    → (check_all links user_id required).ok
      ≡ is_none (check_all links user_id required).missing_houses
ok_lem links user_id [] = refl
ok_lem links user_id (r ∷ rs) = refl

-- The check passes exactly when the user has a real active link in every house that the rule asks
-- for, being required and not Superbet.
pub check_required_links-ok_iff :
    (links : List AffiliateLink) (user_id : String) (rule : HouseLinkRule)
    → ((check_required_links links user_id rule).ok ≡ true)
      ↔ ((slug : String) → is_asked rule slug ≡ true → has_link links user_id slug ≡ true)
unfolding check_required_links
check_required_links-ok_iff links user_id rule =
    let ok = ok_lem links user_id (required_of rule) in
    let missing = λ (slug : String). check_required_links-missing links user_id slug rule in
    (
      λ h slug asked.
          let gone = no_member _ (sym ok ∙ h) slug in let m = missing slug in ground arith,
      λ h. ok ∙ none_in _ (λ slug. missing slug ∙ (let k = h slug in ground arith)),
    )
