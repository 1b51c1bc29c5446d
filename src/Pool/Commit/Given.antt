-- ===== src/Pool/Commit/Given.antt =====
-- The link and the request that the transaction of `tryAssign` (backend-vexxa/src/modules/
-- <house>-link-pool/application/<house>-assignment.service.ts) leaves.
use text.Mathlib.TextPositions.{eq_refl}
use painel_mt_affiliates.Common.{
  ℕ, ◌≡◌, refl, sym, ◌∙◌, inl, inr, Bool, true, false, ◌&&◌, Option, none, some, List, [], ◌∷◌, map,
  String, str_eq, any, any-append, find, Bool-cases, Option-cases, some_inj, or_true, if◌then◌else◌,
}
use painel_mt_affiliates.Link.Types.{
  AffiliateLink, LinkRequest, LinkItem, RequestStatus, request_status_eq,
}
use painel_mt_affiliates.Pool.Types.{SheetRow, Commission}
use painel_mt_affiliates.Pool.Houses.{PoolHouse}
use painel_mt_affiliates.Pool.Commit.{
  is_active, is_own, own_link, link_has_id, write_link, blank_link, store_link, fulfil,
  request_has_id,
}

-- an active link of the user in the house, with the campaign
abbrev pub is_given : PoolHouse → String → String → AffiliateLink → Bool
is_given house user_id campaign l =
    str_eq l.user_id user_id
    && (str_eq l.betting_house house.slug && (is_active l && str_eq l.campaign_id campaign))

abbrev pub is_first_url : String → List LinkItem → Bool
is_first_url url [] = false
is_first_url url (i ∷ is) = str_eq i.url url

-- the request, fulfilled with the link
abbrev pub is_served : String → String → LinkRequest → Bool
is_served request_id url r =
    request_has_id request_id r
    && (request_status_eq r.status RequestStatus.fulfilled && is_first_url url r.links)

and3 : (a b c d : Bool) → (a && (b && (c && d))) ≡ true → (a ≡ true) × (b ≡ true) × (c ≡ true)
and3 true true true d h = (refl, refl, refl)
and3 true true false d h = absurd (cc)
and3 true false c d h = absurd (cc)
and3 false b c d h = absurd (cc)

module _ (house : PoolHouse) (user_id : String) where
  write_link-IsGiven :
      (now : ℕ) (row : SheetRow) (c a : String) (data_ : Option Commission) (l : AffiliateLink)
      → str_eq l.user_id user_id ≡ true
      → str_eq l.betting_house house.slug ≡ true
      → is_active l ≡ true
      → is_given house user_id c (write_link house now row c a data_ l) ≡ true
  unfolding write_link
  write_link-IsGiven now row c a none l u h act = rw (u, h, act, eq_refl c) refl
  write_link-IsGiven now row c a (some d) l u h act = rw (u, h, act, eq_refl c) refl

  own_parts :
      (l : AffiliateLink)
      → is_own house user_id l ≡ true
      → (str_eq l.user_id user_id ≡ true)
        × (str_eq l.betting_house house.slug ≡ true)
        × (is_active l ≡ true)
  own_parts l h = and3 _ _ _ (house.is_own_kind l) h

  store_found :
      (now : ℕ) (row : SheetRow) (c a : String) (data_ : Option Commission) (e : AffiliateLink)
      (links : List AffiliateLink)
      → find (is_own house user_id) links ≡ some e
      → any
          (is_given house user_id c)
          (map (λ l. if link_has_id e.id l then write_link house now row c a data_ l else l) links)
        ≡ true
  store_found now row c a data_ e [] h = absurd (cc)
  store_found now row c a data_ e (l ∷ ls) h = elim (Bool-cases (is_own house user_id l)) [
    | inl own ↦
        let same : l ≡ e = some_inj l e (rw own at h) in
        let (u, ho, act) = own_parts l own in
        let given = write_link-IsGiven now row c a data_ l u ho act in
        rw (sym same, eq_refl l.id, given) refl
    | inr other ↦ or_true _ _ (store_found now row c a data_ e ls (rw other at h))
  ]

  pub store-IsGiven :
      (now : ℕ) (row : SheetRow) (c a : String) (data_ : Option Commission) (id : String)
      (links : List AffiliateLink)
      → any (is_given house user_id c) (
          store_link
            (own_link house user_id links)
            (write_link house now row c a data_)
            (blank_link id user_id house.slug now)
            links)
        ≡ true
  unfolding store_link own_link
  store-IsGiven now row c a data_ id links =
      elim (Option-cases (find (is_own house user_id) links)) [
        | inl new ↦
            let last = write_link house now row c a data_ (blank_link id user_id house.slug now) in
            let given =
              write_link-IsGiven now row c a data_ (blank_link id user_id house.slug now)
                (eq_refl user_id) (eq_refl house.slug) refl in
            rw new (
              any-append (is_given house user_id c) links (last ∷ [])
              ∙ or_true (any (is_given house user_id c) links)
                  (any (is_given house user_id c) (last ∷ [])) (rw given refl))
        | inr (e, old) ↦ rw old (store_found now row c a data_ e links old)
      ]

pub any-served :
    (id : String) (row : SheetRow) (now : ℕ) (rs : List LinkRequest)
    → any (request_has_id id) rs ≡ true
    → any (is_served id row.link) (map (fulfil id row now) rs) ≡ true
unfolding fulfil
any-served id row now [] h = h
any-served id row now (r ∷ rs) h = elim (Bool-cases (request_has_id id r)) [
  | inl here ↦ rw (here, here, eq_refl row.link) refl
  | inr there ↦ rw (there, there) (any-served id row now rs (rw there at h))
]
