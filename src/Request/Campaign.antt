-- ===== src/Request/Campaign.antt =====
-- The private helpers of backend-vexxa/src/modules/link-request/application/
-- link-request.service.ts that find the campaign of a link, write the link, and hold a leader to
-- its own commission; and backend-vexxa/src/modules/link-request/domain/campaign-id.ts. The URL
-- parser of the platform is a parameter.
use Prim.Native.String.{◌++◌ as str_append}
use text.Mathlib.Text.{starts_with}
use painel_mt_affiliates.Common.{
  ℕ, zero, suc, Bool, false, not, ◌&&◌, Option, none, some, List, [], ◌∷◌, String, str_eq, any,
  find, or_else, if◌then◌else◌,
}
use painel_mt_affiliates.Common.Int.{ℤ, pos, ltb_ℤ, eqb_ℤ}
use painel_mt_affiliates.Common.Text.{trim}
use painel_mt_affiliates.Link.Types.{AffiliateLink, LinkItem}
use painel_mt_affiliates.Pool.Types.{Commission}
use painel_mt_affiliates.Pool.Houses.{campaign_and_site, filled, trimmed}
use painel_mt_affiliates.Pool.Commit.{
  is_active, is_other_than, holds_campaign, blank_link, store_link,
}
use painel_mt_affiliates.Request.Types.{RequestError, above_cpa_ceiling, above_revshare_ceiling}

abbrev pub smartico_params : List String
smartico_params = "afp" ∷ "afp1" ∷ "afp2" ∷ "afp3" ∷ "afp4" ∷ "afp5" ∷ []

-- `a ?? b`
abbrev pub or_option : Option String → Option String → Option String
or_option none b = b
or_option (some a) b = some a

abbrev pub first_param : (String → Option String) → List String → Option String
first_param get [] = none
first_param get (name ∷ names) = or_option (trimmed (get name)) (first_param get names)

abbrev pub pair_campaign : Option (String × String) → Option String
pair_campaign none = none
pair_campaign (some (campaign, site)) = some campaign

abbrev pub campaign_of_params : Option (String → Option String) → Option String
campaign_of_params none = none
campaign_of_params (some get) =
    or_option (pair_campaign (campaign_and_site (get "siteid") (get "c")))
      (first_param get smartico_params)

abbrev pub first_url : List LinkItem → String
first_url [] = ""
first_url (i ∷ is) = i.url

-- `s.slice(0, n)`, of characters of the basic plane
abbrev pub slice_to : ℕ → String → String
slice_to zero s = String.[]
slice_to (suc n) String.[] = String.[]
slice_to (suc n) (String.◌∷◌ c s) = String.◌∷◌ c (slice_to n s)

abbrev pub is_link_in : String → String → AffiliateLink → Bool
is_link_in user_id house l = str_eq l.user_id user_id && str_eq l.betting_house house

-- The link as it is to be written, and whether another active link has its campaign: the index
-- `uq_campaign_house_active`.
abbrev pub clashes : Option AffiliateLink → AffiliateLink → List AffiliateLink → Bool
clashes existing l links =
    is_active l
    && any (λ m. holds_campaign (l.betting_house ∷ []) l.campaign_id m && is_other_than existing m)
        links

abbrev pub old_or_blank : Option AffiliateLink → AffiliateLink → AffiliateLink
old_or_blank none blank = blank
old_or_blank (some e) blank = e

abbrev pub keep_or : Option ℤ → Option ℤ → Option ℤ
keep_or none old = old
keep_or (some v) old = some v

abbrev pub cpa_of : Option Commission → Option ℤ
cpa_of none = none
cpa_of (some c) = some c.cpa

abbrev pub revshare_of : Option Commission → Option ℤ
revshare_of none = none
revshare_of (some c) = some c.revshare

-- `v && limit && v > limit`, where a limit is an object of the database, never falsy
abbrev pub exceeds : Option ℤ → Option ℤ → Bool
exceeds none limit = false
exceeds (some v) none = false
exceeds (some v) (some limit) = not (eqb_ℤ v (pos 0)) && ltb_ℤ limit v

abbrev pub above : AffiliateLink → Option ℤ → Option ℤ → Option RequestError
above l cpa revshare =
    if exceeds cpa l.cpa
    then some above_cpa_ceiling
    else if exceeds revshare l.revshare
    then some above_revshare_ceiling
    else none

abbrev pub above_link : Option AffiliateLink → Option ℤ → Option ℤ → Option RequestError
above_link none cpa revshare = none
above_link (some l) cpa revshare = above l cpa revshare

-- `none` where there is nothing to object to
unfoldable pub validate_leader_ceiling :
    List AffiliateLink → String → String → Option ℤ → Option ℤ → Option RequestError
validate_leader_ceiling links leader_id house cpa revshare =
    above_link (find (is_link_in leader_id house) links) cpa revshare

module _ (new_url : String → Option (String → Option String)) where
  unfoldable pub extract_campaign_id_from_url : String → Option String
  unfolding trim
  extract_campaign_id_from_url url =
      campaign_of_params
        (new_url (if starts_with url "http" then url else str_append "https://" url))

  unfoldable pub extract_campaign_id_for_house : String → String → Option String → Option String
  unfolding extract_campaign_id_from_url
  extract_campaign_id_for_house house url manual_id =
      if str_eq house "mgm"
      then manual_id
      else or_option (extract_campaign_id_from_url url) manual_id

module _ (id : String) (now : ℕ) (user_id house : String) where
  abbrev pub write_commission : Commission → AffiliateLink → AffiliateLink
  write_commission c l = record l { cpa = some c.cpa; revshare = some c.revshare; updated_at = now }

  abbrev pub placeholder_link : AffiliateLink
  placeholder_link = record (blank_link id user_id house now) {
    campaign_id = str_append "pending_" (str_append house (str_append "_" user_id));
  }

  abbrev pub stores :
      Option AffiliateLink
      → (AffiliateLink → AffiliateLink)
      → AffiliateLink
      → List AffiliateLink
      → Option (List AffiliateLink)
  stores existing write blank links =
      if clashes existing (write (old_or_blank existing blank)) links
      then none
      else some (store_link existing write blank links)

  -- `none` is the exception of the unique index
  unfoldable pub upsert_commission_only :
      Commission → List AffiliateLink → Option (List AffiliateLink)
  unfolding store_link
  upsert_commission_only c links =
      stores (find (is_link_in user_id house) links) (write_commission c) placeholder_link links

  module _ (new_url : String → Option (String → Option String)) where
    abbrev pub write_synced : String → Option Commission → AffiliateLink → AffiliateLink
    write_synced campaign c l = record l {
      campaign_id = if filled campaign then campaign else l.campaign_id;
      cpa = keep_or (cpa_of c) l.cpa;
      revshare = keep_or (revshare_of c) l.revshare;
      updated_at = now;
    }

    abbrev pub manual_link : AffiliateLink
    manual_link = record (blank_link id user_id house now) {
      campaign_id = str_append "manual_" (str_append house (str_append "_" (slice_to 8 user_id)));
    }

    unfoldable pub sync_affiliate_link :
        List LinkItem
        → Option Commission
        → Option String
        → List AffiliateLink
        → Option (List AffiliateLink)
    unfolding extract_campaign_id_for_house store_link
    sync_affiliate_link items c manual_id links =
        let campaign =
          or_else (extract_campaign_id_for_house new_url house (first_url items) manual_id) "" in
        stores (find (is_link_in user_id house) links) (write_synced campaign c) manual_link links
