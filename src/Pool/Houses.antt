-- ===== src/Pool/Houses.antt =====
-- What the assignment services of the houses differ in. The services are copies of one another:
-- backend-vexxa/src/modules/<house>-link-pool/application/<house>-assignment.service.ts. The URL
-- parser of the platform is a parameter.
use Prim.Native.String.{◌++◌ as str_append}
use text.Mathlib.Text.{starts_with}
use painel_mt_affiliates.Common.{
  Bool, true, false, not, ◌&&◌, ◌||◌, Option, none, some, List, [], ◌∷◌, String, str_eq, or_else,
  is_some, truthy, if◌then◌else◌,
}
use painel_mt_affiliates.Common.Text.{trim}
use painel_mt_affiliates.Link.Types.{AffiliateLink}
use painel_mt_affiliates.Pool.Types.{SheetRow}

pub record PoolHouse : Type 0 where
  pub slug : String
  -- the houses in which a campaign may stand only once
  pub family : List String
  -- whether a link with CPA and revshare, or a default, is asked for
  pub needs_commission : Bool
  -- `where` of that link, besides its user, house, CPA and revshare
  pub is_commission_link : AffiliateLink → Bool
  -- whether the default is written only where there is no such link
  pub only_missing : Bool
  -- `where` of the user's link, besides its user, house and `deletedAt`
  pub is_own_kind : AffiliateLink → Bool
  pub is_candidate : SheetRow → Bool
  -- campaign and affiliate id of a row
  pub resolve : SheetRow → Option (String × String)
  -- `userLink`, `linkType` where they are written, and whether `source` is
  pub user_link : SheetRow → Option String
  pub link_type : Option String
  pub sets_source : Bool
  -- whether the transaction asks again that the request is pending
  pub rechecks : Bool

abbrev pub filled : String → Bool
filled s = truthy (some s)

abbrev pub is_free : SheetRow → Bool
is_free r = not (filled r.status) && not (filled r.email)

abbrev pub has_text_link : SheetRow → Bool
has_text_link r = is_free r && filled r.link

abbrev pub has_link_and_id : SheetRow → Bool
has_link_and_id r = is_free r && (filled r.link && filled r.id)

abbrev pub has_code_or_link : SheetRow → Bool
has_code_or_link r = is_free r && (filled r.code || filled r.link)

abbrev pub anything : AffiliateLink → Bool
anything l = true

-- `linkType: 'afp2'` or `campaignId` that starts with `MJM`
abbrev pub is_monthly : AffiliateLink → Bool
is_monthly l =
    (is_some l.link_type && str_eq (or_else l.link_type "") "afp2")
    || starts_with l.campaign_id "MJM"

abbrev pub is_monthly_active : AffiliateLink → Bool
is_monthly_active l = not (is_some l.deleted_at) && is_monthly l

abbrev pub campaign_and_site : Option String → Option String → Option (String × String)
campaign_and_site site c =
    if truthy site && truthy c
    then some (str_append (or_else site "") (str_append "-" (or_else c "")), or_else site "")
    else none

abbrev pub of_params : Option (String → Option String) → Option (String × String)
of_params none = none
of_params (some get) = campaign_and_site (get "siteid") (get "c")

-- `v && v.trim() ? v.trim() : null`
abbrev pub trimmed : Option String → Option String
trimmed none = none
trimmed (some v) = if filled v && filled (trim v) then some (trim v) else none

abbrev pub afp_of : String → Option (String → Option String) → Option String
afp_of name none = none
afp_of name (some get) = trimmed (get name)

abbrev pub twice : Option String → Option (String × String)
twice none = none
twice (some c) = if filled c then some (c, c) else none

abbrev pub written : String → Option String
written s = if filled s then some s else none

module _ (new_url : String → Option (String → Option String)) where
  unfoldable pub extract_campaign_id : String → Option (String × String)
  extract_campaign_id url =
      of_params (new_url (if starts_with url "http" then url else str_append "https://" url))

  unfoldable pub extract_pinbet_afp : String → String → Option String
  unfolding trim
  extract_pinbet_afp url name = afp_of name (new_url url)

  unfoldable pub resolve_pinbet_campaign_id : String → SheetRow → Option String
  unfolding extract_pinbet_afp
  resolve_pinbet_campaign_id name r =
      if filled r.code then some r.code else extract_pinbet_afp r.link name

  abbrev pub superbet : PoolHouse
  superbet = record {
    slug = "superbet";
    family = "superbet" ∷ [];
    needs_commission = true;
    is_commission_link = anything;
    only_missing = false;
    is_own_kind = anything;
    is_candidate = has_text_link;
    resolve = λ r. extract_campaign_id r.link;
    user_link = λ r. some r.link;
    link_type = none;
    sets_source = false;
    rechecks = false;
  }

  abbrev pub betano : PoolHouse
  betano = record superbet {
    slug = "betano";
    family = "betano" ∷ "betano-diario" ∷ [];
    only_missing = true;
    user_link = λ r. none;
  }

  abbrev pub betano_diario : PoolHouse
  betano_diario = record superbet {
    slug = "betano-diario";
    family = "betano" ∷ "betano-diario" ∷ [];
    only_missing = true;
  }

  abbrev pub betnacional : PoolHouse
  betnacional = record superbet {
    slug = "betnacional";
    family = "betnacional" ∷ [];
    only_missing = true;
    is_candidate = has_link_and_id;
    resolve = λ r. some (r.id, "");
    user_link = λ r. none;
  }

  abbrev pub hiperbet : PoolHouse
  hiperbet = record betnacional { slug = "hiperbet"; family = "hiperbet" ∷ [] }

  abbrev pub esportiva : PoolHouse
  esportiva = record superbet {
    slug = "esportivabet";
    family = "esportivabet" ∷ "esportiva-diario" ∷ [];
    needs_commission = false;
    is_candidate = has_link_and_id;
    resolve = λ r. some (str_append "MJM COMPANY - " (trim r.id), "");
    user_link = λ r. none;
    sets_source = true;
    rechecks = true;
  }

  abbrev pub esportiva_diario : PoolHouse
  esportiva_diario = record esportiva { slug = "esportiva-diario" }

  abbrev pub pinbet_diario : PoolHouse
  pinbet_diario = record superbet {
    slug = "pinbet-diario";
    family = "pinbet-diario" ∷ "pinbet-mensal" ∷ [];
    only_missing = true;
    is_candidate = has_code_or_link;
    resolve = λ r. twice (resolve_pinbet_campaign_id "afp1" r);
    user_link = λ r. written r.link;
  }

  abbrev pub pinbet_mensal : PoolHouse
  pinbet_mensal = record pinbet_diario {
    slug = "pinbet-mensal";
    is_commission_link = is_monthly_active;
    is_own_kind = is_monthly;
    resolve = λ r. twice (resolve_pinbet_campaign_id "afp2" r);
    link_type = some "afp2";
  }
