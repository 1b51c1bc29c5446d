-- ===== src/Link/Types.antt =====
-- Links, requests and the rule of a house: backend-vexxa/prisma/schema.prisma (AffiliateLink,
-- LinkRequest, HouseLinkRule) and
-- backend-vexxa/src/modules/link-request/domain/types/house-link-rule.types.ts.
-- A CPA is in ten-thousandths, the scale of the database, and so are the bounds of a tier; the
-- tiers are those that `parseRangeTiers` has read from the JSON column.
use painel_mt_affiliates.Common.{ℕ, Bool, true, false, Option, List, String, is_some, ◌&&◌, not}
use painel_mt_affiliates.Common.Int.{ℤ}

pub data LinkSource : Type 0 where
  pool manual commission_only placeholder : LinkSource

pub record AffiliateLink : Type 0 where
  pub id : String
  pub campaign_id : String
  pub affiliate_id : String
  pub user_link : Option String
  pub link_type : Option String
  pub user_id : String
  pub betting_house : String
  pub deleted_at : Option ℕ
  pub source : LinkSource
  pub cpa : Option ℤ
  pub revshare : Option ℤ
  pub updated_at : ℕ

pub data RequestStatus : Type 0 where
  pending fulfilled rejected : RequestStatus

-- `{ label, url }`
pub record LinkItem : Type 0 where
  pub label : String
  pub url : String

pub record LinkRequest : Type 0 where
  pub id : String
  pub user_id : String
  pub deal_id : Option String
  pub betting_house_slug : String
  pub message : String
  pub status : RequestStatus
  pub links : List LinkItem
  pub admin_note : String
  pub fulfilled_by_id : Option String
  pub fulfilled_by_name : String
  pub resolved_cpa : Option ℤ
  pub resolved_revshare : Option ℤ
  pub required_house_slugs : List String
  pub missing_house_slugs : List String
  pub blocked_reason : Option String
  pub inviter_id : Option String
  pub created_at : ℕ
  pub fulfilled_at : Option ℕ
  pub updated_at : ℕ

pub data RuleType : Type 0 where
  inviter_discount range mirror : RuleType

-- `none` is no floor or no ceiling.
pub record RangeTier : Type 0 where
  pub min : Option ℤ
  pub max : Option ℤ
  pub cpa : ℤ

pub record HouseLinkRule : Type 0 where
  pub request_enabled : Bool
  pub auto_assign_enabled : Bool
  pub rule_type : RuleType
  pub default_cpa : ℤ
  pub fallback_cpa : ℤ
  pub inviter_cpa_threshold : Option ℤ
  pub inviter_cpa_discount : ℤ
  pub default_revshare : ℤ
  pub range_reference_house : Option String
  pub range_tiers : List RangeTier
  pub use_inviter_cpa : Bool
  pub apply_default_no_inviter : Bool
  pub require_active_link_in_houses : Bool
  pub required_house_slugs : List String
  pub block_on_required_fail : Bool
  pub block_message : String

pub data RuleApplied : Type 0 where
  by_default inviter_minus_discount fallback range_rule mirror_reference : RuleApplied

pub record CpaResolution : Type 0 where
  pub cpa : ℤ
  pub revshare : ℤ
  pub rule_applied : RuleApplied
  pub inviter_id : Option String
  pub inviter_cpa : Option ℤ
  pub range_reference_house : Option String
  pub range_reference_cpa : Option ℤ
  pub fallback_used : Bool
  pub toggles_applied : List String
  pub hold : Bool

abbrev pub is_real_source : LinkSource → Bool
is_real_source pool = true
is_real_source manual = true
is_real_source _ = false

abbrev pub request_status_eq : RequestStatus → RequestStatus → Bool
request_status_eq pending pending = true
request_status_eq fulfilled fulfilled = true
request_status_eq rejected rejected = true
request_status_eq _ _ = false

-- `isRealActiveLinkRow`
unfoldable pub is_real_active_link_row : AffiliateLink → Bool
is_real_active_link_row l = not (is_some l.deleted_at) && is_real_source l.source
