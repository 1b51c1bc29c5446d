-- ===== src/Pool/Commit.antt =====
-- The queries of an assignment and its transaction: `tryAssign` of
-- backend-vexxa/src/modules/<house>-link-pool/application/<house>-assignment.service.ts.
pub mod Unique
pub mod Cases
pub mod Given
use painel_mt_affiliates.Common.{
  ℕ, Bool, true, not, ◌&&◌, Option, none, some, List, [], ◌∷◌, ◌++◌, map, String, str_eq, any, find,
  is_some, if◌then◌else◌,
}
use painel_mt_affiliates.Common.Sets.{mem}
use painel_mt_affiliates.Link.Types.{
  AffiliateLink, LinkRequest, LinkSource, RequestStatus, request_status_eq,
}
use painel_mt_affiliates.Pool.Types.{SheetRow, Commission, Db, World}
use painel_mt_affiliates.Pool.Houses.{PoolHouse}

abbrev pub is_active : AffiliateLink → Bool
is_active l = not (is_some l.deleted_at)

abbrev pub link_has_id : String → AffiliateLink → Bool
link_has_id id l = str_eq l.id id

abbrev pub request_has_id : String → LinkRequest → Bool
request_has_id id r = str_eq r.id id

-- `NOT: { id }`, where there is a link
abbrev pub is_other_than : Option AffiliateLink → AffiliateLink → Bool
is_other_than none l = true
is_other_than (some e) l = not (link_has_id e.id l)

abbrev pub is_own : PoolHouse → String → AffiliateLink → Bool
is_own house user_id l =
    str_eq l.user_id user_id
    && (str_eq l.betting_house house.slug && (is_active l && house.is_own_kind l))

unfoldable pub own_link : PoolHouse → String → List AffiliateLink → Option AffiliateLink
own_link house user_id links = find (is_own house user_id) links

abbrev pub holds_campaign : List String → String → AffiliateLink → Bool
holds_campaign houses campaign l =
    str_eq l.campaign_id campaign && (mem l.betting_house houses && is_active l)

-- whether another active link of the family has the campaign
unfoldable pub has_conflict : PoolHouse → String → Option AffiliateLink → List AffiliateLink → Bool
has_conflict house campaign existing links =
    any (λ l. holds_campaign house.family campaign l && is_other_than existing l) links

-- the unique index `uq_campaign_house_active`
unfoldable pub violates_index :
    PoolHouse → String → Option AffiliateLink → List AffiliateLink → Bool
violates_index house campaign existing links =
    any (λ l. holds_campaign (house.slug ∷ []) campaign l && is_other_than existing l) links

unfoldable pub has_commission : PoolHouse → String → List AffiliateLink → Bool
has_commission house user_id links =
    any
      (λ l.
        str_eq l.user_id user_id
        && (str_eq l.betting_house house.slug
            && (house.is_commission_link l && (is_some l.cpa && is_some l.revshare))))
      links

abbrev pub apply_default : Bool → Option Commission → Bool
apply_default has default = not has && is_some default

-- `commissionData`
abbrev pub commission_data : PoolHouse → Bool → Option Commission → Option Commission
commission_data house has default =
    if house.only_missing && not (apply_default has default) then none else default

abbrev pub with_commission : Option Commission → AffiliateLink → AffiliateLink
with_commission none l = l
with_commission (some c) l = record l { cpa = some c.cpa; revshare = some c.revshare }

-- a column that is written where there is a value
abbrev pub overwrite : Option String → Option String → Option String
overwrite none old = old
overwrite (some v) old = some v

unfoldable pub write_link :
    PoolHouse → ℕ → SheetRow → String → String → Option Commission → AffiliateLink → AffiliateLink
write_link house now row campaign affiliate commission l = with_commission commission (record l {
  campaign_id = campaign;
  affiliate_id = affiliate;
  user_link = overwrite (house.user_link row) l.user_link;
  link_type = overwrite house.link_type l.link_type;
  source = if house.sets_source then LinkSource.pool else l.source;
  updated_at = now;
})

-- a row with the defaults of its columns
abbrev pub blank_link : String → String → String → ℕ → AffiliateLink
blank_link id user_id house now = record {
  id = id;
  campaign_id = "";
  affiliate_id = "";
  user_link = none;
  link_type = none;
  user_id = user_id;
  betting_house = house;
  deleted_at = none;
  source = LinkSource.pool;
  cpa = none;
  revshare = none;
  updated_at = now;
}

-- `update` where the link exists, else `create`
unfoldable pub store_link :
    Option AffiliateLink
    → (AffiliateLink → AffiliateLink)
    → AffiliateLink
    → List AffiliateLink
    → List AffiliateLink
store_link none write blank links = links ++ write blank ∷ []
store_link (some e) write blank links = map (λ l. if link_has_id e.id l then write l else l) links

unfoldable pub fulfil : String → SheetRow → ℕ → LinkRequest → LinkRequest
fulfil id row now r =
    if request_has_id id r
    then record r {
      status = RequestStatus.fulfilled;
      fulfilled_at = some now;
      fulfilled_by_name = "Sistema";
      admin_note = "";
      links = record { label = ""; url = row.link } ∷ [];
      updated_at = now;
    }
    else r

abbrev pub is_pending : LinkRequest → Bool
is_pending r = request_status_eq r.status RequestStatus.pending

abbrev pub is_pending_request : String → LinkRequest → Bool
is_pending_request id r = request_has_id id r && is_pending r

pub data Commit : Type 0 where
  committed : Db → Commit
  skipped unique_violation failed : Commit

module _ (house : PoolHouse) (w : World) (user_id request_id : String) (row : SheetRow)
    (campaign affiliate : String) (commission : Option Commission) (db : Db) where
  -- the tables after the transaction
  abbrev pub stored : Db
  stored = record {
    links =
        store_link (own_link house user_id db.links)
          (write_link house w.now row campaign affiliate commission)
          (blank_link w.new_id user_id house.slug w.now) db.links;
    requests = map (fulfil request_id row w.now) db.requests;
  }

  -- The transaction. Nothing is stored where it fails.
  unfoldable pub commit : Commit
  unfolding own_link violates_index write_link store_link fulfil
  commit =
      if house.rechecks && not (any (is_pending_request request_id) db.requests)
      then skipped
      else if violates_index house campaign (own_link house user_id db.links) db.links
      then unique_violation
      else if not (any (request_has_id request_id) db.requests)
      then failed
      else committed stored
