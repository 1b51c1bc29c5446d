-- ===== src/Request/Types.antt =====
-- What the service of requests reads, answers and writes:
-- backend-vexxa/src/modules/link-request/application/link-request.service.ts and its DTOs. The
-- deals are those of kind LINK.
use painel_mt_affiliates.Common.{ℕ, Bool, Option, List, String}
use painel_mt_affiliates.Common.Int.{ℤ}
use painel_mt_affiliates.Link.Types.{LinkItem, RequestStatus, HouseLinkRule}
use painel_mt_affiliates.Pool.Types.{Db, Effect, Options, World, Run}
use painel_mt_affiliates.Pool.Houses.{PoolHouse}

pub record Deal : Type 0 where
  pub id : String
  pub betting_house_slug : String
  pub min_avg_deposit_per_ftd : ℤ
  pub min_qualified_ftd : ℤ
  pub active : Bool
  pub cpa : ℤ
  pub revshare : ℤ
  pub created_at : ℕ

pub record Account : Type 0 where
  pub id : String
  pub referred_by_id : Option String

pub record RuleOfHouse : Type 0 where
  pub house_slug : String
  pub rule : HouseLinkRule

-- the awaits of `create` between the check for a pending request and the insert, by what was read
-- before them
pub data Turn : Type 0 where
  pending_checked links_checked cpa_resolved : Turn

-- The tables that the service only reads, the slugs of the active houses, the answer of the
-- eligibility service to the two thresholds of a deal, and what other processes write to the tables
-- of links and requests while `create` waits.
pub record Office : Type 0 where
  pub deals : List Deal
  pub active_houses : List String
  pub rules : List RuleOfHouse
  pub accounts : List Account
  pub eligible : ℤ → ℤ → Bool
  pub others : Turn → Db → Db

pub record CreateLinkRequest : Type 0 where
  pub deal_id : Option String
  pub betting_house_slug : Option String
  pub message : Option String

pub data NewStatus : Type 0 where
  to_fulfilled to_rejected : NewStatus

pub record UpdateLinkRequest : Type 0 where
  pub status : Option NewStatus
  pub links : List LinkItem
  pub admin_note : Option String
  pub manual_campaign_id : Option String
  pub cpa : Option ℤ
  pub revshare : Option ℤ

pub record ApproveDealRequest : Type 0 where
  pub rejects : Bool
  pub links : List LinkItem
  pub admin_note : Option String
  pub manual_campaign_id : Option String
  pub cpa : Option ℤ
  pub revshare : Option ℤ

pub record SetLinkRequestCpa : Type 0 where
  pub cpa : ℤ
  pub revshare : Option ℤ

-- who calls, from the token
pub record Actor : Type 0 where
  pub sub : String
  pub email : String
  pub is_admin : Bool

pub record CreateResult : Type 0 where
  pub id : String
  pub user_id : String
  pub deal_id : Option String
  pub betting_house_slug : String
  pub message : String
  pub status : RequestStatus
  pub created_at : ℕ

pub data Outcome : Type 0 where
  skipped_auto_assign blocked waiting_manual_review waiting_pool_link : Outcome
  waiting_snapshot link_assigned skipped : Outcome

-- A row of LinkAssignmentLog, less its texts and the inviter's columns.
pub record LogEntry : Type 0 where
  pub link_request_id : String
  pub user_id : String
  pub house_slug : String
  pub outcome : Outcome
  pub assigned_cpa : Option ℤ
  pub required_houses : List String
  pub missing_houses : List String
  pub status_before : Option RequestStatus
  pub status_after : Option RequestStatus

pub data Origin : Type 0 where
  rule_blocked dependency_blocked auto_assign admin_approve leader_approve : Origin
  admin_reject leader_reject : Origin

-- webhooks about requests, and what an assignment sends
pub data Notice : Type 0 where
  told_created : String → Notice
  told_approved told_rejected : String → Origin → Notice
  of_pool : Effect → Notice

-- The state: links and requests, the log of assignments and what was sent.
pub record Desk : Type 0 where
  pub db : Db
  pub log : List LogEntry
  pub told : List Notice

pub data RequestError : Type 0 where
  deal_or_house_required deal_not_found house_unavailable one_request_per_account : RequestError
  not_eligible already_pending request_not_found link_required campaign_taken : RequestError
  no_deal own_request not_own_invitee commission_required above_cpa_ceiling : RequestError
  above_revshare_ceiling not_manual_cpa_house not_pending not_admin_or_inviter : RequestError
  unique_constraint : RequestError

pub data Answer (A : Type 0) : Type 0 where
  done : A → Answer A
  refused : RequestError → Answer A

-- An assignment service: of a pool that is taken in order, or of one that follows a sequence.
pub data Service : Type 0 where
  in_order : PoolHouse → Service
  in_sequence : (World → String → String → Options → Db → Run) → Service
