-- ===== src/Pool/Types.antt =====
-- Rows of a spreadsheet, answers of an assignment and its state: the domain types of
-- backend-vexxa/src/modules/*-link-pool/domain/*.types.ts.
use painel_mt_affiliates.Common.{ℕ, Bool, Option, List, String}
use painel_mt_affiliates.Common.Int.{ℤ}
use painel_mt_affiliates.Link.Types.{AffiliateLink, LinkRequest}

-- A missing cell is the empty text. `id` and `code` are columns that only some houses have.
pub record SheetRow : Type 0 where
  pub row_index : ℕ
  pub id : String
  pub code : String
  pub link : String
  pub status : String
  pub email : String

pub record Commission : Type 0 where
  pub cpa : ℤ
  pub revshare : ℤ

pub data AssignReason : Type 0 where
  lock_busy pool_empty all_conflicts sheet_read_failed : AssignReason
  redis_unavailable commission_not_set request_not_found already_fulfilled : AssignReason

pub record Assigned : Type 0 where
  pub campaign_id : String
  pub affiliate_id : String
  pub link : String
  pub row_index : ℕ
  pub email : String

-- `broken` is an exception that the call does not catch.
pub data AssignResult : Type 0 where
  assigned : Assigned → AssignResult
  not_assigned : AssignReason → AssignResult
  broken : AssignResult

pub record Options : Type 0 where
  pub prefetched_rows : Option (List SheetRow)
  pub default_commission : Option Commission
  pub defer_sheet_write : Bool

-- the tables that an assignment reads and writes
pub record Db : Type 0 where
  pub links : List AffiliateLink
  pub requests : List LinkRequest

-- Calls to other systems whose failures are caught and logged.
pub data Effect : Type 0 where
  row_marked : ℕ → String → Effect
  notified : String → String → Effect
  approved_webhook : String → Effect

-- The moments at which the commits of other processes are seen: at the first reads, at the check
-- of a candidate and at its transaction. Candidates are counted from 0.
pub data Moment : Type 0 where
  at_start : Moment
  at_check at_commit : ℕ → Moment

-- What an assignment finds around it: the answers of Redis to its tries of the lock, the
-- spreadsheet, the user's address, the other processes, the time and a new primary key.
pub record World : Type 0 where
  pub redis : ℕ → Bool
  pub pool : Option (List SheetRow)
  pub email : Option String
  pub others : Moment → Db → Db
  pub now : ℕ
  pub new_id : String

-- The result, the rows as they are in memory afterwards, the tables, and the effects in order.
pub record Run : Type 0 where
  pub result : AssignResult
  pub rows : List SheetRow
  pub db : Db
  pub effects : List Effect
