-- ===== src/Request/Backfill/Summary.antt =====
-- What `runBackfill` of backend-vexxa/src/modules/link-request/application/link-backfill.service.ts
-- takes, counts and answers.
use painel_mt_affiliates.Common.{
  ℕ, Bool, false, Option, none, some, List, [], ◌∷◌, ◌++◌, String, is_some,
}
use painel_mt_affiliates.Common.Int.{ℤ, ◌-ℤ◌}
use painel_mt_affiliates.Link.Types.{LinkRequest}
use painel_mt_affiliates.Pool.Types.{Options}
use painel_mt_affiliates.Request.Types.{Desk}

pub record BackfillOptions : Type 0 where
  pub dry_run : Bool
  pub force_recalculate : Bool
  pub reason : String

pub data WouldOutcome : Type 0 where
  would_wait_snapshot would_block would_assign_or_wait would_wait_pool : WouldOutcome

pub record BackfillItemPreview : Type 0 where
  pub request_id : String
  pub user_id : String
  pub has_snapshot : Bool
  pub saved_cpa : Option ℤ
  pub computed_cpa : Option ℤ
  pub diff : Option ℤ
  pub would_outcome : WouldOutcome
  pub missing_houses : List String

pub record BackfillSummary : Type 0 where
  pub evaluated : ℕ
  pub processed : ℕ
  pub skipped : ℕ
  pub blocked : ℕ
  pub waiting_pool : ℕ
  pub waiting_snapshot : ℕ
  pub errors : ℕ
  pub preview : List BackfillItemPreview

pub data BackfillError : Type 0 where
  reason_required no_rule house_inactive already_running : BackfillError
  request_missing request_fulfilled assignment_failed : BackfillError

pub record Progress : Type 0 where
  pub desk : Desk
  pub summary : BackfillSummary

abbrev pub empty_summary : BackfillSummary
empty_summary = record {
  evaluated = 0;
  processed = 0;
  skipped = 0;
  blocked = 0;
  waiting_pool = 0;
  waiting_snapshot = 0;
  errors = 0;
  preview = [];
}

abbrev pub difference : Option ℤ → Option ℤ → Option ℤ
difference (some saved) (some computed) = some (computed -ℤ saved)
difference _ _ = none

abbrev pub preview_of :
    LinkRequest → Option ℤ → Option ℤ → WouldOutcome → List String → BackfillItemPreview
preview_of r computed diff would missing = record {
  request_id = r.id;
  user_id = r.user_id;
  has_snapshot = is_some r.resolved_cpa;
  saved_cpa = r.resolved_cpa;
  computed_cpa = computed;
  diff = diff;
  would_outcome = would;
  missing_houses = missing;
}

abbrev pub previewed : BackfillItemPreview → BackfillSummary → BackfillSummary
previewed p s = record s { preview = s.preview ++ p ∷ [] }

-- The CPA to assign with, and what was computed for it now.
pub record Terms : Type 0 where
  pub cpa : ℤ
  pub revshare : ℤ
  pub computed : Option ℤ

abbrev pub terms_options : Terms → Options
terms_options t = record {
  prefetched_rows = none;
  default_commission = some (record { cpa = t.cpa; revshare = t.revshare });
  defer_sheet_write = false;
}
