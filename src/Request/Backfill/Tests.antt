-- ===== src/Request/Backfill/Tests.antt =====
-- Runs of the backfill of old requests, and instances of its theorems.
use painel_mt_affiliates.Common.{
  ℕ, ◌≡◌, refl, true, false, Option, none, some, List, [], ◌∷◌, String, str_eq, any, ◌⊎◌, inl, inr,
  if◌then◌else◌,
}
use painel_mt_affiliates.Common.Int.{pos}
use painel_mt_affiliates.Link.Types.{LinkRequest, RequestStatus, RuleType, HouseLinkRule}
use painel_mt_affiliates.Link.Cpa.{resolve_cpa}
use painel_mt_affiliates.Link.Dependency.{check_required_links}
use painel_mt_affiliates.Pool.Types.{World}
use painel_mt_affiliates.Pool.Houses.{superbet, extract_campaign_id}
use painel_mt_affiliates.Pool.Commit.{commit, has_conflict}
use painel_mt_affiliates.Pool.Assign.{try_assign}
use painel_mt_affiliates.Pool.Backfill.{sort_by_time}
use painel_mt_affiliates.Request.Types.{Account, RuleOfHouse, Desk, link_assigned}
use painel_mt_affiliates.Request.Backfill.{resolve_or_preserve, snapshot_one}
use painel_mt_affiliates.Request.Backfill.Summary.{
  BackfillOptions, BackfillError, Progress, empty_summary,
}
use painel_mt_affiliates.Request.Backfill.Runs.{
  BackfillRun, RunTable, running, finished, failed_stale, mark_stale_runs,
}
use painel_mt_affiliates.Request.Backfill.Run.{run_backfill}
use painel_mt_affiliates.Request.Backfill.Snapshot.{
  is_waiting_with, snap_of, snapshot_one-IsWaiting,
}
use painel_mt_affiliates.Request.Backfill.Agrees.{has_status, reprocess_request-Agrees}
use painel_mt_affiliates.Request.Backfill.Reprocess.{Reprocessed, reprocess_request}

abbrev parse : String → Option (String → Option String)
parse url = some (λ name. if str_eq name "siteid" then some "7" else some url)

abbrev world : World
world = record {
  redis = λ k. true;
  pool = some (
      record { row_index = 2; id = ""; code = ""; link = "http://a"; status = ""; email = "" }
      ∷ []);
  email = some "ana@mail";
  others = λ m d. d;
  now = 5;
  new_id = "l2";
}

abbrev rule : HouseLinkRule
rule = record {
  request_enabled = true;
  auto_assign_enabled = true;
  rule_type = RuleType.inviter_discount;
  default_cpa = pos 600000;
  fallback_cpa = pos 400000;
  inviter_cpa_threshold = none;
  inviter_cpa_discount = pos 100000;
  default_revshare = pos 0;
  range_reference_house = none;
  range_tiers = [];
  use_inviter_cpa = true;
  apply_default_no_inviter = true;
  require_active_link_in_houses = false;
  required_house_slugs = [];
  block_on_required_fail = true;
  block_message = "";
}

abbrev rejected_request : LinkRequest
rejected_request = record {
  id = "q";
  user_id = "ana";
  deal_id = none;
  betting_house_slug = "superbet";
  message = "";
  status = RequestStatus.rejected;
  links = [];
  admin_note = "";
  fulfilled_by_id = none;
  fulfilled_by_name = "";
  resolved_cpa = none;
  resolved_revshare = none;
  required_house_slugs = [];
  missing_house_slugs = [];
  blocked_reason = none;
  inviter_id = none;
  created_at = 1;
  fulfilled_at = none;
  updated_at = 1;
}

abbrev old_request : LinkRequest
old_request = record rejected_request { status = RequestStatus.pending }

abbrev accounts : List Account
accounts = record { id = "ana"; referred_by_id = none } ∷ []

abbrev rules : List RuleOfHouse
rules = record { house_slug = "superbet"; rule = rule } ∷ []

abbrev desk_of : LinkRequest → Desk
desk_of r = record { db = record { links = []; requests = r ∷ [] }; log = []; told = [] }

abbrev dry : BackfillOptions
dry = record { dry_run = true; force_recalculate = false; reason = "" }

-- a run of the house that began an hour before, and one that just began
abbrev run_since : String → ℕ → BackfillRun
run_since id start = record {
  id = id;
  house_slug = "superbet";
  status = running;
  dry_run = false;
  reason = "";
  started_at = start;
  finished_at = none;
  stale_at = none;
  failed_reason = none;
  counts = empty_summary;
}

abbrev runs : RunTable
runs = record {
  rows = run_since "old" 0 ∷ run_since "new" 3500000 ∷ [];
  new_id = "run";
  now = 3600000;
  end_ = 3600001;
}

abbrev dry_run_ended : (Progress ⊎ BackfillError) × List BackfillRun
dry_run_ended =
    run_backfill parse dry true (λ i. world) accounts rules ("ana" ∷ []) ("superbet" ∷ [])
      "superbet" runs (desk_of old_request)

abbrev dry_progress : Progress ⊎ BackfillError
dry_progress = dry_run_ended.0

stale_marked :
    dry_run_ended.1
    ≡ record (run_since "old" 0) {
      status = failed_stale;
      stale_at = some 3600000;
      failed_reason = some "stale timeout";
    }
      ∷ run_since "new" 3500000
      ∷ []
unfolding run_backfill mark_stale_runs
stale_marked = refl

-- A run that is not dry is stored, and done in the end.
ended :
    (run_backfill parse
      (record dry { dry_run = false })
      true
      (λ i. world)
      accounts
      rules
      []
      ("superbet" ∷ [])
      "superbet"
      (record runs { rows = [] })
      (desk_of old_request)).1
    ≡ record (run_since "run" 3600000) { status = finished; finished_at = some 3600001 } ∷ []
unfolding run_backfill mark_stale_runs sort_by_time
ended = refl

abbrev progress_of : Progress ⊎ BackfillError → Progress → Progress
progress_of (inl p) other = p
progress_of (inr e) other = other

abbrev evaluated_in : Progress ⊎ BackfillError → ℕ
evaluated_in (inl p) = p.summary.evaluated
evaluated_in (inr e) = 0

ran_dry : evaluated_in dry_progress ≡ 1
unfolding run_backfill sort_by_time resolve_cpa check_required_links
ran_dry = refl

abbrev reprocessed : (Reprocessed ⊎ BackfillError) × Desk
reprocessed =
    reprocess_request parse world accounts rules false "again" "q" (desk_of rejected_request)

-- A rejected request is opened again and served.
served : reprocessed.0 ≡ inl (record { status = RequestStatus.fulfilled; outcome = link_assigned })
unfolding reprocess_request resolve_cpa check_required_links try_assign extract_campaign_id commit
    has_conflict
served = refl

abbrev nothing : Progress
nothing = record { desk = desk_of rejected_request; summary = empty_summary }

reprocess_request-Agrees_example :
    any (has_status "q" RequestStatus.fulfilled) reprocessed.1.db.requests ≡ true
unfolding reprocess_request resolve_cpa check_required_links try_assign extract_campaign_id commit
    has_conflict
reprocess_request-Agrees_example =
    reprocess_request-Agrees parse world (λ m d. refl) accounts rules false "again" rejected_request
      (desk_of rejected_request) refl refl

snapshot_is_free :
    (snap_of (superbet parse) rule 5 accounts old_request (desk_of old_request)).hold ≡ false
unfolding resolve_or_preserve resolve_cpa
snapshot_is_free = refl

snapshot_one-IsWaiting_example :
    any
      (is_waiting_with
        (superbet parse)
        "q"
        (snap_of (superbet parse) rule 5 accounts old_request (desk_of old_request)).cpa)
      (snapshot_one "superbet" rule 5 accounts old_request (desk_of old_request)).db.requests
    ≡ true
snapshot_one-IsWaiting_example =
    snapshot_one-IsWaiting (superbet parse) rule 5 accounts old_request (desk_of old_request) refl
      refl refl (λ slug asked. absurd (cc)) snapshot_is_free
