-- ===== src/Request/Backfill/Runs.antt =====
-- The table of runs of `runBackfill` in backend-vexxa/src/modules/link-request/application/
-- link-backfill.service.ts, less the admin's name. Times are in milliseconds.
use painel_mt_affiliates.Common.{
  ℕ, ◌+◌, Bool, true, false, ◌&&◌, Option, none, some, List, [], ◌∷◌, ◌++◌, map, String, str_eq,
  ltb, if◌then◌else◌,
}
use painel_mt_affiliates.Request.Backfill.Summary.{BackfillOptions, BackfillSummary, empty_summary}

pub data BackfillRunStatus : Type 0 where
  running finished failed_stale : BackfillRunStatus

pub record BackfillRun : Type 0 where
  pub id : String
  pub house_slug : String
  pub status : BackfillRunStatus
  pub dry_run : Bool
  pub reason : String
  pub started_at : ℕ
  pub finished_at : Option ℕ
  pub stale_at : Option ℕ
  pub failed_reason : Option String
  pub counts : BackfillSummary

-- The table, the id of a new row, and the times at which a run starts and ends.
pub record RunTable : Type 0 where
  pub rows : List BackfillRun
  pub new_id : String
  pub now : ℕ
  pub end_ : ℕ

abbrev pub stale_run_ms : ℕ
stale_run_ms = 900000

abbrev is_running : BackfillRunStatus → Bool
is_running running = true
is_running _ = false

abbrev pub is_stale : String → ℕ → BackfillRun → Bool
is_stale house now r =
    str_eq r.house_slug house && (is_running r.status && ltb (r.started_at + stale_run_ms) now)

unfoldable pub mark_stale_runs : String → ℕ → List BackfillRun → List BackfillRun
mark_stale_runs house now rows =
    map
      (λ r.
        if is_stale house now r
        then record r {
          status = failed_stale;
          stale_at = some now;
          failed_reason = some "stale timeout";
        }
        else r)
      rows

-- by whether the run is dry
abbrev pub open_run : Bool → BackfillOptions → String → RunTable → List BackfillRun
open_run true opts house t = mark_stale_runs house t.now t.rows
open_run false opts house t =
    let r : BackfillRun = record {
      id = t.new_id;
      house_slug = house;
      status = running;
      dry_run = false;
      reason = opts.reason;
      started_at = t.now;
      finished_at = none;
      stale_at = none;
      failed_reason = none;
      counts = empty_summary;
    } in
    mark_stale_runs house t.now t.rows ++ r ∷ []

abbrev pub close_run : Bool → BackfillSummary → RunTable → List BackfillRun → List BackfillRun
close_run true summary t rows = rows
close_run false summary t rows =
    map
      (λ (r : BackfillRun).
        if str_eq r.id t.new_id
        then record r { status = finished; finished_at = some t.end_; counts = summary }
        else r)
      rows
