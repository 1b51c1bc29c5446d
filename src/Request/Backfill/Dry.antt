-- ===== src/Request/Backfill/Dry.antt =====
-- The dry run of `runBackfill` (backend-vexxa/src/modules/link-request/application/
-- link-backfill.service.ts).
use painel_mt_affiliates.Common.{ℕ, ◌≡◌, Bool, Option, List, String, ◌⊎◌, inl, inr}
use painel_mt_affiliates.Pool.Types.{World}
use painel_mt_affiliates.Request.Types.{Account, RuleOfHouse, Desk}
use painel_mt_affiliates.Request.Backfill.Runs.{BackfillRun, RunTable, mark_stale_runs}
use painel_mt_affiliates.Request.Backfill.Summary.{BackfillOptions, BackfillError, Progress}

module _ (new_url : String → Option (String → Option String)) (opts : BackfillOptions)
    (locked : Bool) (world : ℕ → World) (accounts : List Account) (rules : List RuleOfHouse)
    (active houses : List String) (house : String) (t : RunTable) (desk : Desk) where
  abbrev pub Unchanged : (Progress ⊎ BackfillError) × List BackfillRun → Type 0
  Unchanged (inl p, rows) = (p.desk ≡ desk) × (rows ≡ mark_stale_runs house t.now t.rows)
  Unchanged (inr e, rows) = rows ≡ t.rows
