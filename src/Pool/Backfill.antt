-- ===== src/Pool/Backfill.antt =====
-- `backfillPending` of backend-vexxa/src/modules/<house>-link-pool/application/
-- <house>-scheduler.service.ts: the job that serves the pending requests of a house, with one read
-- of the spreadsheet and one write at the end.
pub mod Distinct
use painel_mt_affiliates.Common.{
  ℕ, suc, Bool, true, false, not, ◌&&◌, Option, none, some, List, [], ◌∷◌, ◌++◌, String, str_eq,
  filter, count, take, is_some, or_else, leb, if◌then◌else◌,
}
use painel_mt_affiliates.Common.Int.{ℤ, pos}
use painel_mt_affiliates.Link.Types.{LinkRequest}
use painel_mt_affiliates.Pool.Types.{
  SheetRow, AssignReason, pool_empty, sheet_read_failed, AssignResult, assigned, not_assigned,
  broken, Options, Db, Effect, World, Run,
}
use painel_mt_affiliates.Pool.Houses.{PoolHouse}
use painel_mt_affiliates.Pool.Commit.{is_pending}
use painel_mt_affiliates.Pool.Assign.{try_assign}

-- a line to be marked, with the address of its user
pub record Mark : Type 0 where
  pub row_index : ℕ
  pub email : String

-- What the job has done: rows in memory, tables, lines to mark and effects.
pub record Batch : Type 0 where
  pub rows : List SheetRow
  pub db : Db
  pub to_mark : List Mark
  pub effects : List Effect

abbrev insert_by_time : LinkRequest → List LinkRequest → List LinkRequest
insert_by_time r [] = r ∷ []
insert_by_time r (q ∷ qs) =
    if leb r.created_at q.created_at then r ∷ q ∷ qs else q ∷ insert_by_time r qs

-- `orderBy: { createdAt: 'asc' }`
unfoldable pub sort_by_time : List LinkRequest → List LinkRequest
sort_by_time [] = []
sort_by_time (r ∷ rs) = insert_by_time r (sort_by_time rs)

abbrev pub is_waiting : PoolHouse → LinkRequest → Bool
is_waiting house r =
    str_eq r.betting_house_slug house.slug && (is_pending r && is_some r.resolved_cpa)

unfoldable pub pending_of : PoolHouse → List LinkRequest → List LinkRequest
unfolding sort_by_time
pending_of house requests = take 50 (sort_by_time (filter (is_waiting house) requests))

abbrev pub snapshot_options : LinkRequest → List SheetRow → Options
snapshot_options r rows = record {
  prefetched_rows = some rows;
  default_commission = some (record {
    cpa = or_else r.resolved_cpa (pos 0);
    revshare = or_else r.resolved_revshare (pos 0);
  });
  defer_sheet_write = true;
}

-- the reasons after which the loop stops
abbrev pub stops : AssignReason → Bool
stops pool_empty = true
stops sheet_read_failed = true
stops _ = false

abbrev pub add_mark : List Mark → List Effect → Batch → Batch
add_mark marks effects b = record b { to_mark = marks ++ b.to_mark; effects = effects ++ b.effects }

module _ (house : PoolHouse) (world : ℕ → World) where
  -- What follows an answer: the line is noted, the loop goes on, or it stops.
  abbrev pub after_result : Run → (List SheetRow → Db → Batch) → AssignResult → Batch
  after_result r onward (assigned a) =
      add_mark (record { row_index = a.row_index; email = a.email } ∷ []) r.effects
        (onward r.rows r.db)
  after_result r onward (not_assigned reason) =
      let stop : Batch = record { rows = r.rows; db = r.db; to_mark = []; effects = r.effects } in
      if stops reason then stop else add_mark [] r.effects (onward r.rows r.db)
  after_result r onward broken = add_mark [] r.effects (onward r.rows r.db)

  -- the loop over the pending requests, of which `i` have been served
  unfoldable pub serve : ℕ → List LinkRequest → List SheetRow → Db → Batch
  serve i [] rows db = record { rows = rows; db = db; to_mark = []; effects = [] }
  serve i (q ∷ qs) rows db =
      let r = try_assign house (world i) q.user_id q.id (snapshot_options q rows) db in
      after_result r (λ rows' db'. serve (suc i) qs rows' db') r.result

  abbrev pub from_pool : List LinkRequest → Db → Option (List SheetRow) → Batch
  from_pool pending db none = record { rows = []; db = db; to_mark = []; effects = [] }
  from_pool pending db (some rows) = serve 0 pending rows db

  abbrev pub idle : Db → Batch
  idle db = record { rows = []; db = db; to_mark = []; effects = [] }

  abbrev pub from_pending : Option (List SheetRow) → Db → List LinkRequest → Batch
  from_pending pool db [] = idle db
  from_pending pool db (q ∷ qs) = from_pool (q ∷ qs) db pool

  -- `enabled`: the switches of the houses that have them; `acquired`: whether the lock of the job
  -- was free; `pool`: the spreadsheet.
  unfoldable pub backfill_pending : Bool → Bool → Option (List SheetRow) → Db → Batch
  unfolding serve pending_of
  backfill_pending enabled acquired pool db =
      if enabled && acquired then from_pending pool db (pending_of house db.requests) else idle db
