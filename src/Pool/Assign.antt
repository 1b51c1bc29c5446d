-- ===== src/Pool/Assign.antt =====
-- `tryAssign` of backend-vexxa/src/modules/<house>-link-pool/application/
-- <house>-assignment.service.ts, for the houses that take the free rows of their pool in order.
pub mod Once
pub mod Endings
pub mod Decides
pub mod Stored
pub mod Vain
pub mod Requests
use painel_mt_affiliates.Common.{
  ℕ, suc, Bool, false, not, ◌&&◌, ◌||◌, Option, none, some, List, [], ◌∷◌, ◌++◌, String, any, find,
  if◌then◌else◌,
}
use painel_mt_affiliates.Link.Types.{AffiliateLink, LinkRequest}
use painel_mt_affiliates.Pool.Types.{
  SheetRow, Commission, AssignReason, lock_busy, pool_empty, all_conflicts, sheet_read_failed,
  commission_not_set, request_not_found, already_fulfilled, assigned, not_assigned, broken, Options,
  Db, row_marked, notified, approved_webhook, at_start, at_check, at_commit, World, Run,
}
use painel_mt_affiliates.Pool.Houses.{PoolHouse}
use painel_mt_affiliates.Pool.Commit.{
  own_link, has_conflict, has_commission, apply_default, commission_data, request_has_id,
  is_pending, Commit, committed, skipped, unique_violation, failed, commit,
}

-- the tries after the first, one for each delay
abbrev pub retry : (ℕ → Bool) → ℕ → List ℕ → Bool
retry redis k [] = false
retry redis k (delay ∷ delays) = redis k || retry redis (suc k) delays

abbrev pub backoff_delays_ms : List ℕ
backoff_delays_ms = 200 ∷ 400 ∷ 800 ∷ 1600 ∷ 3200 ∷ []

unfoldable pub acquire_lock_with_backoff : (ℕ → Bool) → Bool
acquire_lock_with_backoff redis = redis 0 || retry redis 1 backoff_delays_ms

-- One round of the loop: a link was given, or the next row is tried, or an exception ends all.
pub data Attempt : Type 0 where
  won : String → String → Db → Attempt
  passed broke : Db → Attempt

-- What follows the transaction. The answer of the second look at the request is not read.
abbrev pub settle : String → String → Db → Commit → Attempt
settle campaign affiliate db (committed db') = won campaign affiliate db'
settle campaign affiliate db skipped = won campaign affiliate db
settle campaign affiliate db unique_violation = passed db
settle campaign affiliate db failed = broke db

abbrev pub prefetched_or : Option (List SheetRow) → Option (List SheetRow) → Option (List SheetRow)
prefetched_or none pool = pool
prefetched_or (some rows) pool = some rows

abbrev pub rows_of : World → Options → Option (List SheetRow)
rows_of w opts = prefetched_or opts.prefetched_rows w.pool

abbrev pub rows_in_memory : Option (List SheetRow) → List SheetRow
rows_in_memory none = []
rows_in_memory (some rows) = rows

abbrev pub refuse : AssignReason → List SheetRow → Db → Run
refuse reason rows db = record { result = not_assigned reason; rows = rows; db = db; effects = [] }

module _ (house : PoolHouse) (w : World) (user_id request_id : String) where
  module _ (commission : Option Commission) (existing : Option AffiliateLink) where
    abbrev pub attempt_campaign : ℕ → SheetRow → Db → Option (String × String) → Attempt
    attempt_campaign k row db none = passed db
    attempt_campaign k row db (some (campaign, affiliate)) =
        let seen = w.others (at_check k) db in
        let late = w.others (at_commit k) seen in
        if has_conflict house campaign existing seen.links
        then passed seen
        else settle campaign affiliate late
            (commit house w user_id request_id row campaign affiliate commission late)

    unfoldable pub attempt : ℕ → SheetRow → Db → Attempt
    attempt k row db = attempt_campaign k row db (house.resolve row)

    module _ (email : String) (deferred : Bool) where
      abbrev pub mark : SheetRow → SheetRow
      mark row = record row { status = "marcado"; email = email }

      abbrev pub success : String → String → SheetRow → List SheetRow → Db → Run
      success campaign affiliate row rows db = record {
        result = assigned (record {
          campaign_id = campaign;
          affiliate_id = affiliate;
          link = row.link;
          row_index = row.row_index;
          email = email;
        });
        rows = mark row ∷ rows;
        db = db;
        effects =
            (if deferred then [] else row_marked row.row_index email ∷ [])
            ++ notified user_id campaign ∷ approved_webhook request_id ∷ [];
      }

      abbrev pub keep_row : SheetRow → Run → Run
      keep_row row r = record r { rows = row ∷ r.rows }

      abbrev pub after_attempt : SheetRow → List SheetRow → (Db → Run) → Attempt → Run
      after_attempt row rows onward (won c a db) = success c a row rows db
      after_attempt row rows onward (passed db) = keep_row row (onward db)
      after_attempt row rows onward (broke db) = record {
        result = broken;
        rows = row ∷ rows;
        db = db;
        effects = [];
      }

      -- the loop over the candidates, of which `k` have been tried
      unfoldable pub scan : ℕ → List SheetRow → Db → Run
      scan k [] db = record {
        result = not_assigned all_conflicts;
        rows = [];
        db = db;
        effects = [];
      }
      scan k (row ∷ rows) db =
          let onward = λ (db' : Db). scan (suc k) rows db' in
          let skip = keep_row row (scan k rows db) in
          if house.is_candidate row then after_attempt row rows onward (attempt k row db) else skip

  abbrev pub from_user : Option String → Option Commission → Bool → List SheetRow → Db → Run
  from_user none commission deferred rows db = refuse all_conflicts rows db
  from_user (some email) commission deferred rows db =
      scan commission (own_link house user_id db.links) email deferred 0 rows db

  abbrev pub from_rows : Option (List SheetRow) → Option Commission → Bool → Db → Run
  from_rows none commission deferred db = refuse sheet_read_failed [] db
  from_rows (some rows) commission deferred db =
      if any house.is_candidate rows
      then from_user w.email commission deferred rows db
      else refuse pool_empty rows db

  abbrev pub from_request : Options → Db → Option LinkRequest → Run
  from_request opts db none = refuse request_not_found (rows_in_memory opts.prefetched_rows) db
  from_request opts db (some r) =
      let has = has_commission house user_id db.links in
      if not (is_pending r)
      then refuse already_fulfilled (rows_in_memory opts.prefetched_rows) db
      else if house.needs_commission && (not has && not (apply_default has opts.default_commission))
      then refuse commission_not_set (rows_in_memory opts.prefetched_rows) db
      else from_rows (rows_of w opts) (commission_data house has opts.default_commission)
          opts.defer_sheet_write db

  unfoldable pub try_assign : Options → Db → Run
  unfolding acquire_lock_with_backoff scan attempt has_commission own_link
  try_assign opts db =
      let start = w.others at_start db in
      if acquire_lock_with_backoff w.redis
      then from_request opts start (find (request_has_id request_id) start.requests)
      else refuse lock_busy (rows_in_memory opts.prefetched_rows) db
