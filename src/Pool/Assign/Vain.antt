-- ===== src/Pool/Assign/Vain.antt =====
-- The answer of the second look at a request, which the Esportiva services do not read: `tryAssign`
-- of backend-vexxa/src/modules/esportiva-link-pool/application/esportiva-assignment.service.ts and
-- of the service of Esportiva Diário.

use painel_mt_affiliates.Common.{
  ◌≡◌, refl, sym, ◌∙◌, Bool, true, false, Option, some, some_inj, List, ◌∷◌, String, any,
}
use painel_mt_affiliates.Pool.Types.{
  SheetRow, Commission, Options, Db, at_start, at_check, at_commit, World,
}
use painel_mt_affiliates.Pool.Houses.{PoolHouse}
use painel_mt_affiliates.Pool.Commit.{own_link, has_conflict, is_pending_request}
use painel_mt_affiliates.Pool.Assign.{scan, attempt, try_assign, rows_of}
use painel_mt_affiliates.Pool.Assign.Endings.{
  is_ready, try_assign-Ending, is_busy, is_refused, is_empty_pool, is_scanned,
}
use painel_mt_affiliates.Pool.Commit.Cases.{commit-skipped}
use painel_mt_affiliates.Pool.Assign.Decides.{is_assigned}

-- the first round of the loop, on tables in which the request is closed by another process
module _ (house : PoolHouse) (w : World) (user_id request_id : String) (db : Db) (row : SheetRow)
    (rows : List SheetRow) (campaign affiliate : String) where
  scan_in_vain :
      (data_ : Option Commission) (email : String) (deferred : Bool)
      → house.rechecks ≡ true
      → w.others (at_check 0) db ≡ db
      → house.is_candidate row ≡ true
      → house.resolve row ≡ some (campaign, affiliate)
      → has_conflict house campaign (own_link house user_id db.links) db.links ≡ false
      → any (is_pending_request request_id) (w.others (at_commit 0) db).requests ≡ false
      → (is_assigned
            (scan house w user_id request_id data_
              (own_link house user_id db.links)
              email
              deferred
              0
              (row ∷ rows)
              db).result
          ≡ true)
        × ((scan house w user_id request_id data_
              (own_link house user_id db.links)
              email
              deferred
              0
              (row ∷ rows)
              db).db
            ≡ w.others (at_commit 0) db)
  unfolding scan attempt
  scan_in_vain data_ email deferred rechecks check candidate resolved free closed =
      let skips =
        commit-skipped house w user_id request_id row campaign affiliate data_
          (w.others (at_commit 0) db) rechecks closed in
      rw (candidate, resolved, check, free, skips) (refl, refl)

module _ (house : PoolHouse) (w : World) (user_id request_id : String) (opts : Options) (db : Db)
    (row : SheetRow) (rows : List SheetRow) (campaign affiliate : String) where
  -- In a house that looks at the request again, an assignment that is ready and whose first row is
  -- available, and during which nothing changes until another process closes the request before the
  -- transaction of that row, answers that a link was assigned and has stored nothing: the tables are
  -- as the other process left them.
  pub assigned_in_vain :
      house.rechecks ≡ true
      → w.others at_start db ≡ db
      → w.others (at_check 0) db ≡ db
      → is_ready house w user_id request_id opts db ≡ true
      → rows_of w opts ≡ some (row ∷ rows)
      → house.is_candidate row ≡ true
      → house.resolve row ≡ some (campaign, affiliate)
      → has_conflict house campaign (own_link house user_id db.links) db.links ≡ false
      → any (is_pending_request request_id) (w.others (at_commit 0) db).requests ≡ false
      → (is_assigned (try_assign house w user_id request_id opts db).result ≡ true)
        × ((try_assign house w user_id request_id opts db).db ≡ w.others (at_commit 0) db)
  assigned_in_vain rechecks start check ready read candidate resolved free closed =
      elim (try_assign-Ending house w user_id request_id opts db) [
        | is_busy _ busy _ e ↦ absurd (let r = rw busy at ready in cc)
        | is_refused _ _ n _ e ↦ absurd (let n' = rw start at n in cc)
        | is_empty_pool rows' read' n e ↦
            let same = some_inj rows' (row ∷ rows) (sym read' ∙ read) in
            absurd (let n' = rw (same, candidate) at n in cc)
        | is_scanned rows' email _ read' _ _ e ↦
            let same = some_inj rows' (row ∷ rows) (sym read' ∙ read) in
            rw (e, same, start)
              (scan_in_vain house w user_id request_id db row rows campaign affiliate _ email
                opts.defer_sheet_write rechecks check candidate resolved free closed)
      ]
