-- ===== src/Pool/Commit/Cases.antt =====
-- The four ends of the transaction of an assignment (backend-vexxa/src/modules/<house>-link-pool/
-- application/<house>-assignment.service.ts).
use painel_mt_affiliates.Common.{
  ◌≡◌, refl, inl, inr, true, false, not, ◌&&◌, Option, String, any, Bool-cases, Bool,
}
use painel_mt_affiliates.Pool.Types.{SheetRow, Commission, Db, World}
use painel_mt_affiliates.Pool.Houses.{PoolHouse}
use painel_mt_affiliates.Pool.Commit.{
  own_link, violates_index, request_has_id, is_pending_request, Commit, committed, skipped,
  unique_violation, failed, stored, commit,
}

module _ (house : PoolHouse) (w : World) (user_id request_id : String) (row : SheetRow)
    (campaign affiliate : String) (commission : Option Commission) (db : Db) where
  pub data CommitCase (r : Commit) : Type 0 where
    is_skipped :
        house.rechecks ≡ true
        → any (is_pending_request request_id) db.requests ≡ false
        → r ≡ skipped
        → CommitCase r
    is_violation :
        violates_index house campaign (own_link house user_id db.links) db.links ≡ true
        → r ≡ unique_violation
        → CommitCase r
    is_failed : any (request_has_id request_id) db.requests ≡ false → r ≡ failed → CommitCase r
    is_committed :
        violates_index house campaign (own_link house user_id db.links) db.links ≡ false
        → any (request_has_id request_id) db.requests ≡ true
        → r ≡ committed (stored house w user_id request_id row campaign affiliate commission db)
        → CommitCase r

  both : (a b : Bool) → (a && not b) ≡ true → (a ≡ true) × (b ≡ false)
  both true false h = (refl, refl)
  both true true h = absurd (cc)
  both false b h = absurd (cc)

  pub commit-cases :
      CommitCase (commit house w user_id request_id row campaign affiliate commission db)
  unfolding commit
  commit-cases =
      elim (Bool-cases (house.rechecks && not (any (is_pending_request request_id) db.requests))) [
        | inl late ↦
            let (rechecks, closed) = both house.rechecks _ late in
            is_skipped rechecks closed (rw late)
        | inr open_ ↦
            elim (Bool-cases
              (violates_index house campaign (own_link house user_id db.links) db.links)) [
                | inl taken ↦ is_violation taken (rw (open_, taken))
                | inr free ↦ elim (Bool-cases (any (request_has_id request_id) db.requests)) [
                  | inl there ↦ is_committed free there (rw (open_, free, there))
                  | inr gone ↦ is_failed gone (rw (open_, free, gone))
                ]
              ]
      ]

  pub commit-skipped :
      house.rechecks ≡ true
      → any (is_pending_request request_id) db.requests ≡ false
      → commit house w user_id request_id row campaign affiliate commission db ≡ skipped
  unfolding commit
  commit-skipped rechecks closed = rw (rechecks, closed)
