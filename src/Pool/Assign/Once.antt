-- ===== src/Pool/Assign/Once.antt =====
-- While no other process writes links, `tryAssign` (backend-vexxa/src/modules/<house>-link-pool/
-- application/<house>-assignment.service.ts) gives no campaign out twice in a family of houses.

use painel_mt_affiliates.Common.{
  ℕ, suc, ◌≡◌, refl, ap, ◌∙◌, inl, inr, Bool, false, Option, none, some, List, [], ◌∷◌, String, any,
  Bool-cases,
}
use painel_mt_affiliates.Link.Types.{AffiliateLink}
use painel_mt_affiliates.Pool.Types.{
  SheetRow, Commission, Options, Db, at_start, at_check, at_commit, World, Moment, Run,
}
use painel_mt_affiliates.Pool.Houses.{PoolHouse}
use painel_mt_affiliates.Pool.Commit.{
  link_has_id, own_link, has_conflict, write_link, blank_link, commit, stored,
}
use painel_mt_affiliates.Pool.Commit.Unique.{
  IsUnique, OnceIn, OnceIn-store_link, IsUnique-store_link,
}
use painel_mt_affiliates.Pool.Commit.Cases.{
  commit-cases, is_skipped, is_violation, is_failed, is_committed,
}
use painel_mt_affiliates.Pool.Assign.Endings.{
  try_assign-Ending, is_busy, is_refused, is_empty_pool, is_scanned,
}
use painel_mt_affiliates.Pool.Assign.{
  Attempt, won, passed, broke, settle, attempt_campaign, after_attempt, attempt, scan, try_assign,
}

-- No other process writes links.
abbrev pub Alone : World → Type 0
Alone w = (m : Moment) (db : Db) → (w.others m db).links ≡ db.links

module _ (house : PoolHouse) (w : World) (user_id request_id : String) where
  write_link-campaign :
      (row : SheetRow) (c a : String) (data_ : Option Commission) (l : AffiliateLink)
      → (write_link house w.now row c a data_ l).campaign_id ≡ c
  unfolding write_link
  write_link-campaign row c a none l = refl
  write_link-campaign row c a (some d) l = refl

  write_link-id :
      (row : SheetRow) (c a : String) (data_ : Option Commission) (l : AffiliateLink)
      → (write_link house w.now row c a data_ l).id ≡ l.id
  unfolding write_link
  write_link-id row c a none l = refl
  write_link-id row c a (some d) l = refl

  module _ (alone : Alone w) (links : List AffiliateLink) (u : IsUnique links)
      (fresh : any (link_has_id w.new_id) links ≡ false) (once : OnceIn house.family links) where
    abbrev Fine : List AffiliateLink → Type 0
    Fine ls = OnceIn house.family ls × IsUnique ls

    -- Before a link is won nothing has changed.
    abbrev Good : Attempt → Type 0
    Good (won c a db) = Fine db.links
    Good (passed db) = db.links ≡ links
    Good (broke db) = db.links ≡ links

    stored-Fine :
        (row : SheetRow) (c a : String) (data_ : Option Commission) (db : Db)
        → db.links ≡ links
        → has_conflict house c (own_link house user_id links) links ≡ false
        → Fine (stored house w user_id request_id row c a data_ db).links
    unfolding has_conflict
    stored-Fine row c a data_ db same free =
        let write = write_link house w.now row c a data_ in
        rw same (
          OnceIn-store_link house.family c write (write_link-campaign row c a data_)
              (own_link house user_id links) (blank_link w.new_id user_id house.slug w.now) links u
              free once,
          IsUnique-store_link write (write_link-id row c a data_) (own_link house user_id links)
              (blank_link w.new_id user_id house.slug w.now) links u fresh,
        )

    settle-Good :
        (row : SheetRow) (c a : String) (data_ : Option Commission) (db : Db)
        → db.links ≡ links
        → has_conflict house c (own_link house user_id links) links ≡ false
        → Good (settle c a db (commit house w user_id request_id row c a data_ db))
    settle-Good row c a data_ db same free =
        elim (commit-cases house w user_id request_id row c a data_ db) [
          | is_skipped _ _ e ↦ rw (e, same) (once, u)
          | is_violation _ e ↦ rw e same
          | is_failed _ e ↦ rw e same
          | is_committed _ _ e ↦ rw e (stored-Fine row c a data_ db same free)
        ]

    attempt_campaign-Good :
        (data_ : Option Commission) (k : ℕ) (row : SheetRow) (db : Db)
        (resolved : Option (String × String))
        → db.links ≡ links
        → Good (
            attempt_campaign house w user_id request_id data_
              (own_link house user_id links)
              k
              row
              db
              resolved)
    attempt_campaign-Good data_ k row db none same = same
    attempt_campaign-Good data_ k row db (some (c, a)) same =
        let seen = w.others (at_check k) db in
        let seen_same = alone (at_check k) db ∙ same in
        elim (Bool-cases (has_conflict house c (own_link house user_id links) seen.links)) [
          | inl taken ↦ rw taken seen_same
          | inr free ↦ rw free (
              settle-Good row c a data_ (w.others (at_commit k) seen)
                (alone (at_commit k) seen ∙ seen_same) (rw seen_same at free))
        ]

    after_attempt-Fine :
        (data_ : Option Commission) (email : String) (deferred : Bool) (row : SheetRow)
        (rows : List SheetRow) (onward : Db → Run) (r : Attempt)
        → ((db : Db) → db.links ≡ links → Fine (onward db).db.links)
        → Good r
        → Fine
            (after_attempt house w user_id request_id data_
              (own_link house user_id links)
              email
              deferred
              row
              rows
              onward
              r).db.links
    after_attempt-Fine data_ email deferred row rows onward (won c a db) ih good = good
    after_attempt-Fine data_ email deferred row rows onward (passed db) ih good = ih db good
    after_attempt-Fine data_ email deferred row rows onward (broke db) ih good = rw good (once, u)

    scan-Fine :
        (data_ : Option Commission) (email : String) (deferred : Bool) (k : ℕ)
        (rows : List SheetRow) (db : Db)
        → db.links ≡ links
        → Fine
            (scan house w user_id request_id data_
              (own_link house user_id links)
              email
              deferred
              k
              rows
              db).db.links
    unfolding scan attempt
    scan-Fine data_ email deferred k [] db same = rw same (once, u)
    scan-Fine data_ email deferred k (row ∷ rows) db same =
        elim (Bool-cases (house.is_candidate row)) [
          | inl is ↦ rw is (
              after_attempt-Fine data_ email deferred row rows _ _
                (λ db' same'. scan-Fine data_ email deferred (suc k) rows db' same')
                (attempt_campaign-Good data_ k row db (house.resolve row) same))
          | inr not_ ↦ rw not_ (scan-Fine data_ email deferred k rows db same)
        ]

  -- Where no other process writes links in between, ids are unique and the new one is not in use,
  -- an assignment, however it ends, leaves every active campaign at most once in the houses of the
  -- family, and ids unique, if it was so before.
  pub try_assign-OnceIn :
      (opts : Options) (db : Db)
      → Alone w
      → IsUnique db.links
      → any (link_has_id w.new_id) db.links ≡ false
      → OnceIn house.family db.links
      → OnceIn house.family (try_assign house w user_id request_id opts db).db.links
        × IsUnique (try_assign house w user_id request_id opts db).db.links
  try_assign-OnceIn opts db alone u fresh once =
      let start = w.others at_start db in
      let same = alone at_start db in
      elim (try_assign-Ending house w user_id request_id opts db) [
        | is_busy rows _ _ e ↦ rw e (once, u)
        | is_refused reason rows _ _ e ↦ rw (e, same) (once, u)
        | is_empty_pool rows _ _ e ↦ rw (e, same) (once, u)
        | is_scanned rows email _ _ _ _ e ↦ rw e (
            rw (ap (own_link house user_id) same) (
              scan-Fine alone db.links u fresh once _ email opts.defer_sheet_write 0 rows start
                same))
      ]
