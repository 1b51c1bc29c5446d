-- ===== src/Pool/Assign/Requests.antt =====
-- What `tryAssign` (backend-vexxa/src/modules/<house>-link-pool/application/
-- <house>-assignment.service.ts) does to the table of requests: it only closes them.
use painel_mt_affiliates.Common.{
  ℕ, suc, ◌≤◌, ◌≡◌, Bool, true, Option, none, some, List, [], ◌∷◌, map, String, count, arith,
  Bool-cases, inl, inr,
}
use painel_mt_affiliates.Link.Types.{AffiliateLink, LinkRequest}
use painel_mt_affiliates.Pool.Types.{
  SheetRow, Commission, Options, Db, Moment, at_start, at_check, at_commit, World, Run,
}
use painel_mt_affiliates.Pool.Houses.{PoolHouse}
use painel_mt_affiliates.Pool.Commit.{has_conflict, fulfil, commit}
use painel_mt_affiliates.Pool.Commit.Cases.{
  commit-cases, is_skipped, is_violation, is_failed, is_committed,
}
use painel_mt_affiliates.Pool.Assign.{
  Attempt, won, passed, broke, settle, attempt_campaign, attempt, after_attempt, scan, try_assign,
}
use painel_mt_affiliates.Pool.Assign.Endings.{
  try_assign-Ending, is_busy, is_refused, is_empty_pool, is_scanned,
}

count-map_le {ℓ} :
    {A : Type ℓ} (test : A → Bool) (f : A → A)
    → ((x : A) → test (f x) ≡ true → test x ≡ true)
    → (xs : List A) → count test (map f xs) ≤ count test xs
count-map_le test f drops [] = omega arith
count-map_le test f drops (x ∷ xs) =
    let rest = count-map_le test f drops xs in
    elim (Bool-cases (test (f x))) [
      | inl stays ↦ rw (stays, drops x stays) (omega (arith, rest))
      | inr gone ↦ elim (Bool-cases (test x)) [
        | inl was ↦ rw (gone, was) (omega (arith, rest))
        | inr never ↦ rw (gone, never) (omega (arith, rest))
      ]
    ]

-- Other processes bring no request that passes the test.
abbrev pub BringsNone : (LinkRequest → Bool) → World → Type 0
BringsNone test w =
    (m : Moment) (db : Db) → count test (w.others m db).requests ≤ count test db.requests

-- A request that is fulfilled passes the test only if it did before.
abbrev pub IsClosing : (LinkRequest → Bool) → Type 0
IsClosing test =
    (id : String) (row : SheetRow) (now : ℕ) (r : LinkRequest)
    → test (fulfil id row now r) ≡ true
    → test r ≡ true

module _ (house : PoolHouse) (w : World) (user_id request_id : String) (test : LinkRequest → Bool)
    (closing : IsClosing test) (calm : BringsNone test w) (n : ℕ) where
  abbrev pub Below : Db → Type 0
  Below db = count test db.requests ≤ n

  abbrev Kept : Attempt → Type 0
  Kept (won c a db) = Below db
  Kept (passed db) = Below db
  Kept (broke db) = Below db

  others-Below : (m : Moment) (db : Db) → Below db → Below (w.others m db)
  others-Below m db below = omega (arith, calm m db, below)

  settle-Kept :
      (row : SheetRow) (c a : String) (data_ : Option Commission) (db : Db)
      → Below db
      → Kept (settle c a db (commit house w user_id request_id row c a data_ db))
  settle-Kept row c a data_ db below =
      elim (commit-cases house w user_id request_id row c a data_ db) [
        | is_skipped _ _ e ↦ rw e below
        | is_violation _ e ↦ rw e below
        | is_failed _ e ↦ rw e below
        | is_committed _ _ e ↦
            let fewer =
              count-map_le test (fulfil request_id row w.now) (closing request_id row w.now)
                db.requests in
            rw e (omega (arith, fewer, below))
      ]

  module _ (data_ : Option Commission) (existing : Option AffiliateLink) where
    attempt_campaign-Kept :
        (k : ℕ) (row : SheetRow) (db : Db) (resolved : Option (String × String))
        → Below db
        → Kept (attempt_campaign house w user_id request_id data_ existing k row db resolved)
    attempt_campaign-Kept k row db none below = below
    attempt_campaign-Kept k row db (some (c, a)) below =
        let seen = w.others (at_check k) db in
        let seen_below = others-Below (at_check k) db below in
        elim (Bool-cases (has_conflict house c existing seen.links)) [
          | inl taken ↦ rw taken seen_below
          | inr free ↦ rw free (
              settle-Kept row c a data_ (w.others (at_commit k) seen)
                (others-Below (at_commit k) seen seen_below))
        ]

    module _ (email : String) (deferred : Bool) where
      after_attempt-Below :
          (row : SheetRow) (rows : List SheetRow) (onward : Db → Run) (r : Attempt)
          → ((db : Db) → Below db → Below (onward db).db)
          → Kept r
          → Below
              (after_attempt house w user_id request_id data_ existing email deferred row rows
                onward r).db
      after_attempt-Below row rows onward (won c a db) ih kept = kept
      after_attempt-Below row rows onward (passed db) ih kept = ih db kept
      after_attempt-Below row rows onward (broke db) ih kept = kept

      scan-Below :
          (k : ℕ) (rows : List SheetRow) (db : Db)
          → Below db
          → Below (scan house w user_id request_id data_ existing email deferred k rows db).db
      unfolding scan attempt
      scan-Below k [] db below = below
      scan-Below k (row ∷ rows) db below = elim (Bool-cases (house.is_candidate row)) [
        | inl is ↦ rw is (
            after_attempt-Below row rows _ _ (λ db' below'. scan-Below (suc k) rows db' below')
              (attempt_campaign-Kept k row db (house.resolve row) below))
        | inr not_ ↦ rw not_ (scan-Below k rows db below)
      ]

  -- An assignment brings no request that passes the test.
  pub try_assign-count :
      (opts : Options) (db : Db)
      → Below db
      → Below (try_assign house w user_id request_id opts db).db
  try_assign-count opts db below =
      let start = others-Below at_start db below in
      elim (try_assign-Ending house w user_id request_id opts db) [
        | is_busy _ _ _ e ↦ rw e below
        | is_refused _ _ _ _ e ↦ rw e start
        | is_empty_pool _ _ _ e ↦ rw e start
        | is_scanned rows email _ _ _ _ e ↦
            rw e (scan-Below _ _ email opts.defer_sheet_write 0 rows _ start)
      ]
