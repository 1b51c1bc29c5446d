-- ===== src/Pool/Assign/Stored.antt =====
-- What `tryAssign` (backend-vexxa/src/modules/<house>-link-pool/application/
-- <house>-assignment.service.ts) has done when it says that a link was assigned, whatever other
-- processes write in between.
use mathlib.Core.Path.{subst}
use painel_mt_affiliates.Common.{
  ℕ, suc, ◌≡◌, refl, sym, ap, ◌∙◌, ◌⊎◌, inl, inr, Bool, true, false, Option, none, some, List, [],
  ◌∷◌, String, any, Bool-cases, some_inj,
}
use painel_mt_affiliates.Link.Types.{AffiliateLink}
use painel_mt_affiliates.Pool.Types.{
  SheetRow, Commission, Assigned, AssignResult, assigned, not_assigned, broken, Options, Db,
  at_start, at_check, at_commit, World, Run,
}
use painel_mt_affiliates.Pool.Houses.{PoolHouse}
use painel_mt_affiliates.Pool.Commit.{
  own_link, has_conflict, commit, has_commission, commission_data,
}
use painel_mt_affiliates.Pool.Commit.Cases.{
  commit-cases, is_skipped, is_violation, is_failed, is_committed,
}
use painel_mt_affiliates.Pool.Assign.{
  Attempt, won, passed, broke, settle, attempt_campaign, attempt, after_attempt, scan, rows_of,
  try_assign,
}
use painel_mt_affiliates.Pool.Assign.Decides.{is_assigned}
use painel_mt_affiliates.Pool.Assign.Endings.{
  try_assign-Ending, is_busy, is_refused, is_empty_pool, is_scanned,
}
use painel_mt_affiliates.Pool.Commit.Given.{is_given, is_served, store-IsGiven, any-served}

module _ (house : PoolHouse) (w : World) (user_id request_id : String) where
  -- the link and the request, as an answer tells them
  abbrev pub Holds : String → String → Db → Type 0
  Holds campaign url db =
      (any (is_given house user_id campaign) db.links ≡ true)
      × (any (is_served request_id url) db.requests ≡ true)

  -- One candidate was taken: it is marked, and the other rows are as they were.
  abbrev pub Took : String → Assigned → List SheetRow → List SheetRow → Type 0
  Took email a [] rows' = ⊥
  Took email a (row ∷ rows) [] = ⊥
  Took email a (row ∷ rows) (row' ∷ rows') =
      ((house.is_candidate row ≡ true)
        × (row.row_index ≡ a.row_index)
        × (row.link ≡ a.link)
        × (row' ≡ record row { status = "marcado"; email = email })
        × (rows' ≡ rows))
      ⊎ ((row' ≡ row) × Took email a rows rows')

  abbrev Told : String → List SheetRow → AssignResult → Run → Type 0
  Told email rows (assigned a) r =
      Took email a rows r.rows × (house.rechecks ≡ false → Holds a.campaign_id a.link r.db)
  Told email rows _ r = r.rows ≡ rows

  abbrev Sound : SheetRow → Attempt → Type 0
  Sound row (won c a db) = house.rechecks ≡ false → Holds c row.link db
  Sound row _ = Unit

  settle-Sound :
      (row : SheetRow) (c a : String) (data_ : Option Commission) (db : Db)
      → Sound row (settle c a db (commit house w user_id request_id row c a data_ db))
  settle-Sound row c a data_ db = elim (commit-cases house w user_id request_id row c a data_ db) [
    | is_skipped rechecks _ e ↦ rw e (λ n. absurd (cc))
    | is_violation _ e ↦ rw e tt
    | is_failed _ e ↦ rw e tt
    | is_committed _ there e ↦ rw e (λ _. (
      store-IsGiven house user_id w.now row c a data_ w.new_id db.links,
      any-served request_id row w.now db.requests there,
    ))
  ]

  module _ (data_ : Option Commission) (existing : Option AffiliateLink) where
    attempt_campaign-Sound :
        (k : ℕ) (row : SheetRow) (db : Db) (resolved : Option (String × String))
        → Sound row (attempt_campaign house w user_id request_id data_ existing k row db resolved)
    attempt_campaign-Sound k row db none = tt
    attempt_campaign-Sound k row db (some (c, a)) =
        let seen = w.others (at_check k) db in
        elim (Bool-cases (has_conflict house c existing seen.links)) [
          | inl taken ↦ rw taken tt
          | inr free ↦ rw free (settle-Sound row c a data_ (w.others (at_commit k) seen))
        ]

    module _ (email : String) (deferred : Bool) where
      Told-keep :
          (row : SheetRow) (rows : List SheetRow) (r : Run)
          → Told email rows r.result r
          → Told email (row ∷ rows) r.result (record r { rows = row ∷ r.rows })
      Told-keep row rows r h = go r.result h
        where
          go :
              (result : AssignResult)
              → Told email rows result r
              → Told email (row ∷ rows) result (record r { rows = row ∷ r.rows })
          go (assigned a) (took, holds) = (inr (refl, took), holds)
          go (not_assigned reason) h = ap (λ rs. row ∷ rs) h
          go broken h = ap (λ rs. row ∷ rs) h

      after_attempt-Told :
          (row : SheetRow) (rows : List SheetRow) (onward : Db → Run) (r : Attempt)
          → house.is_candidate row ≡ true
          → Sound row r
          → ((db : Db) → Told email rows (onward db).result (onward db))
          → Told email
              (row ∷ rows)
              (after_attempt house w user_id request_id data_ existing email deferred row rows
                onward r).result
              (after_attempt house w user_id request_id data_ existing email deferred row rows
                onward r)
      after_attempt-Told row rows onward (won c a db) is sound ih =
          (inl (is, refl, refl, refl, refl), sound)
      after_attempt-Told row rows onward (passed db) is sound ih =
          Told-keep row rows (onward db) (ih db)
      after_attempt-Told row rows onward (broke db) is sound ih = refl

      scan-Told :
          (k : ℕ) (rows : List SheetRow) (db : Db)
          → Told email rows
              (scan house w user_id request_id data_ existing email deferred k rows db).result
              (scan house w user_id request_id data_ existing email deferred k rows db)
      unfolding scan attempt
      scan-Told k [] db = refl
      scan-Told k (row ∷ rows) db = elim (Bool-cases (house.is_candidate row)) [
        | inl is ↦ rw is (
            after_attempt-Told row rows _ _ is (attempt_campaign-Sound k row db (house.resolve row))
              (λ db'. scan-Told (suc k) rows db'))
        | inr not_ ↦ rw not_ (Told-keep row rows _ (scan-Told k rows db))
      ]

  unassigned :
      (result : AssignResult) (r : Run) (email : String) (rows : List SheetRow)
      → Told email rows result r
      → is_assigned result ≡ false
      → r.rows ≡ rows
  unassigned (assigned a) r email rows told n = absurd (cc)
  unassigned (not_assigned reason) r email rows told n = told
  unassigned broken r email rows told n = told

  -- Whatever other processes write in between, an assignment that answers with a link has taken a
  -- free row of the pool with that link and index, and marked it in memory for the user's address;
  -- and in a house whose transaction does not look at the request again, the user has an active
  -- link with the campaign in the house, and the request is fulfilled with the row's link.
  pub try_assign-stored :
      (opts : Options) (db : Db) (a : Assigned) (rows : List SheetRow)
      → rows_of w opts ≡ some rows
      → (try_assign house w user_id request_id opts db).result ≡ assigned a
      → (email : String) × (w.email ≡ some email)
        × Took email a rows (try_assign house w user_id request_id opts db).rows
        × (house.rechecks ≡ false
            → Holds a.campaign_id a.link (try_assign house w user_id request_id opts db).db)
  try_assign-stored opts db a rows read is =
      elim (try_assign-Ending house w user_id request_id opts db) [
        | is_busy rows' _ _ e ↦ absurd (let is' = rw e at is in cc)
        | is_refused reason rows' _ _ e ↦ absurd (let is' = rw e at is in cc)
        | is_empty_pool rows' _ _ e ↦ absurd (let is' = rw e at is in cc)
        | is_scanned rows' email _ read' _ known e ↦
            let start = w.others at_start db in
            let r = try_assign house w user_id request_id opts db in
            let told : Told email rows' r.result r = rw e (
              scan-Told
                (commission_data house (has_commission house user_id start.links)
                  opts.default_commission)
                (own_link house user_id start.links) email opts.defer_sheet_write 0 rows' start) in
            let same : some rows' ≡ some rows = sym read' ∙ read in
            let here : Told email rows r.result r =
              subst (λ rs. Told email rs r.result r) (some_inj rows' rows same) told in
            let (took, holds) = subst (λ (x : AssignResult). Told email rows x r) is here in
            (email, known, took, holds)
      ]

  -- Rows that are passed in memory stay as they are where no link is assigned.
  pub try_assign-rows :
      (opts : Options) (db : Db) (rows : List SheetRow)
      → opts.prefetched_rows ≡ some rows
      → is_assigned (try_assign house w user_id request_id opts db).result ≡ false
      → (try_assign house w user_id request_id opts db).rows ≡ rows
  try_assign-rows opts db rows read n =
      elim (try_assign-Ending house w user_id request_id opts db) [
        | is_busy rows' _ in_memory e ↦ rw e (in_memory rows read)
        | is_refused reason rows' _ in_memory e ↦ rw e (in_memory rows read)
        | is_empty_pool rows' read' _ e ↦ rw e (some_inj rows' rows (sym read' ∙ rw read))
        | is_scanned rows' email _ read' _ known e ↦
            let start = w.others at_start db in
            let r = try_assign house w user_id request_id opts db in
            let told : Told email rows' r.result r = rw e (
              scan-Told
                (commission_data house (has_commission house user_id start.links)
                  opts.default_commission)
                (own_link house user_id start.links) email opts.defer_sheet_write 0 rows' start) in
            unassigned r.result r email rows' told n ∙ some_inj rows' rows (sym read' ∙ rw read)
      ]

-- An answer with a link, in a house that does not look at the request again.
pub try_assign-Holds :
    (house : PoolHouse) (w : World) (user_id request_id : String) (opts : Options) (db : Db)
    (a : Assigned)
    → (try_assign house w user_id request_id opts db).result ≡ assigned a
    → house.rechecks ≡ false
    → Holds house w user_id request_id a.campaign_id a.link
        (try_assign house w user_id request_id opts db).db
try_assign-Holds house w user_id request_id opts db a is fresh =
    elim (try_assign-Ending house w user_id request_id opts db) [
      | is_busy _ _ _ e ↦ absurd (let is' = rw e at is in cc)
      | is_refused _ _ _ _ e ↦ absurd (let is' = rw e at is in cc)
      | is_empty_pool _ _ _ e ↦ absurd (let is' = rw e at is in cc)
      | is_scanned rows _ _ read _ _ _ ↦
          let (_, _, _, holds) =
            try_assign-stored house w user_id request_id opts db a rows read is in
          holds fresh
    ]
