-- ===== src/Pool/Assign/Decides.antt =====
-- When `tryAssign` (backend-vexxa/src/modules/<house>-link-pool/application/
-- <house>-assignment.service.ts) gives a link, where nobody else writes in between.
use painel_mt_affiliates.Common.{
  ℕ, suc, ◌≡◌, refl, sym, ap, ◌∙◌, inl, inr, Bool, true, false, not, ◌&&◌, ◌||◌, Option, none, some,
  List, [], ◌∷◌, String, str_eq, eq_iff, any, any-absent_mono, find, Bool-cases, and_left,
  and_right, and_false,
}
use painel_mt_affiliates.Common.Sets.{mem}
use painel_mt_affiliates.Link.Types.{AffiliateLink, LinkRequest}
use painel_mt_affiliates.Pool.Types.{
  SheetRow, Commission, AssignResult, assigned, Options, Db, at_start, at_check, at_commit, World,
  Moment, Run,
}
use painel_mt_affiliates.Pool.Houses.{PoolHouse}
use painel_mt_affiliates.Pool.Commit.{
  own_link, has_conflict, violates_index, request_has_id, is_pending, is_pending_request,
  has_commission, commission_data,
}
use painel_mt_affiliates.Pool.Commit.Cases.{
  commit-cases, is_skipped, is_violation, is_failed, is_committed,
}
use painel_mt_affiliates.Pool.Assign.{
  Attempt, won, passed, broke, attempt_campaign, attempt, after_attempt, scan, rows_of, try_assign,
}
use painel_mt_affiliates.Pool.Assign.Endings.{
  is_ready, is_open, try_assign-Ending, is_busy, is_refused, is_empty_pool, is_scanned,
}

abbrev pub is_assigned : AssignResult → Bool
is_assigned (assigned a) = true
is_assigned _ = false

-- Nothing else is written.
abbrev pub Quiet : World → Type 0
Quiet w = (m : Moment) (db : Db) → w.others m db ≡ db

module _ (house : PoolHouse) (user_id : String) (links : List AffiliateLink) where
  abbrev pub is_unused : Option (String × String) → Bool
  is_unused none = false
  is_unused (some (c, a)) = not (has_conflict house c (own_link house user_id links) links)

  -- a free row with a campaign that no other link of the family has
  abbrev pub is_available : SheetRow → Bool
  is_available row = house.is_candidate row && is_unused (house.resolve row)

nowhere : (a b : Bool) → ((a && false) && b) ≡ true → ⊥
nowhere true b h = cc
nowhere false b h = cc

open-there :
    (id : String) (rs : List LinkRequest)
    → is_open (find (request_has_id id) rs) ≡ true
    → (any (request_has_id id) rs ≡ true) × (any (is_pending_request id) rs ≡ true)
open-there id [] h = absurd (cc)
open-there id (r ∷ rs) h = elim (Bool-cases (request_has_id id r)) [
  | inl here ↦ let h' : is_pending r ≡ true = rw here at h in rw (here, h') (refl, refl)
  | inr there ↦ rw there (open-there id rs (rw there at h))
]

module _ (house : PoolHouse) (w : World) (user_id request_id : String) (quiet : Quiet w) (db : Db)
    (own_family : mem house.slug house.family ≡ true)
    (open_ : is_open (find (request_has_id request_id) db.requests) ≡ true) where
  abbrev is_won : Attempt → Bool
  is_won (won c a db') = true
  is_won _ = false

  -- An attempt wins exactly on an unused campaign, and changes nothing else.
  abbrev Tells : Bool → Attempt → Type 0
  Tells b (won c a db') = b ≡ true
  Tells b (passed db') = (b ≡ false) × (db' ≡ db)
  Tells b (broke db') = ⊥

  no_violation :
      (c : String)
      → has_conflict house c (own_link house user_id db.links) db.links ≡ false
      → violates_index house c (own_link house user_id db.links) db.links ≡ false
  unfolding has_conflict violates_index
  no_violation c free =
      any-absent_mono _ _
        (λ l h. elim (Bool-cases (str_eq l.betting_house house.slug)) [
          | inl same ↦
              let inside : mem l.betting_house house.family ≡ true =
                rw ((eq_iff l.betting_house house.slug).0 same) own_family in
              rw inside (rw same at h)
          | inr other ↦ absurd (nowhere (str_eq l.campaign_id c) _ (rw other at h))
        ])
        db.links free

  there_is :
      (any (request_has_id request_id) db.requests ≡ true)
      × (any (is_pending_request request_id) db.requests ≡ true)
  there_is = open-there request_id db.requests open_

  attempt_campaign-Tells :
      (data_ : Option Commission) (k : ℕ) (row : SheetRow) (resolved : Option (String × String))
      → Tells (is_unused house user_id db.links resolved) (
          attempt_campaign house w user_id request_id data_
            (own_link house user_id db.links)
            k
            row
            db
            resolved)
  attempt_campaign-Tells data_ k row none = (refl, refl)
  attempt_campaign-Tells data_ k row (some (c, a)) =
      rw (quiet (at_check k) db, quiet (at_commit k) db)
        (elim (Bool-cases (has_conflict house c (own_link house user_id db.links) db.links)) [
          | inl taken ↦ rw taken (refl, refl)
          | inr free ↦ rw free (elim (commit-cases house w user_id request_id row c a data_ db) [
            | is_skipped _ closed _ ↦ absurd (let o = there_is.1 in cc)
            | is_violation taken _ ↦ absurd (let f = no_violation c free in cc)
            | is_failed gone _ ↦ absurd (let o = there_is.0 in cc)
            | is_committed _ _ e ↦ rw e refl
          ])
        ])

  abbrev Decides : Bool → Run → Type 0
  Decides b r = (is_assigned r.result ≡ b) × (b ≡ false → r.db ≡ db)

  after_attempt-Decides :
      (data_ : Option Commission) (email : String) (deferred : Bool) (row : SheetRow)
      (rows : List SheetRow) (onward : Db → Run) (b b' : Bool) (r : Attempt)
      → ((db' : Db) → db' ≡ db → Decides b' (onward db'))
      → Tells b r
      → Decides (b || b') (
          after_attempt house w user_id request_id data_
            (own_link house user_id db.links)
            email
            deferred
            row
            rows
            onward
            r)
  after_attempt-Decides data_ email deferred row rows onward b b' (won c a db') ih t =
      rw t (refl, λ h. absurd (cc))
  after_attempt-Decides data_ email deferred row rows onward b b' (passed db') ih (n, same) =
      rw n (ih db' same)
  after_attempt-Decides data_ email deferred row rows onward b b' (broke db') ih t = absurd t

  scan-Decides :
      (data_ : Option Commission) (email : String) (deferred : Bool) (k : ℕ) (rows : List SheetRow)
      (db' : Db)
      → db' ≡ db
      → Decides (any (is_available house user_id db.links) rows) (
          scan house w user_id request_id data_
            (own_link house user_id db.links)
            email
            deferred
            k
            rows
            db')
  unfolding scan attempt
  scan-Decides data_ email deferred k [] db' same = (refl, λ _. same)
  scan-Decides data_ email deferred k (row ∷ rows) db' same =
      elim (Bool-cases (house.is_candidate row)) [
        | inl is ↦
            rw (is, same)
              (after_attempt-Decides data_ email deferred row rows _ _ _ _
                (λ db'' same'. scan-Decides data_ email deferred (suc k) rows db'' same')
                (attempt_campaign-Tells data_ k row (house.resolve row)))
        | inr not_ ↦ rw not_ (scan-Decides data_ email deferred k rows db' same)
      ]

any-no_candidate :
    (house : PoolHouse) (user_id : String) (links : List AffiliateLink) (rows : List SheetRow)
    → any house.is_candidate rows ≡ false
    → any (is_available house user_id links) rows ≡ false
any-no_candidate house user_id links rows h =
    any-absent_mono (is_available house user_id links) house.is_candidate
      (λ row a. and_left (house.is_candidate row) _ a) rows h

abbrev pub rows_or_none : Option (List SheetRow) → List SheetRow
rows_or_none none = []
rows_or_none (some rows) = rows

-- With nothing else written in between, an assignment in a house of its own family gives a link
-- exactly when it gets the lock, the request is pending, there are terms, rows and an address, and a free row has a campaign that
-- no active link of the family has but the user's own. Where it gives none, nothing is stored.
pub try_assign-decides :
    (house : PoolHouse) (w : World) (user_id request_id : String) (opts : Options) (db : Db)
    → Quiet w
    → mem house.slug house.family ≡ true
    → (is_assigned (try_assign house w user_id request_id opts db).result ≡ (
        is_ready house w user_id request_id opts db
        && any (is_available house user_id db.links) (rows_or_none (rows_of w opts))))
      × (is_assigned (try_assign house w user_id request_id opts db).result ≡ false
          → (try_assign house w user_id request_id opts db).db ≡ db)
try_assign-decides house w user_id request_id opts db quiet own_family =
    let same = quiet at_start db in
    elim (try_assign-Ending house w user_id request_id opts db) [
      | is_busy rows busy _ e ↦ rw (e, busy) (refl, λ _. refl)
      | is_refused reason rows n _ e ↦ rw (e, rw same at n) (refl, λ _. same)
      | is_empty_pool rows read n e ↦
          let none_free = any-no_candidate house user_id db.links rows n in
          rw (e, read, none_free) (sym (and_false _), λ _. same)
      | is_scanned rows email ready read _ _ e ↦
          let ready' : is_ready house w user_id request_id opts db ≡ true = rw same at ready in
          let open_ = and_left _ _ (and_right _ _ ready') in
          let told =
            scan-Decides house w user_id request_id quiet db own_family open_
              (commission_data house (has_commission house user_id db.links)
                opts.default_commission)
              email opts.defer_sheet_write 0 rows db refl in
          let wanted : any (is_available house user_id db.links) rows ≡ (
              is_ready house w user_id request_id opts db
              && any (is_available house user_id db.links) (rows_or_none (rows_of w opts))) =
            rw ready'
              (ap (λ r. any (is_available house user_id db.links) (rows_or_none r)) (sym read)) in
          rw (e, same) (told.0 ∙ wanted, λ h. told.1 (sym told.0 ∙ h))
    ]
