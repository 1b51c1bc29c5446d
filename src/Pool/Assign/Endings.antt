-- ===== src/Pool/Assign/Endings.antt =====
-- The ends of `tryAssign` (backend-vexxa/src/modules/<house>-link-pool/application/
-- <house>-assignment.service.ts): a refusal before the loop, or the loop.
use painel_mt_affiliates.Common.{
  ◌≡◌, inl, inr, Bool, true, false, not, ◌&&◌, ◌||◌, Option, none, some, List, [], String, arith,
  any, find, is_some, some_inj, sym, ◌∙◌, Bool-cases, Option-cases,
}
use painel_mt_affiliates.Link.Types.{LinkRequest}
use painel_mt_affiliates.Pool.Types.{
  SheetRow, Commission, AssignReason, lock_busy, pool_empty, all_conflicts, sheet_read_failed,
  commission_not_set, request_not_found, already_fulfilled, Options, Db, at_start, World, Run,
}
use painel_mt_affiliates.Pool.Houses.{PoolHouse}
use painel_mt_affiliates.Pool.Commit.{
  own_link, has_commission, is_pending, request_has_id, commission_data,
}
use painel_mt_affiliates.Pool.Assign.{
  acquire_lock_with_backoff, scan, refuse, rows_of, rows_in_memory, try_assign,
}

abbrev pub is_open : Option LinkRequest → Bool
is_open none = false
is_open (some r) = is_pending r

terms_gate :
    (needs has default : Bool) (b : Bool)
    → (not needs || (has || default)) ≡ b
    → (needs && (not has && not (not has && default))) ≡ not b
terms_gate needs has default b h = ground arith

module _ (house : PoolHouse) (w : World) (user_id request_id : String) (opts : Options) where
  -- a link with a commission, or a default
  abbrev pub has_terms : Db → Bool
  has_terms db =
      not house.needs_commission
      || (has_commission house user_id db.links || is_some opts.default_commission)

  -- what an assignment asks for before it looks at the rows
  abbrev pub is_ready : Db → Bool
  is_ready db =
      acquire_lock_with_backoff w.redis
      && (is_open (find (request_has_id request_id) db.requests)
          && (has_terms db && (is_some (rows_of w opts) && is_some w.email)))

  -- the rows that were passed, if any were
  abbrev pub InMemory : List SheetRow → Type 0
  InMemory rows = (p : List SheetRow) → opts.prefetched_rows ≡ some p → rows ≡ p

  in_memory : InMemory (rows_in_memory opts.prefetched_rows)
  in_memory p e = rw e

  read-InMemory : (rows : List SheetRow) → rows_of w opts ≡ some rows → InMemory rows
  read-InMemory rows read p e = some_inj rows p (sym read ∙ rw e)

  unread_none : (p : List SheetRow) → opts.prefetched_rows ≡ some p → rows_of w opts ≡ none → ⊥
  unread_none p e unread = let h = rw e at unread in cc

  module _ (db : Db) where
    abbrev commission : Db → Option Commission
    commission start =
        commission_data house (has_commission house user_id start.links) opts.default_commission

    pub data Ending (r : Run) : Type 0 where
      is_busy :
          (rows : List SheetRow)
          → acquire_lock_with_backoff w.redis ≡ false
          → InMemory rows
          → r ≡ refuse lock_busy rows db
          → Ending r
      is_refused :
          (reason : AssignReason) (rows : List SheetRow)
          → is_ready (w.others at_start db) ≡ false
          → InMemory rows
          → r ≡ refuse reason rows (w.others at_start db)
          → Ending r
      is_empty_pool :
          (rows : List SheetRow)
          → rows_of w opts ≡ some rows
          → any house.is_candidate rows ≡ false
          → r ≡ refuse pool_empty rows (w.others at_start db)
          → Ending r
      is_scanned :
          (rows : List SheetRow) (email : String)
          → is_ready (w.others at_start db) ≡ true
          → rows_of w opts ≡ some rows
          → any house.is_candidate rows ≡ true
          → w.email ≡ some email
          → r
            ≡ scan house w user_id request_id
                (commission (w.others at_start db))
                (own_link house user_id (w.others at_start db).links)
                email
                opts.defer_sheet_write
                0
                rows
                (w.others at_start db)
          → Ending r

    -- after the request was found pending
    from_terms :
        acquire_lock_with_backoff w.redis ≡ true
        → is_open (find (request_has_id request_id) (w.others at_start db).requests) ≡ true
        → (q : LinkRequest)
        → find (request_has_id request_id) (w.others at_start db).requests ≡ some q
        → is_pending q ≡ true
        → Ending (try_assign house w user_id request_id opts db)
    unfolding try_assign
    from_terms held open_ q there pending_ =
        let start = w.others at_start db in
        elim (Bool-cases (has_terms start)) [
          | inr without ↦
              let gate =
                terms_gate house.needs_commission (has_commission house user_id start.links)
                  (is_some opts.default_commission) false without in
              is_refused commission_not_set (rows_in_memory opts.prefetched_rows)
                (rw (held, open_, without)) in_memory (rw (held, there, pending_, gate))
          | inl with_terms ↦
              let gate =
                terms_gate house.needs_commission (has_commission house user_id start.links)
                  (is_some opts.default_commission) true with_terms in
              elim (Option-cases (rows_of w opts)) [
                | inl unread ↦
                    is_refused sheet_read_failed [] (rw (held, open_, with_terms, unread))
                      (λ p e. absurd (unread_none p e unread))
                      (rw (held, there, pending_, gate, unread))
                | inr (rows, read) ↦ elim (Bool-cases (any house.is_candidate rows)) [
                  | inr empty ↦
                      is_empty_pool rows read empty (rw (held, there, pending_, gate, read, empty))
                  | inl free ↦ elim (Option-cases w.email) [
                    | inl unknown ↦
                        is_refused all_conflicts rows (rw (held, open_, with_terms, read, unknown))
                          (read-InMemory rows read)
                          (rw (held, there, pending_, gate, read, free, unknown))
                    | inr (email, known) ↦
                        is_scanned rows email (rw (held, open_, with_terms, read, known)) read free
                          known (rw (held, there, pending_, gate, read, free, known))
                  ]
                ]
              ]
        ]

    pub try_assign-Ending : Ending (try_assign house w user_id request_id opts db)
    unfolding try_assign
    try_assign-Ending =
        let start = w.others at_start db in
        let memory = rows_in_memory opts.prefetched_rows in
        elim (Bool-cases (acquire_lock_with_backoff w.redis)) [
          | inr busy ↦ is_busy memory busy in_memory (rw busy)
          | inl held ↦ elim (Option-cases (find (request_has_id request_id) start.requests)) [
            | inl missing ↦
                is_refused request_not_found memory (rw (held, missing)) in_memory
                  (rw (held, missing))
            | inr (q, there) ↦ elim (Bool-cases (is_pending q)) [
              | inr closed ↦
                  is_refused already_fulfilled memory (rw (held, there, closed)) in_memory
                    (rw (held, there, closed))
              | inl pending_ ↦ from_terms held (rw there pending_) q there pending_
            ]
          ]
        ]
