-- ===== src/Pool/Backfill/Distinct.antt =====
-- No line of the pool is given out twice by one run of `backfillPending`
-- (backend-vexxa/src/modules/<house>-link-pool/application/<house>-scheduler.service.ts).
use mathlib.Core.Path.{subst}
use painel_mt_affiliates.Common.{
  ℕ, suc, ◌≡◌, refl, sym, inl, inr, Bool, true, false, ◌&&◌, some, List, [], ◌∷◌, String, any, All,
  ◌==◌, ==_iff, Bool-cases, or_true, and_right, and_false, any-absent_mono,
}
use painel_mt_affiliates.Link.Types.{LinkRequest}
use painel_mt_affiliates.Pool.Types.{
  SheetRow, Assigned, AssignResult, assigned, not_assigned, broken, Db, World, Run,
}
use painel_mt_affiliates.Pool.Houses.{PoolHouse}
use painel_mt_affiliates.Pool.Assign.{try_assign}
use painel_mt_affiliates.Pool.Assign.Decides.{is_assigned}
use painel_mt_affiliates.Pool.Assign.Stored.{Took, try_assign-stored, try_assign-rows}
use painel_mt_affiliates.Pool.Backfill.{
  Mark, Batch, snapshot_options, stops, after_result, serve, pending_of, from_pending,
  backfill_pending,
}

abbrev pub row_is : ℕ → SheetRow → Bool
row_is k r = r.row_index == k

-- No two rows have one index.
abbrev pub AreNumbered : List SheetRow → Type 0
AreNumbered [] = Unit
AreNumbered (r ∷ rs) = (any (row_is r.row_index) rs ≡ false) × AreNumbered rs

abbrev pub marks_row : ℕ → Mark → Bool
marks_row k m = m.row_index == k

-- No line is marked twice.
abbrev pub AreDistinct : List Mark → Type 0
AreDistinct [] = Unit
AreDistinct (m ∷ ms) = (any (marks_row m.row_index) ms ≡ false) × AreDistinct ms

-- A row that was marked is not taken for a free one.
abbrev pub OnlyFree : PoolHouse → Type 0
OnlyFree house =
    (r : SheetRow) (email : String)
    → house.is_candidate (record r { status = "marcado"; email = email }) ≡ false

module _ (house : PoolHouse) (only_free : OnlyFree house) where
  abbrev pub is_free_at : ℕ → SheetRow → Bool
  is_free_at k r = house.is_candidate r && row_is k r

  -- Taking a row leaves the numbers, frees none and takes its own.
  Took-numbered :
      (w : World) (u q : String) (email : String) (a : Assigned) (rows rows' : List SheetRow)
      → Took house w u q email a rows rows'
      → (k : ℕ) → any (row_is k) rows' ≡ any (row_is k) rows
  Took-numbered w u q email a [] rows' t k = absurd t
  Took-numbered w u q email a (r ∷ rs) [] t k = absurd t
  Took-numbered w u q email a (r ∷ rs) (r' ∷ rs') (inl (_, _, _, marked, same)) k =
      rw (marked, same) refl
  Took-numbered w u q email a (r ∷ rs) (r' ∷ rs') (inr (same, t)) k =
      rw (same, Took-numbered w u q email a rs rs' t k) refl

  Took-AreNumbered :
      (w : World) (u q : String) (email : String) (a : Assigned) (rows rows' : List SheetRow)
      → Took house w u q email a rows rows'
      → AreNumbered rows
      → AreNumbered rows'
  Took-AreNumbered w u q email a [] rows' t n = absurd t
  Took-AreNumbered w u q email a (r ∷ rs) [] t n = absurd t
  Took-AreNumbered w u q email a (r ∷ rs) (r' ∷ rs') (inl (_, _, _, marked, same)) n =
      rw (marked, same) n
  Took-AreNumbered w u q email a (r ∷ rs) (r' ∷ rs') (inr (same, t)) (alone, n) = (
    rw (same, Took-numbered w u q email a rs rs' t r.row_index) alone,
    Took-AreNumbered w u q email a rs rs' t n,
  )

  Took-was_free :
      (w : World) (u q : String) (email : String) (a : Assigned) (rows rows' : List SheetRow)
      → Took house w u q email a rows rows'
      → any (is_free_at a.row_index) rows ≡ true
  Took-was_free w u q email a [] rows' t = absurd t
  Took-was_free w u q email a (r ∷ rs) [] t = absurd t
  Took-was_free w u q email a (r ∷ rs) (r' ∷ rs') (inl (is, index, _, _, _)) =
      rw (is, index, (==_iff a.row_index a.row_index).1 refl) refl
  Took-was_free w u q email a (r ∷ rs) (r' ∷ rs') (inr (same, t)) =
      or_true _ _ (Took-was_free w u q email a rs rs' t)

  Took-fewer :
      (w : World) (u q : String) (email : String) (a : Assigned) (rows rows' : List SheetRow)
      (k : ℕ)
      → Took house w u q email a rows rows'
      → any (is_free_at k) rows' ≡ true
      → any (is_free_at k) rows ≡ true
  Took-fewer w u q email a [] rows' k t h = absurd t
  Took-fewer w u q email a (r ∷ rs) [] k t h = absurd t
  Took-fewer w u q email a (r ∷ rs) (r' ∷ rs') k (inl (is, _, _, marked, same)) h =
      let later : any (is_free_at k) rs ≡ true = rw (marked, same, only_free r email) at h in
      or_true (is_free_at k r) (any (is_free_at k) rs) later
  Took-fewer w u q email a (r ∷ rs) (r' ∷ rs') k (inr (same, t)) h =
      elim (Bool-cases (is_free_at k r)) [
        | inl here ↦ rw here refl
        | inr there ↦
            or_true (is_free_at k r) (any (is_free_at k) rs)
              (Took-fewer w u q email a rs rs' k t (rw (same, there) at h))
      ]

  Took-gone :
      (w : World) (u q : String) (email : String) (a : Assigned) (rows rows' : List SheetRow)
      → Took house w u q email a rows rows'
      → AreNumbered rows
      → any (is_free_at a.row_index) rows' ≡ false
  Took-gone w u q email a [] rows' t n = absurd t
  Took-gone w u q email a (r ∷ rs) [] t n = absurd t
  Took-gone w u q email a (r ∷ rs) (r' ∷ rs') (inl (is, index, _, marked, same)) (alone, n) =
      rw (marked, same, only_free r email)
        (any-absent_mono (is_free_at a.row_index) (row_is a.row_index)
          (λ x h. and_right (house.is_candidate x) (row_is a.row_index x) h) rs (rw index at alone))
  Took-gone w u q email a (r ∷ rs) (r' ∷ rs') (inr (same, t)) (alone, n) =
      elim (Bool-cases (row_is a.row_index r)) [
        | inl here ↦
            let was = Took-was_free w u q email a rs rs' t in
            let e : r.row_index ≡ a.row_index = (==_iff r.row_index a.row_index).0 here in
            let gone =
              any-absent_mono (is_free_at a.row_index) (row_is a.row_index)
                (λ x h. and_right (house.is_candidate x) (row_is a.row_index x) h) rs
                (rw e at alone) in
            absurd (cc)
        | inr there ↦
            rw (same, there, and_false (house.is_candidate r)) (Took-gone w u q email a rs rs' t n)
      ]

  -- the lines that are to be marked stood free in the rows
  abbrev AreFree : List SheetRow → List Mark → Type 0
  AreFree rows ms = All (λ m. any (is_free_at m.row_index) rows ≡ true) ms

  AreFree-fewer :
      (rows rows' : List SheetRow) (ms : List Mark)
      → ((k : ℕ) → any (is_free_at k) rows' ≡ true → any (is_free_at k) rows ≡ true)
      → AreFree rows' ms
      → AreFree rows ms
  AreFree-fewer rows rows' [] le h = tt
  AreFree-fewer rows rows' (m ∷ ms) le (f, h) = (le m.row_index f, AreFree-fewer rows rows' ms le h)

  unmarked :
      (rows : List SheetRow) (k : ℕ) (ms : List Mark)
      → AreFree rows ms
      → any (is_free_at k) rows ≡ false
      → any (marks_row k) ms ≡ false
  unmarked rows k [] h n = refl
  unmarked rows k (m ∷ ms) (f, h) n = elim (Bool-cases (marks_row k m)) [
    | inl here ↦ absurd (let f' = rw ((==_iff m.row_index k).0 here) at f in cc)
    | inr there ↦ rw there (unmarked rows k ms h n)
  ]

  module _ (world : ℕ → World) where
    abbrev Fair : List SheetRow → Batch → Type 0
    Fair rows b = AreDistinct b.to_mark × AreFree rows b.to_mark

    unchanged :
        (rows : List SheetRow) (r : Run) (onward : List SheetRow → Db → Batch)
        → r.rows ≡ rows
        → AreNumbered rows
        → ((rows' : List SheetRow) (db' : Db) → AreNumbered rows' → Fair rows' (onward rows' db'))
        → Fair rows (onward r.rows r.db)
    unchanged rows r onward e n ih =
        let (distinct, free) = ih r.rows r.db (subst AreNumbered (sym e) n) in
        (distinct, subst (λ rs. AreFree rs (onward r.rows r.db).to_mark) e free)

    after_result-Fair :
        (i : ℕ) (q : LinkRequest) (rows : List SheetRow) (db : Db) (r : Run)
        (onward : List SheetRow → Db → Batch) (result : AssignResult)
        → AreNumbered rows
        → ((rows' : List SheetRow) (db' : Db) → AreNumbered rows' → Fair rows' (onward rows' db'))
        → (is_assigned result ≡ false → r.rows ≡ rows)
        → ((a : Assigned)
            → result ≡ assigned a
            → (email : String) × Took house (world i) q.user_id q.id email a rows r.rows)
        → Fair rows (after_result house world r onward result)
    after_result-Fair i q rows db r onward (assigned a) n ih same took =
        let (email, t) = took a refl in
        let (distinct, free) =
          ih r.rows r.db (Took-AreNumbered (world i) q.user_id q.id email a rows r.rows t n) in
        let marks = (onward r.rows r.db).to_mark in
        (
          (
            unmarked r.rows a.row_index marks free
                (Took-gone (world i) q.user_id q.id email a rows r.rows t n),
            distinct,
          ),
          (
            Took-was_free (world i) q.user_id q.id email a rows r.rows t,
            AreFree-fewer rows r.rows marks
                (λ k h. Took-fewer (world i) q.user_id q.id email a rows r.rows k t h) free,
          ),
        )
    after_result-Fair i q rows db r onward (not_assigned reason) n ih same took =
        elim (Bool-cases (stops reason)) [
          | inl stop ↦ rw stop (tt, tt)
          | inr on ↦ rw on (unchanged rows r onward (same refl) n ih)
        ]
    after_result-Fair i q rows db r onward broken n ih same took =
        unchanged rows r onward (same refl) n ih

    serve-Fair :
        (i : ℕ) (qs : List LinkRequest) (rows : List SheetRow) (db : Db)
        → AreNumbered rows
        → Fair rows (serve house world i qs rows db)
    unfolding serve
    serve-Fair i [] rows db n = (tt, tt)
    serve-Fair i (q ∷ qs) rows db n =
        let opts = snapshot_options q rows in
        let r = try_assign house (world i) q.user_id q.id opts db in
        after_result-Fair i q rows db r (λ rows' db'. serve house world (suc i) qs rows' db')
          r.result n (λ rows' db' n'. serve-Fair (suc i) qs rows' db' n')
          (λ not_. try_assign-rows house (world i) q.user_id q.id opts db rows refl not_)
          (λ a is.
            let (email, _, t, _) =
              try_assign-stored house (world i) q.user_id q.id opts db a rows refl is in
            (email, t))

    from_pending-Fair :
        (rows : List SheetRow) (db : Db) (qs : List LinkRequest)
        → AreNumbered rows
        → Fair rows (from_pending house world (some rows) db qs)
    from_pending-Fair rows db [] n = (tt, tt)
    from_pending-Fair rows db (q ∷ qs) n = serve-Fair 0 (q ∷ qs) rows db n

    -- In a house that takes only free rows, where the rows of the pool have different indices, one run of the job gives no line out
    -- twice, whatever other processes write in between and however its assignments end, and every
    -- line that it marks stood free in the pool that it read.
    pub backfill_pending-AreDistinct :
        (enabled acquired : Bool) (rows : List SheetRow) (db : Db)
        → AreNumbered rows
        → AreDistinct (backfill_pending house world enabled acquired (some rows) db).to_mark
          × All
              (λ m. any (is_free_at m.row_index) rows ≡ true)
              (backfill_pending house world enabled acquired (some rows) db).to_mark
    unfolding backfill_pending
    backfill_pending-AreDistinct enabled acquired rows db n =
        elim (Bool-cases (enabled && acquired)) [
          | inr off ↦ rw off (tt, tt)
          | inl on ↦ rw on (from_pending-Fair rows db (pending_of house db.requests) n)
        ]
