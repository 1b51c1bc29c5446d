-- ===== src/Withdrawal/Lifecycle/Growth.antt =====
-- Growth of the table: steps compose, an update is a step of each row that it selects, and the
-- moves of the operations stand on the diagram.
use mathlib.Core.Path.{subst}
use painel_mt_affiliates.Common.{
  ◌≡◌, refl, ap, ◌∙◌, inl, inr, Bool, true, false, ◌&&◌, some, List, [], ◌∷◌, ◌++◌, String, str_eq,
  All, All-every, find, Bool-cases,
}
use painel_mt_affiliates.Withdrawal.Types.{
  Status, pending, approved, rejected, processing, completed, failed, Withdrawal,
}
use painel_mt_affiliates.Withdrawal.Rows.{status_in, status_eq, update_rows, has_id}
use painel_mt_affiliates.Withdrawal.Lifecycle.Steps.{
  start, break_claimed, break_sent, pay_pending, pay_claimed, pay_sent, refuse, refuse_started,
  Leads, stays, onwards, fixed, Refunds, Step, IsNew, Moves, Grows,
}

Refunds-trans : (u v w : Withdrawal) → fixed v ≡ fixed u → Refunds u v → Refunds v w → Refunds u w
Refunds-trans u v w k g (inr (r, e, h)) = inr (r, e, rw (← ap (λ c. c.original_amount) k) h)
Refunds-trans u v w k (inl g) (inl h) = inl (h ∙ g)
Refunds-trans u v w k (inr (r, e, g)) (inl h) = inr (r, h ∙ e, g)

pub &&-right : (a b : Bool) → (a && b) ≡ true → b ≡ true
&&-right true b h = h
&&-right false b h = absurd (cc)

pub &&-left : (a b : Bool) → (a && b) ≡ true → a ≡ true
&&-left true b h = refl
&&-left false b h = absurd (cc)

pub was_status : (s t : Status) → status_eq s t ≡ true → s ≡ t
was_status pending pending h = refl
was_status approved approved h = refl
was_status rejected rejected h = refl
was_status processing processing h = refl
was_status completed completed h = refl
was_status failed failed h = refl
was_status _ _ h = absurd (cc)

module _ (b : Bool) where
  pub Leads-trans : {s t u : Status} → Leads b s t → Leads b t u → Leads b s u
  Leads-trans stays h = h
  Leads-trans (onwards e g) h = onwards e (Leads-trans g h)

  pub Step-refl : (w : Withdrawal) → Step b w w
  Step-refl w = record { keeps = refl; leads = stays; refunds = inl refl }

  pub Step-trans : (u v w : Withdrawal) → Step b u v → Step b v w → Step b u w
  Step-trans u v w g h = record {
    keeps = h.keeps ∙ g.keeps;
    leads = Leads-trans g.leads h.leads;
    refunds = Refunds-trans u v w g.keeps g.refunds h.refunds;
  }

  pub Moves-refl : (ws : List Withdrawal) → Moves b ws ws
  Moves-refl [] = tt
  Moves-refl (w ∷ ws) = (Step-refl w, Moves-refl ws)

  pub Moves-trans : (us vs ws : List Withdrawal) → Moves b us vs → Moves b vs ws → Moves b us ws
  Moves-trans [] [] ws g h = h
  Moves-trans [] (v ∷ vs) ws g h = absurd g
  Moves-trans (u ∷ us) [] ws g h = absurd g
  Moves-trans (u ∷ us) (v ∷ vs) [] g h = absurd h
  Moves-trans (u ∷ us) (v ∷ vs) (w ∷ ws) (s, g) (t, h) =
      (Step-trans u v w s t, Moves-trans us vs ws g h)

  pub Moves-Grows : (ws vs : List Withdrawal) → Moves b ws vs → Grows b ws vs
  Moves-Grows [] [] h = tt
  Moves-Grows [] (v ∷ vs) h = absurd h
  Moves-Grows (w ∷ ws) [] h = absurd h
  Moves-Grows (w ∷ ws) (v ∷ vs) (s, h) = (s, Moves-Grows ws vs h)

  pub Grows-trans : (us vs ws : List Withdrawal) → Grows b us vs → Grows b vs ws → Grows b us ws
  Grows-trans [] [] ws g h = h
  Grows-trans [] (v ∷ vs) [] g h = absurd h
  Grows-trans [] (v ∷ vs) (w ∷ ws) ((n, new, s), g) (t, h) =
      ((n, new, Step-trans n v w s t), Grows-trans [] vs ws g h)
  Grows-trans (u ∷ us) [] ws g h = absurd g
  Grows-trans (u ∷ us) (v ∷ vs) [] g h = absurd h
  Grows-trans (u ∷ us) (v ∷ vs) (w ∷ ws) (s, g) (t, h) =
      (Step-trans u v w s t, Grows-trans us vs ws g h)

  pub Grows-refl : (ws : List Withdrawal) → Grows b ws ws
  Grows-refl ws = Moves-Grows ws ws (Moves-refl ws)

  pub Grows-add : (ws : List Withdrawal) (w : Withdrawal) → IsNew w → Grows b ws (ws ++ w ∷ [])
  Grows-add [] w new = ((w, new, Step-refl w), tt)
  Grows-add (v ∷ ws) w new = (Step-refl v, Grows-add ws w new)

  -- An update is a step of every row, if it is one of the rows that it selects.
  pub Moves-update-All :
      (test : Withdrawal → Bool) (f : Withdrawal → Withdrawal) (ws : List Withdrawal)
      → All (λ w. test w ≡ true → Step b w (f w)) ws
      → Moves b ws (update_rows test f ws)
  unfolding update_rows
  Moves-update-All test f [] h = tt
  Moves-update-All test f (w ∷ ws) (step, h) = elim (Bool-cases (test w)) [
    | inl t ↦ (rw t (step t), Moves-update-All test f ws h)
    | inr t ↦ (rw t (Step-refl w), Moves-update-All test f ws h)
  ]

  pub Moves-update :
      (test : Withdrawal → Bool) (f : Withdrawal → Withdrawal)
      → ((w : Withdrawal) → test w ≡ true → Step b w (f w))
      → (ws : List Withdrawal) → Moves b ws (update_rows test f ws)
  Moves-update test f step ws = Moves-update-All test f ws (All-every _ step ws)

  -- The moves of the operations, by the statuses they select.
  pub may_refuse : (s : Status) → status_in s (pending ∷ []) ≡ true → Leads b s rejected
  may_refuse pending h = onwards refuse stays
  may_refuse approved h = absurd (cc)
  may_refuse rejected h = absurd (cc)
  may_refuse processing h = absurd (cc)
  may_refuse completed h = absurd (cc)
  may_refuse failed h = absurd (cc)

  pub may_refuse_any :
      (s : Status) → status_in s (pending ∷ processing ∷ []) ≡ true → Leads b s rejected
  may_refuse_any pending h = onwards refuse stays
  may_refuse_any processing h = onwards refuse_started stays
  may_refuse_any approved h = absurd (cc)
  may_refuse_any rejected h = absurd (cc)
  may_refuse_any completed h = absurd (cc)
  may_refuse_any failed h = absurd (cc)

  pub may_pay :
      (s : Status) → status_in s (pending ∷ approved ∷ processing ∷ []) ≡ true → Leads b s completed
  may_pay pending h = onwards pay_pending stays
  may_pay approved h = onwards pay_claimed stays
  may_pay processing h = onwards pay_sent stays
  may_pay rejected h = absurd (cc)
  may_pay completed h = absurd (cc)
  may_pay failed h = absurd (cc)

  pub may_break : (s : Status) → status_in s (approved ∷ processing ∷ []) ≡ true → Leads b s failed
  may_break approved h = onwards break_claimed stays
  may_break processing h = onwards break_sent stays
  may_break pending h = absurd (cc)
  may_break rejected h = absurd (cc)
  may_break completed h = absurd (cc)
  may_break failed h = absurd (cc)

  pub may_start : (s : Status) → status_in s (pending ∷ []) ≡ true → Leads b s processing
  may_start pending h = onwards start stays
  may_start approved h = absurd (cc)
  may_start rejected h = absurd (cc)
  may_start processing h = absurd (cc)
  may_start completed h = absurd (cc)
  may_start failed h = absurd (cc)

  -- A row that is found by its id is found after growth, a step further.
  pub found-Grows :
      (id : String) (ws vs : List Withdrawal) (w : Withdrawal)
      → Grows b ws vs
      → find (has_id id) ws ≡ some w
      → (v : Withdrawal) × (find (has_id id) vs ≡ some v) × Step b w v
  found-Grows id [] vs w g e = absurd (cc)
  found-Grows id (x ∷ ws) [] w g e = absurd g
  found-Grows id (x ∷ ws) (y ∷ vs) w (step, g) e =
      let same : y.id ≡ x.id = ap (λ c. c.id) step.keeps in
      elim (Bool-cases (str_eq x.id id)) [
        | inl here ↦
            let found : some x ≡ some w = rw here at e in
            let is : x ≡ w = cc in (y, rw (same, here) refl, subst (λ v. Step b v y) is step)
        | inr there ↦
            let (v, f, t) = found-Grows id ws vs w g (rw there at e) in (v, rw (same, there) f, t)
      ]
