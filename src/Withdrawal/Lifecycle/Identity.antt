-- ===== src/Withdrawal/Lifecycle/Identity.antt =====
-- The primary key: what is found by id is the only row with it, and moves keep that.
use mathlib.Core.Path.{subst}
use text.Mathlib.TextPositions.{eq_refl}
use painel_mt_affiliates.Common.{
  ◌≡◌, refl, ap, ◌∙◌, inl, inr, Bool, true, false, some, List, [], ◌∷◌, ◌++◌, String, str_eq,
  eq_iff, All, any, find, Bool-cases,
}
use painel_mt_affiliates.Withdrawal.Types.{Withdrawal}
use painel_mt_affiliates.Withdrawal.Rows.{has_id}
use painel_mt_affiliates.Withdrawal.Lifecycle.Steps.{Moves, IsUnique}

pub any-absent :
    (id : String) (ws : List Withdrawal)
    → any (has_id id) ws ≡ false
    → All (λ w. has_id id w ≡ false) ws
any-absent id [] h = tt
any-absent id (w ∷ ws) h = elim (Bool-cases (str_eq w.id id)) [
  | inl here ↦ absurd (let e = rw here at h in cc)
  | inr there ↦ (there, any-absent id ws (rw there at h))
]

others :
    (id : String) (v : Withdrawal) (ws : List Withdrawal)
    → str_eq v.id id ≡ true
    → All (λ w. has_id v.id w ≡ false) ws
    → All (λ w. has_id id w ≡ true → w ≡ v) ws
others id v [] e h = tt
others id v (w ∷ ws) e (unlike, h) =
    (λ t. absurd (let n = rw ((eq_iff v.id id).0 e) at unlike in cc), others id v ws e h)

pub IsUnique-found :
    (id : String) (v : Withdrawal) (ws : List Withdrawal)
    → IsUnique ws
    → find (has_id id) ws ≡ some v
    → All (λ w. has_id id w ≡ true → w ≡ v) ws
IsUnique-found id v [] u e = tt
IsUnique-found id v (w ∷ ws) (alone, u) e = elim (Bool-cases (str_eq w.id id)) [
  | inl here ↦
      let found : some w ≡ some v = rw here at e in
      let same : w ≡ v = cc in
      (
        λ _. same,
        subst (λ y. All (λ x. has_id id x ≡ true → x ≡ y) ws) same
            (others id w ws here (any-absent w.id ws alone)),
      )
  | inr there ↦ (λ t. absurd (cc), IsUnique-found id v ws u (rw there at e))
]

module _ (b : Bool) where
  pub any-Moves :
      (id : String) (ws vs : List Withdrawal)
      → Moves b ws vs
      → any (has_id id) vs ≡ any (has_id id) ws
  any-Moves id [] [] h = refl
  any-Moves id [] (v ∷ vs) h = absurd h
  any-Moves id (w ∷ ws) [] h = absurd h
  any-Moves id (w ∷ ws) (v ∷ vs) (s, h) = rw (ap (λ c. c.id) s.keeps, any-Moves id ws vs h) refl

  pub IsUnique-Moves : (ws vs : List Withdrawal) → Moves b ws vs → IsUnique ws → IsUnique vs
  IsUnique-Moves [] [] h u = tt
  IsUnique-Moves [] (v ∷ vs) h u = absurd h
  IsUnique-Moves (w ∷ ws) [] h u = absurd h
  IsUnique-Moves (w ∷ ws) (v ∷ vs) (s, h) (alone, u) =
      (rw (ap (λ c. c.id) s.keeps) (any-Moves w.id ws vs h ∙ alone), IsUnique-Moves ws vs h u)

any-add :
    (id : String) (w : Withdrawal) (ws : List Withdrawal)
    → any (has_id id) ws ≡ false
    → str_eq w.id id ≡ false
    → any (has_id id) (ws ++ w ∷ []) ≡ false
any-add id w [] h e = rw e refl
any-add id w (v ∷ ws) h e = elim (Bool-cases (str_eq v.id id)) [
  | inl here ↦ absurd (let n = rw here at h in cc)
  | inr there ↦ rw there (any-add id w ws (rw there at h) e)
]

different : (a b : String) → str_eq a b ≡ false → str_eq b a ≡ false
different a b h = elim (Bool-cases (str_eq b a)) [
  | inl same ↦ absurd (let n = rw ((eq_iff b a).0 same, eq_refl a) at h in cc)
  | inr other ↦ other
]

pub IsUnique-add :
    (ws : List Withdrawal) (w : Withdrawal)
    → any (has_id w.id) ws ≡ false
    → IsUnique ws
    → IsUnique (ws ++ w ∷ [])
IsUnique-add [] w h u = (refl, tt)
IsUnique-add (v ∷ ws) w h (alone, u) = elim (Bool-cases (str_eq v.id w.id)) [
  | inl here ↦ absurd (let n = rw here at h in cc)
  | inr there ↦
      (any-add v.id w ws alone (different v.id w.id there), IsUnique-add ws w (rw there at h) u)
]
