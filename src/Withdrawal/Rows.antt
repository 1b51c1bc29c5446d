-- ===== src/Withdrawal/Rows.antt =====
-- Queries and updates of the withdrawal rows: Prisma's `findUnique`, `findFirst` and `updateMany`
-- as the service calls them.
use painel_mt_affiliates.Common.{
  ◌≡◌, refl, ap, sym, eq_iff, ◌∙◌, Bool, true, false, Option, none, some, List, [], ◌∷◌, String,
  str_eq, any, find, if◌then◌else◌, Bool-cases, inl, inr,
}
use painel_mt_affiliates.Withdrawal.Types.{
  Status, pending, approved, rejected, processing, completed, failed, Withdrawal, Store, Effect,
}

abbrev pub status_eq : Status → Status → Bool
status_eq pending pending = true
status_eq approved approved = true
status_eq rejected rejected = true
status_eq processing processing = true
status_eq completed completed = true
status_eq failed failed = true
status_eq _ _ = false

-- `status: { in: [...] }`
abbrev pub status_in : Status → List Status → Bool
status_in s ss = any (status_eq s) ss

abbrev pub has_id : String → Withdrawal → Bool
has_id id w = str_eq w.id id

-- `data`, for the rows that `where` selects
abbrev pub update_row : (Withdrawal → Bool) → (Withdrawal → Withdrawal) → Withdrawal → Withdrawal
update_row test f w = if test w then f w else w

unfoldable pub update_rows :
    (Withdrawal → Bool) → (Withdrawal → Withdrawal) → List Withdrawal → List Withdrawal
update_rows test f [] = []
update_rows test f (w ∷ ws) = update_row test f w ∷ update_rows test f ws

-- `updateMany` on one id: whether a row matched, and the store.
unfoldable pub update_many : (Withdrawal → Bool) → (Withdrawal → Withdrawal) → Store → Bool × Store
unfolding update_rows
update_many test f s =
    (any test s.withdrawals, record s { withdrawals = update_rows test f s.withdrawals })

unfoldable pub find_unique : String → Store → Option Withdrawal
find_unique id s = find (has_id id) s.withdrawals

-- An effect that is fired and forgotten.
abbrev pub fire : Effect → Store → Store
fire e s = record s { effects = e ∷ s.effects }

abbrev pub map_some : (Withdrawal → Withdrawal) → Option Withdrawal → Option Withdrawal
map_some f none = none
map_some f (some w) = some (f w)

abbrev pub KeepsId : (Withdrawal → Withdrawal) → Type 0
KeepsId f = (w : Withdrawal) → (f w).id ≡ w.id

update_row-KeepsId :
    (test : Withdrawal → Bool) (f : Withdrawal → Withdrawal)
    → KeepsId f
    → KeepsId (update_row test f)
update_row-KeepsId test f keep w = elim (Bool-cases (test w)) [
  | inl t ↦ rw t (keep w)
  | inr t ↦ rw t
]

-- An update that keeps the ids is seen by id as the update of the row found.
pub find-update_rows :
    (id : String) (test : Withdrawal → Bool) (f : Withdrawal → Withdrawal) (ws : List Withdrawal)
    → KeepsId f
    → find (has_id id) (update_rows test f ws) ≡ map_some (update_row test f) (find (has_id id) ws)
unfolding update_rows
find-update_rows id test f [] keep = refl
find-update_rows id test f (w ∷ ws) keep =
    let same = ap (λ i. str_eq i id) (update_row-KeepsId test f keep w) in
    elim (Bool-cases (str_eq w.id id)) [
      | inl here ↦ rw (same ∙ here, here)
      | inr there ↦ rw (same ∙ there, there) (find-update_rows id test f ws keep)
    ]

-- What is found by an id has it.
pub found-id :
    (id : String) (ws : List Withdrawal) {r : Withdrawal} → find (has_id id) ws ≡ some r → r.id ≡ id
found-id id [] e = absurd (cc)
found-id id (w ∷ ws) {r} e = elim (Bool-cases (str_eq w.id id)) [
  | inl here ↦
      let found : some w ≡ some r = rw here at e in
      let same : w ≡ r = cc in ap (λ (x : Withdrawal). x.id) (sym same) ∙ (eq_iff w.id id).0 here
  | inr there ↦ found-id id ws (rw there at e)
]
