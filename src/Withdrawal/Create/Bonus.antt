-- ===== src/Withdrawal/Create/Bonus.antt =====
-- Bonus withdrawals take what the bonus column has left, and no more.
use painel_mt_affiliates.Common.{
  ℕ, ◌+◌, ◌≡◌, ap, Bool, true, ◌&&◌, some, List, [], ◌∷◌, ◌++◌, String, str_eq, eq_iff, ◌∙◌, find,
  or_else, Bool-cases, inl, inr, arith,
}
use painel_mt_affiliates.Common.Int.{ℤ, pos, pos_part, neg_part, ◌+ℤ◌, ◌-ℤ◌, ◌≤ℤ◌, max_ℤ, int_laws}
use painel_mt_affiliates.Withdrawal.Types.{pending, Withdrawal, User, Store, ok}
use painel_mt_affiliates.Withdrawal.Rows.{status_in}
use painel_mt_affiliates.Withdrawal.Create.{
  Env, CreateDto, create, active, bonus_sums, bonus_available, available_for,
}
use painel_mt_affiliates.Withdrawal.Create.Amounts.{create-Prepared, bonus_or_throw-ok}

abbrev is_bonus_of : String → Withdrawal → Bool
is_bonus_of user w =
    str_eq w.user_id user && str_eq w.betting_house "bonus" && status_in w.status active

-- A row that counts, added behind the others, adds its amounts.
bonus_sums-append :
    (user : String) (ws : List Withdrawal) (w : Withdrawal)
    → is_bonus_of user w ≡ true
    → ((bonus_sums user (ws ++ w ∷ [])).0 ≡ (bonus_sums user ws).0 + w.original_amount)
      × ((bonus_sums user (ws ++ w ∷ [])).1
          ≡ (bonus_sums user ws).1 + or_else w.gateway_refunded_amount 0)
unfolding bonus_sums
bonus_sums-append user [] w h = rw h (omega arith)
bonus_sums-append user (v ∷ ws) w h =
    let ih = bonus_sums-append user ws w h in
    elim (Bool-cases (is_bonus_of user v)) [
      | inl own ↦ rw own (omega (arith, ih))
      | inr other ↦ rw other ih
    ]

bonus_available-exact :
    (u : User) (ws : List Withdrawal) (a : ℕ)
    → pos a ≡ bonus_available u ws
    → pos 1 ≤ℤ pos a
    → pos (a + (bonus_sums u.id ws).0) ≡ u.bonus_balance +ℤ pos (bonus_sums u.id ws).1
unfolding bonus_available
bonus_available-exact u ws a e h =
    let x = u.bonus_balance -ℤ (pos (bonus_sums u.id ws).0 -ℤ pos (bonus_sums u.id ws).1) in
    let same : pos a ≡ x = positive x e h in omega (int_laws, ap pos_part same, ap neg_part same)
  where
    positive : {b : ℕ} (x : ℤ) → pos b ≡ max_ℤ (pos 0) x → pos 1 ≤ℤ pos b → pos b ≡ x
    positive x e h = ground arith

bonus_row :
    (user : String) (w : Withdrawal)
    → w.user_id ≡ user
    → w.betting_house ≡ "bonus"
    → w.status ≡ pending
    → is_bonus_of user w ≡ true
bonus_row user w owner house status =
    rw (status, (eq_iff w.user_id user).1 owner, (eq_iff w.betting_house "bonus").1 house)

-- A bonus withdrawal takes all that is left: after it the active bonus withdrawals, less what was
-- refunded on them, add up to the user's bonus exactly.
pub create_bonus :
    (env : Env) (id user_id : String) (dto : CreateDto) (s s' : Store) (w : Withdrawal)
    → dto.betting_house ≡ "bonus"
    → create env id user_id dto s ≡ (ok w, s')
    → (u : User) × (find (λ (u : User). str_eq u.id user_id) s.users ≡ some u)
      × (pos (bonus_sums user_id s'.withdrawals).0
          ≡ u.bonus_balance +ℤ pos (bonus_sums user_id s'.withdrawals).1)
unfolding available_for
create_bonus env id user_id dto s s' w bonus e =
    let (u, rs, named, found, made, after) = create-Prepared env id user_id dto s s' w e in
    let counted = bonus_row user_id w (made.owner ∙ named) (made.house ∙ bonus) made.status in
    let (original, refunded) = bonus_sums-append user_id s.withdrawals w counted in
    let (exact, least) =
      bonus_or_throw-ok u s.withdrawals (pos w.original_amount)
        (rw ((eq_iff dto.betting_house "bonus").1 bonus) at made.source) in
    let none_refunded : or_else w.gateway_refunded_amount 0 ≡ 0 =
      ap (λ r. or_else r 0) made.unrefunded in
    let paid = bonus_available-exact u s.withdrawals w.original_amount exact least in
    let paid' = rw named at paid in
    (
      u,
      found,
      rw (after, original, refunded)
          (omega (int_laws, ap pos_part paid', ap neg_part paid', none_refunded)),
    )
