-- ===== src/Withdrawal/Lifecycle/Entries.antt =====
-- What the two calls that create withdrawals do to the rows.
use mathlib.Core.Path.{subst}
use painel_mt_affiliates.Common.{
  ◌≡◌, refl, ap, ◌∙◌, Bool, false, List, [], ◌∷◌, ◌++◌, String, str_eq, any, arith,
}
use painel_mt_affiliates.Common.Int.{ℤ, pos, pos_part, leb_ℤ, max_ℤ}
use painel_mt_affiliates.Withdrawal.Types.{
  Withdrawal, Store, Result, ok, err, throw_if, house_required, bonus_not_supported, daily_limit,
  no_balance,
}
use painel_mt_affiliates.Withdrawal.Rows.{has_id}
use painel_mt_affiliates.Withdrawal.Create.{
  Env, CreateDto, create, new_row, counts_today, start_of_day, offered, find_house,
}
use painel_mt_affiliates.Withdrawal.External.{
  create_for_external, prepare_external, external_active,
}
use painel_mt_affiliates.Withdrawal.Create.Amounts.{>>=-passed, create-Prepared, create-err}
use painel_mt_affiliates.Withdrawal.Lifecycle.Steps.{IsNew, Grows, IsUnique}
use painel_mt_affiliates.Withdrawal.Lifecycle.Growth.{Grows-refl, Grows-add}
use painel_mt_affiliates.Withdrawal.Lifecycle.Identity.{IsUnique-add}

module _ (b : Bool) where
  -- Growth, with the ids still unique.
  abbrev pub GrowsUnique : List Withdrawal → List Withdrawal → Type 0
  GrowsUnique ws vs = Grows b ws vs × IsUnique vs

  adds :
      (id : String) (ws : List Withdrawal) (w : Withdrawal)
      → IsNew w
      → w.id ≡ id
      → IsUnique ws
      → any (has_id id) ws ≡ false
      → GrowsUnique ws (ws ++ w ∷ [])
  adds id ws w new same u fresh =
      (Grows-add b ws w new, IsUnique-add ws w (ap (λ i. any (has_id i) ws) same ∙ fresh) u)

  module _ (env : Env) (id user_id : String) (dto : CreateDto) (s : Store)
      (u : IsUnique s.withdrawals) (fresh : any (has_id id) s.withdrawals ≡ false) where
    created :
        (r : Result Withdrawal) (s' : Store)
        → create env id user_id dto s ≡ (r, s')
        → GrowsUnique s.withdrawals s'.withdrawals
    created (err x) s' e =
        rw (create-err env id user_id dto s s' x e) ((Grows-refl b s.withdrawals, u))
    created (ok w) s' e =
        let (_, rs, _, _, made, after) = create-Prepared env id user_id dto s s' w e in
        let new : IsNew w = record {
          status = made.status;
          split = made.split;
          unrefunded = made.unrefunded;
        } in
        rw after (adds id s.withdrawals w new made.ident u fresh)

    pub Grows-create : GrowsUnique s.withdrawals (create env id user_id dto s).1.withdrawals
    Grows-create = let out = create env id user_id dto s in created out.0 out.1 refl

    prepared_external :
        (pix : String) (w : Withdrawal)
        → prepare_external env id user_id pix dto s ≡ ok w
        → IsNew w × (w.id ≡ id)
    unfolding prepare_external
    prepared_external pix w e =
        let available : ℤ =
          max_ℤ (pos 0) (offered (find_house dto.betting_house env.balance.per_house)) in
        let (_, _, e1) = >>=-passed (throw_if (str_eq dto.betting_house "") house_required) _ e in
        let (_, _, e2) =
          >>=-passed (throw_if (str_eq dto.betting_house "bonus") bonus_not_supported) _ e1 in
        let (_, _, e3) =
          >>=-passed
            (throw_if
              (any (counts_today external_active user_id dto.betting_house (start_of_day env.now))
                s.withdrawals)
              daily_limit)
            _ e2 in
        let (_, _, e4) = >>=-passed (throw_if (leb_ℤ available (pos 0)) no_balance) _ e3 in
        let row = new_row id user_id dto env.now (pos_part available) 0 "API" pix in
        let same : row ≡ w = cc in
        let new : IsNew row = record { status = refl; split = omega arith; unrefunded = refl } in
        subst (λ v. IsNew v × (v.id ≡ id)) same (new, refl)

    pub Grows-create_external :
        (pix : String)
        → GrowsUnique s.withdrawals (create_for_external env id user_id pix dto s).1.withdrawals
    unfolding create_for_external
    Grows-create_external pix = go (prepare_external env id user_id pix dto s) refl
      where
        go :
            (r : Result Withdrawal)
            → prepare_external env id user_id pix dto s ≡ r
            → GrowsUnique s.withdrawals (create_for_external env id user_id pix dto s).1.withdrawals
        go (err x) e = rw (e, create_for_external) ((Grows-refl b s.withdrawals, u))
        go (ok w) e =
            let (new, same) = prepared_external pix w e in
            rw (e, create_for_external) (adds id s.withdrawals w new same u fresh)
