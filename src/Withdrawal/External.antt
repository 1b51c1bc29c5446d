-- ===== src/Withdrawal/External.antt =====
-- `createForExternal`: a withdrawal of a partner's own user, with no fee and no key.
-- backend-vexxa/src/modules/withdrawal/application/withdrawal.service.ts.
use painel_mt_affiliates.Common.{List, [], ◌∷◌, ◌++◌, String, str_eq, any}
use painel_mt_affiliates.Common.Int.{ℤ, pos, pos_part, leb_ℤ, max_ℤ}
use painel_mt_affiliates.Withdrawal.Types.{
  Status, pending, processing, completed, Withdrawal, Store, emit_created, daily_limit,
  house_required, bonus_not_supported, no_balance, Result, ok, err, ◌>>◌, throw_if,
}
use painel_mt_affiliates.Withdrawal.Rows.{fire}
use painel_mt_affiliates.Withdrawal.Create.{
  Env, CreateDto, offered, find_house, counts_today, start_of_day, new_row,
}

-- The statuses that `createForExternal` counts leave APPROVED out.
abbrev pub external_active : List Status
external_active = pending ∷ processing ∷ completed ∷ []

unfoldable pub prepare_external :
    Env → String → String → String → CreateDto → Store → Result Withdrawal
prepare_external env new_id user_id pix_key dto s =
    let available : ℤ =
      max_ℤ (pos 0) (offered (find_house dto.betting_house env.balance.per_house)) in
    do
      throw_if (str_eq dto.betting_house "") house_required
      throw_if (str_eq dto.betting_house "bonus") bonus_not_supported
      throw_if
          (any (counts_today external_active user_id dto.betting_house (start_of_day env.now))
            s.withdrawals)
          daily_limit
      throw_if (leb_ℤ available (pos 0)) no_balance
      ok (new_row new_id user_id dto env.now (pos_part available) 0 "API" pix_key)

unfoldable pub create_for_external :
    Env → String → String → String → CreateDto → Store → Result Withdrawal × Store
unfolding prepare_external
create_for_external env new_id user_id pix_key dto s =
    elim (prepare_external env new_id user_id pix_key dto s) [
      | ok w ↦ (ok w, fire (emit_created w.id) (record s { withdrawals = s.withdrawals ++ w ∷ [] }))
      | err e ↦ (err e, s)
    ]
