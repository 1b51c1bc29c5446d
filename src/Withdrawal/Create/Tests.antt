-- ===== src/Withdrawal/Create/Tests.antt =====
-- Runs of `create`, and instances of its theorems.
use painel_mt_affiliates.Common.{◌+◌, ◌≤◌, ◌≡◌, refl, some, [], ◌∷◌, ◌++◌, str_eq, find, arith}
use painel_mt_affiliates.Common.Int.{pos, ◌+ℤ◌, ◌-ℤ◌, max_ℤ}
use painel_mt_affiliates.Withdrawal.Frequency.{is_withdrawal_day_allowed}
use painel_mt_affiliates.Withdrawal.Types.{pending, User, ok, err, daily_limit}
use painel_mt_affiliates.Withdrawal.Create.{
  create, commit, offered, find_house, minimum_of, start_of_day, bonus_sums,
}
use painel_mt_affiliates.Withdrawal.Samples.{empty, env, betano, bonus, betano_row, bonus_row}
use painel_mt_affiliates.Withdrawal.Create.Amounts.{create_house}
use painel_mt_affiliates.Withdrawal.Create.Daily.{WithinLimit, create-WithinLimit}
use painel_mt_affiliates.Withdrawal.Create.Bonus.{create_bonus}

create-betano : create env "w1" "ana" betano empty ≡ (ok betano_row, commit [] betano_row empty)
unfolding create is_withdrawal_day_allowed
create-betano = refl

-- A second one on the same day is refused.
create-betano_again :
    (create env "w2" "ana" betano (commit [] betano_row empty)).0 ≡ err daily_limit
unfolding create is_withdrawal_day_allowed
create-betano_again = refl

create-bonus_row : create env "w1" "ana" bonus empty ≡ (ok bonus_row, commit [] bonus_row empty)
unfolding create ◌-ℤ◌
create-bonus_row = refl

create_house_example :
    (betano_row.status ≡ pending)
    × (betano_row.amount + betano_row.withdrawal_fee ≡ betano_row.original_amount)
    × (pos betano_row.original_amount
        ≡ max_ℤ (pos 0) (offered (find_house "betano" env.balance.per_house)))
    × (minimum_of env ≤ betano_row.original_amount)
    × ((commit [] betano_row empty).withdrawals ≡ [] ++ betano_row ∷ [])
create_house_example =
    create_house env "w1" "ana" betano empty (commit [] betano_row empty) betano_row refl
      create-betano

create-WithinLimit_example :
    WithinLimit "ana" "betano" (start_of_day env.now) (commit [] betano_row empty)
create-WithinLimit_example =
    create-WithinLimit env "w1" "ana" betano empty (commit [] betano_row empty) betano_row
      create-betano (omega arith)

create_bonus_example :
    (u : User) × (find (λ (u : User). str_eq u.id "ana") empty.users ≡ some u)
    × (pos (bonus_sums "ana" (commit [] bonus_row empty).withdrawals).0
        ≡ u.bonus_balance +ℤ pos (bonus_sums "ana" (commit [] bonus_row empty).withdrawals).1)
create_bonus_example =
    create_bonus env "w1" "ana" bonus empty (commit [] bonus_row empty) bonus_row refl
      create-bonus_row
