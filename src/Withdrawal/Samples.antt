-- ===== src/Withdrawal/Samples.antt =====
-- An affiliate, an empty store and the world around a first withdrawal, for runs of the model.
use painel_mt_affiliates.Common.{ℕ, ◌+◌, ◌*◌, true, false, none, some, List, [], ◌∷◌}
use painel_mt_affiliates.Common.Int.{pos}
use painel_mt_affiliates.Withdrawal.Frequency.{WithdrawalSchedule}
use painel_mt_affiliates.Withdrawal.Types.{Withdrawal, User, Store, completed}
use painel_mt_affiliates.Withdrawal.Gateway.{BalanceResult, available, TransferResult, accepted}
use painel_mt_affiliates.Withdrawal.Webhook.{Payload, no_data}
use painel_mt_affiliates.Withdrawal.Lifecycle.Steps.{
  Operation, do_create, do_approve, do_webhook, do_mark_paid,
}
use painel_mt_affiliates.Withdrawal.Create.{Env, CreateDto, new_row}

abbrev pub ana : User
ana = record {
  id = "ana";
  pix_key = some "ana@x.br";
  pix_key_type = some "EMAIL";
  withdrawal_blocked = false;
  is_external = false;
  bonus_balance = pos 5000;
}

abbrev pub empty : Store
empty = record {
  withdrawals = [];
  releases = [];
  users = ana ∷ [];
  events = [];
  transfers = [];
  effects = [];
}

abbrev pub any_day : WithdrawalSchedule
any_day = record {
  withdrawal_weekday = none;
  withdrawal_day = none;
  withdrawal_day_end = none;
  withdrawal_day2 = none;
  withdrawal_day2_end = none;
}

abbrev pub env : Env
env = record {
  now = 86400000 * 20000 + 5;
  today = record { year = 2026; month = 1; day = 31; weekday = 6 };
  house = some (record {
    enabled = true;
    schedule = any_day;
    min_cpa_to_withdraw = 0;
    min_withdrawal_amount = some 10000;
  });
  cpa_qualified = 0;
  balance = record {
    per_house =
        record { house = "betano"; total = pos 12345; withdrawable = none; restriction = none }
        ∷ [];
    min_withdrawal_amount = 5000;
    exempt_by_network_head = false;
    below_minimum = false;
  };
  fee_setting = none;
}

abbrev pub betano : CreateDto
betano = record { betting_house = "betano"; request_note = none }

abbrev pub bonus : CreateDto
bonus = record { betting_house = "bonus"; request_note = none }

-- 6% of 123.45 is 7.407, which goes to 7.41.
abbrev pub betano_row : Withdrawal
betano_row = new_row "w1" "ana" betano (86400000 * 20000 + 5) 12345 741 "EMAIL" "ana@x.br"

abbrev pub bonus_row : Withdrawal
bonus_row = new_row "w1" "ana" bonus (86400000 * 20000 + 5) 5000 300 "EMAIL" "ana@x.br"

abbrev pub gateway : ℕ → TransferResult
gateway cents = accepted "g1" "pending"

abbrev pub funds : BalanceResult
funds = available 1000000 false

abbrev pub paid_event : Payload
paid_event = record {
  event = some "PayOutCompleted";
  details = some (record no_data { reference_code = some "g1"; status = some "completed" });
}

-- created, approved, paid by the gateway, and paid by hand, which is too late
abbrev pub calls : List Operation
calls =
    do_create env "w1" "ana" betano
    ∷ do_approve 7 "pay" "w1" "root" none (pos 12345) funds gateway
    ∷ do_webhook 8 "pay" paid_event
    ∷ do_mark_paid 9 "w1" "root" none
    ∷ []

-- a store with one withdrawal that the gateway has paid
abbrev pub done_row : Withdrawal
done_row = record betano_row { status = completed; gateway_id = some "g1" }

abbrev pub done_store : Store
done_store = record empty { withdrawals = done_row ∷ [] }

abbrev pub pending_store : Store
pending_store = record empty { withdrawals = betano_row ∷ [] }

-- attempts to change it
abbrev pub late_calls : List Operation
late_calls =
    do_webhook 8 "pay" (record paid_event { event = some "PayOutFailed" })
    ∷ do_mark_paid 9 "w1" "root" none
    ∷ []
