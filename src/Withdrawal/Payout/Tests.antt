-- ===== src/Withdrawal/Payout/Tests.antt =====
-- Instances of the theorems on payouts.
use painel_mt_affiliates.Common.{arith, ◌≤◌, ◌≡◌, ◌⊎◌, refl, none, some, [], ◌∷◌}
use painel_mt_affiliates.Common.Int.{pos}
use painel_mt_affiliates.Withdrawal.Types.{ok, processing, Withdrawal, Store, pending}
use painel_mt_affiliates.Withdrawal.Rows.{find_unique}
use painel_mt_affiliates.Withdrawal.Approve.{
  normalize_pix_key_type, claim, roll_back, send, approve_and_dispatch,
}
use painel_mt_affiliates.Withdrawal.Lifecycle.Steps.{fixed, run_all}
use painel_mt_affiliates.Withdrawal.Payout.{
  World, Next, Reaches, rests, then_next, here, times_sent,
}
use painel_mt_affiliates.Withdrawal.Payout.Once.{sent-once}
use painel_mt_affiliates.Withdrawal.Payout.Runs.{run_all-Reaches}
use painel_mt_affiliates.Withdrawal.Payout.Success.{payout_of, approve_accepted}
use painel_mt_affiliates.Withdrawal.Gateway.{check_sufficient_balance}
use painel_mt_affiliates.Withdrawal.Manage.{is_external_row}
use painel_mt_affiliates.Withdrawal.Payout.Amount.{Sends, approve-Sends}
use painel_mt_affiliates.Withdrawal.Samples.{
  empty, calls, betano_row, pending_store, funds, gateway,
}

abbrev idle : Store → World
idle s = record { store = s; claims = []; waits = [] }

-- An approval is rolled back, a second one sends and is not told the answer.
abbrev first : Store
first = (claim 6 "w1" "root" none pending_store).1

abbrev second : Store
second = (claim 7 "w1" "rita" none (roll_back "w1" first)).1

interleaved :
    Reaches
      (idle pending_store)
      (record { store = send betano_row "EMAIL" 11604 second; claims = []; waits = "w1" ∷ [] })
unfolding claim roll_back
interleaved =
    then_next
      (then_next
        (then_next (then_next rests (Next.claims 6 "w1" "root" none refl))
          (Next.rolls_back "w1" [] here))
        (Next.claims 7 "w1" "rita" none refl))
      (Next.sends betano_row "EMAIL" 11604 [] here)

sent-once_example : times_sent "w1" (send betano_row "EMAIL" 11604 second) ≤ 1
sent-once_example =
    sent-once pending_store
      (record { store = send betano_row "EMAIL" 11604 second; claims = []; waits = "w1" ∷ [] }) "w1"
      (refl, tt) refl interleaved

run_all-Reaches_example : Reaches (idle empty) (idle (run_all calls empty))
run_all-Reaches_example = run_all-Reaches calls [] [] empty (refl, (tt, (tt, (tt, tt))))

approve-Sends_example :
    ((approve_and_dispatch 7 "pay" "w1" "root" none
        (pos 12345)
        funds
        gateway
        pending_store).1.transfers
      ≡ [])
    ⊎ ((v : Withdrawal) × (find_unique "w1" pending_store ≡ some v)
        × (v.status ≡ pending)
        × (pos v.original_amount ≡ pos 12345)
        × Sends funds
            (fixed v)
            []
            (approve_and_dispatch 7 "pay" "w1" "root" none
              (pos 12345)
              funds
              gateway
              pending_store).1.transfers)
approve-Sends_example =
    approve-Sends 7 "pay" "w1" "root" none (pos 12345) funds gateway pending_store (refl, tt)

approve_accepted_example :
    (r : Withdrawal) × (s' : Store) × (approve_and_dispatch 7 "pay" "w1" "root" none
        (pos 12345)
        funds
        gateway
        pending_store
      ≡ (ok r, s'))
    × (find_unique "w1" s' ≡ some r)
    × (r.status ≡ processing)
    × (r.gateway_id ≡ some "g1")
    × (fixed r ≡ fixed betano_row)
    × (s'.transfers ≡ payout_of (fixed betano_row) "EMAIL" ∷ [])
unfolding find_unique is_external_row normalize_pix_key_type check_sufficient_balance
approve_accepted_example =
    approve_accepted 7 "pay" "w1" "root" none funds gateway pending_store betano_row "EMAIL" "g1"
      "pending" refl refl refl refl refl (omega arith) refl refl
