-- ===== src/Withdrawal/Gateway.antt =====
-- The payment gateway as the withdrawal service sees it:
-- backend-vexxa/src/modules/payment-gateway/application/payment-gateway.service.ts and
-- domain/payment-gateway.types.ts. The answers of the remote API are parameters.
use painel_mt_affiliates.Common.{ℕ, Bool, true, not, ◌&&◌, Option, String, ltb}

-- `GetBalanceResult`, in cents
pub data BalanceResult : Type 0 where
  available : ℕ → Bool → BalanceResult
  unavailable : BalanceResult

-- `CreateTransferResult`: accepted with the gateway's id and status, or refused with the HTTP
-- status, the reason and the reference code that the body of a 409 names.
pub data TransferResult : Type 0 where
  accepted : String → String → TransferResult
  refused : Option ℕ → String → Option String → TransferResult

-- Fails open: a balance that cannot be read does not stop the payout.
unfoldable pub check_sufficient_balance : BalanceResult → ℕ → Bool
check_sufficient_balance unavailable required = true
check_sufficient_balance (available cents blocked) required =
    not blocked && not (ltb cents required)
