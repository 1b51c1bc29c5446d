-- ===== src/Withdrawal/PinbetLimit.antt =====
-- The Net P&L limit on withdrawals from the Pinbet houses:
-- backend-vexxa/src/modules/withdrawal/domain/pinbet-withdrawal-limit.ts.
-- A number that comes in is a finite decimal, given as an integer number of units, `units` to the
-- cent; a number that goes out is in cents, since `money` cuts it at two places.
pub mod Caps
pub mod Segments
mod Tests
use painel_mt_affiliates.Common.{
  ℕ, suc, ◌*◌, ◌/◌, Bool, true, false, not, ◌&&◌, ◌||◌, Option, none, some, List, [], ◌∷◌, map, all,
  or_else, String, str_eq, if◌then◌else◌,
}
use painel_mt_affiliates.Common.Int.{
  ℤ, pos, negsuc, pos_part, neg_part, sub_ℕ, ◌+ℤ◌, ◌-ℤ◌, ltb_ℤ, leb_ℤ, eqb_ℤ, max_ℤ, min_ℤ,
}

pub data Restriction : Type 0 where
  metrics_syncing net_pl_non_positive net_pl_cap : Restriction

pub record LimitInput : Type 0 where
  pub house : String
  pub balance : ℤ
  pub net_pl : Option ℤ
  pub consumed : ℤ
  pub metrics_complete : Bool

pub record Limit : Type 0 where
  pub balance : ℤ
  pub net_pl : Option ℤ
  pub net_pl_limit : Option ℤ
  pub consumed : ℤ
  pub remaining_net_pl_limit : Option ℤ
  pub withdrawable : ℤ
  pub restriction : Option Restriction

-- `PINBET_HOUSES.includes(house)`
unfoldable pub is_pinbet_house : String → Bool
is_pinbet_house house = str_eq house "pinbet-diario" || str_eq house "pinbet-mensal"

-- `toDecimalPlaces(2, ROUND_DOWN)`: towards zero.
unfoldable pub money : ℕ → ℤ → ℤ
money units (pos n) = pos (n / units)
money units (negsuc n) = sub_ℕ 0 (suc n / units)

-- a decimal times 0.8, in tenths of the unit
abbrev pub times_eight : ℤ → ℤ
times_eight x = sub_ℕ (8 * pos_part x) (8 * neg_part x)

pub unrestricted : ℤ → Option ℤ → ℤ → Limit
unrestricted balance net_pl consumed = record {
  balance = balance;
  net_pl = net_pl;
  net_pl_limit = none;
  consumed = consumed;
  remaining_net_pl_limit = none;
  withdrawable = balance;
  restriction = none;
}

pub syncing : ℤ → ℤ → Limit
syncing balance consumed = record {
  balance = balance;
  net_pl = none;
  net_pl_limit = none;
  consumed = consumed;
  remaining_net_pl_limit = none;
  withdrawable = pos 0;
  restriction = some metrics_syncing;
}

pub non_positive : ℤ → ℤ → ℤ → Limit
non_positive balance consumed net_pl = record {
  balance = balance;
  net_pl = some net_pl;
  net_pl_limit = some (pos 0);
  consumed = consumed;
  remaining_net_pl_limit = some (pos 0);
  withdrawable = pos 0;
  restriction = some net_pl_non_positive;
}

pub capped : ℤ → ℤ → ℤ → Limit
unfolding money
capped balance consumed net_pl =
    let net_pl_limit : ℤ = money 10 (times_eight net_pl) in
    let remaining : ℤ = max_ℤ (pos 0) (money 1 (net_pl_limit -ℤ consumed)) in
    record {
      balance = balance;
      net_pl = some net_pl;
      net_pl_limit = some net_pl_limit;
      consumed = consumed;
      remaining_net_pl_limit = some remaining;
      withdrawable = min_ℤ balance remaining;
      restriction = if ltb_ℤ remaining balance then some net_pl_cap else none;
    }

-- what `calculatePinbetWithdrawalLimit` does with the Net P&L in cents
unfoldable pub by_net_pl : ℤ → ℤ → ℤ → Limit
unfolding non_positive capped
by_net_pl balance consumed net_pl =
    if leb_ℤ net_pl (pos 0)
    then non_positive balance consumed net_pl
    else capped balance consumed net_pl

unfoldable pub calculate_pinbet_withdrawal_limit : ℕ → LimitInput → Limit
unfolding money is_pinbet_house unrestricted syncing by_net_pl
calculate_pinbet_withdrawal_limit units input =
    let balance : ℤ = max_ℤ (pos 0) (money units input.balance) in
    let consumed : ℤ = max_ℤ (pos 0) (money units input.consumed) in
    if not (is_pinbet_house input.house)
    then unrestricted balance input.net_pl consumed
    else if not input.metrics_complete
    then syncing balance consumed
    else elim input.net_pl [
      | none ↦ syncing balance consumed
      | some net_pl ↦ by_net_pl balance consumed (money units net_pl)
    ]

pub data Dimension : Type 0 where
  afp1 afp2 combined : Dimension

-- `PinbetLimitSegment`; its dimension is never `combined`
pub record Segment : Type 0 where
  pub dimension : Dimension
  pub balance : ℤ
  pub net_pl : Option ℤ
  pub consumed : ℤ
  pub metrics_complete : Bool

pub record SegmentedLimit : Type 0 where
  pub balance : ℤ
  pub net_pl : Option ℤ
  pub net_pl_limit : Option ℤ
  pub consumed : ℤ
  pub remaining_net_pl_limit : Option ℤ
  pub withdrawable : ℤ
  pub restriction : Option Restriction
  pub segments : List (Dimension × Limit)

-- `{ ...segment, house: 'pinbet-mensal' }`
abbrev pub mensal_input : Segment → LimitInput
mensal_input s = record {
  house = "pinbet-mensal";
  balance = s.balance;
  net_pl = s.net_pl;
  consumed = s.consumed;
  metrics_complete = s.metrics_complete;
}

unfoldable pub segment_limit : ℕ → Segment → Dimension × Limit
segment_limit units s = (s.dimension, calculate_pinbet_withdrawal_limit units (mensal_input s))

-- `segments.reduce((total, segment) => total.plus(f(segment)), new Decimal(0))`
unfoldable pub total_of : (Limit → ℤ) → ℤ → List (Dimension × Limit) → ℤ
total_of f acc [] = acc
total_of f acc (s ∷ ss) = total_of f (acc +ℤ f s.1) ss

abbrev pub is_syncing : Option Restriction → Bool
is_syncing (some metrics_syncing) = true
is_syncing r = false

-- the numbers of `calculateSegmentedPinbetWithdrawalLimit` after the segments' own limits
unfoldable pub combine_segments : ℤ → List (Dimension × Limit) → SegmentedLimit
unfolding money total_of
combine_segments combined_consumed segments =
    let complete : Bool = all (λ s. not (is_syncing s.1.restriction)) segments in
    let before : ℤ = money 1 (total_of (λ l. l.balance) (pos 0) segments) in
    let balance : ℤ = max_ℤ (pos 0) (money 1 (before -ℤ combined_consumed)) in
    let remaining : ℤ =
      max_ℤ (pos 0)
        (money 1 (total_of (λ l. l.withdrawable) (pos 0) segments -ℤ combined_consumed)) in
    let withdrawable : ℤ = if complete then min_ℤ balance remaining else pos 0 in
    record {
      balance = balance;
      net_pl =
          if complete
          then some (money 1 (total_of (λ l. or_else l.net_pl (pos 0)) (pos 0) segments))
          else none;
      net_pl_limit =
          if complete
          then some (money 1 (total_of (λ l. or_else l.net_pl_limit (pos 0)) (pos 0) segments))
          else none;
      consumed = money 1 (total_of (λ l. l.consumed) (pos 0) segments +ℤ combined_consumed);
      remaining_net_pl_limit = if complete then some remaining else none;
      withdrawable = withdrawable;
      restriction =
          if not complete
          then some metrics_syncing
          else if eqb_ℤ withdrawable (pos 0)
              && all (λ s. leb_ℤ (or_else s.1.net_pl (pos 0)) (pos 0)) segments
          then some net_pl_non_positive
          else if ltb_ℤ withdrawable balance
          then some net_pl_cap
          else none;
      segments = segments;
    }

unfoldable pub calculate_segmented_pinbet_withdrawal_limit : ℕ → List Segment → ℤ → SegmentedLimit
unfolding combine_segments segment_limit
calculate_segmented_pinbet_withdrawal_limit units segments combined_consumed =
    combine_segments (max_ℤ (pos 0) (money units combined_consumed))
      (map (segment_limit units) segments)
