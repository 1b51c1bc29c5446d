-- ===== src/Withdrawal/PinbetLimit/Tests.antt =====
-- Runs of the Pinbet limit, and instances of its theorems.
use painel_mt_affiliates.Common.{
  ◌+◌, ◌*◌, ◌≤◌, ◌≡◌, ◌⊎◌, ◌↔◌, refl, true, List, none, some, ◌∷◌, [], All,
}
use painel_mt_affiliates.Common.Int.{ℤ, pos, negsuc, pos_part, ◌≤ℤ◌, ◌-ℤ◌, ◌+ℤ◌}
use painel_mt_affiliates.Withdrawal.PinbetLimit.{
  LimitInput, Segment, afp1, afp2, money, is_pinbet_house, calculate_pinbet_withdrawal_limit,
  calculate_segmented_pinbet_withdrawal_limit,
}
use painel_mt_affiliates.Withdrawal.PinbetLimit.Caps.{
  limit, balance, consumed, withdrawable_bounds, withdrawable_cap, restriction-none_iff,
}
use painel_mt_affiliates.Withdrawal.PinbetLimit.Segments.{
  IsComplete, sum_by, own_balance, positive_net_pl, segmented, combined_cents, segmented_cap,
}

abbrev diario : LimitInput
diario = record {
  house = "pinbet-diario";
  balance = pos 100000;
  net_pl = some (pos 10000);
  consumed = pos 0;
  metrics_complete = true;
}

-- One dimension is in the red, and does not lower the other's limit.
abbrev dimensions : List Segment
dimensions =
    record {
      dimension = afp1;
      balance = pos 100000;
      net_pl = some (pos 10000);
      consumed = pos 0;
      metrics_complete = true;
    }
    ∷ record {
      dimension = afp2;
      balance = pos 0;
      net_pl = some (negsuc 99999);
      consumed = pos 0;
      metrics_complete = true;
    }
    ∷ []

diario-limit : (limit 1 diario).withdrawable ≡ pos 8000
unfolding calculate_pinbet_withdrawal_limit ◌-ℤ◌
diario-limit = refl

dimensions-limit : (segmented 1 dimensions (pos 500)).withdrawable ≡ pos 7500
unfolding calculate_segmented_pinbet_withdrawal_limit calculate_pinbet_withdrawal_limit ◌-ℤ◌ ◌+ℤ◌
dimensions-limit = refl

withdrawable_bounds_example :
    (pos 0 ≤ℤ (limit 100 diario).withdrawable)
    × ((limit 100 diario).withdrawable ≤ℤ balance 100 diario)
withdrawable_bounds_example = withdrawable_bounds 100 diario

diario-pinbet : is_pinbet_house diario.house ≡ true
unfolding is_pinbet_house
diario-pinbet = refl

withdrawable_cap_example :
    let r = limit 1 diario in
    (r.withdrawable ≡ pos 0)
    ⊎ ((q : ℤ) × (diario.net_pl ≡ some q)
        × (diario.metrics_complete ≡ true)
        × (10 * (pos_part r.withdrawable + pos_part (consumed 1 diario))
            ≤ 8 * pos_part (money 1 q)))
withdrawable_cap_example = withdrawable_cap 1 diario diario-pinbet

restriction-none_iff_example : ((limit 1 diario).restriction ≡ none) ↔ (
    ((limit 1 diario).withdrawable ≡ balance 1 diario)
    × ((q : ℤ) × (diario.net_pl ≡ some q)
        × (diario.metrics_complete ≡ true)
        × (pos 1 ≤ℤ money 1 q)))
restriction-none_iff_example = restriction-none_iff 1 diario diario-pinbet

segmented_cap_example :
    let r = segmented 1 dimensions (pos 500) in
    let c = combined_cents 1 (pos 500) in
    (r.withdrawable ≡ pos 0)
    ⊎ (All IsComplete dimensions
        × (pos 0 ≤ℤ r.withdrawable)
        × (pos_part r.withdrawable + pos_part c ≤ sum_by (own_balance 1) dimensions)
        × (10 * (pos_part r.withdrawable + pos_part c) ≤ 8 * sum_by (positive_net_pl 1) dimensions))
segmented_cap_example = segmented_cap 1 dimensions (pos 500)
