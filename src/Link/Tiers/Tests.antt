-- ===== src/Link/Tiers/Tests.antt =====
-- Tiers that lie apart, and tiers that meet.
use painel_mt_affiliates.Common.{◌≡◌, refl, none, some, [], ◌∷◌}
use painel_mt_affiliates.Common.Int.{pos}
use painel_mt_affiliates.Link.Types.{RangeTier}
use painel_mt_affiliates.Link.Tiers.{find_tier_overlap}

-- up to 55, and from 56
abbrev low : RangeTier
low = record { min = none; max = some (pos 550000); cpa = pos 500000 }

abbrev high : RangeTier
high = record { min = some (pos 560000); max = none; cpa = pos 550000 }

-- 55 itself
abbrev edge : RangeTier
edge = record { min = some (pos 550000); max = some (pos 550000); cpa = pos 1 }

apart : find_tier_overlap (low ∷ high ∷ []) ≡ none
unfolding find_tier_overlap
apart = refl

meeting : find_tier_overlap (high ∷ low ∷ edge ∷ []) ≡ some (low, edge)
unfolding find_tier_overlap
meeting = refl
