-- ===== src/Link/Tiers.antt =====
-- The tiers of a RANGE rule: `findTierOverlap` of
-- backend-vexxa/src/modules/link-request/application/link-rule-validation.ts, and the search of the
-- tier in cpa-resolution.service.ts.
mod Tests
use painel_mt_affiliates.Common.{
  ℕ, ◌+◌, ◌≤◌, ◌≡◌, refl, Bool, true, false, ◌&&◌, ◌||◌, Option, none, some, List, [], ◌∷◌, find,
  count, any, Bool-cases, Option-cases, inl, inr, if◌then◌else◌, arith,
}
use painel_mt_affiliates.Common.Int.{ℤ, leb_ℤ, ◌≤ℤ◌}
use painel_mt_affiliates.Link.Types.{RangeTier}

-- `a <= b` of a lower and an upper bound, where none is infinite
unfoldable pub bounds_meet : Option ℤ → Option ℤ → Bool
bounds_meet none hi = true
bounds_meet (some lo) none = true
bounds_meet (some lo) (some hi) = leb_ℤ lo hi

unfoldable pub do_overlap : RangeTier → RangeTier → Bool
unfolding bounds_meet
do_overlap a b = bounds_meet a.min b.max && bounds_meet b.min a.max

-- the first tier of the rest that overlaps with `a`
abbrev pub overlap_with : RangeTier → List RangeTier → Option (RangeTier × RangeTier)
overlap_with a [] = none
overlap_with a (b ∷ bs) = if do_overlap a b then some (a, b) else overlap_with a bs

-- The first pair that overlaps; the source prints it.
unfoldable pub find_tier_overlap : List RangeTier → Option (RangeTier × RangeTier)
unfolding do_overlap
find_tier_overlap [] = none
find_tier_overlap (a ∷ rest) =
    let later = find_tier_overlap rest in
    elim (overlap_with a rest) [ some pair ↦ some pair | none ↦ later ]

-- A reference CPA lies in a tier.
unfoldable pub is_in_tier : ℤ → RangeTier → Bool
unfolding bounds_meet
is_in_tier x t = bounds_meet t.min (some x) && bounds_meet (some x) t.max

unfoldable pub find_tier : ℤ → List RangeTier → Option RangeTier
unfolding is_in_tier
find_tier x tiers = find (is_in_tier x) tiers

both-overlap :
    (x : ℤ) (a b : RangeTier)
    → is_in_tier x a ≡ true
    → is_in_tier x b ≡ true
    → do_overlap a b ≡ true
unfolding is_in_tier do_overlap bounds_meet
both-overlap x a b ha hb = ground arith

apart-count :
    (x : ℤ) (a : RangeTier) (bs : List RangeTier)
    → is_in_tier x a ≡ true
    → overlap_with a bs ≡ none
    → count (is_in_tier x) bs ≡ 0
apart-count x a [] h e = refl
apart-count x a (b ∷ bs) h e = elim (Bool-cases (do_overlap a b)) [
  | inl o ↦ absurd (let e' = rw o at e in cc)
  | inr o ↦ elim (Bool-cases (is_in_tier x b)) [
    | inl both ↦ absurd (let c = both-overlap x a b h both in cc)
    | inr not_in ↦ rw not_in (omega (arith, apart-count x a bs h (rw o at e)))
  ]
]

-- When no overlap is found, a reference CPA lies in at most one tier, so that the order in which
-- the tiers stand does not matter.
pub find_tier_overlap_unique :
    (x : ℤ) (tiers : List RangeTier)
    → find_tier_overlap tiers ≡ none
    → count (is_in_tier x) tiers ≤ 1
unfolding find_tier_overlap
find_tier_overlap_unique x [] e = omega arith
find_tier_overlap_unique x (a ∷ rest) e = elim (Option-cases (overlap_with a rest)) [
  | inr (pair, o) ↦ absurd (let e' = rw (o, find_tier_overlap) at e in cc)
  | inl o ↦
      let later = find_tier_overlap_unique x rest (rw (o, find_tier_overlap) at e) in
      elim (Bool-cases (is_in_tier x a)) [
        | inl here ↦ rw here (omega (arith, apart-count x a rest here o))
        | inr there ↦ rw there (omega (arith, later))
      ]
]
