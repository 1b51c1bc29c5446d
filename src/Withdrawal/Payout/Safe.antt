-- ===== src/Withdrawal/Payout/Safe.antt =====
-- The invariant of the interleaved approvals: what a claim holds, and the steps that only go forward.
use painel_mt_affiliates.Common.{
  ℕ, ◌+◌, ◌≤◌, ◌≡◌, refl, inl, inr, true, false, some, List, [], ◌∷◌, String, str_eq, eq_iff, any,
  find, count, Bool-cases, if◌then◌else◌, arith,
}
use painel_mt_affiliates.Withdrawal.Types.{Status, pending, Withdrawal}
use painel_mt_affiliates.Withdrawal.Rows.{has_id}
use painel_mt_affiliates.Withdrawal.Approve.{is_claimable}
use painel_mt_affiliates.Withdrawal.Lifecycle.Steps.{
  Edge, Leads, stays, onwards, Moves, Grows, IsUnique,
}
use painel_mt_affiliates.Withdrawal.Lifecycle.Growth.{Moves-Grows, found-Grows}
use painel_mt_affiliates.Withdrawal.Lifecycle.Identity.{IsUnique-Moves}
use painel_mt_affiliates.Withdrawal.Lifecycle.Entries.{GrowsUnique}
use painel_mt_affiliates.Withdrawal.Payout.{World, Removes, here, there, times_sent}

-- how many approvals hold the claim of a withdrawal
abbrev pub times_claimed : String → List String → ℕ
times_claimed id ids = count (λ x. str_eq x id) ids

abbrev pub in_hand : String → World → ℕ
in_hand id w = times_claimed id w.claims + times_sent id w.store

-- The row is there and no longer pending.
abbrev pub Held : String → List Withdrawal → Type 0
Held id ws = (r : Withdrawal) × (find (has_id id) ws ≡ some r) × (r.status ≡ pending → ⊥)

pub record IsSafe (w : World) : Type 0 where
  pub unique : IsUnique w.store.withdrawals
  pub single : (id : String) → in_hand id w ≤ 1
  pub held : (id : String) → 1 ≤ in_hand id w → Held id w.store.withdrawals

pub Removes-count :
    (i : String) {id : String} {ids rest : List String}
    → Removes id ids rest
    → times_claimed i ids ≡ times_claimed i rest + (if str_eq id i then 1 else 0)
Removes-count i here = omega arith
Removes-count i (there r) = omega (arith, Removes-count i r)

-- Without a roll-back nothing becomes pending again.
firm : {s t : Status} → Leads false s t → t ≡ pending → s ≡ pending
firm stays h = h
firm (onwards e l) h = back e (firm l h)
  where
    back : {s t : Status} → Edge false s t → t ≡ pending → s ≡ pending
    back (Edge.unclaim f) h = absurd (cc)
    back Edge.claim h = absurd (cc)
    back Edge.send h = absurd (cc)
    back Edge.start h = absurd (cc)
    back Edge.break_claimed h = absurd (cc)
    back Edge.break_sent h = absurd (cc)
    back Edge.pay_pending h = absurd (cc)
    back Edge.pay_claimed h = absurd (cc)
    back Edge.pay_sent h = absurd (cc)
    back Edge.refuse h = absurd (cc)
    back Edge.refuse_started h = absurd (cc)

pub Held-Grows :
    (id : String) (ws vs : List Withdrawal) → Grows false ws vs → Held id ws → Held id vs
Held-Grows id ws vs g (r, found, no_more) =
    let (v, found', step) = found-Grows false id ws vs r g found in
    (v, found', λ p. no_more (firm step.leads p))

-- A step forward that takes no claim and sends nothing, beyond what it gives up, is safe.
pub forward :
    (w v : World)
    → GrowsUnique false w.store.withdrawals v.store.withdrawals
    → ((id : String) → in_hand id v ≤ in_hand id w)
    → IsSafe w
    → IsSafe v
forward w v (g, u) less safe = record {
  unique = u;
  single = λ id. omega (arith, less id, safe.single id);
  held = λ id h.
      Held-Grows id w.store.withdrawals v.store.withdrawals g
        (safe.held id (omega (arith, less id, h)));
}

pub grown : (ws vs : List Withdrawal) → IsUnique ws → Moves false ws vs → GrowsUnique false ws vs
grown ws vs u m = (Moves-Grows false ws vs m, IsUnique-Moves false ws vs m u)

claimable-any :
    (id : String) (ws : List Withdrawal)
    → any (is_claimable id) ws ≡ true
    → any (has_id id) ws ≡ true
claimable-any id [] h = absurd (cc)
claimable-any id (w ∷ ws) h = elim (Bool-cases (str_eq w.id id)) [
  | inl named ↦ rw named refl
  | inr other ↦ rw other (claimable-any id ws (rw other at h))
]

-- A claim that matched has matched the row with the id.
pub claimable-found :
    (id : String) (ws : List Withdrawal)
    → IsUnique ws
    → any (is_claimable id) ws ≡ true
    → (r : Withdrawal) × (find (has_id id) ws ≡ some r) × (is_claimable id r ≡ true)
claimable-found id [] u h = absurd (cc)
claimable-found id (w ∷ ws) (alone, u) h = elim (Bool-cases (str_eq w.id id)) [
  | inr other ↦
      let (r, found, c) = claimable-found id ws u (rw other at h) in (r, rw other found, c)
  | inl named ↦ elim (Bool-cases (is_claimable id w)) [
    | inl c ↦ (w, rw named refl, c)
    | inr n ↦
        let again = claimable-any id ws (rw n at h) in
        absurd (let a = rw ((eq_iff w.id id).0 named, again) at alone in cc)
  ]
]
