-- ===== src/Withdrawal/Payout/Once.antt =====
-- However approvals interleave with each other and with the other calls, and wherever they crash,
-- the gateway is asked at most once for the payout of a withdrawal.
use mathlib.Core.Path.{subst}
use painel_mt_affiliates.Common.{
  ℕ, ◌≤◌, ◌≡◌, refl, ap, sym, ◌∙◌, inl, inr, true, false, Option, none, some, List, [], ◌∷◌, String,
  str_eq, eq_iff, any, find, count, Bool-cases, arith, ltb,
}
use painel_mt_affiliates.Withdrawal.Types.{pending, approved, Withdrawal, Store}
use painel_mt_affiliates.Withdrawal.Rows.{
  has_id, update_rows, update_row, update_many, find-update_rows, found-id, map_some,
}
use painel_mt_affiliates.Withdrawal.Manage.{with_note}
use painel_mt_affiliates.Withdrawal.Approve.{
  claim, claim_row, is_claimable, roll_back, is_claimed, unclaim_row, mark_failed, send,
  settle_accepted, settle_duplicate,
}
use painel_mt_affiliates.Withdrawal.Lifecycle.Steps.{IsUnique}
use painel_mt_affiliates.Withdrawal.Lifecycle.Growth.{Moves-Grows, Grows-refl}
use painel_mt_affiliates.Withdrawal.Lifecycle.Identity.{IsUnique-Moves}
use painel_mt_affiliates.Withdrawal.Lifecycle.Dispatch.{
  Moves-claim, Moves-roll_back, Moves-mark_failed, Moves-settle_accepted, Moves-settle_duplicate,
  claimable-pending,
}
use painel_mt_affiliates.Withdrawal.Lifecycle.Theorems.{run-Grows}
use painel_mt_affiliates.Withdrawal.Payout.{
  World, Removes, Next, Reaches, rests, then_next, is_for, times_sent,
}
use painel_mt_affiliates.Withdrawal.Payout.Transfers.{run-transfers}
use painel_mt_affiliates.Withdrawal.Payout.Safe.{
  in_hand, Held, IsSafe, Removes-count, Held-Grows, forward, grown, claimable-found,
}

pub with_note-id : (memo : Option String) (w : Withdrawal) → (with_note memo w).id ≡ w.id
with_note-id none w = refl
with_note-id (some n) w = refl

-- A row that can be claimed is in nobody's hand.
claim-free :
    (w : World) (id : String)
    → IsSafe w
    → any (is_claimable id) w.store.withdrawals ≡ true
    → in_hand id w ≡ 0
claim-free w id safe m = elim (Bool-cases (ltb 0 (in_hand id w))) [
  | inr free ↦ ground arith
  | inl taken ↦
      let (r, found, no_more) = safe.held id (ground arith) in
      let (r', found', c) = claimable-found id w.store.withdrawals safe.unique m in
      let same : r' ≡ r = cc in
      absurd (no_more (ap (λ (x : Withdrawal). x.status) (sym same) ∙ claimable-pending id r' c))
]

-- After a claim the row is approved.
claim-Held :
    (now : ℕ) (id admin : String) (memo : Option String) (ws : List Withdrawal)
    → IsUnique ws
    → any (is_claimable id) ws ≡ true
    → Held id (update_rows (is_claimable id) (claim_row admin memo now) ws)
claim-Held now id admin memo ws u m =
    let (r, found, c) = claimable-found id ws u m in
    let f = claim_row admin memo now in
    let seen : find (has_id id) (update_rows (is_claimable id) f ws)
        ≡ map_some (update_row (is_claimable id) f) (some r) =
      find-update_rows id (is_claimable id) f ws (with_note-id memo)
      ∙ ap (map_some (update_row (is_claimable id) f)) found in
    (f r, rw seen (rw c refl), λ p. absurd (let q : approved ≡ pending = p in cc))

claim-IsSafe :
    (w : World) (now : ℕ) (id admin : String) (memo : Option String)
    → (claim now id admin memo w.store).0 ≡ true
    → IsSafe w
    → IsSafe (record w { store = (claim now id admin memo w.store).1; claims = id ∷ w.claims })
unfolding claim update_many
claim-IsSafe w now id admin memo m safe =
    let ws = w.store.withdrawals in
    let free = claim-free w id safe m in
    let moved = Moves-claim false now id admin memo w.store in
    record {
      unique = IsUnique-Moves false ws _ moved safe.unique;
      single = λ i. elim (Bool-cases (str_eq id i)) [
        | inl same ↦
            let free_too = subst (λ x. in_hand x w ≡ 0) ((eq_iff id i).0 same) free in
            rw same (omega (arith, free_too))
        | inr other ↦ rw other (omega (arith, safe.single i))
      ];
      held = λ i h. elim (Bool-cases (str_eq id i)) [
        | inl same ↦
            subst (λ x. Held x (claim now id admin memo w.store).1.withdrawals)
              ((eq_iff id i).0 same) (claim-Held now id admin memo ws safe.unique m)
        | inr other ↦
            let h' = rw other at h in
            Held-Grows i ws _ (Moves-Grows false ws _ moved) (safe.held i (omega (arith, h')))
      ];
    }

-- A roll-back of another row leaves a row as it is found.
other-Held :
    (i id : String) (ws : List Withdrawal)
    → str_eq id i ≡ false
    → Held i ws
    → Held i (update_rows (is_claimed id) unclaim_row ws)
other-Held i id ws other (r, found, no_more) =
    let seen =
      find-update_rows i (is_claimed id) unclaim_row ws (λ x. refl)
      ∙ ap (map_some (update_row (is_claimed id) unclaim_row)) found in
    (r, rw seen (rw (foreign r (found-id i ws found)) refl), no_more)
  where
    foreign : (r : Withdrawal) → r.id ≡ i → is_claimed id r ≡ false
    foreign r named = elim (Bool-cases (str_eq r.id id)) [
      | inl same ↦
          let e : id ≡ i = sym ((eq_iff r.id id).0 same) ∙ named in
          absurd (let t = (eq_iff id i).1 e in cc)
      | inr no_match ↦ rw no_match refl
    ]

roll_back-IsSafe :
    (w : World) (id : String) (rest : List String)
    → Removes id w.claims rest
    → IsSafe w
    → IsSafe (record w { store = roll_back id w.store; claims = rest })
unfolding roll_back update_many
roll_back-IsSafe w id rest r safe =
    let ws = w.store.withdrawals in
    record {
      unique = IsUnique-Moves true ws _ (Moves-roll_back true refl id w.store) safe.unique;
      single = λ i. omega (arith, Removes-count i r, safe.single i);
      held = λ i h. elim (Bool-cases (str_eq id i)) [
        | inl same ↦
            let c = Removes-count i r in
            let one = rw same at c in absurd (omega (arith, one, safe.single i, h))
        | inr other ↦ other-Held i id ws other (safe.held i (omega (arith, Removes-count i r, h)))
      ];
    }

Next-IsSafe : (w v : World) → Next w v → IsSafe w → IsSafe v
unfolding send mark_failed settle_accepted settle_duplicate
Next-IsSafe w v (Next.calls op plain fresh) safe =
    forward w v
      (run-Grows false op w.store (λ h. absurd (let e = sym plain ∙ h in cc)) safe.unique fresh)
      (λ id. omega (arith, ap (count (is_for id)) (run-transfers op plain w.store))) safe
Next-IsSafe w v (Next.claims now id admin memo m) safe = claim-IsSafe w now id admin memo m safe
Next-IsSafe w v (Next.rolls_back id rest r) safe = roll_back-IsSafe w id rest r safe
Next-IsSafe w v (Next.gives_up provider id reason rest r) safe =
    forward w v
      (grown w.store.withdrawals _ safe.unique (Moves-mark_failed false provider id reason w.store))
      (λ i. omega (arith, Removes-count i r)) safe
Next-IsSafe w v (Next.sends row t cents rest r) safe =
    forward w v (Grows-refl false w.store.withdrawals, safe.unique)
      (λ i. omega (arith, Removes-count i r)) safe
Next-IsSafe w v (Next.is_accepted now provider id g st rest r) safe =
    forward w v
      (grown w.store.withdrawals _ safe.unique
        (Moves-settle_accepted false now provider id g st w.store))
      (λ i. omega arith) safe
Next-IsSafe w v (Next.is_duplicate now provider id existing rest r) safe =
    forward w v
      (grown w.store.withdrawals _ safe.unique
        (Moves-settle_duplicate false now provider id existing w.store))
      (λ i. omega arith) safe
Next-IsSafe w v (Next.is_refused provider id reason rest r) safe =
    forward w v
      (grown w.store.withdrawals _ safe.unique (Moves-mark_failed false provider id reason w.store))
      (λ i. omega arith) safe
Next-IsSafe w v (Next.fires e) safe =
    forward w v (Grows-refl false w.store.withdrawals, safe.unique) (λ i. omega arith) safe
Next-IsSafe w v (Next.breaks_off id rest r) safe =
    forward w v (Grows-refl false w.store.withdrawals, safe.unique)
      (λ i. omega (arith, Removes-count i r)) safe
Next-IsSafe w v (Next.is_unanswered id rest r) safe =
    forward w v (Grows-refl false w.store.withdrawals, safe.unique) (λ i. omega arith) safe

pub Reaches-IsSafe : (w v : World) → Reaches w v → IsSafe w → IsSafe v
Reaches-IsSafe w v rests safe = safe
Reaches-IsSafe w v (then_next {v = u} g n) safe = Next-IsSafe u v n (Reaches-IsSafe w u g safe)

-- From a store with unique ids, with no payout asked for and no approval under way, and however
-- the approvals interleave with each other and with all other calls, and wherever they crash, the
-- gateway is asked at most once for the payout of a withdrawal. New ids must not be in use.
pub sent-once :
    (s : Store) (v : World) (id : String)
    → IsUnique s.withdrawals
    → s.transfers ≡ []
    → Reaches (record { store = s; claims = []; waits = [] }) v
    → times_sent id v.store ≤ 1
sent-once s v id u empty g =
    let w : World = record { store = s; claims = []; waits = [] } in
    let zero_hand : (i : String) → in_hand i w ≡ 0 = λ i. rw empty refl in
    let safe : IsSafe w = record {
      unique = u;
      single = λ i. omega (arith, zero_hand i);
      held = λ i h. absurd (omega (arith, zero_hand i, h));
    } in
    omega (arith, (Reaches-IsSafe w v g safe).single id)
