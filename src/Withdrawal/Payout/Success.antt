-- ===== src/Withdrawal/Payout/Success.antt =====
-- An approval that nothing stands against pays out.

use text.Mathlib.TextPositions.{eq_refl}
use painel_mt_affiliates.Common.{
  ℕ, ◌-◌, ◌<◌, ◌≡◌, refl, ap, sym, ◌∙◌, inl, inr, true, false, Option, none, some, List, [], ◌∷◌,
  String, str_eq, eq_iff, find, any, ltb, Bool-cases, if◌then◌else◌, arith,
}
use painel_mt_affiliates.Common.Int.{pos, eqb_ℤ}
use painel_mt_affiliates.Withdrawal.Types.{
  Withdrawal, Store, Transfer, pending, approved, processing, ok, notify, withdrawal_approved,
  audit, emit_status_changed,
}
use painel_mt_affiliates.Withdrawal.Rows.{
  has_id, fire, find_unique, find-update_rows, found-id, map_some, update_row, update_many,
}
use painel_mt_affiliates.Withdrawal.Manage.{is_external_row, in_status, reload}
use painel_mt_affiliates.Withdrawal.Gateway.{
  BalanceResult, TransferResult, accepted, check_sufficient_balance,
}
use painel_mt_affiliates.Withdrawal.Approve.{
  claim, claim_row, is_claimable, send, sent_row, settle_accepted, settle, dispatch,
  confirm_and_dispatch, approve_and_dispatch, normalize_pix_key_type,
}
use painel_mt_affiliates.Withdrawal.Lifecycle.Steps.{FixedColumns, fixed}
use painel_mt_affiliates.Withdrawal.Payout.Once.{with_note-id}
use painel_mt_affiliates.Withdrawal.Payout.Amount.{claim-fixed}

-- a payout of the original amount less the fee, to the row's key
abbrev pub payout_of : FixedColumns → String → Transfer
payout_of c key_type = record {
  withdrawal_id = c.id;
  amount_cents = c.original_amount - c.withdrawal_fee;
  pix_key = c.pix_key;
  pix_key_type = key_type;
}

settle-read :
    (now : ℕ) (provider g st : String) (w : Withdrawal) (s : Store)
    → find (has_id w.id) s.withdrawals ≡ some w
    → w.status ≡ approved
    → find (has_id w.id) (settle_accepted now provider w.id g st s).withdrawals
      ≡ some (sent_row now provider g st w)
unfolding settle_accepted update_many
settle-read now provider g st w s found was =
    let test = in_status w.id (approved ∷ []) in
    let f = sent_row now provider g st in
    let matches : test w ≡ true = rw (eq_refl w.id, was) refl in
    find-update_rows w.id test f s.withdrawals (λ x. refl)
    ∙ ap (map_some (update_row test f)) found
    ∙ ap (λ b. some (if b then f w else w)) matches

settle_accepted-transfers :
    (now : ℕ) (provider id g st : String) (s : Store)
    → (settle_accepted now provider id g st s).transfers ≡ s.transfers
unfolding settle_accepted update_many
settle_accepted-transfers now provider id g st s = refl

abbrev after_accepted : ℕ → String → String → String → Withdrawal → Store → Store
after_accepted now provider g st w s = fire (emit_status_changed w.id processing (some pending)) (
    fire (notify w.user_id withdrawal_approved)
      (fire (audit w.id) (settle_accepted now provider w.id g st s)))

settle-accepted :
    (now : ℕ) (provider g st : String) (w : Withdrawal) (s : Store)
    → find (has_id w.id) s.withdrawals ≡ some w
    → w.status ≡ approved
    → settle now provider w (accepted g st) s
      ≡ (ok (sent_row now provider g st w), after_accepted now provider g st w s)
unfolding settle
settle-accepted now provider g st w s found was =
    rw (settle-read now provider g st w s found was, reload) refl

-- A claimed row, with the amount confirmed.
confirm-accepted :
    (now : ℕ) (provider : String) (balance : BalanceResult) (gateway : ℕ → TransferResult)
    (w : Withdrawal) (t g st : String) (s : Store)
    → find (has_id w.id) s.withdrawals ≡ some w
    → w.status ≡ approved
    → normalize_pix_key_type w.pix_key_type ≡ some t
    → ltb 0 (w.original_amount - w.withdrawal_fee) ≡ true
    → check_sufficient_balance balance (w.original_amount - w.withdrawal_fee) ≡ true
    → gateway (w.original_amount - w.withdrawal_fee) ≡ accepted g st
    → (s' : Store) × (confirm_and_dispatch now provider (pos w.original_amount) balance gateway w s
        ≡ (ok (sent_row now provider g st w), s'))
      × (find (has_id w.id) s'.withdrawals ≡ some (sent_row now provider g st w))
      × (s'.transfers ≡ payout_of (fixed w) t ∷ s.transfers)
unfolding confirm_and_dispatch dispatch send
confirm-accepted now provider balance gateway w t g st s found was kind some_money funded answer =
    let cents : ℕ = w.original_amount - w.withdrawal_fee in
    let sent = send w t cents s in
    let read = settle-read now provider g st w sent found was in
    let agreed : eqb_ℤ (pos w.original_amount) (pos w.original_amount) ≡ true = ground arith in
    (
      after_accepted now provider g st w sent,
      rw (agreed, kind, some_money, funded, answer)
          (settle-accepted now provider g st w sent found was),
      read,
      settle_accepted-transfers now provider w.id g st sent,
    )

found-any :
    (id : String) (ws : List Withdrawal) (v : Withdrawal)
    → find (has_id id) ws ≡ some v
    → is_claimable id v ≡ true
    → any (is_claimable id) ws ≡ true
found-any id [] v e c = absurd (cc)
found-any id (w ∷ ws) v e c = elim (Bool-cases (str_eq w.id id)) [
  | inl here ↦
      let found : some w ≡ some v = rw here at e in
      let same : v ≡ w = cc in rw (ap (is_claimable id) (sym same) ∙ c) refl
  | inr there ↦ rw there (found-any id ws v (rw there at e) c)
]

claim-read :
    (now : ℕ) (id admin : String) (memo : Option String) (s : Store) (v : Withdrawal)
    → find (has_id id) s.withdrawals ≡ some v
    → is_claimable id v ≡ true
    → ((claim now id admin memo s).0 ≡ true)
      × (find (has_id id) (claim now id admin memo s).1.withdrawals
          ≡ some (claim_row admin memo now v))
      × ((claim now id admin memo s).1.transfers ≡ s.transfers)
unfolding claim update_many
claim-read now id admin memo s v found c =
    let f = claim_row admin memo now in
    (
      found-any id s.withdrawals v found c,
      find-update_rows id (is_claimable id) f s.withdrawals (with_note-id memo)
          ∙ ap (map_some (update_row (is_claimable id) f)) found
          ∙ ap (λ b. some (if b then f v else v)) c,
      refl,
    )

-- An approval of a pending, unsent withdrawal of an internal affiliate, with the amount that is
-- stored, a known kind of key, a fee below the amount and enough balance at the gateway, succeeds
-- when the gateway accepts: the row that is returned is the one that is stored, in processing,
-- under the gateway's id and with its other columns kept, and the gateway was asked for exactly
-- one payout, of the original amount less the fee to the row's key.
pub approve_accepted :
    (now : ℕ) (provider id admin : String) (memo : Option String) (balance : BalanceResult)
    (gateway : ℕ → TransferResult) (s : Store) (v : Withdrawal) (t g st : String)
    → find_unique id s ≡ some v
    → v.status ≡ pending
    → v.gateway_id ≡ none
    → is_external_row id s ≡ false
    → normalize_pix_key_type v.pix_key_type ≡ some t
    → v.withdrawal_fee < v.original_amount
    → check_sufficient_balance balance (v.original_amount - v.withdrawal_fee) ≡ true
    → gateway (v.original_amount - v.withdrawal_fee) ≡ accepted g st
    → (r : Withdrawal) × (s' : Store) × (approve_and_dispatch now provider id admin memo
          (pos v.original_amount)
          balance
          gateway
          s
        ≡ (ok r, s'))
      × (find_unique id s' ≡ some r)
      × (r.status ≡ processing)
      × (r.gateway_id ≡ some g)
      × (fixed r ≡ fixed v)
      × (s'.transfers ≡ payout_of (fixed v) t ∷ s.transfers)
unfolding approve_and_dispatch find_unique
approve_accepted now provider id admin memo balance gateway s v t g st found was unsent_ internal
      kind less funded answer =
    let named = found-id id s.withdrawals found in
    let claimable : is_claimable id v ≡ true = rw ((eq_iff v.id id).1 named, was, unsent_) refl in
    let (matched, read, quiet) = claim-read now id admin memo s v found claimable in
    let s1 = (claim now id admin memo s).1 in
    let w = claim_row admin memo now v in
    let kept = claim-fixed now admin memo v in
    let own : w.id ≡ id = ap (λ c. c.id) kept ∙ named in
    let money = ap (λ c. c.original_amount) kept in
    let net = ap (λ c. c.original_amount - c.withdrawal_fee) kept in
    let (s', done, stored, sent) =
      confirm-accepted now provider balance gateway w t g st s1
        (ap (λ i. find (has_id i) s1.withdrawals) own ∙ read) refl
        (ap (λ c. normalize_pix_key_type c.pix_key_type) kept ∙ kind)
        (ap (ltb 0) net ∙ ground (arith, less)) (ap (check_sufficient_balance balance) net ∙ funded)
        (ap gateway net ∙ answer) in
    (
      sent_row now provider g st w,
      s',
      rw (internal, matched, read)
          (ap (λ a. confirm_and_dispatch now provider (pos a) balance gateway w s1) (sym money)
            ∙ done),
      ap (λ i. find (has_id i) s'.withdrawals) (sym own) ∙ stored,
      refl,
      refl,
      kept,
      sent
          ∙ ap (λ c. payout_of c t ∷ s1.transfers) kept
          ∙ ap (λ ts. payout_of (fixed v) t ∷ ts) quiet,
    )
