-- ===== src/Withdrawal/Payout/Amount.antt =====
-- What `approve_and_dispatch` asks the gateway for.
use mathlib.Core.Path.{subst}
use painel_mt_affiliates.Common.{
  ℕ, ◌+◌, ◌-◌, ◌≤◌, ◌≡◌, ◌⊎◌, refl, ap, ◌∙◌, inl, inr, true, Option, none, some, List, ◌∷◌, String,
  find, ltb, Bool-cases, Option-cases, arith,
}
use painel_mt_affiliates.Common.Int.{ℤ, pos, eqb_ℤ}
use painel_mt_affiliates.Withdrawal.Types.{Withdrawal, Store, Transfer, pending}
use painel_mt_affiliates.Withdrawal.Rows.{
  has_id, find_unique, find-update_rows, map_some, update_row, update_rows, update_many,
}
use painel_mt_affiliates.Withdrawal.Manage.{is_external_row}
use painel_mt_affiliates.Withdrawal.Gateway.{
  BalanceResult, TransferResult, check_sufficient_balance,
}
use painel_mt_affiliates.Withdrawal.Approve.{
  claim, claim_row, is_claimable, roll_back, mark_failed, send, settle_accepted, settle_duplicate,
  settle, dispatch, confirm_and_dispatch, approve_and_dispatch, normalize_pix_key_type,
}
use painel_mt_affiliates.Withdrawal.Lifecycle.Steps.{FixedColumns, fixed, IsUnique}
use painel_mt_affiliates.Withdrawal.Payout.Safe.{claimable-found}
use painel_mt_affiliates.Withdrawal.Payout.Once.{with_note-id}
use painel_mt_affiliates.Withdrawal.Lifecycle.Dispatch.{claimable-pending}

-- A payout of the net amount, to the row's key, with a known kind of key and enough balance.
pub record Sends (balance : BalanceResult) (w : FixedColumns) (before after : List Transfer)
    : Type 0 where
  pub cents : ℕ
  pub key_type : String
  pub sent :
      after
      ≡ record {
        withdrawal_id = w.id;
        amount_cents = cents;
        pix_key = w.pix_key;
        pix_key_type = key_type;
      }
        ∷ before
  pub net : cents + w.withdrawal_fee ≡ w.original_amount
  pub some_money : 1 ≤ cents
  pub kind : normalize_pix_key_type w.pix_key_type ≡ some key_type
  pub funded : check_sufficient_balance balance cents ≡ true

settle-transfers :
    (now : ℕ) (provider : String) (w : Withdrawal) (answer : TransferResult) (s : Store)
    → (settle now provider w answer s).1.transfers ≡ s.transfers
unfolding settle settle_duplicate settle_accepted mark_failed update_many
settle-transfers now provider w answer s = ground arith

dispatch-Sends :
    (now : ℕ) (provider : String) (balance : BalanceResult) (gateway : ℕ → TransferResult)
    (w : Withdrawal) (t : String) (s : Store)
    → normalize_pix_key_type w.pix_key_type ≡ some t
    → ((dispatch now provider balance gateway w t s).1.transfers ≡ s.transfers)
      ⊎ Sends balance
          (fixed w)
          s.transfers
          (dispatch now provider balance gateway w t s).1.transfers
unfolding dispatch send roll_back mark_failed update_many
dispatch-Sends now provider balance gateway w t s kind =
    let cents : ℕ = w.original_amount - w.withdrawal_fee in
    elim (Bool-cases (ltb 0 cents)) [
      | inr c ↦ inl (rw c refl)
      | inl c ↦ elim (Bool-cases (check_sufficient_balance balance cents)) [
        | inr b ↦ inl (rw (c, b) refl)
        | inl b ↦
            let least : 1 ≤ cents = ground arith in
            inr (
              rw (c, b)
                (record {
                  cents = cents;
                  key_type = t;
                  sent = settle-transfers now provider w (gateway cents) (send w t cents s);
                  net = omega (arith, least);
                  some_money = least;
                  kind = kind;
                  funded = b;
                }))
      ]
    ]

confirm-Sends :
    (now : ℕ) (provider : String) (amount : ℤ) (balance : BalanceResult)
    (gateway : ℕ → TransferResult) (w : Withdrawal) (s : Store)
    → ((confirm_and_dispatch now provider amount balance gateway w s).1.transfers ≡ s.transfers)
      ⊎ ((eqb_ℤ (pos w.original_amount) amount ≡ true)
          × Sends balance
              (fixed w)
              s.transfers
              (confirm_and_dispatch now provider amount balance gateway w s).1.transfers)
unfolding confirm_and_dispatch roll_back mark_failed update_many
confirm-Sends now provider amount balance gateway w s =
    elim (Bool-cases (eqb_ℤ (pos w.original_amount) amount)) [
      | inr a ↦ inl (rw a refl)
      | inl a ↦ elim (Option-cases (normalize_pix_key_type w.pix_key_type)) [
        | inl t ↦ inl (rw (a, t) refl)
        | inr (t, n) ↦ elim (dispatch-Sends now provider balance gateway w t s n) [
          | inl none_sent ↦ inl (rw (a, n) none_sent)
          | inr sent ↦ inr (rw (a, n) (refl, sent))
        ]
      ]
    ]

eqb_ℤ-eq : (n : ℕ) (a : ℤ) → eqb_ℤ (pos n) a ≡ true → pos n ≡ a
eqb_ℤ-eq n a h = ground arith

pub claim-fixed :
    (now : ℕ) (admin : String) (memo : Option String) (v : Withdrawal)
    → fixed (claim_row admin memo now v) ≡ fixed v
claim-fixed now admin none v = refl
claim-fixed now admin (some n) v = refl

-- the row that is read back after a claim that matched
claimed-row :
    (now : ℕ) (id admin : String) (memo : Option String) (s : Store)
    → IsUnique s.withdrawals
    → (claim now id admin memo s).0 ≡ true
    → (v : Withdrawal) × (find_unique id s ≡ some v)
      × (v.status ≡ pending)
      × (find (has_id id) (claim now id admin memo s).1.withdrawals
          ≡ some (claim_row admin memo now v))
unfolding claim update_many find_unique
claimed-row now id admin memo s u m =
    let (v, found, c) = claimable-found id s.withdrawals u m in
    let f = claim_row admin memo now in
    let seen : find (has_id id) (update_rows (is_claimable id) f s.withdrawals)
        ≡ map_some (update_row (is_claimable id) f) (some v) =
      find-update_rows id (is_claimable id) f s.withdrawals (with_note-id memo)
      ∙ ap (map_some (update_row (is_claimable id) f)) found in
    (v, found, claimable-pending id v c, rw seen (rw c refl))

claim-transfers :
    (now : ℕ) (id admin : String) (memo : Option String) (s : Store)
    → (claim now id admin memo s).1.transfers ≡ s.transfers
unfolding claim update_many
claim-transfers now id admin memo s = refl

-- An approval, with whatever answers of the gateway, either asks it for no payout, or for exactly
-- one: of the pending withdrawal with that id, whose original amount is the one that the admin
-- confirmed, over its original amount less its fee, which is at least a cent and within the
-- gateway's balance, to its key, with its kind of key as the gateway spells it. Ids are unique.
pub approve-Sends :
    (now : ℕ) (provider id admin : String) (memo : Option String) (amount : ℤ)
    (balance : BalanceResult) (gateway : ℕ → TransferResult) (s : Store)
    → IsUnique s.withdrawals
    → ((approve_and_dispatch now provider id admin memo amount balance gateway s).1.transfers
        ≡ s.transfers)
      ⊎ ((v : Withdrawal) × (find_unique id s ≡ some v)
          × (v.status ≡ pending)
          × (pos v.original_amount ≡ amount)
          × Sends balance
              (fixed v)
              s.transfers
              (approve_and_dispatch now provider id admin memo amount balance gateway
                s).1.transfers)
unfolding approve_and_dispatch
approve-Sends now provider id admin memo amount balance gateway s u =
    let s' = (claim now id admin memo s).1 in
    let same = claim-transfers now id admin memo s in
    elim (Bool-cases (is_external_row id s)) [
      | inl e ↦ inl (rw e refl)
      | inr e ↦ elim (Bool-cases (claim now id admin memo s).0) [
        | inr c ↦ inl (rw (e, c) same)
        | inl c ↦
            let (v, found, was, read) = claimed-row now id admin memo s u c in
            let w = claim_row admin memo now v in
            let kept = claim-fixed now admin memo v in
            let confirmed = confirm-Sends now provider amount balance gateway w s' in
            elim confirmed [
              | inl none_sent ↦ inl (rw (e, c, read) (none_sent ∙ same))
              | inr (agreed, sent) ↦
                  let sent' =
                    subst
                      (λ b.
                        Sends balance (fixed w) b
                          (confirm_and_dispatch now provider amount balance gateway w
                            s').1.transfers)
                      same sent in
                  let money = ap (λ f. f.original_amount) kept in
                  inr (
                    rw (e, c, read)
                      ((
                        v,
                        found,
                        was,
                        rw (← money) (eqb_ℤ-eq w.original_amount amount agreed),
                        subst
                            (λ f.
                              Sends balance f s.transfers
                                (confirm_and_dispatch now provider amount balance gateway w
                                  s').1.transfers)
                            kept sent',
                      )))
            ]
      ]
    ]
