-- ===== src/Withdrawal/Lifecycle/Dispatch.antt =====
-- What the approval, with its payout, does to the rows.
use painel_mt_affiliates.Common.{
  ℕ, ◌+◌, ◌-◌, ◌≡◌, refl, inl, inr, Bool, true, Option, none, some, [], ◌∷◌, String, find,
  Bool-cases, Option-cases, ltb,
}
use painel_mt_affiliates.Common.Int.{ℤ, pos, eqb_ℤ}
use painel_mt_affiliates.Withdrawal.Types.{Status, pending, approved, processing, Withdrawal, Store}
use painel_mt_affiliates.Withdrawal.Rows.{status_in, update_many, has_id}
use painel_mt_affiliates.Withdrawal.Manage.{in_status, reload, is_external_row}
use painel_mt_affiliates.Withdrawal.Gateway.{
  BalanceResult, TransferResult, accepted, refused, check_sufficient_balance,
}
use painel_mt_affiliates.Withdrawal.Approve.{
  claim, roll_back, mark_failed, send, settle_duplicate, settle_accepted, settle, dispatch,
  confirm_and_dispatch, approve_and_dispatch, unsent, is_claimable, claim_row, is_claimed,
  unclaim_row, fail_row, duplicate_row, sent_row, is_conflict, normalize_pix_key_type, no_effect,
}
use painel_mt_affiliates.Withdrawal.Lifecycle.Steps
use painel_mt_affiliates.Withdrawal.Lifecycle.Steps.{
  Leads, stays, onwards, fixed, Refunds, Step, IsNew, Moves,
}
use painel_mt_affiliates.Withdrawal.Lifecycle.Growth.{
  Moves-refl, Moves-trans, Moves-update, &&-left, &&-right, may_break, was_status,
}
use painel_mt_affiliates.Withdrawal.Lifecycle.Operations.{with_note-moves, reload-rows}

pub claimable-pending :
    (id : String) (w : Withdrawal) → is_claimable id w ≡ true → w.status ≡ pending
claimable-pending id w h =
    was_status w.status pending (&&-right (has_id id w) _ (&&-left _ (unsent w) h))

pub claimed-approved : (id : String) (w : Withdrawal) → is_claimed id w ≡ true → w.status ≡ approved
claimed-approved id w h =
    was_status w.status approved (&&-right (has_id id w) _ (&&-left _ (unsent w) h))

module _ (b : Bool) where
  abbrev pub OnlyMoves : (Store → Store) → Type 0
  OnlyMoves f = (s : Store) → Moves b s.withdrawals (f s).withdrawals

  pub Moves-claim :
      (now : ℕ) (id admin : String) (note : Option String)
      → OnlyMoves (λ s. (claim now id admin note s).1)
  unfolding claim update_many
  Moves-claim now id admin note s =
      Moves-update b (is_claimable id) (claim_row admin note now)
        (λ w h.
          with_note-moves b
            (λ v. record v {
              status = approved;
              approved_at = some now;
              approved_by = some admin;
              gateway_attempts = w.gateway_attempts + 1;
            })
            note approved w (λ v. (refl, refl, refl))
            (rw (claimable-pending id w h) (onwards Steps.claim stays)))
        s.withdrawals

  pub Moves-roll_back : b ≡ true → (id : String) → OnlyMoves (roll_back id)
  unfolding roll_back update_many
  Moves-roll_back back id s =
      Moves-update b (is_claimed id) unclaim_row
        (λ w h. record {
          keeps = refl;
          leads = rw (claimed-approved id w h) (onwards (Steps.unclaim back) stays);
          refunds = inl refl;
        })
        s.withdrawals

  pub Moves-mark_failed : (provider id reason : String) → OnlyMoves (mark_failed provider id reason)
  unfolding mark_failed update_many
  Moves-mark_failed provider id reason s =
      Moves-update b (in_status id (approved ∷ processing ∷ [])) (fail_row provider reason)
        (λ w h. record {
          keeps = refl;
          leads = may_break b w.status (&&-right (has_id id w) _ h);
          refunds = inl refl;
        })
        s.withdrawals

  duplicate-Step :
      (now : ℕ) (provider : String) (existing : Option String) (w : Withdrawal)
      → w.status ≡ approved
      → Step b w (duplicate_row now provider existing w)
  duplicate-Step now provider none w h = record {
    keeps = refl;
    leads = rw h (onwards Steps.send stays);
    refunds = inl refl;
  }
  duplicate-Step now provider (some e) w h = record {
    keeps = refl;
    leads = rw h (onwards Steps.send stays);
    refunds = inl refl;
  }

  pub Moves-settle_duplicate :
      (now : ℕ) (provider id : String) (existing : Option String)
      → OnlyMoves (settle_duplicate now provider id existing)
  unfolding settle_duplicate update_many
  Moves-settle_duplicate now provider id existing s =
      Moves-update b (is_claimed id) (duplicate_row now provider existing)
        (λ w h. duplicate-Step now provider existing w (claimed-approved id w h)) s.withdrawals

  only_approved : (s : Status) → status_in s (approved ∷ []) ≡ true → Leads b s processing
  only_approved approved h = onwards Steps.send stays
  only_approved _ h = absurd (cc)

  pub Moves-settle_accepted :
      (now : ℕ) (provider id gateway_id gateway_status : String)
      → OnlyMoves (settle_accepted now provider id gateway_id gateway_status)
  unfolding settle_accepted update_many
  Moves-settle_accepted now provider id gateway_id gateway_status s =
      Moves-update b (in_status id (approved ∷ []))
        (sent_row now provider gateway_id gateway_status)
        (λ w h. record {
          keeps = refl;
          leads = only_approved w.status (&&-right (has_id id w) _ h);
          refunds = inl refl;
        })
        s.withdrawals

  pub Moves-settle :
      (now : ℕ) (provider : String) (w : Withdrawal) (answer : TransferResult)
      → OnlyMoves (λ s. (settle now provider w answer s).1)
  unfolding settle
  Moves-settle now provider w (accepted g st) s =
      let s' = settle_accepted now provider w.id g st s in
      let grown = Moves-settle_accepted now provider w.id g st s in
      elim (Option-cases (find (has_id w.id) s'.withdrawals)) [
        | inl e ↦ rw (e, reload) grown
        | inr (v, e) ↦ rw (e, reload) grown
      ]
  Moves-settle now provider w (refused code reason existing) s =
      elim (Bool-cases (is_conflict code)) [
        | inl c ↦ rw c (
            rw
              (reload-rows w.id (settle_duplicate now provider w.id existing s) no_effect
                (λ v. refl))
              (Moves-settle_duplicate now provider w.id existing s))
        | inr c ↦ rw c (Moves-mark_failed provider w.id reason s)
      ]

  pub Moves-dispatch :
      b ≡ true
      → (now : ℕ) (provider : String) (balance : BalanceResult) (gateway : ℕ → TransferResult)
        (w : Withdrawal) (pix_key_type : String)
      → OnlyMoves (λ s. (dispatch now provider balance gateway w pix_key_type s).1)
  unfolding dispatch send
  Moves-dispatch back now provider balance gateway w t s =
      let cents : ℕ = w.original_amount - w.withdrawal_fee in
      elim (Bool-cases (ltb 0 cents)) [
        | inr c ↦ rw c (Moves-mark_failed provider w.id "invalid payload" s)
        | inl c ↦ elim (Bool-cases (check_sufficient_balance balance cents)) [
          | inr b ↦ rw (c, b) (Moves-roll_back back w.id s)
          | inl b ↦ rw (c, b) (Moves-settle now provider w (gateway cents) (send w t cents s))
        ]
      ]

  pub Moves-confirm :
      b ≡ true
      → (now : ℕ) (provider : String) (amount : ℤ) (balance : BalanceResult)
        (gateway : ℕ → TransferResult) (w : Withdrawal)
      → OnlyMoves (λ s. (confirm_and_dispatch now provider amount balance gateway w s).1)
  unfolding confirm_and_dispatch
  Moves-confirm back now provider amount balance gateway w s =
      elim (Bool-cases (eqb_ℤ (pos w.original_amount) amount)) [
        | inr c ↦ rw c (Moves-roll_back back w.id s)
        | inl c ↦ elim (Option-cases (normalize_pix_key_type w.pix_key_type)) [
          | inl t ↦ rw (c, t) (Moves-mark_failed provider w.id "invalid pix key type" s)
          | inr (t, e) ↦ rw (c, e) (Moves-dispatch back now provider balance gateway w t s)
        ]
      ]

  pub Moves-approve :
      b ≡ true
      → (now : ℕ) (provider id admin : String) (note : Option String) (amount : ℤ)
        (balance : BalanceResult) (gateway : ℕ → TransferResult)
      → OnlyMoves
          (λ s. (approve_and_dispatch now provider id admin note amount balance gateway s).1)
  unfolding approve_and_dispatch
  Moves-approve back now provider id admin note amount balance gateway s =
      let s' = (claim now id admin note s).1 in
      let claimed = Moves-claim now id admin note s in
      elim (Bool-cases (is_external_row id s)) [
        | inl e ↦ rw e (Moves-refl b s.withdrawals)
        | inr e ↦ elim (Bool-cases (claim now id admin note s).0) [
          | inr c ↦ rw (e, c) claimed
          | inl c ↦ elim (Option-cases (find (has_id id) s'.withdrawals)) [
            | inl f ↦ rw (e, c, f) claimed
            | inr (w, f) ↦
                rw (e, c, f)
                  (Moves-trans b s.withdrawals s'.withdrawals _ claimed
                    (Moves-confirm back now provider amount balance gateway w s'))
          ]
        ]
      ]
