-- ===== src/Withdrawal/Payout/Runs.antt =====
-- `approve_and_dispatch` in one go is a run of the interleaved steps.
use mathlib.Core.Path.{subst}
use painel_mt_affiliates.Common.{
  ℕ, ◌-◌, ◌≡◌, refl, ap, sym, inl, inr, Bool, false, Option, some, List, [], ◌∷◌, String, find, any,
  ltb, Bool-cases, Option-cases,
}
use painel_mt_affiliates.Common.Int.{ℤ, pos, eqb_ℤ}
use painel_mt_affiliates.Withdrawal.Types.{
  Withdrawal, Store, notify, withdrawal_failed, withdrawal_approved, audit, emit_status_changed,
  pending,
}
use painel_mt_affiliates.Withdrawal.Rows.{has_id, fire, found-id, update_rows, update_many}
use painel_mt_affiliates.Withdrawal.Manage.{is_external_row, reload}
use painel_mt_affiliates.Withdrawal.Gateway.{
  BalanceResult, TransferResult, accepted, refused, check_sufficient_balance,
}
use painel_mt_affiliates.Withdrawal.Approve.{
  claim, claim_row, is_claimable, send, settle_accepted, settle_duplicate, settle, dispatch,
  confirm_and_dispatch, approve_and_dispatch, normalize_pix_key_type, is_conflict,
}
use painel_mt_affiliates.Withdrawal.Lifecycle.Steps.{
  Operation, do_create, do_create_external, do_update_status, do_mark_paid, do_set_external,
  do_approve, do_webhook, do_reconcile, run, run_all, IsFresh, AreFresh,
}
use painel_mt_affiliates.Withdrawal.Payout.{World, here, Next, Reaches, rests, then_next}

pub Reaches-trans : (u v w : World) → Reaches u v → Reaches v w → Reaches u w
Reaches-trans u v w g rests = g
Reaches-trans u v w g (then_next {v = x} h n) = then_next (Reaches-trans u v x g h) n

-- An update that matches no row changes none.
none-matched :
    (test : Withdrawal → Bool) (f : Withdrawal → Withdrawal) (ws : List Withdrawal)
    → any test ws ≡ false
    → update_rows test f ws ≡ ws
unfolding update_rows
none-matched test f [] h = refl
none-matched test f (w ∷ ws) h = elim (Bool-cases (test w)) [
  | inl t ↦ absurd (let e = rw t at h in cc)
  | inr t ↦ rw t (ap (λ vs. w ∷ vs) (none-matched test f ws (rw t at h)))
]

module _ (claims waits : List String) where
  abbrev at : Store → World
  at s = record { store = s; claims = claims; waits = waits }

  -- holding the claim of a withdrawal
  abbrev holding : String → Store → World
  holding id s = record { store = s; claims = id ∷ claims; waits = waits }

  abbrev waiting : String → Store → World
  waiting id s = record { store = s; claims = claims; waits = id ∷ waits }

  settle-Reaches :
      (now : ℕ) (provider : String) (w : Withdrawal) (answer : TransferResult) (s : Store)
      → Reaches (waiting w.id s) (at (settle now provider w answer s).1)
  unfolding settle
  settle-Reaches now provider w (accepted g st) s =
      let s' = settle_accepted now provider w.id g st s in
      let s'' = fire (notify w.user_id withdrawal_approved) (fire (audit w.id) s') in
      let run : Reaches (waiting w.id s) (at s'') =
        then_next
          (then_next (then_next rests (Next.is_accepted now provider w.id g st waits here))
            (Next.fires (audit w.id)))
          (Next.fires (notify w.user_id withdrawal_approved)) in
      elim (Option-cases (find (has_id w.id) s'.withdrawals)) [
        | inl e ↦ rw (e, reload) run
        | inr (v, e) ↦
            rw (e, reload)
              (then_next run (Next.fires (emit_status_changed v.id v.status (some pending))))
      ]
  settle-Reaches now provider w (refused code reason existing) s =
      elim (Bool-cases (is_conflict code)) [
        | inl c ↦
            let s' = settle_duplicate now provider w.id existing s in
            let run : Reaches (waiting w.id s) (at s') =
              then_next rests (Next.is_duplicate now provider w.id existing waits here) in
            rw c (elim (Option-cases (find (has_id w.id) s'.withdrawals)) [
              | inl e ↦ rw (e, reload) run
              | inr (v, e) ↦ rw (e, reload) run
            ])
        | inr c ↦ rw c (
            then_next
              (then_next (then_next rests (Next.is_refused provider w.id reason waits here))
                (Next.fires (notify w.user_id withdrawal_failed)))
              (Next.fires (audit w.id)))
      ]

  dispatch-Reaches :
      (now : ℕ) (provider : String) (balance : BalanceResult) (gateway : ℕ → TransferResult)
      (w : Withdrawal) (t : String) (s : Store)
      → Reaches (holding w.id s) (at (dispatch now provider balance gateway w t s).1)
  unfolding dispatch
  dispatch-Reaches now provider balance gateway w t s =
      let cents : ℕ = w.original_amount - w.withdrawal_fee in
      elim (Bool-cases (ltb 0 cents)) [
        | inr c ↦ rw c (then_next rests (Next.gives_up provider w.id "invalid payload" claims here))
        | inl c ↦ elim (Bool-cases (check_sufficient_balance balance cents)) [
          | inr b ↦ rw (c, b) (then_next rests (Next.rolls_back w.id claims here))
          | inl b ↦
              rw (c, b)
                (Reaches-trans (holding w.id s) (waiting w.id (send w t cents s)) _
                  (then_next rests (Next.sends w t cents claims here))
                  (settle-Reaches now provider w (gateway cents) (send w t cents s)))
        ]
      ]

  confirm-Reaches :
      (now : ℕ) (provider : String) (amount : ℤ) (balance : BalanceResult)
      (gateway : ℕ → TransferResult) (w : Withdrawal) (s : Store)
      → Reaches
          (holding w.id s)
          (at (confirm_and_dispatch now provider amount balance gateway w s).1)
  unfolding confirm_and_dispatch
  confirm-Reaches now provider amount balance gateway w s =
      elim (Bool-cases (eqb_ℤ (pos w.original_amount) amount)) [
        | inr a ↦ rw a (then_next rests (Next.rolls_back w.id claims here))
        | inl a ↦ elim (Option-cases (normalize_pix_key_type w.pix_key_type)) [
          | inl t ↦
              rw (a, t)
                (then_next rests (Next.gives_up provider w.id "invalid pix key type" claims here))
          | inr (t, n) ↦ rw (a, n) (dispatch-Reaches now provider balance gateway w t s)
        ]
      ]

  missed :
      (now : ℕ) (id admin : String) (memo : Option String) (s : Store)
      → (claim now id admin memo s).0 ≡ false
      → Reaches (at s) (at (claim now id admin memo s).1)
  unfolding claim update_many
  missed now id admin memo s c =
      rw (none-matched (is_claimable id) (claim_row admin memo now) s.withdrawals c) rests

  pub approve-Reaches :
      (now : ℕ) (provider id admin : String) (memo : Option String) (amount : ℤ)
      (balance : BalanceResult) (gateway : ℕ → TransferResult) (s : Store)
      → Reaches
          (at s)
          (at (approve_and_dispatch now provider id admin memo amount balance gateway s).1)
  unfolding approve_and_dispatch
  approve-Reaches now provider id admin memo amount balance gateway s =
      let s' = (claim now id admin memo s).1 in
      elim (Bool-cases (is_external_row id s)) [
        | inl e ↦ rw e rests
        | inr e ↦ elim (Bool-cases (claim now id admin memo s).0) [
          | inr c ↦ rw (e, c) (missed now id admin memo s c)
          | inl c ↦
              let claimed : Reaches (at s) (holding id s') =
                then_next rests (Next.claims now id admin memo c) in
              elim (Option-cases (find (has_id id) s'.withdrawals)) [
                | inl f ↦ rw (e, c, f) (then_next claimed (Next.breaks_off id claims here))
                | inr (w, f) ↦
                    let held =
                      subst (λ i. Reaches (at s) (holding i s'))
                        (sym (found-id id s'.withdrawals f)) claimed in
                    rw (e, c, f)
                      (Reaches-trans (at s) (holding w.id s') _ held
                        (confirm-Reaches now provider amount balance gateway w s'))
              ]
        ]
      ]

-- Every call of the service, in one go, is a run of the interleaved steps.
pub run-Reaches :
    (op : Operation) (claims waits : List String) (s : Store)
    → IsFresh op s
    → Reaches (at claims waits s) (at claims waits (run op s))
unfolding run
run-Reaches (do_approve now provider id admin memo amount balance gateway) claims waits s f =
    approve-Reaches claims waits now provider id admin memo amount balance gateway s
run-Reaches (do_create env id user dto) claims waits s f =
    then_next rests (Next.calls (do_create env id user dto) refl f)
run-Reaches (do_create_external env id user pix dto) claims waits s f =
    then_next rests (Next.calls (do_create_external env id user pix dto) refl f)
run-Reaches (do_update_status now id admin yes_ memo) claims waits s f =
    then_next rests (Next.calls (do_update_status now id admin yes_ memo) refl f)
run-Reaches (do_mark_paid now id admin memo) claims waits s f =
    then_next rests (Next.calls (do_mark_paid now id admin memo) refl f)
run-Reaches (do_set_external id owners target memo) claims waits s f =
    then_next rests (Next.calls (do_set_external id owners target memo) refl f)
run-Reaches (do_webhook now provider p) claims waits s f =
    then_next rests (Next.calls (do_webhook now provider p) refl f)
run-Reaches (do_reconcile now provider query) claims waits s f =
    then_next rests (Next.calls (do_reconcile now provider query) refl f)

-- Any sequence of the service's calls, each in one go, is a run of the interleaved steps, from and
-- to a world with the same approvals under way: what holds of the steps holds of the calls. New
-- ids must not be in use.
pub run_all-Reaches :
    (ops : List Operation) (claims waits : List String) (s : Store)
    → AreFresh ops s
    → Reaches
        (record { store = s; claims = claims; waits = waits })
        (record { store = run_all ops s; claims = claims; waits = waits })
unfolding run_all
run_all-Reaches [] claims waits s f = rests
run_all-Reaches (op ∷ ops) claims waits s (f, fs) =
    Reaches-trans (at claims waits s) (at claims waits (run op s)) _
      (run-Reaches op claims waits s f) (run_all-Reaches ops claims waits (run op s) fs)
