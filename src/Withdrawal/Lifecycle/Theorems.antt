-- ===== src/Withdrawal/Lifecycle/Theorems.antt =====
-- What holds of the withdrawals across any sequence of the service's calls.
use mathlib.Core.Path.{subst}
use painel_mt_affiliates.Common.{
  ◌≤◌, ◌≡◌, refl, ap, sym, ◌∙◌, inl, inr, Bool, true, false, some, List, [], ◌∷◌, String, All,
}
use painel_mt_affiliates.Withdrawal.Types.{
  Status, pending, approved, rejected, processing, completed, failed, Withdrawal, Store,
}
use painel_mt_affiliates.Withdrawal.Rows.{status_in, find_unique}
use painel_mt_affiliates.Withdrawal.Lifecycle.Steps.{
  Leads, stays, onwards, fixed, Step, IsNew, Moves, Grows, IsUnique, IsSound, Operation, do_create,
  do_create_external, do_update_status, do_mark_paid, do_set_external, do_approve, do_webhook,
  do_reconcile, run, run_all, IsFresh, AreFresh, is_plain,
}
use painel_mt_affiliates.Withdrawal.Lifecycle.Growth.{
  found-Grows, Grows-refl, Grows-trans, Moves-Grows,
}
use painel_mt_affiliates.Withdrawal.Lifecycle.Identity.{IsUnique-Moves}
use painel_mt_affiliates.Withdrawal.Lifecycle.Entries.{
  GrowsUnique, Grows-create, Grows-create_external,
}
use painel_mt_affiliates.Withdrawal.Lifecycle.Operations.{
  Moves-update_status, Moves-mark_paid, Moves-set_external,
}
use painel_mt_affiliates.Withdrawal.Lifecycle.Dispatch.{Moves-approve}
use painel_mt_affiliates.Withdrawal.Lifecycle.Notices.{Moves-webhook, Moves-reconcile}

-- One call; without the approval no status leads back.
module _ (b : Bool) where
  moves : (ws vs : List Withdrawal) → IsUnique ws → Moves b ws vs → GrowsUnique b ws vs
  moves ws vs u h = (Moves-Grows b ws vs h, IsUnique-Moves b ws vs h u)

  pub run-Grows :
      (op : Operation) (s : Store)
      → (is_plain op ≡ false → b ≡ true)
      → IsUnique s.withdrawals
      → IsFresh op s
      → GrowsUnique b s.withdrawals (run op s).withdrawals
  unfolding run
  run-Grows (do_create env id user dto) s h u f = Grows-create b env id user dto s u f
  run-Grows (do_create_external env id user pix dto) s h u f =
      Grows-create_external b env id user dto s u f pix
  run-Grows (do_update_status now id admin yes_ memo) s h u f =
      moves s.withdrawals _ u (Moves-update_status b now id admin yes_ memo s)
  run-Grows (do_mark_paid now id admin memo) s h u f =
      moves s.withdrawals _ u (Moves-mark_paid b now id admin memo s)
  run-Grows (do_set_external id owners target memo) s h u f =
      moves s.withdrawals _ u (Moves-set_external b id owners target memo s)
  run-Grows (do_approve now provider id admin memo amount balance gateway) s h u f =
      moves s.withdrawals _ u
        (Moves-approve b (h refl) now provider id admin memo amount balance gateway s)
  run-Grows (do_webhook now provider p) s h u f =
      moves s.withdrawals _ u (Moves-webhook b now provider p s u)
  run-Grows (do_reconcile now provider query) s h u f =
      moves s.withdrawals _ u (Moves-reconcile b now provider query s u)

-- Whatever calls follow each other, every row stays at its place with its fixed columns (id,
-- owner, house, amounts, key, time), its status moves along the diagram, its refund stays or is
-- at most the original amount, the rows behind them come from new ones, and ids stay unique.
-- New ids must not be in use, and the ids that are there must be unique.
pub run_all-Grows :
    (ops : List Operation) (s : Store)
    → IsUnique s.withdrawals
    → AreFresh ops s
    → Grows true s.withdrawals (run_all ops s).withdrawals × IsUnique (run_all ops s).withdrawals
unfolding run_all
run_all-Grows [] s u f = (Grows-refl true s.withdrawals, u)
run_all-Grows (op ∷ ops) s u (f, fs) =
    let (g, u') = run-Grows true op s (λ _. refl) u f in
    let (gs, u'') = run_all-Grows ops (run op s) u' fs in
    (
      Grows-trans true s.withdrawals (run op s).withdrawals (run_all ops (run op s)).withdrawals g
          gs,
      u'',
    )

abbrev pub final : List Status
final = completed ∷ rejected ∷ failed ∷ []

final-stays : (s t : Status) → status_in s final ≡ true → Leads true s t → t ≡ s
final-stays s t h stays = refl
final-stays completed t h (onwards e l) = elim e [ ]
final-stays rejected t h (onwards e l) = elim e [ ]
final-stays failed t h (onwards e l) = elim e [ ]
final-stays pending t h (onwards e l) = absurd (cc)
final-stays approved t h (onwards e l) = absurd (cc)
final-stays processing t h (onwards e l) = absurd (cc)

-- A withdrawal that is completed, rejected or failed keeps that status, and its amounts, whatever
-- calls follow: no webhook, approval or manual change takes it out. The ids that are there must be
-- unique, and new ids must not be in use.
pub run_all-final :
    (ops : List Operation) (s : Store) (id : String) (w : Withdrawal)
    → IsUnique s.withdrawals
    → AreFresh ops s
    → find_unique id s ≡ some w
    → status_in w.status final ≡ true
    → (v : Withdrawal) × (find_unique id (run_all ops s) ≡ some v)
      × (v.status ≡ w.status)
      × (fixed v ≡ fixed w)
unfolding find_unique
run_all-final ops s id w u f e h =
    let (g, _) = run_all-Grows ops s u f in
    let (v, found, step) = found-Grows true id s.withdrawals (run_all ops s).withdrawals w g e in
    (v, found, final-stays w.status v.status h step.leads, step.keeps)

IsSound-Step : (w v : Withdrawal) → IsSound w → Step true w v → IsSound v
IsSound-Step w v h s =
    let net = ap (λ c. c.amount) s.keeps in
    let fee = ap (λ c. c.withdrawal_fee) s.keeps in
    let original = ap (λ c. c.original_amount) s.keeps in
    record {
      split = rw (net, fee, original) h.split;
      refund = λ r e. rw original (elim s.refunds [
        | inl same ↦ h.refund r (sym same ∙ e)
        | inr (r', e', le) ↦ let eq : r' ≡ r = cc in subst (λ n. n ≤ w.original_amount) eq le
      ]);
    }

new-IsSound : (w : Withdrawal) → IsNew w → IsSound w
new-IsSound w n = record {
  split = n.split;
  refund = λ r e. absurd (let e' = sym n.unrefunded ∙ e in cc);
}

IsSound-Grows : (ws vs : List Withdrawal) → Grows true ws vs → All IsSound ws → All IsSound vs
IsSound-Grows [] [] g h = tt
IsSound-Grows [] (v ∷ vs) ((w, new, s), g) h =
    (IsSound-Step w v (new-IsSound w new) s, IsSound-Grows [] vs g tt)
IsSound-Grows (w ∷ ws) [] g h = absurd g
IsSound-Grows (w ∷ ws) (v ∷ vs) (s, g) (sound, h) =
    (IsSound-Step w v sound s, IsSound-Grows ws vs g h)

-- If in every row net amount and fee make up the original amount and the refund is at most the
-- original amount, then so it is after any sequence of calls. The ids that are there must be
-- unique, and new ids must not be in use.
pub run_all-IsSound :
    (ops : List Operation) (s : Store)
    → IsUnique s.withdrawals
    → AreFresh ops s
    → All IsSound s.withdrawals
    → All IsSound (run_all ops s).withdrawals
run_all-IsSound ops s u f h =
    IsSound-Grows s.withdrawals (run_all ops s).withdrawals (run_all-Grows ops s u f).0 h
