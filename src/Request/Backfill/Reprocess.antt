-- ===== src/Request/Backfill/Reprocess.antt =====
-- `reprocessRequest` of backend-vexxa/src/modules/link-request/application/
-- link-backfill.service.ts.
use painel_mt_affiliates.Common.{
  ℕ, Bool, true, false, not, ◌||◌, Option, none, some, List, [], ◌++◌, map, String, find, is_some,
  or_else, ◌⊎◌, inl, inr, if◌then◌else◌,
}
use painel_mt_affiliates.Common.Int.{ℤ, pos}
use painel_mt_affiliates.Common.Text.{trim}
use painel_mt_affiliates.Link.Types.{LinkRequest, RequestStatus, request_status_eq, HouseLinkRule}
use painel_mt_affiliates.Link.Dependency.{DependencyCheck, check_required_links}
use painel_mt_affiliates.Pool.Types.{AssignResult, assigned, not_assigned, broken, World, Run}
use painel_mt_affiliates.Pool.Houses.{filled}
use painel_mt_affiliates.Pool.Commit.{request_has_id}
use painel_mt_affiliates.Request.Types.{
  Account, RuleOfHouse, Outcome, blocked, waiting_pool_link, waiting_snapshot, link_assigned,
  LogEntry, of_pool, Desk, Service,
}
use painel_mt_affiliates.Request.Steps.{referrer_of, get_rule, run_service, add_log}
use painel_mt_affiliates.Request.Resolve.{case_of}
use painel_mt_affiliates.Request.Writes.{set_request}
use painel_mt_affiliates.Request.Backfill.{
  Snap, inviter_or, snapped, barred, blocked_status, log_of, resolution,
}
use painel_mt_affiliates.Request.Backfill.Summary.{
  BackfillError, Terms, terms_options, reason_required, no_rule, request_missing, request_fulfilled,
  assignment_failed,
}
use painel_mt_affiliates.Request.Backfill.Run.{backfill_services}

pub record Reprocessed : Type 0 where
  pub status : RequestStatus
  pub outcome : Outcome

abbrev pub Reply : Type 0
Reply = (Reprocessed ⊎ BackfillError) × Desk

-- back to pending, with nothing that blocks it
abbrev pub reopened : ℕ → LinkRequest → LinkRequest
reopened now r = record r {
  status = RequestStatus.pending;
  blocked_reason = some "";
  missing_house_slugs = [];
  updated_at = now;
}

abbrev pub is_rejected : LinkRequest → Bool
is_rejected r = request_status_eq r.status RequestStatus.rejected

abbrev pub status_before : LinkRequest → RequestStatus
status_before r = if is_rejected r then RequestStatus.pending else r.status

module _ (new_url : String → Option (String → Option String)) (w : World) (r : LinkRequest)
    (rule : HouseLinkRule) where
  abbrev pub logged : Outcome → ℤ → RequestStatus → LogEntry
  logged outcome cpa status = record (log_of r r.betting_house_slug outcome) {
    assigned_cpa = some cpa;
    status_before = some r.status;
    status_after = some status;
  }

  abbrev pub reply : Outcome → ℤ → RequestStatus → Desk → Reply
  reply outcome cpa status desk = (
    inl (record { status = status; outcome = outcome }),
    add_log (logged outcome cpa status) desk,
  )

  abbrev pub after_try : Terms → Desk → Run → AssignResult → Reply
  after_try t desk run (assigned a) =
      let d : Desk = record desk { db = run.db; told = desk.told ++ map of_pool run.effects } in
      reply link_assigned t.cpa RequestStatus.fulfilled d
  after_try t desk run (not_assigned reason) =
      let d : Desk = record desk { db = run.db; told = desk.told ++ map of_pool run.effects } in
      reply waiting_pool_link t.cpa (status_before r) d
  after_try t desk run broken =
      let d : Desk = record desk { db = run.db; told = desk.told ++ map of_pool run.effects } in
      (inr assignment_failed, d)

  abbrev pub try_service : Terms → Desk → Option Service → Reply
  try_service t desk none = reply waiting_pool_link t.cpa (status_before r) desk
  try_service t desk (some service) =
      let run = run_service service w r.user_id r.id (terms_options t) desk.db in
      after_try t desk run run.result

  abbrev pub reopen : Desk → Desk
  reopen desk = if is_rejected r then set_request r.id (reopened w.now) desk else desk

  abbrev pub by_links : Bool → DependencyCheck → Terms → Desk → Reply
  by_links false check t desk =
      let e : LogEntry = record (logged blocked t.cpa (blocked_status rule)) {
        required_houses = check.required_houses;
        missing_houses = check.missing_houses;
      } in
      let written = set_request r.id (barred w.now rule check) desk in
      (inl (record { status = blocked_status rule; outcome = blocked }), add_log e written)
  by_links true check t desk =
      try_service t (reopen desk) (case_of r.betting_house_slug (backfill_services new_url))

  abbrev pub with_cpa : Terms → Desk → Reply
  with_cpa t desk =
      let check = check_required_links desk.db.links r.user_id rule in
      by_links check.ok check t desk

  abbrev pub with_resolution : Bool → Snap → Desk → Reply
  with_resolution true snap desk =
      let write = λ (q : LinkRequest). reopened w.now (snapped w.now snap q) in
      reply waiting_snapshot (pos 0) RequestStatus.pending (set_request r.id write desk)
  with_resolution false snap desk =
      let t : Terms = record {
        cpa = snap.cpa;
        revshare = snap.revshare;
        computed = some snap.cpa;
      } in
      with_cpa t (set_request r.id (snapped w.now snap) desk)

module _ (new_url : String → Option (String → Option String)) (w : World) (accounts : List Account)
    (rules : List RuleOfHouse) (recalculate : Bool) where
  abbrev pub reprocess_by : LinkRequest → Desk → Option HouseLinkRule → Reply
  reprocess_by r desk none = (inr no_rule, desk)
  reprocess_by r desk (some rule) =
      let inviter = inviter_or r.inviter_id (referrer_of r.user_id accounts) in
      let snap = resolution r.betting_house_slug rule desk.db r inviter in
      let saved : Terms = record {
        cpa = or_else r.resolved_cpa (pos 0);
        revshare = or_else r.resolved_revshare (pos 0);
        computed = none;
      } in
      if recalculate || not (is_some r.resolved_cpa)
      then with_resolution new_url w r rule snap.hold snap desk
      else with_cpa new_url w r rule saved desk

  abbrev pub reprocess_found : Desk → Option LinkRequest → Reply
  reprocess_found desk none = (inr request_missing, desk)
  reprocess_found desk (some r) =
      if request_status_eq r.status RequestStatus.fulfilled
      then (inr request_fulfilled, desk)
      else reprocess_by r desk (get_rule r.betting_house_slug rules)

  unfoldable pub reprocess_request : String → String → Desk → Reply
  unfolding trim get_rule
  reprocess_request reason id desk =
      if not (filled (trim reason))
      then (inr reason_required, desk)
      else reprocess_found desk (find (request_has_id id) desk.db.requests)
