-- ===== src/Request/Backfill/Run.antt =====
-- `runBackfill` and `processCandidate` of backend-vexxa/src/modules/link-request/application/
-- link-backfill.service.ts. Whether the lock of the house is free is an argument.
use painel_mt_affiliates.Common.{
  ℕ, suc, Bool, true, false, not, ◌&&◌, Option, none, some, List, [], ◌∷◌, ◌++◌, map, String,
  str_eq, any, filter, take, is_some, or_else, ◌⊎◌, inl, inr, if◌then◌else◌,
}
use painel_mt_affiliates.Common.Int.{pos}
use painel_mt_affiliates.Common.Sets.{mem}
use painel_mt_affiliates.Common.Text.{trim}
use painel_mt_affiliates.Link.Types.{LinkRequest, HouseLinkRule, is_real_active_link_row}
use painel_mt_affiliates.Link.Dependency.{DependencyCheck, check_required_links}
use painel_mt_affiliates.Pool.Types.{AssignResult, assigned, not_assigned, broken, World, Run}
use painel_mt_affiliates.Pool.Houses.{filled, superbet, betano, betnacional, hiperbet, esportiva}
use painel_mt_affiliates.Pool.Commit.{is_pending}
use painel_mt_affiliates.Pool.Backfill.{sort_by_time}
use painel_mt_affiliates.Request.Types.{
  Account, RuleOfHouse, Outcome, waiting_pool_link, waiting_snapshot, link_assigned, LogEntry,
  of_pool, Desk, Service, in_order,
}
use painel_mt_affiliates.Request.Steps.{
  is_real_link_in, referrer_of, get_rule, run_service, add_log,
}
use painel_mt_affiliates.Request.Resolve.{case_of}
use painel_mt_affiliates.Request.Writes.{set_request}
use painel_mt_affiliates.Request.Backfill.{
  Snap, inviter_or, snapped, barred, log_of, log_blocked, resolution, resolve_or_preserve,
}
use painel_mt_affiliates.Request.Backfill.Runs.{BackfillRun, RunTable, open_run, close_run}
use painel_mt_affiliates.Request.Backfill.Summary.{
  BackfillOptions, WouldOutcome, BackfillSummary, BackfillError, Progress, empty_summary,
  difference, preview_of, previewed, Terms, terms_options, would_wait_snapshot, would_block,
  would_assign_or_wait, would_wait_pool, reason_required, no_rule, house_inactive, already_running,
}

module _ (new_url : String → Option (String → Option String)) where
  abbrev pub backfill_services : List (String × Service)
  backfill_services =
      ("superbet", in_order (superbet new_url))
      ∷ ("betnacional", in_order (betnacional new_url))
      ∷ ("hiperbet", in_order (hiperbet new_url))
      ∷ ("betano", in_order (betano new_url))
      ∷ ("esportivabet", in_order (esportiva new_url))
      ∷ []

  module _ (house : String) (rule : HouseLinkRule) (accounts : List Account) where
    -- An exception of the assignment is counted, and nothing is logged.
    abbrev pub after_assignment : LinkRequest → Terms → Progress → Run → AssignResult → Progress
    after_assignment r t p run (assigned a) =
        let e : LogEntry = record (log_of r house link_assigned) { assigned_cpa = some t.cpa } in
        let d : Desk = record p.desk {
          db = run.db;
          told = p.desk.told ++ map of_pool run.effects;
        } in
        record {
          desk = add_log e d;
          summary = record p.summary { processed = suc p.summary.processed };
        }
    after_assignment r t p run (not_assigned reason) =
        let e : LogEntry = record (log_of r house waiting_pool_link) {
          assigned_cpa = some t.cpa;
        } in
        let d : Desk = record p.desk {
          db = run.db;
          told = p.desk.told ++ map of_pool run.effects;
        } in
        record {
          desk = add_log e d;
          summary = record p.summary { waiting_pool = suc p.summary.waiting_pool };
        }
    after_assignment r t p run broken = record {
      desk = record p.desk { db = run.db; told = p.desk.told ++ map of_pool run.effects };
      summary = record p.summary { errors = suc p.summary.errors };
    }

    abbrev pub assign : World → LinkRequest → Terms → Progress → Option Service → Progress
    assign w r t p none =
        let e : LogEntry = record (log_of r house waiting_pool_link) {
          assigned_cpa = some t.cpa;
        } in
        record {
          desk = add_log e p.desk;
          summary = record p.summary { waiting_pool = suc p.summary.waiting_pool };
        }
    assign w r t p (some service) =
        let run = run_service service w r.user_id r.id (terms_options t) p.desk.db in
        after_assignment r t p run run.result

    abbrev pub would_assign : Option Service → WouldOutcome
    would_assign none = would_wait_pool
    would_assign (some service) = would_assign_or_wait

    -- after the CPA: by whether the required links are there, and whether the run is dry
    abbrev pub with_links :
        Bool → Bool → World → LinkRequest → Terms → DependencyCheck → Progress → Progress
    with_links false true w r t check p =
        let s : BackfillSummary = record p.summary { blocked = suc p.summary.blocked } in
        let item = preview_of r t.computed none would_block check.missing_houses in
        record { desk = p.desk; summary = previewed item s }
    with_links false false w r t check p = record {
      desk =
          add_log (log_blocked r house rule check)
            (set_request r.id (barred w.now rule check) p.desk);
      summary = record p.summary { blocked = suc p.summary.blocked };
    }
    with_links true true w r t check p =
        let item =
          preview_of r t.computed (difference r.resolved_cpa t.computed)
            (would_assign (case_of house backfill_services)) [] in
        record { desk = p.desk; summary = previewed item p.summary }
    with_links true false w r t check p = assign w r t p (case_of house backfill_services)

    abbrev pub with_terms : Bool → World → LinkRequest → Terms → Progress → Progress
    with_terms dry w r t p =
        let check = check_required_links p.desk.db.links r.user_id rule in
        with_links check.ok dry w r t check p

    -- after a new resolution: by whether it is held, and whether the run is dry
    abbrev pub with_snap : Bool → Bool → World → LinkRequest → Snap → Progress → Progress
    with_snap true true w r snap p =
        let s : BackfillSummary = record p.summary { waiting_pool = suc p.summary.waiting_pool } in
        let item = preview_of r none none would_wait_snapshot [] in
        record { desk = p.desk; summary = previewed item s }
    with_snap true false w r snap p =
        let e : LogEntry = record (log_of r house waiting_snapshot) {
          assigned_cpa = some (pos 0);
        } in
        record {
          desk = add_log e (set_request r.id (snapped w.now snap) p.desk);
          summary = record p.summary { waiting_pool = suc p.summary.waiting_pool };
        }
    with_snap false dry w r snap p =
        let t : Terms = record {
          cpa = snap.cpa;
          revshare = snap.revshare;
          computed = some snap.cpa;
        } in
        let d = if dry then p.desk else set_request r.id (snapped w.now snap) p.desk in
        with_terms dry w r t (record p { desk = d })

    abbrev pub skip : Bool → LinkRequest → Progress → Progress
    skip dry r p =
        let d = if dry then p.desk else add_log (log_of r house Outcome.skipped) p.desk in
        record { desk = d; summary = record p.summary { skipped = suc p.summary.skipped } }

    abbrev pub price_candidate : BackfillOptions → World → LinkRequest → Progress → Progress
    price_candidate opts w r p =
        let inviter = inviter_or r.inviter_id (referrer_of r.user_id accounts) in
        let snap =
          if opts.force_recalculate
          then resolution house rule p.desk.db r inviter
          else resolve_or_preserve house rule p.desk.db r inviter in
        let saved : Terms = record {
          cpa = or_else r.resolved_cpa (pos 0);
          revshare = or_else r.resolved_revshare (pos 0);
          computed = none;
        } in
        if is_some r.resolved_cpa && not opts.force_recalculate
        then with_terms opts.dry_run w r saved p
        else with_snap snap.hold opts.dry_run w r snap p

    unfoldable pub process_candidate : BackfillOptions → World → LinkRequest → Progress → Progress
    unfolding resolve_or_preserve is_real_active_link_row
    process_candidate opts w r p =
        if any (is_real_link_in r.user_id house) p.desk.db.links
        then skip opts.dry_run r p
        else price_candidate opts w r p

    abbrev pub evaluated_one : Progress → Progress
    evaluated_one p = record p {
      summary = record p.summary { evaluated = suc p.summary.evaluated };
    }

    -- the loop over the candidates, of which `i` have been served
    unfoldable pub process_all :
        BackfillOptions → (ℕ → World) → ℕ → List LinkRequest → Progress → Progress
    unfolding process_candidate
    process_all opts world i [] p = p
    process_all opts world i (r ∷ rs) p =
        process_all opts world (suc i) rs (process_candidate opts (world i) r (evaluated_one p))

  abbrev pub is_candidate : List String → String → LinkRequest → Bool
  is_candidate active house r =
      str_eq r.betting_house_slug house && (is_pending r && mem r.user_id active)

  abbrev pub with_rule :
      BackfillOptions
      → Bool
      → (ℕ → World)
      → List Account
      → List String
      → List String
      → String
      → RunTable
      → Desk
      → Option HouseLinkRule
      → (Progress ⊎ BackfillError) × List BackfillRun
  with_rule opts locked world accounts active houses house t desk none = (inr no_rule, t.rows)
  with_rule opts locked world accounts active houses house t desk (some rule) =
      let start : Progress = record { desk = desk; summary = empty_summary } in
      let candidates =
        take 200 (sort_by_time (filter (is_candidate active house) desk.db.requests)) in
      if not (mem house houses)
      then (inr house_inactive, t.rows)
      else if not locked
      then (inr already_running, t.rows)
      else let p = process_all house rule accounts opts world 0 candidates start in
        (inl p, close_run opts.dry_run p.summary t (open_run opts.dry_run opts house t))

  -- `house` is in small letters, `active` are the active users, `houses` the active houses, and
  -- `locked` says that no other run of the house is under way.
  unfoldable pub run_backfill :
      BackfillOptions
      → Bool
      → (ℕ → World)
      → List Account
      → List RuleOfHouse
      → List String
      → List String
      → String
      → RunTable
      → Desk
      → (Progress ⊎ BackfillError) × List BackfillRun
  unfolding process_all get_rule trim
  run_backfill opts locked world accounts rules active houses house t desk =
      if opts.force_recalculate && not (filled (trim opts.reason))
      then (inr reason_required, t.rows)
      else with_rule opts locked world accounts active houses house t desk (get_rule house rules)
