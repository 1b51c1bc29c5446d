-- ===== src/Request/Resolve.antt =====
-- `resolveAndAssign` of backend-vexxa/src/modules/link-request/application/
-- link-request.service.ts: from the house's rule to an assignment. The services of the two pools
-- that follow a sequence are parameters.
use painel_mt_affiliates.Common.{
  Bool, true, false, not, ◌||◌, Option, none, some, List, [], ◌∷◌, ◌++◌, map, String, str_eq,
  if◌then◌else◌,
}
use painel_mt_affiliates.Common.Int.{ℤ}
use painel_mt_affiliates.Link.Types.{
  LinkRequest, RequestStatus, HouseLinkRule, CpaResolution, request_status_eq,
}
use painel_mt_affiliates.Link.Cpa.{resolve_cpa}
use painel_mt_affiliates.Link.Dependency.{DependencyCheck, check_required_links}
use painel_mt_affiliates.Pool.Types.{AssignResult, assigned, World, Run}
use painel_mt_affiliates.Pool.Houses.{
  superbet, betano, betano_diario, betnacional, hiperbet, esportiva, esportiva_diario,
  pinbet_diario, pinbet_mensal,
}
use painel_mt_affiliates.Request.Types.{
  links_checked, cpa_resolved, Office, CreateResult, Outcome, skipped_auto_assign, blocked,
  waiting_manual_review, waiting_pool_link, waiting_snapshot, link_assigned, LogEntry, rule_blocked,
  dependency_blocked, auto_assign, told_created, told_approved, told_rejected, of_pool, Desk,
  Answer, done, Service, in_order,
}
use painel_mt_affiliates.Request.Steps.{
  wait, get_rule, referrer_of, text_or, missing_reason, to_create_result, add_request, add_log,
  tell, run_service, commission_of,
}

-- what the attempt to assign ends in
pub record Offer : Type 0 where
  pub status : RequestStatus
  pub outcome : Outcome
  pub desk : Desk

abbrev pub after_run : Desk → Run → AssignResult → Offer
after_run desk r (assigned a) = record {
  status = RequestStatus.fulfilled;
  outcome = link_assigned;
  desk = record desk { db = r.db; told = desk.told ++ map of_pool r.effects };
}
after_run desk r _ = record {
  status = RequestStatus.pending;
  outcome = waiting_pool_link;
  desk = record desk { db = r.db; told = desk.told ++ map of_pool r.effects };
}

-- `switch`
abbrev pub case_of : String → List (String × Service) → Option Service
case_of house [] = none
case_of house ((slug, service) ∷ rest) =
    let later = case_of house rest in if str_eq house slug then some service else later

module _ (new_url : String → Option (String → Option String))
    (sportingbet sportingbet_diario : Service) where
  abbrev pub services : List (String × Service)
  services =
      ("superbet", in_order (superbet new_url))
      ∷ ("betnacional", in_order (betnacional new_url))
      ∷ ("hiperbet", in_order (hiperbet new_url))
      ∷ ("betano", in_order (betano new_url))
      ∷ ("betano-diario", in_order (betano_diario new_url))
      ∷ ("esportiva-diario", in_order (esportiva_diario new_url))
      ∷ ("esportivabet", in_order (esportiva new_url))
      ∷ ("sportingbet", sportingbet)
      ∷ ("sportingbet-diario", sportingbet_diario)
      ∷ ("pinbet-diario", in_order (pinbet_diario new_url))
      ∷ ("pinbet-mensal", in_order (pinbet_mensal new_url))
      ∷ []

  unfoldable pub pool_assignment_for : String → Option Service
  pool_assignment_for house = case_of house services

  module _ (w : World) (request_id : String) (office : Office) (user_id : String) where
    module _ (deal_id : Option String) (house message : String) where
      -- a new row, with the defaults of its columns
      abbrev pub blank_request : LinkRequest
      blank_request = record {
        id = request_id;
        user_id = user_id;
        deal_id = deal_id;
        betting_house_slug = house;
        message = message;
        status = RequestStatus.pending;
        links = [];
        admin_note = "";
        fulfilled_by_id = none;
        fulfilled_by_name = "";
        resolved_cpa = none;
        resolved_revshare = none;
        required_house_slugs = [];
        missing_house_slugs = [];
        blocked_reason = none;
        inviter_id = none;
        created_at = w.now;
        fulfilled_at = none;
        updated_at = w.now;
      }

      abbrev pub entry : Outcome → RequestStatus → LogEntry
      entry outcome status = record {
        link_request_id = request_id;
        user_id = user_id;
        house_slug = house;
        outcome = outcome;
        assigned_cpa = none;
        required_houses = [];
        missing_houses = [];
        status_before = none;
        status_after = some status;
      }

      abbrev pub answer : LinkRequest → RequestStatus → Desk → Answer CreateResult × Desk
      answer r status desk = (done (to_create_result r status), desk)

      abbrev pub without_rule : Desk → Answer CreateResult × Desk
      without_rule desk = answer blank_request RequestStatus.pending (
          add_log (entry skipped_auto_assign RequestStatus.pending)
            (add_request blank_request desk))

      abbrev pub blocked_by_rule : HouseLinkRule → Desk → Answer CreateResult × Desk
      blocked_by_rule rule desk =
          let reason = text_or rule.block_message "Solicitação desativada para esta casa." in
          let r : LinkRequest = record blank_request {
            status = RequestStatus.rejected;
            blocked_reason = some reason;
          } in
          answer r RequestStatus.rejected (
            tell (told_rejected request_id rule_blocked)
              (add_log (entry blocked RequestStatus.rejected) (add_request r desk)))

      abbrev pub links_missing : HouseLinkRule → DependencyCheck → Desk → Answer CreateResult × Desk
      links_missing rule check desk =
          let block = rule.block_on_required_fail in
          let status = if block then RequestStatus.rejected else RequestStatus.pending in
          let r : LinkRequest = record blank_request {
            status = status;
            required_house_slugs = check.required_houses;
            missing_house_slugs = check.missing_houses;
            blocked_reason =
                some (text_or rule.block_message (missing_reason check.missing_houses));
          } in
          let e : LogEntry =
            record (entry (if block then blocked else waiting_manual_review) status) {
              required_houses = check.required_houses;
              missing_houses = check.missing_houses;
            } in
          let stored = add_log e (add_request r desk) in
          answer r status
            (if block then tell (told_rejected request_id dependency_blocked) stored else stored)

      abbrev pub held : Bool → Option ℤ → Option ℤ
      held hold v = if hold then none else v

      abbrev pub snapshot : DependencyCheck → CpaResolution → LinkRequest
      snapshot check res = record blank_request {
        resolved_cpa = held res.hold (some res.cpa);
        resolved_revshare = held res.hold (some res.revshare);
        inviter_id = res.inviter_id;
        required_house_slugs = check.required_houses;
      }

      abbrev pub offer_of : CpaResolution → Option Service → Desk → Offer
      offer_of res none desk = record {
        status = RequestStatus.pending;
        outcome = waiting_pool_link;
        desk = desk;
      }
      offer_of res (some service) desk =
          let r = run_service service w user_id request_id (commission_of res) desk.db in
          after_run desk r r.result

      -- by whether the inviter has no CPA yet, and whether the house is left to its job
      abbrev pub offer_by : Bool → Bool → CpaResolution → Option Service → Desk → Offer
      offer_by true left_to_job res service desk = record {
        status = RequestStatus.pending;
        outcome = waiting_snapshot;
        desk = desk;
      }
      offer_by false true res service desk = record {
        status = RequestStatus.pending;
        outcome = skipped_auto_assign;
        desk = desk;
      }
      offer_by false false res service desk = offer_of res service desk

      abbrev pub is_left_to_job : HouseLinkRule → Bool
      is_left_to_job rule = not rule.auto_assign_enabled || str_eq house "esportiva-diario"

      unfoldable pub offer : HouseLinkRule → CpaResolution → Desk → Offer
      unfolding pool_assignment_for
      offer rule res desk =
          offer_by res.hold (is_left_to_job rule) res (pool_assignment_for house) desk

      abbrev pub tell_approved : RequestStatus → Desk → Desk
      tell_approved status desk =
          if request_status_eq status RequestStatus.fulfilled
          then tell (told_approved request_id auto_assign) desk
          else desk

      abbrev pub close : DependencyCheck → CpaResolution → Offer → Answer CreateResult × Desk
      close check res o =
          let e : LogEntry = record (entry o.outcome o.status) {
            assigned_cpa = some res.cpa;
            required_houses = check.required_houses;
            status_before = some RequestStatus.pending;
          } in
          answer (snapshot check res) o.status (tell_approved o.status (add_log e o.desk))

      abbrev pub resolution_of : HouseLinkRule → Desk → CpaResolution
      resolution_of rule desk = resolve_cpa desk.db.links desk.db.requests (record {
        house_slug = house;
        deal_id = deal_id;
        user_id = user_id;
        inviter_id = referrer_of user_id office.accounts;
        rule = rule;
      })

      abbrev pub links_present : HouseLinkRule → DependencyCheck → Desk → Answer CreateResult × Desk
      links_present rule check desk =
          let res = resolution_of rule desk in
          let r = snapshot check res in
          let stored =
            tell (told_created request_id) (add_request r (wait office cpa_resolved desk)) in
          close check res (offer rule res stored)

      -- by whether the house takes requests, and whether the required links are there
      abbrev pub by_check :
          Bool → Bool → HouseLinkRule → DependencyCheck → Desk → Answer CreateResult × Desk
      by_check false linked rule check desk = blocked_by_rule rule desk
      by_check true false rule check desk =
          links_missing rule check (wait office links_checked desk)
      by_check true true rule check desk = links_present rule check (wait office links_checked desk)

      abbrev pub by_rule : Option HouseLinkRule → Desk → Answer CreateResult × Desk
      by_rule none desk = without_rule desk
      by_rule (some rule) desk =
          let check = check_required_links desk.db.links user_id rule in
          by_check rule.request_enabled check.ok rule check desk

      unfoldable pub resolve_and_assign : Desk → Answer CreateResult × Desk
      unfolding offer get_rule
      resolve_and_assign desk = by_rule (get_rule house office.rules) desk
