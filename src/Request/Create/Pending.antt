-- ===== src/Request/Create/Pending.antt =====
-- `create` (backend-vexxa/src/modules/link-request/application/link-request.service.ts) and the
-- pending requests of a user for a deal.
use mathlib.Core.Path.{subst}
use painel_mt_affiliates.Common.{
  ◌≤◌, count, any-count, ◌≡◌, refl, sym, Bool, true, false, not, ◌&&◌, Option, none, some, String,
  any, truthy, arith, Bool-cases, inl, inr,
}
use painel_mt_affiliates.Link.Types.{LinkRequest, RequestStatus, HouseLinkRule, CpaResolution}
use painel_mt_affiliates.Link.Dependency.{DependencyCheck, check_required_links}
use painel_mt_affiliates.Pool.Types.{
  AssignResult, assigned, not_assigned, broken, Options, Db, World, Run,
}
use painel_mt_affiliates.Pool.Assign.Requests.{BringsNone, try_assign-count}
use painel_mt_affiliates.Request.Types.{
  pending_checked, links_checked, cpa_resolved, Deal, Office, CreateLinkRequest, Desk, RequestError,
  Service, in_order, in_sequence,
}
use painel_mt_affiliates.Request.Create.Fulfilled.{passed_lem}
use painel_mt_affiliates.Request.Steps.{
  wait, is_pending_for_deal, run_service, commission_of, get_rule, add_request,
}
use painel_mt_affiliates.Request.Resolve.{
  after_run, services, pool_assignment_for, Offer, offer_by, offer, close, resolution_of, by_check,
  by_rule, resolve_and_assign, tell_approved,
}
use painel_mt_affiliates.Request.Create.{guards, objection, request_unless, from_deal, create}
use painel_mt_affiliates.Request.Create.Calm.{
  wait-OnePending, IsQuiet, wait-count, OnePending, IsCalm, pending_for_deal-IsClosing,
  added-OnePending, case_of-IsCalm,
}

module _ (new_url : String → Option (String → Option String))
    (sportingbet sportingbet_diario : Service) (w : World) (request_id : String) (office : Office)
    (user_id : String) (quiet : (user deal : String) → BringsNone (is_pending_for_deal user deal) w)
    (still : IsQuiet office) (calm : IsCalm w sportingbet)
    (calm_daily : IsCalm w sportingbet_diario) where
  pool_assignment_for-IsCalm :
      (house : String) (service : Service)
      → pool_assignment_for new_url sportingbet sportingbet_diario house ≡ some service
      → IsCalm w service
  unfolding pool_assignment_for
  pool_assignment_for-IsCalm house service found =
      case_of-IsCalm w house (services new_url sportingbet sportingbet_diario)
        (tt, (tt, (tt, (tt, (tt, (tt, (tt, (calm, (calm_daily, (tt, (tt, tt))))))))))) service found

  run-OnePending :
      (service : Service) (request : String) (opts : Options) (db : Db)
      → IsCalm w service
      → OnePending db.requests
      → OnePending (run_service service w user_id request opts db).db.requests
  run-OnePending (in_order house) request opts db calm_ one u d =
      try_assign-count house w user_id request (is_pending_for_deal u d)
        (pending_for_deal-IsClosing u d) (quiet u d) 1 opts db (one u d)
  run-OnePending (in_sequence assign) request opts db calm_ one u d =
      let fewer = calm_ u d user_id request opts db in
      let before = one u d in omega (arith, fewer, before)

  module _ (deal house message : String) where
    after_run-OnePending :
        (desk : Desk) (r : Run) (x : AssignResult)
        → OnePending r.db.requests
        → OnePending (after_run desk r x).desk.db.requests
    after_run-OnePending desk r (assigned a) one = one
    after_run-OnePending desk r (not_assigned reason) one = one
    after_run-OnePending desk r broken one = one

    offer_by-OnePending :
        (hold left : Bool) (res : CpaResolution) (desk : Desk) (service : Option Service)
        → pool_assignment_for new_url sportingbet sportingbet_diario house ≡ service
        → OnePending desk.db.requests
        → OnePending
            (offer_by new_url sportingbet sportingbet_diario w request_id office user_id
              (some deal)
              house
              message
              hold
              left
              res
              service
              desk).desk.db.requests
    offer_by-OnePending true left res desk service is one = one
    offer_by-OnePending false true res desk service is one = one
    offer_by-OnePending false false res desk none is one = one
    offer_by-OnePending false false res desk (some service) is one =
        let r = run_service service w user_id request_id (commission_of res) desk.db in
        after_run-OnePending desk r r.result (
          run-OnePending service request_id (commission_of res) desk.db
            (pool_assignment_for-IsCalm house service is) one)

    tell_approved-db :
        (status : RequestStatus) (desk : Desk)
        → (tell_approved new_url sportingbet sportingbet_diario w request_id office user_id
            (some deal)
            house
            message
            status
            desk).db
          ≡ desk.db
    tell_approved-db RequestStatus.pending desk = refl
    tell_approved-db RequestStatus.fulfilled desk = refl
    tell_approved-db RequestStatus.rejected desk = refl

    close-OnePending :
        (check : DependencyCheck) (res : CpaResolution) (o : Offer)
        → OnePending o.desk.db.requests
        → OnePending
            (close new_url sportingbet sportingbet_diario w request_id office user_id
              (some deal)
              house
              message
              check
              res
              o).1.db.requests
    close-OnePending check res o one =
        subst (λ (db : Db). OnePending db.requests) (sym (tell_approved-db o.status _)) one

    new-OnePending :
        (r : LinkRequest) (desk : Desk)
        → r.user_id ≡ user_id
        → r.deal_id ≡ some deal
        → count (is_pending_for_deal user_id deal) desk.db.requests ≤ 0
        → OnePending desk.db.requests
        → OnePending (add_request r desk).db.requests
    new-OnePending r desk his of_deal free one =
        added-OnePending user_id deal r desk.db.requests his of_deal free one

    by_check-OnePending :
        (enabled ok : Bool) (rule : HouseLinkRule) (check : DependencyCheck) (desk : Desk)
        → count (is_pending_for_deal user_id deal) desk.db.requests ≤ 0
        → OnePending desk.db.requests
        → OnePending
            (by_check new_url sportingbet sportingbet_diario w request_id office user_id
              (some deal)
              house
              message
              enabled
              ok
              rule
              check
              desk).1.db.requests
    unfolding offer
    by_check-OnePending false ok rule check desk free one = new-OnePending _ desk refl refl free one
    by_check-OnePending true false rule check desk free one =
        let d = wait office links_checked desk in
        let free' = wait-count office links_checked user_id deal 0 desk still free in
        let one' = wait-OnePending office links_checked desk still one in
        elim (Bool-cases rule.block_on_required_fail) [
          | inl block ↦ rw block (new-OnePending _ d refl refl free' one')
          | inr manual ↦ rw manual (new-OnePending _ d refl refl free' one')
        ]
    by_check-OnePending true true rule check desk free one =
        let linked = wait office links_checked desk in
        let priced = wait office cpa_resolved linked in
        let free' =
          wait-count office cpa_resolved user_id deal 0 linked still
            (wait-count office links_checked user_id deal 0 desk still free) in
        let one' =
          wait-OnePending office cpa_resolved linked still
            (wait-OnePending office links_checked desk still one) in
        let res =
          resolution_of new_url sportingbet sportingbet_diario w request_id office user_id
            (some deal) house message rule linked in
        close-OnePending check res _ (
          offer_by-OnePending res.hold _ res _ _ refl
            (new-OnePending _ priced refl refl free' one'))

    resolve-OnePending :
        (desk : Desk)
        → count (is_pending_for_deal user_id deal) desk.db.requests ≤ 0
        → OnePending desk.db.requests
        → OnePending
            (resolve_and_assign new_url sportingbet sportingbet_diario w request_id office user_id
              (some deal)
              house
              message
              desk).1.db.requests
    unfolding resolve_and_assign
    resolve-OnePending desk free one = go (get_rule house office.rules)
      where
        go :
            (rule : Option HouseLinkRule)
            → OnePending
                (by_rule new_url sportingbet sportingbet_diario w request_id office user_id
                  (some deal)
                  house
                  message
                  rule
                  desk).1.db.requests
        go none = new-OnePending _ desk refl refl free one
        go (some rule) =
            let check = check_required_links desk.db.links user_id rule in
            by_check-OnePending rule.request_enabled check.ok rule check desk free one

  objection-free :
      (skip_eligibility : Bool) (house : String) (deal : Deal) (desk : Desk)
      → objection new_url sportingbet sportingbet_diario w request_id office user_id
          skip_eligibility house deal desk
        ≡ none
      → any (is_pending_for_deal user_id deal.id) desk.db.requests ≡ false
  objection-free skip_eligibility house deal desk h =
      let (_, (_, (_, (_, (free, _))))) =
        passed_lem
          (guards new_url sportingbet sportingbet_diario w request_id office user_id
            skip_eligibility house deal desk)
          h in
      free

  module _ (to_lower : String → String) where
    request_unless-OnePending :
        (e : Option RequestError) (house : String) (deal : Deal) (message : String) (desk : Desk)
        → (e ≡ none → any (is_pending_for_deal user_id deal.id) desk.db.requests ≡ false)
        → OnePending desk.db.requests
        → OnePending
            (request_unless new_url sportingbet sportingbet_diario w request_id office user_id e
              house deal message desk).1.db.requests
    request_unless-OnePending (some e) house deal message desk free one = one
    request_unless-OnePending none house deal message desk free one =
        let none_yet =
          any-count (is_pending_for_deal user_id deal.id) desk.db.requests (free refl) in
        resolve-OnePending deal.id house message (wait office pending_checked desk)
          (wait-count office pending_checked user_id deal.id 0 desk still (omega (arith, none_yet)))
          (wait-OnePending office pending_checked desk still one)

    from_deal-OnePending :
        (skip_eligibility : Bool) (dto : CreateLinkRequest) (desk : Desk) (o : Option Deal)
        → OnePending desk.db.requests
        → OnePending
            (from_deal new_url sportingbet sportingbet_diario w request_id office user_id to_lower
              skip_eligibility dto desk o).1.db.requests
    from_deal-OnePending skip_eligibility dto desk none one = one
    from_deal-OnePending skip_eligibility dto desk (some deal) one =
        request_unless-OnePending _ (to_lower deal.betting_house_slug) deal _ desk
          (objection-free skip_eligibility (to_lower deal.betting_house_slug) deal desk) one

    -- Where no other process brings a pending request of a user for a deal from the check for one to
    -- the end of the call, and neither does a service of a pool that follows a sequence, a call of
    -- `create`, however it ends, keeps at most one pending request of each user for each deal.
    pub create-OnePending :
        (skip_eligibility : Bool) (dto : CreateLinkRequest) (desk : Desk)
        → OnePending desk.db.requests
        → OnePending
            (create new_url sportingbet sportingbet_diario w request_id office user_id to_lower
              skip_eligibility dto desk).1.db.requests
    unfolding create
    create-OnePending skip_eligibility dto desk one =
        elim (Bool-cases (not (truthy dto.deal_id) && not (truthy dto.betting_house_slug))) [
          | inl neither ↦ rw neither one
          | inr named ↦ rw named (from_deal-OnePending skip_eligibility dto desk _ one)
        ]
