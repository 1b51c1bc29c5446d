-- ===== src/Request/Create.antt =====
-- `create` of backend-vexxa/src/modules/link-request/application/link-request.service.ts, for deals of
-- kind LINK. `toLowerCase` and the URL parser of the platform are parameters.
pub mod Served
pub mod Fulfilled
pub mod Calm
pub mod Pending
use painel_mt_affiliates.Common.{
  Bool, not, ◌&&◌, Option, none, some, List, [], ◌∷◌, String, str_eq, any, find, or_else, truthy,
  if◌then◌else◌,
}
use painel_mt_affiliates.Common.Int.{pos}
use painel_mt_affiliates.Common.Sets.{mem}
use painel_mt_affiliates.Link.Types.{is_real_active_link_row}
use painel_mt_affiliates.Pool.Types.{World}
use painel_mt_affiliates.Pool.Houses.{betano}
use painel_mt_affiliates.Request.Types.{
  pending_checked, Deal, Office, CreateLinkRequest, CreateResult, Desk, RequestError,
  deal_or_house_required, deal_not_found, house_unavailable, one_request_per_account, not_eligible,
  already_pending, Answer, refused, Service,
}
use painel_mt_affiliates.Request.Steps.{
  wait, is_real_link_in, is_deal_eligibility_required, one_request_per_account_houses,
  is_request_in, is_pending_for_deal, latest_deal, first_objection,
}
use painel_mt_affiliates.Request.Resolve.{resolve_and_assign}

module _ (new_url : String → Option (String → Option String))
    (sportingbet sportingbet_diario : Service) where
  module _ (w : World) (request_id : String) (office : Office) (user_id : String) where
    -- the exceptions on the way to `resolveAndAssign`, in order
    abbrev pub guards : Bool → String → Deal → Desk → List (Bool × RequestError)
    guards skip_eligibility house deal desk =
        let linked = any (is_real_link_in user_id house) desk.db.links in
        let min_avg =
          if str_eq house "betano-diario" then pos 0 else deal.min_avg_deposit_per_ftd in
        (not deal.active, deal_not_found)
        ∷ (not (mem house office.active_houses), house_unavailable)
        ∷ (
          mem house one_request_per_account_houses
              && any (is_request_in user_id house) desk.db.requests,
          one_request_per_account,
        )
        ∷ (
          not skip_eligibility
              && (is_deal_eligibility_required house linked
                  && not (office.eligible min_avg deal.min_qualified_ftd)),
          not_eligible,
        )
        ∷ (any (is_pending_for_deal user_id deal.id) desk.db.requests, already_pending)
        ∷ []

    abbrev pub objection : Bool → String → Deal → Desk → Option RequestError
    objection skip_eligibility house deal desk =
        first_objection (guards skip_eligibility house deal desk)

    abbrev pub request_unless :
        Option RequestError → String → Deal → String → Desk → Answer CreateResult × Desk
    request_unless (some e) house deal message desk = (refused e, desk)
    request_unless none house deal message desk =
        resolve_and_assign new_url sportingbet sportingbet_diario w request_id office user_id
          (some deal.id) house message (wait office pending_checked desk)

    module _ (to_lower : String → String) where
      abbrev pub find_deal : CreateLinkRequest → Option Deal
      find_deal dto =
          if truthy dto.deal_id
          then find (λ d. str_eq d.id (or_else dto.deal_id "")) office.deals
          else latest_deal
              (λ d.
                str_eq d.betting_house_slug (to_lower (or_else dto.betting_house_slug ""))
                && d.active)
              office.deals

      abbrev pub from_deal :
          Bool → CreateLinkRequest → Desk → Option Deal → Answer CreateResult × Desk
      from_deal skip_eligibility dto desk none = (refused deal_not_found, desk)
      from_deal skip_eligibility dto desk (some deal) =
          let house = to_lower deal.betting_house_slug in
          request_unless (objection skip_eligibility house deal desk) house deal
            (or_else dto.message "") desk

      unfoldable pub create : Bool → CreateLinkRequest → Desk → Answer CreateResult × Desk
      unfolding resolve_and_assign is_real_active_link_row
      create skip_eligibility dto desk =
          if not (truthy dto.deal_id) && not (truthy dto.betting_house_slug)
          then (refused deal_or_house_required, desk)
          else from_deal skip_eligibility dto desk (find_deal dto)
