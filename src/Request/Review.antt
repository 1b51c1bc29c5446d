-- ===== src/Request/Review.antt =====
-- The decisions on a request: `update`, `setManualCpa`, `approveDealRequest` and `rejectRequest` of
-- backend-vexxa/src/modules/link-request/application/link-request.service.ts, for deals of kind
-- LINK. The URL parser of the platform is a parameter.
pub mod Rows
pub mod Refused
pub mod Authority
pub mod Written
pub mod Ceiling
pub mod Queue
use painel_mt_affiliates.Common.{
  ℕ, Bool, not, ◌&&◌, ◌||◌, Option, none, some, List, String, str_eq, find, is_some, or_else,
  truthy, if◌then◌else◌,
}
use painel_mt_affiliates.Common.Sets.{mem}
use painel_mt_affiliates.Link.Types.{AffiliateLink, LinkItem, LinkRequest, RequestStatus}
use painel_mt_affiliates.Pool.Types.{Commission}
use painel_mt_affiliates.Pool.Commit.{request_has_id, is_pending}
use painel_mt_affiliates.Request.Types.{
  Deal, Account, UpdateLinkRequest, ApproveDealRequest, SetLinkRequestCpa, Actor, Origin,
  admin_approve, leader_approve, admin_reject, leader_reject, told_approved, told_rejected, Desk,
  RequestError, request_not_found, link_required, campaign_taken, no_deal, own_request,
  not_own_invitee, commission_required, not_manual_cpa_house, not_pending, not_admin_or_inviter,
  unique_constraint, Answer, done, refused,
}
use painel_mt_affiliates.Request.Campaign.{
  extract_campaign_id_for_house, sync_affiliate_link, upsert_commission_only,
  validate_leader_ceiling, first_url,
}
use painel_mt_affiliates.Request.Steps.{referrer_of, tell}
use painel_mt_affiliates.Request.Writes.{
  is_nil, links_or, is_set, given_commission, get_deal_commission, set_request, set_links,
  is_taken_in, pool_houses, is_leader, is_closing, is_fulfilling, updated, closed, noted, priced,
  approved,
}

module _ (now : ℕ) (new_id : String) (deals : List Deal) (accounts : List Account) where
  unfoldable pub reject_request :
      Actor → Origin → Option String → LinkRequest → Desk → Answer LinkRequest × Desk
  reject_request actor origin note r desk =
      let write = λ (q : LinkRequest).
        noted now note (closed now actor.sub actor.email RequestStatus.rejected q) in
      (done (write r), tell (told_rejected r.id origin) (set_request r.id write desk))

  abbrev pub price :
      SetLinkRequestCpa → LinkRequest → Desk → Option RequestError → Answer Unit × Desk
  price dto r desk none = (done tt, set_request r.id (priced now dto) desk)
  price dto r desk (some e) = (refused e, desk)

  abbrev pub price_request :
      Actor → SetLinkRequestCpa → Desk → Option LinkRequest → Answer Unit × Desk
  price_request actor dto desk none = (refused request_not_found, desk)
  price_request actor dto desk (some r) =
      let referrer = referrer_of r.user_id accounts in
      let is_inviter = truthy referrer && is_leader referrer actor.sub in
      if not (str_eq r.betting_house_slug "esportiva-diario")
      then (refused not_manual_cpa_house, desk)
      else if not (is_pending r)
      then (refused not_pending, desk)
      else if not actor.is_admin && not is_inviter
      then (refused not_admin_or_inviter, desk)
      else price dto r desk (
          if actor.is_admin
          then none
          else validate_leader_ceiling desk.db.links actor.sub "esportiva-diario" (some dto.cpa)
              dto.revshare)

  unfoldable pub set_manual_cpa : Actor → String → SetLinkRequestCpa → Desk → Answer Unit × Desk
  unfolding validate_leader_ceiling
  set_manual_cpa actor id dto desk =
      price_request actor dto desk (find (request_has_id id) desk.db.requests)

  module _ (new_url : String → Option (String → Option String)) where
    -- `syncAffiliateLink` and what follows it
    abbrev pub tell_synced :
        LinkRequest → Origin → Desk → Option (List AffiliateLink) → Answer LinkRequest × Desk
    tell_synced r origin desk none = (refused unique_constraint, desk)
    tell_synced r origin desk (some links) =
        (done r, tell (told_approved r.id origin) (set_links links desk))

    abbrev pub synced :
        LinkRequest
        → Origin
        → List LinkItem
        → Option Commission
        → Option String
        → Desk
        → Answer LinkRequest × Desk
    synced r origin items commission manual_id desk = tell_synced r origin desk (
        sync_affiliate_link new_id now r.user_id r.betting_house_slug new_url items commission
          manual_id desk.db.links)

    module _ (admin_id admin_name : String) (dto : UpdateLinkRequest) where
      abbrev pub has_dto_commission : Bool
      has_dto_commission = is_some dto.cpa || is_some dto.revshare

      abbrev pub ceiling : LinkRequest → Desk → Option RequestError
      ceiling r desk =
          let referrer = referrer_of r.user_id accounts in
          if has_dto_commission && truthy referrer
          then validate_leader_ceiling desk.db.links (or_else referrer "") r.betting_house_slug
              dto.cpa dto.revshare
          else none

      abbrev pub commission_for : LinkRequest → Option Commission
      commission_for r =
          if has_dto_commission
          then some (given_commission dto.cpa dto.revshare)
          else get_deal_commission deals r.deal_id

      abbrev pub after_ceiling :
          LinkRequest → Desk → Option RequestError → Answer LinkRequest × Desk
      after_ceiling r desk none =
          synced r admin_approve r.links (commission_for r) dto.manual_campaign_id desk
      after_ceiling r desk (some e) = (refused e, desk)

      -- what follows the write of the request
      abbrev pub after_write : LinkRequest → Desk → Answer LinkRequest × Desk
      after_write r desk =
          if is_fulfilling dto.status && not (is_nil r.links)
          then after_ceiling r desk (ceiling r desk)
          else if is_closing dto.status && not (is_fulfilling dto.status)
          then (done r, tell (told_rejected r.id admin_reject) desk)
          else (done r, desk)

      abbrev pub update_request : Desk → Option LinkRequest → Answer LinkRequest × Desk
      update_request desk none = (refused request_not_found, desk)
      update_request desk (some r) =
          let all_links = links_or dto.links r.links in
          let campaign =
            extract_campaign_id_for_house new_url r.betting_house_slug (first_url all_links)
              dto.manual_campaign_id in
          if is_fulfilling dto.status && is_nil all_links
          then (refused link_required, desk)
          else if is_fulfilling dto.status
              && is_taken_in desk.db.links r.betting_house_slug r.user_id campaign
          then (refused campaign_taken, desk)
          else let write = updated now admin_id admin_name dto in
            after_write (write r) (set_request r.id write desk)

      unfoldable pub update : String → Desk → Answer LinkRequest × Desk
      unfolding extract_campaign_id_for_house validate_leader_ceiling sync_affiliate_link
          get_deal_commission
      update id desk = update_request desk (find (request_has_id id) desk.db.requests)

    module _ (actor : Actor) (dto : ApproveDealRequest) where
      abbrev pub commission_given : Commission
      commission_given = given_commission dto.cpa dto.revshare

      abbrev pub write_note : Option String → LinkRequest → Desk → Answer LinkRequest × Desk
      write_note none r desk = (done r, desk)
      write_note (some note) r desk =
          (done (noted now (some note) r), set_request r.id (noted now (some note)) desk)

      abbrev pub stay_pending :
          LinkRequest → Desk → Option (List AffiliateLink) → Answer LinkRequest × Desk
      stay_pending r desk none = (refused unique_constraint, desk)
      stay_pending r desk (some links) = write_note dto.admin_note r (set_links links desk)

      -- The commission alone is stored where there is no link, or none with a campaign in a house
      -- with a pool.
      abbrev pub is_commission_only : LinkRequest → Bool
      is_commission_only r =
          let all_links = links_or dto.links r.links in
          let campaign =
            extract_campaign_id_for_house new_url r.betting_house_slug (first_url all_links)
              dto.manual_campaign_id in
          is_nil all_links || (mem r.betting_house_slug pool_houses && not (truthy campaign))

      abbrev pub approve : LinkRequest → Desk → Answer LinkRequest × Desk
      approve r desk =
          if is_commission_only r
          then stay_pending r desk (
              upsert_commission_only new_id now r.user_id r.betting_house_slug commission_given
                desk.db.links)
          else synced (approved now actor dto r)
              (if actor.is_admin then admin_approve else leader_approve)
              (links_or dto.links r.links) (some commission_given) dto.manual_campaign_id
              (set_request r.id (approved now actor dto) desk)

      abbrev pub approve_below :
          LinkRequest → Desk → Option RequestError → Answer LinkRequest × Desk
      approve_below r desk none = approve r desk
      approve_below r desk (some e) = (refused e, desk)

      abbrev pub ceiling_of_leader : LinkRequest → Desk → Option RequestError
      ceiling_of_leader r desk =
          if actor.is_admin
          then none
          else validate_leader_ceiling desk.db.links actor.sub r.betting_house_slug dto.cpa
              dto.revshare

      abbrev pub decide : LinkRequest → Desk → Answer LinkRequest × Desk
      decide r desk =
          if dto.rejects
          then reject_request actor (if actor.is_admin then admin_reject else leader_reject)
              dto.admin_note r desk
          else if not (is_set dto.cpa) && not (is_set dto.revshare)
          then (refused commission_required, desk)
          else approve_below r desk (ceiling_of_leader r desk)

      abbrev pub decide_request : Desk → Option LinkRequest → Answer LinkRequest × Desk
      decide_request desk none = (refused request_not_found, desk)
      decide_request desk (some r) =
          if not (truthy r.deal_id)
          then (refused no_deal, desk)
          else if str_eq actor.sub r.user_id
          then (refused own_request, desk)
          else if not actor.is_admin && not (is_leader (referrer_of r.user_id accounts) actor.sub)
          then (refused not_own_invitee, desk)
          else decide r desk

      unfoldable pub approve_deal_request : String → Desk → Answer LinkRequest × Desk
      unfolding reject_request validate_leader_ceiling extract_campaign_id_for_house
          upsert_commission_only sync_affiliate_link
      approve_deal_request id desk = decide_request desk (find (request_has_id id) desk.db.requests)
