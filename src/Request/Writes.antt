-- ===== src/Request/Writes.antt =====
-- What the decisions on a request write, and the tests before them, in
-- backend-vexxa/src/modules/link-request/application/link-request.service.ts.
use painel_mt_affiliates.Common.{
  ℕ, Bool, true, false, not, ◌&&◌, Option, none, some, List, [], ◌∷◌, map, String, str_eq, any,
  find, is_some, or_else, truthy, if◌then◌else◌,
}
use painel_mt_affiliates.Common.Int.{ℤ, pos, eqb_ℤ}
use painel_mt_affiliates.Link.Types.{AffiliateLink, LinkItem, LinkRequest, RequestStatus}
use painel_mt_affiliates.Pool.Types.{Commission}
use painel_mt_affiliates.Pool.Commit.{request_has_id}
use painel_mt_affiliates.Request.Types.{
  Deal, NewStatus, to_fulfilled, to_rejected, UpdateLinkRequest, ApproveDealRequest,
  SetLinkRequestCpa, Actor, Desk,
}

abbrev pub is_nil : List LinkItem → Bool
is_nil [] = true
is_nil (i ∷ is) = false

abbrev pub links_or : List LinkItem → List LinkItem → List LinkItem
links_or [] old = old
links_or (i ∷ is) old = i ∷ is

abbrev pub status_or : Option NewStatus → RequestStatus → RequestStatus
status_or none old = old
status_or (some to_fulfilled) old = RequestStatus.fulfilled
status_or (some to_rejected) old = RequestStatus.rejected

-- a number that is there and not zero
abbrev pub is_set : Option ℤ → Bool
is_set none = false
is_set (some v) = not (eqb_ℤ v (pos 0))

abbrev pub given_commission : Option ℤ → Option ℤ → Commission
given_commission cpa revshare = record {
  cpa = or_else cpa (pos 0);
  revshare = or_else revshare (pos 0);
}

abbrev pub commission_in : Option Deal → Option Commission
commission_in none = none
commission_in (some d) = some (record { cpa = d.cpa; revshare = d.revshare })

unfoldable pub get_deal_commission : List Deal → Option String → Option Commission
get_deal_commission deals deal_id =
    if truthy deal_id
    then commission_in (find (λ d. str_eq d.id (or_else deal_id "")) deals)
    else none

abbrev pub set_request : String → (LinkRequest → LinkRequest) → Desk → Desk
set_request id write desk = record desk {
  db = record desk.db {
    requests = map (λ r. if request_has_id id r then write r else r) desk.db.requests;
  };
}

abbrev pub set_links : List AffiliateLink → Desk → Desk
set_links links desk = record desk { db = record desk.db { links = links } }

-- another user's link with the campaign, deleted or not
abbrev pub is_taken : String → String → String → AffiliateLink → Bool
is_taken campaign house user_id l =
    str_eq l.campaign_id campaign
    && (str_eq l.betting_house house && not (str_eq l.user_id user_id))

abbrev pub is_taken_in : List AffiliateLink → String → String → Option String → Bool
is_taken_in links house user_id campaign =
    truthy campaign && any (is_taken (or_else campaign "") house user_id) links

abbrev pub pool_houses : List String
pool_houses =
    "superbet" ∷ "betnacional" ∷ "hiperbet" ∷ "betano" ∷ "betano-diario" ∷ "esportivabet"
    ∷ "sportingbet" ∷ "sportingbet-diario" ∷ []

abbrev pub is_leader : Option String → String → Bool
is_leader referrer sub = is_some referrer && str_eq (or_else referrer "") sub

abbrev pub is_closing : Option NewStatus → Bool
is_closing none = false
is_closing (some status) = true

abbrev pub is_fulfilling : Option NewStatus → Bool
is_fulfilling none = false
is_fulfilling (some to_fulfilled) = true
is_fulfilling (some to_rejected) = false

abbrev pub updated : ℕ → String → String → UpdateLinkRequest → LinkRequest → LinkRequest
updated now admin_id admin_name dto r =
    let closing = is_closing dto.status in
    record r {
      status = status_or dto.status r.status;
      links = links_or dto.links r.links;
      admin_note = or_else dto.admin_note r.admin_note;
      fulfilled_at = if closing then some now else r.fulfilled_at;
      fulfilled_by_id = if closing then some admin_id else r.fulfilled_by_id;
      fulfilled_by_name = if closing then admin_name else r.fulfilled_by_name;
      updated_at = now;
    }

abbrev pub closed : ℕ → String → String → RequestStatus → LinkRequest → LinkRequest
closed now by_id by_name status r = record r {
  status = status;
  fulfilled_at = some now;
  fulfilled_by_id = some by_id;
  fulfilled_by_name = by_name;
  updated_at = now;
}

abbrev pub noted : ℕ → Option String → LinkRequest → LinkRequest
noted now note r = record r { admin_note = or_else note r.admin_note; updated_at = now }

-- `setManualCpa`
abbrev pub priced : ℕ → SetLinkRequestCpa → LinkRequest → LinkRequest
priced now dto r = record r {
  resolved_cpa = some dto.cpa;
  resolved_revshare = some (or_else dto.revshare (pos 0));
  updated_at = now;
}

abbrev pub approved : ℕ → Actor → ApproveDealRequest → LinkRequest → LinkRequest
approved now actor dto r =
    let done_ = closed now actor.sub actor.email RequestStatus.fulfilled r in
    record done_ {
      links = links_or dto.links r.links;
      admin_note = or_else dto.admin_note r.admin_note;
    }
