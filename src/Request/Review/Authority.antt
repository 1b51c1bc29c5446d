-- ===== src/Request/Review/Authority.antt =====
-- Who decides on a request by `approveDealRequest` (backend-vexxa/src/modules/link-request/
-- application/link-request.service.ts).

use painel_mt_affiliates.Common.{
  ℕ, ◌≡◌, refl, inl, inr, Bool, true, false, not, ◌&&◌, ◌||◌, Option, none, some, List, String,
  str_eq, find, truthy, Bool-cases,
}
use painel_mt_affiliates.Link.Types.{LinkRequest}
use painel_mt_affiliates.Pool.Commit.{request_has_id}
use painel_mt_affiliates.Request.Types.{
  Deal, Account, ApproveDealRequest, Actor, Desk, Answer, done, refused,
}
use painel_mt_affiliates.Request.Steps.{referrer_of}
use painel_mt_affiliates.Request.Writes.{is_leader}
use painel_mt_affiliates.Request.Review.{decide_request, approve_deal_request}

-- The actor is another user than the one who asked, and an admin or who referred that user.
abbrev pub may_decide : List Account → Actor → LinkRequest → Bool
may_decide accounts actor r =
    truthy r.deal_id
    && (not (str_eq actor.sub r.user_id)
        && (actor.is_admin || is_leader (referrer_of r.user_id accounts) actor.sub))

abbrev pub may_decide_found : List Account → Actor → Option LinkRequest → Bool
may_decide_found accounts actor none = false
may_decide_found accounts actor (some r) = may_decide accounts actor r

abbrev pub is_done : Answer LinkRequest → Bool
is_done (done r) = true
is_done (refused e) = false

module _ (now : ℕ) (new_id : String) (deals : List Deal) (accounts : List Account)
    (new_url : String → Option (String → Option String)) (actor : Actor)
    (dto : ApproveDealRequest) where
  barred :
      (desk : Desk) (o : Option LinkRequest)
      → may_decide_found accounts actor o ≡ false
      → (is_done (decide_request now new_id deals accounts new_url actor dto desk o).0 ≡ false)
        × ((decide_request now new_id deals accounts new_url actor dto desk o).1 ≡ desk)
  barred desk none h = (refl, refl)
  barred desk (some r) h = elim (Bool-cases (truthy r.deal_id)) [
    | inr n ↦ rw n (refl, refl)
    | inl deal ↦ elim (Bool-cases (str_eq actor.sub r.user_id)) [
      | inl own ↦ rw (deal, own) (refl, refl)
      | inr other ↦
          let no_leader = rw (deal, other) at h in
          elim (Bool-cases actor.is_admin) [
            | inl admin ↦ absurd (let n = rw admin at no_leader in cc)
            | inr user ↦ let n = rw user at no_leader in rw (deal, other, user, n) (refl, refl)
          ]
    ]
  ]

  -- A decision on a deal's request by anyone but an admin or the user who referred the one who
  -- asked, or on one's own request, is refused and changes nothing.
  pub approve_deal_request-barred :
      (id : String) (desk : Desk)
      → may_decide_found accounts actor (find (request_has_id id) desk.db.requests) ≡ false
      → (is_done (approve_deal_request now new_id deals accounts new_url actor dto id desk).0
          ≡ false)
        × ((approve_deal_request now new_id deals accounts new_url actor dto id desk).1 ≡ desk)
  unfolding approve_deal_request
  approve_deal_request-barred id desk h = barred desk (find (request_has_id id) desk.db.requests) h
