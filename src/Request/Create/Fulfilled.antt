-- ===== src/Request/Create/Fulfilled.antt =====
-- When `create` (backend-vexxa/src/modules/link-request/application/link-request.service.ts)
-- answers that the request is fulfilled: the rule of the house, the required links, the CPA and
-- the pool, taken together.
use mathlib.Core.Path.{subst}
use painel_mt_affiliates.Common.{
  ◌≡◌, refl, Bool, true, false, not, Option, none, some, List, [], ◌∷◌, String, or_else, arith,
  if◌then◌else◌,
}
use painel_mt_affiliates.Link.Types.{RequestStatus, HouseLinkRule, CpaResolution}
use painel_mt_affiliates.Link.Dependency.{DependencyCheck, check_required_links}
use painel_mt_affiliates.Link.Dependency.Laws.{is_asked, has_link, check_required_links-ok_iff}
use painel_mt_affiliates.Pool.Types.{World}
use painel_mt_affiliates.Request.Types.{
  pending_checked, links_checked, Deal, Office, CreateLinkRequest, CreateResult, Desk, RequestError,
  Answer, done, refused, Service,
}
use painel_mt_affiliates.Request.Steps.{wait, first_objection, get_rule}
use painel_mt_affiliates.Request.Resolve.{
  Offer, is_left_to_job, offer, close, resolution_of, by_check, by_rule, resolve_and_assign,
}
use painel_mt_affiliates.Request.Create.{
  guards, objection, request_unless, find_deal, from_deal, create,
}
use painel_mt_affiliates.Request.Create.Served.{Serves, offer_by-Serves}

never :
    (block : Bool)
    → (if block then RequestStatus.rejected else RequestStatus.pending) ≡ RequestStatus.fulfilled
    → ⊥
never true h = absurd (cc)
never false h = absurd (cc)

abbrev WhenFulfilled : (Desk → Type 0) → Answer CreateResult × Desk → Type 0
WhenFulfilled P (done r, after) = r.status ≡ RequestStatus.fulfilled → P after
WhenFulfilled P (refused e, after) = Unit

WhenFulfilled-map :
    (P Q : Desk → Type 0) (x : Answer CreateResult × Desk)
    → ((after : Desk) → P after → Q after)
    → WhenFulfilled P x
    → WhenFulfilled Q x
WhenFulfilled-map P Q (done r, after) f h = λ is. f after (h is)
WhenFulfilled-map P Q (refused e, after) f h = tt

abbrev pub Passed : List (Bool × RequestError) → Type 0
Passed [] = Unit
Passed ((guard, e) ∷ rest) = (guard ≡ false) × Passed rest

-- Where nothing objects, no guard holds.
pub passed_lem :
    (guards : List (Bool × RequestError)) → first_objection guards ≡ none → Passed guards
passed_lem [] h = tt
passed_lem ((true, e) ∷ rest) h = absurd (cc)
passed_lem ((false, e) ∷ rest) h = (refl, passed_lem rest h)

unnegated : (b : Bool) → not b ≡ false → b ≡ true
unnegated b h = ground arith

guarded :
    (P : Desk → Type 0) (guard : Bool) (e : RequestError) (desk : Desk)
    (rest : Answer CreateResult × Desk)
    → (guard ≡ false → WhenFulfilled P rest)
    → WhenFulfilled P (if guard then (refused e, desk) else rest)
guarded P true e desk rest h = tt
guarded P false e desk rest h = h refl

module _ (new_url : String → Option (String → Option String))
    (sportingbet sportingbet_diario : Service) (w : World) (request_id : String) (office : Office)
    (user_id : String) where
  module _ (deal_id : Option String) (house message : String) where
    -- What stands behind a request that was created fulfilled: the links and the CPA as the call
    -- read them.
    abbrev pub Fulfilled : Desk → Desk → Type 0
    Fulfilled desk after =
        (rule : HouseLinkRule) × (get_rule house office.rules ≡ some rule)
        × (rule.request_enabled ≡ true)
        × (is_left_to_job new_url sportingbet sportingbet_diario w request_id office user_id deal_id
              house message rule
            ≡ false)
        × ((slug : String) → is_asked rule slug ≡ true → has_link desk.db.links user_id slug ≡ true)
        × ((resolution_of new_url sportingbet sportingbet_diario w request_id office user_id deal_id
              house message rule (wait office links_checked desk)).hold
            ≡ false)
        × Serves new_url sportingbet sportingbet_diario w request_id office user_id house after

    close-Fulfilled :
        (check : DependencyCheck) (res : CpaResolution) (desk : Desk) (o : Offer)
        → (o.status ≡ RequestStatus.fulfilled → Fulfilled desk o.desk)
        → WhenFulfilled (Fulfilled desk) (
            close new_url sportingbet sportingbet_diario w request_id office user_id deal_id house
              message check res o)
    close-Fulfilled check res desk o behind h = rw h (behind h)

    by_check-Fulfilled :
        (enabled ok : Bool) (rule : HouseLinkRule) (check : DependencyCheck) (desk : Desk)
        → get_rule house office.rules ≡ some rule
        → rule.request_enabled ≡ enabled
        → (ok ≡ true
            → (slug : String) → is_asked rule slug ≡ true
            → has_link desk.db.links user_id slug ≡ true)
        → WhenFulfilled (Fulfilled desk) (
            by_check new_url sportingbet sportingbet_diario w request_id office user_id deal_id
              house message enabled ok rule check desk)
    unfolding offer
    by_check-Fulfilled false ok rule check desk is on linked = λ h. absurd (cc)
    by_check-Fulfilled true false rule check desk is on linked =
        λ h. absurd (never rule.block_on_required_fail h)
    by_check-Fulfilled true true rule check desk is on linked =
        let res =
          resolution_of new_url sportingbet sportingbet_diario w request_id office user_id deal_id
            house message rule (wait office links_checked desk) in
        close-Fulfilled check res desk _ (λ h.
          let (ready, mine, serves) =
            offer_by-Serves new_url sportingbet sportingbet_diario w request_id office user_id
              deal_id house message res.hold _ res _ _ refl h in
          (rule, is, on, mine, linked refl, ready, serves))

    by_rule-Fulfilled :
        (desk : Desk) (rule : Option HouseLinkRule)
        → get_rule house office.rules ≡ rule
        → WhenFulfilled (Fulfilled desk) (
            by_rule new_url sportingbet sportingbet_diario w request_id office user_id deal_id house
              message rule desk)
    by_rule-Fulfilled desk none is = λ h. absurd (cc)
    by_rule-Fulfilled desk (some rule) is =
        let check = check_required_links desk.db.links user_id rule in
        by_check-Fulfilled rule.request_enabled check.ok rule check desk is refl
          (check_required_links-ok_iff desk.db.links user_id rule).0

    resolve-Fulfilled :
        (desk : Desk)
        → WhenFulfilled (Fulfilled desk) (
            resolve_and_assign new_url sportingbet sportingbet_diario w request_id office user_id
              deal_id house message desk)
    unfolding resolve_and_assign
    resolve-Fulfilled desk = by_rule-Fulfilled desk (get_rule house office.rules) refl

  module _ (to_lower : String → String) where
    -- What stands behind a call of `create` whose answer is fulfilled: an active deal, and the rule
    -- of its house.
    abbrev pub Behind : CreateLinkRequest → Desk → Desk → Type 0
    Behind dto desk after =
        (deal : Deal) × (find_deal new_url sportingbet sportingbet_diario w request_id office
            user_id to_lower dto
          ≡ some deal)
        × (deal.active ≡ true)
        × Fulfilled (some deal.id) (to_lower deal.betting_house_slug) (or_else dto.message "")
            (wait office pending_checked desk) after

    request_unless-Behind :
        (dto : CreateLinkRequest) (desk : Desk) (deal : Deal) (e : Option RequestError)
        → find_deal new_url sportingbet sportingbet_diario w request_id office user_id to_lower dto
          ≡ some deal
        → (e ≡ none → deal.active ≡ true)
        → WhenFulfilled (Behind dto desk) (
            request_unless new_url sportingbet sportingbet_diario w request_id office user_id e
              (to_lower deal.betting_house_slug)
              deal
              (or_else dto.message "")
              desk)
    request_unless-Behind dto desk deal (some e) is active = tt
    request_unless-Behind dto desk deal none is active =
        WhenFulfilled-map _ (Behind dto desk)
          (resolve_and_assign new_url sportingbet sportingbet_diario w request_id office user_id
            (some deal.id) (to_lower deal.betting_house_slug) (or_else dto.message "")
            (wait office pending_checked desk))
          (λ after behind. (deal, is, active refl, behind))
          (resolve-Fulfilled (some deal.id) (to_lower deal.betting_house_slug)
            (or_else dto.message "") (wait office pending_checked desk))

    objection-active :
        (skip_eligibility : Bool) (house : String) (deal : Deal) (desk : Desk)
        → objection new_url sportingbet sportingbet_diario w request_id office user_id
            skip_eligibility house deal desk
          ≡ none
        → deal.active ≡ true
    objection-active skip_eligibility house deal desk h =
        unnegated deal.active
          (passed_lem
            (guards new_url sportingbet sportingbet_diario w request_id office user_id
              skip_eligibility house deal desk)
            h).0

    from_deal-Behind :
        (skip_eligibility : Bool) (dto : CreateLinkRequest) (desk : Desk) (o : Option Deal)
        → find_deal new_url sportingbet sportingbet_diario w request_id office user_id to_lower dto
          ≡ o
        → WhenFulfilled (Behind dto desk) (
            from_deal new_url sportingbet sportingbet_diario w request_id office user_id to_lower
              skip_eligibility dto desk o)
    from_deal-Behind skip_eligibility dto desk none is = tt
    from_deal-Behind skip_eligibility dto desk (some deal) is =
        request_unless-Behind dto desk deal _ is
          (objection-active skip_eligibility (to_lower deal.betting_house_slug) deal desk)

    create-When :
        (skip_eligibility : Bool) (dto : CreateLinkRequest) (desk : Desk)
        → WhenFulfilled (Behind dto desk) (
            create new_url sportingbet sportingbet_diario w request_id office user_id to_lower
              skip_eligibility dto desk)
    unfolding create
    create-When skip_eligibility dto desk =
        guarded (Behind dto desk) _ _ desk _
          (λ _. from_deal-Behind skip_eligibility dto desk _ refl)

    -- Where `create` answers that the request is fulfilled, there is an active deal, whose house has
    -- a rule that takes requests and is not left to a job; when the call read the links, the user had
    -- a real active link in every house that the rule asks for; the CPA was not held for an inviter; and, in a house whose pool
    -- is taken in order by a transaction that does not look at the request again, an active link of
    -- the user with a campaign and the request fulfilled with a link are stored; all that whatever
    -- other processes write from the check for a pending request to the end of the call.
    pub create-fulfilled :
        (skip_eligibility : Bool) (dto : CreateLinkRequest) (desk : Desk) (r : CreateResult)
        → (create new_url sportingbet sportingbet_diario w request_id office user_id to_lower
            skip_eligibility dto desk).0
          ≡ done r
        → r.status ≡ RequestStatus.fulfilled
        → Behind dto desk
            (create new_url sportingbet sportingbet_diario w request_id office user_id to_lower
              skip_eligibility dto desk).1
    create-fulfilled skip_eligibility dto desk r answered is =
        let x =
          create new_url sportingbet sportingbet_diario w request_id office user_id to_lower
            skip_eligibility dto desk in
        subst (λ a. WhenFulfilled (Behind dto desk) (a, x.1)) answered
          (create-When skip_eligibility dto desk) is
