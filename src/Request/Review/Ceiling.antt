-- ===== src/Request/Review/Ceiling.antt =====
-- The commission that a leader gives by `approveDealRequest` (backend-vexxa/src/modules/
-- link-request/application/link-request.service.ts): its ceiling, the leader's own.
use mathlib.Core.Path.{subst}
use painel_mt_affiliates.Common.{
  ℕ, ◌≡◌, refl, sym, ◌∙◌, inl, inr, true, false, not, ◌&&◌, Option, none, some, List, String,
  str_eq, find, or_else, truthy, some_inj, Bool-cases, Option-cases, arith,
}
use painel_mt_affiliates.Common.Int.{ℤ, pos, leb_ℤ, ltb_ℤ, eqb_ℤ}
use painel_mt_affiliates.Link.Types.{AffiliateLink, LinkRequest}
use painel_mt_affiliates.Pool.Commit.{request_has_id}
use painel_mt_affiliates.Request.Types.{Deal, Account, ApproveDealRequest, Actor, Desk, done}
use painel_mt_affiliates.Request.Campaign.{
  is_link_in, exceeds, above, above_link, validate_leader_ceiling,
}
use painel_mt_affiliates.Request.Steps.{referrer_of}
use painel_mt_affiliates.Request.Review.Written.{WhenDone, WhenDone-map, approve-Stored}
use painel_mt_affiliates.Request.Writes.{is_leader, is_set}
use painel_mt_affiliates.Request.Review.{
  approve, approve_below, decide, decide_request, approve_deal_request,
}

not_ltb : (k v : ℤ) → ltb_ℤ k v ≡ false → leb_ℤ v k ≡ true
not_ltb k v h = ground arith

zero_leb : (k v : ℤ) → eqb_ℤ v (pos 0) ≡ true → leb_ℤ (pos 0) k ≡ true → leb_ℤ v k ≡ true
zero_leb k v z h = ground arith

exceeds-leb :
    (given : Option ℤ) (k : ℤ)
    → exceeds given (some k) ≡ false
    → leb_ℤ (pos 0) k ≡ true
    → leb_ℤ (or_else given (pos 0)) k ≡ true
exceeds-leb none k within h = h
exceeds-leb (some v) k within h = elim (Bool-cases (eqb_ℤ v (pos 0))) [
  | inl z ↦ zero_leb k v z h
  | inr n ↦ not_ltb k v (rw n at within)
]

-- no CPA above a limit that is there and not negative
abbrev pub IsWithin : Option ℤ → Option ℤ → Type 0
IsWithin none limit = ⊥
IsWithin (some v) none = Unit
IsWithin (some v) (some limit) = leb_ℤ (pos 0) limit ≡ true → leb_ℤ v limit ≡ true

exceeds-IsWithin :
    (given limit : Option ℤ)
    → exceeds given limit ≡ false
    → IsWithin (some (or_else given (pos 0))) limit
exceeds-IsWithin given none within = tt
exceeds-IsWithin given (some k) within = exceeds-leb given k within

above-none :
    (l : AffiliateLink) (cpa revshare : Option ℤ)
    → above l cpa revshare ≡ none
    → (exceeds cpa l.cpa ≡ false) × (exceeds revshare l.revshare ≡ false)
above-none l cpa revshare h = elim (Bool-cases (exceeds cpa l.cpa)) [
  | inl over ↦ absurd (let h' = rw over at h in cc)
  | inr under ↦ elim (Bool-cases (exceeds revshare l.revshare)) [
    | inl over ↦ absurd (let h' = rw (under, over) at h in cc)
    | inr within ↦ (under, within)
  ]
]

-- The link has the commission that was given, and neither part is above that of the leader's link.
abbrev pub IsBelow : Option ℤ → Option ℤ → Option AffiliateLink → AffiliateLink → Type 0
IsBelow cpa revshare leader l =
    (l.cpa ≡ some (or_else cpa (pos 0)))
    × (l.revshare ≡ some (or_else revshare (pos 0)))
    × ((k : AffiliateLink)
        → leader ≡ some k
        → IsWithin l.cpa k.cpa × IsWithin l.revshare k.revshare)

module _ (now : ℕ) (new_id : String) (deals : List Deal) (accounts : List Account)
    (new_url : String → Option (String → Option String)) (actor : Actor)
    (dto : ApproveDealRequest) where
  -- the two ends of a leader's approval
  abbrev pub Bounded : String → String → Desk → Desk → Type 0
  Bounded user_id house desk after =
      (l : AffiliateLink) × (find (is_link_in user_id house) after.db.links ≡ some l)
      × IsBelow dto.cpa dto.revshare (find (is_link_in actor.sub house) desk.db.links) l

  approve_below-Bounded :
      (r : LinkRequest) (desk : Desk) (leader : Option AffiliateLink)
      → find (is_link_in actor.sub r.betting_house_slug) desk.db.links ≡ leader
      → WhenDone
          (λ _.
            Bounded r.user_id r.betting_house_slug desk
              (approve_below now new_id deals accounts new_url actor dto r desk
                (above_link leader dto.cpa dto.revshare)).1)
          (approve_below now new_id deals accounts new_url actor dto r desk
            (above_link leader dto.cpa dto.revshare)).0
  approve_below-Bounded r desk none here =
      WhenDone-map _ _ (approve now new_id deals accounts new_url actor dto r desk).0
        (λ _ (l, found, c, rev). (l, found, (c, rev, λ k leader. absurd (let n = sym here in cc))))
        (approve-Stored now new_id deals accounts new_url actor dto r desk)
  approve_below-Bounded r desk (some k) here = elim (Option-cases (above k dto.cpa dto.revshare)) [
    | inr (e, over) ↦ rw over tt
    | inl within ↦
        let (cpa, revshare) = above-none k dto.cpa dto.revshare within in
        rw within (
          WhenDone-map _ _ (approve now new_id deals accounts new_url actor dto r desk).0
            (λ _ (l, found, c, rev). (
              l,
              found,
              (
                c,
                rev,
                λ k' leader.
                    let same : k ≡ k' = some_inj k k' (sym here ∙ leader) in
                    subst
                      (λ (x : AffiliateLink). IsWithin l.cpa x.cpa × IsWithin l.revshare x.revshare)
                      same
                      (rw (c, rev)
                        (
                          exceeds-IsWithin dto.cpa k.cpa cpa,
                          exceeds-IsWithin dto.revshare k.revshare revshare,
                        )),
              ),
            ))
            (approve-Stored now new_id deals accounts new_url actor dto r desk))
  ]

  decide-Bounded :
      (r : LinkRequest) (desk : Desk)
      → actor.is_admin ≡ false
      → dto.rejects ≡ false
      → WhenDone
          (λ _.
            Bounded r.user_id r.betting_house_slug desk
              (decide now new_id deals accounts new_url actor dto r desk).1)
          (decide now new_id deals accounts new_url actor dto r desk).0
  unfolding validate_leader_ceiling
  decide-Bounded r desk user approves =
      elim (Bool-cases (not (is_set dto.cpa) && not (is_set dto.revshare))) [
        | inl nothing ↦ rw (approves, nothing) tt
        | inr something ↦
            let below =
              approve_below-Bounded r desk
                (find (is_link_in actor.sub r.betting_house_slug) desk.db.links) refl in
            let below' = rw (approves, user) at below in rw (approves, something, user) below'
      ]

  decide_request-Bounded :
      (r : LinkRequest) (desk : Desk)
      → actor.is_admin ≡ false
      → dto.rejects ≡ false
      → WhenDone
          (λ _.
            Bounded r.user_id r.betting_house_slug desk
              (decide_request now new_id deals accounts new_url actor dto desk (some r)).1)
          (decide_request now new_id deals accounts new_url actor dto desk (some r)).0
  decide_request-Bounded r desk user approves =
      let leads = is_leader (referrer_of r.user_id accounts) actor.sub in
      elim (Bool-cases (truthy r.deal_id)) [
        | inr n ↦ rw n tt
        | inl deal ↦ elim (Bool-cases (str_eq actor.sub r.user_id)) [
          | inl own ↦ rw (deal, own) tt
          | inr other ↦ elim (Bool-cases leads) [
            | inr stranger ↦ rw (deal, other, user, stranger) tt
            | inl leader ↦
                let b = rw user at (decide-Bounded r desk user approves) in
                rw (deal, other, user, leader) b
          ]
        ]
      ]

  -- Where an approval by a leader succeeds, the link of the user in the house has the commission
  -- that was given, and neither its CPA nor its revshare is above that of the leader's link in the
  -- house, if there is such a link, and it has one that is not negative.
  pub approve_deal_request-Bounded :
      (id : String) (desk : Desk) (r r' : LinkRequest)
      → find (request_has_id id) desk.db.requests ≡ some r
      → actor.is_admin ≡ false
      → dto.rejects ≡ false
      → (approve_deal_request now new_id deals accounts new_url actor dto id desk).0 ≡ done r'
      → Bounded r.user_id r.betting_house_slug desk
          (approve_deal_request now new_id deals accounts new_url actor dto id desk).1
  unfolding approve_deal_request
  approve_deal_request-Bounded id desk r r' found user approves succeeded =
      let after = approve_deal_request now new_id deals accounts new_url actor dto id desk in
      let bounded : WhenDone (λ _. Bounded r.user_id r.betting_house_slug desk after.1) after.0 =
        rw found (decide_request-Bounded r desk user approves) in
      subst (WhenDone (λ _. Bounded r.user_id r.betting_house_slug desk after.1)) succeeded bounded
