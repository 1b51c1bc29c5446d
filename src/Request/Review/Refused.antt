-- ===== src/Request/Review/Refused.antt =====
-- What `update` (backend-vexxa/src/modules/link-request/application/link-request.service.ts) has
-- written when it throws.
use mathlib.Core.Path.{subst}
use painel_mt_affiliates.Common.{
  ℕ, ◌≡◌, refl, Bool, true, false, ◌&&◌, ◌||◌, Option, none, some, List, String, any, find, truthy,
  is_some, Bool-cases, inl, inr, and_false,
}
use painel_mt_affiliates.Common.Int.{ℤ}
use painel_mt_affiliates.Link.Types.{AffiliateLink, LinkRequest, RequestStatus, request_status_eq}
use painel_mt_affiliates.Pool.Commit.{request_has_id}
use painel_mt_affiliates.Request.Types.{
  Deal, Account, NewStatus, to_fulfilled, to_rejected, UpdateLinkRequest, Desk, RequestError,
  above_cpa_ceiling, above_revshare_ceiling, unique_constraint, Answer, done, refused,
  admin_approve,
}
use painel_mt_affiliates.Request.Campaign.{
  exceeds, above, above_link, is_link_in, validate_leader_ceiling, extract_campaign_id_for_house,
  first_url,
}
use painel_mt_affiliates.Request.Steps.{referrer_of}
use painel_mt_affiliates.Request.Writes.{
  is_nil, links_or, is_taken_in, is_fulfilling, is_closing, status_or, updated, set_request,
}
use painel_mt_affiliates.Request.Review.{
  tell_synced, ceiling, after_ceiling, after_write, update_request, update,
}
use painel_mt_affiliates.Request.Review.Rows.{any-written, found-has_id}

-- the errors that come after the request is written
abbrev pub is_late : RequestError → Bool
is_late above_cpa_ceiling = true
is_late above_revshare_ceiling = true
is_late unique_constraint = true
is_late _ = false

abbrev pub is_fulfilled_at : String → LinkRequest → Bool
is_fulfilled_at id r = request_has_id id r && request_status_eq r.status RequestStatus.fulfilled

-- Nothing was written, or the request alone: it is fulfilled, and no link was.
abbrev pub Left : String → Desk → RequestError → Desk → Type 0
Left id desk e after =
    (after.db.links ≡ desk.db.links)
    × (is_late e ≡ false → after ≡ desk)
    × (is_late e ≡ true → any (is_fulfilled_at id) after.db.requests ≡ true)

abbrev Explained : String → Desk → Answer LinkRequest → Desk → Type 0
Explained id desk (done r) after = Unit
Explained id desk (refused e) after = Left id desk e after

abbrev IsLate : Option RequestError → Type 0
IsLate none = Unit
IsLate (some e) = is_late e ≡ true

above-IsLate : (l : AffiliateLink) (cpa revshare : Option ℤ) → IsLate (above l cpa revshare)
above-IsLate l cpa revshare = elim (Bool-cases (exceeds cpa l.cpa)) [
  | inl over ↦ rw over refl
  | inr under ↦ rw under (elim (Bool-cases (exceeds revshare l.revshare)) [
    | inl over ↦ rw over refl
    | inr within ↦ rw within tt
  ])
]

above_link-IsLate :
    (l : Option AffiliateLink) (cpa revshare : Option ℤ) → IsLate (above_link l cpa revshare)
above_link-IsLate none cpa revshare = tt
above_link-IsLate (some l) cpa revshare = above-IsLate l cpa revshare

ceiling-IsLate :
    (links : List AffiliateLink) (leader house : String) (cpa revshare : Option ℤ)
    → IsLate (validate_leader_ceiling links leader house cpa revshare)
unfolding validate_leader_ceiling
ceiling-IsLate links leader house cpa revshare =
    above_link-IsLate (find (is_link_in leader house) links) cpa revshare

fulfils-lem :
    (now : ℕ) (by_id by_name : String) (dto : UpdateLinkRequest) (r : LinkRequest)
    → is_fulfilling dto.status ≡ true
    → (updated now by_id by_name dto r).status ≡ RequestStatus.fulfilled
fulfils-lem now by_id by_name dto r h = go dto.status h
  where
    go :
        (s : Option NewStatus)
        → is_fulfilling s ≡ true
        → status_or s r.status ≡ RequestStatus.fulfilled
    go none h = absurd (cc)
    go (some to_fulfilled) h = refl
    go (some to_rejected) h = absurd (cc)

module _ (now : ℕ) (new_id : String) (deals : List Deal) (accounts : List Account)
    (new_url : String → Option (String → Option String)) (admin_id admin_name : String)
    (dto : UpdateLinkRequest) (id : String) (desk : Desk) where
  tell_synced-Explained :
      (r : LinkRequest) (after : Desk) (links : Option (List AffiliateLink))
      → after.db.links ≡ desk.db.links
      → any (is_fulfilled_at id) after.db.requests ≡ true
      → Explained id desk
          (tell_synced now new_id deals accounts new_url r admin_approve after links).0
          (tell_synced now new_id deals accounts new_url r admin_approve after links).1
  tell_synced-Explained r after none same holds = (same, λ n. absurd (cc), λ _. holds)
  tell_synced-Explained r after (some links) same holds = tt

  after_ceiling-Explained :
      (r : LinkRequest) (after : Desk) (e : Option RequestError)
      → IsLate e
      → after.db.links ≡ desk.db.links
      → any (is_fulfilled_at id) after.db.requests ≡ true
      → Explained id desk
          (after_ceiling now new_id deals accounts new_url admin_id admin_name dto r after e).0
          (after_ceiling now new_id deals accounts new_url admin_id admin_name dto r after e).1
  after_ceiling-Explained r after none late same holds = tell_synced-Explained r after _ same holds
  after_ceiling-Explained r after (some e) late same holds = (same, λ n. absurd (cc), λ _. holds)

  ceiling_of-IsLate :
      (r : LinkRequest) (after : Desk)
      → IsLate (ceiling now new_id deals accounts new_url admin_id admin_name dto r after)
  ceiling_of-IsLate r after =
      elim (Bool-cases
        ((is_some dto.cpa || is_some dto.revshare) && truthy (referrer_of r.user_id accounts))) [
          | inl asked ↦
              rw asked (ceiling-IsLate after.db.links _ r.betting_house_slug dto.cpa dto.revshare)
          | inr spared ↦ rw spared tt
        ]

  after_write-Explained :
      (r : LinkRequest) (after : Desk)
      → after.db.links ≡ desk.db.links
      → (is_fulfilling dto.status ≡ true → any (is_fulfilled_at id) after.db.requests ≡ true)
      → Explained id desk
          (after_write now new_id deals accounts new_url admin_id admin_name dto r after).0
          (after_write now new_id deals accounts new_url admin_id admin_name dto r after).1
  after_write-Explained r after same holds = elim (Bool-cases (is_fulfilling dto.status)) [
    | inl on ↦ elim (Bool-cases (is_nil r.links)) [
      | inl no_link ↦ rw (on, no_link, and_false (is_closing dto.status)) tt
      | inr linked ↦
          rw (on, linked)
            (after_ceiling-Explained r after _ (ceiling_of-IsLate r after) same (holds on))
    ]
    | inr off ↦ elim (Bool-cases (is_closing dto.status)) [
      | inl closing ↦ rw (off, closing) tt
      | inr open_ ↦ rw (off, open_) tt
    ]
  ]

  update_request-Explained :
      (o : Option LinkRequest)
      → find (request_has_id id) desk.db.requests ≡ o
      → Explained id desk
          (update_request now new_id deals accounts new_url admin_id admin_name dto desk o).0
          (update_request now new_id deals accounts new_url admin_id admin_name dto desk o).1
  update_request-Explained none found = (refl, λ _. refl, λ late. absurd (cc))
  update_request-Explained (some r) found =
      let all_links = links_or dto.links r.links in
      let campaign =
        extract_campaign_id_for_house new_url r.betting_house_slug (first_url all_links)
          dto.manual_campaign_id in
      let write = updated now admin_id admin_name dto in
      let late = after_write-Explained (write r) (set_request r.id write desk) refl (λ on.
        any-written id (is_fulfilled_at id) write desk.db.requests r found (
          rw
            (fulfils-lem now admin_id admin_name dto r on, found-has_id id desk.db.requests r found)
            refl)) in
      elim (Bool-cases (is_fulfilling dto.status)) [
        | inr off ↦ let late' = rw off at late in rw off late'
        | inl on ↦ elim (Bool-cases (is_nil all_links)) [
          | inl no_link ↦ rw (on, no_link) (refl, λ _. refl, λ l. absurd (cc))
          | inr linked ↦
              elim (Bool-cases
                (is_taken_in desk.db.links r.betting_house_slug r.user_id campaign)) [
                  | inl taken ↦ rw (on, linked, taken) (refl, λ _. refl, λ l. absurd (cc))
                  | inr free ↦ let late' = rw (on, linked) at late in rw (on, linked, free) late'
                ]
        ]
      ]

  -- An update that throws has written no link. Where it throws at the inviter's ceiling or at the
  -- unique index, it has fulfilled the request before; where it throws otherwise, it has written
  -- nothing.
  pub update-refused :
      (e : RequestError)
      → (update now new_id deals accounts new_url admin_id admin_name dto id desk).0 ≡ refused e
      → Left id desk e (update now new_id deals accounts new_url admin_id admin_name dto id desk).1
  unfolding update
  update-refused e threw =
      let o = find (request_has_id id) desk.db.requests in
      let after = update_request now new_id deals accounts new_url admin_id admin_name dto desk o in
      subst (λ a. Explained id desk a after.1) threw (update_request-Explained o refl)
