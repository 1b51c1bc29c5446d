-- ===== src/Request/Review/Written.antt =====
-- What `approveDealRequest` stores where it succeeds (backend-vexxa/src/modules/link-request/
-- application/link-request.service.ts): the link of the user in the house, with the commission.

use text.Mathlib.TextPositions.{eq_refl}
use painel_mt_affiliates.Common.{
  ℕ, ◌≡◌, refl, ap, sym, ◌∙◌, inl, inr, true, false, Option, none, some, List, [], ◌∷◌, ◌++◌, map,
  String, eq_iff, find, or_else, some_inj, Bool-cases, Option-cases, if◌then◌else◌,
}
use painel_mt_affiliates.Common.Int.{ℤ, pos}
use painel_mt_affiliates.Link.Types.{AffiliateLink, LinkItem, LinkRequest}
use painel_mt_affiliates.Pool.Types.{Commission}
use painel_mt_affiliates.Pool.Commit.{link_has_id, store_link}
use painel_mt_affiliates.Request.Types.{
  Deal, Account, ApproveDealRequest, Actor, Origin, Desk, Answer, done, refused,
}
use painel_mt_affiliates.Request.Campaign.{
  is_link_in, clashes, old_or_blank, stores, write_commission, write_synced, placeholder_link,
  manual_link, upsert_commission_only, sync_affiliate_link, extract_campaign_id_for_house,
  first_url,
}
use painel_mt_affiliates.Request.Writes.{links_or}
use painel_mt_affiliates.Request.Review.{
  commission_given, tell_synced, write_note, stay_pending, is_commission_only, approve,
}

module _ (user_id house : String) (write : AffiliateLink → AffiliateLink)
    (keeps : (l : AffiliateLink)
      → is_link_in user_id house (write l) ≡ is_link_in user_id house l) where
  found_in :
      (links : List AffiliateLink) (e : AffiliateLink)
      → find (is_link_in user_id house) links ≡ some e
      → find (is_link_in user_id house) (map (λ l. if link_has_id e.id l then write l else l) links)
        ≡ some (write e)
  found_in [] e found = absurd (cc)
  found_in (l ∷ ls) e found = elim (Bool-cases (is_link_in user_id house l)) [
    | inl here ↦
        let same : l ≡ e = some_inj l e (rw here at found) in
        let own : link_has_id e.id l ≡ true =
          (eq_iff l.id e.id).1 (ap (λ (x : AffiliateLink). x.id) same) in
        let kept : is_link_in user_id house (write l) ≡ true = keeps l ∙ here in
        rw (own, kept) (ap (λ x. some (write x)) same)
    | inr there ↦
        let rest = found_in ls e (rw there at found) in
        let kept : is_link_in user_id house (write l) ≡ false = keeps l ∙ there in
        elim (Bool-cases (link_has_id e.id l)) [
          | inl own ↦ rw (own, kept) rest
          | inr other ↦ rw (other, there) rest
        ]
  ]

  found_last :
      (links : List AffiliateLink) (blank : AffiliateLink)
      → is_link_in user_id house blank ≡ true
      → find (is_link_in user_id house) links ≡ none
      → find (is_link_in user_id house) (links ++ write blank ∷ []) ≡ some (write blank)
  found_last [] blank own missing = rw (keeps blank ∙ own) refl
  found_last (l ∷ ls) blank own missing = elim (Bool-cases (is_link_in user_id house l)) [
    | inl here ↦ absurd (let m = rw here at missing in cc)
    | inr there ↦ rw there (found_last ls blank own (rw there at missing))
  ]

module _ (new_id : String) (now : ℕ) (user_id house : String) where
  stores-found :
      (write : AffiliateLink → AffiliateLink) (blank : AffiliateLink)
      (links links' : List AffiliateLink)
      → ((l : AffiliateLink) → is_link_in user_id house (write l) ≡ is_link_in user_id house l)
      → is_link_in user_id house blank ≡ true
      → stores new_id now user_id house (find (is_link_in user_id house) links) write blank links
        ≡ some links'
      → (l : AffiliateLink) × (find (is_link_in user_id house) links' ≡ some (write l))
  unfolding store_link
  stores-found write blank links links' keeps own stored =
      let existing = find (is_link_in user_id house) links in
      elim (Bool-cases (clashes existing (write (old_or_blank existing blank)) links)) [
        | inl clash ↦ absurd (let s = rw clash at stored in cc)
        | inr free ↦
            let same = some_inj _ links' (rw free at stored) in
            elim (Option-cases existing) [
              | inl missing ↦ (
                blank,
                ap (find (is_link_in user_id house)) (sym (rw missing at same))
                    ∙ found_last user_id house write keeps links blank own missing,
              )
              | inr (e, found) ↦ (
                e,
                ap (find (is_link_in user_id house)) (sym (rw found at same))
                    ∙ found_in user_id house write keeps links e found,
              )
            ]
      ]

  is_own_blank :
      (l : AffiliateLink)
      → l.user_id ≡ user_id
      → l.betting_house ≡ house
      → is_link_in user_id house l ≡ true
  is_own_blank l u h = rw (u, h, eq_refl user_id, eq_refl house) refl

  upsert-found :
      (c : Commission) (links links' : List AffiliateLink)
      → upsert_commission_only new_id now user_id house c links ≡ some links'
      → (l : AffiliateLink) × (find (is_link_in user_id house) links' ≡ some l)
        × (l.cpa ≡ some c.cpa)
        × (l.revshare ≡ some c.revshare)
  unfolding upsert_commission_only
  upsert-found c links links' stored =
      let (l, found) =
        stores-found (write_commission new_id now user_id house c)
          (placeholder_link new_id now user_id house) links links' (λ l. refl)
          (is_own_blank (placeholder_link new_id now user_id house) refl refl) stored in
      (write_commission new_id now user_id house c l, found, refl, refl)

  sync-found :
      (new_url : String → Option (String → Option String)) (items : List LinkItem) (c : Commission)
      (manual_id : Option String) (links links' : List AffiliateLink)
      → sync_affiliate_link new_id now user_id house new_url items (some c) manual_id links
        ≡ some links'
      → (l : AffiliateLink) × (find (is_link_in user_id house) links' ≡ some l)
        × (l.cpa ≡ some c.cpa)
        × (l.revshare ≡ some c.revshare)
  unfolding sync_affiliate_link
  sync-found new_url items c manual_id links links' stored =
      let campaign =
        or_else (extract_campaign_id_for_house new_url house (first_url items) manual_id) "" in
      let write = write_synced new_id now user_id house new_url campaign (some c) in
      let (l, found) =
        stores-found write (manual_link new_id now user_id house new_url) links links' (λ l. refl)
          (is_own_blank (manual_link new_id now user_id house new_url) refl refl) stored in
      (write l, found, refl, refl)

-- The user's link in the house has the commission.
abbrev pub Stored : Option ℤ → Option ℤ → String → String → Desk → Type 0
Stored cpa revshare user_id house after =
    (l : AffiliateLink) × (find (is_link_in user_id house) after.db.links ≡ some l)
    × (l.cpa ≡ some (or_else cpa (pos 0)))
    × (l.revshare ≡ some (or_else revshare (pos 0)))

-- what a call has stored where it succeeds
abbrev pub WhenDone : (LinkRequest → Type 0) → Answer LinkRequest → Type 0
WhenDone holds (done r) = holds r
WhenDone holds (refused e) = Unit

pub WhenDone-map :
    (P Q : LinkRequest → Type 0) (a : Answer LinkRequest)
    → ((r : LinkRequest) → P r → Q r)
    → WhenDone P a
    → WhenDone Q a
WhenDone-map P Q (done r) f h = f r h
WhenDone-map P Q (refused e) f h = tt

module _ (now : ℕ) (new_id : String) (deals : List Deal) (accounts : List Account)
    (new_url : String → Option (String → Option String)) (actor : Actor)
    (dto : ApproveDealRequest) where
  stay_pending-Stored :
      (r : LinkRequest) (desk : Desk) (links : Option (List AffiliateLink))
      → ((ls : List AffiliateLink)
          → links ≡ some ls
          → Stored dto.cpa dto.revshare r.user_id r.betting_house_slug
              (record desk { db = record desk.db { links = ls } }))
      → WhenDone
          (λ _.
            Stored dto.cpa dto.revshare r.user_id r.betting_house_slug
              (stay_pending now new_id deals accounts new_url actor dto r desk links).1)
          (stay_pending now new_id deals accounts new_url actor dto r desk links).0
  stay_pending-Stored r desk none stored = tt
  stay_pending-Stored r desk (some ls) stored = go dto.admin_note
    where
      go :
          (note : Option String)
          → WhenDone
              (λ _.
                Stored dto.cpa dto.revshare r.user_id r.betting_house_slug
                  (write_note now new_id deals accounts new_url actor dto note r
                    (record desk { db = record desk.db { links = ls } })).1)
              (write_note now new_id deals accounts new_url actor dto note r
                (record desk { db = record desk.db { links = ls } })).0
      go none = stored ls refl
      go (some note) = stored ls refl

  synced-Stored :
      (r : LinkRequest) (origin : Origin) (user_id house : String) (desk : Desk)
      (links : Option (List AffiliateLink))
      → ((ls : List AffiliateLink)
          → links ≡ some ls
          → Stored dto.cpa dto.revshare user_id house
              (record desk { db = record desk.db { links = ls } }))
      → WhenDone
          (λ _.
            Stored dto.cpa dto.revshare user_id house
              (tell_synced now new_id deals accounts new_url r origin desk links).1)
          (tell_synced now new_id deals accounts new_url r origin desk links).0
  synced-Stored r origin user_id house desk none stored = tt
  synced-Stored r origin user_id house desk (some ls) stored = stored ls refl

  pub approve-Stored :
      (r : LinkRequest) (desk : Desk)
      → WhenDone
          (λ _.
            Stored dto.cpa dto.revshare r.user_id r.betting_house_slug
              (approve now new_id deals accounts new_url actor dto r desk).1)
          (approve now new_id deals accounts new_url actor dto r desk).0
  approve-Stored r desk =
      let c = commission_given now new_id deals accounts new_url actor dto in
      elim (Bool-cases (is_commission_only now new_id deals accounts new_url actor dto r)) [
        | inl alone ↦ rw alone (
            stay_pending-Stored r desk _ (λ ls stored.
              upsert-found new_id now r.user_id r.betting_house_slug c desk.db.links ls stored))
        | inr linked ↦ rw linked (
            synced-Stored _ _ r.user_id r.betting_house_slug _ _ (λ ls stored.
              sync-found new_id now r.user_id r.betting_house_slug new_url
                (links_or dto.links r.links) c dto.manual_campaign_id desk.db.links ls stored))
      ]
