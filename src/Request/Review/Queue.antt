-- ===== src/Request/Review/Queue.antt =====
-- What `setManualCpa` (backend-vexxa/src/modules/link-request/application/link-request.service.ts)
-- lets the job of Esportiva Diário see (backend-vexxa/src/modules/esportiva-diario-link-pool).
use painel_mt_affiliates.Common.{
  ℕ, ◌≡◌, refl, Bool, true, not, ◌&&◌, Option, none, some, List, String, str_eq, any, find, truthy,
  or_else, arith, Bool-cases, inl, inr,
}
use painel_mt_affiliates.Common.Int.{ℤ, pos, eqb_ℤ}
use painel_mt_affiliates.Link.Types.{LinkRequest}
use painel_mt_affiliates.Pool.Houses.{esportiva_diario}
use painel_mt_affiliates.Pool.Commit.{request_has_id, is_pending}
use painel_mt_affiliates.Pool.Backfill.{is_waiting}
use painel_mt_affiliates.Request.Types.{
  Deal, Account, SetLinkRequestCpa, Actor, Desk, RequestError, Answer, done, refused,
}
use painel_mt_affiliates.Request.Steps.{referrer_of}
use painel_mt_affiliates.Request.Writes.{is_leader, priced}
use painel_mt_affiliates.Request.Review.{price, price_request, set_manual_cpa}
use painel_mt_affiliates.Request.Review.Rows.{found-has_id, any-written}

-- The request, waiting for the job with the CPA that was set.
abbrev pub is_queued :
    (String → Option (String → Option String)) → String → SetLinkRequestCpa → LinkRequest → Bool
is_queued new_url id dto r =
    request_has_id id r
    && (is_waiting (esportiva_diario new_url) r && eqb_ℤ (or_else r.resolved_cpa (pos 0)) dto.cpa)

pub eqb_refl : (a : ℤ) → eqb_ℤ a a ≡ true
eqb_refl a = ground arith

module _ (now : ℕ) (new_id : String) (deals : List Deal) (accounts : List Account)
    (new_url : String → Option (String → Option String)) (actor : Actor) (id : String)
    (dto : SetLinkRequestCpa) (desk : Desk) where
  abbrev pub Queued : Answer Unit → Desk → Type 0
  Queued (refused e) after = after ≡ desk
  Queued (done u) after =
      (after.db.links ≡ desk.db.links) × (any (is_queued new_url id dto) after.db.requests ≡ true)

  price-Queued :
      (r : LinkRequest) (e : Option RequestError)
      → find (request_has_id id) desk.db.requests ≡ some r
      → is_queued new_url id dto (priced now dto r) ≡ true
      → Queued
          (price now new_id deals accounts dto r desk e).0
          (price now new_id deals accounts dto r desk e).1
  price-Queued r (some e) found queued = refl
  price-Queued r none found queued = (
    refl,
    any-written id (is_queued new_url id dto) (priced now dto) desk.db.requests r found queued,
  )

  price_request-Queued :
      (o : Option LinkRequest)
      → find (request_has_id id) desk.db.requests ≡ o
      → Queued
          (price_request now new_id deals accounts actor dto desk o).0
          (price_request now new_id deals accounts actor dto desk o).1
  price_request-Queued none found = refl
  price_request-Queued (some r) found =
      let leads =
        truthy (referrer_of r.user_id accounts)
        && is_leader (referrer_of r.user_id accounts) actor.sub in
      elim (Bool-cases (str_eq r.betting_house_slug "esportiva-diario")) [
        | inr elsewhere ↦ rw elsewhere refl
        | inl here ↦ elim (Bool-cases (is_pending r)) [
          | inr closed ↦ rw (here, closed) refl
          | inl open_ ↦
              let queued : is_queued new_url id dto (priced now dto r) ≡ true =
                rw (found-has_id id desk.db.requests r found, here, open_, eqb_refl dto.cpa) refl in
              elim (Bool-cases (not actor.is_admin && not leads)) [
                | inl barred ↦ rw (here, open_, barred) refl
                | inr may ↦ rw (here, open_, may) (price-Queued r _ found queued)
              ]
        ]
      ]

  -- Setting a CPA by hand either is refused and changes nothing, or puts the request, with that
  -- CPA, among those that the job of Esportiva Diário serves, and writes no link.
  pub set_manual_cpa-Queued :
      Queued
        (set_manual_cpa now new_id deals accounts actor id dto desk).0
        (set_manual_cpa now new_id deals accounts actor id dto desk).1
  unfolding set_manual_cpa
  set_manual_cpa-Queued = price_request-Queued (find (request_has_id id) desk.db.requests) refl
