-- ===== src/Request/Backfill/Snapshot.antt =====
-- What `snapshotOne` (backend-vexxa/src/modules/link-request/application/link-backfill.service.ts)
-- lets the job of a pool see.
use painel_mt_affiliates.Common.{
  ℕ, ◌≡◌, refl, Bool, true, false, ◌&&◌, some, List, [], String, str_eq, any, find, or_else,
}
use painel_mt_affiliates.Common.Int.{ℤ, pos, eqb_ℤ}
use painel_mt_affiliates.Link.Types.{LinkRequest, HouseLinkRule}
use painel_mt_affiliates.Link.Dependency.{DependencyCheck, check_required_links}
use painel_mt_affiliates.Link.Dependency.Laws.{is_asked, has_link, check_required_links-ok_iff}
use painel_mt_affiliates.Pool.Houses.{PoolHouse}
use painel_mt_affiliates.Pool.Commit.{request_has_id, is_pending}
use painel_mt_affiliates.Pool.Backfill.{is_waiting}
use painel_mt_affiliates.Request.Types.{Account, Desk}
use painel_mt_affiliates.Request.Steps.{referrer_of}
use painel_mt_affiliates.Request.Review.Rows.{found-has_id, any-written}
use painel_mt_affiliates.Request.Review.Queue.{eqb_refl}
use painel_mt_affiliates.Request.Backfill.{
  Snap, inviter_or, snapped, snapshot_by, resolve_or_preserve, snapshot_one,
}

-- The request, waiting for the job of the pool with the CPA.
abbrev pub is_waiting_with : PoolHouse → String → ℤ → LinkRequest → Bool
is_waiting_with pool id cpa r =
    request_has_id id r && (is_waiting pool r && eqb_ℤ (or_else r.resolved_cpa (pos 0)) cpa)

module _ (pool : PoolHouse) (rule : HouseLinkRule) (now : ℕ) (accounts : List Account) where
  abbrev pub snap_of : LinkRequest → Desk → Snap
  snap_of r desk =
      resolve_or_preserve pool.slug rule desk.db r
        (inviter_or r.inviter_id (referrer_of r.user_id accounts))

  snapshot_by-IsWaiting :
      (r : LinkRequest) (desk : Desk) (check : DependencyCheck) (ok : Bool)
      → ok ≡ true
      → find (request_has_id r.id) desk.db.requests ≡ some r
      → str_eq r.betting_house_slug pool.slug ≡ true
      → is_pending r ≡ true
      → (snap_of r desk).hold ≡ false
      → any
          (is_waiting_with pool r.id (snap_of r desk).cpa)
          (snapshot_by pool.slug rule now accounts check ok r desk).db.requests
        ≡ true
  snapshot_by-IsWaiting r desk check false ok_ found here open_ free = absurd (cc)
  snapshot_by-IsWaiting r desk check true ok_ found here open_ free =
      let snap = snap_of r desk in
      let write = λ (q : LinkRequest). record (snapped now snap q) {
        required_house_slugs = check.required_houses;
        missing_house_slugs = [];
      } in
      any-written r.id (is_waiting_with pool r.id snap.cpa) write desk.db.requests r found
        (rw (found-has_id r.id desk.db.requests r found, here, open_, free, eqb_refl snap.cpa) refl)

  -- A pending request of the pool's house, whose user has a real active link in every house that
  -- the rule asks for, and whose CPA is not held for an inviter, waits after its snapshot among
  -- the requests that the job of the pool serves, with that CPA.
  pub snapshot_one-IsWaiting :
      (r : LinkRequest) (desk : Desk)
      → find (request_has_id r.id) desk.db.requests ≡ some r
      → str_eq r.betting_house_slug pool.slug ≡ true
      → is_pending r ≡ true
      → ((slug : String) → is_asked rule slug ≡ true → has_link desk.db.links r.user_id slug ≡ true)
      → (snap_of r desk).hold ≡ false
      → any
          (is_waiting_with pool r.id (snap_of r desk).cpa)
          (snapshot_one pool.slug rule now accounts r desk).db.requests
        ≡ true
  unfolding snapshot_one
  snapshot_one-IsWaiting r desk found here open_ linked free =
      let check = check_required_links desk.db.links r.user_id rule in
      let ok_ = (check_required_links-ok_iff desk.db.links r.user_id rule).1 linked in
      snapshot_by-IsWaiting r desk check check.ok ok_ found here open_ free
