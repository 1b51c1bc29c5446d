-- ===== src/Request/Create/Served.antt =====
-- An attempt of `resolveAndAssign` (backend-vexxa/src/modules/link-request/application/
-- link-request.service.ts) that ends in a fulfilled request.
use mathlib.Core.Path.{subst}
use painel_mt_affiliates.Common.{
  ◌≡◌, refl, sym, ◌∙◌, Bool, true, false, Option, none, some, String, some_inj,
}
use painel_mt_affiliates.Link.Types.{RequestStatus, CpaResolution}
use painel_mt_affiliates.Pool.Types.{AssignResult, assigned, not_assigned, broken, Options, World}
use painel_mt_affiliates.Pool.Houses.{PoolHouse}
use painel_mt_affiliates.Pool.Assign.{try_assign}
use painel_mt_affiliates.Pool.Assign.Stored.{try_assign-Holds, Holds}
use painel_mt_affiliates.Request.Types.{Office, Desk, Service, in_order}
use painel_mt_affiliates.Request.Steps.{run_service, commission_of}
use painel_mt_affiliates.Request.Resolve.{after_run, pool_assignment_for, offer_of, offer_by}

module _ (new_url : String → Option (String → Option String))
    (sportingbet sportingbet_diario : Service) (w : World) (request_id : String) (office : Office)
    (user_id : String) where
  -- the link of the pool is the user's, and the request is fulfilled with it
  abbrev pub Served : PoolHouse → Desk → Type 0
  Served pool after =
      (campaign : String) × (url : String) × Holds pool w user_id request_id campaign url after.db

  abbrev pub Serves : String → Desk → Type 0
  Serves house after =
      (pool : PoolHouse)
      → pool_assignment_for new_url sportingbet sportingbet_diario house ≡ some (in_order pool)
      → pool.rechecks ≡ false
      → Served pool after

  module _ (deal_id : Option String) (house message : String) where
    after_run-Served :
        (pool : PoolHouse) (opts : Options) (desk : Desk) (x : AssignResult)
        → pool.rechecks ≡ false
        → (try_assign pool w user_id request_id opts desk.db).result ≡ x
        → (after_run desk (try_assign pool w user_id request_id opts desk.db) x).status
          ≡ RequestStatus.fulfilled
        → Served pool (after_run desk (try_assign pool w user_id request_id opts desk.db) x).desk
    after_run-Served pool opts desk (assigned a) fresh is h =
        (a.campaign_id, a.link, try_assign-Holds pool w user_id request_id opts desk.db a is fresh)
    after_run-Served pool opts desk (not_assigned reason) fresh is h = absurd (cc)
    after_run-Served pool opts desk broken fresh is h = absurd (cc)

    offer_of-Serves :
        (res : CpaResolution) (desk : Desk) (service : Option Service)
        → pool_assignment_for new_url sportingbet sportingbet_diario house ≡ service
        → (offer_of new_url sportingbet sportingbet_diario w request_id office user_id deal_id house
            message res service desk).status
          ≡ RequestStatus.fulfilled
        → Serves house
            (offer_of new_url sportingbet sportingbet_diario w request_id office user_id deal_id
              house message res service desk).desk
    offer_of-Serves res desk none is h pool known fresh = absurd (cc)
    offer_of-Serves res desk (some service) is h pool known fresh =
        let same : service ≡ in_order pool = some_inj service (in_order pool) (sym is ∙ known) in
        subst
          (λ s.
            let r = run_service s w user_id request_id (commission_of res) desk.db in
            (after_run desk r r.result).status ≡ RequestStatus.fulfilled
            → Served pool (after_run desk r r.result).desk)
          (sym same) (λ h'. after_run-Served pool (commission_of res) desk _ fresh refl h') h

    pub offer_by-Serves :
        (hold left : Bool) (res : CpaResolution) (desk : Desk) (service : Option Service)
        → pool_assignment_for new_url sportingbet sportingbet_diario house ≡ service
        → (offer_by new_url sportingbet sportingbet_diario w request_id office user_id deal_id house
            message hold left res service desk).status
          ≡ RequestStatus.fulfilled
        → (hold ≡ false)
          × (left ≡ false)
          × Serves house
              (offer_by new_url sportingbet sportingbet_diario w request_id office user_id deal_id
                house message hold left res service desk).desk
    offer_by-Serves true left res desk service is h = absurd (cc)
    offer_by-Serves false true res desk service is h = absurd (cc)
    offer_by-Serves false false res desk service is h =
        (refl, refl, offer_of-Serves res desk service is h)
