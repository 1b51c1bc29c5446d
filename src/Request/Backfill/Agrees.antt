-- ===== src/Request/Backfill/Agrees.antt =====
-- The answer of `reprocessRequest` (backend-vexxa/src/modules/link-request/application/
-- link-backfill.service.ts) and the request that it leaves.
use mathlib.Core.Path.{subst}
use painel_mt_affiliates.Common.{
  ◌≡◌, refl, sym, ap, ◌∙◌, Bool, true, false, not, ◌&&◌, ◌||◌, Option, none, some, List, [], ◌∷◌,
  map, String, str_eq, eq_iff, All, arith, any, find, is_some, some_inj, inl, inr, Bool-cases,
  if◌then◌else◌,
}
use painel_mt_affiliates.Common.Sets.{mem}
use painel_mt_affiliates.Common.Text.{trim}
use painel_mt_affiliates.Link.Types.{LinkRequest, RequestStatus, request_status_eq, HouseLinkRule}
use painel_mt_affiliates.Link.Dependency.{DependencyCheck}
use painel_mt_affiliates.Pool.Types.{AssignResult, assigned, not_assigned, broken, Db, World}
use painel_mt_affiliates.Pool.Houses.{PoolHouse, filled}
use painel_mt_affiliates.Pool.Commit.{request_has_id}
use painel_mt_affiliates.Pool.Assign.{try_assign}
use painel_mt_affiliates.Pool.Assign.Decides.{Quiet, is_assigned, try_assign-decides}
use painel_mt_affiliates.Pool.Commit.Given.{is_first_url, is_served}
use painel_mt_affiliates.Pool.Assign.Stored.{try_assign-Holds}
use painel_mt_affiliates.Request.Types.{Account, RuleOfHouse, Desk, Service, in_order, in_sequence}
use painel_mt_affiliates.Request.Resolve.{case_of}
use painel_mt_affiliates.Request.Writes.{set_request}
use painel_mt_affiliates.Request.Backfill.{Snap, snapped, barred, blocked_status}
use painel_mt_affiliates.Request.Backfill.Summary.{Terms, terms_options}
use painel_mt_affiliates.Request.Backfill.Run.{backfill_services}
use painel_mt_affiliates.Request.Backfill.Reprocess.{
  Reply, reopened, is_rejected, status_before, after_try, try_service, reopen, by_links,
  with_resolution, reprocess_by, reprocess_request,
}

abbrev pub has_status : String → RequestStatus → LinkRequest → Bool
has_status id status r = request_has_id id r && request_status_eq r.status status

-- The request is stored with the status that is answered.
abbrev pub Agrees : String → Reply → Type 0
Agrees id (inl x, after) = any (has_status id x.status) after.db.requests ≡ true
Agrees id (inr e, after) = Unit

-- the request of an id is in a status
abbrev IsAt : String → RequestStatus → Desk → Type 0
IsAt id status desk =
    (q : LinkRequest) × (find (request_has_id id) desk.db.requests ≡ some q) × (q.status ≡ status)

status_eq_refl : (s : RequestStatus) → request_status_eq s s ≡ true
status_eq_refl RequestStatus.pending = refl
status_eq_refl RequestStatus.fulfilled = refl
status_eq_refl RequestStatus.rejected = refl

found-any :
    (id : String) (s : RequestStatus) (rs : List LinkRequest) (q : LinkRequest)
    → find (request_has_id id) rs ≡ some q
    → q.status ≡ s
    → any (has_status id s) rs ≡ true
found-any id s [] q found is = absurd (cc)
found-any id s (r ∷ rs) q found is = elim (Bool-cases (request_has_id id r)) [
  | inl here ↦
      let same : r ≡ q = some_inj r q (rw here at found) in
      let at_ : r.status ≡ s = ap (λ (x : LinkRequest). x.status) same ∙ is in
      rw (here, at_, status_eq_refl s) refl
  | inr there ↦ rw there (found-any id s rs q (rw there at found) is)
]

IsAt-any :
    (id : String) (s : RequestStatus) (desk : Desk)
    → IsAt id s desk
    → any (has_status id s) desk.db.requests ≡ true
IsAt-any id s desk (q, found, is) = found-any id s desk.db.requests q found is

find-written :
    (id : String) (write : LinkRequest → LinkRequest)
    (keeps : (q : LinkRequest) → (write q).id ≡ q.id) (rs : List LinkRequest) (r : LinkRequest)
    → find (request_has_id id) rs ≡ some r
    → find (request_has_id id) (map (λ q. if request_has_id id q then write q else q) rs)
      ≡ some (write r)
find-written id write keeps [] r found = absurd (cc)
find-written id write keeps (q ∷ qs) r found = elim (Bool-cases (request_has_id id q)) [
  | inl here ↦
      let same : q ≡ r = some_inj q r (rw here at found) in
      let still : request_has_id id (write q) ≡ true = rw (keeps q) here in
      rw (here, still) (ap (λ x. some (write x)) same)
  | inr there ↦ rw (there, there) (find-written id write keeps qs r (rw there at found))
]

unserved : (a b c rest : Bool) → (a && b) ≡ false → ((a && (b && c)) || rest) ≡ true → rest ≡ true
unserved a b c rest h k = ground arith

served-has_status :
    (id url : String) (rs : List LinkRequest)
    → any (is_served id url) rs ≡ true
    → any (has_status id RequestStatus.fulfilled) rs ≡ true
served-has_status id url [] h = h
served-has_status id url (r ∷ rs) h = elim (Bool-cases (has_status id RequestStatus.fulfilled r)) [
  | inl here ↦ rw here refl
  | inr there ↦ rw there (
      served-has_status id url rs (
        unserved (request_has_id id r) (request_status_eq r.status RequestStatus.fulfilled)
          (is_first_url url r.links) _ there h))
]

-- A pool taken in order, of a house of its own family, that looks at a request again only in
-- Esportiva.
abbrev IsPlain : String → Service → Type 0
IsPlain slug (in_order pool) =
    (mem pool.slug pool.family ≡ true)
    × (str_eq slug "esportivabet" ≡ false → pool.rechecks ≡ false)
IsPlain slug (in_sequence assign) = ⊥

case_of-IsPlain :
    (house : String) (cases : List (String × Service))
    → All (λ (slug, service). IsPlain slug service) cases
    → (service : Service) → case_of house cases ≡ some service
    → IsPlain house service
case_of-IsPlain house [] plain service found = absurd (cc)
case_of-IsPlain house ((slug, s) ∷ rest) (plain, plains) service found =
    elim (Bool-cases (str_eq house slug)) [
      | inl here ↦
          let of_house = subst (λ x. IsPlain x s) (sym ((eq_iff house slug).0 here)) plain in
          subst (IsPlain house) (some_inj s service (rw here at found)) of_house
      | inr there ↦ case_of-IsPlain house rest plains service (rw there at found)
    ]

module _ (new_url : String → Option (String → Option String)) where
  services-IsPlain :
      (house : String) (service : Service)
      → case_of house (backfill_services new_url) ≡ some service
      → IsPlain house service
  services-IsPlain house service found =
      case_of-IsPlain house (backfill_services new_url)
        (
          (refl, λ _. refl),
          (
            (refl, λ _. refl),
            ((refl, λ _. refl), ((refl, λ _. refl), ((refl, λ n. absurd (cc)), tt))),
          ),
        )
        service found

  module _ (w : World) (quiet : Quiet w) (r : LinkRequest) (rule : HouseLinkRule)
      (plain : str_eq r.betting_house_slug "esportivabet" ≡ false) where
    after_try-Agrees :
        (pool : PoolHouse) (t : Terms) (desk : Desk) (x : AssignResult)
        → mem pool.slug pool.family ≡ true
        → pool.rechecks ≡ false
        → IsAt r.id (status_before r) desk
        → (try_assign pool w r.user_id r.id (terms_options t) desk.db).result ≡ x
        → Agrees r.id (
            after_try new_url w r rule t desk
              (try_assign pool w r.user_id r.id (terms_options t) desk.db)
              x)
    after_try-Agrees pool t desk (assigned a) own fresh at_ is =
        let holds = try_assign-Holds pool w r.user_id r.id (terms_options t) desk.db a is fresh in
        served-has_status r.id a.link _ holds.1
    after_try-Agrees pool t desk (not_assigned reason) own fresh at_ is =
        let same =
          (try_assign-decides pool w r.user_id r.id (terms_options t) desk.db quiet own).1
            (ap is_assigned is) in
        subst (λ (db : Db). any (has_status r.id (status_before r)) db.requests ≡ true) (sym same)
          (IsAt-any r.id (status_before r) desk at_)
    after_try-Agrees pool t desk broken own fresh at_ is = tt

    try_service-Agrees :
        (t : Terms) (desk : Desk) (service : Option Service)
        → ((s : Service) → service ≡ some s → IsPlain r.betting_house_slug s)
        → IsAt r.id (status_before r) desk
        → Agrees r.id (try_service new_url w r rule t desk service)
    try_service-Agrees t desk none plain_ at_ = IsAt-any r.id (status_before r) desk at_
    try_service-Agrees t desk (some (in_order pool)) plain_ at_ =
        let (own, fresh) = plain_ (in_order pool) refl in
        after_try-Agrees pool t desk _ own (fresh plain) at_ refl
    try_service-Agrees t desk (some (in_sequence assign)) plain_ at_ =
        absurd (plain_ (in_sequence assign) refl)

    set-IsAt :
        (before after : RequestStatus) (write : LinkRequest → LinkRequest) (desk : Desk)
        → ((q : LinkRequest) → (write q).id ≡ q.id)
        → ((q : LinkRequest) → q.status ≡ before → (write q).status ≡ after)
        → IsAt r.id before desk
        → IsAt r.id after (set_request r.id write desk)
    set-IsAt before after write desk keeps moves (q, found, is) =
        (write q, find-written r.id write keeps desk.db.requests q found, moves q is)

    reopen-IsAt :
        (desk : Desk)
        → IsAt r.id r.status desk
        → IsAt r.id (status_before r) (reopen new_url w r rule desk)
    reopen-IsAt desk at_ = elim (Bool-cases (is_rejected r)) [
      | inl closed ↦ rw closed (
          set-IsAt r.status RequestStatus.pending (reopened w.now) desk (λ q. refl) (λ q is. refl)
            at_)
      | inr open_ ↦ rw open_ at_
    ]

    by_links-Agrees :
        (ok : Bool) (check : DependencyCheck) (t : Terms) (desk : Desk)
        → IsAt r.id r.status desk
        → Agrees r.id (by_links new_url w r rule ok check t desk)
    by_links-Agrees false check t desk at_ =
        let write = barred w.now rule check in
        IsAt-any r.id (blocked_status rule) (set_request r.id write desk)
          (set-IsAt r.status (blocked_status rule) write desk (λ q. refl) (λ q is. refl) at_)
    by_links-Agrees true check t desk at_ =
        try_service-Agrees t (reopen new_url w r rule desk) _
          (services-IsPlain r.betting_house_slug) (reopen-IsAt desk at_)

    with_resolution-Agrees :
        (hold : Bool) (snap : Snap) (desk : Desk)
        → IsAt r.id r.status desk
        → Agrees r.id (with_resolution new_url w r rule hold snap desk)
    with_resolution-Agrees true snap desk at_ =
        let write = λ (q : LinkRequest). reopened w.now (snapped w.now snap q) in
        IsAt-any r.id RequestStatus.pending (set_request r.id write desk)
          (set-IsAt r.status RequestStatus.pending write desk (λ q. refl) (λ q is. refl) at_)
    with_resolution-Agrees false snap desk at_ =
        by_links-Agrees _ _ _ (set_request r.id (snapped w.now snap) desk)
          (set-IsAt r.status r.status (snapped w.now snap) desk (λ q. refl) (λ q is. is) at_)

  module _ (w : World) (quiet : Quiet w) (accounts : List Account) (rules : List RuleOfHouse)
      (recalculate : Bool) where
    either :
        (b : Bool) (x y : Reply) (id : String)
        → Agrees id x
        → Agrees id y
        → Agrees id (if b then x else y)
    either true x y id h k = h
    either false x y id h k = k

    reprocess_by-Agrees :
        (r : LinkRequest) (desk : Desk) (rule : Option HouseLinkRule)
        → str_eq r.betting_house_slug "esportivabet" ≡ false
        → IsAt r.id r.status desk
        → Agrees r.id (reprocess_by new_url w accounts rules recalculate r desk rule)
    reprocess_by-Agrees r desk none plain at_ = tt
    reprocess_by-Agrees r desk (some rule) plain at_ =
        either (recalculate || not (is_some r.resolved_cpa)) _ _ r.id
          (with_resolution-Agrees w quiet r rule plain _ _ desk at_)
          (by_links-Agrees w quiet r rule plain _ _ _ desk at_)

    -- Where nothing else is written in between, and the request is not one of Esportiva, a call
    -- that ends without an error answers with the status in which it leaves the request.
    pub reprocess_request-Agrees :
        (reason : String) (r : LinkRequest) (desk : Desk)
        → find (request_has_id r.id) desk.db.requests ≡ some r
        → str_eq r.betting_house_slug "esportivabet" ≡ false
        → Agrees r.id (reprocess_request new_url w accounts rules recalculate reason r.id desk)
    unfolding reprocess_request
    reprocess_request-Agrees reason r desk found plain =
        either (not (filled (trim reason))) _ _ r.id tt (
          rw found (
            either (request_status_eq r.status RequestStatus.fulfilled) _ _ r.id tt
              (reprocess_by-Agrees r desk _ plain (r, found, refl))))
