-- ===== src/Request/Create/Calm.antt =====
-- The pending requests of a user for a deal (backend-vexxa/src/modules/link-request/application/
-- link-request.service.ts), and the services that bring none.
use mathlib.Core.Path.{subst}
use painel_mt_affiliates.Common.{
  ℕ, ◌≤◌, ◌≡◌, sym, ap, ◌∙◌, true, false, ◌&&◌, some, List, [], ◌∷◌, ◌++◌, String, str_eq, eq_iff,
  All, count, count-append, or_else, is_some, arith, Bool-cases, inl, inr, some_inj, and_left,
  and_right,
}
use painel_mt_affiliates.Link.Types.{LinkRequest}
use painel_mt_affiliates.Pool.Types.{Options, Db, World}
use painel_mt_affiliates.Pool.Commit.{fulfil, request_has_id}
use painel_mt_affiliates.Pool.Assign.Requests.{IsClosing}
use painel_mt_affiliates.Request.Types.{Office, Turn, Desk, Service, in_order, in_sequence}
use painel_mt_affiliates.Request.Steps.{wait, is_pending_for_deal, is_of_deal}
use painel_mt_affiliates.Request.Resolve.{case_of}

-- A user has at most one pending request for a deal.
abbrev pub OnePending : List LinkRequest → Type 0
OnePending rs = (user_id deal : String) → count (is_pending_for_deal user_id deal) rs ≤ 1

-- Other processes bring no pending request of a user for a deal while `create` waits.
abbrev pub IsQuiet : Office → Type 0
IsQuiet office =
    (user deal : String) (turn : Turn) (db : Db)
    → count (is_pending_for_deal user deal) (office.others turn db).requests
      ≤ count (is_pending_for_deal user deal) db.requests

pub wait-count :
    (office : Office) (turn : Turn) (user deal : String) (n : ℕ) (desk : Desk)
    → IsQuiet office
    → count (is_pending_for_deal user deal) desk.db.requests ≤ n
    → count (is_pending_for_deal user deal) (wait office turn desk).db.requests ≤ n
wait-count office turn user deal n desk still h =
    let fewer = still user deal turn desk.db in omega (arith, fewer, h)

pub wait-OnePending :
    (office : Office) (turn : Turn) (desk : Desk)
    → IsQuiet office
    → OnePending desk.db.requests
    → OnePending (wait office turn desk).db.requests
wait-OnePending office turn desk still one u d = wait-count office turn u d 1 desk still (one u d)

-- An assignment by a service that is not in the model brings no pending request.
abbrev pub IsCalm : World → Service → Type 0
IsCalm w (in_order house) = Unit
IsCalm w (in_sequence assign) =
    (user deal user_id request_id : String) (opts : Options) (db : Db)
    → count (is_pending_for_deal user deal) (assign w user_id request_id opts db).db.requests
      ≤ count (is_pending_for_deal user deal) db.requests

pub pending_for_deal-IsClosing : (user deal : String) → IsClosing (is_pending_for_deal user deal)
unfolding fulfil
pending_for_deal-IsClosing user deal id row now r h = elim (Bool-cases (request_has_id id r)) [
  | inl here ↦
      let h' = rw here at h in
      let shut : false ≡ true =
        and_right (is_of_deal deal r) false
          (and_right (str_eq r.user_id user) (is_of_deal deal r && false) h') in
      absurd (cc)
  | inr there ↦ rw there at h
]

pub added-OnePending :
    (user deal : String) (r : LinkRequest) (rs : List LinkRequest)
    → r.user_id ≡ user
    → r.deal_id ≡ some deal
    → count (is_pending_for_deal user deal) rs ≤ 0
    → OnePending rs
    → OnePending (rs ++ r ∷ [])
added-OnePending user deal r rs his of_deal free one u d =
    let before = one u d in
    let sum = count-append (is_pending_for_deal u d) rs (r ∷ []) in
    elim (Bool-cases (is_pending_for_deal u d r)) [
      | inr other ↦ let sum' = rw other at sum in omega (arith, sum', before)
      | inl mine ↦
          let same_user : user ≡ u =
            sym his ∙ (eq_iff r.user_id u).0 (and_left (str_eq r.user_id u) _ mine) in
          let of_d = and_left (is_of_deal d r) _ (and_right (str_eq r.user_id u) _ mine) in
          let named = and_right (is_some r.deal_id) _ of_d in
          let same_deal : deal ≡ d =
            ap (λ o. or_else o "") (sym of_deal) ∙ (eq_iff (or_else r.deal_id "") d).0 named in
          let none_before = rw (same_user, same_deal) at free in
          let sum' = rw mine at sum in omega (arith, sum', none_before)
    ]

pub case_of-IsCalm :
    (w : World) (house : String) (cases : List (String × Service))
    → All (λ (slug, service). IsCalm w service) cases
    → (service : Service) → case_of house cases ≡ some service
    → IsCalm w service
case_of-IsCalm w house [] calm service found = absurd (cc)
case_of-IsCalm w house ((slug, s) ∷ rest) (calm, calms) service found =
    elim (Bool-cases (str_eq house slug)) [
      | inl here ↦ subst (IsCalm w) (some_inj s service (rw here at found)) calm
      | inr there ↦ case_of-IsCalm w house rest calms service (rw there at found)
    ]
