-- ===== src/Link/Cpa/Newest.antt =====
-- The rows that `readRealCpa` and `readDealCpa` (backend-vexxa/src/modules/link-request/
-- application/cpa-resolution.service.ts) find, without their queries.
use mathlib.Core.Path.{subst}
use painel_mt_affiliates.Common.{
  ℕ, ◌≤◌, ◌≡◌, refl, ap, Bool, true, false, not, ◌&&◌, Option, none, some, List, [], ◌∷◌, String,
  str_eq, eq_iff, is_some, some_inj, ltb, All, All-map, Bool-cases, Option-cases, ◌⊎◌, inl, inr,
  arith,
}
use painel_mt_affiliates.Common.Int.{ℤ}
use painel_mt_affiliates.Link.Types.{
  AffiliateLink, LinkSource, pool, manual, is_real_source, is_real_active_link_row, LinkRequest,
  RequestStatus, fulfilled, request_status_eq,
}
use painel_mt_affiliates.Link.Cpa.{
  latest_link, newer_link, is_real_cpa_link, is_deal_request, is_deal,
}

-- some row of the table
abbrev pub Any {ℓ} : {A : Type ℓ} → (A → Type 0) → List A → Type 0
Any P [] = ⊥
Any P (x ∷ xs) = P x ⊎ Any P xs

-- A link of the user in the house, not deleted, from a pool or by hand, with the CPA.
abbrev pub HasCpa : String → String → ℤ → AffiliateLink → Type 0
HasCpa user house c l =
    (l.user_id ≡ user)
    × (l.betting_house ≡ house)
    × (l.deleted_at ≡ none)
    × ((l.source ≡ pool) ⊎ (l.source ≡ manual))
    × (l.cpa ≡ some c)

-- A request of the user for the deal in the house, fulfilled with the CPA.
abbrev pub HasDealCpa : String → String → String → ℤ → LinkRequest → Type 0
HasDealCpa user house deal c r =
    (r.user_id ≡ user)
    × (r.deal_id ≡ some deal)
    × (r.betting_house_slug ≡ house)
    × (r.status ≡ fulfilled)
    × (r.resolved_cpa ≡ some c)

none-not : {A : Type 0} → (o : Option A) → not (is_some o) ≡ true → o ≡ none
none-not none h = refl
none-not (some a) h = absurd (cc)

real-cases : (s : LinkSource) → is_real_source s ≡ true → (s ≡ pool) ⊎ (s ≡ manual)
real-cases pool h = inl refl
real-cases manual h = inr refl
real-cases _ h = absurd (cc)

fulfilled-eq : (s : RequestStatus) → request_status_eq s fulfilled ≡ true → s ≡ fulfilled
fulfilled-eq RequestStatus.pending h = absurd (cc)
fulfilled-eq RequestStatus.fulfilled h = refl
fulfilled-eq RequestStatus.rejected h = absurd (cc)

pub is_real_cpa_link-HasCpa :
    (user house : String) (l : AffiliateLink)
    → is_real_cpa_link user house l ≡ true
    → (c : ℤ) × HasCpa user house c l
unfolding is_real_active_link_row
is_real_cpa_link-HasCpa user house l h = elim (Option-cases l.cpa) [
  | inl missing ↦ absurd (let h' = rw missing at h in ground (arith, h'))
  | inr (c, has) ↦
      let whose : str_eq l.user_id user ≡ true = ground (arith, h) in
      let where_ : str_eq l.betting_house house ≡ true = ground (arith, h) in
      let kept : not (is_some l.deleted_at) ≡ true = ground (arith, h) in
      let real : is_real_source l.source ≡ true = ground (arith, h) in
      (
        c,
        (
          (eq_iff l.user_id user).0 whose,
          (eq_iff l.betting_house house).0 where_,
          none-not l.deleted_at kept,
          real-cases l.source real,
          has,
        ),
      )
]

pub HasCpa-is_real_cpa_link :
    (user house : String) (c : ℤ) (l : AffiliateLink)
    → HasCpa user house c l
    → is_real_cpa_link user house l ≡ true
unfolding is_real_active_link_row
HasCpa-is_real_cpa_link user house c l (whose, where_, kept, inl s, has) =
    rw ((eq_iff l.user_id user).1 whose, (eq_iff l.betting_house house).1 where_, kept, s, has) refl
HasCpa-is_real_cpa_link user house c l (whose, where_, kept, inr s, has) =
    rw ((eq_iff l.user_id user).1 whose, (eq_iff l.betting_house house).1 where_, kept, s, has) refl

is_deal-eq : (deal : String) (d : Option String) → is_deal deal d ≡ true → d ≡ some deal
is_deal-eq deal none h = absurd (cc)
is_deal-eq deal (some d) h = ap some ((eq_iff d deal).0 h)

and5 :
    (a b c d e : Bool)
    → (a && b && c && d && e) ≡ true
    → (a ≡ true) × (b ≡ true) × (c ≡ true) × (d ≡ true) × (e ≡ true)
and5 a b c d e h =
    (ground (arith, h), ground (arith, h), ground (arith, h), ground (arith, h), ground (arith, h))

some-given : (o : Option ℤ) → is_some o ≡ true → (c : ℤ) × (o ≡ some c)
some-given none h = absurd (cc)
some-given (some c) h = (c, refl)

pub is_deal_request-HasDealCpa :
    (user house deal : String) (r : LinkRequest)
    → is_deal_request user house deal r ≡ true
    → (c : ℤ) × HasDealCpa user house deal c r
is_deal_request-HasDealCpa user house deal r h =
    let (whose, of_deal, where_, done, priced) =
      and5 (str_eq r.user_id user) (is_deal deal r.deal_id) (str_eq r.betting_house_slug house)
        (request_status_eq r.status fulfilled) (is_some r.resolved_cpa) h in
    let (c, has) = some-given r.resolved_cpa priced in
    (
      c,
      (
        (eq_iff r.user_id user).0 whose,
        is_deal-eq deal r.deal_id of_deal,
        (eq_iff r.betting_house_slug house).0 where_,
        fulfilled-eq r.status done,
        has,
      ),
    )

pub HasDealCpa-is_deal_request :
    (user house deal : String) (c : ℤ) (r : LinkRequest)
    → HasDealCpa user house deal c r
    → is_deal_request user house deal r ≡ true
HasDealCpa-is_deal_request user house deal c r (whose, of_deal, where_, done, has) =
    rw
      (
        (eq_iff r.user_id user).1 whose,
        of_deal,
        (eq_iff deal deal).1 refl,
        (eq_iff r.betting_house_slug house).1 where_,
        done,
        has,
      )
      refl

-- no row passes the test
abbrev pub AllFail {ℓ} : {A : Type ℓ} → (A → Bool) → List A → Type 0
AllFail test xs = All (λ x. test x ≡ false) xs

-- the link passes the test, and none that does was written later
abbrev pub IsLatest : (AffiliateLink → Bool) → List AffiliateLink → AffiliateLink → Type 0
IsLatest test ls l =
    (test l ≡ true)
    × Any (λ x. x ≡ l) ls
    × All (λ x. test x ≡ true → x.updated_at ≤ l.updated_at) ls

pub latest_link-none :
    (test : AffiliateLink → Bool) (ls : List AffiliateLink)
    → latest_link test ls ≡ none
    → AllFail test ls
latest_link-none test [] h = tt
latest_link-none test (l ∷ ls) h = elim (Bool-cases (test l)) [
  | inr fails ↦ (fails, latest_link-none test ls (rw fails at h))
  | inl passes ↦ absurd (newer_link-some l (latest_link test ls) (rw passes at h))
]
  where
    newer_link-some : (l : AffiliateLink) (o : Option AffiliateLink) → newer_link l o ≡ none → ⊥
    newer_link-some l none h = absurd (cc)
    newer_link-some l (some m) h = elim (Bool-cases (ltb l.updated_at m.updated_at)) [
      | inl older ↦ absurd (let h' = rw older at h in cc)
      | inr newer ↦ absurd (let h' = rw newer at h in cc)
    ]

pub AllFail-latest_link :
    (test : AffiliateLink → Bool) (ls : List AffiliateLink)
    → AllFail test ls
    → latest_link test ls ≡ none
AllFail-latest_link test [] h = refl
AllFail-latest_link test (l ∷ ls) (fails, rest) = rw fails (AllFail-latest_link test ls rest)

fails-any :
    (test : AffiliateLink → Bool) (n : ℕ) (x : AffiliateLink)
    → test x ≡ false
    → test x ≡ true
    → x.updated_at ≤ n
fails-any test n x fails passes = absurd (cc)

pub latest_link-IsLatest :
    (test : AffiliateLink → Bool) (ls : List AffiliateLink) (l : AffiliateLink)
    → latest_link test ls ≡ some l
    → IsLatest test ls l
latest_link-IsLatest test [] l h = absurd (cc)
latest_link-IsLatest test (x ∷ ls) l h = elim (Bool-cases (test x)) [
  | inr fails ↦
      let (passes, stands, newest) = latest_link-IsLatest test ls l (rw fails at h) in
      (passes, inr stands, (fails-any test l.updated_at x fails, newest))
  | inl passes ↦ elim (Option-cases (latest_link test ls)) [
    | inl alone ↦
        let same = some_inj x l (rw (passes, alone) at h) in
        subst (IsLatest test (x ∷ ls)) same (
          passes,
          inl refl,
          (
            λ t. omega arith,
            All-map _ _ (fails-any test x.updated_at) ls (latest_link-none test ls alone),
          ),
        )
    | inr (m, other) ↦
        let (mpasses, stands, newest) = latest_link-IsLatest test ls m other in
        elim (Bool-cases (ltb x.updated_at m.updated_at)) [
          | inl older ↦
              let same = some_inj m l (rw (passes, other, older) at h) in
              subst (IsLatest test (x ∷ ls)) same
                (mpasses, inr stands, (λ t. ground (arith, older), newest))
          | inr newer ↦
              let same = some_inj x l (rw (passes, other, newer) at h) in
              let le : m.updated_at ≤ x.updated_at = ground (arith, newer) in
              subst (IsLatest test (x ∷ ls)) same (
                passes,
                inl refl,
                (
                  λ t. omega arith,
                  All-map _ _ (λ y old t. let before = old t in omega (arith, before, le)) ls
                      newest,
                ),
              )
        ]
  ]
]
