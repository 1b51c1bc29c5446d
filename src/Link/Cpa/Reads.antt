-- ===== src/Link/Cpa/Reads.antt =====
-- `readRealCpa` and `readDealCpa` (backend-vexxa/src/modules/link-request/application/
-- cpa-resolution.service.ts) against the rows of the tables.
use mathlib.Core.Path.{subst}
use painel_mt_affiliates.Common.{
  ◌≤◌, ◌≡◌, ◌↔◌, refl, sym, Bool, true, false, Option, none, some, List, [], ◌∷◌, String, some_inj,
  All, All-map, Bool-cases, Option-cases, inl, inr,
}
use painel_mt_affiliates.Common.Int.{ℤ}
use painel_mt_affiliates.Link.Types.{AffiliateLink, LinkRequest}
use painel_mt_affiliates.Link.Cpa.{
  latest_link, is_real_cpa_link, read_real_cpa, latest_request, newer_request, is_deal_request,
  read_deal_cpa, is_before,
}
use painel_mt_affiliates.Link.Cpa.Newest.{
  Any, HasCpa, HasDealCpa, is_real_cpa_link-HasCpa, HasCpa-is_real_cpa_link,
  is_deal_request-HasDealCpa, HasDealCpa-is_deal_request, latest_link-none, AllFail-latest_link,
  latest_link-IsLatest,
}

-- No link of the user in the house counts and has a CPA.
abbrev pub NoCpa : String → String → List AffiliateLink → Type 0
NoCpa user house links = All (λ l. (c : ℤ) → HasCpa user house c l → ⊥) links

-- The CPA is that of a link of the user in the house, and no such link was written later.
abbrev pub NewestCpa : String → String → ℤ → List AffiliateLink → Type 0
NewestCpa user house c links =
    Any
      (λ l.
        HasCpa user house c l
        × All (λ y. (d : ℤ) → HasCpa user house d y → y.updated_at ≤ l.updated_at) links)
      links

-- No request of the user for the deal in the house is fulfilled with a CPA.
abbrev pub NoDealCpa : String → String → String → List LinkRequest → Type 0
NoDealCpa user house deal requests =
    All (λ r. (c : ℤ) → HasDealCpa user house deal c r → ⊥) requests

Any-map {ℓ} :
    {A : Type ℓ} (P Q : A → Type 0) → ((x : A) → P x → Q x) → (xs : List A) → Any P xs → Any Q xs
Any-map P Q f [] h = elim h [ ]
Any-map P Q f (x ∷ xs) (inl p) = inl (f x p)
Any-map P Q f (x ∷ xs) (inr h) = inr (Any-map P Q f xs h)

unless-false : (b : Bool) → (b ≡ true → ⊥) → b ≡ false
unless-false true h = absurd (h refl)
unless-false false h = refl

module _ (user house : String) where
  pub read_real_cpa-newest :
      (links : List AffiliateLink) (c : ℤ)
      → read_real_cpa links user house ≡ some c
      → NewestCpa user house c links
  unfolding read_real_cpa
  read_real_cpa-newest links c h =
      elim (Option-cases (latest_link (is_real_cpa_link user house) links)) [
        | inl missing ↦ absurd (let h' = rw missing at h in cc)
        | inr (l, found) ↦
            let (passes, stands, newest) =
              latest_link-IsLatest (is_real_cpa_link user house) links l found in
            let (d, (whose, where_, kept, real, has)) =
              is_real_cpa_link-HasCpa user house l passes in
            let given : l.cpa ≡ some c = rw found at h in
            let latest =
              All-map _
                (λ (y : AffiliateLink).
                  (e : ℤ) → HasCpa user house e y → y.updated_at ≤ l.updated_at)
                (λ y before e priced. before (HasCpa-is_real_cpa_link user house e y priced)) links
                newest in
            Any-map (λ x. x ≡ l) _
              (λ x same.
                subst
                  (λ (z : AffiliateLink).
                    HasCpa user house c z
                    × All
                        (λ (y : AffiliateLink).
                          (e : ℤ) → HasCpa user house e y → y.updated_at ≤ z.updated_at)
                        links)
                  (sym same) ((whose, where_, kept, real, given), latest))
              links stands
      ]

  pub read_real_cpa-none_iff :
      (links : List AffiliateLink)
      → (read_real_cpa links user house ≡ none) ↔ NoCpa user house links
  unfolding read_real_cpa
  read_real_cpa-none_iff links = (
    λ h. elim (Option-cases (latest_link (is_real_cpa_link user house) links)) [
      | inl missing ↦
          All-map _ (λ l. (c : ℤ) → HasCpa user house c l → ⊥)
            (λ l fails c priced.
              absurd (let passes = HasCpa-is_real_cpa_link user house c l priced in cc))
            links (latest_link-none (is_real_cpa_link user house) links missing)
      | inr (l, found) ↦
          let (passes, _, _) = latest_link-IsLatest (is_real_cpa_link user house) links l found in
          let (c, (_, _, _, _, has)) = is_real_cpa_link-HasCpa user house l passes in
          let none_given : l.cpa ≡ none = rw found at h in absurd (cc)
    ],
    λ bare.
        let fail =
          All-map (λ l. (c : ℤ) → HasCpa user house c l → ⊥)
            (λ l. is_real_cpa_link user house l ≡ false)
            (λ l unpriced. unless-false _ (λ passes.
              let (c, priced) = is_real_cpa_link-HasCpa user house l passes in unpriced c priced))
            links bare in
        rw (AllFail-latest_link (is_real_cpa_link user house) links fail) refl,
  )

module _ (user house deal : String) where
  no_deal :
      (requests : List LinkRequest)
      → latest_request (is_deal_request user house deal) requests ≡ none
      → NoDealCpa user house deal requests
  no_deal [] h = tt
  no_deal (r ∷ rs) h = elim (Bool-cases (is_deal_request user house deal r)) [
    | inl passes ↦
        absurd (newer-some r (latest_request (is_deal_request user house deal) rs) (rw passes at h))
    | inr fails ↦ (
      λ c priced. absurd (let passes = HasDealCpa-is_deal_request user house deal c r priced in cc),
      no_deal rs (rw fails at h),
    )
  ]
    where
      newer-some : (r : LinkRequest) (o : Option LinkRequest) → newer_request r o ≡ none → ⊥
      newer-some r none h = absurd (cc)
      newer-some r (some q) h =
          elim (Bool-cases (is_before r.fulfilled_at r.updated_at q.fulfilled_at q.updated_at)) [
            | inl before ↦ absurd (let h' = rw before at h in cc)
            | inr after ↦ absurd (let h' = rw after at h in cc)
          ]

  latest_request-passes :
      (requests : List LinkRequest) (r : LinkRequest)
      → latest_request (is_deal_request user house deal) requests ≡ some r
      → is_deal_request user house deal r ≡ true
  latest_request-passes [] r h = absurd (cc)
  latest_request-passes (q ∷ qs) r h = elim (Bool-cases (is_deal_request user house deal q)) [
    | inr fails ↦ latest_request-passes qs r (rw fails at h)
    | inl passes ↦ elim (Option-cases (latest_request (is_deal_request user house deal) qs)) [
      | inl alone ↦ let same = some_inj q r (rw (passes, alone) at h) in rw (sym same) passes
      | inr (m, other) ↦
          elim (Bool-cases (is_before q.fulfilled_at q.updated_at m.fulfilled_at m.updated_at)) [
            | inl before ↦
                let same = some_inj m r (rw (passes, other, before) at h) in
                rw (sym same) (latest_request-passes qs m other)
            | inr after ↦
                let same = some_inj q r (rw (passes, other, after) at h) in rw (sym same) passes
          ]
    ]
  ]

  none_latest :
      (requests : List LinkRequest)
      → NoDealCpa user house deal requests
      → latest_request (is_deal_request user house deal) requests ≡ none
  none_latest [] bare = refl
  none_latest (r ∷ rs) (unpriced, rest) =
      let fails = unless-false (is_deal_request user house deal r) (λ passes.
        let (c, priced) = is_deal_request-HasDealCpa user house deal r passes in
        unpriced c priced) in
      rw fails (none_latest rs rest)

  pub read_deal_cpa-none_iff :
      (requests : List LinkRequest)
      → (read_deal_cpa requests user house deal ≡ none) ↔ NoDealCpa user house deal requests
  unfolding read_deal_cpa
  read_deal_cpa-none_iff requests = (
    λ h. elim (Option-cases (latest_request (is_deal_request user house deal) requests)) [
      | inl missing ↦ no_deal requests missing
      | inr (r, found) ↦
          let (c, (_, _, _, _, has)) =
            is_deal_request-HasDealCpa user house deal r (latest_request-passes requests r found) in
          let none_given : r.resolved_cpa ≡ none = rw found at h in absurd (cc)
    ],
    λ bare. rw (none_latest requests bare) refl,
  )
