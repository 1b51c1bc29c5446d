-- ===== src/Link/Cpa/Inviter.antt =====
-- What `resolveCpa` (backend-vexxa/src/modules/link-request/application/cpa-resolution.service.ts)
-- makes of the inviter's CPA.
use painel_mt_affiliates.Common.{
  ◌≡◌, ◌↔◌, Bool, true, false, ◌&&◌, Option, none, some, List, String, str_eq, or_else, truthy,
  Bool-cases, ◌⊎◌, inl, inr,
}
use painel_mt_affiliates.Common.Int.{ℤ, pos, ◌≤ℤ◌, ◌-ℤ◌, max_ℤ}
use painel_mt_affiliates.Link.Types.{AffiliateLink, LinkRequest, CpaResolution}
use painel_mt_affiliates.Link.Cpa.{Params, inviter_house_cpa, resolve_cpa}
use painel_mt_affiliates.Link.Cpa.Laws.{hold_iff}
use painel_mt_affiliates.Link.Cpa.Reads.{
  NoCpa, NoDealCpa, read_real_cpa-none_iff, read_deal_cpa-none_iff,
}

-- Superbet's CPAs are looked up by the deal that is asked for.
abbrev pub is_by_deal : Params → Bool
is_by_deal p = str_eq p.house_slug "superbet" && truthy p.deal_id

abbrev pub inviter_of : Params → String
inviter_of p = or_else p.inviter_id ""

-- The inviter has no CPA, by whether it is looked up by the deal.
abbrev pub LacksCpa : Bool → Params → List AffiliateLink → List LinkRequest → Type 0
LacksCpa true p links requests =
    NoDealCpa (inviter_of p) p.house_slug (or_else p.deal_id "") requests
LacksCpa false p links requests = NoCpa (inviter_of p) p.house_slug links

module _ (links : List AffiliateLink) (requests : List LinkRequest) (p : Params) where
  inviter_house_cpa-LacksCpa :
      truthy p.inviter_id ≡ true
      → (inviter_house_cpa links requests p ≡ none) ↔ LacksCpa (is_by_deal p) p links requests
  unfolding inviter_house_cpa
  inviter_house_cpa-LacksCpa invited = elim (Bool-cases (is_by_deal p)) [
    | inl deal ↦
        let spec =
          read_deal_cpa-none_iff (inviter_of p) p.house_slug (or_else p.deal_id "") requests in
        rw (invited, deal) spec
    | inr house ↦
        let spec = read_real_cpa-none_iff (inviter_of p) p.house_slug links in
        rw (invited, house) spec
  ]

  -- The resolution is put on hold exactly when there is an inviter and the inviter has no CPA: in
  -- Superbet, where a deal is asked for, no request for that deal fulfilled with a CPA, whatever
  -- links there are, and else no link in the house that is not deleted, comes from a pool or was set
  -- by hand, and has a CPA.
  pub resolve_cpa-hold_iff :
      ((resolve_cpa links requests p).hold ≡ true)
      ↔ ((truthy p.inviter_id ≡ true) × LacksCpa (is_by_deal p) p links requests)
  unfolding resolve_cpa
  resolve_cpa-hold_iff =
      let held = hold_iff links p (inviter_house_cpa links requests p) in
      (
        λ h.
            let (invited, missing) = held.0 h in
            (invited, (inviter_house_cpa-LacksCpa invited).0 missing),
        λ (invited, lacks). held.1 (invited, (inviter_house_cpa-LacksCpa invited).1 lacks),
      )

-- The CPA that the inviter's CPA leads to: less the discount, and no less than zero, up to the
-- threshold, if there is one, and the default above it.
abbrev pub Follows : Params → Option ℤ → ℤ → ℤ → Type 0
Follows p none c cpa = cpa ≡ max_ℤ (pos 0) (c -ℤ p.rule.inviter_cpa_discount)
Follows p (some threshold) c cpa =
    ((c ≤ℤ threshold) × (cpa ≡ max_ℤ (pos 0) (c -ℤ p.rule.inviter_cpa_discount)))
    ⊎ ((c ≤ℤ threshold → ⊥) × (cpa ≡ p.rule.default_cpa))

-- With the inviter's CPA known, and what comes of it.
abbrev pub Resolved : Params → ℤ → CpaResolution → Type 0
Resolved p c r =
    (r.hold ≡ false) × (r.inviter_cpa ≡ some c) × Follows p p.rule.inviter_cpa_threshold c r.cpa
