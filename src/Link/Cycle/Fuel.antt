-- ===== src/Link/Cycle/Fuel.antt =====
-- The fuel of the search is enough: each level of its depth sees a new slug.
use painel_mt_affiliates.Common.{
  ℕ, zero, suc, ◌+◌, ◌≤◌, ◌≡◌, ap, sym, ◌∙◌, inl, inr, true, false, not, List, [], ◌∷◌, ◌++◌,
  String, str_eq, eq_iff, count, Bool-cases, arith,
}
use painel_mt_affiliates.Link.Cycle.{mem, out_of_fuel, dfs}
use painel_mt_affiliates.Link.Cycle.Sound.{mem_here, mem_there, Outcome-cases}
use painel_mt_affiliates.Link.Cycle.Closed.{Sub, dfs-Sub}

-- how many slugs have not been seen
abbrev pub unseen : List String → List String → ℕ
unseen v us = count (λ u. not (mem u v)) us

unseen-Sub : (v v' us : List String) → Sub v v' → unseen v' us ≤ unseen v us
unseen-Sub v v' [] s = omega arith
unseen-Sub v v' (u ∷ us) s = elim (Bool-cases (mem u v)) [
  | inl m ↦ rw (m, s u m) (omega (arith, unseen-Sub v v' us s))
  | inr m ↦ rw m (elim (Bool-cases (mem u v')) [
    | inl n ↦ rw n (omega (arith, unseen-Sub v v' us s))
    | inr n ↦ rw n (omega (arith, unseen-Sub v v' us s))
  ])
]

unseen-new :
    (v us : List String) (y : String)
    → mem y us ≡ true
    → mem y v ≡ false
    → unseen (y ∷ v) us + 1 ≤ unseen v us
unseen-new v [] y h n = absurd (cc)
unseen-new v (u ∷ us) y h n = elim (Bool-cases (str_eq y u)) [
  | inl e ↦
      let same = (eq_iff y u).0 e in
      let gone : mem u (y ∷ v) ≡ true = ap (λ z. mem u (z ∷ v)) same ∙ mem_here u v in
      let was : mem u v ≡ false = ap (λ z. mem z v) (sym same) ∙ n in
      rw (gone, was) (omega (arith, unseen-Sub v (y ∷ v) us (λ x m. mem_there x y v m)))
  | inr e ↦
      let ih = unseen-new v us y (rw e at h) n in
      elim (Bool-cases (mem u v)) [
        | inl m ↦ rw (mem_there u y v m, m) (omega (arith, ih))
        | inr m ↦ elim (Bool-cases (mem u (y ∷ v))) [
          | inl k ↦ rw (k, m) (omega (arith, ih))
          | inr k ↦ rw (k, m) (omega (arith, ih))
        ]
      ]
]

module _ (adj : String → List String) (self : String) (us : List String)
    (known : (a : String) → Sub (adj a) us) where
  pub dfs-enough :
      (fuel : ℕ) (path visited ns : List String)
      → Sub ns us
      → unseen visited us ≤ fuel
      → (dfs adj self fuel path visited ns).0 ≡ out_of_fuel
      → ⊥
  unfolding dfs
  dfs-enough fuel path visited [] k h e = absurd (cc)
  dfs-enough zero path visited (y ∷ ns) k h e = elim (Bool-cases (str_eq y self)) [
    | inl found ↦ absurd (let e' = rw found at e in cc)
    | inr other ↦ elim (Bool-cases (mem y visited)) [
      | inl seen ↦
          dfs-enough zero path visited ns (λ x m. k x (mem_there x y ns m)) h
            (rw (other, seen) at e)
      | inr new ↦ absurd (omega (arith, h, unseen-new visited us y (k y (mem_here y ns)) new))
    ]
  ]
  dfs-enough (suc fuel) path visited (y ∷ ns) k h e = elim (Bool-cases (str_eq y self)) [
    | inl found ↦ absurd (let e' = rw found at e in cc)
    | inr other ↦ elim (Bool-cases (mem y visited)) [
      | inl seen ↦
          dfs-enough (suc fuel) path visited ns (λ x m. k x (mem_there x y ns m)) h
            (rw (other, seen) at e)
      | inr new ↦
          let path' = path ++ y ∷ [] in
          let deep = dfs adj self fuel path' (y ∷ visited) (adj y) in
          let less = unseen-new visited us y (k y (mem_here y ns)) new in
          let more =
            unseen-Sub (y ∷ visited) deep.1 us
              (dfs-Sub adj self fuel path' (y ∷ visited) (adj y)) in
          elim (Outcome-cases deep.0) [
            | inl n ↦
                dfs-enough (suc fuel) path deep.1 ns (λ x m. k x (mem_there x y ns m))
                  (omega (arith, h, less, more)) (rw (other, new, n) at e)
            | inr (inl o) ↦
                dfs-enough fuel path' (y ∷ visited) (adj y) (known y) (omega (arith, h, less)) o
            | inr (inr (c, o)) ↦ absurd (let e' = rw (other, new, o) at e in cc)
          ]
    ]
  ]
