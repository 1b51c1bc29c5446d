-- ===== src/Link/Cycle/Theorems.antt =====
-- The check as a whole: it decides whether the proposed requirements close a cycle.
use painel_mt_affiliates.Common.{
  ◌≤◌, ◌≡◌, refl, ◌⊎◌, inl, inr, Bool, true, not, List, [], ◌∷◌, ◌++◌, String, str_eq, filter,
  length, Bool-cases, arith,
}
use text.Mathlib.TextPositions.{eq_refl}
use painel_mt_affiliates.Link.Cycle.{
  Graph, requires, mem, adjacent, cycle, no_cycle, dfs, slugs, find_dependency_cycle,
}
use painel_mt_affiliates.Link.Cycle.Sound.{mem_there, Outcome-cases, IsCycle, dfs-IsCycle}
use painel_mt_affiliates.Link.Cycle.Closed.{Sub, Requires, dfs-Closed, Covered-Requires}
use painel_mt_affiliates.Link.Cycle.Fuel.{unseen, dfs-enough}

mem-left : (x : String) (xs ys : List String) → mem x xs ≡ true → mem x (xs ++ ys) ≡ true
mem-left x [] ys h = absurd (cc)
mem-left x (y ∷ xs) ys h = elim (Bool-cases (str_eq x y)) [
  | inl e ↦ rw e refl
  | inr e ↦ rw e (mem-left x xs ys (rw e at h))
]

mem-right : (x : String) (xs ys : List String) → mem x ys ≡ true → mem x (xs ++ ys) ≡ true
mem-right x [] ys h = h
mem-right x (y ∷ xs) ys h = mem_there x y (xs ++ ys) (mem-right x xs ys h)

mem-filter :
    (test : String → Bool) (x : String) (xs : List String)
    → mem x (filter test xs) ≡ true
    → mem x xs ≡ true
mem-filter test x [] h = absurd (cc)
mem-filter test x (y ∷ xs) h = elim (Bool-cases (test y)) [
  | inr t ↦ mem_there x y xs (mem-filter test x xs (rw t at h))
  | inl t ↦
      let h' = rw t at h in
      elim (Bool-cases (str_eq x y)) [
        | inl e ↦ rw e refl
        | inr e ↦ mem_there x y xs (mem-filter test x xs (rw e at h'))
      ]
]

requires-slugs : (graph : Graph) (node : String) → Sub (requires graph node) (slugs graph)
unfolding slugs
requires-slugs [] node x h = absurd (cc)
requires-slugs ((slug, houses) ∷ rest) node x h = elim (Bool-cases (str_eq slug node)) [
  | inl e ↦ mem-left x houses (slugs rest) (rw e at h)
  | inr e ↦ mem-right x houses (slugs rest) (requires-slugs rest node x (rw e at h))
]

adjacent-Sub :
    (graph : Graph) (self : String) (proposed : List String) (node : String)
    → Sub (adjacent graph self proposed node) (proposed ++ slugs graph)
unfolding adjacent
adjacent-Sub graph self proposed node x h = elim (Bool-cases (str_eq node self)) [
  | inl e ↦
      mem-left x proposed (slugs graph)
        (mem-filter (λ s. not (str_eq s self)) x proposed (rw e at h))
  | inr e ↦ mem-right x proposed (slugs graph) (requires-slugs graph node x (rw e at h))
]

unseen-length : (v us : List String) → unseen v us ≤ length us
unseen-length v [] = omega arith
unseen-length v (u ∷ us) = elim (Bool-cases (mem u v)) [
  | inl m ↦ rw m (omega (arith, unseen-length v us))
  | inr m ↦ rw m (omega (arith, unseen-length v us))
]

-- The check never runs out of fuel. It answers with a path of at least two houses that begins and
-- ends at the house, in which each house requires the next one by the rules with the proposed
-- requirements; or it answers that there is none, and then no chain of such requirements, of any
-- length, leads from the house back to it.
pub find_dependency_cycle-decides :
    (graph : Graph) (self : String) (proposed : List String)
    → ((find_dependency_cycle graph self proposed ≡ no_cycle)
        × (Requires (adjacent graph self proposed) self self → ⊥))
      ⊎ ((path : List String) × (find_dependency_cycle graph self proposed ≡ cycle path)
          × IsCycle (adjacent graph self proposed) self path)
unfolding find_dependency_cycle
find_dependency_cycle-decides graph self proposed =
    let adj = adjacent graph self proposed in
    let us = proposed ++ slugs graph in
    let run = dfs adj self (length us) (self ∷ []) [] (adj self) in
    elim (Outcome-cases run.0) [
      | inl n ↦
          let (covered, closed) = dfs-Closed adj self (length us) (self ∷ []) [] (adj self) n in
          inl (
            n,
            λ back.
                let (other, _) = Covered-Requires adj self run.1 covered closed self back in
                absurd (let e = eq_refl self in cc),
          )
      | inr (inl o) ↦ absurd (
          dfs-enough adj self us (adjacent-Sub graph self proposed) (length us) (self ∷ []) []
            (adj self) (adjacent-Sub graph self proposed self) (unseen-length [] us) o)
      | inr (inr (c, o)) ↦ inr (
        c,
        o,
        dfs-IsCycle adj self (length us) (self ∷ []) [] (adj self) self c refl refl (λ x m. m) o,
      )
    ]
