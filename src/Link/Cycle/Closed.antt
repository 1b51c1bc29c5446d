-- ===== src/Link/Cycle/Closed.antt =====
-- A search that finds nothing has left a closed set of houses behind, without the one it began at.
use painel_mt_affiliates.Common.{
  ℕ, zero, suc, ◌≡◌, ◌⊎◌, inl, inr, true, false, List, [], ◌∷◌, ◌++◌, String, str_eq, eq_iff,
  Bool-cases,
}
use painel_mt_affiliates.Link.Cycle.{mem, no_cycle, dfs}
use painel_mt_affiliates.Link.Cycle.Sound.{mem_here, mem_there, Outcome-cases}

abbrev pub Sub : List String → List String → Type 0
Sub v v' = (x : String) → mem x v ≡ true → mem x v' ≡ true

mem-cases : (x y : String) (v : List String) → mem x (y ∷ v) ≡ true → (x ≡ y) ⊎ (mem x v ≡ true)
mem-cases x y v h = elim (Bool-cases (str_eq x y)) [
  | inl e ↦ inl ((eq_iff x y).0 e)
  | inr e ↦ inr (rw e at h)
]

-- a chain of requirements from one house to another, of at least one
pub data Requires (adj : String → List String) (a : String) : String → Type 0 where
  directly : {b : String} → mem b (adj a) ≡ true → Requires adj a b
  further : {b c : String} → Requires adj a b → mem c (adj b) ≡ true → Requires adj a c

module _ (adj : String → List String) (self : String) where
  pub dfs-Sub :
      (fuel : ℕ) (path visited ns : List String) → Sub visited (dfs adj self fuel path visited ns).1
  unfolding dfs
  dfs-Sub fuel path visited [] x h = h
  dfs-Sub zero path visited (y ∷ ns) x h = elim (Bool-cases (str_eq y self)) [
    | inl found ↦ rw found h
    | inr other ↦ elim (Bool-cases (mem y visited)) [
      | inl seen ↦ rw (other, seen) (dfs-Sub zero path visited ns x h)
      | inr new ↦ rw (other, new) h
    ]
  ]
  dfs-Sub (suc fuel) path visited (y ∷ ns) x h = elim (Bool-cases (str_eq y self)) [
    | inl found ↦ rw found h
    | inr other ↦ elim (Bool-cases (mem y visited)) [
      | inl seen ↦ rw (other, seen) (dfs-Sub (suc fuel) path visited ns x h)
      | inr new ↦
          let deep = dfs adj self fuel (path ++ y ∷ []) (y ∷ visited) (adj y) in
          let kept =
            dfs-Sub fuel (path ++ y ∷ []) (y ∷ visited) (adj y) x (mem_there x y visited h) in
          elim (Outcome-cases deep.0) [
            | inl n ↦ rw (other, new, n) (dfs-Sub (suc fuel) path deep.1 ns x kept)
            | inr (inl o) ↦ rw (other, new, o) kept
            | inr (inr (c, o)) ↦ rw (other, new, o) kept
          ]
    ]
  ]

  -- none is the house that the search began at, and all have been seen
  abbrev pub Covered : List String → List String → Type 0
  Covered v ns = (y : String) → mem y ns ≡ true → (str_eq y self ≡ false) × (mem y v ≡ true)

  -- what was newly seen has its requirements covered
  abbrev pub Closed : List String → List String → Type 0
  Closed old v = (x : String) → mem x v ≡ true → (mem x old ≡ true) ⊎ Covered v (adj x)

  Covered-more : (v v' ns : List String) → Sub v v' → Covered v ns → Covered v' ns
  Covered-more v v' ns s h y m = ((h y m).0, s y (h y m).1)

  Covered-cons :
      (v ns : List String) (y : String)
      → str_eq y self ≡ false
      → mem y v ≡ true
      → Covered v ns
      → Covered v (y ∷ ns)
  Covered-cons v ns y e m h x k = elim (mem-cases x y ns k) [
    | inl same ↦ rw same ((e, m))
    | inr rest ↦ h x rest
  ]

  Covered-nil : (v : List String) → Covered v []
  Covered-nil v y m = absurd (cc)

  pub dfs-Closed :
      (fuel : ℕ) (path visited ns : List String)
      → (dfs adj self fuel path visited ns).0 ≡ no_cycle
      → Covered (dfs adj self fuel path visited ns).1 ns
        × Closed visited (dfs adj self fuel path visited ns).1
  unfolding dfs
  dfs-Closed fuel path visited [] e = (Covered-nil visited, λ x m. inl m)
  dfs-Closed zero path visited (y ∷ ns) e = elim (Bool-cases (str_eq y self)) [
    | inl found ↦ absurd (let e' = rw found at e in cc)
    | inr other ↦ elim (Bool-cases (mem y visited)) [
      | inr new ↦ absurd (let e' = rw (other, new) at e in cc)
      | inl seen ↦
          let last = (dfs adj self zero path visited ns).1 in
          let (covered, closed) = dfs-Closed zero path visited ns (rw (other, seen) at e) in
          rw (other, seen)
            ((Covered-cons last ns y other (dfs-Sub zero path visited ns y seen) covered, closed))
    ]
  ]
  dfs-Closed (suc fuel) path visited (y ∷ ns) e = elim (Bool-cases (str_eq y self)) [
    | inl found ↦ absurd (let e' = rw found at e in cc)
    | inr other ↦ elim (Bool-cases (mem y visited)) [
      | inl seen ↦
          let last = (dfs adj self (suc fuel) path visited ns).1 in
          let (covered, closed) = dfs-Closed (suc fuel) path visited ns (rw (other, seen) at e) in
          rw (other, seen)
            ((
              Covered-cons last ns y other (dfs-Sub (suc fuel) path visited ns y seen) covered,
              closed,
            ))
      | inr new ↦
          let path' = path ++ y ∷ [] in
          let deep = dfs adj self fuel path' (y ∷ visited) (adj y) in
          elim (Outcome-cases deep.0) [
            | inr (inl o) ↦ absurd (let e' = rw (other, new, o) at e in cc)
            | inr (inr (c, o)) ↦ absurd (let e' = rw (other, new, o) at e in cc)
            | inl n ↦
                let last = (dfs adj self (suc fuel) path deep.1 ns).1 in
                let (below, closed) = dfs-Closed fuel path' (y ∷ visited) (adj y) n in
                let (covered, later) =
                  dfs-Closed (suc fuel) path deep.1 ns (rw (other, new, n) at e) in
                let more = dfs-Sub (suc fuel) path deep.1 ns in
                let y_seen =
                  more y (dfs-Sub fuel path' (y ∷ visited) (adj y) y (mem_here y visited)) in
                rw (other, new, n)
                  ((
                    Covered-cons last ns y other y_seen covered,
                    λ x m. joined visited y x deep.1 last more below (closed x) (later x m),
                  ))
          ]
    ]
  ]
    where
      joined :
          (visited : List String) (y x : String) (middle last : List String)
          → Sub middle last
          → Covered middle (adj y)
          → (mem x middle ≡ true → (mem x (y ∷ visited) ≡ true) ⊎ Covered middle (adj x))
          → (mem x middle ≡ true) ⊎ Covered last (adj x)
          → (mem x visited ≡ true) ⊎ Covered last (adj x)
      joined visited y x middle last more below closed (inr done) = inr done
      joined visited y x middle last more below closed (inl m) = elim (closed m) [
        | inr done ↦ inr (Covered-more middle last (adj x) more done)
        | inl old ↦ elim (mem-cases x y visited old) [
          | inr before ↦ inl before
          | inl same ↦ inr (rw same (Covered-more middle last (adj y) more below))
        ]
      ]

  -- nothing that is required leads back
  pub Covered-Requires :
      (v : List String)
      → Covered v (adj self)
      → Closed [] v
      → (x : String) → Requires adj self x
      → (str_eq x self ≡ false) × (mem x v ≡ true)
  Covered-Requires v covered closed x (directly e) = covered x e
  Covered-Requires v covered closed x (further {b} r e) =
      let (_, m) = Covered-Requires v covered closed b r in
      elim (closed b m) [ inl none_before ↦ absurd (cc) | inr h ↦ h x e ]
