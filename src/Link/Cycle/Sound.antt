-- ===== src/Link/Cycle/Sound.antt =====
-- A path that is returned is a cycle of the graph.
use mathlib.Core.Path.{subst}
use text.Mathlib.TextPositions.{eq_refl}
use painel_mt_affiliates.Common.{
  ℕ, zero, suc, ◌≤◌, ◌≡◌, refl, ap, ◌∙◌, ◌⊎◌, inl, inr, true, List, [], ◌∷◌, ◌++◌, String, str_eq,
  eq_iff, length, length-append, Bool-cases, arith,
}
use painel_mt_affiliates.Link.Cycle.{mem, Outcome, cycle, no_cycle, out_of_fuel, dfs}

pub mem_here : (x : String) (xs : List String) → mem x (x ∷ xs) ≡ true
mem_here x xs = rw (eq_refl x) refl

pub mem_there : (x y : String) (xs : List String) → mem x xs ≡ true → mem x (y ∷ xs) ≡ true
mem_there x y xs h = elim (Bool-cases (str_eq x y)) [ inl e ↦ rw e refl | inr e ↦ rw e h ]

pub Outcome-cases :
    (o : Outcome) → (o ≡ no_cycle) ⊎ ((o ≡ out_of_fuel) ⊎ ((c : List String) × (o ≡ cycle c)))
Outcome-cases no_cycle = inl refl
Outcome-cases out_of_fuel = inr (inl refl)
Outcome-cases (cycle c) = inr (inr (c, refl))

module _ (adj : String → List String) (self : String) where
  -- each house of the path requires the next one, and the last one is `x`
  abbrev pub WalksTo : List String → String → Type 0
  WalksTo [] x = ⊥
  WalksTo (a ∷ []) x = a ≡ x
  WalksTo (a ∷ b ∷ rest) x = (mem b (adj a) ≡ true) × WalksTo (b ∷ rest) x

  abbrev pub StartsAt : List String → String → Type 0
  StartsAt [] x = ⊥
  StartsAt (a ∷ rest) x = a ≡ x

  pub record IsCycle (path : List String) : Type 0 where
    pub walks : WalksTo path self
    pub starts : StartsAt path self
    pub long : 2 ≤ length path

  extend :
      (path : List String) (a b : String)
      → WalksTo path a
      → mem b (adj a) ≡ true
      → WalksTo (path ++ b ∷ []) b
  extend [] a b w e = absurd w
  extend (x ∷ []) a b w e = (ap (λ y. mem b (adj y)) w ∙ e, refl)
  extend (x ∷ y ∷ rest) a b (h, w) e = (h, extend (y ∷ rest) a b w e)

  starts-append :
      (path : List String) (b : String) → StartsAt path self → StartsAt (path ++ b ∷ []) self
  starts-append [] b s = absurd s
  starts-append (x ∷ rest) b s = s

  closes :
      (path : List String) (a : String)
      → WalksTo path a
      → StartsAt path self
      → mem self (adj a) ≡ true
      → IsCycle (path ++ self ∷ [])
  closes [] a w s e = absurd s
  closes (x ∷ rest) a w s e = record {
    walks = extend (x ∷ rest) a self w e;
    starts = s;
    long = omega (arith, length-append (x ∷ rest) (self ∷ []));
  }

  abbrev Within : List String → String → Type 0
  Within ns a = (x : String) → mem x ns ≡ true → mem x (adj a) ≡ true

  Within-rest : (y : String) (ns : List String) (a : String) → Within (y ∷ ns) a → Within ns a
  Within-rest y ns a h x m = h x (mem_there x y ns m)

  self-in :
      (y : String) (ns : List String) (a : String)
      → Within (y ∷ ns) a
      → str_eq y self ≡ true
      → mem self (adj a) ≡ true
  self-in y ns a h e = h self (rw ((eq_iff y self).0 e) (mem_here self ns))

  pub dfs-IsCycle :
      (fuel : ℕ) (path visited ns : List String) (a : String) (c : List String)
      → WalksTo path a
      → StartsAt path self
      → Within ns a
      → (dfs adj self fuel path visited ns).0 ≡ cycle c
      → IsCycle c
  unfolding dfs
  dfs-IsCycle fuel path visited [] a c w s i e = absurd (cc)
  dfs-IsCycle zero path visited (y ∷ ns) a c w s i e = elim (Bool-cases (str_eq y self)) [
    | inl found ↦
        let e' = rw found at e in
        let same : path ++ self ∷ [] ≡ c = cc in
        subst IsCycle same (closes path a w s (self-in y ns a i found))
    | inr other ↦ elim (Bool-cases (mem y visited)) [
      | inl seen ↦
          dfs-IsCycle zero path visited ns a c w s (Within-rest y ns a i) (rw (other, seen) at e)
      | inr new ↦ absurd (let e' = rw (other, new) at e in cc)
    ]
  ]
  dfs-IsCycle (suc fuel) path visited (y ∷ ns) a c w s i e = elim (Bool-cases (str_eq y self)) [
    | inl found ↦
        let e' = rw found at e in
        let same : path ++ self ∷ [] ≡ c = cc in
        subst IsCycle same (closes path a w s (self-in y ns a i found))
    | inr other ↦ elim (Bool-cases (mem y visited)) [
      | inl seen ↦
          dfs-IsCycle (suc fuel) path visited ns a c w s (Within-rest y ns a i)
            (rw (other, seen) at e)
      | inr new ↦
          let path' = path ++ y ∷ [] in
          let deep = dfs adj self fuel path' (y ∷ visited) (adj y) in
          let w' = extend path a y w (i y (mem_here y ns)) in
          let s' = starts-append path y s in
          elim (Outcome-cases deep.0) [
            | inl none_found ↦
                dfs-IsCycle (suc fuel) path deep.1 ns a c w s (Within-rest y ns a i)
                  (rw (other, new, none_found) at e)
            | inr (inl out) ↦ absurd (let e' = rw (other, new, out) at e in cc)
            | inr (inr (d, found)) ↦
                let e' = rw (other, new, found) at e in
                let same : d ≡ c = cc in
                dfs-IsCycle fuel path' (y ∷ visited) (adj y) y c w' s' (λ x m. m)
                  (found ∙ ap cycle same)
          ]
    ]
  ]
