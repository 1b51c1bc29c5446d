-- ===== src/Common/Sets.antt =====
-- Sets of texts as lists without repetition, as `new Set` of JavaScript keeps them: in the order of
-- insertion.
use Prim.Native.String.{String}
use mathlib.Core.Path.{◌≡◌, refl, ap, ◌∙◌}
use mathlib.Core.Logic.{inl, inr}
use mathlib.Core.Bool.{Bool, true, false, ◌&&◌, ◌||◌}
use mathlib.Core.List.{List, [], ◌∷◌, ◌++◌}
use native.Mathlib.Omega.{arith}
use text.Mathlib.Text.{◌==◌ as str_eq}
use text.Mathlib.TextEquality.{eq_iff}
use painel_mt_affiliates.Common.Tests.{if◌then◌else◌, Bool-cases}
use painel_mt_affiliates.Common.Lists.{any, any-append, filter}

-- `xs.includes(x)` and `set.has(x)`
abbrev pub mem : String → List String → Bool
mem x xs = any (str_eq x) xs

-- `set.add(x)`
abbrev pub add : String → List String → List String
add x xs = if mem x xs then xs else xs ++ x ∷ []

abbrev pub add_all : List String → List String → List String
add_all [] set = set
add_all (x ∷ xs) set = add_all xs (add x set)

or_false : (b : Bool) → (b || false) ≡ b
or_false true = refl
or_false false = refl

mem-add : (c x : String) (set : List String) → mem c (add x set) ≡ (mem c set || str_eq c x)
mem-add c x set = elim (Bool-cases (mem x set)) [
  | inl old ↦ elim (Bool-cases (str_eq c x)) [
    | inl same ↦ rw (old, (eq_iff c x).0 same) (rw old refl)
    | inr other ↦ rw (old, other) (ground arith)
  ]
  | inr new ↦
      rw new (any-append (str_eq c) set (x ∷ []) ∙ ap (λ b. mem c set || b) (or_false (str_eq c x)))
]

pub mem-add_all :
    (c : String) (xs set : List String) → mem c (add_all xs set) ≡ (mem c set || mem c xs)
mem-add_all c [] set = ground arith
mem-add_all c (x ∷ xs) set = mem-add_all c xs (add x set) ∙ rw (mem-add c x set) (ground arith)

pub mem-filter :
    (c : String) (p : String → Bool) (xs : List String) → mem c (filter p xs) ≡ (mem c xs && p c)
mem-filter c p [] = refl
mem-filter c p (x ∷ xs) = elim (Bool-cases (p x)) [
  | inl kept ↦ elim (Bool-cases (str_eq c x)) [
    | inl same ↦
        let kept' : p c ≡ true = rw ((eq_iff c x).0 same) kept in rw (kept, same, kept') refl
    | inr other ↦ rw (kept, other) (mem-filter c p xs)
  ]
  | inr gone ↦ elim (Bool-cases (str_eq c x)) [
    | inl same ↦
        let gone' : p c ≡ false = rw ((eq_iff c x).0 same) gone in
        rw (gone, mem-filter c p xs, gone') (ground arith)
    | inr other ↦ rw (gone, other) (mem-filter c p xs)
  ]
]
