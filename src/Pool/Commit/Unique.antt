-- ===== src/Pool/Commit/Unique.antt =====
-- The transaction of an assignment (backend-vexxa/src/modules/<house>-link-pool/application/
-- <house>-assignment.service.ts) and the uniqueness of ids and campaigns.
use painel_mt_affiliates.Common.{
  ℕ, ◌+◌, ◌≤◌, ◌≡◌, refl, sym, ap, ◌∙◌, inl, inr, Bool, true, false, not, ◌&&◌, ◌||◌, Option, none,
  some, List, [], ◌∷◌, ◌++◌, map, String, str_eq, eq_iff, any, any-cong, any-count, any-append,
  count, count-append, arith, Bool-cases, if◌then◌else◌,
}
use painel_mt_affiliates.Link.Types.{AffiliateLink}
use painel_mt_affiliates.Pool.Commit.{link_has_id, is_other_than, holds_campaign, store_link}

-- No two links have one id.
abbrev pub IsUnique : List AffiliateLink → Type 0
IsUnique [] = Unit
IsUnique (l ∷ ls) = (any (link_has_id l.id) ls ≡ false) × IsUnique ls

-- An active campaign stands at most once in the houses of a family.
abbrev pub OnceIn : List String → List AffiliateLink → Type 0
OnceIn family links = (campaign : String) → count (holds_campaign family campaign) links ≤ 1

and_true : (b : Bool) → (b && true) ≡ b
and_true true = refl
and_true false = refl

bit-le-one : (b : Bool) → (if b then 1 else 0) ≤ 1
bit-le-one true = omega arith
bit-le-one false = omega arith

abbrev bit : Bool → ℕ
bit b = if b then 1 else 0

bit_and_true : (b : Bool) → bit (b && true) ≡ bit b
bit_and_true b = ap bit (and_true b)

count-has_id : (id : String) (ls : List AffiliateLink) → IsUnique ls → count (link_has_id id) ls ≤ 1
count-has_id id [] u = omega arith
count-has_id id (l ∷ ls) (alone, u) = elim (Bool-cases (link_has_id id l)) [
  | inl here ↦
      let same : l.id ≡ id = (eq_iff l.id id).0 here in
      let none_left = any-count (link_has_id id) ls (rw same at alone) in
      rw here (omega (arith, none_left))
  | inr there ↦ rw there (omega (arith, count-has_id id ls u))
]

module _ (write : AffiliateLink → AffiliateLink) (id : String) where
  abbrev pub rewrite_id : AffiliateLink → AffiliateLink
  rewrite_id l = if link_has_id id l then write l else l

  module _ (family : List String) (campaign : String)
      (sets : (l : AffiliateLink) → (write l).campaign_id ≡ campaign) where
    count-rewrite_other :
        (c : String) (ls : List AffiliateLink)
        → str_eq campaign c ≡ false
        → count (holds_campaign family c) (map rewrite_id ls) ≤ count (holds_campaign family c) ls
    count-rewrite_other c [] other = omega arith
    count-rewrite_other c (l ∷ ls) other = elim (Bool-cases (link_has_id id l)) [
      | inl here ↦ rw (here, sets l, other) (omega (arith, count-rewrite_other c ls other))
      | inr there ↦ rw there (omega (arith, count-rewrite_other c ls other))
    ]

    count-rewrite_same :
        (ls : List AffiliateLink)
        → count (holds_campaign family campaign) (map rewrite_id ls)
          ≤ count (link_has_id id) ls
            + count (λ l. holds_campaign family campaign l && not (link_has_id id l)) ls
    count-rewrite_same [] = omega arith
    count-rewrite_same (l ∷ ls) = elim (Bool-cases (link_has_id id l)) [
      | inl here ↦ rw here (
          omega
            (arith, count-rewrite_same ls, bit-le-one (holds_campaign family campaign (write l))))
      | inr there ↦
          rw there
            (omega (arith, count-rewrite_same ls, bit_and_true (holds_campaign family campaign l)))
    ]

-- A link that is stored with a campaign that no other active link of the family has.
module _ (family : List String) (campaign : String) (write : AffiliateLink → AffiliateLink)
    (sets : (l : AffiliateLink) → (write l).campaign_id ≡ campaign) where
  pub OnceIn-store_link :
      (existing : Option AffiliateLink) (blank : AffiliateLink) (links : List AffiliateLink)
      → IsUnique links
      → any (λ l. holds_campaign family campaign l && is_other_than existing l) links ≡ false
      → OnceIn family links
      → OnceIn family (store_link existing write blank links)
  unfolding store_link
  OnceIn-store_link none blank links u free once c = elim (Bool-cases (str_eq campaign c)) [
    | inl same ↦
        let e : campaign ≡ c = (eq_iff campaign c).0 same in
        let none_yet = any-count (holds_campaign family campaign) links (
          sym (
            any-cong _ _ (λ (l : AffiliateLink). and_true (holds_campaign family campaign l)) links)
          ∙ free) in
        let one = bit-le-one (holds_campaign family campaign (write blank)) in
        rw (sym e, count-append (holds_campaign family campaign) links (write blank ∷ []))
          (omega (arith, none_yet, one))
    | inr other ↦
        rw (count-append (holds_campaign family c) links (write blank ∷ []), sets blank, other)
          (omega (arith, once c))
  ]
  OnceIn-store_link (some e) blank links u free once c = elim (Bool-cases (str_eq campaign c)) [
    | inl same ↦
        let e' : campaign ≡ c = (eq_iff campaign c).0 same in
        rw (sym e') (
          omega (
            arith,
            count-rewrite_same write e.id family campaign sets links,
            count-has_id e.id links u,
            any-count (λ l. holds_campaign family campaign l && is_other_than (some e) l) links
                free,
          ))
    | inr other ↦
        omega (arith, once c, count-rewrite_other write e.id family campaign sets c links other)
  ]

head_absent : (a b : Bool) → (a || b) ≡ false → a ≡ false
head_absent true b h = absurd (cc)
head_absent false b h = refl

rest_absent : (a b : Bool) → (a || b) ≡ false → b ≡ false
rest_absent true b h = absurd (cc)
rest_absent false b h = h

any-absent_last :
    (id : String) (ls : List AffiliateLink) (l : AffiliateLink)
    → any (link_has_id id) ls ≡ false
    → link_has_id id l ≡ false
    → any (link_has_id id) (ls ++ l ∷ []) ≡ false
any-absent_last id ls l h n = any-append (link_has_id id) ls (l ∷ []) ∙ rw (h, n) refl

eq_swap : (a b : String) → str_eq a b ≡ false → str_eq b a ≡ false
eq_swap a b h = elim (Bool-cases (str_eq b a)) [
  | inl same ↦ absurd (let n = (eq_iff a b).1 (sym ((eq_iff b a).0 same)) in cc)
  | inr other ↦ other
]

IsUnique-append :
    (ls : List AffiliateLink) (l : AffiliateLink)
    → IsUnique ls
    → any (link_has_id l.id) ls ≡ false
    → IsUnique (ls ++ l ∷ [])
IsUnique-append [] l u fresh = (refl, tt)
IsUnique-append (m ∷ ms) l (alone, u) fresh = (
  any-absent_last m.id ms l alone (eq_swap m.id l.id (head_absent _ _ fresh)),
  IsUnique-append ms l u (rest_absent _ _ fresh),
)

module _ (write : AffiliateLink → AffiliateLink)
    (keeps : (l : AffiliateLink) → (write l).id ≡ l.id) where
  any-rewrite_id :
      (id i : String) (ls : List AffiliateLink)
      → any (link_has_id i) (map (rewrite_id write id) ls) ≡ any (link_has_id i) ls
  any-rewrite_id id i [] = refl
  any-rewrite_id id i (l ∷ ls) = elim (Bool-cases (link_has_id id l)) [
    | inl here ↦ rw (here, keeps l, any-rewrite_id id i ls) refl
    | inr there ↦ rw (there, any-rewrite_id id i ls) refl
  ]

  rewrite_id-id : (id : String) (l : AffiliateLink) → (rewrite_id write id l).id ≡ l.id
  rewrite_id-id id l = elim (Bool-cases (link_has_id id l)) [
    | inl here ↦ rw here (keeps l)
    | inr there ↦ rw there refl
  ]

  pub IsUnique-store_link :
      (existing : Option AffiliateLink) (blank : AffiliateLink) (links : List AffiliateLink)
      → IsUnique links
      → any (link_has_id blank.id) links ≡ false
      → IsUnique (store_link existing write blank links)
  unfolding store_link
  IsUnique-store_link none blank links u fresh =
      IsUnique-append links (write blank) u (rw (keeps blank) fresh)
  IsUnique-store_link (some e) blank [] u fresh = tt
  IsUnique-store_link (some e) blank (l ∷ ls) (alone, u) fresh = (
    rw (rewrite_id-id e.id l, any-rewrite_id e.id l.id ls) alone,
    IsUnique-store_link (some e) blank ls u (rest_absent (link_has_id blank.id l) _ fresh),
  )
