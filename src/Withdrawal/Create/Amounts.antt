-- ===== src/Withdrawal/Create/Amounts.antt =====
-- What a successful `create` writes: the amounts and the row.
use mathlib.Core.Path.{subst₂}
use painel_mt_affiliates.Common.{
  ℕ, ◌+◌, ◌≤◌, ◌≡◌, ◌⊎◌, refl, ap, sym, ◌∙◌, not, ◌&&◌, true, false, Option, none, some, List, [],
  ◌∷◌, ◌++◌, String, str_eq, eq_iff, find, or_else, Bool-cases, Option-cases, inl, inr, arith,
  if◌then◌else◌,
}
use painel_mt_affiliates.Common.Int.{ℤ, pos, leb_ℤ, ltb_ℤ, pos_part, ◌≤ℤ◌, max_ℤ}
use painel_mt_affiliates.Withdrawal.Types.{
  pending, Withdrawal, Release, User, Store, Result, ok, err, ◌>>=◌, throw_if, no_bonus, Error,
  below_minimum, average_too_low,
}
use painel_mt_affiliates.Withdrawal.Create.{
  Env, CreateDto, prepare, create, take_day, house_available, bonus_available, bonus_or_throw,
  fee_rate, fee_of, check_user, check_house, find_house, offered, commit, available_for, minimum_of,
  restriction_error, new_row,
}

fee_rate-le : (setting : Option (Option ℤ)) → fee_rate setting ≤ 1000000
unfolding fee_rate
fee_rate-le setting = ground arith

-- The rounded fee is never more than the amount.
fee_of-le : (original rate : ℕ) → rate ≤ 1000000 → fee_of original rate ≤ original
unfolding fee_of
fee_of-le original rate h = grind arith

-- A chain that ends well had a first call that did: its value, and the rest run on it.
pub >>=-passed :
    {A B : Type 0} (first : Result A) (rest : A → Result B) {last : B}
    → (first >>= rest) ≡ ok last
    → (value : A) × (first ≡ ok value) × (rest value ≡ ok last)
>>=-passed (err thrown) rest passed = absurd (cc)
>>=-passed (ok value) rest passed = (value, refl, passed)

-- What `create` prepares when nothing is thrown.
pub record Prepared (env : Env) (id : String) (u : User) (dto : CreateDto) (s : Store)
    (rs : List Release) (w : Withdrawal) : Type 0 where
  pub ident : w.id ≡ id
  pub status : w.status ≡ pending
  pub owner : w.user_id ≡ u.id
  pub house : w.betting_house ≡ dto.betting_house
  pub at : w.created_at ≡ env.now
  pub split : w.amount + w.withdrawal_fee ≡ w.original_amount
  pub unrefunded : w.gateway_refunded_amount ≡ none
  pub day : take_day env.now u.id dto.betting_house s ≡ ok rs
  pub source : available_for env u dto.betting_house s ≡ ok (pos w.original_amount)

pub bonus_or_throw-ok :
    (u : User) (ws : List Withdrawal) (a : ℤ)
    → bonus_or_throw u ws ≡ ok a
    → (a ≡ bonus_available u ws) × (pos 1 ≤ℤ a)
unfolding bonus_or_throw
bonus_or_throw-ok u ws a e = elim (Bool-cases (leb_ℤ (bonus_available u ws) (pos 0))) [
  | inl none_left ↦ absurd (let e' : err no_bonus ≡ ok a = rw none_left at e in cc)
  | inr left ↦
      let e' : ok (bonus_available u ws) ≡ ok a = rw left at e in
      let same : a ≡ bonus_available u ws = cc in (same, rw same (ground arith))
]

-- A comparison that did not throw.
throw_if-ltb : (a b : ℤ) (e : Error) {u : Unit {0}} → throw_if (ltb_ℤ a b) e ≡ ok u → b ≤ℤ a
throw_if-ltb a b e h = ground arith

-- What a house pays out is its net balance, at least the minimum.
pub house_available-ok :
    (env : Env) (house : String) (a : ℤ)
    → house_available env house ≡ ok a
    → (a ≡ max_ℤ (pos 0) (offered (find_house house env.balance.per_house)))
      × (pos (minimum_of env) ≤ℤ a)
      × ((env.balance.exempt_by_network_head ≡ true) ⊎ (env.balance.below_minimum ≡ false))
unfolding house_available
house_available-ok env house a e =
    let found = find_house house env.balance.per_house in
    let available : ℤ = max_ℤ (pos 0) (offered found) in
    let (_, _, e1) = >>=-passed (restriction_error found) _ e in
    let (_, enough, e2) =
      >>=-passed (throw_if (ltb_ℤ available (pos (minimum_of env))) below_minimum) _ e1 in
    let (_, compliant, e3) =
      >>=-passed
        (throw_if (not env.balance.exempt_by_network_head && env.balance.below_minimum)
          average_too_low)
        _ e2 in
    let same : a ≡ available = cc in
    (
      same,
      rw same (throw_if-ltb available (pos (minimum_of env)) below_minimum enough),
      ground (arith, compliant),
    )

available_for-nonneg :
    (env : Env) (u : User) (house : String) (s : Store) (a : ℤ)
    → available_for env u house s ≡ ok a
    → pos (pos_part a) ≡ a
unfolding available_for
available_for-nonneg env u house s a e = elim (Bool-cases (str_eq house "bonus")) [
  | inl bonus ↦ let h = bonus_or_throw-ok u s.withdrawals a (rw bonus at e) in ground (arith, h.1)
  | inr other ↦ let h = house_available-ok env house a (rw other at e) in ground (arith, h.1)
]

pub prepare-Prepared :
    (env : Env) (id : String) (u : User) (dto : CreateDto) (s : Store) (rs : List Release)
    (w : Withdrawal)
    → prepare env id u dto s ≡ ok (rs, w)
    → Prepared env id u dto s rs w
unfolding prepare
prepare-Prepared env id u dto s rs w e =
    let (_, _, e1) = >>=-passed (check_user u) _ e in
    let (_, _, e2) =
      >>=-passed (if str_eq dto.betting_house "bonus" then ok tt else check_house env) _ e1 in
    let (rs', day, e3) = >>=-passed (take_day env.now u.id dto.betting_house s) _ e2 in
    let (a, found, e4) = >>=-passed (available_for env u dto.betting_house s) _ e3 in
    let fee = fee_of (pos_part a) (fee_rate env.fee_setting) in
    let row =
      new_row id u.id dto env.now (pos_part a) fee (or_else u.pix_key_type "")
        (or_else u.pix_key "") in
    let same : row ≡ w = cc in
    let releases : rs' ≡ rs = cc in
    let made : Prepared env id u dto s rs' row = record {
      ident = refl;
      status = refl;
      owner = refl;
      house = refl;
      at = refl;
      split =
          omega (
            arith,
            fee_of-le (pos_part a) (fee_rate env.fee_setting) (fee_rate-le env.fee_setting),
          );
      unrefunded = refl;
      day = day;
      source = found ∙ ap ok (sym (available_for-nonneg env u dto.betting_house s a found));
    } in
    subst₂ (Prepared env id u dto s) releases same made

find_user :
    (id : String) (us : List User) {u : User}
    → find (λ (u : User). str_eq u.id id) us ≡ some u
    → u.id ≡ id
find_user id [] e = absurd (cc)
find_user id (v ∷ us) {u} e = elim (Bool-cases (str_eq v.id id)) [
  | inl here ↦
      let found : some v ≡ some u = rw here at e in
      let same : v ≡ u = cc in rw (← same) ((eq_iff v.id id).0 here)
  | inr there ↦ find_user id us (rw there at e)
]

-- A successful `create`, taken apart.
pub create-Prepared :
    (env : Env) (id user_id : String) (dto : CreateDto) (s s' : Store) (w : Withdrawal)
    → create env id user_id dto s ≡ (ok w, s')
    → (u : User) × (rs : List Release) × (u.id ≡ user_id)
      × (find (λ (u : User). str_eq u.id user_id) s.users ≡ some u)
      × Prepared env id u dto s rs w
      × (s' ≡ commit rs w s)
unfolding create
create-Prepared env id user_id dto s s' w e =
    elim (Option-cases (find (λ (u : User). str_eq u.id user_id) s.users)) [
      | inl missing ↦ absurd (let e' = rw (missing, create) at e in cc)
      | inr (u, found) ↦
          let e' = rw (found, create) at e in prepared u found (prepare env id u dto s) refl e'
    ]
  where
    prepared :
        (u : User)
        → find (λ (u : User). str_eq u.id user_id) s.users ≡ some u
        → (r : Result (List Release × Withdrawal)) → prepare env id u dto s ≡ r
        → ◌≡◌ {A = Result Withdrawal × Store}
            (elim r [ ok (rs, w) ↦ (ok w, commit rs w s) | err e ↦ (err e, s) ])
            (ok w, s')
        → (u : User) × (rs : List Release) × (u.id ≡ user_id)
          × (find (λ (u : User). str_eq u.id user_id) s.users ≡ some u)
          × Prepared env id u dto s rs w
          × (s' ≡ commit rs w s)
    prepared u found (err x) p q = absurd (cc)
    prepared u found (ok (rs, w')) p q =
        let same : w' ≡ w = cc in
        let after : s' ≡ commit rs w' s = cc in
        (
          u,
          rs,
          find_user user_id s.users found,
          found,
          prepare-Prepared env id u dto s rs w (p ∙ ap (λ v. ok (rs, v)) same),
          rw (← same) after,
        )

-- A failed `create` leaves the store as it was.
pub create-err :
    (env : Env) (id user_id : String) (dto : CreateDto) (s s' : Store) (x : Error)
    → create env id user_id dto s ≡ (err x, s')
    → s' ≡ s
unfolding create
create-err env id user_id dto s s' x e = ground arith

-- A withdrawal of a house that is created is pending, splits its original amount into net amount
-- and fee, and takes exactly the house's net balance, which is at least the minimum; it is added
-- behind the rows that were there.
pub create_house :
    (env : Env) (id user_id : String) (dto : CreateDto) (s s' : Store) (w : Withdrawal)
    → str_eq dto.betting_house "bonus" ≡ false
    → create env id user_id dto s ≡ (ok w, s')
    → (w.status ≡ pending)
      × (w.amount + w.withdrawal_fee ≡ w.original_amount)
      × (pos w.original_amount
          ≡ max_ℤ (pos 0) (offered (find_house dto.betting_house env.balance.per_house)))
      × (minimum_of env ≤ w.original_amount)
      × (s'.withdrawals ≡ s.withdrawals ++ w ∷ [])
unfolding available_for
create_house env id user_id dto s s' w other e =
    let (u, rs, _, _, made, after) = create-Prepared env id user_id dto s s' w e in
    let (exact, least, _) =
      house_available-ok env dto.betting_house (pos w.original_amount) (rw other at made.source) in
    (made.status, made.split, exact, omega (arith, least), ap (λ (s : Store). s.withdrawals) after)
