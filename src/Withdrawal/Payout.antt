-- ===== src/Withdrawal/Payout.antt =====
-- Approvals that interleave: backend-vexxa/src/modules/withdrawal/application/
-- withdrawal.service.ts, `approveAndDispatch` cut at its database calls and its call of the gateway,
-- with every other call of the service, and crashes, in between.
mod Transfers
pub mod Safe
pub mod Once
pub mod Runs
pub mod Amount
pub mod Success
mod Tests
use painel_mt_affiliates.Common.{
  ℕ, ◌+◌, ◌≡◌, Bool, true, false, Option, none, some, List, [], ◌∷◌, String, str_eq, count, any,
}
use painel_mt_affiliates.Withdrawal.Types.{Withdrawal, Transfer, Store, Effect}
use painel_mt_affiliates.Withdrawal.Rows.{find_unique, fire}
use painel_mt_affiliates.Withdrawal.Approve.{
  claim, roll_back, mark_failed, send, settle_duplicate, settle_accepted,
}
use painel_mt_affiliates.Withdrawal.Lifecycle.Steps.{Operation, run, IsFresh, is_plain}

-- The store, the approvals that hold a claim and have not called the gateway, and those that wait
-- for its answer or have to store it.
pub record World : Type 0 where
  pub store : Store
  pub claims : List String
  pub waits : List String

pub data Removes (id : String) : List String → List String → Type 0 where
  here : {ids : List String} → Removes id (id ∷ ids) ids
  there :
      {x : String} {ids rest : List String} → Removes id ids rest → Removes id (x ∷ ids) (x ∷ rest)

-- A step. An approval can end at any point, with an exception or a crash: before it calls the
-- gateway (`breaks_off`) or without storing the answer (`is_unanswered`).
pub data Next (w : World) : World → Type 0 where
  calls :
      (op : Operation)
      → is_plain op ≡ true
      → IsFresh op w.store
      → Next w (record w { store = run op w.store })
  claims :
      (now : ℕ) (id admin : String) (memo : Option String)
      → (claim now id admin memo w.store).0 ≡ true
      → Next w (record w { store = (claim now id admin memo w.store).1; claims = id ∷ w.claims })
  rolls_back :
      (id : String) (rest : List String)
      → Removes id w.claims rest
      → Next w (record w { store = roll_back id w.store; claims = rest })
  gives_up :
      (provider id reason : String) (rest : List String)
      → Removes id w.claims rest
      → Next w (record w { store = mark_failed provider id reason w.store; claims = rest })
  sends :
      (row : Withdrawal) (pix_key_type : String) (cents : ℕ) (rest : List String)
      → Removes row.id w.claims rest
      → Next w (record {
        store = send row pix_key_type cents w.store;
        claims = rest;
        waits = row.id ∷ w.waits;
      })
  is_accepted :
      (now : ℕ) (provider id gateway_id status : String) (rest : List String)
      → Removes id w.waits rest
      → Next w (record w {
        store = settle_accepted now provider id gateway_id status w.store;
        waits = rest;
      })
  is_duplicate :
      (now : ℕ) (provider id : String) (existing : Option String) (rest : List String)
      → Removes id w.waits rest
      → Next w
          (record w { store = settle_duplicate now provider id existing w.store; waits = rest })
  is_refused :
      (provider id reason : String) (rest : List String)
      → Removes id w.waits rest
      → Next w (record w { store = mark_failed provider id reason w.store; waits = rest })
  fires : (e : Effect) → Next w (record w { store = fire e w.store })
  breaks_off :
      (id : String) (rest : List String)
      → Removes id w.claims rest
      → Next w (record w { claims = rest })
  is_unanswered :
      (id : String) (rest : List String)
      → Removes id w.waits rest
      → Next w (record w { waits = rest })

pub data Reaches (w : World) : World → Type 0 where
  rests : Reaches w w
  then_next : {v u : World} → Reaches w v → Next v u → Reaches w u

abbrev pub is_for : String → Transfer → Bool
is_for id t = str_eq t.withdrawal_id id

-- how many payouts the gateway was asked for
abbrev pub times_sent : String → Store → ℕ
times_sent id s = count (is_for id) s.transfers
