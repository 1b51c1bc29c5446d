-- ===== src/Pool/Tests.antt =====
-- Runs of the assignment and of its job, and instances of their theorems.

use painel_mt_affiliates.Common.{
  ℕ, ◌≡◌, refl, true, false, ◌&&◌, Option, none, some, List, [], ◌∷◌, String, str_eq, any, All,
  if◌then◌else◌, arith, Bool-cases, inl, inr,
}
use painel_mt_affiliates.Common.Int.{pos}
use painel_mt_affiliates.Common.Text.{trim}
use painel_mt_affiliates.Link.Types.{AffiliateLink, LinkRequest, RequestStatus}
use painel_mt_affiliates.Pool.Types.{
  SheetRow, Assigned, assigned, Options, Db, Moment, at_commit, World, row_marked, notified,
  approved_webhook,
}
use painel_mt_affiliates.Pool.Houses.{extract_campaign_id, betano, esportiva}
use painel_mt_affiliates.Pool.Commit.{own_link, has_conflict, blank_link, has_commission, commit}
use painel_mt_affiliates.Pool.Commit.Unique.{IsUnique, OnceIn}
use painel_mt_affiliates.Pool.Assign.{try_assign, rows_of, acquire_lock_with_backoff}
use painel_mt_affiliates.Pool.Assign.Endings.{is_ready}
use painel_mt_affiliates.Pool.Assign.Once.{try_assign-OnceIn}
use painel_mt_affiliates.Pool.Assign.Decides.{
  is_assigned, is_available, rows_or_none, try_assign-decides,
}
use painel_mt_affiliates.Pool.Assign.Stored.{Took, Holds, try_assign-stored}
use painel_mt_affiliates.Pool.Assign.Vain.{assigned_in_vain}
use painel_mt_affiliates.Pool.Backfill.{backfill_pending}
use painel_mt_affiliates.Pool.Backfill.Distinct.{
  OnlyFree, AreDistinct, is_free_at, backfill_pending-AreDistinct,
}

-- A parser that takes the whole text for the campaign, of the site 7.
abbrev parse : String → Option (String → Option String)
parse url = some (λ name. if str_eq name "siteid" then some "7" else some url)

abbrev row : ℕ → String → SheetRow
row k url = record { row_index = k; id = url; code = ""; link = url; status = ""; email = "" }

abbrev pool : List SheetRow
pool = row 2 "http://a" ∷ row 3 "http://b" ∷ []

abbrev request : String → LinkRequest
request id = record {
  id = id;
  user_id = "ana";
  deal_id = none;
  betting_house_slug = "betano";
  message = "";
  status = RequestStatus.pending;
  links = [];
  admin_note = "";
  fulfilled_by_id = none;
  fulfilled_by_name = "";
  resolved_cpa = some (pos 600000);
  resolved_revshare = none;
  required_house_slugs = [];
  missing_house_slugs = [];
  blocked_reason = none;
  inviter_id = none;
  created_at = 1;
  fulfilled_at = none;
  updated_at = 1;
}

-- The campaign of the first row is another user's, in the daily house of the family.
abbrev taken : AffiliateLink
taken = record (blank_link "l1" "leo" "betano-diario" 1) { campaign_id = "7-http://a" }

abbrev db : Db
db = record { links = taken ∷ []; requests = request "r" ∷ [] }

abbrev quiet_world : World
quiet_world = record {
  redis = λ k. true;
  pool = some pool;
  email = some "ana@mail";
  others = λ m d. d;
  now = 5;
  new_id = "l2";
}

abbrev opts : Options
opts = record {
  prefetched_rows = none;
  default_commission = some (record { cpa = pos 600000; revshare = pos 0 });
  defer_sheet_write = false;
}

abbrev second : Assigned
second = record {
  campaign_id = "7-http://b";
  affiliate_id = "7";
  link = "http://b";
  row_index = 3;
  email = "ana@mail";
}

gave : (try_assign (betano parse) quiet_world "ana" "r" opts db).result ≡ assigned second
unfolding try_assign extract_campaign_id has_conflict commit
gave = refl

told_others :
    (try_assign (betano parse) quiet_world "ana" "r" opts db).effects
    ≡ row_marked 3 "ana@mail" ∷ notified "ana" "7-http://b" ∷ approved_webhook "r" ∷ []
unfolding try_assign extract_campaign_id has_conflict commit
told_others = refl

one_each : OnceIn ("betano" ∷ "betano-diario" ∷ []) db.links
one_each c = elim (Bool-cases (str_eq "7-http://a" c)) [
  | inl same ↦ rw same (omega arith)
  | inr differs ↦ rw differs (omega arith)
]

try_assign-OnceIn_example :
    OnceIn
      ("betano" ∷ "betano-diario" ∷ [])
      (try_assign (betano parse) quiet_world "ana" "r" opts db).db.links
    × IsUnique (try_assign (betano parse) quiet_world "ana" "r" opts db).db.links
try_assign-OnceIn_example =
    try_assign-OnceIn (betano parse) quiet_world "ana" "r" opts db (λ m d. refl) (refl, tt) refl
      one_each

try_assign-decides_example :
    (is_assigned (try_assign (betano parse) quiet_world "ana" "r" opts db).result ≡ (
      is_ready (betano parse) quiet_world "ana" "r" opts db
      && any
          (is_available (betano parse) "ana" db.links)
          (rows_or_none (rows_of quiet_world opts))))
    × (is_assigned (try_assign (betano parse) quiet_world "ana" "r" opts db).result ≡ false
        → (try_assign (betano parse) quiet_world "ana" "r" opts db).db ≡ db)
try_assign-decides_example =
    try_assign-decides (betano parse) quiet_world "ana" "r" opts db (λ m d. refl) refl

try_assign-stored_example :
    (email : String) × (some "ana@mail" ≡ some email)
    × Took
        (betano parse)
        quiet_world
        "ana"
        "r"
        email
        second
        pool
        (try_assign (betano parse) quiet_world "ana" "r" opts db).rows
    × (false ≡ false
        → Holds
            (betano parse)
            quiet_world
            "ana"
            "r"
            second.campaign_id
            second.link
            (try_assign (betano parse) quiet_world "ana" "r" opts db).db)
try_assign-stored_example =
    try_assign-stored (betano parse) quiet_world "ana" "r" opts db second pool refl gave

-- Another process closes the request before the transaction of the first candidate.
abbrev closing : Moment → Db → Db
closing (at_commit k) d = record d {
  requests = record (request "r") { status = RequestStatus.rejected } ∷ [];
}
closing m d = d

abbrev racing : World
racing = record quiet_world { others = closing }

racing-is_ready : is_ready (esportiva parse) racing "ana" "r" opts db ≡ true
unfolding acquire_lock_with_backoff has_commission
racing-is_ready = refl

racing_row : (esportiva parse).resolve (row 2 "http://a") ≡ some ("MJM COMPANY - http://a", "")
unfolding trim
racing_row = refl

racing_free :
    has_conflict
      (esportiva parse)
      "MJM COMPANY - http://a"
      (own_link (esportiva parse) "ana" db.links)
      db.links
    ≡ false
unfolding has_conflict own_link
racing_free = refl

assigned_in_vain_example :
    (is_assigned (try_assign (esportiva parse) racing "ana" "r" opts db).result ≡ true)
    × ((try_assign (esportiva parse) racing "ana" "r" opts db).db ≡ closing (at_commit 0) db)
assigned_in_vain_example =
    assigned_in_vain (esportiva parse) racing "ana" "r" opts db (row 2 "http://a")
      (row 3 "http://b" ∷ []) "MJM COMPANY - http://a" "" refl refl refl racing-is_ready refl refl
      racing_row racing_free refl

betano-OnlyFree : OnlyFree (betano parse)
betano-OnlyFree r email = refl

backfill_pending-AreDistinct_example :
    AreDistinct
      (backfill_pending (betano parse) (λ i. quiet_world) true true (some pool) db).to_mark
    × All
        (λ m. any (is_free_at (betano parse) betano-OnlyFree m.row_index) pool ≡ true)
        (backfill_pending (betano parse) (λ i. quiet_world) true true (some pool) db).to_mark
backfill_pending-AreDistinct_example =
    backfill_pending-AreDistinct (betano parse) betano-OnlyFree (λ i. quiet_world) true true pool db
      (refl, (refl, tt))
