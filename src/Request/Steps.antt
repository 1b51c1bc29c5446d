-- ===== src/Request/Steps.antt =====
-- The queries, rows and records that creation, decisions and backfill of requests share in
-- backend-vexxa/src/modules/link-request/application/link-request.service.ts.
use Prim.Native.String.{◌++◌ as str_append}
use painel_mt_affiliates.Common.{
  Bool, false, not, ◌&&◌, Option, none, some, List, [], ◌∷◌, ◌++◌, String, str_eq, find, is_some,
  leb, or_else, if◌then◌else◌,
}
use painel_mt_affiliates.Link.Types.{
  AffiliateLink, LinkRequest, RequestStatus, HouseLinkRule, CpaResolution, is_real_active_link_row,
}
use painel_mt_affiliates.Pool.Types.{Options, Db, World, Run}
use painel_mt_affiliates.Pool.Houses.{filled}
use painel_mt_affiliates.Pool.Commit.{is_pending}
use painel_mt_affiliates.Pool.Assign.{try_assign}
use painel_mt_affiliates.Request.Types.{
  Office, Turn, Deal, Account, RuleOfHouse, CreateResult, LogEntry, Notice, Desk, RequestError,
  Service, in_order, in_sequence,
}

abbrev pub is_real_link_in : String → String → AffiliateLink → Bool
is_real_link_in user_id house l =
    str_eq l.user_id user_id && (str_eq l.betting_house house && is_real_active_link_row l)

abbrev pub is_deal_eligibility_required : String → Bool → Bool
is_deal_eligibility_required house already_linked =
    str_eq house "betano-diario" && not already_linked

abbrev pub one_request_per_account_houses : List String
one_request_per_account_houses = "mgm" ∷ "esportivabet" ∷ []

abbrev pub is_request_in : String → String → LinkRequest → Bool
is_request_in user_id house r = str_eq r.user_id user_id && str_eq r.betting_house_slug house

abbrev pub is_of_deal : String → LinkRequest → Bool
is_of_deal deal r = is_some r.deal_id && str_eq (or_else r.deal_id "") deal

abbrev pub is_pending_for_deal : String → String → LinkRequest → Bool
is_pending_for_deal user_id deal r = str_eq r.user_id user_id && (is_of_deal deal r && is_pending r)

abbrev pub newer_deal : Deal → Option Deal → Option Deal
newer_deal d none = some d
newer_deal d (some e) = if leb e.created_at d.created_at then some d else some e

-- `findFirst` with `orderBy: { createdAt: 'desc' }`
abbrev pub latest_deal : (Deal → Bool) → List Deal → Option Deal
latest_deal test [] = none
latest_deal test (d ∷ ds) =
    let rest = latest_deal test ds in if test d then newer_deal d rest else rest

abbrev pub rule_in : Option RuleOfHouse → Option HouseLinkRule
rule_in none = none
rule_in (some r) = some r.rule

-- `getRule`, whose cache is taken to be fresh
unfoldable pub get_rule : String → List RuleOfHouse → Option HouseLinkRule
get_rule house rules = rule_in (find (λ r. str_eq r.house_slug house) rules)

abbrev pub referrer_of : String → List Account → Option String
referrer_of user_id accounts =
    let account = find (λ a. str_eq a.id user_id) accounts in
    elim account [ none ↦ none | some a ↦ a.referred_by_id ]

abbrev pub join : String → List String → String
join sep [] = ""
join sep (s ∷ []) = s
join sep (s ∷ t ∷ ss) = str_append s (str_append sep (join sep (t ∷ ss)))

-- `a || b`
abbrev pub text_or : String → String → String
text_or a b = if filled a then a else b

abbrev pub missing_reason : List String → String
missing_reason missing =
    str_append
      "Para solicitar link desta casa, você precisa possuir link ativo nas seguintes casas: "
      (str_append (join ", " missing) ".")

abbrev pub to_create_result : LinkRequest → RequestStatus → CreateResult
to_create_result r status = record {
  id = r.id;
  user_id = r.user_id;
  deal_id = r.deal_id;
  betting_house_slug = r.betting_house_slug;
  message = r.message;
  status = status;
  created_at = r.created_at;
}

abbrev pub add_request : LinkRequest → Desk → Desk
add_request r desk = record desk { db = record desk.db { requests = desk.db.requests ++ r ∷ [] } }

-- what other processes write, at an await
abbrev pub wait : Office → Turn → Desk → Desk
wait office turn desk = record desk { db = office.others turn desk.db }

abbrev pub add_log : LogEntry → Desk → Desk
add_log e desk = record desk { log = desk.log ++ e ∷ [] }

abbrev pub tell : Notice → Desk → Desk
tell n desk = record desk { told = desk.told ++ n ∷ [] }

abbrev pub run_service : Service → World → String → String → Options → Db → Run
run_service (in_order house) w user_id request_id opts db =
    try_assign house w user_id request_id opts db
run_service (in_sequence assign) w user_id request_id opts db = assign w user_id request_id opts db

abbrev pub commission_of : CpaResolution → Options
commission_of res = record {
  prefetched_rows = none;
  default_commission = some (record { cpa = res.cpa; revshare = res.revshare });
  defer_sheet_write = false;
}

-- `if (guard) throw error;`, in a row
abbrev pub first_objection : List (Bool × RequestError) → Option RequestError
first_objection [] = none
first_objection ((guard, e) ∷ rest) =
    let later = first_objection rest in if guard then some e else later
