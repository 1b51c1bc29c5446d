-- ===== src/Request/Tests.antt =====
-- Runs of the service of requests, and instances of its theorems.

use painel_mt_affiliates.Common.{
  count, ℕ, ◌≡◌, refl, true, false, Option, none, some, List, [], ◌∷◌, String, str_eq, any,
  if◌then◌else◌, arith,
}
use painel_mt_affiliates.Common.Int.{pos}
use painel_mt_affiliates.Link.Types.{
  AffiliateLink, LinkItem, LinkRequest, RequestStatus, RuleType, HouseLinkRule,
}
use painel_mt_affiliates.Link.Cpa.{resolve_cpa}
use painel_mt_affiliates.Link.Dependency.{check_required_links}
use painel_mt_affiliates.Pool.Types.{pool_empty, not_assigned, World}
use painel_mt_affiliates.Pool.Houses.{extract_campaign_id}
use painel_mt_affiliates.Pool.Commit.{blank_link, commit, has_conflict}
use painel_mt_affiliates.Pool.Assign.{try_assign}
use painel_mt_affiliates.Request.Types.{
  Deal, Account, Office, CreateLinkRequest, to_fulfilled, UpdateLinkRequest, ApproveDealRequest,
  SetLinkRequestCpa, Actor, Desk, CreateResult, above_cpa_ceiling, Answer, done, refused, Service,
  in_sequence,
}
use painel_mt_affiliates.Request.Steps.{is_pending_for_deal}
use painel_mt_affiliates.Request.Create.{create}
use painel_mt_affiliates.Request.Create.Fulfilled.{Behind, create-fulfilled}
use painel_mt_affiliates.Request.Create.Calm.{OnePending}
use painel_mt_affiliates.Request.Create.Pending.{create-OnePending}
use painel_mt_affiliates.Request.Writes.{approved}
use painel_mt_affiliates.Request.Review.{update, set_manual_cpa, approve_deal_request}
use painel_mt_affiliates.Request.Review.Refused.{Left, update-refused}
use painel_mt_affiliates.Request.Review.Authority.{is_done, approve_deal_request-barred}
use painel_mt_affiliates.Request.Review.Ceiling.{Bounded, approve_deal_request-Bounded}
use painel_mt_affiliates.Request.Review.Queue.{is_queued, set_manual_cpa-Queued}

-- A parser that takes the whole text for the campaign, of the site 7.
abbrev parse : String → Option (String → Option String)
parse url = some (λ name. if str_eq name "siteid" then some "7" else some url)

abbrev none_left : Service
none_left = in_sequence (λ w user_id request_id opts db. record {
  result = not_assigned pool_empty;
  rows = [];
  db = db;
  effects = [];
})

abbrev world : World
world = record {
  redis = λ k. true;
  pool = some (
      record { row_index = 2; id = ""; code = ""; link = "http://a"; status = ""; email = "" }
      ∷ []);
  email = some "ana@mail";
  others = λ m d. d;
  now = 5;
  new_id = "l2";
}

abbrev rule : HouseLinkRule
rule = record {
  request_enabled = true;
  auto_assign_enabled = true;
  rule_type = RuleType.inviter_discount;
  default_cpa = pos 600000;
  fallback_cpa = pos 400000;
  inviter_cpa_threshold = none;
  inviter_cpa_discount = pos 100000;
  default_revshare = pos 0;
  range_reference_house = none;
  range_tiers = [];
  use_inviter_cpa = true;
  apply_default_no_inviter = true;
  require_active_link_in_houses = true;
  required_house_slugs = "betano" ∷ [];
  block_on_required_fail = true;
  block_message = "";
}

abbrev deal : Deal
deal = record {
  id = "d";
  betting_house_slug = "superbet";
  min_avg_deposit_per_ftd = pos 80;
  min_qualified_ftd = pos 15;
  active = true;
  cpa = pos 600000;
  revshare = pos 0;
  created_at = 1;
}

abbrev accounts : List Account
accounts =
    record { id = "ana"; referred_by_id = none }
    ∷ record { id = "bia"; referred_by_id = some "leo" }
    ∷ []

abbrev office : Office
office = record {
  deals = deal ∷ [];
  active_houses = "superbet" ∷ [];
  rules = record { house_slug = "superbet"; rule = rule } ∷ [];
  accounts = accounts;
  eligible = λ avg qualified. true;
  others = λ turn db. db;
}

abbrev link : String → String → String → ℕ → AffiliateLink
link id user house cpa = record (blank_link id user house 1) {
  campaign_id = id;
  cpa = some (pos cpa);
  revshare = some (pos 0);
}

abbrev empty_desk : Desk
empty_desk = record {
  db = record { links = link "l1" "ana" "betano" 500000 ∷ []; requests = [] };
  log = [];
  told = [];
}

abbrev ask : CreateLinkRequest
ask = record { deal_id = some "d"; betting_house_slug = none; message = none }

abbrev asked : Answer CreateResult × Desk
asked = create parse none_left none_left world "r" office "ana" (λ s. s) false ask empty_desk

abbrev given : CreateResult
given = record {
  id = "r";
  user_id = "ana";
  deal_id = some "d";
  betting_house_slug = "superbet";
  message = "";
  status = RequestStatus.fulfilled;
  created_at = 5;
}

asked_given : asked.0 ≡ done given
unfolding create check_required_links resolve_cpa try_assign extract_campaign_id commit has_conflict
asked_given = refl

create-fulfilled_example :
    Behind parse none_left none_left world "r" office "ana" (λ s. s) ask empty_desk asked.1
create-fulfilled_example =
    create-fulfilled parse none_left none_left world "r" office "ana" (λ s. s) false ask empty_desk
      given asked_given refl

create-OnePending_example : OnePending asked.1.db.requests
create-OnePending_example =
    create-OnePending parse none_left none_left world "r" office "ana" (λ u d m db. omega arith)
      (λ u d turn db. omega arith) (λ u d user request opts db. omega arith)
      (λ u d user request opts db. omega arith) (λ s. s) false ask empty_desk (λ u d. omega arith)

-- Another call of `create`, with the same user and deal, runs after this one has looked for a
-- pending request and before it has stored its own: both are stored.
abbrev legacy_office : Office
legacy_office = record office { rules = [] }

abbrev raced_office : Office
raced_office = record legacy_office {
  others = λ turn db.
      (create parse none_left none_left world "other" legacy_office "ana" (λ s. s) false ask
        (record empty_desk { db = db })).1.db;
}

abbrev raced : Answer CreateResult × Desk
raced = create parse none_left none_left world "r" raced_office "ana" (λ s. s) false ask empty_desk

raced_twice : count (is_pending_for_deal "ana" "d") raced.1.db.requests ≡ 2
unfolding create
raced_twice = refl

abbrev request : String → String → LinkRequest
request user house = record {
  id = "q";
  user_id = user;
  deal_id = some "d";
  betting_house_slug = house;
  message = "";
  status = RequestStatus.pending;
  links = [];
  admin_note = "";
  fulfilled_by_id = none;
  fulfilled_by_name = "";
  resolved_cpa = none;
  resolved_revshare = none;
  required_house_slugs = [];
  missing_house_slugs = [];
  blocked_reason = none;
  inviter_id = none;
  created_at = 1;
  fulfilled_at = none;
  updated_at = 1;
}

abbrev desk_of : String → Desk
desk_of house = record {
  db = record { links = link "l3" "leo" house 500000 ∷ []; requests = request "bia" house ∷ [] };
  log = [];
  told = [];
}

abbrev one_link : List LinkItem
one_link = record { label = ""; url = "http://b" } ∷ []

-- more than the inviter has
abbrev too_much : UpdateLinkRequest
too_much = record {
  status = some to_fulfilled;
  links = one_link;
  admin_note = none;
  manual_campaign_id = none;
  cpa = some (pos 600000);
  revshare = some (pos 0);
}

abbrev overpaid : Answer LinkRequest × Desk
overpaid =
    update 5 "l4" (deal ∷ []) accounts parse "adm" "adm@mail" too_much "q" (desk_of "superbet")

overpaid_refused : overpaid.0 ≡ refused above_cpa_ceiling
unfolding update
overpaid_refused = refl

update-refused_example : Left "q" (desk_of "superbet") above_cpa_ceiling overpaid.1
update-refused_example =
    update-refused 5 "l4" (deal ∷ []) accounts parse "adm" "adm@mail" too_much "q"
      (desk_of "superbet") above_cpa_ceiling overpaid_refused

abbrev leader : Actor
leader = record { sub = "leo"; email = "leo@mail"; is_admin = false }

abbrev stranger : Actor
stranger = record { sub = "ana"; email = "ana@mail"; is_admin = false }

abbrev approval : ApproveDealRequest
approval = record {
  rejects = false;
  links = one_link;
  admin_note = none;
  manual_campaign_id = none;
  cpa = some (pos 400000);
  revshare = none;
}

approve_deal_request-barred_example :
    (is_done
        (approve_deal_request 5 "l4"
          (deal ∷ [])
          accounts
          parse
          stranger
          approval
          "q"
          (desk_of "superbet")).0
      ≡ false)
    × ((approve_deal_request 5 "l4"
          (deal ∷ [])
          accounts
          parse
          stranger
          approval
          "q"
          (desk_of "superbet")).1
        ≡ desk_of "superbet")
approve_deal_request-barred_example =
    approve_deal_request-barred 5 "l4" (deal ∷ []) accounts parse stranger approval "q"
      (desk_of "superbet") refl

abbrev led : Answer LinkRequest × Desk
led =
    approve_deal_request 5 "l4" (deal ∷ []) accounts parse leader approval "q" (desk_of "superbet")

led_done : led.0 ≡ done (approved 5 leader approval (request "bia" "superbet"))
unfolding approve_deal_request
led_done = refl

approve_deal_request-Bounded_example :
    Bounded 5 "l4"
      (deal ∷ [])
      accounts
      parse
      leader
      approval
      "bia"
      "superbet"
      (desk_of "superbet")
      led.1
approve_deal_request-Bounded_example =
    approve_deal_request-Bounded 5 "l4" (deal ∷ []) accounts parse leader approval "q"
      (desk_of "superbet") (request "bia" "superbet")
      (approved 5 leader approval (request "bia" "superbet")) refl refl refl led_done

abbrev price : SetLinkRequestCpa
price = record { cpa = pos 400000; revshare = none }

abbrev priced_desk : Desk
priced_desk =
    (set_manual_cpa 5 "l4" (deal ∷ []) accounts leader "q" price (desk_of "esportiva-diario")).1

set_manual_cpa-Queued_example :
    (priced_desk.db.links ≡ (desk_of "esportiva-diario").db.links)
    × (any (is_queued parse "q" price) priced_desk.db.requests ≡ true)
unfolding set_manual_cpa
set_manual_cpa-Queued_example =
    set_manual_cpa-Queued 5 "l4" (deal ∷ []) accounts parse leader "q" price
      (desk_of "esportiva-diario")
