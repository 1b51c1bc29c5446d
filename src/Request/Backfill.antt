-- ===== src/Request/Backfill.antt =====
-- Old requests: backend-vexxa/src/modules/link-request/application/link-backfill.service.ts. The
-- admin's name is left out, and so is the lock of a house, but for whether a run gets it.
pub mod Summary
pub mod Runs
pub mod Run
pub mod Dry
pub mod Snapshot
pub mod Reprocess
pub mod Agrees
mod Tests
use Prim.Native.String.{◌++◌ as str_append}
use painel_mt_affiliates.Common.{
  ℕ, suc, Bool, true, false, not, ◌&&◌, Option, none, some, List, [], ◌∷◌, ◌++◌, map, String,
  str_eq, any, find, filter, take, is_some, or_else, truthy, if◌then◌else◌,
}
use painel_mt_affiliates.Common.Int.{ℤ, pos}
use painel_mt_affiliates.Common.Text.{trim}
use painel_mt_affiliates.Common.Sets.{mem}
use painel_mt_affiliates.Link.Types.{
  AffiliateLink, LinkRequest, RequestStatus, HouseLinkRule, CpaResolution, request_status_eq,
  is_real_active_link_row,
}
use painel_mt_affiliates.Link.Cpa.{latest_link, resolve_cpa}
use painel_mt_affiliates.Link.Dependency.{DependencyCheck, check_required_links}
use painel_mt_affiliates.Pool.Types.{Db}
use painel_mt_affiliates.Pool.Houses.{filled, superbet, betano, betnacional, hiperbet, esportiva}
use painel_mt_affiliates.Pool.Commit.{request_has_id, is_pending, is_active}
use painel_mt_affiliates.Pool.Backfill.{sort_by_time}
use painel_mt_affiliates.Request.Types.{
  Account, RuleOfHouse, Outcome, blocked, waiting_manual_review, waiting_pool_link,
  waiting_snapshot, link_assigned, LogEntry, of_pool, Desk, Service, in_order,
}
use painel_mt_affiliates.Request.Steps.{
  is_real_link_in, referrer_of, join, text_or, run_service, add_log,
}
use painel_mt_affiliates.Request.Resolve.{case_of}
use painel_mt_affiliates.Request.Writes.{set_request}

-- `wrapResolution`, less what is only told to the log
pub record Snap : Type 0 where
  pub cpa : ℤ
  pub revshare : ℤ
  pub inviter_id : Option String
  pub hold : Bool

abbrev pub wrap_resolution : CpaResolution → Snap
wrap_resolution res = record {
  cpa = res.cpa;
  revshare = res.revshare;
  inviter_id = res.inviter_id;
  hold = res.hold;
}

abbrev pub is_priced_link : String → String → AffiliateLink → Bool
is_priced_link user_id house l =
    str_eq l.user_id user_id && (str_eq l.betting_house house && (is_active l && is_some l.cpa))

abbrev pub preserve : Option String → Option AffiliateLink → Snap → Snap
preserve inviter_id none snap = snap
preserve inviter_id (some l) snap = record {
  cpa = or_else l.cpa (pos 0);
  revshare = or_else l.revshare (pos 0);
  inviter_id = inviter_id;
  hold = false;
}

-- `req.inviterId ?? req.user.referredById ?? null`
abbrev pub inviter_or : Option String → Option String → Option String
inviter_or none referrer = referrer
inviter_or (some id) referrer = some id

abbrev pub unless_held : Bool → ℤ → Option ℤ
unless_held hold v = if hold then none else some v

abbrev pub snapped : ℕ → Snap → LinkRequest → LinkRequest
snapped now snap r = record r {
  resolved_cpa = unless_held snap.hold snap.cpa;
  resolved_revshare = unless_held snap.hold snap.revshare;
  inviter_id = snap.inviter_id;
  updated_at = now;
}

abbrev pub backfill_reason : HouseLinkRule → DependencyCheck → String
backfill_reason rule check =
    text_or rule.block_message
      (str_append "Faltam links ativos em: " (str_append (join ", " check.missing_houses) "."))

abbrev pub blocked_status : HouseLinkRule → RequestStatus
blocked_status rule =
    if rule.block_on_required_fail then RequestStatus.rejected else RequestStatus.pending

abbrev pub barred : ℕ → HouseLinkRule → DependencyCheck → LinkRequest → LinkRequest
barred now rule check r = record r {
  status = blocked_status rule;
  required_house_slugs = check.required_houses;
  missing_house_slugs = check.missing_houses;
  blocked_reason = some (backfill_reason rule check);
  updated_at = now;
}

abbrev pub log_of : LinkRequest → String → Outcome → LogEntry
log_of r house outcome = record {
  link_request_id = r.id;
  user_id = r.user_id;
  house_slug = house;
  outcome = outcome;
  assigned_cpa = none;
  required_houses = [];
  missing_houses = [];
  status_before = none;
  status_after = none;
}

abbrev pub log_blocked : LinkRequest → String → HouseLinkRule → DependencyCheck → LogEntry
log_blocked r house rule check =
    record (log_of r house
      (if rule.block_on_required_fail then blocked else waiting_manual_review)) {
        required_houses = check.required_houses;
        missing_houses = check.missing_houses;
      }

module _ (house : String) (rule : HouseLinkRule) where
  abbrev pub resolution : Db → LinkRequest → Option String → Snap
  resolution db r inviter_id = wrap_resolution (
      resolve_cpa db.links db.requests (record {
        house_slug = house;
        deal_id = r.deal_id;
        user_id = r.user_id;
        inviter_id = inviter_id;
        rule = rule;
      }))

  unfoldable pub resolve_or_preserve : Db → LinkRequest → Option String → Snap
  resolve_or_preserve db r inviter_id =
      if str_eq house "superbet" && truthy r.deal_id
      then resolution db r inviter_id
      else preserve inviter_id (latest_link (is_priced_link r.user_id house) db.links)
          (resolution db r inviter_id)

  -- `snapshotOne`
  module _ (now : ℕ) (accounts : List Account) where
    abbrev pub snapshot_by : DependencyCheck → Bool → LinkRequest → Desk → Desk
    snapshot_by check false r desk =
        add_log (log_blocked r house rule check) (set_request r.id (barred now rule check) desk)
    snapshot_by check true r desk =
        let snap =
          resolve_or_preserve desk.db r
            (inviter_or r.inviter_id (referrer_of r.user_id accounts)) in
        let write = λ (q : LinkRequest). record (snapped now snap q) {
          required_house_slugs = check.required_houses;
          missing_house_slugs = [];
        } in
        let outcome = if snap.hold then waiting_snapshot else waiting_pool_link in
        let e : LogEntry = record (log_of r house outcome) {
          assigned_cpa = some (if snap.hold then pos 0 else snap.cpa);
          required_houses = check.required_houses;
        } in
        add_log e (set_request r.id write desk)

    unfoldable pub snapshot_one : LinkRequest → Desk → Desk
    unfolding resolve_or_preserve
    snapshot_one r desk =
        let check = check_required_links desk.db.links r.user_id rule in
        snapshot_by check check.ok r desk

    abbrev pub is_old : List String → LinkRequest → Bool
    is_old active r =
        str_eq r.betting_house_slug house
        && (is_pending r && (not (is_some r.resolved_cpa) && mem r.user_id active))

    abbrev pub snapshot_each : List LinkRequest → Desk → Desk
    snapshot_each [] desk = desk
    snapshot_each (r ∷ rs) desk = snapshot_each rs (snapshot_one r desk)

    -- `autoSnapshotOldRequests`, for the rule of one house; `active` are the active users
    unfoldable pub auto_snapshot : List String → Desk → Desk
    unfolding snapshot_one
    auto_snapshot active desk =
        snapshot_each (take 300 (sort_by_time (filter (is_old active) desk.db.requests))) desk
