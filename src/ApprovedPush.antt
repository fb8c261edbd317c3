-- ===== src/ApprovedPush.antt =====
-- src/skill_sync_sidecar/approved_push.py: pushing skills that a person has approved from a blocked
-- report, by replacing their entries in the remote's index.
pub mod Merge
pub mod Stale
pub mod Execute
pub mod Approval
use skill_sync_sidecar.Common.{ℕ, zero, suc, ◌+◌, ◌-◌, ◌≤◌, ◌<◌, String, ◌<>◌, ◌≡◌, refl, sym}
use skill_sync_sidecar.Common.{◌∙◌, ap, ◌≢◌, ◌↔◌, ◌⊎◌, inl, inr, Bool, true, false, ◌&&◌, ◌||◌}
use skill_sync_sidecar.Common.{
  not, Option, none, some, List, [], ◌∷◌, ◌++◌, map, arith, if◌then◌else◌,
}
use skill_sync_sidecar.Common.{ltb, leb, ◌==◌, contains, option_eq, string_eq, nat_eq, Bool-cases}
use skill_sync_sidecar.Common.{
  Option-cases, truthy, or_else_text, is_some, length, select, count_if,
}
use skill_sync_sidecar.Common.{any_of, is_empty, All, Error, Result, ok, err, ◌>>=◌, ◌>>◌, require}
use skill_sync_sidecar.Common.{approved_push_error}
use skill_sync_sidecar.Common.Text.{strip}
use skill_sync_sidecar.Common.Dict.{Dict, lookup, insert}
use skill_sync_sidecar.Common.Sorted.{sorted_set}
use skill_sync_sidecar.Skill.{Entry, Index}
use skill_sync_sidecar.SyncState.{Action}
use skill_sync_sidecar.SyncState.Status.{Inputs, build_sync_status, action_name}
use skill_sync_sidecar.SyncState.Overrides.{Projections}
use skill_sync_sidecar.SyncPlan.{
  PlanAction, SyncPlan, SyncPlanItem, build_sync_plan, plan_action_name,
}
use skill_sync_sidecar.SyncApply.{is_push}

-- An item of a blocked report, as it is read back from its file.
pub record ReportItem : Type 0 where
  pub skill_id : Option String
  pub category : String
  pub status_action : String
  pub base_hash : Option String
  pub local_hash : Option String
  pub remote_hash : Option String
  pub reason : Option String

-- The report: its `record_type`, `allow_new` and items; none if there is no such file.
pub record Report : Type 0 where
  pub record_type : String
  pub allow_new : Bool
  pub items : List ReportItem

unfoldable pub load_blocked_report : Option Report → Result Report
load_blocked_report none = err (approved_push_error "blocked report not found")
load_blocked_report (some r) =
    if r.record_type == "skill-sync-blocked-report"
    then ok r
    else err (approved_push_error "input is not a skill-sync blocked report")

-- The loop of `_normalize_skill_ids`; `result` holds what `seen` does.
normalize_loop : List String → List String → Result (List String)
normalize_loop result [] = ok result
normalize_loop result (raw ∷ ids) =
    let skill_id = strip raw in
    if skill_id == ""
    then normalize_loop result ids
    else if contains result skill_id
    then err (approved_push_error ("duplicate approved skill id: " <> skill_id))
    else normalize_loop (result ++ (skill_id ∷ [])) ids

-- `_normalize_skill_ids`
unfoldable pub normalize_approved_ids : List String → Result (List String)
unfolding normalize_loop
normalize_approved_ids ids = do
  result ← normalize_loop [] ids
  require (not (is_empty result))
      (approved_push_error "approved push requires at least one --skill-id")
  ok result

unfoldable pub report_items_by_skill_id :
    Dict String ReportItem → List ReportItem → Dict String ReportItem
report_items_by_skill_id result [] = result
report_items_by_skill_id result (item ∷ items) =
    report_items_by_skill_id
      (elim (truthy item.skill_id) [ none ↦ result | some k ↦ insert k item result ]) items

-- `plan_by_id`
unfoldable pub plan_by_id : Dict String SyncPlanItem → List SyncPlanItem → Dict String SyncPlanItem
plan_by_id result [] = result
plan_by_id result (item ∷ items) = plan_by_id (insert item.skill_id item result) items

pub record ApprovedItem : Type 0 where
  pub skill_id : String
  pub approved_action : String
  pub status_action : Action
  pub base_hash : Option String
  pub local_hash : Option String
  pub remote_hash : Option String
  pub blocked_reason : Option String

abbrev pub is_blocked : PlanAction → Bool
is_blocked PlanAction.blocked = true
is_blocked _ = false

-- `_is_approved_conflict_local_wins`
unfoldable pub is_approved_conflict_local_wins : ReportItem → SyncPlanItem → Bool → Bool
is_approved_conflict_local_wins report_item current allow =
    allow
    && (report_item.category == "conflict")
    && (report_item.status_action == "conflict")
    && (action_name current.status_action == "conflict")
    && is_blocked current.plan_action
    && not current.allowed
    && is_some (truthy current.local_hash)
    && is_some (truthy current.remote_hash)

approved : String → String → ReportItem → SyncPlanItem → ApprovedItem
approved skill_id action report_item current = record {
  skill_id = skill_id;
  approved_action = action;
  status_action = current.status_action;
  base_hash = current.base_hash;
  local_hash = current.local_hash;
  remote_hash = current.remote_hash;
  blocked_reason = report_item.reason;
}

changed_since : String → String → Error
changed_since skill_id key =
    approved_push_error
      ("skill changed since blocked report was generated: " <> (skill_id <> (" (" <> (key <> ")"))))

-- What stands in `_approved_item` after the versions were compared.
approve_unchanged : String → Bool → ReportItem → SyncPlanItem → Result ApprovedItem
unfolding approved
approve_unchanged skill_id allow report_item current =
    if is_approved_conflict_local_wins report_item current allow
    then ok (approved skill_id "conflict_local_wins" report_item current)
    else if not (report_item.category == "writer_policy")
    then err (approved_push_error ("skill is not blocked by writer policy: " <> skill_id))
    else if not (contains ("push" ∷ "local_new" ∷ []) report_item.status_action)
    then err (approved_push_error ("skill is not a local-to-remote push candidate: " <> skill_id))
    else if not (is_push current.plan_action && current.allowed)
    then err (
        approved_push_error
          ("skill is not currently pushable under explicit approval: " <> skill_id))
    else ok (approved skill_id (plan_action_name current.plan_action) report_item current)

-- `_approved_item` once both items are found.
unfoldable pub approve : String → Bool → ReportItem → SyncPlanItem → Result ApprovedItem
unfolding changed_since approve_unchanged
approve skill_id allow report_item current = do
  require (current.base_hash == report_item.base_hash) (changed_since skill_id "base_hash")
  require (current.local_hash == report_item.local_hash) (changed_since skill_id "local_hash")
  require (current.remote_hash == report_item.remote_hash) (changed_since skill_id "remote_hash")
  approve_unchanged skill_id allow report_item current

-- `_approved_item`
unfoldable pub approved_item :
    Dict String ReportItem → Dict String SyncPlanItem → Bool → String → Result ApprovedItem
approved_item report_by_id plan allow skill_id = elim (lookup skill_id report_by_id) [
  | none ↦ err (approved_push_error ("skill was not present in blocked report: " <> skill_id))
  | some report_item ↦ elim (lookup skill_id plan) [
    | none ↦
        err (approved_push_error ("skill is not present in the current sync plan: " <> skill_id))
    | some current ↦ approve skill_id allow report_item current
  ]
]

unfoldable pub approved_items :
    Dict String ReportItem
    → Dict String SyncPlanItem
    → Bool
    → List String
    → Result (List ApprovedItem)
approved_items report_by_id plan allow [] = ok []
approved_items report_by_id plan allow (k ∷ ks) = do
  item ← approved_item report_by_id plan allow k
  items ← approved_items report_by_id plan allow ks
  ok (item ∷ items)

-- The pushes of the current plan that were not approved: the ids of `deferred_pushes`.
unfoldable pub deferred_pushes : List String → SyncPlan → List String
deferred_pushes approved_ids plan =
    map (λ item. item.skill_id)
      (select (λ item. is_push item.plan_action && not (contains approved_ids item.skill_id))
        plan.items)
