-- ===== src/BlockedReport.antt =====
-- src/skill_sync_sidecar/blocked_report.py: what a person is told about a blocked item.
pub mod Categories
use skill_sync_sidecar.Common.{ℕ, zero, suc, ◌+◌, ◌-◌, ◌≤◌, ◌<◌, String, ◌<>◌, ◌≡◌, refl, sym}
use skill_sync_sidecar.Common.{◌∙◌, ap, ◌≢◌, ◌↔◌, ◌⊎◌, inl, inr, Bool, true, false, ◌&&◌, ◌||◌}
use skill_sync_sidecar.Common.{
  not, Option, none, some, List, [], ◌∷◌, ◌++◌, map, arith, if◌then◌else◌,
}
use skill_sync_sidecar.Common.{ltb, leb, ◌==◌, contains, option_eq, string_eq, nat_eq, Bool-cases}
use skill_sync_sidecar.Common.{
  Option-cases, truthy, or_else_text, is_some, length, select, count_if,
}
use skill_sync_sidecar.Common.{any_of, is_empty, All, Error, Result, ok, err, ◌>>=◌, ◌>>◌, require}
use skill_sync_sidecar.Common.{value_error}
use skill_sync_sidecar.Common.Dict.{Dict}
use skill_sync_sidecar.Common.Tally.{tally}
use skill_sync_sidecar.Common.Text.{starts_with}
use skill_sync_sidecar.SyncState.{Action}
use skill_sync_sidecar.SyncPlan.{PlanAction, SyncPlanItem, SyncPlan, plan_action_name}

pub data Category : Type 0 where
  writer_policy conflict delete_review new_skill_review manual_review : Category

abbrev pub category_name : Category → String
category_name Category.writer_policy = "writer_policy"
category_name Category.conflict = "conflict"
category_name Category.delete_review = "delete_review"
category_name Category.new_skill_review = "new_skill_review"
category_name Category.manual_review = "manual_review"

-- The tests of `_category` on the status action.
unfoldable pub category_of_action : Action → Category
category_of_action Action.conflict = Category.conflict
category_of_action Action.local_deleted = Category.delete_review
category_of_action Action.remote_deleted = Category.delete_review
category_of_action Action.local_new = Category.new_skill_review
category_of_action Action.remote_new = Category.new_skill_review
category_of_action _ = Category.manual_review

-- `_category`
unfoldable pub category : Action → String → Category
category status_action reason =
    if starts_with "writer policy " reason
    then Category.writer_policy
    else category_of_action status_action

-- `_recommendation`
unfoldable pub recommendation : Category → PlanAction → Action → String → String
recommendation Category.writer_policy plan_action status_action policy =
    if policy == "pull-only"
    then "Review the local change. If it should be saved to the shared library, run an explicit approved-push path instead of changing the unattended OpenClaw policy."
    else if policy == "push-only"
    then "Review the remote change. If it should install locally, run an explicit approved pull path instead of changing the unattended writer policy."
    else "Review whether policy "
      <> (policy <> (" should allow " <> (plan_action_name plan_action <> " for this skill.")))
recommendation Category.conflict _ _ _ =
    "Materialize a conflict package and resolve local, remote, and base contents manually."
recommendation Category.delete_review _ Action.local_deleted _ =
    "Restore the skill to the missing device, or mark it deprecated in the central library. Do not physically delete central files from a device-side deletion."
recommendation Category.delete_review _ Action.remote_deleted _ =
    "Review whether the local copy should be republished or removed locally after the central repository's dedicated deletion flow."
recommendation Category.delete_review _ _ _ =
    "Review whether to restore the missing copy or mark the central skill deprecated; ordinary sync must not physically delete central files."
recommendation Category.new_skill_review _ Action.local_new _ =
    "Review the local new skill before saving it to the shared library with --allow-new."
recommendation Category.new_skill_review _ _ _ =
    "Review the remote new skill before installing it locally with --allow-new."
recommendation Category.manual_review _ _ _ =
    "Inspect this blocked item and choose an explicit pull, push, or defer action."

pub record BlockedItem : Type 0 where
  pub item : SyncPlanItem
  pub category : Category
  pub recommendation : String

-- `_enrich_item`
unfoldable pub enrich_item : String → SyncPlanItem → BlockedItem
enrich_item policy item =
    let c = category item.status_action item.reason in
    record {
      item = item;
      category = c;
      recommendation = recommendation c item.plan_action item.status_action policy;
    }

unfoldable pub enrich_blocked_items : SyncPlan → String → List BlockedItem
enrich_blocked_items plan policy =
    map (enrich_item policy) (select (λ item. not item.allowed) plan.items)

pub record BlockedReport : Type 0 where
  pub total : ℕ
  pub summary : Dict String ℕ
  pub items : List BlockedItem

-- `build_blocked_report` of a plan, without its files.
unfoldable pub build_blocked_report : SyncPlan → String → BlockedReport
build_blocked_report plan policy =
    let enriched = enrich_blocked_items plan policy in
    record {
      total = length enriched;
      summary = tally (map (λ i. category_name i.category) enriched);
      items = enriched;
    }
