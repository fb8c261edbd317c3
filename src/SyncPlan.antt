-- ===== src/SyncPlan.antt =====
-- src/skill_sync_sidecar/sync_plan.py: what a run may do about each status item, under the flags
-- `--allow-new` and `--allow-delete` and the device's writer policy.
pub mod Laws
pub mod Safety
pub mod Counts
use skill_sync_sidecar.Common.{ℕ, zero, suc, ◌+◌, ◌-◌, ◌≤◌, ◌<◌, String, ◌<>◌, ◌≡◌, refl, sym}
use skill_sync_sidecar.Common.{◌∙◌, ap, ◌≢◌, ◌↔◌, ◌⊎◌, inl, inr, Bool, true, false, ◌&&◌, ◌||◌}
use skill_sync_sidecar.Common.{
  not, Option, none, some, List, [], ◌∷◌, ◌++◌, map, arith, if◌then◌else◌,
}
use skill_sync_sidecar.Common.{ltb, leb, ◌==◌, contains, option_eq, string_eq, nat_eq, Bool-cases}
use skill_sync_sidecar.Common.{
  Option-cases, truthy, or_else_text, is_some, length, select, count_if,
}
use skill_sync_sidecar.Common.{any_of, is_empty, All, Error, Result, ok, err, ◌>>=◌, ◌>>◌, require}
use skill_sync_sidecar.Common.{value_error}
use skill_sync_sidecar.Common.Dict.{Dict}
use skill_sync_sidecar.Common.Tally.{tally}
use skill_sync_sidecar.SyncState.{Action, SyncStateItem}
use skill_sync_sidecar.SyncState.Status.{Status}

pub data PlanAction : Type 0 where
  noop pull pull_new push push_new delete_local deprecate_remote blocked : PlanAction

-- `WRITER_POLICIES`
pub data WriterPolicy : Type 0 where
  push_pull pull_only push_only no_writes : WriterPolicy

abbrev pub policy_name : WriterPolicy → String
policy_name push_pull = "push-pull"
policy_name pull_only = "pull-only"
policy_name push_only = "push-only"
policy_name no_writes = "no-writes"

abbrev pub plan_action_name : PlanAction → String
plan_action_name noop = "noop"
plan_action_name pull = "pull"
plan_action_name pull_new = "pull_new"
plan_action_name push = "push"
plan_action_name push_new = "push_new"
plan_action_name delete_local = "delete_local"
plan_action_name deprecate_remote = "deprecate_remote"
plan_action_name blocked = "blocked"

-- A key of `POLICY_ALLOWED_ACTIONS`, read from its text.
unfoldable pub read_policy : String → Result WriterPolicy
read_policy s =
    if s == "push-pull"
    then ok push_pull
    else if s == "pull-only"
    then ok pull_only
    else if s == "push-only"
    then ok push_only
    else if s == "no-writes"
    then ok no_writes
    else err (value_error ("unsupported writer policy: " <> s))

-- `plan_action in POLICY_ALLOWED_ACTIONS[writer_policy]`
unfoldable pub policy_allows : WriterPolicy → PlanAction → Bool
policy_allows push_pull _ = true
policy_allows pull_only noop = true
policy_allows pull_only pull = true
policy_allows pull_only pull_new = true
policy_allows pull_only blocked = true
policy_allows pull_only _ = false
policy_allows push_only noop = true
policy_allows push_only push = true
policy_allows push_only push_new = true
policy_allows push_only blocked = true
policy_allows push_only _ = false
policy_allows no_writes noop = true
policy_allows no_writes blocked = true
policy_allows no_writes _ = false

pub record SyncPlanItem : Type 0 where
  pub skill_id : String
  pub status_action : Action
  pub plan_action : PlanAction
  pub allowed : Bool
  pub reason : String
  pub base_hash : Option String
  pub local_hash : Option String
  pub remote_hash : Option String

-- `_item`, which takes the versions over from the status item.
unfoldable pub planned : SyncStateItem → PlanAction → Bool → String → SyncPlanItem
planned item plan_action allowed reason = record {
  skill_id = item.skill_id;
  status_action = item.action;
  plan_action = plan_action;
  allowed = allowed;
  reason = reason;
  base_hash = item.base_hash;
  local_hash = item.local_hash;
  remote_hash = item.remote_hash;
}

-- The branches of `_plan_item` on the status action.
unfoldable pub decide : Action → Bool → Bool → String → PlanAction × Bool × String
decide Action.local_only new delete reason =
    (noop, true, or_else_text (some reason) "local-only skill acknowledged")
decide Action.local_override new delete reason =
    (noop, true, or_else_text (some reason) "local override acknowledged")
decide Action.unchanged new delete reason = (noop, true, "no sync action needed")
decide Action.already_converged new delete reason = (noop, true, "no sync action needed")
decide Action.central_deprecated new delete reason = (noop, true, "no sync action needed")
decide Action.deleted_both new delete reason = (noop, true, "no sync action needed")
decide Action.same_without_base new delete reason = (noop, true, "no sync action needed")
decide Action.pull new delete reason = (pull, true, "remote changed and local is still at base")
decide Action.push new delete reason = (push, true, "local changed and remote is still at base")
decide Action.remote_new new delete reason = (
  if new then pull_new else blocked,
  new,
  "remote new skill requires --allow-new before auto-pull",
)
decide Action.local_new new delete reason = (
  if new then push_new else blocked,
  new,
  "local new skill requires --allow-new before auto-push",
)
decide Action.remote_deleted new delete reason = (
  if delete then delete_local else blocked,
  delete,
  "remote deletion requires --allow-delete before local deletion",
)
decide Action.local_deleted new delete reason = (
  if delete then deprecate_remote else blocked,
  delete,
  "local deletion requires restore or central deprecate review; remote files are not physically deleted",
)
decide Action.conflict new delete reason =
    (blocked, false, "conflict or unknown state requires manual resolution")
decide (Action.other s) new delete reason =
    (blocked, false, "conflict or unknown state requires manual resolution")

unfoldable pub plan_item : Bool → Bool → SyncStateItem → SyncPlanItem
unfolding planned
plan_item allow_new allow_delete item =
    let (plan_action, allowed, reason) = decide item.action allow_new allow_delete item.reason in
    planned item plan_action allowed reason

unfoldable pub apply_writer_policy : WriterPolicy → SyncPlanItem → SyncPlanItem
apply_writer_policy policy item =
    if not item.allowed
    then item
    else if policy_allows policy item.plan_action
    then item
    else record item {
      plan_action = blocked;
      allowed = false;
      reason =
          "writer policy "
          <> (policy_name policy <> (" blocks " <> plan_action_name item.plan_action));
    }

pub record SyncPlan : Type 0 where
  pub writer_policy : WriterPolicy
  pub total : ℕ
  pub summary : Dict String ℕ
  pub allowed : ℕ
  pub blocked : ℕ
  pub safe_to_apply : Bool
  pub items : List SyncPlanItem

-- The items of a plan.
unfoldable pub plan_items : Bool → Bool → WriterPolicy → List SyncStateItem → List SyncPlanItem
plan_items allow_new allow_delete policy items =
    map (apply_writer_policy policy) (map (plan_item allow_new allow_delete) items)

unfoldable pub plan_of : WriterPolicy → List SyncPlanItem → SyncPlan
plan_of policy items =
    let blocked_items = select (λ item. not item.allowed) items in
    record {
      writer_policy = policy;
      total = length items;
      summary = tally (map (λ item. plan_action_name item.plan_action) items);
      allowed = count_if (λ item. item.allowed) items;
      blocked = length blocked_items;
      safe_to_apply = is_empty blocked_items;
      items = items;
    }

unfoldable pub build_sync_plan : Bool → Bool → String → Status → Result SyncPlan
unfolding plan_items plan_of
build_sync_plan allow_new allow_delete writer_policy status = do
  policy ← read_policy writer_policy
  ok (plan_of policy (plan_items allow_new allow_delete policy status.items))
