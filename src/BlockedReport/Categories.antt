-- ===== src/BlockedReport/Categories.antt =====
-- The category of a blocked item says why it is blocked, although it is read off a text.
use skill_sync_sidecar.Common.{String, ◌<>◌, ◌≡◌, refl}
use skill_sync_sidecar.Common.{Bool, false}
use skill_sync_sidecar.Common.{arith, if◌then◌else◌}
use skill_sync_sidecar.Common.{option_eq, string_eq, nat_eq}
use skill_sync_sidecar.Common.Text.{starts_with, starts_with-append}
use skill_sync_sidecar.SyncState.{Action, SyncStateItem}
use skill_sync_sidecar.SyncPlan.{WriterPolicy, plan_item, apply_writer_policy, decide}
use skill_sync_sidecar.SyncPlan.{planned, policy_name, plan_action_name}
use skill_sync_sidecar.BlockedReport.{Category, category_of_action, category, enrich_item}

-- No reason of a refused plan item begins like the writer policy's.
refused-reason :
    (a : Action) (new delete : Bool) (reason : String)
    → (decide a new delete reason).1 ≡ false
    → starts_with "writer policy " (decide a new delete reason).2 ≡ false
unfolding decide starts_with
refused-reason Action.remote_new new delete reason h = refl
refused-reason Action.local_new new delete reason h = refl
refused-reason Action.remote_deleted new delete reason h = refl
refused-reason Action.local_deleted new delete reason h = refl
refused-reason Action.conflict new delete reason h = refl
refused-reason (Action.other s) new delete reason h = refl
refused-reason Action.local_only new delete reason h = cc
refused-reason Action.local_override new delete reason h = cc
refused-reason Action.unchanged new delete reason h = cc
refused-reason Action.already_converged new delete reason h = cc
refused-reason Action.central_deprecated new delete reason h = cc
refused-reason Action.deleted_both new delete reason h = cc
refused-reason Action.same_without_base new delete reason h = cc
refused-reason Action.pull new delete reason h = cc
refused-reason Action.push new delete reason h = cc

-- An item that the flags and its state would allow is blocked as `writer_policy`; any other blocked
-- item has the category of its status action: a conflict, a deletion or a new skill to review, or
-- else `manual_review`.
pub enrich_item-apply_writer_policy :
    (new delete : Bool) (policy : WriterPolicy) (name : String) (item : SyncStateItem)
    → let q = apply_writer_policy policy (plan_item new delete item) in
      q.allowed ≡ false
      → (enrich_item name q).category ≡ (
          if (plan_item new delete item).allowed
          then Category.writer_policy
          else category_of_action item.action)
unfolding enrich_item category apply_writer_policy plan_item planned
enrich_item-apply_writer_policy new delete policy name item blocked = ground (
  arith,
  refused-reason item.action new delete item.reason,
  starts_with-append "writer policy " (
      policy_name policy
      <> (" blocks " <> plan_action_name (plan_item new delete item).plan_action)),
)
