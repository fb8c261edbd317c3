-- ===== src/SyncPlan/Laws.antt =====
-- What a plan may and may not contain.
use skill_sync_sidecar.Common.{String, ◌≡◌, refl}
use skill_sync_sidecar.Common.{◌≢◌, ◌↔◌, Bool, true, false}
use skill_sync_sidecar.Common.{arith}
use skill_sync_sidecar.Common.{option_eq, string_eq, nat_eq}
use skill_sync_sidecar.SyncState.{Action, SyncStateItem}
use skill_sync_sidecar.SyncPlan.{PlanAction, WriterPolicy, policy_allows, SyncPlanItem, plan_item}
use skill_sync_sidecar.SyncPlan.{pull_new, push_new, delete_local, deprecate_remote, blocked}
use skill_sync_sidecar.SyncPlan.{apply_writer_policy, decide}

-- The flag that an action needs.
abbrev pub is_licensed : Bool → Bool → PlanAction → Bool
is_licensed new delete pull_new = new
is_licensed new delete push_new = new
is_licensed new delete delete_local = delete
is_licensed new delete deprecate_remote = delete
is_licensed new delete _ = true

-- A plan item against the status item that it was made from.
pub record Obeys (new delete : Bool) (policy : WriterPolicy) (item : SyncStateItem)
    (p : SyncPlanItem) : Type 0 where
  pub skill_id : p.skill_id ≡ item.skill_id
  pub versions :
      (p.base_hash ≡ item.base_hash)
      × (p.local_hash ≡ item.local_hash)
      × (p.remote_hash ≡ item.remote_hash)
  pub allowed_iff : (p.allowed ≡ true) ↔ (p.plan_action ≢ blocked)
  pub within_policy : policy_allows policy p.plan_action ≡ true
  pub licensed : is_licensed new delete p.plan_action ≡ true
  pub conflict_blocked : item.action ≡ Action.conflict → p.plan_action ≡ blocked

decide-allowed :
    (a : Action) (new delete : Bool) (reason : String)
    → ((decide a new delete reason).1 ≡ true) ↔ ((decide a new delete reason).0 ≢ blocked)
unfolding decide
decide-allowed Action.local_only new delete reason = (ground arith, ground arith)
decide-allowed _ new delete reason = (ground arith, ground arith)

decide-licensed :
    (a : Action) (new delete : Bool) (reason : String)
    → is_licensed new delete (decide a new delete reason).0 ≡ true
unfolding decide
decide-licensed Action.local_only new delete reason = refl
decide-licensed _ new delete reason = ground arith

decide-conflict :
    (a : Action) (new delete : Bool) (reason : String)
    → a ≡ Action.conflict
    → ((decide a new delete reason).0 ≡ blocked) × ((decide a new delete reason).1 ≡ false)
unfolding decide
decide-conflict Action.local_only new delete reason h = cc
decide-conflict _ new delete reason h = ground arith

policy_allows-blocked : (policy : WriterPolicy) → policy_allows policy blocked ≡ true
unfolding policy_allows
policy_allows-blocked WriterPolicy.push_pull = refl
policy_allows-blocked _ = refl

module _ (new delete : Bool) (policy : WriterPolicy) where
  -- Whatever the status item says, its plan item keeps the versions that were compared, is allowed
  -- exactly if its action is not `blocked`, keeps within the writer policy and the flags, and is
  -- blocked if the status is a conflict.
  pub apply_writer_policy-Obeys :
      (item : SyncStateItem)
      → Obeys new delete policy item (apply_writer_policy policy (plan_item new delete item))
  unfolding apply_writer_policy plan_item
  apply_writer_policy-Obeys item = record {
    skill_id = ground arith;
    versions = (ground arith, ground arith, ground arith);
    allowed_iff = ground (arith, decide-allowed item.action new delete item.reason);
    within_policy =
        ground
          (arith, decide-allowed item.action new delete item.reason, policy_allows-blocked policy);
    licensed = ground (arith, decide-licensed item.action new delete item.reason);
    conflict_blocked = λ h. ground (arith, decide-conflict item.action new delete item.reason h);
  }
