-- ===== src/SyncCycle.antt =====
-- src/skill_sync_sidecar/sync_cycle.py: one unattended run. Whether writing the conflict packages,
-- the tombstones or the blocked report raises is an argument.
pub mod Outcomes
use skill_sync_sidecar.Common.{ℕ, zero, suc, ◌+◌, ◌-◌, ◌≤◌, ◌<◌, String, ◌<>◌, ◌≡◌, refl, sym}
use skill_sync_sidecar.Common.{◌∙◌, ap, ◌≢◌, ◌↔◌, ◌⊎◌, inl, inr, Bool, true, false, ◌&&◌, ◌||◌}
use skill_sync_sidecar.Common.{
  not, Option, none, some, List, [], ◌∷◌, ◌++◌, map, arith, if◌then◌else◌,
}
use skill_sync_sidecar.Common.{ltb, leb, ◌==◌, contains, option_eq, string_eq, nat_eq, Bool-cases}
use skill_sync_sidecar.Common.{
  Option-cases, truthy, or_else_text, is_some, length, select, count_if,
}
use skill_sync_sidecar.Common.{any_of, is_empty, All, Error, Result, ok, err, ◌>>=◌, ◌>>◌, require}
use skill_sync_sidecar.Common.{remote_error, value_error}
use skill_sync_sidecar.Common.Dict.{Dict, lookup}
use skill_sync_sidecar.Skill.{Entry, Index}
use skill_sync_sidecar.SyncState.{Action}
use skill_sync_sidecar.SyncState.Overrides.{Projections}
use skill_sync_sidecar.SyncState.Status.{Inputs, Status, build_sync_status, is_conflict}
use skill_sync_sidecar.SyncPlan.{PlanAction, SyncPlan, build_sync_plan}
use skill_sync_sidecar.Stage.{Hashing, Archive}
use skill_sync_sidecar.Remote.{Upload, join_remote_path}
use skill_sync_sidecar.SyncApply.{Options}
use skill_sync_sidecar.SyncApply.Execute.{
  RemoteFile, Device, World, SyncResult, remote_index, execute_sync_apply,
}

-- `DELETE_ACTIONS` of tombstones.py
abbrev pub is_deletion : Action → Bool
is_deletion Action.local_deleted = true
is_deletion Action.remote_deleted = true
is_deletion _ = false

-- `DELETE_PLAN_ACTIONS`
abbrev pub is_delete_plan : PlanAction → Bool
is_delete_plan PlanAction.delete_local = true
is_delete_plan PlanAction.deprecate_remote = true
is_delete_plan _ = false

unfoldable pub count_delete_plan_actions : SyncPlan → ℕ
count_delete_plan_actions plan =
    count_if (λ item. is_delete_plan item.plan_action && item.allowed) plan.items

pub data CycleStatus : Type 0 where
  complete blocked dry_run error : CycleStatus

-- The texts of `_reason`.
pub data Reason : Type 0 where
  dry_run_only conflicts_materialized deletions_staged plan_blocked : Reason
  tombstones_materialized actions_applied : Reason

abbrev pub reason_text : Reason → String
reason_text Reason.dry_run_only = "dry-run only; no files changed"
reason_text Reason.conflicts_materialized = "conflicts were materialized for manual review"
reason_text Reason.deletions_staged =
    "delete/deprecate review is staged as tombstones and not executed automatically"
reason_text Reason.plan_blocked = "sync plan has blocked items"
reason_text Reason.tombstones_materialized = "delete tombstones were materialized for manual review"
reason_text Reason.actions_applied = "sync actions applied"

-- What writing the three reports raises.
pub record Reports : Type 0 where
  pub conflicts_raise : Option Error
  pub tombstones_raise : Option Error
  pub blocked_report_raises : Option Error

unfoldable pub raised_or : {A : Type 0} → Option Error → A → Result A
raised_or none a = ok a
raised_or (some e) a = err e

-- `_build_conflicts_if_needed`, as the number of packages.
unfoldable pub build_conflicts_if_needed : Reports → Status → Result (Option ℕ)
unfolding raised_or
build_conflicts_if_needed R status =
    if status.has_conflicts
    then raised_or R.conflicts_raise
        (some (count_if (λ item. is_conflict item.action) status.items))
    else ok none

-- `_build_tombstones_if_needed`, as the number of tombstones.
unfoldable pub build_tombstones_if_needed : Reports → Status → Result (Option ℕ)
unfolding raised_or
build_tombstones_if_needed R status =
    let total = count_if (λ item. is_deletion item.action) status.items in
    raised_or R.tombstones_raise (if total == 0 then none else some total)

-- Whether a report is there and counts something.
abbrev pub some_of : Option ℕ → Bool
some_of none = false
some_of (some n) = not (n == 0)

-- `_reason`
unfoldable pub reason_of : Bool → SyncPlan → Option ℕ → Option ℕ → ℕ → Reason
reason_of dry plan conflicts tombstones delete_actions =
    if dry
    then Reason.dry_run_only
    else if some_of conflicts
    then Reason.conflicts_materialized
    else if not (delete_actions == 0)
    then Reason.deletions_staged
    else if not (plan.blocked == 0)
    then Reason.plan_blocked
    else if some_of tombstones
    then Reason.tombstones_materialized
    else Reason.actions_applied

pub record CycleResult : Type 0 where
  pub status : CycleStatus
  pub snapshot_id : Option String
  pub sync_status : Status
  pub sync_plan : SyncPlan
  pub conflicts : Option ℕ
  pub tombstones : Option ℕ
  pub delete_actions : ℕ
  pub apply_result : Option SyncResult
  pub reason : Reason

-- What is found before anything is applied.
pub record Findings : Type 0 where
  pub status : Status
  pub plan : SyncPlan
  pub conflicts : Option ℕ
  pub tombstones : Option ℕ

unfoldable pub find : Projections → Reports → Inputs → Options → Result Findings
unfolding raised_or
find P R i o = do
  status ← build_sync_status P i
  plan ← build_sync_plan o.allow_new o.allow_delete o.writer_policy status
  conflicts ← build_conflicts_if_needed R status
  tombstones ← build_tombstones_if_needed R status
  raised_or R.blocked_report_raises tt
  ok (record { status = status; plan = plan; conflicts = conflicts; tombstones = tombstones })

unfoldable pub cycle_result :
    Bool → Index → Findings → CycleStatus → Option SyncResult → CycleResult
cycle_result dry index f status applied =
    let delete_actions = count_delete_plan_actions f.plan in
    record {
      status = status;
      snapshot_id = index.snapshot_id;
      sync_status = f.status;
      sync_plan = f.plan;
      conflicts = f.conflicts;
      tombstones = f.tombstones;
      delete_actions = delete_actions;
      apply_result = applied;
      reason = reason_of dry f.plan f.conflicts f.tombstones delete_actions;
    }

-- Whether a run may go on to apply.
unfoldable pub may_apply : Bool → Findings → Bool
may_apply dry f =
    not dry
    && (f.plan.blocked == 0 && (count_delete_plan_actions f.plan == 0 && not (is_some f.conflicts)))

module _ {H : Hashing} where
  -- An archive of the cache, or else of the remote.
  cached_archive : Device H → Upload (RemoteFile H.Bytes) → String → Option (Archive H.Bytes)
  cached_archive D u path = elim (D.archives path) [
    | some archive ↦ some archive
    | none ↦ elim (lookup (join_remote_path D.remote_prefix path) u.remote) [
      | some (RemoteFile.archive_file archive) ↦ some archive
      | _ ↦ none
    ]
  ]

  -- The loop of `download_snapshot` over the archives that the index names.
  download_archives : Device H → List Entry → Upload (RemoteFile H.Bytes) → Result (Unit {0})
  unfolding cached_archive
  download_archives D [] u = ok tt
  download_archives D (e ∷ es) u = elim (truthy e.archive) [
    | none ↦ download_archives D es u
    | some path ↦ elim (cached_archive D u path) [
      | none ↦ err (remote_error ("cannot read " <> path))
      | some _ ↦ download_archives D es u
    ]
  ]

  -- `download_snapshot`
  unfoldable pub download_snapshot : Device H → Upload (RemoteFile H.Bytes) → Result Index
  unfolding download_archives
  download_snapshot D u = do index ← remote_index D u; download_archives D index.skills u; ok index

  -- The device with the cache that the download leaves.
  unfoldable pub refreshed : Device H → Upload (RemoteFile H.Bytes) → Device H
  unfolding cached_archive
  refreshed D u = record D { archives = cached_archive D u }

  -- The run from where its reports are written.
  unfoldable pub finish :
      Device H
      → Projections
      → Inputs
      → Options
      → Bool
      → Index
      → Findings
      → World H
      → Result CycleResult × World H
  unfolding cycle_result
  finish D P i o dry index f w = elim (may_apply dry f) [
    | false ↦ (
      ok (cycle_result dry index f (if dry then CycleStatus.dry_run else CycleStatus.blocked) none),
      w,
    )
    | true ↦
        let (applied, w') = execute_sync_apply D P i o w in
        (applied >>= (λ r. ok (cycle_result dry index f CycleStatus.complete (some r))), w')
  ]

  unfoldable pub run_sync_cycle :
      Device H
      → Projections
      → Reports
      → Inputs
      → Options
      → Bool
      → World H
      → Result CycleResult × World H
  run_sync_cycle D P R i o dry w = elim (download_snapshot D w.remote) [
    | err e ↦ (err e, w)
    | ok index ↦
        let i' = record i { index = some index } in
        elim (find P R i' o) [
          | err e ↦ (err e, w)
          | ok f ↦ finish (refreshed D w.remote) P i' o dry index f w
        ]
  ]
