-- ===== src/ApprovedPush/Execute.antt =====
-- src/skill_sync_sidecar/approved_push.py: the preview and the push itself. Snapshots of the local
-- root, which `scan_roots` and `write_snapshot` make, and the times are arguments.
pub mod Previews
pub mod Results
use skill_sync_sidecar.Common.{ℕ, zero, suc, ◌+◌, ◌-◌, ◌≤◌, ◌<◌, String, ◌<>◌, ◌≡◌, refl, sym}
use skill_sync_sidecar.Common.{◌∙◌, ap, ◌≢◌, ◌↔◌, ◌⊎◌, inl, inr, Bool, true, false, ◌&&◌, ◌||◌}
use skill_sync_sidecar.Common.{
  not, Option, none, some, List, [], ◌∷◌, ◌++◌, map, arith, if◌then◌else◌,
}
use skill_sync_sidecar.Common.{ltb, leb, ◌==◌, contains, option_eq, string_eq, nat_eq, Bool-cases}
use skill_sync_sidecar.Common.{
  Option-cases, truthy, or_else_text, is_some, length, select, count_if,
}
use skill_sync_sidecar.Common.{any_of, is_empty, All, Error, Result, ok, err, ◌>>=◌, ◌>>◌, require}
use skill_sync_sidecar.Common.{approved_push_error, os_error, Attempt, works, fails}
use skill_sync_sidecar.Common.Dict.{Dict, lookup}
use skill_sync_sidecar.Skill.{Entry, Index}
use skill_sync_sidecar.Stage.{Archive}
use skill_sync_sidecar.SyncState.Status.{Inputs, build_sync_status}
use skill_sync_sidecar.SyncState.Overrides.{Projections}
use skill_sync_sidecar.SyncPlan.{SyncPlan, build_sync_plan}
use skill_sync_sidecar.Remote.{join_remote_path, index_name, LocalFile, Upload, upload_snapshot}
use skill_sync_sidecar.SyncApply.Execute.{RemoteFile, index_file, archive_file, hashes_by_skill_id}
use skill_sync_sidecar.SyncApply.Execute.{same_dict, base_record_entries}
use skill_sync_sidecar.ApprovedPush.{Report, load_blocked_report, normalize_approved_ids}
use skill_sync_sidecar.ApprovedPush.{report_items_by_skill_id, plan_by_id, ApprovedItem}
use skill_sync_sidecar.ApprovedPush.{approved_items, deferred_pushes}
use skill_sync_sidecar.ApprovedPush.Merge.{build_merged_snapshot}

pub record Options : Type 0 where
  pub skill_ids : List String
  pub allow_new : Option Bool
  pub allow_conflict_local_wins : Bool
  pub remote_prefix : String
  pub has_out_dir : Bool

-- A snapshot of the local root: its index and its archives, by path.
abbrev pub Snapshot : Type 0 → Type 0
Snapshot Bytes = Index × List (String × Archive Bytes)

pub record Preview : Type 0 where
  pub approved_skill_ids : List String
  pub items : List ApprovedItem
  pub deferred : List String
  pub index : Index
  pub archives : List String

pub record PushResult : Type 0 where
  pub preview : Preview
  pub index : Index
  pub uploaded : ℕ
  pub base_record : List (String × String)

-- The remote, the base records, the records in `out_dir`, and how the writes of the two records end.
-- One that raises may have left a record that can be read.
pub record World (Bytes : Type 0) : Type 0 where
  pub remote : Upload (RemoteFile Bytes)
  pub base_records : List (List (String × String))
  pub records : List PushResult
  pub save_base : Attempt (List (String × String))
  pub save_record : Attempt PushResult

-- The records with what a write that raises has left.
abbrev pub with_left : {A : Type 0} → Option A → List A → List A
with_left none xs = xs
with_left (some x) xs = x ∷ xs

-- The cached index, which `_build_merged_snapshot` reads.
unfoldable pub cached_index : Option Index → Result Index
cached_index none = err (approved_push_error "remote snapshot cache has no index.json")
cached_index (some index) = ok index

module _ {Bytes : Type 0} (P : Projections) (report : Option Report) (i : Inputs)
    (o : Options) where
  -- `build_approved_push_preview`, where `local` is the snapshot that it takes
  unfoldable pub build_approved_push_preview : Snapshot Bytes → Result Preview
  build_approved_push_preview local = do
    r ← load_blocked_report report
    ids ← normalize_approved_ids o.skill_ids
    status ← build_sync_status P i
    plan ←
        build_sync_plan (elim o.allow_new [ none ↦ r.allow_new | some b ↦ b ]) false "push-pull"
          status
    items ←
        approved_items (report_items_by_skill_id [] r.items) (plan_by_id [] plan.items)
          o.allow_conflict_local_wins ids
    cache ← cached_index i.index
    merged ← build_merged_snapshot "approved-push-preview" "" ids local.0 cache
    ok (record {
      approved_skill_ids = ids;
      items = items;
      deferred = deferred_pushes ids plan;
      index = merged.0;
      archives = merged.1;
    })

  -- `_assert_remote_matches_cache`
  unfoldable pub assert_remote_is_cached : Index → Upload (RemoteFile Bytes) → Result (Unit {0})
  assert_remote_is_cached cache u =
      elim (lookup (join_remote_path o.remote_prefix index_name) u.remote) [
        | none ↦ err (approved_push_error "cannot verify remote snapshot before approved push")
        | some f ↦ elim f [
          | archive_file a ↦
              err (approved_push_error "cannot verify remote snapshot before approved push")
          | index_file index ↦
              require (same_dict (hashes_by_skill_id index) (hashes_by_skill_id cache)) (
                approved_push_error
                  "remote changed since the blocked-report cache was pulled; refresh pull-cache before approved push")
        ]
      ]

  -- The files of the merged snapshot's directory.
  abbrev pub merged_files :
      Snapshot Bytes → Index → List String → List (LocalFile (RemoteFile Bytes))
  merged_files local index paths =
      (index_name, index_file index)
      ∷ map (λ a. (a.0, archive_file a.1)) (select (λ a. contains paths a.0) local.1)

  -- The base record, and the record in `out_dir` if that is given.
  unfoldable pub record_push : PushResult → World Bytes → Result PushResult × World Bytes
  record_push result w =
      let w1 = record w { base_records = result.base_record ∷ w.base_records } in
      elim w.save_base [
        | fails left ↦ (
          err (os_error "approved-push-base"),
          record w { base_records = with_left left w.base_records },
        )
        | works ↦ elim o.has_out_dir [
          | false ↦ (ok result, w1)
          | true ↦ elim w.save_record [
            | fails left ↦ (
              err (os_error "approved-push-record.json"),
              record w1 { records = with_left left w.records },
            )
            | works ↦ (ok result, record w1 { records = result ∷ w.records })
          ]
        ]
      ]

  -- The upload of the merged snapshot, and the records.
  unfoldable pub push_merged :
      Preview → Snapshot Bytes → Index → List String → World Bytes → Result PushResult × World Bytes
  push_merged preview local index paths w =
      let (raised, u) =
        upload_snapshot (some paths) true o.remote_prefix (merged_files local index paths)
          (record w.remote { uploaded = [] }) in
      elim raised [
        | some e ↦ (err e, record w { remote = u })
        | none ↦
            record_push
              (record {
                preview = preview;
                index = index;
                uploaded = length u.uploaded;
                base_record = base_record_entries index.skills;
              })
              (record w { remote = u })
      ]

  -- What is settled before the upload: the preview, and the index to push with its archives.
  unfoldable pub prepare :
      Snapshot Bytes
      → Snapshot Bytes
      → String
      → String
      → Upload (RemoteFile Bytes)
      → Result (Preview × Index × List String)
  prepare previewed local label now u = do
    preview ← build_approved_push_preview previewed
    cache ← cached_index i.index
    checked ← assert_remote_is_cached cache u
    merged ← build_merged_snapshot label now preview.approved_skill_ids local.0 cache
    ok (preview, merged.0, merged.1)

  -- `execute_approved_push`; the local root is scanned for the preview and again for the push.
  unfoldable pub execute_approved_push :
      Snapshot Bytes
      → Snapshot Bytes
      → String
      → String
      → World Bytes
      → Result PushResult × World Bytes
  execute_approved_push previewed local label now w =
      elim (prepare previewed local label now w.remote) [
        | err e ↦ (err e, w)
        | ok (preview, index, paths) ↦ push_merged preview local index paths w
      ]
