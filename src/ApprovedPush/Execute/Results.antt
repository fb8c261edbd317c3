-- ===== src/ApprovedPush/Execute/Results.antt =====
-- What an approved push has pushed, and what it leaves when it raises.
use skill_sync_sidecar.Common.{String, ◌≡◌}
use skill_sync_sidecar.Common.{◌⊎◌, true}
use skill_sync_sidecar.Common.{Option, none, some, List, [], ◌∷◌}
use skill_sync_sidecar.Common.{option_eq, string_eq, nat_eq}
use skill_sync_sidecar.Common.{length}
use skill_sync_sidecar.Common.{Error, Result, ok, err}
use skill_sync_sidecar.Common.{works, fails}
use skill_sync_sidecar.Common.{if◌then◌else◌}
use skill_sync_sidecar.Skill.{Index}
use skill_sync_sidecar.SyncState.Status.{Inputs}
use skill_sync_sidecar.SyncState.Overrides.{Projections}
use skill_sync_sidecar.Remote.{Upload, upload_snapshot}
use skill_sync_sidecar.SyncApply.Execute.{RemoteFile, base_record_entries}
use skill_sync_sidecar.ApprovedPush.{Report}
use skill_sync_sidecar.ApprovedPush.Merge.Laws.{IsMergedIndex}
use skill_sync_sidecar.ApprovedPush.Execute.{Options, Snapshot, Preview, World, PushResult}
use skill_sync_sidecar.ApprovedPush.Execute.{cached_index}
use skill_sync_sidecar.ApprovedPush.Execute.{assert_remote_is_cached}
use skill_sync_sidecar.ApprovedPush.Execute.{merged_files}
use skill_sync_sidecar.ApprovedPush.Execute.{with_left}
use skill_sync_sidecar.ApprovedPush.Execute.Previews.{IsPreviewed}

module _ {Bytes : Type 0} (P : Projections) (report : Option Report) (i : Inputs)
    (o : Options) where
  -- What a push has done once its upload has returned.
  pub record IsUploaded (local : Snapshot Bytes) (w : World Bytes) (r : PushResult)
      (remote' : Upload (RemoteFile Bytes)) : Type 0 where
    pub cache : Index
    pub archives : List String
    pub cached : cached_index i.index ≡ ok cache
    pub previewed : IsPreviewed P report i o r.preview
    pub unchanged : assert_remote_is_cached P report i o cache w.remote ≡ ok tt
    pub merged : IsMergedIndex r.preview.approved_skill_ids local.0 cache r.index archives
    pub uploaded :
        upload_snapshot
          (some archives)
          true
          o.remote_prefix
          (merged_files P report i o local r.index archives)
          (record w.remote { uploaded = [] })
        ≡ (none, remote')
    pub base_record : r.base_record ≡ base_record_entries r.index.skills

  -- What a push that returned has recorded: the base, and its result in `out_dir` if that is given.
  pub record IsRecorded (w w' : World Bytes) (r : PushResult) : Type 0 where
    pub save_base : w.save_base ≡ works
    pub base_records : w'.base_records ≡ r.base_record ∷ w.base_records
    pub records : w'.records ≡ (if o.has_out_dir then r ∷ w.records else w.records)

  -- A push that raises before its upload has returned adds no record, and has changed the remote
  -- only by an upload that raised.
  pub record IsRefused (w w' : World Bytes) : Type 0 where
    pub base_records : w'.base_records ≡ w.base_records
    pub records : w'.records ≡ w.records
    pub remote :
        (w' ≡ w)
        ⊎ ((local : Snapshot Bytes) × (index : Index) × (archives : List String) × (e : Error)
            × (upload_snapshot
                  (some archives)
                  true
                  o.remote_prefix
                  (merged_files P report i o local index archives)
                  (record w.remote { uploaded = [] })
                ≡ (some e, w'.remote)))

  record IsPrepared (local : Snapshot Bytes) (u : Upload (RemoteFile Bytes)) (preview : Preview)
      (index : Index) (archives : List String) : Type 0 where
    cache : Index
    cached : cached_index i.index ≡ ok cache
    previewed : IsPreviewed P report i o preview
    unchanged : assert_remote_is_cached P report i o cache u ≡ ok tt
    merged : IsMergedIndex preview.approved_skill_ids local.0 cache index archives

  -- How a push ends.
  pub data IsEnding (local : Snapshot Bytes) (w : World Bytes)
      : Result PushResult × World Bytes → Type 0 where
    pushed :
        (r : PushResult) (w' : World Bytes)
        → IsUploaded local w r w'.remote
        → IsRecorded w w' r
        → IsEnding local w (ok r, w')
    base_failed :
        (r : PushResult) (e : Error) (w' : World Bytes) (left : Option (List (String × String)))
        → IsUploaded local w r w'.remote
        → w.save_base ≡ fails left
        → w'.base_records ≡ with_left left w.base_records
        → w'.records ≡ w.records
        → IsEnding local w (err e, w')
    record_failed :
        (r : PushResult) (e : Error) (w' : World Bytes) (left : Option PushResult)
        → IsUploaded local w r w'.remote
        → w.save_base ≡ works
        → o.has_out_dir ≡ true
        → w.save_record ≡ fails left
        → w'.base_records ≡ r.base_record ∷ w.base_records
        → w'.records ≡ with_left left w.records
        → IsEnding local w (err e, w')
    refused : (e : Error) (w' : World Bytes) → IsRefused w w' → IsEnding local w (err e, w')

  module _ (local : Snapshot Bytes) (w : World Bytes) (preview : Preview) (index : Index)
      (archives : List String) where
    upload : Option Error × Upload (RemoteFile Bytes)
    upload =
        upload_snapshot (some archives) true o.remote_prefix
          (merged_files P report i o local index archives) (record w.remote { uploaded = [] })

    result : PushResult
    unfolding upload
    result = record {
      preview = preview;
      index = index;
      uploaded = length upload.1.uploaded;
      base_record = base_record_entries index.skills;
    }
