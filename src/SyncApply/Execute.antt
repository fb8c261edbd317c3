-- ===== src/SyncApply/Execute.antt =====
-- `execute_sync_apply`: guards, then the pulls, then one upload of the local snapshot. What the
-- scanner finds below the local root, zip archives, temporary directories and timestamps are
-- arguments.
pub mod Guards
pub mod Results
use skill_sync_sidecar.Common.{ℕ, zero, suc, ◌+◌, ◌-◌, ◌≤◌, ◌<◌, String, ◌<>◌, ◌≡◌, refl, sym}
use skill_sync_sidecar.Common.{◌∙◌, ap, ◌≢◌, ◌↔◌, ◌⊎◌, inl, inr, Bool, true, false, ◌&&◌, ◌||◌}
use skill_sync_sidecar.Common.{
  not, Option, none, some, List, [], ◌∷◌, ◌++◌, map, arith, if◌then◌else◌,
}
use skill_sync_sidecar.Common.{ltb, leb, ◌==◌, contains, option_eq, string_eq, nat_eq, Bool-cases}
use skill_sync_sidecar.Common.{
  Option-cases, truthy, or_else_text, is_some, length, select, count_if,
}
use skill_sync_sidecar.Common.{any_of, is_empty, All, Error, Result, ok, err, ◌>>=◌, ◌>>◌, require}
use skill_sync_sidecar.Common.{sync_apply_error, remote_error}
use skill_sync_sidecar.Common.Dict.{Dict, lookup, insert, keys}
use skill_sync_sidecar.Skill.{Entry, Index}
use skill_sync_sidecar.SyncState.Overrides.{Projections}
use skill_sync_sidecar.SyncState.Status.{Inputs}
use skill_sync_sidecar.Stage.{Hashing, Archive, StagedSkill, Files, stage_snapshot}
use skill_sync_sidecar.Apply.{Fs, place, ApplyItem, ApplyRecord, Weather, execute_apply_plan}
use skill_sync_sidecar.Remote.{LocalFile, Upload, join_remote_path, index_name, upload_snapshot}
use skill_sync_sidecar.SyncApply.{
  PreviewItem, Preview, Options, build_sync_apply_preview, allowed_scopes,
}
use skill_sync_sidecar.SyncApply.{is_pull, is_push}
use skill_sync_sidecar.SyncPlan.{PlanAction}

-- The loop of `_hashes_by_skill_id`.
hashes_loop : List Entry → Dict String String → Dict String String
hashes_loop [] d = d
hashes_loop (e ∷ es) d = hashes_loop es (elim (truthy e.skill_id) [
  | none ↦ d
  | some k ↦ elim (truthy e.content_hash) [ none ↦ d | some h ↦ insert k h d ]
])

unfoldable pub hashes_by_skill_id : Index → Dict String String
unfolding hashes_loop
hashes_by_skill_id index = hashes_loop index.skills []

-- `==` of two dicts
unfoldable pub same_dict : Dict String String → Dict String String → Bool
same_dict d d' = not (any_of (λ k. not (lookup k d == lookup k d')) (keys d ++ keys d'))

abbrev pub count_actions : (PlanAction → Bool) → Preview → ℕ
count_actions wanted p = count_if (λ q. wanted q.item.plan_action && q.item.allowed) p.items

unfoldable pub action_skill_ids : (PlanAction → Bool) → Preview → List String
action_skill_ids wanted p =
    map (λ q. q.item.skill_id) (select (λ q. wanted q.item.plan_action && q.item.allowed) p.items)

-- The loop of `_archive_paths_for_skill_ids`.
unfoldable pub archive_paths : List String → List Entry → List String
archive_paths ids [] = []
archive_paths ids (e ∷ es) =
    let rest = archive_paths ids es in
    elim (truthy e.archive) [
      | none ↦ rest
      | some archive ↦
          if contains ids (or_else_text e.skill_id "None") then archive ∷ rest else rest
    ]

-- The record of `_write_sync_base_record`: its `applied` list.
unfoldable pub base_record_entries : List Entry → List (String × String)
base_record_entries [] = []
base_record_entries (e ∷ es) =
    let rest = base_record_entries es in
    elim (truthy e.skill_id) [
      | none ↦ rest
      | some k ↦ elim (truthy e.content_hash) [ none ↦ rest | some h ↦ (k, h) ∷ rest ]
    ]

-- A file on the remote.
pub data RemoteFile (Bytes : Type 0) : Type 0 where
  index_file : Index → RemoteFile Bytes
  archive_file : Archive Bytes → RemoteFile Bytes

-- What a run finds on the device: the paths and times it uses, the archives of the cached
-- snapshot, the snapshot that it would take of the local root, and how file operations end.
pub record Device (H : Hashing) : Type 1 where
  pub local_root : String
  pub backup_root : Option String
  pub remote_prefix : String
  pub has_remote : Bool
  pub apply_id : String
  pub archives : String → Option (Archive H.Bytes)
  pub output_path : StagedSkill → String
  pub scan : Fs (Files H) → Index × List (String × Archive H.Bytes)
  pub weather : ApplyItem → Weather (Files H)

-- What a run changes: the local disk, the remote, and the base records beside the local root.
pub record World (H : Hashing) : Type 1 where
  pub disk : Fs (Files H)
  pub remote : Upload (RemoteFile H.Bytes)
  pub base_records : List (List (String × String))

pub record SyncResult : Type 0 where
  pub applied : ℕ
  pub uploaded : ℕ
  pub preview : Preview
  pub apply_result : Option ApplyRecord
  pub base_record : Option (List (String × String))

module _ {H : Hashing} (D : Device H) where
  -- `index.json` on the remote.
  unfoldable pub remote_index : Upload (RemoteFile H.Bytes) → Result Index
  remote_index u = elim (lookup (join_remote_path D.remote_prefix index_name) u.remote) [
    | some (index_file index) ↦ ok index
    | _ ↦ err (remote_error "no index.json")
  ]

  unfoldable pub assert_remote_matches_cache :
      Option Index → Upload (RemoteFile H.Bytes) → Result (Unit {0})
  unfolding remote_index
  assert_remote_matches_cache none u =
      err (sync_apply_error "remote snapshot cache has no index.json")
  assert_remote_matches_cache (some cache) u = do
    index ← remote_index u
    require (same_dict (hashes_by_skill_id index) (hashes_by_skill_id cache)) (
        sync_apply_error
          "remote changed since the local cache was pulled; refresh pull-cache before pushing")

  -- `staged_by_skill_id`
  staged_loop : List (StagedSkill × Files H) → Dict String StagedSkill → Dict String StagedSkill
  staged_loop [] d = d
  staged_loop ((s, _) ∷ ss) d = staged_loop ss (insert s.skill_id s d)

  unfoldable pub staged_by_skill_id : List (StagedSkill × Files H) → Dict String StagedSkill
  unfolding staged_loop
  staged_by_skill_id staged = staged_loop staged []

  backup_directory : String
  backup_directory =
      (elim D.backup_root [ some root ↦ root | none ↦ D.local_root <> "/.skill-sync-backups" ])
      <> ("/" <> D.apply_id)

  pull_item : StagedSkill → PreviewItem → ApplyItem
  unfolding backup_directory
  pull_item s q = record {
    key = s.key;
    skill_id = q.item.skill_id;
    content_hash = or_else_text (some s.content_hash) (or_else_text q.item.remote_hash "");
    source_path = D.output_path s;
    target_path = D.local_root <> ("/" <> q.item.skill_id);
    backup_path = backup_directory <> ("/" <> q.item.skill_id);
    allowed = true;
  }

  -- The loop of `_build_pull_apply_plan`.
  unfoldable pub pull_items :
      List String → Dict String StagedSkill → List PreviewItem → Result (List ApplyItem)
  unfolding pull_item
  pull_items scopes staged [] = ok []
  pull_items scopes staged (q ∷ qs) = elim (is_pull q.item.plan_action) [
    | false ↦ pull_items scopes staged qs
    | true ↦ elim (lookup q.item.skill_id staged) [
      | none ↦
          err (sync_apply_error ("remote skill was not present after staging: " <> q.item.skill_id))
      | some s ↦ do
        require (contains scopes (or_else_text (some s.scope) "global"))
            (sync_apply_error ("refusing to install a skill of another scope: " <> q.item.skill_id))
        rest ← pull_items scopes staged qs
        ok (pull_item s q ∷ rest)
    ]
  ]

  -- The staging directory with its skills, and without them.
  put_staged : List (StagedSkill × Files H) → Fs (Files H) → Fs (Files H)
  put_staged [] fs = fs
  put_staged ((s, files) ∷ ss) fs = put_staged ss (place (D.output_path s) (some files) fs)

  clear_staged : List (StagedSkill × Files H) → Fs (Files H) → Fs (Files H)
  clear_staged [] fs = fs
  clear_staged ((s, _) ∷ ss) fs = clear_staged ss (place (D.output_path s) none fs)

  install_staged :
      List (StagedSkill × Files H)
      → List ApplyItem
      → World H
      → Result (Option ApplyRecord) × World H
  unfolding put_staged clear_staged
  install_staged staged items w =
      let (failure, record_, fs) =
        execute_apply_plan D.weather D.apply_id items (put_staged staged w.disk) in
      (
        elim failure [ none ↦ ok (some record_) | some e ↦ err e ],
        record w { disk = clear_staged staged fs },
      )

  -- The `with TemporaryDirectory` block.
  unfoldable pub pull_phase :
      Option Index → List String → Preview → World H → Result (Option ApplyRecord) × World H
  unfolding install_staged
  pull_phase index scopes p w = elim (count_actions is_pull p) [
    | zero ↦ (ok none, w)
    | suc _ ↦ elim (stage_snapshot H D.archives index) [
      | err e ↦ (err e, w)
      | ok staged ↦ elim (pull_items scopes (staged_by_skill_id staged) p.items) [
        | err e ↦ (err e, w)
        | ok items ↦ install_staged staged items w
      ]
    ]
  ]

  local_files : Index × List (String × Archive H.Bytes) → List (LocalFile (RemoteFile H.Bytes))
  local_files (index, archives) =
      (index_name, index_file index) ∷ map (λ a. (a.0, archive_file a.1)) archives

  -- `_push_local_snapshot` and `_write_sync_base_record`
  push_local_snapshot : List String → World H → Result (ℕ × List (String × String)) × World H
  unfolding local_files
  push_local_snapshot ids w =
      let (index, archives) = D.scan w.disk in
      let (raised, u) =
        upload_snapshot (some (archive_paths ids index.skills)) false D.remote_prefix
          (local_files (index, archives)) (record w.remote { uploaded = [] }) in
      let base = base_record_entries index.skills in
      elim raised [
        | some e ↦ (err e, record w { remote = u })
        | none ↦ (
          ok (length u.uploaded, base),
          record w { remote = u; base_records = base ∷ w.base_records },
        )
      ]

  unfoldable pub push_phase :
      Preview → World H → Result (Option (ℕ × List (String × String))) × World H
  unfolding push_local_snapshot
  push_phase p w = elim (count_actions is_push p) [
    | zero ↦ (ok none, w)
    | suc _ ↦
        let (pushed, w') = push_local_snapshot (action_skill_ids is_push p) w in
        (pushed >>= (λ x. ok (some x)), w')
  ]

  -- What must hold before anything is changed.
  unfoldable pub guards : Option Index → Preview → Upload (RemoteFile H.Bytes) → Result (Unit {0})
  guards index p u = do
    require (p.plan.blocked == 0)
        (sync_apply_error "sync plan has blocked item(s); inspect sync-plan first")
    require (p.unsupported == 0) (
        sync_apply_error
          "sync-apply can currently execute only pull/pull_new/push/push_new/noop actions")
    require (count_actions is_push p == 0 || D.has_remote)
        (sync_apply_error "push actions require a remote destination")
    elim (count_actions is_push p) [ zero ↦ ok tt | suc _ ↦ assert_remote_matches_cache index u ]

  sync_result : Preview → Option ApplyRecord → Option (ℕ × List (String × String)) → SyncResult
  sync_result p pulled pushed = record {
    applied = elim pulled [ none ↦ 0 | some r ↦ length r.applied ];
    uploaded = elim pushed [ none ↦ 0 | some (n, _) ↦ n ];
    preview = p;
    apply_result = pulled;
    base_record = elim pushed [ none ↦ none | some (_, base) ↦ some base ];
  }

  -- The run after its guards.
  unfoldable pub pull_then_push :
      Option Index → List String → Preview → World H → Result SyncResult × World H
  unfolding sync_result
  pull_then_push index scopes p w =
      let (pulled, w1) = pull_phase index scopes p w in
      elim pulled [
        | err e ↦ (err e, w1)
        | ok a ↦
            let (pushed, w2) = push_phase p w1 in (pushed >>= (λ x. ok (sync_result p a x)), w2)
      ]

  unfoldable pub execute_sync_apply :
      Projections → Inputs → Options → World H → Result SyncResult × World H
  execute_sync_apply P i o w = elim (build_sync_apply_preview P i o) [
    | err e ↦ (err e, w)
    | ok p ↦ elim (guards i.index p w.remote) [
      | err e ↦ (err e, w)
      | ok _ ↦ elim (allowed_scopes o.target) [
        | err e ↦ (err e, w)
        | ok scopes ↦ pull_then_push i.index scopes p w
      ]
    ]
  ]
