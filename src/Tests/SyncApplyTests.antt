-- ===== src/Tests/SyncApplyTests.antt =====
-- src/skill_sync_sidecar/sync_apply.py and sync_cycle.py on a device that has edited one skill
-- while another was published.
use skill_sync_sidecar.Common.{String, ◌<>◌, ◌≡◌, refl}
use skill_sync_sidecar.Common.{◌⊎◌, true, false}
use skill_sync_sidecar.Common.{none, some, List, [], ◌∷◌, if◌then◌else◌}
use skill_sync_sidecar.Common.{◌==◌, option_eq, string_eq, nat_eq}
use skill_sync_sidecar.Common.{length}
use skill_sync_sidecar.Common.{Result, ok, err}
use skill_sync_sidecar.Common.Dict.{lookup, insert, keys}
use skill_sync_sidecar.Skill.{Entry, empty_entry, Index, hash_of, lifecycle_state}
use skill_sync_sidecar.SyncState.Overrides.{Projections, OverridesFile, load_local_overrides}
use skill_sync_sidecar.SyncState.Overrides.{classify_skill_with_override}
use skill_sync_sidecar.SyncState.Entries.{
  unique_by_skill_id, local_entries, snapshot_entries, base_entries,
}
use skill_sync_sidecar.SyncState.{classify_skill}
use skill_sync_sidecar.Common.Sorted.{sorted_set}
use skill_sync_sidecar.Common.Tally.{tally, sorted_items}
use skill_sync_sidecar.Common.Text.{
  strip, lower, strip_slashes, ends_with_slash, starts_with_slash, split_slash, split_last,
}
use skill_sync_sidecar.SyncState.Status.{
  Inputs, build_sync_status, read_sides, items_of, all_ids, item_of,
}
use skill_sync_sidecar.SyncPlan.{
  WriterPolicy, SyncPlan, build_sync_plan, read_policy, decide, policy_allows, plan_item,
  apply_writer_policy, plan_items,
}
use skill_sync_sidecar.Stage.{
  Archive, Files, stage_snapshot, stage_skills, stage_skill, extract, validate_archive_member,
  is_unsafe, validate_staged_files, check_files,
}
use skill_sync_sidecar.Common.{works}
use skill_sync_sidecar.Common.Sorting.{sort_by}
use skill_sync_sidecar.Apply.{
  place, Weather, execute_apply_plan, apply_items, apply_item, temp_path, attempt, recover,
}
use skill_sync_sidecar.Remote.{
  join_remote_path, upload_snapshot, upload_files, ordered_files, is_skipped, is_included,
}
use skill_sync_sidecar.SyncApply.{
  Preview, Options, build_sync_apply_preview, allowed_scopes, expected_scope, preview_of,
  enrich_all, enrich, targets_tool, remote_entries_by_skill_id,
}
use skill_sync_sidecar.SyncApply.Supported.{Promises, build_sync_apply_preview-Promises}
use skill_sync_sidecar.SyncApply.Execute.{index_file, archive_file, Device, World, SyncResult}
use skill_sync_sidecar.SyncApply.Execute.{
  execute_sync_apply, guards, assert_remote_matches_cache, remote_index, hashes_by_skill_id,
  same_dict, pull_then_push, pull_phase, push_phase, staged_by_skill_id, pull_items,
  action_skill_ids, archive_paths, base_record_entries,
}
use skill_sync_sidecar.SyncApply.Execute.Guards.{IsCleared, execute_sync_apply-IsCleared}
use skill_sync_sidecar.SyncApply.Execute.Results.{Reports, execute_sync_apply-Reports}
use skill_sync_sidecar.SyncCycle.{
  CycleResult, run_sync_cycle, download_snapshot, refreshed, find, finish, may_apply,
  count_delete_plan_actions, build_conflicts_if_needed, build_tombstones_if_needed, reason_of,
  cycle_result, raised_or, CycleStatus, Findings, Reason,
}
use skill_sync_sidecar.SyncCycle
use skill_sync_sidecar.SyncCycle.Outcomes.{Ends, run_sync_cycle-Ends}
use skill_sync_sidecar.Tests.StageTests.{hashing, archive, digests, manifest, listed}

abbrev entry : String → String → Entry
entry k h = record empty_entry {
  skill_id = some k;
  content_hash = some h;
  path = some ("/skills/" <> k);
  archive = some ("zip/" <> h);
}

abbrev index_of : List Entry → Index
index_of es = record {
  snapshot_id = some "snap";
  created_at = none;
  total = length es;
  skills = es;
}

-- The skill `new` was published as `abc`, and `own` was edited here.
abbrev published : Index
published = index_of (entry "new" "abc" ∷ entry "own" "o1" ∷ [])

abbrev inputs : Inputs
inputs = record {
  scanned = entry "new" "old" ∷ entry "own" "o2" ∷ [];
  index = some published;
  last_applied = some (some (entry "new" "old" ∷ entry "own" "o1" ∷ []));
  overrides = OverridesFile.missing;
  local_skill_ids = [];
}

abbrev options : Options
options = record {
  allow_new = false;
  allow_delete = false;
  writer_policy = "push-pull";
  target = "cc-switch-global";
}

abbrev no_projections : Projections
no_projections = record { projected_local = λ p i. some p; projected_remote = λ e i. ok (some "r") }

abbrev fair : Weather (Files hashing)
fair = record {
  copy_source = works;
  copy_backup = works;
  remove_target = works;
  rename = true;
  restore_copy = works;
  remove_temp = works;
}

abbrev old_archive : Archive String
old_archive = record {
  manifest = some (record manifest {
    content_hash = some "o1";
    files = record listed { sha256 = some "o1" } ∷ [];
  });
  members = ("SKILL.md", "o1") ∷ [];
}

abbrev device : Device hashing
device = record {
  local_root = "/skills";
  backup_root = none;
  remote_prefix = "team";
  has_remote = true;
  apply_id = "1";
  archives = λ path.
      if path == "zip/abc"
      then some archive
      else if path == "zip/o1"
      then some old_archive
      else none;
  output_path = λ s. "/stage/" <> s.skill_id;
  scan = λ fs. (
    index_of (entry "new" "abc" ∷ entry "own" "o2" ∷ []),
    ("zip/abc", archive) ∷ ("zip/o2", archive) ∷ [],
  );
  weather = λ item. fair;
}

abbrev world : World hashing
world = record {
  disk = place "/skills/new" (some (("SKILL.md", "old") ∷ [])) (λ p. none);
  remote = record {
    remote =
        ("team/index.json", index_file published)
        ∷ ("team/zip/abc", archive_file archive)
        ∷ ("team/zip/o1", archive_file archive)
        ∷ [];
    writes_left = 9;
    left_by_failure = none;
    uploaded = [];
  };
  base_records = [];
}

abbrev no_plan : SyncPlan
no_plan = record {
  writer_policy = WriterPolicy.push_pull;
  total = 0;
  summary = [];
  allowed = 0;
  blocked = 0;
  safe_to_apply = true;
  items = [];
}

abbrev no_preview : Preview
no_preview = record {
  plan = no_plan;
  executable = 0;
  unsupported = 0;
  supported_to_apply = true;
  items = [];
}

abbrev no_result : SyncResult
no_result = record {
  applied = 0;
  uploaded = 0;
  preview = no_preview;
  apply_result = none;
  base_record = none;
}

unfoldable preview : Preview
preview = elim (build_sync_apply_preview no_projections inputs options) [
  | ok p ↦ p
  | err e ↦ no_preview
]

previewed : build_sync_apply_preview no_projections inputs options ≡ ok preview
unfolding preview build_sync_apply_preview allowed_scopes expected_scope lookup insert keys
    string_eq nat_eq option_eq build_sync_status read_sides local_entries unique_by_skill_id
    snapshot_entries base_entries load_local_overrides items_of all_ids sorted_set item_of
    classify_skill_with_override classify_skill lifecycle_state hash_of tally sorted_items
    build_sync_plan read_policy plan_items plan_item apply_writer_policy decide policy_allows
    preview_of enrich_all enrich targets_tool lower strip remote_entries_by_skill_id
previewed = refl

build_sync_apply_preview-Promises_example : Promises inputs.index "cc-switch-global" preview
build_sync_apply_preview-Promises_example =
    build_sync_apply_preview-Promises no_projections inputs options preview previewed

-- The run of `execute_sync_apply`.
unfoldable run : Result SyncResult × World hashing
unfolding build_sync_apply_preview allowed_scopes expected_scope lookup insert keys string_eq nat_eq
    option_eq build_sync_status read_sides local_entries unique_by_skill_id snapshot_entries
    base_entries load_local_overrides items_of all_ids sorted_set item_of
    classify_skill_with_override classify_skill lifecycle_state hash_of tally sorted_items
    build_sync_plan read_policy plan_items plan_item apply_writer_policy decide policy_allows
    preview_of enrich_all enrich targets_tool lower strip remote_entries_by_skill_id
    execute_sync_apply guards assert_remote_matches_cache remote_index join_remote_path
    strip_slashes hashes_by_skill_id same_dict pull_then_push pull_phase push_phase stage_snapshot
    stage_skills stage_skill extract ends_with_slash validate_archive_member is_unsafe
    starts_with_slash split_slash validate_staged_files check_files sort_by digests
    staged_by_skill_id pull_items execute_apply_plan apply_items apply_item temp_path split_last
    attempt recover action_skill_ids archive_paths base_record_entries upload_snapshot upload_files
    ordered_files is_skipped is_included
run = execute_sync_apply device no_projections inputs options world

result : SyncResult
unfolding run
result = elim run.0 [ ok r ↦ r | err e ↦ no_result ]

after : World hashing
unfolding run
after = run.1

applied_both :
    (result.applied ≡ 1)
    × (result.uploaded ≡ 2)
    × (after.disk "/skills/new" ≡ some (("SKILL.md", "abc") ∷ ("notes/extra.md", "x") ∷ []))
unfolding result after
applied_both = (refl, refl, refl)

ran : execute_sync_apply device no_projections inputs options world ≡ (ok result, after)
unfolding result after
ran = refl

execute_sync_apply-Reports_example :
    (p : Preview) × (build_sync_apply_preview no_projections inputs options ≡ ok p)
    × Reports device inputs options world p result after
execute_sync_apply-Reports_example =
    execute_sync_apply-Reports device no_projections inputs options world after result ran

execute_sync_apply-IsCleared_example :
    (after ≡ world)
    ⊎ ((p : Preview) × (build_sync_apply_preview no_projections inputs options ≡ ok p)
        × IsCleared device inputs options world p)
execute_sync_apply-IsCleared_example =
    execute_sync_apply-IsCleared device no_projections inputs options world after (ok result) ran

-- The same as a run of `run_sync_cycle`.
no_reports : SyncCycle.Reports
no_reports = record {
  conflicts_raise = none;
  tombstones_raise = none;
  blocked_report_raises = none;
}

cycle_run : Result CycleResult × World hashing
unfolding no_reports build_sync_apply_preview allowed_scopes expected_scope lookup insert keys
    string_eq nat_eq option_eq build_sync_status read_sides local_entries unique_by_skill_id
    snapshot_entries base_entries load_local_overrides items_of all_ids sorted_set item_of
    classify_skill_with_override classify_skill lifecycle_state hash_of tally sorted_items
    build_sync_plan read_policy plan_items plan_item apply_writer_policy decide policy_allows
    preview_of enrich_all enrich targets_tool lower strip remote_entries_by_skill_id
    execute_sync_apply guards assert_remote_matches_cache remote_index join_remote_path
    strip_slashes hashes_by_skill_id same_dict pull_then_push pull_phase push_phase stage_snapshot
    stage_skills stage_skill extract ends_with_slash validate_archive_member is_unsafe
    starts_with_slash split_slash validate_staged_files check_files sort_by digests
    staged_by_skill_id pull_items execute_apply_plan apply_items apply_item temp_path split_last
    attempt recover action_skill_ids archive_paths base_record_entries upload_snapshot upload_files
    ordered_files is_skipped is_included run_sync_cycle download_snapshot refreshed find finish
    may_apply count_delete_plan_actions build_conflicts_if_needed build_tombstones_if_needed
    reason_of cycle_result raised_or
cycle_run = run_sync_cycle device no_projections no_reports inputs options false world

abbrev no_cycle : CycleResult
no_cycle = record {
  status = CycleStatus.error;
  snapshot_id = none;
  sync_status = record {
    total = 0;
    summary = [];
    has_conflicts = false;
    local_overrides = [];
    items = [];
  };
  sync_plan = no_plan;
  conflicts = none;
  tombstones = none;
  delete_actions = 0;
  apply_result = none;
  reason = Reason.dry_run_only;
}

cycle : CycleResult
unfolding cycle_run
cycle = elim cycle_run.0 [ ok r ↦ r | err e ↦ no_cycle ]

after_cycle : World hashing
unfolding cycle_run
after_cycle = cycle_run.1

completed : (cycle.status ≡ CycleStatus.complete) × (cycle.reason ≡ Reason.actions_applied)
unfolding cycle
completed = (refl, refl)

cycle_ran :
    run_sync_cycle device no_projections no_reports inputs options false world
    ≡ (ok cycle, after_cycle)
unfolding cycle after_cycle
cycle_ran = refl

run_sync_cycle-Ends_example : Ends false cycle world after_cycle
run_sync_cycle-Ends_example =
    run_sync_cycle-Ends device no_projections no_reports inputs options false world after_cycle
      cycle cycle_ran
