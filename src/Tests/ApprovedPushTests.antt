-- ===== src/Tests/ApprovedPushTests.antt =====
-- src/skill_sync_sidecar/approved_push.py on a remote with two skills: `a`, whose local version is
-- approved, and `b`, of which the device still has the old version.
use skill_sync_sidecar.Common.{String, ◌<>◌, ◌≡◌, refl}
use skill_sync_sidecar.Common.{true, false}
use skill_sync_sidecar.Common.{none, some, List, [], ◌∷◌}
use skill_sync_sidecar.Common.{option_eq, string_eq, nat_eq}
use skill_sync_sidecar.Common.{length}
use skill_sync_sidecar.Common.{Result, ok, err, works}
use skill_sync_sidecar.Common.Text.{strip, strip_slashes}
use skill_sync_sidecar.Common.Dict.{lookup, insert, keys}
use skill_sync_sidecar.Common.Sorted.{sorted_set}
use skill_sync_sidecar.Common.Tally.{tally, sorted_items}
use skill_sync_sidecar.Skill.{Entry, empty_entry, Index, hash_of, lifecycle_state}
use skill_sync_sidecar.SyncState.{Action, classify_skill}
use skill_sync_sidecar.SyncState.Entries.{
  unique_by_skill_id, local_entries, snapshot_entries, base_entries,
}
use skill_sync_sidecar.SyncState.Overrides.{
  OverridesFile, Projections, load_local_overrides, classify_skill_with_override,
}
use skill_sync_sidecar.SyncState.Status.{
  Inputs, build_sync_status, read_sides, items_of, all_ids, item_of,
}
use skill_sync_sidecar.SyncPlan.{
  PlanAction, SyncPlanItem, decide, build_sync_plan, read_policy, plan_items, plan_item,
  apply_writer_policy, policy_allows,
}
use skill_sync_sidecar.Remote.{
  upload_snapshot, upload_files, ordered_files, is_skipped, is_included, join_remote_path,
}
use skill_sync_sidecar.SyncApply.Execute.{
  index_file, base_record_entries, hashes_by_skill_id, same_dict,
}
use skill_sync_sidecar.ApprovedPush.{
  Report, ReportItem, ApprovedItem, approved_items, approved_item, approve,
}
use skill_sync_sidecar.ApprovedPush.{
  is_approved_conflict_local_wins, load_blocked_report, normalize_approved_ids,
  report_items_by_skill_id, plan_by_id, deferred_pushes,
}
use skill_sync_sidecar.ApprovedPush.Approval.{AreApproved, approved_items-AreApproved}
use skill_sync_sidecar.ApprovedPush.Merge.{
  build_merged_snapshot, merge_skills, append_new, local_by_id, remote_ids,
}
use skill_sync_sidecar.ApprovedPush.Merge.Laws.{IsMergedIndex, build_merged_snapshot-IsMergedIndex}
use skill_sync_sidecar.ApprovedPush.Execute.{
  record_push, Options, Snapshot, World, PushResult, execute_approved_push, prepare, push_merged,
  build_approved_push_preview, assert_remote_is_cached, cached_index,
}
use skill_sync_sidecar.Tests.StageTests.{archive}

abbrev entry : String → String → Entry
entry k h = record empty_entry {
  skill_id = some k;
  content_hash = some h;
  archive = some ("zip/" <> h);
}

abbrev index_of : List Entry → Index
index_of es = record {
  snapshot_id = some "snap";
  created_at = none;
  total = length es;
  skills = es;
}

abbrev cache : Index
cache = index_of (entry "a" "1" ∷ entry "b" "9" ∷ [])

abbrev local_index : Index
local_index = index_of (entry "a" "2" ∷ entry "b" "5" ∷ [])

abbrev merged_index : Index
merged_index = record {
  snapshot_id = some "approved-push";
  created_at = some "now";
  total = 2;
  skills = entry "a" "2" ∷ entry "b" "9" ∷ [];
}

merged :
    build_merged_snapshot "approved-push" "now" ("a" ∷ []) local_index cache
    ≡ ok (merged_index, "zip/2" ∷ [])
unfolding build_merged_snapshot merge_skills append_new local_by_id remote_ids sorted_set lookup
    insert string_eq
merged = refl

build_merged_snapshot-IsMergedIndex_example :
    IsMergedIndex ("a" ∷ []) local_index cache merged_index ("zip/2" ∷ [])
build_merged_snapshot-IsMergedIndex_example =
    build_merged_snapshot-IsMergedIndex "approved-push" "now" ("a" ∷ []) local_index cache
      merged_index ("zip/2" ∷ []) merged

abbrev approved : List String
approved = "a" ∷ []

abbrev report_item : ReportItem
report_item = record {
  skill_id = some "a";
  category = "writer_policy";
  status_action = "push";
  base_hash = some "1";
  local_hash = some "2";
  remote_hash = some "1";
  reason = some "writer policy pull-only blocks push";
}

abbrev plan_item_a : SyncPlanItem
plan_item_a = record {
  skill_id = "a";
  status_action = Action.push;
  plan_action = PlanAction.push;
  allowed = true;
  reason = "local changed and remote is still at base";
  base_hash = some "1";
  local_hash = some "2";
  remote_hash = some "1";
}

abbrev approved_a : ApprovedItem
approved_a = record {
  skill_id = "a";
  approved_action = "push";
  status_action = Action.push;
  base_hash = some "1";
  local_hash = some "2";
  remote_hash = some "1";
  blocked_reason = some "writer policy pull-only blocks push";
}

a_approved :
    approved_items (("a", report_item) ∷ []) (("a", plan_item_a) ∷ []) false ("a" ∷ [])
    ≡ ok (approved_a ∷ [])
unfolding approved_items approved_item approve is_approved_conflict_local_wins lookup string_eq
    option_eq
a_approved = refl

approved_items-AreApproved_example :
    AreApproved
      (("a", report_item) ∷ [])
      (("a", plan_item_a) ∷ [])
      false
      ("a" ∷ [])
      (approved_a ∷ [])
approved_items-AreApproved_example =
    approved_items-AreApproved (("a", report_item) ∷ []) (("a", plan_item_a) ∷ []) false ("a" ∷ [])
      (approved_a ∷ []) a_approved

abbrev no_projections : Projections
no_projections = record { projected_local = λ p i. some p; projected_remote = λ e i. ok (some "r") }

abbrev inputs : Inputs
inputs = record {
  scanned = entry "a" "2" ∷ entry "b" "5" ∷ [];
  index = some cache;
  last_applied = some (some (entry "a" "1" ∷ entry "b" "5" ∷ []));
  overrides = OverridesFile.missing;
  local_skill_ids = [];
}

abbrev report : Report
report = record {
  record_type = "skill-sync-blocked-report";
  allow_new = false;
  items = report_item ∷ [];
}

abbrev options : Options
options = record {
  skill_ids = " a " ∷ [];
  allow_new = none;
  allow_conflict_local_wins = false;
  remote_prefix = "";
  has_out_dir = true;
}

abbrev snapshot : Snapshot String
snapshot = (local_index, ("zip/2", archive) ∷ ("zip/5", archive) ∷ [])

abbrev world : World String
world = record {
  remote = record {
    remote = ("index.json", index_file cache) ∷ [];
    writes_left = 9;
    left_by_failure = none;
    uploaded = [];
  };
  base_records = [];
  records = [];
  save_base = works;
  save_record = works;
}

unfoldable run : Result PushResult × World String
unfolding execute_approved_push prepare push_merged build_approved_push_preview record_push
    assert_remote_is_cached cached_index load_blocked_report normalize_approved_ids
    report_items_by_skill_id plan_by_id deferred_pushes approved_items approved_item approve
    is_approved_conflict_local_wins build_merged_snapshot merge_skills append_new local_by_id
    remote_ids build_sync_status read_sides local_entries unique_by_skill_id snapshot_entries
    base_entries load_local_overrides items_of all_ids sorted_set item_of
    classify_skill_with_override classify_skill lifecycle_state hash_of tally sorted_items
    build_sync_plan read_policy plan_items plan_item apply_writer_policy decide policy_allows strip
    lookup insert keys string_eq option_eq nat_eq upload_snapshot upload_files ordered_files
    is_skipped is_included join_remote_path strip_slashes hashes_by_skill_id same_dict
    base_record_entries
run =
    execute_approved_push no_projections (some report) inputs options snapshot snapshot
      "approved-push" "now" world

pushed_base : run.1.base_records ≡ (("a", "2") ∷ ("b", "9") ∷ []) ∷ []
unfolding run
pushed_base = refl

abbrev no_result : PushResult
no_result = record {
  preview = record {
    approved_skill_ids = [];
    items = [];
    deferred = [];
    index = cache;
    archives = [];
  };
  index = cache;
  uploaded = 0;
  base_record = [];
}

result : PushResult
unfolding run
result = elim run.0 [ ok r ↦ r | err e ↦ no_result ]

after : World String
unfolding run
after = run.1
