-- ===== src/Tests/ReconcileTests.antt =====
-- src/skill_sync_sidecar/reconcile.py and openclaw_gate.py on a device that has one skill in another
-- version.
use skill_sync_sidecar.Common.{String, ◌≡◌, refl}
use skill_sync_sidecar.Common.{true}
use skill_sync_sidecar.Common.{none, some, List, [], ◌∷◌, map}
use skill_sync_sidecar.Common.{option_eq, string_eq, nat_eq}
use skill_sync_sidecar.Common.{ok, err}
use skill_sync_sidecar.Common.Dict.{lookup, insert, keys}
use skill_sync_sidecar.Common.Sorted.{sorted_set}
use skill_sync_sidecar.Common.Tally.{tally, sorted_items}
use skill_sync_sidecar.Common.Text.{starts_with, ends_with}
use skill_sync_sidecar.Skill.{Entry, empty_entry, Index, hash_of}
use skill_sync_sidecar.SyncState.Entries.{unique_by_skill_id}
use skill_sync_sidecar.Reconcile.{Files, ReconcileReport, build_reconcile_report, unique_entries}
use skill_sync_sidecar.Reconcile.{reconcile_items, reconcile_item, report_of, status_of, differing}
use skill_sync_sidecar.Reconcile.{
  file_diff, conflict_category, category_of_paths, is_generated_path,
}
use skill_sync_sidecar.Reconcile.{is_doc_path, is_code_or_config_path, recommendation_of}
use skill_sync_sidecar.Reconcile.Gate.{build_openclaw_gate, loaded, read_back}
use skill_sync_sidecar.Reconcile.Gate.Agreement.{
  IsGated, build_openclaw_gate-build_reconcile_report,
}

abbrev entry : String → String → Entry
entry k h = record empty_entry { skill_id = some k; content_hash = some h }

abbrev index : Index
index = record {
  snapshot_id = some "snap";
  created_at = none;
  total = 3;
  skills = entry "a" "1" ∷ entry "b" "3" ∷ entry "c" "4" ∷ [];
}

abbrev inventory : List Entry
inventory = entry "a" "1" ∷ entry "b" "2" ∷ []

abbrev files : Files
files = record {
  local_files = λ e. ("SKILL.md", (some "9", some "x")) ∷ ("docs/a.md", (some "1", some "y")) ∷ [];
  remote_files = λ e. ok (("SKILL.md", (some "9", some "z")) ∷ []);
}

abbrev no_report : ReconcileReport
no_report = record {
  local_total = 0;
  remote_total = 0;
  summary = [];
  recommendations = [];
  changed_since_previous = none;
  safe_to_auto_apply = true;
  items = [];
}

unfoldable report : ReconcileReport
report = elim (build_reconcile_report files inventory (some index) (some inventory)) [
  | ok r ↦ r
  | err e ↦ no_report
]

built : build_reconcile_report files inventory (some index) (some inventory) ≡ ok report
unfolding report build_reconcile_report unique_entries unique_by_skill_id reconcile_items
    reconcile_item report_of status_of differing lookup insert keys sorted_set string_eq option_eq
    hash_of tally sorted_items recommendation_of
built = refl

-- The manifest and a document differ.
categories : map (λ i. i.conflict_category) report.items ≡ none ∷ some "docs_only" ∷ none ∷ []
unfolding report build_reconcile_report unique_entries unique_by_skill_id reconcile_items
    reconcile_item report_of status_of differing lookup insert keys sorted_set string_eq option_eq
    hash_of tally sorted_items recommendation_of file_diff conflict_category category_of_paths
    is_generated_path is_doc_path is_code_or_config_path starts_with ends_with nat_eq
categories = refl

build_openclaw_gate-build_reconcile_report_example :
    IsGated true inventory index
      (some inventory)
      (build_openclaw_gate (loaded (read_back report)) true)
build_openclaw_gate-build_reconcile_report_example =
    build_openclaw_gate-build_reconcile_report files true inventory index (some inventory) report
      built
