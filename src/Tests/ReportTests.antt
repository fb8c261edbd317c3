-- ===== src/Tests/ReportTests.antt =====
-- src/skill_sync_sidecar/diff.py, base_adoption.py and blocked_report.py on small inputs.
use skill_sync_sidecar.Common.{String, ◌<>◌, ◌≡◌, refl}
use skill_sync_sidecar.Common.{◌⊎◌, false}
use skill_sync_sidecar.Common.{none, some, List, [], ◌∷◌, if◌then◌else◌}
use skill_sync_sidecar.Common.{option_eq, string_eq, nat_eq}
use skill_sync_sidecar.Common.{length}
use skill_sync_sidecar.Common.{Error, Result, ok, err}
use skill_sync_sidecar.Common.Dict.{lookup, insert, keys}
use skill_sync_sidecar.Common.Sorted.{sorted_set}
use skill_sync_sidecar.Common.Tally.{tally, sorted_items}
use skill_sync_sidecar.Skill.{Entry, Index, empty_entry, hash_of, lifecycle_state}
use skill_sync_sidecar.SyncState.{Action, SyncStateItem, classify_skill}
use skill_sync_sidecar.SyncState.Entries.{
  unique_by_skill_id, local_entries, snapshot_entries, base_entries,
}
use skill_sync_sidecar.SyncState.Overrides.{
  Projections, OverridesFile, load_local_overrides, classify_skill_with_override,
}
use skill_sync_sidecar.SyncState.Status.{
  Inputs, Status, build_sync_status, read_sides, items_of, all_ids, item_of,
}
use skill_sync_sidecar.SyncPlan.{
  WriterPolicy, plan_item, apply_writer_policy, decide, policy_allows,
}
use skill_sync_sidecar.Diff.{diff_snapshot_indexes, entries_by_key}
use skill_sync_sidecar.Diff.Laws.{IsSorted, diff_snapshot_indexes-IsSorted}
use skill_sync_sidecar.BaseAdoption.{
  BaseEntry, AdoptionPreview, preview_of, execute_base_adoption, adopt, adopt_all,
}
use skill_sync_sidecar.BaseAdoption.{build_base_adoption_preview}
use skill_sync_sidecar.BaseAdoption.Laws.{Covers, execute_base_adoption-Covers}
use skill_sync_sidecar.BlockedReport.{Category, category_of_action, enrich_item}
use skill_sync_sidecar.BlockedReport.Categories.{enrich_item-apply_writer_policy}

abbrev entry : String → String → Entry
entry k h = record empty_entry {
  key = some k;
  skill_id = some k;
  content_hash = some h;
  path = some ("/skills/" <> k);
}

abbrev index_of : List Entry → Index
index_of es = record {
  snapshot_id = some "snap";
  created_at = none;
  total = length es;
  skills = es;
}

abbrev left : Index
left = index_of (entry "a" "1" ∷ entry "b" "1" ∷ [])

abbrev right : Index
right = index_of (entry "b" "2" ∷ entry "c" "1" ∷ [])

diff_snapshot_indexes-IsSorted_example :
    IsSorted (entries_by_key left) (entries_by_key right) (diff_snapshot_indexes left right) "b"
diff_snapshot_indexes-IsSorted_example = diff_snapshot_indexes-IsSorted left right "b"

abbrev no_projections : Projections
no_projections = record { projected_local = λ p i. some p; projected_remote = λ e i. ok (some "r") }

abbrev inputs : Inputs
inputs = record {
  scanned = entry "a" "1" ∷ entry "b" "1" ∷ [];
  index = some left;
  last_applied = none;
  overrides = OverridesFile.missing;
  local_skill_ids = [];
}

unfoldable run : Result AdoptionPreview × List BaseEntry
unfolding execute_base_adoption build_base_adoption_preview preview_of adopt adopt_all
    build_sync_status read_sides local_entries unique_by_skill_id snapshot_entries base_entries
    load_local_overrides items_of all_ids sorted_set item_of classify_skill_with_override
    classify_skill lifecycle_state hash_of tally sorted_items lookup insert keys string_eq nat_eq
    option_eq
run = execute_base_adoption no_projections inputs []

adopted : Result AdoptionPreview
unfolding run
adopted = run.0

abbrev base : List BaseEntry
base = ("a", "1") ∷ ("b", "1") ∷ []

ran : execute_base_adoption no_projections inputs [] ≡ (adopted, base)
unfolding adopted
ran = refl

execute_base_adoption-Covers_example :
    ((e : Error) × (adopted ≡ err e) × (base ≡ []))
    ⊎ ((st : Status) × (build_sync_status no_projections inputs ≡ ok st)
        × (adopted ≡ ok (preview_of st))
        × (length base ≡ length st.items)
        × Covers st.items base)
execute_base_adoption-Covers_example =
    execute_base_adoption-Covers no_projections inputs [] base adopted ran

abbrev edited : SyncStateItem
edited = record {
  skill_id = "a";
  action = Action.push;
  base_hash = some "1";
  local_hash = some "2";
  remote_hash = some "1";
  reason = "local changed and remote still matches base";
}

refused :
    (apply_writer_policy WriterPolicy.pull_only (plan_item false false edited)).allowed ≡ false
unfolding apply_writer_policy plan_item decide policy_allows
refused = refl

enrich_item-apply_writer_policy_example :
    (enrich_item "pull-only"
      (apply_writer_policy WriterPolicy.pull_only (plan_item false false edited))).category
    ≡ (if (plan_item false false edited).allowed
        then Category.writer_policy
        else category_of_action edited.action)
enrich_item-apply_writer_policy_example =
    enrich_item-apply_writer_policy false false WriterPolicy.pull_only "pull-only" edited refused
