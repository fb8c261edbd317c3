-- ===== src/Tests/LifecycleTests.antt =====
-- src/skill_sync_sidecar/central_lifecycle.py on an index of two skills.
use skill_sync_sidecar.Common.{ℕ, String, ◌≡◌, refl}
use skill_sync_sidecar.Common.{true}
use skill_sync_sidecar.Common.{none, some, [], ◌∷◌}
use skill_sync_sidecar.Common.{option_eq, string_eq, nat_eq}
use skill_sync_sidecar.Common.{or_else_text}
use skill_sync_sidecar.Common.{Result, works}
use skill_sync_sidecar.Common.Dict.{lookup, insert}
use skill_sync_sidecar.Common.Text.{strip}
use skill_sync_sidecar.Skill.{Entry, Index as SkillIndex, empty_entry, lifecycle_state}
use skill_sync_sidecar.SyncState.{central_deprecated, classify_skill}
use skill_sync_sidecar.CentralLifecycle.{Change, build_preview, changed_index, Central}
use skill_sync_sidecar.CentralLifecycle.{
  deprecate, execute, is_chosen, deprecate_entry, normalize_skill_ids,
}
use skill_sync_sidecar.CentralLifecycle.{skills_by_id, lifecycle_items, is_changed, deprecate_index}
use skill_sync_sidecar.CentralLifecycle.{assert_remote_index_matches_cache}
use skill_sync_sidecar.CentralLifecycle.Index.{IsChanged, changed_entry, changed_entry-IsChanged}
use skill_sync_sidecar.CentralLifecycle.Index.{classify_skill-deprecate_entry}

abbrev entry : String → Entry
entry k = record empty_entry { skill_id = some k; content_hash = some "h" }

abbrev change : Change
change = record {
  actor = "mac";
  reason = "old";
  at_time = "now";
  snapshot_id = "central-deprecate-now";
}

abbrev index : SkillIndex
index = record {
  snapshot_id = some "snap";
  created_at = none;
  total = 2;
  skills = entry "a" ∷ entry "b" ∷ [];
}

abbrev central : Central
central = record { remote = some index; cache = some index }

abbrev digest : SkillIndex → String
digest i = or_else_text i.snapshot_id ""

unfoldable run : Result ℕ × Central
unfolding execute build_preview normalize_skill_ids strip lookup insert string_eq nat_eq
    skills_by_id lifecycle_items is_changed lifecycle_state assert_remote_index_matches_cache
    changed_index deprecate_index deprecate_entry is_chosen
run = execute digest deprecate true works works change (" a " ∷ "a" ∷ []) central

after : Central
unfolding run
after = run.1

changed_entry-IsChanged_example :
    IsChanged deprecate change
      ("a" ∷ [])
      (entry "a")
      (changed_entry deprecate change ("a" ∷ []) (entry "a"))
changed_entry-IsChanged_example = changed_entry-IsChanged deprecate change ("a" ∷ []) (entry "a")

classify_skill-deprecate_entry_example :
    (classify_skill "a" none
      (some (entry "a"))
      (some (deprecate_entry change ("a" ∷ []) (entry "a")))).action
    ≡ central_deprecated
unfolding is_chosen string_eq
classify_skill-deprecate_entry_example =
    classify_skill-deprecate_entry change ("a" ∷ []) "a" none (some (entry "a")) (entry "a") refl
