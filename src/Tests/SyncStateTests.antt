-- ===== src/Tests/SyncStateTests.antt =====
-- src/skill_sync_sidecar/sync_state.py and sync_plan.py on a small library of skills.
use skill_sync_sidecar.Common.{String, ◌<>◌, ◌≡◌, refl}
use skill_sync_sidecar.Common.{◌≢◌, Bool, true, false}
use skill_sync_sidecar.Common.{Option, none, some, [], ◌∷◌}
use skill_sync_sidecar.Common.{option_eq, string_eq, nat_eq}
use skill_sync_sidecar.Common.{Error, Result, ok, err}
use skill_sync_sidecar.Common.Dict.{lookup, insert, keys}
use skill_sync_sidecar.Common.Sorted.{sorted_set}
use skill_sync_sidecar.Common.Tally.{tally, sorted_items}
use skill_sync_sidecar.Skill.{Entry, empty_entry, hash_of, lifecycle_state}
use skill_sync_sidecar.SyncState.{
  Action, SyncStateItem, LocalOverride, classify_skill, classify_hashes,
}
use skill_sync_sidecar.SyncState.Laws.{Direction, direction, direction-classify_skill}
use skill_sync_sidecar.SyncState.Laws.{
  mirror, classify_hashes-mirror, classify_hashes-ne-deleted_both,
}
use skill_sync_sidecar.SyncState.Entries.{
  unique_by_skill_id, local_entries, snapshot_entries, base_entries,
}
use skill_sync_sidecar.SyncState.Entries.Laws.{IsUnique, unique_by_skill_id-IsUnique}
use skill_sync_sidecar.SyncState.Overrides.{
  Projections, OverridesFile, load_local_overrides, classify_skill_with_override,
}
use skill_sync_sidecar.SyncState.Overrides.Laws.{SameVersions, Acknowledged}
use skill_sync_sidecar.SyncState.Overrides.Laws.{classify_skill_with_override-Acknowledged}
use skill_sync_sidecar.SyncState.Status.{
  Inputs, Sides, Status, read_sides, build_sync_status, items_of,
}
use skill_sync_sidecar.SyncState.Status.{all_ids, item_of}
use skill_sync_sidecar.SyncState.Status.Laws.{Describes, build_sync_status-Describes}
use skill_sync_sidecar.SyncPlan.{PlanAction, WriterPolicy, SyncPlan, plan_item, apply_writer_policy}
use skill_sync_sidecar.SyncPlan.{build_sync_plan, read_policy, decide, policy_allows}
use skill_sync_sidecar.SyncPlan.Laws.{Obeys, apply_writer_policy-Obeys}
use skill_sync_sidecar.SyncPlan.Safety.{IsSafe, planned-IsSafe}
use skill_sync_sidecar.SyncPlan.Counts.{Tallies, build_sync_plan-Tallies}

abbrev entry : String → String → Entry
entry k h = record empty_entry {
  skill_id = some k;
  content_hash = some h;
  path = some ("/skills/" <> k);
}

abbrev no_projections : Projections
no_projections = record { projected_local = λ p i. some p; projected_remote = λ e i. ok (some "r") }

abbrev same_projections : Projections
same_projections = record {
  projected_local = λ p i. some "x";
  projected_remote = λ e i. ok (some "x");
}

abbrev inputs : Inputs
inputs = record {
  scanned = entry "edited" "e2" ∷ entry "same" "s1" ∷ entry "mine" "m1" ∷ [];
  index = some (record {
    snapshot_id = some "snap";
    created_at = none;
    total = 3;
    skills = entry "edited" "e1" ∷ entry "same" "s1" ∷ entry "theirs" "t1" ∷ [];
  });
  last_applied = some (some (entry "edited" "e1" ∷ entry "same" "s1" ∷ []));
  overrides = OverridesFile.missing;
  local_skill_ids = [];
}

abbrev sides : Sides
sides = record {
  local =
      (
        "edited",
        record empty_entry {
          skill_id = some "edited";
          content_hash = some "e2";
          path = some "/skills/edited";
        },
      )
      ∷ (
        "same",
        record empty_entry {
          skill_id = some "same";
          content_hash = some "s1";
          path = some "/skills/same";
        },
      )
      ∷ (
        "mine",
        record empty_entry {
          skill_id = some "mine";
          content_hash = some "m1";
          path = some "/skills/mine";
        },
      )
      ∷ [];
  remote =
      ("edited", entry "edited" "e1")
      ∷ ("same", entry "same" "s1")
      ∷ ("theirs", entry "theirs" "t1")
      ∷ [];
  base =
      ("edited", record empty_entry { skill_id = some "edited"; content_hash = some "e1" })
      ∷ ("same", record empty_entry { skill_id = some "same"; content_hash = some "s1" })
      ∷ [];
  overrides = [];
}

sides_read : read_sides inputs ≡ ok sides
unfolding read_sides local_entries snapshot_entries base_entries unique_by_skill_id lookup insert
    string_eq load_local_overrides
sides_read = refl

abbrev item :
    String → Action → Option String → Option String → Option String → String → SyncStateItem
item k a b l r reason = record {
  skill_id = k;
  action = a;
  base_hash = b;
  local_hash = l;
  remote_hash = r;
  reason = reason;
}

abbrev edited_item : SyncStateItem
edited_item =
    item "edited" Action.push (some "e1") (some "e2") (some "e1")
      "local changed and remote still matches base"

abbrev status : Status
status = record {
  total = 4;
  summary = ("local_new", 1) ∷ ("push", 1) ∷ ("remote_new", 1) ∷ ("unchanged", 1) ∷ [];
  has_conflicts = false;
  local_overrides = [];
  items =
      edited_item
      ∷ item "mine" Action.local_new none (some "m1") none
          "local has a skill that is absent from the remote snapshot"
      ∷ item "same" Action.unchanged (some "s1") (some "s1") (some "s1")
          "local and remote both match the last-applied base"
      ∷ item "theirs" Action.remote_new none none (some "t1")
          "remote has a skill that has not been applied locally"
      ∷ [];
}

run : Projections → Inputs → Result Status
unfolding build_sync_status items_of item_of all_ids classify_skill_with_override classify_skill
    read_sides local_entries snapshot_entries base_entries load_local_overrides unique_by_skill_id
    lookup insert keys string_eq option_eq tally sorted_items sorted_set lifecycle_state hash_of
run = build_sync_status

status_built : build_sync_status no_projections inputs ≡ ok status
unfolding run
status_built = refl

build_sync_status-Describes_example : Describes no_projections sides status
build_sync_status-Describes_example =
    build_sync_status-Describes no_projections inputs sides status sides_read status_built

direction-classify_skill_example :
    direction
      (classify_skill "edited"
        (some (entry "edited" "e1"))
        (some (entry "edited" "e2"))
        (some (entry "edited" "e1"))).action
    ≡ Direction.take_local
unfolding classify_skill hash_of lifecycle_state string_eq option_eq
direction-classify_skill_example =
    direction-classify_skill "edited" (some (entry "edited" "e1")) (some (entry "edited" "e2"))
      (some (entry "edited" "e1"))

classify_hashes-mirror_example :
    (classify_hashes (some "1") (some "1") (some "2")).0
    ≡ mirror (classify_hashes (some "1") (some "2") (some "1")).0
classify_hashes-mirror_example = classify_hashes-mirror (some "1") (some "2") (some "1")

classify_hashes-ne-deleted_both_example :
    ((classify_hashes (some "1") none none).0 ≢ Action.deleted_both)
    × (◌≢◌ {A = Option String} (some "1") none
        → (classify_hashes (some "1") none none).0 ≡ Action.already_converged)
classify_hashes-ne-deleted_both_example = classify_hashes-ne-deleted_both (some "1") none none

unique_by_skill_id-IsUnique_example :
    IsUnique
      (entry "a" "1" ∷ entry "b" "2" ∷ entry "a" "3" ∷ [])
      (unique_by_skill_id (entry "a" "1" ∷ entry "b" "2" ∷ entry "a" "3" ∷ []) "local")
unique_by_skill_id-IsUnique_example =
    unique_by_skill_id-IsUnique (entry "a" "1" ∷ entry "b" "2" ∷ entry "a" "3" ∷ []) "local"

duplicates :
    unique_by_skill_id (entry "a" "1" ∷ entry "b" "2" ∷ entry "a" "3" ∷ []) "local"
    ≡ err (Error.sync_state_error "duplicate local skill ids: a")
unfolding unique_by_skill_id lookup insert string_eq sorted_set
duplicates = refl

abbrev override : LocalOverride
override = record {
  skill_id = "edited";
  ignore_paths = "notes" ∷ [];
  local_only = false;
  reason = "peer";
}

abbrev overridden : SyncStateItem
overridden =
    item "edited" Action.local_override (some "e1") (some "e2") (some "e1")
      "local override acknowledged: peer"

overridden_built :
    classify_skill_with_override same_projections "edited"
      (some (entry "edited" "e1"))
      (some (entry "edited" "e2"))
      (some (entry "edited" "e1"))
      (some override)
    ≡ ok overridden
unfolding run
overridden_built = refl

classify_skill_with_override-Acknowledged_example :
    SameVersions
      (classify_skill "edited"
        (some (entry "edited" "e1"))
        (some (entry "edited" "e2"))
        (some (entry "edited" "e1")))
      overridden
    × Acknowledged same_projections
        (classify_skill "edited"
          (some (entry "edited" "e1"))
          (some (entry "edited" "e2"))
          (some (entry "edited" "e1")))
        (some (entry "edited" "e2"))
        (some (entry "edited" "e1"))
        override
        overridden
classify_skill_with_override-Acknowledged_example =
    classify_skill_with_override-Acknowledged same_projections "edited" (some (entry "edited" "e1"))
      (some (entry "edited" "e2")) (some (entry "edited" "e1")) override overridden overridden_built

apply_writer_policy-Obeys_example :
    Obeys true false WriterPolicy.pull_only edited_item
      (apply_writer_policy WriterPolicy.pull_only (plan_item true false edited_item))
apply_writer_policy-Obeys_example =
    apply_writer_policy-Obeys true false WriterPolicy.pull_only edited_item

edited_classified :
    classify_skill_with_override no_projections "edited"
      (some (entry "edited" "e1"))
      (some (entry "edited" "e2"))
      (some (entry "edited" "e1"))
      none
    ≡ ok edited_item
unfolding run
edited_classified = refl

planned-IsSafe_example :
    IsSafe
      (apply_writer_policy WriterPolicy.push_pull (plan_item false false edited_item)).plan_action
      (hash_of (some (entry "edited" "e1")))
      (hash_of (some (entry "edited" "e2")))
      (hash_of (some (entry "edited" "e1")))
planned-IsSafe_example =
    planned-IsSafe false false WriterPolicy.push_pull no_projections "edited"
      (some (entry "edited" "e1")) (some (entry "edited" "e2")) (some (entry "edited" "e1")) none
      edited_item edited_classified

plan_run : Bool → Bool → String → Status → Result SyncPlan
unfolding build_sync_plan read_policy plan_item decide apply_writer_policy policy_allows run
plan_run = build_sync_plan

abbrev one_status : Status
one_status = record {
  total = 1;
  summary = ("push", 1) ∷ [];
  has_conflicts = false;
  local_overrides = [];
  items = edited_item ∷ [];
}

abbrev pull_only_plan : SyncPlan
pull_only_plan = record {
  writer_policy = WriterPolicy.pull_only;
  total = 1;
  summary = ("blocked", 1) ∷ [];
  allowed = 0;
  blocked = 1;
  safe_to_apply = false;
  items =
      record {
        skill_id = "edited";
        status_action = Action.push;
        plan_action = PlanAction.blocked;
        allowed = false;
        reason = "writer policy pull-only blocks push";
        base_hash = some "e1";
        local_hash = some "e2";
        remote_hash = some "e1";
      }
      ∷ [];
}

pull_only_planned : build_sync_plan false false "pull-only" one_status ≡ ok pull_only_plan
unfolding plan_run
pull_only_planned = refl

build_sync_plan-Tallies_example : Tallies one_status pull_only_plan
build_sync_plan-Tallies_example =
    build_sync_plan-Tallies false false "pull-only" one_status pull_only_plan pull_only_planned
