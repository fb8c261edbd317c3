-- ===== src/Reconcile.antt =====
-- src/skill_sync_sidecar/reconcile.py: comparing an inventory of a device that is not synced with
-- the central snapshot. The files that an entry lists, and those that the manifest in its archive
-- does, are arguments (`Files`).
pub mod Gate
use skill_sync_sidecar.Common.{ℕ, zero, suc, ◌+◌, ◌-◌, ◌≤◌, ◌<◌, String, ◌<>◌, ◌≡◌, refl, sym}
use skill_sync_sidecar.Common.{◌∙◌, ap, ◌≢◌, ◌↔◌, ◌⊎◌, inl, inr, Bool, true, false, ◌&&◌, ◌||◌}
use skill_sync_sidecar.Common.{
  not, Option, none, some, List, [], ◌∷◌, ◌++◌, map, arith, if◌then◌else◌,
}
use skill_sync_sidecar.Common.{ltb, leb, ◌==◌, contains, option_eq, string_eq, nat_eq, Bool-cases}
use skill_sync_sidecar.Common.{
  Option-cases, truthy, or_else_text, is_some, length, select, count_if,
}
use skill_sync_sidecar.Common.{any_of, is_empty, All, Error, Result, ok, err, ◌>>=◌, ◌>>◌, require}
use skill_sync_sidecar.Common.{sync_state_error, reconcile_error}
use skill_sync_sidecar.Common.Text.{starts_with, ends_with}
use skill_sync_sidecar.Common.Dict.{Dict, lookup, keys}
use skill_sync_sidecar.Common.Sorted.{sorted_set}
use skill_sync_sidecar.Common.Tally.{tally, or_zero}
use skill_sync_sidecar.Skill.{Entry, Index, hash_of}
use skill_sync_sidecar.SyncState.Entries.{unique_by_skill_id}

pub data Status : Type 0 where
  local_new remote_new same_without_base conflict : Status

abbrev pub status_name : Status → String
status_name local_new = "local_new"
status_name remote_new = "remote_new"
status_name same_without_base = "same_without_base"
status_name conflict = "conflict"

-- A file's size and digest, as texts.
abbrev pub FileDict : Type 0
FileDict = Dict String (Option String × Option String)

pub record Files : Type 0 where
  pub local_files : Entry → FileDict
  pub remote_files : Entry → Result FileDict

pub record ReconcileItem : Type 0 where
  pub skill_id : String
  pub status : Status
  pub recommendation : String
  pub conflict_category : Option String
  pub local_hash : Option String
  pub remote_hash : Option String
  pub changed_files : List String
  pub remote_only_files : List String
  pub local_only_files : List String

pub record Changes : Type 0 where
  pub changed : List String
  pub added : List String
  pub removed : List String

pub record ReconcileReport : Type 0 where
  pub local_total : ℕ
  pub remote_total : ℕ
  pub summary : Dict String ℕ
  pub recommendations : Dict String ℕ
  pub changed_since_previous : Option Changes
  pub safe_to_auto_apply : Bool
  pub items : List ReconcileItem

-- `_unique_by_skill_id`: that of sync_state.py, with its own exception.
unfoldable pub unique_entries : List Entry → String → Result (Dict String Entry)
unique_entries es label = elim (unique_by_skill_id es label) [
  | ok d ↦ ok d
  | err e ↦ err (elim e [ sync_state_error s ↦ reconcile_error s | other ↦ other ])
]

unfoldable pub recommendation_of : Status → String
recommendation_of same_without_base = "adopt_base_candidate"
recommendation_of remote_new = "review_pull_new"
recommendation_of local_new = "review_push_new"
recommendation_of conflict = "manual_merge_required"

-- `_is_generated_path`
unfoldable pub is_generated_path : String → Bool
is_generated_path p = starts_with "data/session-timers/" p || starts_with "data/session-archives/" p

-- `_is_doc_path`
unfoldable pub is_doc_path : String → Bool
is_doc_path p =
    p == "SKILL.md"
    || starts_with "docs/" p
    || any_of (λ s. ends_with s p) (".md" ∷ ".mdx" ∷ ".txt" ∷ [])

-- `_is_code_or_config_path`
unfoldable pub is_code_or_config_path : String → Bool
is_code_or_config_path p =
    any_of (λ s. ends_with s p)
      (".py" ∷ ".js" ∷ ".ts" ∷ ".sh" ∷ ".json" ∷ ".yaml" ∷ ".yml" ∷ ".toml" ∷ ".sql" ∷ ".cfg"
        ∷ ".ini" ∷ [])

abbrev pub all_of : (String → Bool) → List String → Bool
all_of p xs = not (any_of (λ x. not (p x)) xs)

-- `_conflict_category` of a conflict, by the paths that differ.
unfoldable pub category_of_paths : List String → String
category_of_paths paths =
    let others = select (λ p. not (is_generated_path p)) paths in
    if is_empty paths
    then "hash_only"
    else if all_of is_generated_path paths
    then "generated_only"
    else if not (any_of (λ p. not (p == "SKILL.md")) others) && length others == 1
    then "skill_md_only"
    else if all_of is_doc_path others
    then "docs_only"
    else if all_of is_code_or_config_path others
    then "code_or_config"
    else if any_of is_code_or_config_path others
    then "mixed_with_code"
    else "mixed"

unfoldable pub conflict_category : Status → List String → Option String
conflict_category conflict paths = some (category_of_paths paths)
conflict_category _ paths = none

-- The two files are there and agree in size and digest.
abbrev pub same_file :
    Option (Option String × Option String) → Option (Option String × Option String) → Bool
same_file (some (size, digest)) (some (size', digest')) = size == size' && digest == digest'
same_file _ _ = false

-- `_file_diff`: changed, remote_only, local_only
unfoldable pub file_diff : FileDict → FileDict → List String × List String × List String
file_diff local remote = (
  sorted_set (
      select (λ p. is_some (lookup p remote) && not (same_file (lookup p local) (lookup p remote)))
        (keys local)),
  sorted_set (select (λ p. not (is_some (lookup p local))) (keys remote)),
  sorted_set (select (λ p. not (is_some (lookup p remote))) (keys local)),
)

-- The status of a skill that one side has.
unfoldable pub status_of : Option Entry → Option Entry → Status
status_of (some l) none = local_new
status_of none (some r) = remote_new
status_of l r = if hash_of l == hash_of r then same_without_base else conflict

-- `_changed_since_previous`
unfoldable pub changed_since_previous : Dict String Entry → Dict String Entry → Changes
changed_since_previous previous current = record {
  changed = sorted_set (
      select
        (λ k.
          is_some (lookup k current)
          && not (hash_of (lookup k previous) == hash_of (lookup k current)))
        (keys previous));
  added = sorted_set (select (λ k. not (is_some (lookup k previous))) (keys current));
  removed = sorted_set (select (λ k. not (is_some (lookup k current))) (keys previous));
}

-- `sorted(set(local_entries) | set(remote_entries))`
abbrev pub compared_ids : Dict String Entry → Dict String Entry → List String
compared_ids locals remotes = sorted_set (keys locals ++ keys remotes)

unfoldable pub report_of :
    Dict String Entry → Dict String Entry → Dict String Entry → List ReconcileItem → ReconcileReport
report_of locals remotes previous items =
    let summary = tally (map (λ i. status_name i.status) items) in
    record {
      local_total = length locals;
      remote_total = length remotes;
      summary = summary;
      recommendations = tally (map (λ i. i.recommendation) items);
      changed_since_previous =
          if is_empty previous then none else some (changed_since_previous previous locals);
      safe_to_auto_apply =
          or_zero (lookup "conflict" summary) == 0 && or_zero (lookup "local_new" summary) == 0;
      items = items;
    }

module _ (F : Files) where
  -- The files that differ, for a conflict of two entries.
  unfoldable pub differing :
      Status → Option Entry → Option Entry → Result (List String × List String × List String)
  differing conflict (some l) (some r) = do
    remote ← F.remote_files r
    ok (file_diff (F.local_files l) remote)
  differing _ l r = ok ([], [], [])

  -- One turn of the loop over the skill ids.
  unfoldable pub reconcile_item :
      Dict String Entry → Dict String Entry → String → Result ReconcileItem
  reconcile_item locals remotes k = do
    let status = status_of (lookup k locals) (lookup k remotes)
    diff ← differing status (lookup k locals) (lookup k remotes)
    ok (record {
      skill_id = k;
      status = status;
      recommendation = recommendation_of status;
      conflict_category = conflict_category status (diff.0 ++ (diff.1 ++ diff.2));
      local_hash = hash_of (lookup k locals);
      remote_hash = hash_of (lookup k remotes);
      changed_files = diff.0;
      remote_only_files = diff.1;
      local_only_files = diff.2;
    })

  unfoldable pub reconcile_items :
      Dict String Entry → Dict String Entry → List String → Result (List ReconcileItem)
  reconcile_items locals remotes [] = ok []
  reconcile_items locals remotes (k ∷ ks) = do
    item ← reconcile_item locals remotes k
    items ← reconcile_items locals remotes ks
    ok (item ∷ items)

  -- `build_reconcile_report`; none is a snapshot without an index, or no previous inventory.
  unfoldable pub build_reconcile_report :
      List Entry → Option Index → Option (List Entry) → Result ReconcileReport
  build_reconcile_report inventory none previous =
      err (reconcile_error "remote snapshot has no index.json")
  build_reconcile_report inventory (some index) previous = do
    locals ← unique_entries inventory "local"
    remotes ← unique_entries index.skills "remote"
    before ← elim previous [ none ↦ ok [] | some es ↦ unique_entries es "previous_local" ]
    items ← reconcile_items locals remotes (compared_ids locals remotes)
    ok (report_of locals remotes before items)
