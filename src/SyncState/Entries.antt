-- ===== src/SyncState/Entries.antt =====
-- src/skill_sync_sidecar/sync_state.py: the entries of the three sides, one for each skill id.
pub mod Laws
use skill_sync_sidecar.Common.{String, ◌<>◌, Bool, true, false, ◌&&◌, ◌||◌, not, Option, none, some}
use skill_sync_sidecar.Common.{
  List, [], ◌∷◌, ◌++◌, map, Result, ok, err, ◌>>=◌, Error, sync_state_error,
}
use skill_sync_sidecar.Common.{
  ◌==◌, string_eq, is_some, truthy, is_empty, select, contains, if◌then◌else◌,
}
use skill_sync_sidecar.Common.Dict.{Dict, lookup, insert}
use skill_sync_sidecar.Common.Sorted.{sorted_set}
use skill_sync_sidecar.Common.Text.{strip}
use skill_sync_sidecar.Skill.{Entry, Index, empty_entry}

-- `", ".join(xs)`
join_comma : List String → String
join_comma [] = ""
join_comma (x ∷ []) = x
join_comma (x ∷ y ∷ xs) = x <> (", " <> join_comma (y ∷ xs))

-- The loop of `_unique_by_skill_id`: the dict, and the ids seen again.
unique_loop : List Entry → Dict String Entry → List String → Dict String Entry × List String
unique_loop [] result duplicates = (result, duplicates)
unique_loop (e ∷ entries) result duplicates = elim (truthy e.skill_id) [
  | none ↦ unique_loop entries result duplicates
  | some k ↦
      unique_loop entries (insert k e result)
        (if is_some (lookup k result) then duplicates ++ (k ∷ []) else duplicates)
]

no_duplicates : String → Dict String Entry × List String → Result (Dict String Entry)
no_duplicates label (result, []) = ok result
no_duplicates label (result, d ∷ ds) = err (
    sync_state_error
      ("duplicate " <> (label <> (" skill ids: " <> join_comma (sorted_set (d ∷ ds))))))

unfoldable pub unique_by_skill_id : List Entry → String → Result (Dict String Entry)
unfolding unique_loop no_duplicates join_comma
unique_by_skill_id entries label = no_duplicates label (unique_loop entries [] [])

-- `_local_entries_by_skill_id`, from what the scan of the root found.
non_blank : List String → List String
non_blank raw = select (λ s. not (s == "")) (map strip raw)

scanned_entry : Entry → Entry
scanned_entry s = record empty_entry {
  skill_id = s.skill_id;
  content_hash = s.content_hash;
  risk_level = s.risk_level;
  path = s.path;
}

is_selected : List String → Entry → Bool
is_selected selected s =
    is_empty selected || elim s.skill_id [ none ↦ false | some k ↦ contains selected k ]

unfoldable pub local_entries : List Entry → List String → Result (Dict String Entry)
unfolding non_blank scanned_entry is_selected
local_entries scanned local_skill_ids =
    unique_by_skill_id
      (map scanned_entry (select (is_selected (non_blank local_skill_ids)) scanned)) "local"

-- `_snapshot_entries_by_skill_id`; `none` is a snapshot with no `index.json`.
unfoldable pub snapshot_entries : Option Index → Result (Dict String Entry)
snapshot_entries none = err (sync_state_error "remote snapshot has no index.json")
snapshot_entries (some index) = unique_by_skill_id index.skills "remote"

-- The entries of `applied` that carry a content hash.
hashed_entries : List Entry → List Entry
hashed_entries [] = []
hashed_entries (e ∷ es) =
    let rest = hashed_entries es in
    elim (truthy e.content_hash) [
      | none ↦ rest
      | some h ↦ record empty_entry { skill_id = e.skill_id; content_hash = some h } ∷ rest
    ]

-- `_base_entries_by_skill_id`; `none` is a record that does not exist.
unfoldable pub base_entries : Option (List Entry) → Result (Dict String Entry)
unfolding hashed_entries
base_entries none = err (sync_state_error "last-applied record not found")
base_entries (some applied) =
    let entries = hashed_entries applied in
    if not (is_empty applied) && is_empty entries
    then err (
        sync_state_error
          "last-applied record does not contain content hashes; re-apply with the current sidecar first")
    else unique_by_skill_id entries "base"
