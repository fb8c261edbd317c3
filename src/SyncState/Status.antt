-- ===== src/SyncState/Status.antt =====
-- `build_sync_status` of src/skill_sync_sidecar/sync_state.py. What it reads from the disk is an
-- argument; the paths that it copies into its result are left out.
pub mod Laws
use skill_sync_sidecar.Common.{
  ℕ, String, Bool, true, false, Option, none, some, List, [], ◌∷◌, ◌++◌,
}
use skill_sync_sidecar.Common.{map, Result, ok, err, ◌>>=◌, length, any_of}
use skill_sync_sidecar.Common.{string_eq}
use skill_sync_sidecar.Common.Dict.{Dict, keys, lookup}
use skill_sync_sidecar.Common.Sorted.{sorted_set}
use skill_sync_sidecar.Common.Tally.{tally}
use skill_sync_sidecar.Skill.{Entry, Index}
use skill_sync_sidecar.SyncState.{Action, SyncStateItem, LocalOverride}
use skill_sync_sidecar.SyncState.{remote_new, local_new, same_without_base, conflict, unchanged}
use skill_sync_sidecar.SyncState.{already_converged, remote_deleted, pull, local_deleted, push}
use skill_sync_sidecar.SyncState.{
  deleted_both, central_deprecated, local_only, local_override, other,
}
use skill_sync_sidecar.SyncState.Entries.{local_entries, snapshot_entries, base_entries}
use skill_sync_sidecar.SyncState.Overrides.{Projections, OverridesFile, load_local_overrides}
use skill_sync_sidecar.SyncState.Overrides.{classify_skill_with_override}

abbrev pub action_name : Action → String
action_name remote_new = "remote_new"
action_name local_new = "local_new"
action_name same_without_base = "same_without_base"
action_name conflict = "conflict"
action_name unchanged = "unchanged"
action_name already_converged = "already_converged"
action_name remote_deleted = "remote_deleted"
action_name pull = "pull"
action_name local_deleted = "local_deleted"
action_name push = "push"
action_name deleted_both = "deleted_both"
action_name central_deprecated = "central_deprecated"
action_name local_only = "local_only"
action_name local_override = "local_override"
action_name (other s) = s

abbrev pub is_conflict : Action → Bool
is_conflict conflict = true
is_conflict _ = false

-- What a run reads: the scan of the local root, `index.json` of the snapshot, the last-applied
-- record if one is named (`some none` if it does not exist), and the overrides file.
pub record Inputs : Type 0 where
  pub scanned : List Entry
  pub index : Option Index
  pub last_applied : Option (Option (List Entry))
  pub overrides : OverridesFile
  pub local_skill_ids : List String

pub record Status : Type 0 where
  pub total : ℕ
  pub summary : Dict String ℕ
  pub has_conflicts : Bool
  pub local_overrides : List String
  pub items : List SyncStateItem

-- The three sides, by skill id.
pub record Sides : Type 0 where
  pub local : Dict String Entry
  pub remote : Dict String Entry
  pub base : Dict String Entry
  pub overrides : Dict String LocalOverride

read_base : Option (Option (List Entry)) → Result (Dict String Entry)
read_base none = ok []
read_base (some last_applied) = base_entries last_applied

unfoldable pub read_sides : Inputs → Result Sides
unfolding read_base
read_sides i = do
  local ← local_entries i.scanned i.local_skill_ids
  remote ← snapshot_entries i.index
  base ← read_base i.last_applied
  overrides ← load_local_overrides i.overrides
  ok (record { local = local; remote = remote; base = base; overrides = overrides })

-- `sorted(set(base) | set(local) | set(remote))`
unfoldable pub all_ids : Sides → List String
all_ids s = sorted_set (keys s.base ++ (keys s.local ++ keys s.remote))

module _ (P : Projections) where
  unfoldable pub item_of : Sides → String → Result SyncStateItem
  item_of s skill_id =
      classify_skill_with_override P skill_id (lookup skill_id s.base) (lookup skill_id s.local)
        (lookup skill_id s.remote) (lookup skill_id s.overrides)

  unfoldable pub items_of : Sides → List String → Result (List SyncStateItem)
  items_of s [] = ok []
  items_of s (k ∷ ks) = do item ← item_of s k; items ← items_of s ks; ok (item ∷ items)

  unfoldable pub build_sync_status : Inputs → Result Status
  build_sync_status i = do
    sides ← read_sides i
    items ← items_of sides (all_ids sides)
    ok (record {
      total = length items;
      summary = tally (map (λ item. action_name item.action) items);
      has_conflicts = any_of (λ item. is_conflict item.action) items;
      local_overrides = sorted_set (keys sides.overrides);
      items = items;
    })
