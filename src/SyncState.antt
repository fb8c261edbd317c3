-- ===== src/SyncState.antt =====
-- src/skill_sync_sidecar/sync_state.py: how one skill stands between the last-applied base, the
-- local root and the remote snapshot.
pub mod Entries
pub mod Overrides
pub mod Status
pub mod Laws
use skill_sync_sidecar.Common.{String, ◌<>◌, Bool, true, false, ◌&&◌, ◌||◌, not, Option, none, some}
use skill_sync_sidecar.Common.{List, [], ◌∷◌, Result, ok, err, ◌>>=◌, Error, sync_state_error}
use skill_sync_sidecar.Common.{◌==◌, string_eq, option_eq, is_some, truthy, if◌then◌else◌}
use skill_sync_sidecar.Skill.{Entry, lifecycle_state, hash_of}

-- The actions that a status item can carry. `other` is a text that no code path of this module
-- writes, as a status read back from a file may hold.
pub data Action : Type 0 where
  remote_new local_new same_without_base conflict unchanged already_converged : Action
  remote_deleted pull local_deleted push deleted_both : Action
  central_deprecated local_only local_override : Action
  other : String → Action

pub record SyncStateItem : Type 0 where
  pub skill_id : String
  pub action : Action
  pub base_hash : Option String
  pub local_hash : Option String
  pub remote_hash : Option String
  pub reason : String

pub record LocalOverride : Type 0 where
  pub skill_id : String
  pub ignore_paths : List String
  pub local_only : Bool
  pub reason : String

-- The part of `_classify_skill` that reads the three hashes.
unfoldable pub classify_hashes : Option String → Option String → Option String → Action × String
classify_hashes none none (some r) =
    (remote_new, "remote has a skill that has not been applied locally")
classify_hashes none (some l) none =
    (local_new, "local has a skill that is absent from the remote snapshot")
classify_hashes none l r =
    if l == r
    then (same_without_base, "local and remote match, but no last-applied base is recorded")
    else (conflict, "local and remote differ without a base version")
classify_hashes (some b) l r =
    if l == some b && r == some b
    then (unchanged, "local and remote both match the last-applied base")
    else if l == r && not (l == some b)
    then (already_converged, "local and remote already match each other")
    else if l == some b && not (r == some b)
    then if r == none
      then (remote_deleted, "remote deleted a skill that local has not changed")
      else (pull, "remote changed and local still matches base")
    else if r == some b && not (l == some b)
    then if l == none
      then (local_deleted, "local deleted a skill that remote has not changed")
      else (push, "local changed and remote still matches base")
    else if l == none && r == none
    then (deleted_both, "local and remote both deleted the base skill")
    else (conflict, "local and remote both changed away from base differently")

unfoldable pub is_deprecated : Option Entry → Bool
is_deprecated none = false
is_deprecated (some e) = lifecycle_state e == "deprecated"

unfoldable pub classify_skill : String → Option Entry → Option Entry → Option Entry → SyncStateItem
unfolding classify_hashes is_deprecated
classify_skill skill_id base local remote =
    let (action, reason) =
      if is_deprecated remote
      then (central_deprecated, "central skill is deprecated; installed devices are left unchanged")
      else classify_hashes (hash_of base) (hash_of local) (hash_of remote) in
    record {
      skill_id = skill_id;
      action = action;
      base_hash = hash_of base;
      local_hash = hash_of local;
      remote_hash = hash_of remote;
      reason = reason;
    }
