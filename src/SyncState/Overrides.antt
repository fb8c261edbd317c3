-- ===== src/SyncState/Overrides.antt =====
-- src/skill_sync_sidecar/sync_state.py: peer-local overrides, and what they change in a
-- classification. The two projections hash the files of a skill outside the ignored paths.
pub mod Laws
use skill_sync_sidecar.Common.{String, ◌<>◌, Bool, true, false, ◌&&◌, ◌||◌, not, Option, none, some}
use skill_sync_sidecar.Common.{List, [], ◌∷◌, ◌++◌, map, Result, ok, err, ◌>>=◌, sync_state_error}
use skill_sync_sidecar.Common.{◌==◌, string_eq, option_eq, is_some, truthy, or_else_text, is_empty}
use skill_sync_sidecar.Common.{select, if◌then◌else◌}
use skill_sync_sidecar.Common.Dict.{Dict, insert}
use skill_sync_sidecar.Common.Text.{strip, strip_slashes}
use skill_sync_sidecar.Skill.{Entry}
use skill_sync_sidecar.SyncState.{Action, SyncStateItem, LocalOverride, classify_skill}
use skill_sync_sidecar.SyncState.{push, conflict, same_without_base, local_only, local_override}

-- What `_projected_local_hash` and `_projected_remote_hash` return.
pub record Projections : Type 0 where
  pub projected_local : String → List String → Option String
  pub projected_remote : Entry → List String → Result (Option String)

-- `item.action in {"push", "conflict", "same_without_base"}`
abbrev pub is_overridable : Action → Bool
is_overridable push = true
is_overridable conflict = true
is_overridable same_without_base = true
is_overridable _ = false

with_action : SyncStateItem → Action → String → SyncStateItem
with_action item action reason = record item { action = action; reason = reason }

-- The comparison of the two projections.
same_projection : Option String → Option String → Bool
same_projection l r = is_some (truthy l) && is_some (truthy r) && l == r

module _ (P : Projections) where
  projected_item : SyncStateItem → LocalOverride → Entry → Entry → Result SyncStateItem
  unfolding with_action same_projection
  projected_item item o l r = elim (truthy l.path) [
    | none ↦ ok item
    | some path ↦ do
      remote_projected ← P.projected_remote r o.ignore_paths
      ok (
          if same_projection (P.projected_local path o.ignore_paths) remote_projected
          then with_action item local_override ("local override acknowledged: " <> o.reason)
          else item)
  ]

  override_item : SyncStateItem → Option Entry → Option Entry → LocalOverride → Result SyncStateItem
  unfolding projected_item
  override_item item (some l) none o = ok (
      if o.local_only
      then with_action item local_only ("local-only skill acknowledged: " <> o.reason)
      else item)
  override_item item (some l) (some r) o =
      if is_overridable item.action then projected_item item o l r else ok item
  override_item item none remote o = ok item

  unfoldable pub classify_skill_with_override :
      String
      → Option Entry
      → Option Entry
      → Option Entry
      → Option LocalOverride
      → Result SyncStateItem
  unfolding override_item
  classify_skill_with_override skill_id base local remote none =
      ok (classify_skill skill_id base local remote)
  classify_skill_with_override skill_id base local remote (some o) =
      override_item (classify_skill skill_id base local remote) local remote o

-- An object under `skills` of the overrides file, as the code reads it: whether it has the key
-- `skill_id`, which may be null, and what stands there.
pub record RawOverride : Type 0 where
  pub has_skill_id : Bool
  pub skill_id : Option String
  pub ignore_paths : List String
  pub local_only : Bool
  pub reason : Option String

-- What stands in the overrides file.
pub data OverridesFile : Type 0 where
  missing unreadable not_an_object no_skills bad_skills : OverridesFile
  skills_list : List RawOverride → OverridesFile
  skills_object : List (String × RawOverride) → OverridesFile

-- `item.setdefault("skill_id", skill_id)`
keyed_override : String × RawOverride → RawOverride
keyed_override (k, raw) =
    if raw.has_skill_id then raw else record raw { has_skill_id = true; skill_id = some k }

load_loop : List RawOverride → Dict String LocalOverride → Dict String LocalOverride
load_loop [] overrides = overrides
load_loop (raw ∷ raws) overrides =
    let skill_id = strip (or_else_text raw.skill_id "") in
    let ignore_paths = select (λ p. not (p == "")) (map strip_slashes raw.ignore_paths) in
    load_loop raws (
      if skill_id == "" || (is_empty ignore_paths && not raw.local_only)
      then overrides
      else insert skill_id
          (record {
            skill_id = skill_id;
            ignore_paths = ignore_paths;
            local_only = raw.local_only;
            reason = or_else_text raw.reason "peer-local override";
          })
          overrides)

unfoldable pub load_local_overrides : OverridesFile → Result (Dict String LocalOverride)
unfolding load_loop keyed_override
load_local_overrides missing = ok []
load_local_overrides unreadable = err (sync_state_error "local overrides file is not valid JSON")
load_local_overrides not_an_object =
    err (sync_state_error "local overrides file must contain a JSON object")
load_local_overrides no_skills = ok []
load_local_overrides bad_skills =
    err (sync_state_error "local overrides 'skills' must be an object or list")
load_local_overrides (skills_list raws) = ok (load_loop raws [])
load_local_overrides (skills_object raws) = ok (load_loop (map keyed_override raws) [])
