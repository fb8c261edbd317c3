-- ===== src/SyncState/Laws.antt =====
-- The classification of one skill is a three-way merge of its hashes.
use skill_sync_sidecar.Common.{String, ◌≡◌, refl, ◌≢◌, Option, none, some}
use skill_sync_sidecar.Common.{arith, ◌==◌, string_eq, option_eq, if◌then◌else◌}
use skill_sync_sidecar.Skill.{Entry, hash_of}
use skill_sync_sidecar.SyncState.{Action, classify_hashes, classify_skill, is_deprecated}
use skill_sync_sidecar.SyncState.{remote_new, local_new, same_without_base, conflict, unchanged}
use skill_sync_sidecar.SyncState.{already_converged, remote_deleted, pull, local_deleted, push}
use skill_sync_sidecar.SyncState.{
  deleted_both, central_deprecated, local_only, local_override, other,
}

-- Which side a three-way merge follows, whatever it means to follow it.
pub data Direction : Type 0 where
  agree take_remote take_local clash none_needed : Direction

-- The merge rule, from the three versions alone. An absent version is a version like any other.
abbrev pub three_way : Option String → Option String → Option String → Direction
three_way base local remote =
    if local == remote
    then agree
    else if local == base
    then take_remote
    else if remote == base
    then take_local
    else clash

abbrev pub direction : Action → Direction
direction remote_new = take_remote
direction pull = take_remote
direction remote_deleted = take_remote
direction local_new = take_local
direction push = take_local
direction local_deleted = take_local
direction conflict = clash
direction same_without_base = agree
direction unchanged = agree
direction already_converged = agree
direction deleted_both = agree
direction central_deprecated = none_needed
direction local_only = none_needed
direction local_override = none_needed
direction (other _) = none_needed

direction-classify_hashes :
    (b l r : Option String) → direction (classify_hashes b l r).0 ≡ three_way b l r
unfolding classify_hashes option_eq
direction-classify_hashes none none none = refl
direction-classify_hashes none none (some r) = ground arith
direction-classify_hashes none (some l) none = ground arith
direction-classify_hashes none (some l) (some r) = ground arith
direction-classify_hashes (some b) none none = ground arith
direction-classify_hashes (some b) none (some r) = ground arith
direction-classify_hashes (some b) (some l) none = ground arith
direction-classify_hashes (some b) (some l) (some r) = ground arith

-- The action of a skill whose central entry is not deprecated follows the three-way merge of the
-- base, local and remote hashes; that of a deprecated one follows no side.
pub direction-classify_skill :
    (k : String) (base local remote : Option Entry)
    → direction (classify_skill k base local remote).action ≡ (
        if is_deprecated remote
        then none_needed
        else three_way (hash_of base) (hash_of local) (hash_of remote))
unfolding classify_skill
direction-classify_skill k base local remote =
    ground (arith, direction-classify_hashes (hash_of base) (hash_of local) (hash_of remote))

-- The action as the other side sees it.
abbrev pub mirror : Action → Action
mirror remote_new = local_new
mirror local_new = remote_new
mirror pull = push
mirror push = pull
mirror remote_deleted = local_deleted
mirror local_deleted = remote_deleted
mirror a = a

-- Two peers that see one base and each other's version classify it as mirror images.
pub classify_hashes-mirror :
    (b l r : Option String) → (classify_hashes b r l).0 ≡ mirror (classify_hashes b l r).0
unfolding classify_hashes option_eq
classify_hashes-mirror none none none = refl
classify_hashes-mirror none none (some r) = ground arith
classify_hashes-mirror none (some l) none = ground arith
classify_hashes-mirror none (some l) (some r) = ground arith
classify_hashes-mirror (some b) none none = ground arith
classify_hashes-mirror (some b) none (some r) = ground arith
classify_hashes-mirror (some b) (some l) none = ground arith
classify_hashes-mirror (some b) (some l) (some r) = ground arith

-- The action for a skill that both sides deleted is `already_converged`, and `deleted_both` is
-- never the action of a skill.
pub classify_hashes-ne-deleted_both :
    (b l r : Option String)
    → ((classify_hashes b l r).0 ≢ deleted_both)
      × (b ≢ none → (classify_hashes b none none).0 ≡ already_converged)
unfolding classify_hashes option_eq
classify_hashes-ne-deleted_both none none none = (λ h. cc, λ h. absurd (h refl))
classify_hashes-ne-deleted_both none none (some r) = (ground arith, λ h. absurd (h refl))
classify_hashes-ne-deleted_both none (some l) none = (ground arith, λ h. absurd (h refl))
classify_hashes-ne-deleted_both none (some l) (some r) = (ground arith, λ h. absurd (h refl))
classify_hashes-ne-deleted_both (some b) none none = (ground arith, λ h. ground arith)
classify_hashes-ne-deleted_both (some b) none (some r) = (ground arith, λ h. ground arith)
classify_hashes-ne-deleted_both (some b) (some l) none = (ground arith, λ h. ground arith)
classify_hashes-ne-deleted_both (some b) (some l) (some r) = (ground arith, λ h. ground arith)
