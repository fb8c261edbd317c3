-- ===== src/BaseAdoption.antt =====
-- src/skill_sync_sidecar/base_adoption.py: taking the present versions as the base, where local and
-- remote agree already.
pub mod Laws
use skill_sync_sidecar.Common.{ℕ, zero, suc, ◌+◌, ◌-◌, ◌≤◌, ◌<◌, String, ◌<>◌, ◌≡◌, refl, sym}
use skill_sync_sidecar.Common.{◌∙◌, ap, ◌≢◌, ◌↔◌, ◌⊎◌, inl, inr, Bool, true, false, ◌&&◌, ◌||◌}
use skill_sync_sidecar.Common.{
  not, Option, none, some, List, [], ◌∷◌, ◌++◌, map, arith, if◌then◌else◌,
}
use skill_sync_sidecar.Common.{ltb, leb, ◌==◌, contains, option_eq, string_eq, nat_eq, Bool-cases}
use skill_sync_sidecar.Common.{
  Option-cases, truthy, or_else_text, is_some, length, select, count_if,
}
use skill_sync_sidecar.Common.{any_of, is_empty, All, Error, Result, ok, err, ◌>>=◌, ◌>>◌, require}
use skill_sync_sidecar.Common.{base_adoption_error}
use skill_sync_sidecar.SyncState.{Action, SyncStateItem}
use skill_sync_sidecar.SyncState.Overrides.{Projections}
use skill_sync_sidecar.SyncState.Status.{Inputs, Status, build_sync_status}

-- `ADOPTABLE_ACTIONS`
abbrev pub is_adoptable : Action → Bool
is_adoptable Action.same_without_base = true
is_adoptable Action.unchanged = true
is_adoptable Action.already_converged = true
is_adoptable _ = false

-- An entry of `applied`: skill id and content hash.
abbrev pub BaseEntry : Type 0
BaseEntry = String × String

-- The entry for an item, or `none` if it is blocked.
unfoldable pub adopt : SyncStateItem → Option BaseEntry
adopt item = elim (truthy item.local_hash) [
  | none ↦ none
  | some h ↦
      if is_adoptable item.action && item.local_hash == item.remote_hash
      then some (item.skill_id, h)
      else none
]

-- The loop: the items that block the adoption, and the base entries.
unfoldable pub adopt_all : List SyncStateItem → List SyncStateItem × List BaseEntry
adopt_all [] = ([], [])
adopt_all (item ∷ items) =
    let (blocked, applied) = adopt_all items in
    elim (adopt item) [ none ↦ (item ∷ blocked, applied) | some entry ↦ (blocked, entry ∷ applied) ]

pub record AdoptionPreview : Type 0 where
  pub safe_to_adopt : Bool
  pub total : ℕ
  pub adoptable : ℕ
  pub blocked : ℕ
  pub blocked_items : List SyncStateItem
  pub applied : List BaseEntry

unfoldable pub preview_of : Status → AdoptionPreview
preview_of status =
    let (blocked, applied) = adopt_all status.items in
    record {
      safe_to_adopt = is_empty blocked;
      total = status.total;
      adoptable = length applied;
      blocked = length blocked;
      blocked_items = blocked;
      applied = applied;
    }

unfoldable pub build_base_adoption_preview : Projections → Inputs → Result AdoptionPreview
build_base_adoption_preview P i = do status ← build_sync_status P i; ok (preview_of status)

-- `execute_base_adoption`: the preview, and the base record that it writes in place of the last.
unfoldable pub execute_base_adoption :
    Projections → Inputs → List BaseEntry → Result AdoptionPreview × List BaseEntry
execute_base_adoption P i record_ = elim (build_base_adoption_preview P i) [
  | err e ↦ (err e, record_)
  | ok p ↦
      if not p.safe_to_adopt
      then (err (base_adoption_error "base adoption has blocked item(s)"), record_)
      else if not (is_some i.index)
      then (err (base_adoption_error "remote snapshot has no index.json"), record_)
      else (ok p, p.applied)
]
