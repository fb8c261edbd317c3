-- ===== src/ApprovedPush/Merge.antt =====
-- src/skill_sync_sidecar/approved_push.py: `_build_merged_snapshot`, over the index of a snapshot
-- of the local root.
pub mod Laws
use skill_sync_sidecar.Common.{ℕ, zero, suc, ◌+◌, ◌-◌, ◌≤◌, ◌<◌, String, ◌<>◌, ◌≡◌, refl, sym}
use skill_sync_sidecar.Common.{◌∙◌, ap, ◌≢◌, ◌↔◌, ◌⊎◌, inl, inr, Bool, true, false, ◌&&◌, ◌||◌}
use skill_sync_sidecar.Common.{
  not, Option, none, some, List, [], ◌∷◌, ◌++◌, map, arith, if◌then◌else◌,
}
use skill_sync_sidecar.Common.{ltb, leb, ◌==◌, contains, option_eq, string_eq, nat_eq, Bool-cases}
use skill_sync_sidecar.Common.{
  Option-cases, truthy, or_else_text, is_some, length, select, count_if,
}
use skill_sync_sidecar.Common.{any_of, is_empty, All, Error, Result, ok, err, ◌>>=◌, ◌>>◌, require}
use skill_sync_sidecar.Common.{approved_push_error}
use skill_sync_sidecar.Common.Dict.{Dict, lookup, insert}
use skill_sync_sidecar.Common.Sorted.{sorted_set}
use skill_sync_sidecar.Skill.{Entry, Index}

-- `str(skill.get("skill_id"))`
abbrev pub id_text : Entry → String
id_text e = elim e.skill_id [ none ↦ "None" | some k ↦ k ]

-- `str(replacement["archive"])`
abbrev pub archive_text : Entry → String
archive_text e = elim e.archive [ none ↦ "None" | some a ↦ a ]

-- `local_by_id`
unfoldable pub local_by_id : Dict String Entry → List Entry → Dict String Entry
local_by_id d [] = d
local_by_id d (e ∷ es) = local_by_id (insert (id_text e) e d) es

-- `remote_ids`
unfoldable pub remote_ids : List Entry → List String
remote_ids [] = []
remote_ids (e ∷ es) =
    let rest = remote_ids es in elim (truthy e.skill_id) [ none ↦ rest | some k ↦ k ∷ rest ]

-- The entries of the merged index, and `approved_archive_paths`.
pub record Merged : Type 0 where
  pub skills : List Entry
  pub archive_paths : List String

with_replacement : Entry → Merged → Merged
with_replacement e m = record {
  skills = e ∷ m.skills;
  archive_paths = archive_text e ∷ m.archive_paths;
}

replacement : Dict String Entry → String → Result Entry
replacement locals k = elim (lookup k locals) [
  | none ↦ err (approved_push_error ("approved local skill disappeared before push: " <> k))
  | some e ↦ ok e
]

-- The loop over the approved ids that the remote does not have.
unfoldable pub append_new : Dict String Entry → List String → Result Merged
unfolding with_replacement replacement
append_new locals [] = ok (record { skills = []; archive_paths = [] })
append_new locals (k ∷ ks) = do
  e ← replacement locals k
  rest ← append_new locals ks
  ok (with_replacement e rest)

-- The loop over the remote's entries, and then the other one.
unfoldable pub merge_skills :
    List String → Dict String Entry → List String → List Entry → Result Merged
unfolding with_replacement replacement
merge_skills approved_ids locals new_ids [] = append_new locals new_ids
merge_skills approved_ids locals new_ids (e ∷ es) = elim (contains approved_ids (id_text e)) [
  | false ↦ do
    rest ← merge_skills approved_ids locals new_ids es
    ok (record rest { skills = e ∷ rest.skills })
  | true ↦ do
    r ← replacement locals (id_text e)
    rest ← merge_skills approved_ids locals new_ids es
    ok (with_replacement r rest)
]

-- `_build_merged_snapshot`: the index, and the paths of the archives that go with it.
unfoldable pub build_merged_snapshot :
    String → String → List String → Index → Index → Result (Index × List String)
build_merged_snapshot label now approved_ids local_index remote_index = do
  merged ←
      merge_skills approved_ids (local_by_id [] local_index.skills)
        (sorted_set (select (λ k. not (contains (remote_ids remote_index.skills) k)) approved_ids))
        remote_index.skills
  ok (
    record {
      snapshot_id = some label;
      created_at = some now;
      total = length merged.skills;
      skills = merged.skills;
    },
    merged.archive_paths,
  )
