-- ===== src/Diff.antt =====
-- src/skill_sync_sidecar/diff.py: what differs between the indexes of two snapshots.
pub mod Laws
use skill_sync_sidecar.Common.{ℕ, zero, suc, ◌+◌, ◌-◌, ◌≤◌, ◌<◌, String, ◌<>◌, ◌≡◌, refl, sym}
use skill_sync_sidecar.Common.{◌∙◌, ap, ◌≢◌, ◌↔◌, ◌⊎◌, inl, inr, Bool, true, false, ◌&&◌, ◌||◌}
use skill_sync_sidecar.Common.{
  not, Option, none, some, List, [], ◌∷◌, ◌++◌, map, arith, if◌then◌else◌,
}
use skill_sync_sidecar.Common.{ltb, leb, ◌==◌, contains, option_eq, string_eq, nat_eq, Bool-cases}
use skill_sync_sidecar.Common.{
  Option-cases, truthy, or_else_text, is_some, length, select, count_if,
}
use skill_sync_sidecar.Common.{any_of, is_empty, All, Error, Result, ok, err, ◌>>=◌, ◌>>◌, require}
use skill_sync_sidecar.Common.Dict.{Dict, lookup, insert, keys}
use skill_sync_sidecar.Common.Sorted.{sorted_set}
use skill_sync_sidecar.Skill.{Entry, Index}

pub record SnapshotDiff : Type 0 where
  pub added : List String
  pub removed : List String
  pub changed : List String
  pub unchanged : List String
  pub risk_changed : List String

-- `f"{x}"` of a text that may be absent.
abbrev pub shown : Option String → String
shown none = "None"
shown (some s) = s

-- `skill.get("key") or f"{source}/{skill_id}"`
key_of : Entry → String
key_of e = or_else_text e.key (shown e.source <> ("/" <> shown e.skill_id))

entries_loop : List Entry → Dict String Entry → Dict String Entry
entries_loop [] d = d
entries_loop (e ∷ es) d = entries_loop es (insert (key_of e) e d)

unfoldable pub entries_by_key : Index → Dict String Entry
unfolding entries_loop key_of
entries_by_key index = entries_loop index.skills []

-- `sorted(left_keys - right_keys)`
only_in : Dict String Entry → Dict String Entry → List String
only_in left right = sorted_set (select (λ k. not (contains (keys right) k)) (keys left))

-- `entry.get("content_hash")` and `entry.get("risk_level")` of the entry under a key.
abbrev pub content_at : String → Dict String Entry → Option String
content_at k d = elim (lookup k d) [ none ↦ none | some e ↦ e.content_hash ]

abbrev pub risk_at : String → Dict String Entry → Option String
risk_at k d = elim (lookup k d) [ none ↦ none | some e ↦ e.risk_level ]

-- The keys of the loop: `sorted(left_keys & right_keys)`.
unfoldable pub shared : Dict String Entry → Dict String Entry → List String
shared left right = sorted_set (select (λ k. contains (keys right) k) (keys left))

unfoldable pub diff_entries : Dict String Entry → Dict String Entry → SnapshotDiff
unfolding only_in shared
diff_entries left right =
    let both = shared left right in
    record {
      added = only_in right left;
      removed = only_in left right;
      changed = select (λ k. not (content_at k left == content_at k right)) both;
      unchanged = select (λ k. content_at k left == content_at k right) both;
      risk_changed = select (λ k. not (risk_at k left == risk_at k right)) both;
    }

unfoldable pub diff_snapshot_indexes : Index → Index → SnapshotDiff
diff_snapshot_indexes left right = diff_entries (entries_by_key left) (entries_by_key right)
