-- ===== src/Diff/Laws.antt =====
-- A diff sorts every key into one list.
use skill_sync_sidecar.Common.{String, ◌≡◌}
use skill_sync_sidecar.Common.{◌∙◌, Bool, ◌&&◌}
use skill_sync_sidecar.Common.{not, List, [], ◌∷◌, arith}
use skill_sync_sidecar.Common.{◌==◌, contains, option_eq, string_eq, nat_eq}
use skill_sync_sidecar.Common.{is_some, select}
use skill_sync_sidecar.Common.Dict.{Dict, lookup, keys, contains-keys}
use skill_sync_sidecar.Common.Sorted.{contains-sorted_set}
use skill_sync_sidecar.Skill.{Entry, Index}
use skill_sync_sidecar.Diff.{SnapshotDiff, only_in, shared, content_at, risk_at, diff_entries}
use skill_sync_sidecar.Diff.{diff_snapshot_indexes, entries_by_key}

contains-select :
    (p : String → Bool) (k : String) (xs : List String)
    → contains (select p xs) k ≡ (p k && contains xs k)
contains-select p k [] = ground arith
contains-select p k (x ∷ xs) = ground (arith, contains-select p k xs)

-- Where a key is found, by what the two dicts hold under it.
pub record IsSorted (left right : Dict String Entry) (d : SnapshotDiff) (k : String) : Type 0 where
  pub added : contains d.added k ≡ (is_some (lookup k right) && not (is_some (lookup k left)))
  pub removed : contains d.removed k ≡ (is_some (lookup k left) && not (is_some (lookup k right)))
  pub changed : contains d.changed k ≡ (
      is_some (lookup k left)
      && (is_some (lookup k right) && not (content_at k left == content_at k right)))
  pub unchanged : contains d.unchanged k ≡ (
      is_some (lookup k left)
      && (is_some (lookup k right) && content_at k left == content_at k right))
  pub risk_changed : contains d.risk_changed k ≡ (
      is_some (lookup k left)
      && (is_some (lookup k right) && not (risk_at k left == risk_at k right)))

contains-only_in :
    (left right : Dict String Entry) (k : String)
    → contains (only_in left right) k ≡ (is_some (lookup k left) && not (is_some (lookup k right)))
unfolding only_in
contains-only_in left right k =
    contains-sorted_set k (select (λ j. not (contains (keys right) j)) (keys left))
    ∙ (contains-select (λ j. not (contains (keys right) j)) k (keys left)
        ∙ ground (arith, contains-keys left k, contains-keys right k))

contains-shared :
    (left right : Dict String Entry) (k : String)
    → contains (shared left right) k ≡ (is_some (lookup k left) && is_some (lookup k right))
unfolding shared
contains-shared left right k =
    contains-sorted_set k (select (λ j. contains (keys right) j) (keys left))
    ∙ (contains-select (λ j. contains (keys right) j) k (keys left)
        ∙ ground (arith, contains-keys left k, contains-keys right k))

-- The five lists of a diff say of each key exactly what the entries under it say: which side has
-- it, and if both have, whether content and risk agree.
pub diff_snapshot_indexes-IsSorted :
    (left right : Index) (k : String)
    → IsSorted (entries_by_key left) (entries_by_key right) (diff_snapshot_indexes left right) k
unfolding diff_snapshot_indexes diff_entries
diff_snapshot_indexes-IsSorted left right k =
    let l = entries_by_key left in
    let r = entries_by_key right in
    let both = contains-shared l r k in
    record {
      added = contains-only_in r l k;
      removed = contains-only_in l r k;
      changed =
          contains-select (λ j. not (content_at j l == content_at j r)) k (shared l r)
          ∙ ground arith;
      unchanged =
          contains-select (λ j. content_at j l == content_at j r) k (shared l r) ∙ ground arith;
      risk_changed =
          contains-select (λ j. not (risk_at j l == risk_at j r)) k (shared l r) ∙ ground arith;
    }
