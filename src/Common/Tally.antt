-- ===== src/Common/Tally.antt =====
-- Counts by name: `summary[x] = summary.get(x, 0) + 1`, and `dict(sorted(summary.items()))`.
use Prim.Native.Nat.{ℕ, ◌+◌}
use Prim.Native.String.{String}
use mathlib.Core.Path.{◌≡◌, refl}
use mathlib.Core.Option.{Option, none, some}
use mathlib.Core.List.{List, [], ◌∷◌}
use native.Mathlib.Omega.{arith}
use skill_sync_sidecar.Common.Equality.{◌==◌, string_eq, contains, if◌then◌else◌}
use skill_sync_sidecar.Common.Lists.{count_if}
use skill_sync_sidecar.Common.Dict.{Dict, keys, lookup, insert, contains-keys, lookup-insert}
use skill_sync_sidecar.Common.Dict.{lookup-nil}
use skill_sync_sidecar.Common.Sorted.{sorted_set, contains-sorted_set}

abbrev pub or_zero : Option ℕ → ℕ
or_zero none = 0
or_zero (some n) = n

-- The loop, from a summary that may hold counts.
tally_onto : Dict String ℕ → List String → Dict String ℕ
tally_onto d [] = d
tally_onto d (x ∷ xs) = tally_onto (insert x (or_zero (lookup x d) + 1) d) xs

pick : {V : Type 0} → Dict String V → List String → Dict String V
pick d [] = []
pick d (k ∷ ks) = let rest = pick d ks in elim (lookup k d) [ none ↦ rest | some v ↦ (k, v) ∷ rest ]

-- `dict(sorted(d.items()))`
unfoldable pub sorted_items : {V : Type 0} → Dict String V → Dict String V
unfolding pick
sorted_items d = pick d (sorted_set (keys d))

unfoldable pub tally : List String → Dict String ℕ
unfolding tally_onto
tally xs = sorted_items (tally_onto [] xs)

lookup-pick :
    {V : Type 0} (d : Dict String V) (ks : List String) (j : String)
    → lookup j (pick d ks) ≡ (if contains ks j then lookup j d else none)
unfolding pick lookup
lookup-pick d [] j = refl
lookup-pick d (k ∷ ks) j = ground (arith, lookup-pick d ks j)

-- Sorting the entries changes no lookup.
pub lookup-sorted_items :
    {V : Type 0} (d : Dict String V) (j : String) → lookup j (sorted_items d) ≡ lookup j d
unfolding sorted_items
lookup-sorted_items d j =
    rw (lookup-pick d (sorted_set (keys d)) j, contains-sorted_set, contains-keys) (ground arith)

lookup-tally_onto :
    (d : Dict String ℕ) (xs : List String) (k : String)
    → or_zero (lookup k (tally_onto d xs)) ≡ or_zero (lookup k d) + count_if (λ x. k == x) xs
unfolding tally_onto
lookup-tally_onto d [] k = omega arith
lookup-tally_onto d (x ∷ xs) k = ground (
  arith,
  lookup-tally_onto (insert x (or_zero (lookup x d) + 1) d) xs k,
  lookup-insert k x (or_zero (lookup x d) + 1) d,
)

-- Each name has its number of occurrences.
pub lookup-tally :
    (xs : List String) (k : String) → or_zero (lookup k (tally xs)) ≡ count_if (λ x. k == x) xs
unfolding tally
lookup-tally xs k =
    rw lookup-sorted_items (rw (lookup-tally_onto [] xs k, lookup-nil {K = String} k) (omega arith))
