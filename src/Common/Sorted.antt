-- ===== src/Common/Sorted.antt =====
-- `sorted(set(xs))` of texts: in the order of their code points, each once.
use Prim.Native.Nat.{Ordering}
use Prim.Native.String.{String, compare}
use mathlib.Core.Path.{◌≡◌, refl, ap}
use mathlib.Core.Bool.{Bool, true, false, ◌||◌, ◌&&◌}
use mathlib.Core.Logic.{◌↔◌}
use mathlib.Core.List.{List, [], ◌∷◌, ◌++◌}
use native.Mathlib.Omega.{arith}
use skill_sync_sidecar.Common.Lists.{length, select}
use skill_sync_sidecar.Common.Equality.{◌==◌, string_eq, contains, if◌then◌else◌}

is_before : String → String → Bool
is_before a b = elim (compare a b) [ Ordering.lt ↦ true | _ ↦ false ]

-- Puts a text before the first that it precedes.
insert_sorted : String → List String → List String
insert_sorted a [] = a ∷ []
insert_sorted a (b ∷ bs) =
    let rest = insert_sorted a bs in if is_before a b then a ∷ b ∷ bs else b ∷ rest

add : String → List String → List String
unfolding insert_sorted is_before
add a xs = if contains xs a then xs else insert_sorted a xs

unfoldable pub sorted_set : List String → List String
unfolding add
sorted_set [] = []
sorted_set (a ∷ xs) = add a (sorted_set xs)

-- No text stands twice.
abbrev pub NodupTexts : List String → Type 0
NodupTexts [] = Unit
NodupTexts (a ∷ xs) = (contains xs a ≡ false) × NodupTexts xs

contains-insert_sorted :
    (k a : String) (xs : List String) → contains (insert_sorted a xs) k ≡ (k == a || contains xs k)
unfolding insert_sorted
contains-insert_sorted k a [] = refl
contains-insert_sorted k a (b ∷ bs) = ground (arith, contains-insert_sorted k a bs)

contains-add : (k a : String) (xs : List String) → contains (add a xs) k ≡ (k == a || contains xs k)
unfolding add
contains-add k a xs = ground (arith, contains-insert_sorted k a xs)

insert_sorted-NodupTexts :
    (a : String) (xs : List String)
    → contains xs a ≡ false
    → NodupTexts xs
    → NodupTexts (insert_sorted a xs)
unfolding insert_sorted
insert_sorted-NodupTexts a [] fresh u = (refl, tt)
insert_sorted-NodupTexts a (b ∷ bs) fresh u =
    ground (arith, insert_sorted-NodupTexts a bs, contains-insert_sorted b a bs)

add-NodupTexts : (a : String) (xs : List String) → NodupTexts xs → NodupTexts (add a xs)
unfolding add
add-NodupTexts a xs u = ground (arith, insert_sorted-NodupTexts a xs)

-- The same members.
pub contains-sorted_set :
    (k : String) (xs : List String) → contains (sorted_set xs) k ≡ contains xs k
unfolding sorted_set
contains-sorted_set k [] = refl
contains-sorted_set k (a ∷ xs) =
    ground (arith, contains-add k a (sorted_set xs), contains-sorted_set k xs)

pub sorted_set-NodupTexts : (xs : List String) → NodupTexts (sorted_set xs)
unfolding sorted_set
sorted_set-NodupTexts [] = tt
sorted_set-NodupTexts (a ∷ xs) = add-NodupTexts a (sorted_set xs) (sorted_set-NodupTexts xs)

pub contains-append :
    (xs ys : List String) (a : String) → contains (xs ++ ys) a ≡ (contains xs a || contains ys a)
contains-append [] ys a = refl
contains-append (x ∷ xs) ys a = ground (arith, contains-append xs ys a)

pub contains-select :
    (p : String → Bool) (xs : List String) (k : String)
    → contains (select p xs) k ≡ (contains xs k && p k)
contains-select p [] k = refl
contains-select p (x ∷ xs) k = elim (string_eq.dec k x) [
  | yes e ↦ ground (arith, contains-select p xs k, ap p e)
  | no n ↦ ground (arith, contains-select p xs k)
]

-- A list is empty if it has no members.
pub length-zero : (xs : List String) → (length xs ≡ 0) ↔ ((k : String) → contains xs k ≡ false)
length-zero [] = (λ h k. refl, λ h. refl)
length-zero (x ∷ xs) =
    (λ h k. absurd (omega (arith, h)), λ h. let here = h x in absurd (ground (arith, here)))
