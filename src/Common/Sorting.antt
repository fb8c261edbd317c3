-- ===== src/Common/Sorting.antt =====
-- `sorted(xs, key=…)` by a text: stable, in the order of code points.
use Prim.Native.Nat.{Ordering, suc}
use mathlib.Core.Path.{◌≡◌, refl, ap, ◌∙◌}
use native.Mathlib.Omega.{arith}
use Prim.Native.String.{String, compare}
use mathlib.Core.Bool.{Bool, true, false, ◌||◌}
use mathlib.Core.List.{List, [], ◌∷◌}
use skill_sync_sidecar.Common.Equality.{if◌then◌else◌, ◌==◌, string_eq, contains}
use skill_sync_sidecar.Common.Lists.{length}
use skill_sync_sidecar.Common.Sorted.{NodupTexts}

-- `a <= b`
unfoldable pub text_le : String → String → Bool
text_le a b = elim (compare a b) [ Ordering.gt ↦ false | _ ↦ true ]

module _ {ℓ} {A : Type ℓ} (key : A → String) where
  -- Before the first element that it does not follow.
  insert_by : A → List A → List A
  unfolding text_le
  insert_by x [] = x ∷ []
  insert_by x (y ∷ ys) =
      let rest = insert_by x ys in if text_le (key x) (key y) then x ∷ y ∷ ys else y ∷ rest

  unfoldable pub sort_by : List A → List A
  unfolding insert_by
  sort_by [] = []
  sort_by (x ∷ xs) = insert_by x (sort_by xs)

  length-insert_by : (x : A) (xs : List A) → length (insert_by x xs) ≡ suc (length xs)
  unfolding insert_by
  length-insert_by x [] = refl
  length-insert_by x (y ∷ ys) = ground (arith, length-insert_by x ys)

  pub length-sort_by : (xs : List A) → length (sort_by xs) ≡ length xs
  unfolding sort_by
  length-sort_by [] = refl
  length-sort_by (x ∷ xs) = length-insert_by x (sort_by xs) ∙ ap suc (length-sort_by xs)

-- Texts sorted by themselves.
abbrev pub sorted_texts : List String → List String
sorted_texts xs = sort_by (λ n. n) xs

contains-insert_by :
    (k a : String) (xs : List String)
    → contains (insert_by (λ n. n) a xs) k ≡ (k == a || contains xs k)
unfolding insert_by
contains-insert_by k a [] = refl
contains-insert_by k a (b ∷ bs) = ground (arith, contains-insert_by k a bs)

pub contains-sorted_texts :
    (k : String) (xs : List String) → contains (sorted_texts xs) k ≡ contains xs k
unfolding sort_by
contains-sorted_texts k [] = refl
contains-sorted_texts k (a ∷ xs) =
    ground (arith, contains-insert_by k a (sorted_texts xs), contains-sorted_texts k xs)

insert_by-NodupTexts :
    (a : String) (xs : List String)
    → contains xs a ≡ false
    → NodupTexts xs
    → NodupTexts (insert_by (λ n. n) a xs)
unfolding insert_by
insert_by-NodupTexts a [] fresh u = (refl, tt)
insert_by-NodupTexts a (b ∷ bs) fresh u =
    ground (arith, insert_by-NodupTexts a bs, contains-insert_by b a bs)

pub sorted_texts-NodupTexts : (xs : List String) → NodupTexts xs → NodupTexts (sorted_texts xs)
unfolding sort_by
sorted_texts-NodupTexts [] u = tt
sorted_texts-NodupTexts (a ∷ xs) (fresh, u) =
    insert_by-NodupTexts a (sorted_texts xs) (contains-sorted_texts a xs ∙ fresh)
      (sorted_texts-NodupTexts xs u)
