-- ===== src/Fanout/Retention.antt =====
-- src/skill_sync_sidecar/fanout.py: `_prune_backups` and `_prune_run_records`, over the names that
-- stand in the directory of backups or of run records.
use skill_sync_sidecar.Common.{ℕ, zero, suc, ◌-◌, ◌≤◌, String, ◌≡◌, refl, sym}
use skill_sync_sidecar.Common.{◌∙◌, ap, Bool, true}
use skill_sync_sidecar.Common.{not, List, [], ◌∷◌, ◌++◌, arith}
use skill_sync_sidecar.Common.{contains, option_eq, string_eq, nat_eq}
use skill_sync_sidecar.Common.{length, select}
use skill_sync_sidecar.Common.Sorted.{NodupTexts}
use skill_sync_sidecar.Common.Sorting.{sorted_texts, length-sort_by, sorted_texts-NodupTexts}

-- `xs[:n]` and `xs[n:]`, for n of at least 0
unfoldable pub take : ℕ → List String → List String
take zero xs = []
take (suc n) [] = []
take (suc n) (x ∷ xs) = x ∷ take n xs

unfoldable pub drop : ℕ → List String → List String
drop zero xs = xs
drop (suc n) [] = []
drop (suc n) (x ∷ xs) = drop n xs

-- `xs[:-keep] if keep else xs`
unfoldable pub all_but_last : ℕ → List String → List String
unfolding take
all_but_last zero xs = xs
all_but_last (suc k) xs = take (length xs - suc k) xs

-- What `_prune_backups` removes of the runs, and what stays.
unfoldable pub prune : ℕ → List String → List String × List String
unfolding all_but_last
prune keep names =
    let runs = sorted_texts names in
    let pruned = all_but_last keep runs in (pruned, select (λ n. not (contains pruned n)) runs)

drop-length : (xs : List String) → drop (length xs) xs ≡ []
unfolding drop
drop-length [] = refl
drop-length (x ∷ xs) = drop-length xs

take-length : (xs : List String) → take (length xs) xs ≡ xs
unfolding take
take-length [] = refl
take-length (x ∷ xs) = ap (λ ys. x ∷ ys) (take-length xs)

take-drop : (n : ℕ) (xs : List String) → take n xs ++ drop n xs ≡ xs
unfolding take drop
take-drop zero xs = refl
take-drop (suc n) [] = refl
take-drop (suc n) (x ∷ xs) = ap (λ ys. x ∷ ys) (take-drop n xs)

length-drop : (n : ℕ) (xs : List String) → length (drop n xs) ≡ length xs - n
unfolding drop
length-drop zero xs = omega arith
length-drop (suc n) [] = omega arith
length-drop (suc n) (x ∷ xs) = omega (arith, length-drop n xs)

select-cong :
    (p q : String → Bool) (xs : List String)
    → ((a : String) → contains xs a ≡ true → p a ≡ q a)
    → select p xs ≡ select q xs
select-cong p q [] same = refl
select-cong p q (x ∷ xs) same =
    ground (arith, same x, select-cong p q xs (λ a m. same a (ground arith)))

select-all : (xs : List String) → select (λ a. true) xs ≡ xs
select-all [] = refl
select-all (x ∷ xs) = ap (λ ys. x ∷ ys) (select-all xs)

-- Of texts that differ, those that are not among the first n are the others.
select-drop :
    (n : ℕ) (xs : List String)
    → NodupTexts xs
    → select (λ a. not (contains (take n xs) a)) xs ≡ drop n xs
unfolding take drop
select-drop zero xs u = select-all xs
select-drop (suc n) [] u = refl
select-drop (suc n) (x ∷ xs) (fresh, u) =
    let rest =
      select-cong (λ a. not (contains (x ∷ take n xs) a)) (λ a. not (contains (take n xs) a)) xs
        (λ a m. ground arith) in
    ground (arith, rest, select-drop n xs u)

-- The slice that is removed is everything but the last `keep`.
all_but_last-take :
    (keep : ℕ) (xs : List String) → all_but_last keep xs ≡ take (length xs - keep) xs
unfolding all_but_last
all_but_last-take zero xs =
    let all : length xs - 0 ≡ length xs = omega arith in
    sym (ap (λ n. take n xs) all ∙ take-length xs)
all_but_last-take (suc k) xs = refl

-- What a pruning of a directory of names leaves.
pub record IsPruned (keep : ℕ) (names pruned kept : List String) : Type 0 where
  pub all : pruned ++ kept ≡ sorted_texts names
  pub bound : length kept ≤ keep
  pub short : length names ≤ keep → pruned ≡ []
  pub full : keep ≤ length names → length kept ≡ keep

-- Pruning a directory, whose names differ, leaves at most `keep` of its names, and removes none if
-- there are no more; what is removed are the first of the sorted names, and the rest stays.
pub prune-IsPruned :
    (keep : ℕ) (names : List String)
    → NodupTexts names
    → let (pruned, kept) = prune keep names in IsPruned keep names pruned kept
unfolding prune take
prune-IsPruned keep names u =
    let runs = sorted_texts names in
    let n = length runs - keep in
    let size = length-sort_by (λ m. m) names in
    let cut = all_but_last-take keep runs in
    let stays : select (λ m. not (contains (all_but_last keep runs) m)) runs ≡ drop n runs =
      ap (λ ys. select (λ m. not (contains ys m)) runs) cut
      ∙ select-drop n runs (sorted_texts-NodupTexts names u) in
    rw stays (
      rw cut (record {
        all = take-drop n runs;
        bound = ground (arith, length-drop n runs);
        short = λ few.
            let none_left : n ≡ 0 = omega (arith, size, few) in ap (λ m. take m runs) none_left;
        full = λ many. ground (arith, length-drop n runs, size);
      }))
