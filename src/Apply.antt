-- ===== src/Apply.antt =====
-- src/skill_sync_sidecar/apply.py: installing staged skills into a tool root, with backups, and
-- taking an installation back. The file system maps a path to the skill directory that stands
-- there; `C` is whatever such a directory holds.
pub mod Item
pub mod Rollback
use skill_sync_sidecar.Common.{ℕ, zero, suc, ◌+◌, ◌-◌, ◌≤◌, ◌<◌, String, ◌<>◌, ◌≡◌, refl, sym}
use skill_sync_sidecar.Common.{◌∙◌, ap, ◌≢◌, ◌↔◌, ◌⊎◌, inl, inr, Bool, true, false, ◌&&◌, ◌||◌}
use skill_sync_sidecar.Common.{
  not, Option, none, some, List, [], ◌∷◌, ◌++◌, map, arith, if◌then◌else◌,
}
use skill_sync_sidecar.Common.{ltb, leb, ◌==◌, contains, option_eq, string_eq, nat_eq, Bool-cases}
use skill_sync_sidecar.Common.{
  Option-cases, truthy, or_else_text, is_some, length, select, count_if,
}
use skill_sync_sidecar.Common.{any_of, is_empty, All, Error, Result, ok, err, ◌>>=◌, ◌>>◌, require}
use mathlib.Core.List.{reverse}
use skill_sync_sidecar.Common.{apply_error, os_error, Attempt, works, fails}
use skill_sync_sidecar.Common.Text.{split_last}

abbrev pub Fs : Type 0 → Type 0
Fs C = String → Option C

-- The file system with something else, or nothing, at a path.
abbrev pub place : {C : Type 0} → String → Option C → Fs C → Fs C
place p c fs q = if q == p then c else fs q

abbrev pub exists : {C : Type 0} → Fs C → String → Bool
exists fs p = is_some (fs p)

-- An item of an apply plan, as far as `execute_apply_plan` reads it.
pub record ApplyItem : Type 0 where
  pub key : String
  pub skill_id : String
  pub content_hash : String
  pub source_path : String
  pub target_path : String
  pub backup_path : String
  pub allowed : Bool

-- An entry of `applied` in an apply record.
pub record Applied : Type 0 where
  pub key : String
  pub skill_id : String
  pub content_hash : String
  pub source_path : String
  pub target_path : String
  pub backup_path : String
  pub had_existing : Bool
  pub backup_written : Bool

-- How the file operations of one item end, those of its recovery (`restore_copy`, `remove_temp`)
-- included. Copying a directory and removing one may fail half-way; renaming one fails as a whole.
pub record Weather (C : Type 0) : Type 0 where
  pub copy_source : Attempt C
  pub copy_backup : Attempt C
  pub remove_target : Attempt C
  pub rename : Bool
  pub restore_copy : Attempt C
  pub remove_temp : Attempt C

-- How the two file operations of undoing one item end.
pub record Undoing (C : Type 0) : Type 0 where
  pub remove : Attempt C
  pub copy : Attempt C

unfoldable pub temp_path : String → String → String
temp_path target apply_id =
    let (directory, name) = split_last target in
    directory <> ("." <> (name <> (".skill-sync-tmp-" <> apply_id)))

-- A call that may raise, and the file system that it leaves in either case.
abbrev pub Outcome : Type 0 → Type 0 → Type 0
Outcome C A = Result A × Fs C

applied_record : ApplyItem → Bool → Applied
applied_record item had_existing = record {
  key = item.key;
  skill_id = item.skill_id;
  content_hash = item.content_hash;
  source_path = item.source_path;
  target_path = item.target_path;
  backup_path = item.backup_path;
  had_existing = had_existing;
  backup_written = had_existing;
}

-- The record of `execute_apply_plan`, which it makes whether it returns or raises. Writing it to its
-- file is not modelled.
pub record ApplyRecord : Type 0 where
  pub complete : Bool
  pub applied : List Applied

module _ {C : Type 0} where
  -- The operation at path `p`, where `result` is what it leaves there if it works.
  unfoldable pub attempt : Attempt C → String → Option C → Fs C → Bool × Fs C
  attempt works p result fs = (true, place p result fs)
  attempt (fails left) p result fs = (false, place p left fs)

  -- The `except` branch of `_apply_item`, which may raise in turn.
  unfoldable pub recover : Weather C → Bool → ApplyItem → String → Fs C → Fs C
  unfolding attempt
  recover w had_existing item temp fs =
      let (copied, fs1) = attempt w.restore_copy item.target_path (fs item.backup_path) fs in
      if had_existing && (exists fs item.backup_path && not (exists fs item.target_path))
      then if copied then (attempt w.remove_temp temp none fs1).1 else fs1
      else (attempt w.remove_temp temp none fs).1

  -- Removing the target and putting the new directory in its place.
  swap_in : Weather C → ApplyItem → String → Bool → Fs C → Bool × Fs C
  unfolding attempt
  swap_in w item temp had_existing fs =
      let (removed, fs1) = attempt w.remove_target item.target_path none fs in
      if removed && w.rename
      then (true, place temp none (place item.target_path (fs1 temp) fs1))
      else (false, recover w had_existing item temp fs1)

  -- The `try` block of `_apply_item`: whether it ended well, and what it left.
  guarded : Weather C → ApplyItem → String → Bool → Fs C → Bool × Fs C
  unfolding swap_in
  guarded w item temp false fs = swap_in w item temp false fs
  guarded w item temp true fs =
      if exists fs item.backup_path
      then (false, recover w true item temp fs)
      else let (copied, fs1) = attempt w.copy_backup item.backup_path (fs item.target_path) fs in
        if copied then swap_in w item temp true fs1 else (false, recover w true item temp fs1)

  -- `_apply_item`
  unfoldable pub apply_item : Weather C → String → ApplyItem → Fs C → Outcome C Applied
  unfolding guarded applied_record
  apply_item w apply_id item fs =
      let temp = temp_path item.target_path apply_id in
      let (copied, fs1) = attempt w.copy_source temp (fs item.source_path) fs in
      let had_existing = exists fs1 item.target_path in
      let (done, fs2) = guarded w item temp had_existing fs1 in
      if not (exists fs item.source_path)
      then (err (apply_error ("staged source is not a directory: " <> item.source_path)), fs)
      else if exists fs temp
      then (err (apply_error ("temporary target already exists: " <> temp)), fs)
      else if not copied
      then (err (apply_error "copying the staged source failed"), fs1)
      else if done
      then (ok (applied_record item had_existing), fs2)
      else (err (apply_error ("installing failed: " <> item.target_path)), fs2)

  -- The loop over the plan's items; it stops at the first that raises.
  unfoldable pub apply_items :
      (ApplyItem → Weather C) → String → List ApplyItem → Fs C → List Applied × Option Error × Fs C
  apply_items weather apply_id [] fs = ([], none, fs)
  apply_items weather apply_id (item ∷ items) fs =
      let (result, fs1) = apply_item (weather item) apply_id item fs in
      elim result [
        | err e ↦ ([], some e, fs1)
        | ok a ↦
            let (applied, failure, fs2) = apply_items weather apply_id items fs1 in
            (a ∷ applied, failure, fs2)
      ]

  -- `execute_apply_plan`: what it returns or raises, the record that it writes, and what it leaves.
  unfoldable pub execute_apply_plan :
      (ApplyItem → Weather C) → String → List ApplyItem → Fs C → Option Error × ApplyRecord × Fs C
  execute_apply_plan weather apply_id items fs =
      let (applied, failure, fs') =
        apply_items weather apply_id (select (λ item. item.allowed) items) fs in
      (failure, record { complete = not (is_some failure); applied = applied }, fs')

  -- One turn of the loop of `rollback_apply_record`.
  unfoldable pub roll_back : Undoing C → Applied → Fs C → Outcome C (Unit {0})
  unfolding attempt
  roll_back u a fs =
      let (removed, fs1) = attempt u.remove a.target_path none fs in
      let (copied, fs2) = attempt u.copy a.target_path (fs1 a.backup_path) fs1 in
      if not a.had_existing
      then (if removed then ok tt else err (os_error a.target_path), fs1)
      else if not (exists fs a.backup_path)
      then (err (apply_error ("backup missing for rollback: " <> a.backup_path)), fs)
      else if not removed
      then (err (os_error a.target_path), fs1)
      else (if copied then ok tt else err (os_error a.target_path), fs2)

  -- The loop, over the entries in the order in which it visits them.
  unfoldable pub roll_back_all : (Applied → Undoing C) → List Applied → Fs C → Outcome C (Unit {0})
  roll_back_all undoing [] fs = (ok tt, fs)
  roll_back_all undoing (a ∷ rest) fs =
      let (result, fs1) = roll_back (undoing a) a fs in
      elim result [ err e ↦ (err e, fs1) | ok _ ↦ roll_back_all undoing rest fs1 ]

  -- `rollback_apply_record`
  unfoldable pub rollback_apply_record :
      (Applied → Undoing C) → ApplyRecord → Fs C → Outcome C (Unit {0})
  rollback_apply_record undoing r fs = roll_back_all undoing (reverse r.applied) fs
