-- ===== src/Apply/Item.antt =====
-- One item of an apply plan: what a success installs, and what a failure leaves.
use skill_sync_sidecar.Common.{String, ◌≡◌}
use skill_sync_sidecar.Common.{◌≢◌, ◌⊎◌, inl, inr, true, false}
use skill_sync_sidecar.Common.{none, some, arith}
use skill_sync_sidecar.Common.{option_eq, string_eq, nat_eq}
use skill_sync_sidecar.Common.{is_some}
use skill_sync_sidecar.Common.{Error, ok, err}
use skill_sync_sidecar.Common.{works, fails}
use skill_sync_sidecar.Apply.{Fs, exists, ApplyItem, Applied, Weather, temp_path}
use skill_sync_sidecar.Apply.{attempt, recover, apply_item}

-- The four paths of an item are different ones.
pub record IsApart (apply_id : String) (item : ApplyItem) : Type 0 where
  pub source_temp : item.source_path ≢ temp_path item.target_path apply_id
  pub source_target : item.source_path ≢ item.target_path
  pub source_backup : item.source_path ≢ item.backup_path
  pub target_temp : item.target_path ≢ temp_path item.target_path apply_id
  pub target_backup : item.target_path ≢ item.backup_path
  pub backup_temp : item.backup_path ≢ temp_path item.target_path apply_id

-- Removing the target works, or fails before it has removed anything.
abbrev pub SafeRemoval : {C : Type 0} → Weather C → Fs C → String → Type 0
SafeRemoval w fs target = (w.remove_target ≡ works) ⊎ (w.remove_target ≡ fails (fs target))

module _ {C : Type 0} (w : Weather C) (apply_id : String) (item : ApplyItem) (fs : Fs C) where
  abbrev temp : String
  temp = temp_path item.target_path apply_id

  -- What a success leaves: the staged directory at the target, the old one in the backup, and
  -- nothing else changed.
  pub record IsInstalled (a : Applied) (fs' : Fs C) : Type 0 where
    pub target : fs' item.target_path ≡ fs item.source_path
    pub had_existing : a.had_existing ≡ exists fs item.target_path
    pub backup : a.had_existing ≡ true → fs' item.backup_path ≡ fs item.target_path
    pub fresh : a.had_existing ≡ true → fs item.backup_path ≡ none
    pub backup_kept : a.had_existing ≡ false → fs' item.backup_path ≡ fs item.backup_path
    pub temp_gone : fs' temp ≡ none
    pub temp_fresh : fs temp ≡ none
    pub elsewhere :
        (p : String) → p ≢ item.target_path → p ≢ item.backup_path → p ≢ temp → fs' p ≡ fs p
    pub target_path : a.target_path ≡ item.target_path
    pub backup_path : a.backup_path ≡ item.backup_path

  -- An item that returns has put a copy of its source at the target and removed its temporary
  -- directory; what stood at the target stands at the backup; no other path has changed.
  pub apply_item-IsInstalled :
      IsApart apply_id item
      → (a : Applied) (fs' : Fs C) → apply_item w apply_id item fs ≡ (ok a, fs')
      → IsInstalled a fs'
  unfolding apply_item attempt recover
  apply_item-IsInstalled apart a fs' h = record {
    target = ground arith;
    had_existing = ground arith;
    backup = λ e. ground arith;
    fresh = λ e. ground arith;
    backup_kept = λ e. ground arith;
    temp_gone = ground arith;
    temp_fresh = ground arith;
    elsewhere = λ p x y z. ground arith;
    target_path = ground arith;
    backup_path = ground arith;
  }

  -- An item that raises leaves its target as it was, and changes nothing but its backup and its
  -- temporary directory, if removing the target fails at most as a whole and the copy back from the
  -- backup works. This holds wherever the copies before it, the rename and the removal of the
  -- temporary directory fail, half-written directories included.
  pub apply_item-restores :
      IsApart apply_id item
      → SafeRemoval w fs item.target_path
      → w.restore_copy ≡ works
      → (e : Error) (fs' : Fs C) → apply_item w apply_id item fs ≡ (err e, fs')
      → (fs' item.target_path ≡ fs item.target_path)
        × ((p : String) → p ≢ item.backup_path → p ≢ temp → fs' p ≡ fs p)
  unfolding apply_item attempt recover
  apply_item-restores apart (inl safe) back e fs' h = (ground arith, λ p x y. ground arith)
  apply_item-restores apart (inr safe) back e fs' h = (ground arith, λ p x y. ground arith)

  -- A removal that fails half-way is not made good, though the backup is complete: the recovery
  -- looks only whether something stands at the target.
  pub apply_item_half_removed :
      IsApart apply_id item
      → (left : C) → w.copy_source ≡ works
      → w.copy_backup ≡ works
      → w.remove_target ≡ fails (some left)
      → exists fs item.source_path ≡ true
      → exists fs item.target_path ≡ true
      → exists fs item.backup_path ≡ false
      → exists fs temp ≡ false
      → let fs' = (apply_item w apply_id item fs).1 in
        (is_some (elim (apply_item w apply_id item fs).0 [ err e ↦ some e | ok _ ↦ none ]) ≡ true)
        × (fs' item.target_path ≡ some left)
        × (fs' item.backup_path ≡ fs item.target_path)
  unfolding apply_item attempt recover
  apply_item_half_removed apart left a b c d e f g = (ground arith, ground arith, ground arith)
