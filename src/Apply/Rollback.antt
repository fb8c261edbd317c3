-- ===== src/Apply/Rollback.antt =====
-- Rolling back the record of a run, complete or failed, gives back what stood there before.
use skill_sync_sidecar.Common.{String, ◌≡◌, refl}
use skill_sync_sidecar.Common.{◌∙◌, ap, inl, inr, false}
use skill_sync_sidecar.Common.{none, some, List, [], ◌∷◌, ◌++◌, arith}
use skill_sync_sidecar.Common.{contains, option_eq, string_eq, nat_eq, Bool-cases}
use skill_sync_sidecar.Common.{select}
use skill_sync_sidecar.Common.{All, Error, ok, err}
use mathlib.Core.List.{reverse, reverse-append}
use skill_sync_sidecar.Common.{Result-cases}
use skill_sync_sidecar.Common.{works}
use skill_sync_sidecar.Apply.{Fs, place, ApplyItem, Applied, Undoing, Weather, temp_path}
use skill_sync_sidecar.Apply.{
  Outcome, apply_item, apply_items, execute_apply_plan, roll_back, roll_back_all,
}
use skill_sync_sidecar.Apply.{rollback_apply_record}
use skill_sync_sidecar.Apply.Item.{
  IsApart, IsInstalled, apply_item-IsInstalled, apply_item-restores,
}

module _ (apply_id : String) where
  -- The backups and temporary directories of the items.
  abbrev pub scratch : List ApplyItem → List String
  scratch [] = []
  scratch (item ∷ items) = item.backup_path ∷ temp_path item.target_path apply_id ∷ scratch items

  -- Each item's paths are apart, and its backup is not scratch space of a later item.
  abbrev pub IsApartAll : List ApplyItem → Type 0
  IsApartAll [] = Unit {0}
  IsApartAll (item ∷ items) =
      IsApart apply_id item × (contains (scratch items) item.backup_path ≡ false) × IsApartAll items

-- The rollback's own removals and copies work.
abbrev pub Undoable : {C : Type 0} → (Applied → Undoing C) → Type 0
Undoable undoing = (a : Applied) → ((undoing a).remove ≡ works) × ((undoing a).copy ≡ works)

-- Removing the old target works, and so does the copy back from its backup.
abbrev pub IsSafe : {C : Type 0} → Weather C → Type 0
IsSafe w = (w.remove_target ≡ works) × (w.restore_copy ≡ works)

module _ {C : Type 0} (undoing : Applied → Undoing C) where
  roll_back_all-append :
      (xs : List Applied) (a : Applied) (fs fs' : Fs C)
      → roll_back_all undoing xs fs ≡ (ok tt, fs')
      → roll_back_all undoing (xs ++ (a ∷ [])) fs ≡ roll_back_all undoing (a ∷ []) fs'
  unfolding roll_back_all
  roll_back_all-append [] a fs fs' h =
      ap (λ (f : Fs C). roll_back_all undoing (a ∷ []) f) (ap (λ (o : Outcome C (Unit {0})). o.1) h)
  roll_back_all-append (x ∷ xs) a fs fs' h =
      ground (arith, roll_back_all-append xs a (roll_back (undoing x) x fs).1 fs')

  module _ (weather : ApplyItem → Weather C) (apply_id : String) where
    apply_items-ok :
        (item : ApplyItem) (items : List ApplyItem) (fs : Fs C) (a : Applied)
        → (apply_item (weather item) apply_id item fs).0 ≡ ok a
        → apply_items weather apply_id (item ∷ items) fs ≡ (
            let r =
              apply_items weather apply_id items (apply_item (weather item) apply_id item fs).1 in
            (a ∷ r.0, r.1, r.2))
    unfolding apply_items
    apply_items-ok item items fs a e = ground arith

    apply_items-err :
        (item : ApplyItem) (items : List ApplyItem) (fs : Fs C) (e : Error)
        → (apply_item (weather item) apply_id item fs).0 ≡ err e
        → apply_items weather apply_id (item ∷ items) fs
          ≡ ([], some e, (apply_item (weather item) apply_id item fs).1)
    unfolding apply_items
    apply_items-err item items fs e h = ground arith

    -- The paths outside the scratch space are as they were.
    abbrev pub SameOutside : List ApplyItem → Fs C → Fs C → Type 0
    SameOutside items fs fs' =
        (p : String) → contains (scratch apply_id items) p ≡ false → fs' p ≡ fs p

    -- A rollback of what was applied works, and restores.
    abbrev pub Undoes : List ApplyItem → List Applied → Fs C → Fs C → Type 0
    Undoes items applied fs fs2 =
        (fs3 : Fs C) × (roll_back_all undoing (reverse applied) fs2 ≡ (ok tt, fs3))
        × SameOutside items fs fs3

    -- Undoing one installation from a file system that agrees, outside the scratch space of the
    -- later items, with the one that it left.
    roll_back-installed :
        (item : ApplyItem) (items : List ApplyItem) (fs fs1 fs3 : Fs C) (a : Applied)
        → Undoable undoing
        → IsApart apply_id item
        → contains (scratch apply_id items) item.backup_path ≡ false
        → IsInstalled (weather item) apply_id item fs a fs1
        → SameOutside items fs1 fs3
        → (fs4 : Fs C) × (roll_back_all undoing (a ∷ []) fs3 ≡ (ok tt, fs4))
          × SameOutside (item ∷ items) fs fs4
    unfolding roll_back_all roll_back
    roll_back-installed item items fs fs1 fs3 a undoable apart free inst same =
        elim (Bool-cases a.had_existing) [
          | inl had ↦ (
            place item.target_path (fs3 item.backup_path) (place item.target_path none fs3),
            ground (arith, undoable a, same item.backup_path),
            λ p out. ground (arith, same p, same item.backup_path, inst.elsewhere p),
          )
          | inr new ↦ (
            place item.target_path none fs3,
            ground (arith, undoable a),
            λ p out. ground (arith, same p, inst.elsewhere p),
          )
        ]

    Undoes-failed :
        (item : ApplyItem) (items : List ApplyItem) (fs : Fs C) (e : Error)
        → IsApart apply_id item
        → IsSafe (weather item)
        → (apply_item (weather item) apply_id item fs).0 ≡ err e
        → Undoes (item ∷ items) [] fs (apply_item (weather item) apply_id item fs).1
    unfolding roll_back_all
    Undoes-failed item items fs e apart safe h =
        let fs1 = (apply_item (weather item) apply_id item fs).1 in
        let kept =
          apply_item-restores (weather item) apply_id item fs apart (inl safe.0) safe.1 e fs1
            (cc h) in
        (fs1, refl, λ p out. ground (arith, kept.1 p))

    Undoes-applied :
        (item : ApplyItem) (items : List ApplyItem) (fs : Fs C) (a : Applied)
        (applied : List Applied) (fs2 : Fs C)
        → Undoable undoing
        → IsApart apply_id item
        → contains (scratch apply_id items) item.backup_path ≡ false
        → (apply_item (weather item) apply_id item fs).0 ≡ ok a
        → Undoes items applied (apply_item (weather item) apply_id item fs).1 fs2
        → Undoes (item ∷ items) (a ∷ applied) fs fs2
    Undoes-applied item items fs a applied fs2 undoable apart free h (fs3, undone, same) =
        let fs1 = (apply_item (weather item) apply_id item fs).1 in
        let inst = apply_item-IsInstalled (weather item) apply_id item fs apart a fs1 (cc h) in
        let (fs4, undone', same') =
          roll_back-installed item items fs fs1 fs3 a undoable apart free inst same in
        (
          fs4,
          rw (reverse-append (a ∷ []) applied)
              (roll_back_all-append (reverse applied) a fs2 fs3 undone ∙ undone'),
          same',
        )

    apply_items-Undoes :
        (items : List ApplyItem) (fs : Fs C)
        → Undoable undoing
        → IsApartAll apply_id items
        → All (λ item. IsSafe (weather item)) items
        → let r = apply_items weather apply_id items fs in Undoes items r.0 fs r.2
    unfolding apply_items roll_back_all
    apply_items-Undoes [] fs undoable apart safe = (fs, refl, λ p out. refl)
    apply_items-Undoes (item ∷ items) fs undoable (apart, free, aparts) (safe, safes) =
        elim (Result-cases (apply_item (weather item) apply_id item fs).0) [
          | inl (a, h) ↦
              let fs1 : Fs C = (apply_item (weather item) apply_id item fs).1 in
              let rest = apply_items weather apply_id items fs1 in
              rw (apply_items-ok item items fs a h) (
                Undoes-applied item items fs a rest.0 rest.2 undoable apart free h
                  (apply_items-Undoes items fs1 undoable aparts safes))
          | inr (e, h) ↦
              rw (apply_items-err item items fs e h) (Undoes-failed item items fs e apart safe h)
        ]

    -- Take a plan whose items have separate paths and distinct backups, and let any copy to a
    -- temporary directory or a backup, any rename and any removal of a temporary directory fail,
    -- half-way or not, while removing a target and copying it back from its backup work. Whether the
    -- run returns or raises, a rollback of its record whose own removals and copies work returns, and
    -- then every path but the backups and the temporary directories of the allowed items holds what
    -- it held before the run.
    pub rollback_apply_record-execute_apply_plan :
        (items : List ApplyItem) (fs : Fs C)
        → Undoable undoing
        → IsApartAll apply_id (select (λ item. item.allowed) items)
        → All (λ item. IsSafe (weather item)) (select (λ item. item.allowed) items)
        → let (failure, record_, fs2) = execute_apply_plan weather apply_id items fs in
          (fs3 : Fs C) × (rollback_apply_record undoing record_ fs2 ≡ (ok tt, fs3))
          × SameOutside (select (λ item. item.allowed) items) fs fs3
    unfolding execute_apply_plan rollback_apply_record
    rollback_apply_record-execute_apply_plan items fs undoable apart safe =
        apply_items-Undoes (select (λ item. item.allowed) items) fs undoable apart safe
