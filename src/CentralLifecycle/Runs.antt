-- ===== src/CentralLifecycle/Runs.antt =====
-- When a change of lifecycle is published.
use skill_sync_sidecar.Common.{ℕ, String, ◌≡◌}
use skill_sync_sidecar.Common.{◌≢◌, ◌⊎◌, Bool, true}
use skill_sync_sidecar.Common.{Option, some, List}
use skill_sync_sidecar.Common.{option_eq, string_eq}
use skill_sync_sidecar.Common.{Error, Result, ok, err}
use skill_sync_sidecar.Common.{Attempt, works, fails}
use skill_sync_sidecar.Skill.{Index as SkillIndex}
use skill_sync_sidecar.CentralLifecycle.{
  Change, Operation, LifecyclePreview, build_preview, changed_index, Central,
}

module _ (digest : SkillIndex → String) where
  -- What is settled before anything is written: the preview, with something to change, and that
  -- the remote's index is the cached one, if that is required.
  pub record IsPermitted (op : Operation) (require_match : Bool) (raws : List String)
      (central : Central) (p : LifecyclePreview) (index : SkillIndex) : Type 0 where
    pub previewed : build_preview op central.cache raws ≡ ok p
    pub planned : p.planned ≢ 0
    pub cached : central.cache ≡ some index
    pub matched :
        require_match ≡ true
        → (seen : SkillIndex) × (central.remote ≡ some seen) × (digest seen ≡ digest index)

  -- The check of the remote, where it is required, does not pass.
  abbrev pub IsMismatch : Bool → Central → Type 0
  IsMismatch require_match central =
      (require_match ≡ true)
      × ((index : SkillIndex) × (central.cache ≡ some index)
          × ((seen : SkillIndex) → central.remote ≡ some seen → digest seen ≢ digest index))

  -- How a change of lifecycle ends, with its result and what it leaves.
  pub data Ends (op : Operation) (require_match : Bool) (upload save : Attempt SkillIndex)
      (c : Change) (raws : List String) (central : Central) (r : Result ℕ) (central' : Central)
      : Type 0 where
    refused :
        (e : Error)
        → r ≡ err e
        → central' ≡ central
        → (build_preview op central.cache raws ≡ err e) ⊎ IsMismatch require_match central
        → Ends op require_match upload save c raws central r central'
    idle :
        (p : LifecyclePreview)
        → build_preview op central.cache raws ≡ ok p
        → p.planned ≡ 0
        → r ≡ ok 0
        → central' ≡ central
        → Ends op require_match upload save c raws central r central'
    upload_failed :
        (p : LifecyclePreview) (index : SkillIndex) (e : Error) (left : Option SkillIndex)
        → IsPermitted op require_match raws central p index
        → upload ≡ fails left
        → r ≡ err e
        → central' ≡ record central { remote = left }
        → Ends op require_match upload save c raws central r central'
    save_failed :
        (p : LifecyclePreview) (index : SkillIndex) (e : Error) (left : Option SkillIndex)
        → IsPermitted op require_match raws central p index
        → upload ≡ works
        → save ≡ fails left
        → r ≡ err e
        → central' ≡ record { remote = some (changed_index op index p.skill_ids c); cache = left }
        → Ends op require_match upload save c raws central r central'
    published :
        (p : LifecyclePreview) (index : SkillIndex)
        → IsPermitted op require_match raws central p index
        → upload ≡ works
        → save ≡ works
        → r ≡ ok 1
        → central' ≡ record {
          remote = some (changed_index op index p.skill_ids c);
          cache = some (changed_index op index p.skill_ids c);
        }
        → Ends op require_match upload save c raws central r central'
