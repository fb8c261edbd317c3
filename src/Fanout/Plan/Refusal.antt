-- ===== src/Fanout/Plan/Refusal.antt =====
-- Which entries a plan refuses to touch, against a description that does not go by actions.
use skill_sync_sidecar.Common.{String, ◌≡◌, refl}
use skill_sync_sidecar.Common.{Bool, true, false, ◌&&◌, ◌||◌}
use skill_sync_sidecar.Common.{not, Option, none, some, List, arith, if◌then◌else◌}
use skill_sync_sidecar.Common.{◌==◌, option_eq, string_eq, nat_eq}
use skill_sync_sidecar.Common.{is_some}
use skill_sync_sidecar.Common.{any_of}
use skill_sync_sidecar.Fanout.{file, directory, Entry, symlink, thing, Disk, within}
use skill_sync_sidecar.Fanout.{entry_hash, same_content}
use skill_sync_sidecar.Common.Dict.{Dict, lookup}
use skill_sync_sidecar.Fanout.Items.{FanoutTool, FanoutSkill, Action, is_link_mode}
use skill_sync_sidecar.Fanout.Items.{source_entry}
use skill_sync_sidecar.Fanout.Plan.{plan_entry, link_action, directory_action, copy_action}
use skill_sync_sidecar.Fanout.Items.{conflict, foreign_link, up_to_date, adopt}
use skill_sync_sidecar.Fanout.Items.{update_copy}

abbrev pub is_refusal : Action → Bool
is_refusal conflict = true
is_refusal foreign_link = true
is_refusal _ = false

-- In copy mode: a directory that the ledger does not record has the same content; one that it
-- records has the recorded hash, or the very hash of the canonical one.
abbrev pub is_recorded : Option String → Option String → Option String → Bool → Bool
is_recorded none current canonical_hash same = current == canonical_hash || same
is_recorded (some recorded) current canonical_hash same =
    current == canonical_hash || some recorded == current

by_tests :
    (canonical recorded same : Bool) (why : Option String)
    → let verdict : Action × Option String =
        (if canonical || (not true && same)
          then (if recorded then up_to_date else adopt, none)
          else if true && recorded
          then (update_copy, none)
          else (conflict, why)) in
      is_refusal verdict.0 ≡ not (canonical || recorded)
by_tests canonical recorded same why = ground arith

copy_action-is_recorded :
    (recorded current canonical_hash : Option String) (same : Bool)
    → is_refusal (copy_action recorded current canonical_hash same).0
      ≡ not (is_recorded recorded current canonical_hash same)
unfolding copy_action
copy_action-is_recorded none current canonical_hash same = ground arith
copy_action-is_recorded (some recorded) current canonical_hash same =
    by_tests (current == canonical_hash) (some recorded == current) same _

module _ (D : Disk) (canonical : String) (roots : List String) (tool : FanoutTool) where
  -- Nothing is there; or a link into the canonical root, or into an adoptable root to the same
  -- content; or a directory with the same content, where in
  -- copy mode the ledger goes first.
  abbrev pub is_ours : Dict String String → FanoutSkill → Option Entry → Bool
  is_ours ledger skill none = true
  is_ours ledger skill (some (symlink raw)) =
      let source = source_entry D skill.path in
      D.real raw == skill.path
      || within (D.real raw) canonical
      || (any_of (λ root. is_some (D.at root) && within (D.real raw) root) roots
          && same_content D (some (symlink raw)) (entry_hash D source) source)
  is_ours ledger skill (some (thing file)) = false
  is_ours ledger skill (some (thing (directory t))) =
      let source = source_entry D skill.path in
      let entry = some (thing (directory t)) in
      let same = same_content D entry (entry_hash D source) source in
      if is_link_mode tool.mode
      then same
      else is_recorded (lookup skill.name ledger) (entry_hash D entry) (entry_hash D source) same

  -- The plan refuses an entry, as a conflict or a foreign link, exactly if it is not the sidecar's.
  pub plan_entry-is_ours :
      (ledger : Dict String String) (skill : FanoutSkill) (entry : Option Entry)
      → is_refusal (plan_entry D canonical roots tool ledger skill entry).action
        ≡ not (is_ours ledger skill entry)
  unfolding plan_entry link_action directory_action
  plan_entry-is_ours ledger skill none = ground arith
  plan_entry-is_ours ledger skill (some (symlink raw)) = ground arith
  plan_entry-is_ours ledger skill (some (thing file)) = refl
  plan_entry-is_ours ledger skill (some (thing (directory t))) =
      let source = source_entry D skill.path in
      let entry : Option Entry = some (thing (directory t)) in
      let refused =
        copy_action-is_recorded (lookup skill.name ledger) (entry_hash D entry)
          (entry_hash D source) (same_content D entry (entry_hash D source) source) in
      ground arith
