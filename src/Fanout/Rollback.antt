-- ===== src/Fanout/Rollback.antt =====
-- src/skill_sync_sidecar/fanout.py: `rollback_fanout`, for the report of one tool.
use skill_sync_sidecar.Common.{String}
use skill_sync_sidecar.Common.{Bool, true, false, ◌&&◌, ◌||◌}
use skill_sync_sidecar.Common.{not, Option, none, some, List, [], ◌∷◌, if◌then◌else◌}
use skill_sync_sidecar.Common.{◌==◌, option_eq, string_eq, nat_eq}
use skill_sync_sidecar.Common.{truthy, is_some}
use mathlib.Core.List.{reverse}
use skill_sync_sidecar.Fanout.{file, directory, Entry, symlink, thing, Disk, within}
use skill_sync_sidecar.Fanout.{entry_hash}
use skill_sync_sidecar.Common.Dict.{Dict}
use skill_sync_sidecar.Fanout.Items.{Action, link, relink, replace_dir_with_link}
use skill_sync_sidecar.Fanout.Items.{copy, update_copy}
use skill_sync_sidecar.Fanout.Items.{adopt, replace_link_with_copy}
use skill_sync_sidecar.Fanout.Execute.{Place, Done, put, put_entry}

-- What the entry must still be for it to be put back.
pub data Kind : Type 0 where
  placed_link placed_copy put_away : Kind

unfoldable pub kind_of : Action → Kind
kind_of link = placed_link
kind_of relink = placed_link
kind_of replace_dir_with_link = placed_link
kind_of copy = placed_copy
kind_of update_copy = placed_copy
kind_of replace_link_with_copy = placed_copy
kind_of _ = put_away

abbrev pub is_adopt : Action → Bool
is_adopt adopt = true
is_adopt _ = false

pub data Undone : Type 0 where
  skipped restored would_restore : Undone

module _ (D : Disk) (canonical : String) where
  -- `still_ours`
  unfoldable pub still_ours : Done → Option Entry → Bool
  still_ours done entry = elim (kind_of done.action) [
    | placed_link ↦ elim entry [
      | none ↦ false
      | some e ↦ elim e [ symlink raw ↦ within (D.real raw) canonical | thing x ↦ false ]
    ]
    | placed_copy ↦ elim entry [
      | none ↦ false
      | some e ↦ elim e [
        | symlink raw ↦ false
        | thing x ↦ elim x [
          | file ↦ false
          | directory t ↦ entry_hash D (some (thing (directory t))) == done.content_hash
        ]
      ]
    ]
    | put_away ↦ not (is_some entry) || is_adopt done.action
  ]

  -- Taking away what the run placed.
  abbrev pub cleared : Done → Place → Place
  cleared done p = elim (kind_of done.action) [ put_away ↦ p | _ ↦ put_entry done.name none p ]

  abbrev pub from_backup : Done → Place → Place
  from_backup done p =
      if done.backed_up && is_some (p.backups done.name)
      then record p {
        entries = put done.name (p.backups done.name) p.entries;
        backups = put done.name none p.backups;
      }
      else p

  abbrev pub relinked : Done → Place → Place
  relinked done p = elim (truthy done.old_link_target) [
    | none ↦ p
    | some raw ↦
        if is_some (p.entries done.name) then p else put_entry done.name (some (symlink raw)) p
  ]

  -- One turn of the loop over `executed`.
  unfoldable pub undo : Bool → Done → Place → Undone × Place
  undo yes_ done p =
      if not (still_ours done (p.entries done.name))
      then (skipped, p)
      else if yes_
      then (restored, relinked done (from_backup done (cleared done p)))
      else (would_restore, p)

  unfoldable pub undo_all : Bool → List Done → Place → List Undone × Place
  undo_all yes_ [] p = ([], p)
  undo_all yes_ (done ∷ rest) p =
      let (outcome, p1) = undo yes_ done p in
      let (outcomes, p2) = undo_all yes_ rest p1 in (outcome ∷ outcomes, p2)

  -- The part of `rollback_fanout` for one tool that was not skipped; `ledger_before` is that of its
  -- report, and `is_copy` whether the report's mode is "copy".
  unfoldable pub rollback_tool :
      Bool → Bool → Dict String String → List Done → Place → List Undone × Place
  rollback_tool yes_ is_copy ledger_before executed p =
      let (outcomes, p1) = undo_all yes_ (reverse executed) p in
      (outcomes, if yes_ && is_copy then record p1 { ledger = ledger_before } else p1)
