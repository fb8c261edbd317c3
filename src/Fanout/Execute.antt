-- ===== src/Fanout/Execute.antt =====
-- src/skill_sync_sidecar/fanout.py: executing the items of a tool's plan. `Place` is the tool's
-- directory, the backups of this run, by name, and the ledger. The directory of the backups is
-- that of the run, so nothing stands there before.
pub mod Item
pub mod Names
pub mod Runs
use skill_sync_sidecar.Common.{ℕ, zero, suc, ◌+◌, ◌-◌, ◌≤◌, ◌<◌, String, ◌<>◌, ◌≡◌, refl, sym}
use skill_sync_sidecar.Common.{◌∙◌, ap, ◌≢◌, ◌↔◌, ◌⊎◌, inl, inr, Bool, true, false, ◌&&◌, ◌||◌}
use skill_sync_sidecar.Common.{
  not, Option, none, some, List, [], ◌∷◌, ◌++◌, map, arith, if◌then◌else◌,
}
use skill_sync_sidecar.Common.{ltb, leb, ◌==◌, contains, option_eq, string_eq, nat_eq, Bool-cases}
use skill_sync_sidecar.Common.{
  Option-cases, truthy, or_else_text, is_some, length, select, count_if,
}
use skill_sync_sidecar.Common.{any_of, is_empty, All, Error, Result, ok, err, ◌>>=◌, ◌>>◌, require}
use skill_sync_sidecar.Common.{fanout_error, os_error}
use skill_sync_sidecar.Common.Dict.{Dict, lookup, insert, erase}
use skill_sync_sidecar.Fanout.{Tree, Thing, file, directory, Entry, symlink, thing, Disk, led_to}
use skill_sync_sidecar.Fanout.Items.{Action, link, relink, replace_dir_with_link}
use skill_sync_sidecar.Fanout.Items.{copy, update_copy}
use skill_sync_sidecar.Fanout.Items.{adopt, replace_link_with_copy, remove_dangling_link}
use skill_sync_sidecar.Fanout.Items.{remove_copy, up_to_date, conflict, foreign_link}
use skill_sync_sidecar.Fanout.Items.{is_noop}
use skill_sync_sidecar.Fanout.Items.{FanoutItem, Directory, source_entry}

pub record Place : Type 0 where
  pub entries : Directory
  pub backups : Directory
  pub ledger : Dict String String

-- How the file operations of one item end, those of its recovery included: the move back from the
-- backup (`returned`), the old link made again (`relinked`) and the removal of the temporary entry.
-- Copying may fail half-way and leave something, and so may a move, which between devices copies and
-- then removes: `left_by_move` is what it leaves at the entry and in the backups, if anything has
-- changed. The others fail as a whole.
pub record Luck : Type 0 where
  pub symlink_made : Bool
  pub link_replaced : Bool
  pub copied : Bool
  pub left_by_copy : Option Entry
  pub moved : Bool
  pub left_by_move : Option (Option Entry × Option Entry)
  pub renamed : Bool
  pub unlinked : Bool
  pub returned : Bool
  pub left_by_return : Option (Option Entry × Option Entry)
  pub relinked : Bool
  pub temp_removed : Bool

-- `done` of `_execute_item`
pub record Done : Type 0 where
  pub name : String
  pub action : Action
  pub content_hash : Option String
  pub backed_up : Bool
  pub old_link_target : Option String

-- `f".{entry.name}.skill-sync-tmp-{run_id}"`
unfoldable pub temp_name : String → String → String
temp_name run_id name = "." <> (name <> (".skill-sync-tmp-" <> run_id))

abbrev pub put : String → Option Entry → Directory → Directory
put n e d m = if m == n then e else d m

abbrev pub put_entry : String → Option Entry → Place → Place
put_entry n e p = record p { entries = put n e p.entries }

-- `str(item["content_hash"])`
abbrev pub hash_text : Option String → String
hash_text none = "None"
hash_text (some h) = h

abbrev pub link_text : Option Entry → Option String
link_text (some (symlink raw)) = some raw
link_text _ = none

abbrev pub done_of : FanoutItem → Bool → Option String → Done
done_of item backed_up old = record {
  name = item.name;
  action = item.action;
  content_hash = item.content_hash;
  backed_up = backed_up;
  old_link_target = old;
}

abbrev pub failed : String → Result Done
failed what = err (os_error what)

module _ (D : Disk) (luck : Luck) (run_id : String) (item : FanoutItem) where
  abbrev temp : String
  temp = temp_name run_id item.name

  abbrev source : Option Entry
  source = source_entry D item.source_path

  abbrev ledgered : Place → Place
  ledgered p = record p { ledger = insert item.name (hash_text item.content_hash) p.ledger }

  abbrev moved_to_backup : Place → Place
  moved_to_backup p = record p {
    entries = put item.name none p.entries;
    backups = put item.name (p.entries item.name) p.backups;
  }

  abbrev moved_back : Place → Place
  moved_back p = record p {
    entries = put item.name (p.backups item.name) p.entries;
    backups = put item.name none p.backups;
  }

  -- What a move that raises leaves.
  abbrev half_moved : Option (Option Entry × Option Entry) → Place → Place
  half_moved none p = p
  half_moved (some (e, b)) p = record p {
    entries = put item.name e p.entries;
    backups = put item.name b p.backups;
  }

  -- `move_path(backup, entry)` of a recovery
  unfoldable move_back : Place → Place
  move_back p = if luck.returned then moved_back p else half_moved luck.left_by_return p

  -- `remove_path(tmp)`
  unfoldable without_temp : Place → Place
  without_temp p = if luck.temp_removed then put_entry temp none p else p

  -- `tmp.rename(entry)`
  abbrev renamed_in : Place → Place
  renamed_in p = put_entry temp none (put_entry item.name (p.entries temp) p)

  -- `_swap_symlink`
  unfoldable swap_symlink : Place → Bool × Place
  unfolding without_temp
  swap_symlink p =
      if not luck.symlink_made
      then (false, without_temp p)
      else if not luck.link_replaced
      then (false, put_entry temp (some (symlink item.source_path)) p)
      else (true, put_entry item.name (some (symlink item.source_path)) (put_entry temp none p))

  -- `_copy_into`
  unfoldable copy_into : Place → Bool × Place
  copy_into p =
      if luck.copied && is_some source
      then (true, put_entry temp source p)
      else (false, put_entry temp luck.left_by_copy p)

  execute_link : Place → Result Done × Place
  execute_link p =
      let (swapped, p1) = swap_symlink p in
      if is_some (p.entries item.name)
      then (err (fanout_error (item.name <> " appeared since planning")), p)
      else if swapped
      then (ok (done_of item false none), p1)
      else (failed "symlink", p1)

  execute_relink : Place → Result Done × Place
  execute_relink p =
      let (swapped, p1) = swap_symlink p in
      elim (link_text (p.entries item.name)) [
        | none ↦ (failed "readlink", p)
        | some raw ↦
            if swapped then (ok (done_of item false (some raw)), p1) else (failed "symlink", p1)
      ]

  execute_replace_dir : Place → Result Done × Place
  unfolding move_back
  execute_replace_dir p =
      let (swapped, p1) = swap_symlink (moved_to_backup p) in
      if not (is_some (p.entries item.name))
      then (failed "move", p)
      else if not luck.moved
      then (failed "move", half_moved luck.left_by_move p)
      else if swapped
      then (ok (done_of item true none), p1)
      else (failed "symlink", move_back p1)

  execute_copy : Place → Result Done × Place
  unfolding without_temp
  execute_copy p =
      let (copied, p1) = copy_into p in
      if not copied
      then (failed "copy", p1)
      else if is_some (p1.entries item.name)
      then (err (fanout_error (item.name <> " appeared since planning")), without_temp p1)
      else if luck.renamed
      then (ok (done_of item false none), ledgered (renamed_in p1))
      else (failed "rename", without_temp p1)

  -- The `except` branch of `update_copy`
  unfoldable recover_update : Place → Place
  unfolding move_back without_temp
  recover_update p =
      if not (is_some (led_to D (p.entries item.name))) && is_some (led_to D (p.backups item.name))
      then if luck.returned then without_temp (move_back p) else move_back p
      else without_temp p

  execute_update : Place → Result Done × Place
  unfolding recover_update
  execute_update p =
      let (copied, p1) = copy_into p in
      let p2 = moved_to_backup p1 in
      if not copied
      then (failed "copy", p1)
      else if not (is_some (p1.entries item.name))
      then (failed "move", recover_update p1)
      else if not luck.moved
      then (failed "move", recover_update (half_moved luck.left_by_move p1))
      else if luck.renamed
      then (ok (done_of item true none), ledgered (renamed_in p2))
      else (failed "rename", recover_update p2)

  execute_replace_link : Place → Result Done × Place
  unfolding without_temp
  execute_replace_link p =
      let (copied, p1) = copy_into p in
      let p2 = put_entry item.name none p1 in
      elim (link_text (p.entries item.name)) [
        | none ↦ (failed "readlink", p)
        | some raw ↦
            if not copied
            then (failed "copy", p1)
            else if not luck.unlinked
            then (failed "unlink", p1)
            else if luck.renamed
            then (ok (done_of item false (some raw)), ledgered (renamed_in p2))
            else if luck.relinked
            then (failed "rename", without_temp (put_entry item.name (some (symlink raw)) p2))
            else (failed "symlink", p2)
      ]

  execute_remove_link : Place → Result Done × Place
  execute_remove_link p = elim (link_text (p.entries item.name)) [
    | none ↦ (failed "readlink", p)
    | some raw ↦
        if luck.unlinked
        then (ok (done_of item false (some raw)), put_entry item.name none p)
        else (failed "unlink", p)
  ]

  execute_remove_copy : Place → Result Done × Place
  execute_remove_copy p =
      let p1 = moved_to_backup p in
      if not (is_some (p.entries item.name))
      then (failed "move", p)
      else if luck.moved
      then (ok (done_of item true none), record p1 { ledger = erase item.name p.ledger })
      else (failed "move", half_moved luck.left_by_move p)

  -- `_execute_item`
  unfoldable pub execute_item : Place → Result Done × Place
  unfolding execute_link execute_relink execute_replace_dir execute_copy execute_update
      execute_replace_link execute_remove_link execute_remove_copy swap_symlink copy_into move_back
      without_temp recover_update
  execute_item p = elim item.action [
    | link ↦ execute_link p
    | relink ↦ execute_relink p
    | replace_dir_with_link ↦ execute_replace_dir p
    | copy ↦ execute_copy p
    | update_copy ↦ execute_update p
    | adopt ↦ (ok (done_of item false none), ledgered p)
    | replace_link_with_copy ↦ execute_replace_link p
    | remove_dangling_link ↦ execute_remove_link p
    | remove_copy ↦ execute_remove_copy p
    | up_to_date ↦ (err (fanout_error "unknown fanout action: ok"), p)
    | conflict ↦ (err (fanout_error "unknown fanout action: conflict"), p)
    | foreign_link ↦ (err (fanout_error "unknown fanout action: foreign_link"), p)
  ]

-- `executed` and `failed` of a tool's report
pub record ToolRun : Type 0 where
  pub executed : List Done
  pub failures : List String
  pub place : Place

module _ (D : Disk) (luck : FanoutItem → Luck) (run_id : String) where
  -- The loop over the items of a tool's plan; an item that raises does not stop it.
  unfoldable pub execute_items : List FanoutItem → Place → ToolRun
  execute_items [] p = record { executed = []; failures = []; place = p }
  execute_items (item ∷ items) p =
      let (result, p1) = execute_item D (luck item) run_id item p in
      let skipped = execute_items items p in
      let run = execute_items items p1 in
      if is_noop item.action then skipped else elim result [
        | err e ↦ record run { failures = item.name ∷ run.failures }
        | ok done ↦ record run { executed = done ∷ run.executed }
      ]
