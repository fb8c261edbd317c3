-- ===== src/Fanout/Execute/Item.antt =====
-- One item of a tool's plan: what a failure leaves, and what undoing a success gives back.
use skill_sync_sidecar.Common.{String, ◌≡◌}
use skill_sync_sidecar.Common.{◌≢◌, true}
use skill_sync_sidecar.Common.{Option, none, some, arith}
use skill_sync_sidecar.Common.{option_eq, string_eq, nat_eq}
use skill_sync_sidecar.Common.{Error, ok, err}
use skill_sync_sidecar.Fanout.{Tree, directory, Entry, symlink, thing, Disk, within}
use skill_sync_sidecar.Fanout.{entry_hash}
use skill_sync_sidecar.Common.Dict.{lookup, lookup-insert}
use skill_sync_sidecar.Fanout.Items.{Action, link, relink, replace_dir_with_link}
use skill_sync_sidecar.Fanout.Items.{copy, update_copy}
use skill_sync_sidecar.Fanout.Items.{adopt, replace_link_with_copy, remove_dangling_link}
use skill_sync_sidecar.Fanout.Items.{remove_copy}
use skill_sync_sidecar.Fanout.Items.{FanoutItem, source_entry}
use skill_sync_sidecar.Fanout.Execute.{Place, Luck, Done, temp_name, execute_item, hash_text}
use skill_sync_sidecar.Fanout.Rollback.{kind_of, placed_link, placed_copy, undo}
use skill_sync_sidecar.Fanout.Rollback.{still_ours, restored}

abbrev pub IsFree : Option Entry → Type 0
IsFree entry = entry ≡ none

abbrev pub IsSymlink : Option Entry → Type 0
IsSymlink entry = (raw : String) × (entry ≡ some (symlink raw)) × (raw ≢ "")

abbrev pub IsDirectory : Option Entry → Type 0
IsDirectory entry = (t : Tree) × (entry ≡ some (thing (directory t)))

-- The entry that an action is planned for.
abbrev pub SuitsAction : Action → Option Entry → Type 0
SuitsAction link entry = IsFree entry
SuitsAction copy entry = IsFree entry
SuitsAction relink entry = IsSymlink entry
SuitsAction replace_link_with_copy entry = IsSymlink entry
SuitsAction remove_dangling_link entry = IsSymlink entry
SuitsAction replace_dir_with_link entry = IsDirectory entry
SuitsAction update_copy entry = IsDirectory entry
SuitsAction remove_copy entry = IsDirectory entry
SuitsAction _ entry = Unit {0}

-- An item as it is planned for an entry: its source is a directory of the canonical root, and what
-- it copies has the hash that it names.
pub record IsFit (D : Disk) (canonical : String) (item : FanoutItem) (entry : Option Entry)
    : Type 0 where
  pub suits : SuitsAction item.action entry
  pub inside : kind_of item.action ≡ placed_link → within (D.real item.source_path) canonical ≡ true
  pub copies :
      kind_of item.action ≡ placed_copy
      → (t : Tree) × (D.at item.source_path ≡ some (directory t))
        × (item.content_hash ≡ entry_hash D (some (thing (directory t))))

-- A move of the item that raises has changed nothing, and the recovery's own operations work.
pub record IsSafe (luck : Luck) : Type 0 where
  pub move : luck.left_by_move ≡ none
  pub return : luck.returned ≡ true
  pub relink : luck.relinked ≡ true

module _ (D : Disk) (luck : Luck) (run_id : String) (item : FanoutItem) where
  abbrev temp : String
  temp = temp_name run_id item.name

  -- What a failure leaves.
  pub record IsRestored (p p' : Place) : Type 0 where
    pub entries : (n : String) → n ≢ temp → p'.entries n ≡ p.entries n
    pub backups : (n : String) → p'.backups n ≡ p.backups n
    pub ledger : p'.ledger ≡ p.ledger

  -- An item that raises changes nothing but its temporary entry: the other entries, the ledger and
  -- the backups are as before. This needs that it is as planned, that nothing stands in the way of
  -- its backup, that a move that raises has changed nothing, and that the recovery's own move back
  -- and its link work. The copy, the links, the rename and the removals may fail.
  pub execute_item-IsRestored :
      (canonical : String) (p p' : Place) (e : Error)
      → IsFit D canonical item (p.entries item.name)
      → item.name ≢ temp_name run_id item.name
      → p.backups item.name ≡ none
      → IsSafe luck
      → execute_item D luck run_id item p ≡ (err e, p')
      → IsRestored p p'
  unfolding execute_item
  execute_item-IsRestored canonical p p' e fit apart fresh safe h = record {
    entries = λ n x. ground (arith, safe.move, safe.return, safe.relink);
    backups = λ n. ground (arith, fit.suits, safe.move, safe.return, safe.relink);
    ledger = ground (arith, safe.move, safe.return, safe.relink);
  }

  -- What a success leaves alone.
  pub record IsConfined (done : Done) (p p' : Place) : Type 0 where
    pub name : done.name ≡ item.name
    pub action : done.action ≡ item.action
    pub entries : (n : String) → n ≢ item.name → n ≢ temp → p'.entries n ≡ p.entries n
    pub backups : (n : String) → n ≢ item.name → p'.backups n ≡ p.backups n

  pub execute_item-IsConfined :
      (p p' : Place) (done : Done)
      → execute_item D luck run_id item p ≡ (ok done, p')
      → IsConfined done p p'
  unfolding execute_item
  execute_item-IsConfined p p' done h = record {
    name = ground arith;
    action = ground arith;
    entries = λ n x y. ground arith;
    backups = λ n x. ground arith;
  }

  -- Undoing gives back the entry and touches no other.
  pub record IsUndone (canonical : String) (done : Done) (p p2 : Place) : Type 0 where
    pub outcome : (undo D canonical true done p2).0 ≡ restored
    pub entry : (undo D canonical true done p2).1.entries item.name ≡ p.entries item.name
    pub entries :
        (n : String) → n ≢ item.name → (undo D canonical true done p2).1.entries n ≡ p2.entries n
    pub backups :
        (n : String) → n ≢ item.name → (undo D canonical true done p2).1.backups n ≡ p2.backups n

  -- Whatever else has changed since, undoing an executed item puts its entry back.
  pub execute_item-IsUndone :
      (canonical : String) (p p1 p2 : Place) (done : Done)
      → IsFit D canonical item (p.entries item.name)
      → item.name ≢ temp_name run_id item.name
      → execute_item D luck run_id item p ≡ (ok done, p1)
      → p2.entries item.name ≡ p1.entries item.name
      → p2.backups item.name ≡ p1.backups item.name
      → IsUndone canonical done p p2
  unfolding execute_item undo still_ours kind_of
  execute_item-IsUndone canonical p p1 p2 done fit apart h same same' = record {
    outcome = ground (arith, fit.suits, fit.inside, fit.copies);
    entry = ground (arith, fit.suits, fit.inside, fit.copies);
    entries = λ n x. ground arith;
    backups = λ n x. ground arith;
  }

  -- What a success puts in place.
  pub record IsPlaced (p p' : Place) : Type 0 where
    pub links :
        kind_of item.action ≡ placed_link → p'.entries item.name ≡ some (symlink item.source_path)
    pub copies :
        kind_of item.action ≡ placed_copy
        → (p'.entries item.name ≡ source_entry D item.source_path)
          × (lookup item.name p'.ledger ≡ some (hash_text item.content_hash))
    pub adopted :
        item.action ≡ adopt
        → (p'.entries item.name ≡ p.entries item.name)
          × (lookup item.name p'.ledger ≡ some (hash_text item.content_hash))

  pub execute_item-IsPlaced :
      (p p' : Place) (done : Done)
      → item.name ≢ temp_name run_id item.name
      → execute_item D luck run_id item p ≡ (ok done, p')
      → IsPlaced p p'
  unfolding execute_item kind_of
  execute_item-IsPlaced p p' done apart h =
      let now = lookup-insert item.name item.name (hash_text item.content_hash) p.ledger in
      record {
        links = λ k. ground arith;
        copies = λ k. (ground arith, ground (arith, now));
        adopted = λ k. (ground arith, ground (arith, now));
      }
