-- ===== src/Tests/FanoutTests.antt =====
-- src/skill_sync_sidecar/fanout.py on a canonical root with two skills, and tools of either mode.
use skill_sync_sidecar.Common.{String, ◌<>◌, ◌≡◌, refl, sym}
use skill_sync_sidecar.Common.{ap, ◌≢◌, ◌⊎◌, true, false}
use skill_sync_sidecar.Common.{not, none, some, List, [], ◌∷◌, arith, if◌then◌else◌}
use skill_sync_sidecar.Common.{◌==◌, option_eq, string_eq, nat_eq}
use skill_sync_sidecar.Common.{Result, ok, err}
use mathlib.Core.Path.{subst}
use skill_sync_sidecar.Common.{os_error}
use skill_sync_sidecar.Common.Text.{starts_with, ends_with_slash, ne_of_differ}
use skill_sync_sidecar.Common.Dict.{lookup}
use skill_sync_sidecar.Common.Sorted.{NodupTexts}
use skill_sync_sidecar.Fanout.{Tree, directory, symlink, thing, Disk}
use skill_sync_sidecar.Fanout.{within, entry_hash, tree_hash}
use skill_sync_sidecar.Fanout.{same_content}
use skill_sync_sidecar.Fanout.Items.{FanoutTool, FanoutSkill, FanoutItem, link_mode}
use skill_sync_sidecar.Fanout.Items.{copy_mode}
use skill_sync_sidecar.Fanout.Items.{update_copy, up_to_date, is_noop, adopt}
use skill_sync_sidecar.Fanout.Plan.{plan_entry}
use skill_sync_sidecar.Fanout.Plan.{directory_action, copy_action}
use skill_sync_sidecar.Fanout.Plan.Fits.{IsSource}
use skill_sync_sidecar.Fanout.Plan.Composes.{IsGoodSkill}
use skill_sync_sidecar.Fanout.Plan.Converges.{plan_entry-execute_item}
use skill_sync_sidecar.Fanout.Plan.Refusal.{plan_entry-is_ours, is_ours, is_refusal}
use skill_sync_sidecar.Fanout.Execute.{Place, Luck, Done, temp_name, execute_item, put, done_of}
use skill_sync_sidecar.Fanout.Execute.Item.{IsFit, IsRestored, execute_item-IsRestored}
use skill_sync_sidecar.Fanout.Retention.{prune, prune-IsPruned, IsPruned}
use skill_sync_sidecar.Fanout.Tools.{chosen_tools}
use skill_sync_sidecar.Fanout.Run.{Around, Places, run_fanout, rollback_fanout, FanoutRecord}
use skill_sync_sidecar.Fanout.Run.Accounts.{run_tools-IsAccounted, IsAccounted}
use skill_sync_sidecar.Fanout.Run.{run_tools, save_fails}
use skill_sync_sidecar.Fanout.Run.Undo.{IsSame, AreSkills, IsReady}
use skill_sync_sidecar.Fanout.Run.Final.{rollback_fanout-run_fanout, AreSaved}

abbrev tree : String → Tree
tree h = record { has_skill_md = true; skills = (".", h) ∷ []; files = [] }

abbrev first : List (String × String) → String
first [] = ""
first ((k, h) ∷ ps) = h

-- Two skills, /c/a and /c/b; the links of the tools' directories are absolute.
abbrev disk : Disk
disk = record {
  real = λ raw. raw;
  normal = λ raw. raw;
  at = λ path.
      if path == "/c/a"
      then some (directory (tree "1"))
      else if path == "/c/b"
      then some (directory (tree "2"))
      else none;
  sha256_sorted = first;
  sha256 = first;
}

abbrev skill : String → FanoutSkill
skill n = record {
  name = n;
  skill_id = n;
  path = "/c/" <> n;
  parent = "/c";
  scope = "global";
  risk_level = "ok";
  manifest_targets = some (some ("codex" ∷ "cursor" ∷ []));
}

abbrev codex : FanoutTool
codex = record { tool_id = "codex"; root = "/codex"; mode = link_mode; aliases = "codex" ∷ [] }

abbrev cursor : FanoutTool
cursor = record { tool_id = "cursor"; root = "/cursor"; mode = copy_mode; aliases = "cursor" ∷ [] }

-- In codex, a leads to an old place within the canonical root; in cursor, a is a recorded copy.
abbrev codex_place : Place
codex_place = record {
  entries = put "a" (some (symlink "/c/old")) (λ n. none);
  backups = λ n. none;
  ledger = [];
}

abbrev cursor_place : Place
cursor_place = record {
  entries = put "a" (some (thing (directory (tree "0")))) (λ n. none);
  backups = λ n. none;
  ledger = ("a", "0") ∷ [];
}

abbrev places : Places
places i = if i == "codex" then codex_place else cursor_place

abbrev fair : Luck
fair = record {
  symlink_made = true;
  link_replaced = true;
  copied = true;
  left_by_copy = none;
  moved = true;
  left_by_move = none;
  renamed = true;
  unlinked = true;
  returned = true;
  left_by_return = none;
  relinked = true;
  temp_removed = true;
}

-- The rename of a copy fails.
abbrev foul : Luck
foul = record fair { renamed = false }

-- For b it always does.
abbrev luck : FanoutTool → FanoutItem → Luck
luck tool item = if item.name == "b" then foul else fair

abbrev around : Around
around = record {
  disk = disk;
  canonical = "/c";
  given = "/c";
  roots = [];
  skills = skill "a" ∷ skill "b" ∷ [];
  real_root = λ tool. tool.root;
  has_root = λ tool. true;
  listing = λ tool p. "a" ∷ [];
  is_locked = λ tool. false;
  bad_ledger = λ tool. none;
  unsaved = λ tool. none;
  unfinished = none;
  unpruned = none;
}

a-IsSource : IsSource disk "/c" (skill "a")
unfolding within starts_with ends_with_slash string_eq nat_eq
a-IsSource = record { tree = tree "1"; there = refl; inside = refl }

b-IsSource : IsSource disk "/c" (skill "b")
unfolding within starts_with ends_with_slash string_eq nat_eq
b-IsSource = record { tree = tree "2"; there = refl; inside = refl }

plan_entry-is_ours_example :
    is_refusal
      (plan_entry disk "/c" [] cursor [] (skill "a") (some (thing (directory (tree "0"))))).action
    ≡ not (is_ours disk "/c" [] cursor [] (skill "a") (some (thing (directory (tree "0")))))
plan_entry-is_ours_example =
    plan_entry-is_ours disk "/c" [] cursor [] (skill "a") (some (thing (directory (tree "0"))))

-- The item for b in cursor, and what it leaves when the rename of the copy fails.
unfoldable b_item : FanoutItem
unfolding plan_entry entry_hash tree_hash string_eq
b_item = plan_entry disk "/c" [] cursor [] (skill "b") none

unfoldable failed_b : Result Done × Place
unfolding execute_item b_item temp_name string_eq
failed_b = execute_item disk foul "1" b_item cursor_place

b_item-IsFit : IsFit disk "/c" b_item none
unfolding b_item within starts_with ends_with_slash string_eq nat_eq
b_item-IsFit = record { suits = refl; inside = λ k. refl; copies = λ k. (tree "2", refl, refl) }

b_item-ne-temp : b_item.name ≢ temp_name "1" b_item.name
unfolding b_item temp_name
b_item-ne-temp = ne_of_differ "b" ".b.skill-sync-tmp-1" refl

free_place : cursor_place.entries b_item.name ≡ none
unfolding b_item string_eq
free_place = refl

failed_b-first : failed_b.0 ≡ err (os_error "rename")
unfolding failed_b execute_item b_item temp_name string_eq
failed_b-first = refl

failed_b-err :
    execute_item disk foul "1" b_item cursor_place ≡ (err (os_error "rename"), failed_b.1)
unfolding failed_b
failed_b-err = ap (λ r. (r, failed_b.1)) failed_b-first

execute_item-IsRestored_example : IsRestored disk foul "1" b_item cursor_place failed_b.1
execute_item-IsRestored_example =
    execute_item-IsRestored disk foul "1" b_item "/c" cursor_place failed_b.1 (os_error "rename")
      (subst (IsFit disk "/c" b_item) (sym free_place) b_item-IsFit) b_item-ne-temp refl
      (record { move = ground arith; return = ground arith; relink = ground arith }) failed_b-err

-- The item for a in cursor is an update of its copy.
unfoldable a_item : FanoutItem
unfolding plan_entry directory_action copy_action same_content entry_hash tree_hash string_eq
    option_eq lookup
a_item = plan_entry disk "/c" [] cursor cursor_place.ledger (skill "a") (cursor_place.entries "a")

unfoldable done_a : Result Done × Place
unfolding execute_item a_item temp_name string_eq
done_a = execute_item disk fair "1" a_item cursor_place

a_updates : a_item.action ≡ update_copy
unfolding a_item
a_updates = refl

three_names : NodupTexts ("c" ∷ "a" ∷ "b" ∷ [])
unfolding string_eq
three_names = (refl, (refl, (refl, tt)))

prune-IsPruned_example :
    IsPruned 2
      ("c" ∷ "a" ∷ "b" ∷ [])
      (prune 2 ("c" ∷ "a" ∷ "b" ∷ [])).0
      (prune 2 ("c" ∷ "a" ∷ "b" ∷ [])).1
prune-IsPruned_example = prune-IsPruned 2 ("c" ∷ "a" ∷ "b" ∷ []) three_names

run_tools-IsAccounted_example :
    let r = run_tools around luck "1" (codex ∷ cursor ∷ []) places in
    IsAccounted (save_fails around luck "1") (codex ∷ cursor ∷ []) places r.0 r.2 r.3
run_tools-IsAccounted_example = run_tools-IsAccounted around luck "1" (codex ∷ cursor ∷ []) places

done_a-first : done_a.0 ≡ ok (done_of a_item true none)
unfolding done_a execute_item a_item temp_name string_eq
done_a-first = refl

done_a-ok :
    execute_item disk fair "1" a_item cursor_place ≡ (ok (done_of a_item true none), done_a.1)
unfolding done_a
done_a-ok = ap (λ r. (r, done_a.1)) done_a-first

a-hashed : entry_hash disk (some (thing (directory (tree "1")))) ≡ some "1"
unfolding entry_hash tree_hash
a-hashed = refl

a-acts : is_noop a_item.action ≡ false
unfolding a_item
a-acts = refl

a-ne-temp : "a" ≢ temp_name "1" "a"
unfolding temp_name
a-ne-temp = ne_of_differ "a" ".a.skill-sync-tmp-1" refl

plan_entry-execute_item_example :
    let next = plan_entry disk "/c" [] cursor done_a.1.ledger (skill "a") (done_a.1.entries "a") in
    (next.action ≡ up_to_date) ⊎ ((a_item.action ≡ adopt) × (next.action ≡ update_copy))
unfolding a_item a-IsSource
plan_entry-execute_item_example =
    plan_entry-execute_item disk "/c" [] cursor (skill "a") a-IsSource refl "1" a-hashed fair "1"
      cursor_place done_a.1 (done_of a_item true none) a-acts a-ne-temp done_a-ok

old-ne-empty : ◌≢◌ {A = String} "/c/old" ""
old-ne-empty = ne_of_differ "/c/old" "" refl

texts : (n raw : String) → codex_place.entries n ≡ some (symlink raw) → raw ≢ ""
texts n raw h = ground (arith, old-ne-empty)

no_links : (n raw : String) → cursor_place.entries n ≡ some (symlink raw) → raw ≢ ""
no_links n raw h = ground arith

a-IsGoodSkill : (tool : FanoutTool) → IsGoodSkill disk "/c" [] tool "/c" (skill "a")
unfolding starts_with nat_eq
a-IsGoodSkill tool = record { source = a-IsSource; visible = refl }

b-IsGoodSkill : (tool : FanoutTool) → IsGoodSkill disk "/c" [] tool "/c" (skill "b")
unfolding starts_with nat_eq
b-IsGoodSkill tool = record { source = b-IsSource; visible = refl }

skills-AreSkills : AreSkills around luck "1"
unfolding string_eq
skills-AreSkills = record {
  safe = λ tool item. record { move = ground arith; return = ground arith; relink = ground arith };
  good = λ tool. (a-IsGoodSkill tool, (b-IsGoodSkill tool, tt));
  distinct = (refl, (refl, tt));
}

all_chosen : chosen_tools none (codex ∷ cursor ∷ []) ≡ ok (codex ∷ cursor ∷ [])
unfolding chosen_tools
all_chosen = refl

codex-IsReady : IsReady around luck "1" codex codex_place
codex-IsReady = record {
  start = λ ledger. record { texts = texts; fresh = λ n. refl };
  listing = (refl, tt);
}

cursor-IsReady : IsReady around luck "1" cursor cursor_place
cursor-IsReady = record {
  start = λ ledger. record { texts = no_links; fresh = λ n. refl };
  listing = (refl, tt);
}

two_tools : NodupTexts ("codex" ∷ "cursor" ∷ [])
unfolding string_eq
two_tools = (refl, (refl, tt))

codex_found : places "codex" ≡ codex_place
unfolding string_eq
codex_found = refl

cursor_found : places "cursor" ≡ cursor_place
unfolding string_eq
cursor_found = refl

-- Both tools are run, with the copy of b failing; then the run is rolled back.
two_saved : AreSaved around (λ i. false) (λ i. refl) luck "1" (codex ∷ cursor ∷ [])
unfolding save_fails
two_saved = (refl, (refl, tt))

rollback_fanout-run_fanout_example :
    let (failure, written, left) =
      run_fanout around luck "1" true (codex ∷ cursor ∷ []) none places in
    (r : FanoutRecord) × (written ≡ some r)
    × (let (failure', outcomes, after) = rollback_fanout around (λ i. false) true r left in
        (failure' ≡ none) × ((i : String) → IsSame (places i) (after i)))
rollback_fanout-run_fanout_example =
    rollback_fanout-run_fanout around (λ i. false) (λ i. refl) luck "1" true (codex ∷ cursor ∷ [])
      (codex ∷ cursor ∷ []) none places all_chosen skills-AreSkills
      (
        subst (IsReady around luck "1" codex) (sym codex_found) codex-IsReady,
        (subst (IsReady around luck "1" cursor) (sym cursor_found) cursor-IsReady, tt),
      )
      two_saved refl two_tools
