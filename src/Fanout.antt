-- ===== src/Fanout.antt =====
-- src/skill_sync_sidecar/fanout.py: bringing the skills of the canonical root into the directories
-- of the tools. A tool's directory maps a name to its entry; the rest of the disk is a record of
-- what the code asks of it (`Disk`).
pub mod Items
pub mod Plan
pub mod Execute
pub mod Rollback
pub mod Scheduler
pub mod Retention
pub mod Tools
pub mod Run
use skill_sync_sidecar.Common.{ℕ, zero, suc, ◌+◌, ◌-◌, ◌≤◌, ◌<◌, String, ◌<>◌, ◌≡◌, refl, sym}
use skill_sync_sidecar.Common.{◌∙◌, ap, ◌≢◌, ◌↔◌, ◌⊎◌, inl, inr, Bool, true, false, ◌&&◌, ◌||◌}
use skill_sync_sidecar.Common.{
  not, Option, none, some, List, [], ◌∷◌, ◌++◌, map, arith, if◌then◌else◌,
}
use skill_sync_sidecar.Common.{ltb, leb, ◌==◌, contains, option_eq, string_eq, nat_eq, Bool-cases}
use skill_sync_sidecar.Common.{
  Option-cases, truthy, or_else_text, is_some, length, select, count_if,
}
use skill_sync_sidecar.Common.{any_of, is_empty, All, Error, Result, ok, err, ◌>>=◌, ◌>>◌, require}
use skill_sync_sidecar.Common.Text.{starts_with, ends_with_slash}

-- A file of a skill directory, in the order of `os.walk` with sorted names.
pub record WalkedFile : Type 0 where
  pub folders : List String
  pub name : String
  pub suffix_pyc : Bool
  pub relative_path : String
  pub digest : String

-- A skill directory: its own hash and those of the skills within, by relative path, as
-- `scan_roots` finds them, and its files.
pub record Tree : Type 0 where
  pub has_skill_md : Bool
  pub skills : List (String × String)
  pub files : List WalkedFile

-- What stands at a resolved path, and an entry of a directory.
pub data Thing : Type 0 where
  file : Thing
  directory : Tree → Thing

pub data Entry : Type 0 where
  symlink : String → Entry
  thing : Thing → Entry

-- `os.path.realpath` and `os.path.normpath` of a link text in the tool's directory, what stands at
-- a real path, and SHA-256 of the JSON text of a list of pairs, which `sorted` has ordered first.
pub record Disk : Type 0 where
  pub real : String → String
  pub normal : String → String
  pub at : String → Option Thing
  pub sha256_sorted : List (String × String) → String
  pub sha256 : List (String × String) → String

-- `_within`, of normal absolute paths
unfoldable pub within : String → String → Bool
within path root =
    path == root || starts_with (if ends_with_slash root then root else root <> "/") path

-- The file that `_adoption_hash` leaves out: those in hidden and generated folders, hidden and
-- compiled ones, and the manifest.
unfoldable pub is_ignored : WalkedFile → Bool
unfolding starts_with
is_ignored f =
    any_of (λ d. starts_with "." d || contains ("__pycache__" ∷ "node_modules" ∷ []) d) f.folders
    || starts_with "." f.name
    || f.suffix_pyc
    || contains ("manifest.json" ∷ []) f.name

unfoldable pub adoption_entries : Tree → List (String × String)
adoption_entries t =
    map (λ f. (f.relative_path, f.digest)) (select (λ f. not (is_ignored f)) t.files)

module _ (D : Disk) where
  -- `_hash_of` of a directory that is there
  unfoldable pub tree_hash : Tree → Option String
  tree_hash t = if t.has_skill_md then some (D.sha256_sorted t.skills) else none

  unfoldable pub tree_adoption_hash : Tree → Option String
  tree_adoption_hash t = if t.has_skill_md then some (D.sha256 (adoption_entries t)) else none

  abbrev pub on_thing : (Tree → Option String) → Option Thing → Option String
  on_thing h (some (directory t)) = h t
  on_thing h _ = none

  -- What an entry leads to: `path.resolve()` follows links.
  abbrev pub led_to : Option Entry → Option Thing
  led_to none = none
  led_to (some (symlink raw)) = D.at (D.real raw)
  led_to (some (thing x)) = some x

  -- `_hash_of`
  unfoldable pub entry_hash : Option Entry → Option String
  entry_hash entry = on_thing tree_hash (led_to entry)

  -- `_adoption_hash`
  unfoldable pub adoption_hash : Option Entry → Option String
  adoption_hash entry = on_thing tree_adoption_hash (led_to entry)

  -- `_same_content`
  unfoldable pub same_content : Option Entry → Option String → Option Entry → Bool
  same_content entry canonical_hash source =
      entry_hash entry == canonical_hash || adoption_hash entry == adoption_hash source
