-- ===== src/Stage.antt =====
-- src/skill_sync_sidecar/stage.py: a skill's archive is extracted into a staging directory only if
-- it is what the index and its manifest say. Zip archives and SHA-256 are arguments.
pub mod Laws
use skill_sync_sidecar.Common.{ℕ, zero, suc, ◌+◌, ◌-◌, ◌≤◌, ◌<◌, String, ◌<>◌, ◌≡◌, refl, sym}
use skill_sync_sidecar.Common.{◌∙◌, ap, ◌≢◌, ◌↔◌, ◌⊎◌, inl, inr, Bool, true, false, ◌&&◌, ◌||◌}
use skill_sync_sidecar.Common.{
  not, Option, none, some, List, [], ◌∷◌, ◌++◌, map, arith, if◌then◌else◌,
}
use skill_sync_sidecar.Common.{ltb, leb, ◌==◌, contains, option_eq, string_eq, nat_eq, Bool-cases}
use skill_sync_sidecar.Common.{
  Option-cases, truthy, or_else_text, is_some, length, select, count_if,
}
use skill_sync_sidecar.Common.{any_of, is_empty, All, Error, Result, ok, err, ◌>>=◌, ◌>>◌, require}
use skill_sync_sidecar.Common.{stage_error}
use skill_sync_sidecar.Common.Dict.{Dict, lookup, insert}
use skill_sync_sidecar.Common.Text.{split_slash, starts_with_slash, ends_with_slash}
use skill_sync_sidecar.Common.Sorting.{sort_by}
use skill_sync_sidecar.Skill.{Entry, Index}

-- `SkillFile` of src/skill_sync_sidecar/model.py
pub record SkillFile : Type 0 where
  pub path : String
  pub size : ℕ
  pub sha256 : String

-- The byte strings of files: their length, `sha256_file`, and `hash_skill_files`.
pub record Hashing : Type 1 where
  pub Bytes : Type 0
  pub byte_length : Bytes → ℕ
  pub sha256 : Bytes → String
  pub hash_skill_files : List SkillFile → String

-- A file object of `.skill-sync/manifest.json`
pub record ManifestFile : Type 0 where
  pub path : Option String
  pub sha256 : Option String
  pub size : Option ℕ

pub record Manifest : Type 0 where
  pub content_hash : Option String
  pub scope : Option String
  pub targets : List String
  pub files : List ManifestFile

-- A zip file: its members with their bytes, and its manifest if it has that member.
pub record Archive (Bytes : Type 0) : Type 0 where
  pub manifest : Option Manifest
  pub members : List (String × Bytes)

-- `StagedSkill`, without its directory and its count of files
pub record StagedSkill : Type 0 where
  pub key : String
  pub skill_id : String
  pub source : String
  pub scope : String
  pub targets : List String
  pub content_hash : String

abbrev pub manifest_name : String
manifest_name = ".skill-sync/manifest.json"

-- `validate_archive_member`
unfoldable pub is_unsafe : String → Bool
is_unsafe member = starts_with_slash member || any_of (λ part. part == "..") (split_slash member)

unfoldable pub validate_archive_member : String → Result (Unit {0})
validate_archive_member member =
    require (not (is_unsafe member)) (stage_error ("unsafe archive member path: " <> member))

-- `f"{x}"` of a text that may be absent.
abbrev pub shown : Option String → String
shown none = "None"
shown (some s) = s

module _ (H : Hashing) where
  -- The extracted files, by their path in the target directory.
  abbrev pub Files : Type 0
  Files = Dict String H.Bytes

  extract_member : String → H.Bytes → Files → Result Files
  extract_member member bytes files =
      if member == manifest_name || ends_with_slash member
      then ok files
      else (validate_archive_member member >> ok (insert member bytes files))

  -- The loop that writes the members below the target directory.
  unfoldable pub extract : List (String × H.Bytes) → Files → Result Files
  unfolding extract_member
  extract [] files = ok files
  extract ((member, bytes) ∷ members) files = do
    files' ← extract_member member bytes files
    extract members files'

  pub size_matches : Option ℕ → H.Bytes → Bool
  size_matches none bytes = true
  size_matches (some n) bytes = H.byte_length bytes == n

  -- The checks on one file that the manifest lists.
  check_file : String → String → Option ℕ → Files → Result SkillFile
  unfolding size_matches
  check_file rel expected_sha expected_size files = do
    validate_archive_member rel
    elim (lookup rel files) [
      | none ↦ err (stage_error ("staged file missing: " <> rel))
      | some bytes ↦ do
        require (size_matches expected_size bytes) (stage_error ("size mismatch for " <> rel))
        require (H.sha256 bytes == expected_sha) (stage_error ("sha256 mismatch for " <> rel))
        ok (record { path = rel; size = H.byte_length bytes; sha256 = H.sha256 bytes })
    ]

  check_manifest_file : ManifestFile → Files → Result SkillFile
  unfolding check_file
  check_manifest_file f files = elim (truthy f.path) [
    | none ↦ err (stage_error "manifest file entry missing path or sha256")
    | some rel ↦ elim (truthy f.sha256) [
      | none ↦ err (stage_error "manifest file entry missing path or sha256")
      | some sha ↦ check_file rel sha f.size files
    ]
  ]

  unfoldable pub check_files : List ManifestFile → Files → Result (List SkillFile)
  unfolding check_manifest_file
  check_files [] files = ok []
  check_files (f ∷ fs) files = do
    checked ← check_manifest_file f files
    rest ← check_files fs files
    ok (checked ∷ rest)

  pub content_matches : Option String → String → Bool
  content_matches expected actual = elim (truthy expected) [ none ↦ true | some e ↦ actual == e ]

  -- `validate_staged_files`
  unfoldable pub validate_staged_files : Files → Manifest → Result (Unit {0})
  unfolding content_matches
  validate_staged_files files manifest = do
    checked ← check_files manifest.files files
    require
        (content_matches manifest.content_hash (H.hash_skill_files (sort_by (λ f. f.path) checked)))
        (stage_error "staged content hash mismatch")

  staged_skill : Entry → Manifest → StagedSkill
  staged_skill skill manifest = record {
    key = or_else_text skill.key (shown skill.source <> ("/" <> shown skill.skill_id));
    skill_id = or_else_text skill.skill_id "unknown-skill";
    source = or_else_text skill.source "unknown-source";
    scope = or_else_text (truthy skill.scope) (or_else_text manifest.scope "global");
    targets = if is_empty skill.targets then manifest.targets else skill.targets;
    content_hash = or_else_text skill.content_hash "";
  }

  -- `stage_skill` from where its archive is open.
  stage_archive : Entry → Archive H.Bytes → Manifest → Result (StagedSkill × Files)
  unfolding staged_skill
  stage_archive skill archive manifest = do
    require (skill.content_hash == manifest.content_hash) (stage_error "content hash mismatch")
    files ← extract archive.members []
    validate_staged_files files manifest
    ok (staged_skill skill manifest, files)

  -- `stage_skill`, with the files that it leaves in the skill's directory. `archives` gives the
  -- archive at a path of the snapshot, if there is one.
  unfoldable pub stage_skill :
      (String → Option (Archive H.Bytes)) → Entry → Result (StagedSkill × Files)
  unfolding stage_archive
  stage_skill archives skill = elim (truthy skill.archive) [
    | none ↦ err (stage_error "skill has no archive field")
    | some archive_rel ↦ elim (archives archive_rel) [
      | none ↦ err (stage_error ("archive missing: " <> archive_rel))
      | some archive ↦ elim archive.manifest [
        | none ↦ err (stage_error ("archive has no manifest: " <> archive_rel))
        | some manifest ↦ stage_archive skill archive manifest
      ]
    ]
  ]

  -- The skills of `stage_snapshot`; the first that fails stops it.
  unfoldable pub stage_skills :
      (String → Option (Archive H.Bytes)) → List Entry → Result (List (StagedSkill × Files))
  stage_skills archives [] = ok []
  stage_skills archives (skill ∷ skills) = do
    staged ← stage_skill archives skill
    rest ← stage_skills archives skills
    ok (staged ∷ rest)

  unfoldable pub stage_snapshot :
      (String → Option (Archive H.Bytes)) → Option Index → Result (List (StagedSkill × Files))
  stage_snapshot archives none = err (stage_error "snapshot has no index.json")
  stage_snapshot archives (some index) = stage_skills archives index.skills
