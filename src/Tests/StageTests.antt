-- ===== src/Tests/StageTests.antt =====
-- src/skill_sync_sidecar/stage.py on an archive of two files, one of which its manifest lists.
use skill_sync_sidecar.Common.{String, ◌<>◌, ◌≡◌, refl}
use skill_sync_sidecar.Common.{Option, none, some, List, [], ◌∷◌, if◌then◌else◌}
use skill_sync_sidecar.Common.{◌==◌, option_eq, string_eq, nat_eq}
use skill_sync_sidecar.Common.{ok}
use skill_sync_sidecar.Common.Sorting.{sort_by}
use skill_sync_sidecar.Skill.{Entry, empty_entry}
use skill_sync_sidecar.Stage.{
  SkillFile, Hashing, ManifestFile, Manifest, Archive, StagedSkill, Files,
}
use skill_sync_sidecar.Common.Dict.{lookup, insert}
use skill_sync_sidecar.Common.Text.{ends_with_slash, starts_with_slash, split_slash}
use skill_sync_sidecar.Stage.{
  is_unsafe, stage_skill, extract, validate_archive_member, validate_staged_files, check_files,
}
use skill_sync_sidecar.Stage.Laws.{IsStaged, stage_skill-IsStaged}

unfoldable pub digests : List SkillFile → String
digests [] = ""
digests (f ∷ fs) = f.sha256 <> digests fs

-- Byte strings as texts, each of them its own digest.
abbrev pub hashing : Hashing
hashing = record {
  Bytes = String;
  byte_length = λ b. if b == "" then 0 else 3;
  sha256 = λ b. b;
  hash_skill_files = digests;
}

abbrev pub listed : ManifestFile
listed = record { path = some "SKILL.md"; sha256 = some "abc"; size = some 3 }

abbrev pub manifest : Manifest
manifest = record {
  content_hash = some "abc";
  scope = some "global";
  targets = [];
  files = listed ∷ [];
}

abbrev pub archive : Archive String
archive = record {
  manifest = some manifest;
  members = ("SKILL.md", "abc") ∷ ("notes/", "") ∷ ("notes/extra.md", "x") ∷ [];
}

abbrev entry : Entry
entry = record empty_entry {
  skill_id = some "a";
  content_hash = some "abc";
  archive = some "archives/a.zip";
}

abbrev archives : String → Option (Archive String)
archives path = if path == "archives/a.zip" then some archive else none

abbrev staged : StagedSkill
staged = record {
  key = "None/a";
  skill_id = "a";
  source = "unknown-source";
  scope = "global";
  targets = [];
  content_hash = "abc";
}

abbrev files : Files hashing
files = ("SKILL.md", "abc") ∷ ("notes/extra.md", "x") ∷ []

a_staged : stage_skill hashing archives entry ≡ ok (staged, files)
unfolding stage_skill string_eq digests option_eq extract ends_with_slash validate_archive_member
    is_unsafe starts_with_slash split_slash validate_staged_files check_files lookup insert sort_by
a_staged = refl

stage_skill-IsStaged_example : IsStaged hashing entry staged files
stage_skill-IsStaged_example = stage_skill-IsStaged hashing archives entry staged files a_staged
