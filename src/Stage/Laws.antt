-- ===== src/Stage/Laws.antt =====
-- A staged skill is what its index entry and its manifest say.
use skill_sync_sidecar.Common.{ℕ, zero, suc, String, ◌≡◌, sym, refl}
use skill_sync_sidecar.Common.{◌∙◌, ap, inl, inr, true, false}
use skill_sync_sidecar.Common.{Option, none, some, List, [], ◌∷◌, arith, ◌||◌, if◌then◌else◌}
use skill_sync_sidecar.Common.{any_of, Bool-cases}
use skill_sync_sidecar.Common.Text.{split_slash, starts_with_slash}
use skill_sync_sidecar.Common.{◌==◌, option_eq, string_eq, nat_eq}
use skill_sync_sidecar.Common.{Option-cases, truthy, or_else_text, is_some}
use skill_sync_sidecar.Common.{All, ok, require}
use skill_sync_sidecar.Common.{>>=-eq-ok}
use skill_sync_sidecar.Common.Dict.{lookup, lookup-insert, lookup-nil}
use skill_sync_sidecar.Common.Sorting.{sort_by}
use skill_sync_sidecar.Skill.{Entry}
use skill_sync_sidecar.Stage.{SkillFile, Hashing, ManifestFile, Manifest, Archive, StagedSkill}
use skill_sync_sidecar.Stage.{
  validate_archive_member, is_unsafe, Files, extract_member, extract, size_matches,
}
use skill_sync_sidecar.Stage.{check_file, check_manifest_file, check_files, validate_staged_files}
use skill_sync_sidecar.Stage.{content_matches, stage_archive, stage_skill}

-- How a file system walks along the parts of a path: the depth below the directory where it
-- starts, and nothing once it has left that directory.
pub step_into : ℕ → String → Option ℕ
step_into depth part =
    if part == ".."
    then elim depth [ zero ↦ none | suc d ↦ some d ]
    else if part == "" || part == "."
    then some depth
    else some (suc depth)

pub walk : List String → ℕ → Option ℕ
unfolding step_into
walk [] depth = some depth
walk (part ∷ parts) depth = elim (step_into depth part) [ none ↦ none | some d ↦ walk parts d ]

-- The path is relative, and following it never leaves the directory where it starts.
abbrev pub StaysInside : String → Type 0
StaysInside path = (starts_with_slash path ≡ false) × (is_some (walk (split_slash path) 0) ≡ true)

walk-inside :
    (parts : List String) (depth : ℕ)
    → any_of (λ part. part == "..") parts ≡ false
    → is_some (walk parts depth) ≡ true
unfolding walk
walk-inside [] depth h = refl
walk-inside (part ∷ parts) depth h = elim (Bool-cases (part == "" || part == ".")) [
  | inl same ↦ ground (arith, walk-inside parts depth)
  | inr down ↦ ground (arith, walk-inside parts (suc depth))
]

is_unsafe-StaysInside : (path : String) → is_unsafe path ≡ false → StaysInside path
unfolding is_unsafe
is_unsafe-StaysInside path h = (ground arith, walk-inside (split_slash path) 0 (ground arith))

module _ (H : Hashing) where
  -- No path leads out of the target directory.
  abbrev pub IsContained : Files H → Type 0
  IsContained files = (k : String) → is_some (lookup k files) ≡ true → StaysInside k

  extract_member-IsContained :
      (member : String) (bytes : H.Bytes) (files out : Files H)
      → extract_member H member bytes files ≡ ok out
      → IsContained files
      → IsContained out
  unfolding extract_member validate_archive_member
  extract_member-IsContained member bytes files out h inv k there =
      ground (arith, inv k, is_unsafe-StaysInside k, lookup-insert k member bytes files)

  extract-IsContained :
      (members : List (String × H.Bytes)) (files out : Files H)
      → extract H members files ≡ ok out
      → IsContained files
      → IsContained out
  unfolding extract
  extract-IsContained [] files out h inv = λ k there. ground (arith, inv k)
  extract-IsContained ((member, bytes) ∷ members) files out h inv =
      let (files', e, h') = >>=-eq-ok (extract_member H member bytes files) _ h in
      extract-IsContained members files' out h'
        (extract_member-IsContained member bytes files files' e inv)

  -- A manifest file is there, with the size and the digest that the manifest gives.
  pub record IsVerified (files : Files H) (f : ManifestFile) : Type 0 where
    pub rel : String
    pub sha : String
    pub path : truthy f.path ≡ some rel
    pub sha256 : truthy f.sha256 ≡ some sha
    pub bytes : H.Bytes
    pub there : lookup rel files ≡ some bytes
    pub digest : H.sha256 bytes ≡ sha
    pub size : size_matches H f.size bytes ≡ true

  -- The digest list that `validate_staged_files` hashes.
  abbrev pub Digests : List SkillFile → List ManifestFile → Type 0
  Digests [] [] = Unit
  Digests (c ∷ cs) (f ∷ fs) =
      (some c.path ≡ truthy f.path) × (some c.sha256 ≡ truthy f.sha256) × Digests cs fs
  Digests _ _ = ⊥

  check_file-inv :
      (rel sha : String) (size : Option ℕ) (files : Files H) (c : SkillFile)
      → check_file H rel sha size files ≡ ok c
      → (bytes : H.Bytes) × (lookup rel files ≡ some bytes)
        × (H.sha256 bytes ≡ sha)
        × (size_matches H size bytes ≡ true)
        × (c ≡ record { path = rel; size = H.byte_length bytes; sha256 = sha })
  unfolding check_file
  check_file-inv rel sha size files c h =
      let (_, e, h') = >>=-eq-ok (validate_archive_member rel) _ h in
      elim (Option-cases (lookup rel files)) [
        | inl none_there ↦ absurd (ground arith)
        | inr (bytes, there) ↦ (bytes, there, ground arith, ground arith, ground arith)
      ]

  check_manifest_file-IsVerified :
      (f : ManifestFile) (files : Files H) (c : SkillFile)
      → check_manifest_file H f files ≡ ok c
      → IsVerified files f × (some c.path ≡ truthy f.path) × (some c.sha256 ≡ truthy f.sha256)
  unfolding check_manifest_file
  check_manifest_file-IsVerified f files c h = elim (Option-cases (truthy f.path)) [
    | inl e ↦ absurd (ground arith)
    | inr (rel, e) ↦ elim (Option-cases (truthy f.sha256)) [
      | inl e' ↦ absurd (ground arith)
      | inr (sha, e') ↦
          let (bytes, there, digest, size, same) =
            check_file-inv rel sha f.size files c (ground arith) in
          (
            record {
              rel = rel;
              sha = sha;
              path = e;
              sha256 = e';
              bytes = bytes;
              there = there;
              digest = digest;
              size = size;
            },
            ap (λ (x : SkillFile). some x.path) same ∙ sym e,
            ap (λ (x : SkillFile). some x.sha256) same ∙ sym e',
          )
    ]
  ]

  check_files-Verified :
      (fs : List ManifestFile) (files : Files H) (cs : List SkillFile)
      → check_files H fs files ≡ ok cs
      → All (IsVerified files) fs × Digests cs fs
  unfolding check_files
  check_files-Verified [] files [] h = (tt, tt)
  check_files-Verified [] files (c ∷ cs) h = cc
  check_files-Verified (f ∷ fs) files cs h =
      let (c, e, h') = >>=-eq-ok (check_manifest_file H f files) _ h in
      let (rest, e', h'') = >>=-eq-ok (check_files H fs files) _ h' in
      let same : cs ≡ c ∷ rest = cc in
      let (v, p, q) = check_manifest_file-IsVerified f files c e in
      let (vs, ds) = check_files-Verified fs files rest e' in rw same ((v, vs), (p, q, ds))

  -- What `stage_skill` leaves behind.
  pub record IsStaged (skill : Entry) (staged : StagedSkill) (files : Files H) : Type 0 where
    pub manifest : Manifest
    pub same_hash : skill.content_hash ≡ manifest.content_hash
    pub contained : IsContained files
    pub verified : All (IsVerified files) manifest.files
    pub checked : List SkillFile
    pub digests : Digests checked manifest.files
    -- the hash of the listed files is the one that the index gives
    pub content :
        content_matches H skill.content_hash (H.hash_skill_files (sort_by (λ f. f.path) checked))
        ≡ true
    pub staged_hash : staged.content_hash ≡ or_else_text skill.content_hash ""

  stage_archive-IsStaged :
      (skill : Entry) (archive : Archive H.Bytes) (manifest : Manifest) (staged : StagedSkill)
      (files : Files H)
      → stage_archive H skill archive manifest ≡ ok (staged, files)
      → IsStaged skill staged files
  unfolding stage_archive validate_staged_files
  stage_archive-IsStaged skill archive manifest staged files h =
      let (_, e, h1) = >>=-eq-ok (require (skill.content_hash == manifest.content_hash) _) _ h in
      let (files', e', h2) = >>=-eq-ok (extract H archive.members []) _ h1 in
      let (_, e'', h3) = >>=-eq-ok (validate_staged_files H files' manifest) _ h2 in
      let (cs, ec, e4) = >>=-eq-ok (check_files H manifest.files files') _ e'' in
      let same : files ≡ files' = cc in
      let (vs, ds) = check_files-Verified manifest.files files' cs ec in
      let same_hash : skill.content_hash ≡ manifest.content_hash = ground arith in
      rw same (record {
        manifest = manifest;
        same_hash = same_hash;
        contained =
            extract-IsContained archive.members [] files' e'
              (λ k there. absurd (ground (arith, lookup-nil {K = String} {V = H.Bytes} k)));
        verified = vs;
        checked = cs;
        digests = ds;
        content = rw same_hash (ground arith);
        staged_hash = ground arith;
      })

  -- Whatever the archives hold, every file of a staged skill has a relative path that, followed part
  -- by part, never leaves the skill's directory; the skill has every file that the manifest lists, with the size and the digest given there; and if the
  -- index gives a content hash, that is the hash of the listed files.
  pub stage_skill-IsStaged :
      (archives : String → Option (Archive H.Bytes)) (skill : Entry) (staged : StagedSkill)
      (files : Files H)
      → stage_skill H archives skill ≡ ok (staged, files)
      → IsStaged skill staged files
  unfolding stage_skill
  stage_skill-IsStaged archives skill staged files h = elim (Option-cases (truthy skill.archive)) [
    | inl e ↦ absurd (ground arith)
    | inr (rel, e) ↦ elim (Option-cases (archives rel)) [
      | inl e' ↦ absurd (ground arith)
      | inr (archive, e') ↦ elim (Option-cases archive.manifest) [
        | inl e'' ↦ absurd (ground arith)
        | inr (manifest, e'') ↦
            stage_archive-IsStaged skill archive manifest staged files (ground arith)
      ]
    ]
  ]
