-- ===== src/Remote.antt =====
-- src/skill_sync_sidecar/remote.py: publishing the files of a snapshot to a remote. The remote is a
-- dict from paths to contents; a connection that breaks is a number of writes after which every
-- write raises, and may have left something at its path: a truncated file, or all of it. Asking
-- whether a file is there, and making directories, do not fail here.
pub mod Loop
pub mod Publication
use skill_sync_sidecar.Common.{ℕ, zero, suc, ◌+◌, ◌-◌, ◌≤◌, ◌<◌, String, ◌<>◌, ◌≡◌, refl, sym}
use skill_sync_sidecar.Common.{◌∙◌, ap, ◌≢◌, ◌↔◌, ◌⊎◌, inl, inr, Bool, true, false, ◌&&◌, ◌||◌}
use skill_sync_sidecar.Common.{
  not, Option, none, some, List, [], ◌∷◌, ◌++◌, map, arith, if◌then◌else◌,
}
use skill_sync_sidecar.Common.{ltb, leb, ◌==◌, contains, option_eq, string_eq, nat_eq, Bool-cases}
use skill_sync_sidecar.Common.{
  Option-cases, truthy, or_else_text, is_some, length, select, count_if,
}
use skill_sync_sidecar.Common.{any_of, is_empty, All, Error, Result, ok, err, ◌>>=◌, ◌>>◌, require}
use skill_sync_sidecar.Common.{remote_error}
use skill_sync_sidecar.Common.Dict.{Dict, lookup, insert}
use skill_sync_sidecar.Common.Text.{strip_slashes}

unfoldable pub join_remote_path : String → String → String
join_remote_path prefix path =
    let left = strip_slashes prefix in
    let right = strip_slashes path in
    if left == "" then right else if right == "" then left else left <> ("/" <> right)

abbrev pub index_name : String
index_name = "index.json"

-- A file of the snapshot directory, by its path there.
abbrev pub LocalFile : Type 0 → Type 0
LocalFile File = String × File

-- What a run of `upload_snapshot` leaves: the remote, the writes that are left before the
-- connection breaks, what the write that breaks leaves at its path (without it the path is as it
-- was), and the files that were written.
pub record Upload (File : Type 0) : Type 0 where
  pub remote : Dict String File
  pub writes_left : ℕ
  pub left_by_failure : Option File
  pub uploaded : List (LocalFile File)

module _ {File : Type 0} where
  abbrev pub is_index : LocalFile File → Bool
  is_index f = f.0 == index_name

  -- `sorted(plan.files, key=lambda item: item[1] == "index.json")`, a stable sort
  unfoldable pub ordered_files : List (LocalFile File) → List (LocalFile File)
  ordered_files files = select (λ f. not (is_index f)) files ++ select is_index files

  -- Whether `include_paths` keeps the file.
  unfoldable pub is_included : Option (List String) → LocalFile File → Bool
  is_included none f = true
  is_included (some paths) f = is_index f || contains paths f.0

  -- `remote.put_bytes`
  pub put_bytes : String → LocalFile File → Upload File → Option Error × Upload File
  put_bytes path f u = elim u.writes_left [
    | zero ↦ (
      some (remote_error ("network error for PUT " <> path)),
      elim u.left_by_failure [
        | none ↦ u
        | some left ↦ record u { remote = insert path left u.remote }
      ],
    )
    | suc n ↦ (
      none,
      record u {
        remote = insert path f.1 u.remote;
        writes_left = n;
        uploaded = u.uploaded ++ (f ∷ []);
      },
    )
  ]

  -- Whether the loop passes over the file.
  unfoldable pub is_skipped :
      Option (List String) → Bool → String → LocalFile File → Upload File → Bool
  unfolding is_included
  is_skipped include skip_existing prefix f u =
      not (is_included include f)
      || (not (is_index f)
          && (skip_existing && is_some (lookup (join_remote_path prefix f.0) u.remote)))

  -- The loop of `upload_snapshot`: whether it raised, and what it left.
  unfoldable pub upload_files :
      Option (List String)
      → Bool
      → String
      → List (LocalFile File)
      → Upload File
      → Option Error × Upload File
  unfolding put_bytes
  upload_files include skip_existing prefix [] u = (none, u)
  upload_files include skip_existing prefix (f ∷ files) u =
      elim (is_skipped include skip_existing prefix f u) [
        | true ↦ upload_files include skip_existing prefix files u
        | false ↦
            let (raised, u') = put_bytes (join_remote_path prefix f.0) f u in
            elim raised [
              | some e ↦ (some e, u')
              | none ↦ upload_files include skip_existing prefix files u'
            ]
      ]

  unfoldable pub upload_snapshot :
      Option (List String)
      → Bool
      → String
      → List (LocalFile File)
      → Upload File
      → Option Error × Upload File
  upload_snapshot include skip_existing prefix files u =
      upload_files include skip_existing prefix (ordered_files files) u
