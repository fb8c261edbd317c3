-- ===== src/Remote/Loop.antt =====
-- The turns of the loop of `upload_snapshot`, and what each leaves of its file.
use skill_sync_sidecar.Common.{String, ◌≡◌, refl, ◌∙◌, ◌⊎◌, inl, inr, Bool, true, false}
use skill_sync_sidecar.Common.{Option, none, some, List, [], ◌∷◌, ◌++◌, map, arith}
use skill_sync_sidecar.Common.{◌==◌, contains, option_eq, string_eq, nat_eq, Bool-cases}
use skill_sync_sidecar.Common.{Option-cases, is_some, Error}
use skill_sync_sidecar.Common.Dict.{Dict, lookup, lookup-insert}
use skill_sync_sidecar.Remote.{join_remote_path, LocalFile, is_index, is_included}
use skill_sync_sidecar.Remote.{Upload, put_bytes, is_skipped, upload_files}

module _ {File : Type 0} where
  -- A write changes nothing but its path.
  pub put_bytes-elsewhere :
      (path p : String) (f : LocalFile File) (u : Upload File)
      → (p == path) ≡ false
      → lookup p (put_bytes path f u).1.remote ≡ lookup p u.remote
  unfolding put_bytes
  put_bytes-elsewhere path p f u h = elim (Option-cases u.left_by_failure) [
    | inl e ↦ ground (arith, lookup-insert p path f.1 u.remote)
    | inr (left, e) ↦
        ground (arith, lookup-insert p path f.1 u.remote, lookup-insert p path left u.remote)
  ]

  -- A write that returns has put the file at its path.
  pub put_bytes-there :
      (path : String) (f : LocalFile File) (u : Upload File)
      → (put_bytes path f u).0 ≡ none
      → lookup path (put_bytes path f u).1.remote ≡ some f.1
  unfolding put_bytes
  put_bytes-there path f u h = ground (arith, lookup-insert path path f.1 u.remote)

  -- One that raises has left the path as it was, or what a failure leaves.
  pub put_bytes-left :
      (path : String) (f : LocalFile File) (u : Upload File) (e : Error)
      → (put_bytes path f u).0 ≡ some e
      → (lookup path (put_bytes path f u).1.remote ≡ lookup path u.remote)
        ⊎ ((left : File) × (u.left_by_failure ≡ some left)
            × (lookup path (put_bytes path f u).1.remote ≡ some left))
  unfolding put_bytes
  put_bytes-left path f u e h = elim (Option-cases u.left_by_failure) [
    | inl n ↦ inl (ground arith)
    | inr (left, s) ↦ inr (left, s, ground (arith, lookup-insert path path left u.remote))
  ]

  pub put_bytes-left_by_failure :
      (path : String) (f : LocalFile File) (u : Upload File)
      → (put_bytes path f u).1.left_by_failure ≡ u.left_by_failure
  unfolding put_bytes
  put_bytes-left_by_failure path f u = ground arith

module _ {File : Type 0} (include : Option (List String)) (skip : Bool) (prefix : String) where
  abbrev pub remote_path : LocalFile File → String
  remote_path f = join_remote_path prefix f.0

  abbrev pub paths : List (LocalFile File) → List String
  paths files = map remote_path files

  abbrev pub run : List (LocalFile File) → Upload File → Option Error × Upload File
  run files u = upload_files include skip prefix files u

  abbrev pub put : LocalFile File → Upload File → Option Error × Upload File
  put f u = put_bytes (remote_path f) f u

  -- The turns of the loop.
  pub upload_files-nil : (u : Upload File) → run [] u ≡ (none, u)
  unfolding upload_files
  upload_files-nil u = refl

  pub upload_files-skip :
      (f : LocalFile File) (files : List (LocalFile File)) (u : Upload File)
      → is_skipped include skip prefix f u ≡ true
      → run (f ∷ files) u ≡ run files u
  unfolding upload_files
  upload_files-skip f files u s = ground arith

  pub upload_files-put :
      (f : LocalFile File) (files : List (LocalFile File)) (u : Upload File)
      → is_skipped include skip prefix f u ≡ false
      → (put f u).0 ≡ none
      → run (f ∷ files) u ≡ run files (put f u).1
  unfolding upload_files
  upload_files-put f files u s h = ground arith

  pub upload_files-raise :
      (f : LocalFile File) (files : List (LocalFile File)) (u : Upload File) (e : Error)
      → is_skipped include skip prefix f u ≡ false
      → (put f u).0 ≡ some e
      → run (f ∷ files) u ≡ (some e, (put f u).1)
  unfolding upload_files
  upload_files-raise f files u e s h = ground arith

  -- The loop changes nothing but the paths of its files.
  pub upload_files-elsewhere :
      (files : List (LocalFile File)) (u : Upload File) (p : String)
      → contains (paths files) p ≡ false
      → lookup p (run files u).1.remote ≡ lookup p u.remote
  upload_files-elsewhere [] u p h = rw (upload_files-nil u) refl
  upload_files-elsewhere (f ∷ files) u p h =
      let kept = put_bytes-elsewhere (remote_path f) p f u (ground arith) in
      elim (Bool-cases (is_skipped include skip prefix f u)) [
        | inl s ↦
            rw (upload_files-skip f files u s) (upload_files-elsewhere files u p (ground arith))
        | inr s ↦ elim (Option-cases (put f u).0) [
          | inl e ↦
              rw (upload_files-put f files u s e)
                (upload_files-elsewhere files (put f u).1 p (ground arith) ∙ kept)
          | inr (x, e) ↦ rw (upload_files-raise f files u x s e) kept
        ]
      ]

  -- A file that was to be uploaded is on the remote with its content, or it is an archive that was
  -- there before, is not to be replaced, and is as it was.
  abbrev pub IsDone : Dict String File → Upload File → LocalFile File → Type 0
  IsDone before u f =
      is_included include f ≡ true
      → (lookup (remote_path f) u.remote ≡ some f.1)
        ⊎ ((is_index f ≡ false)
            × (skip ≡ true)
            × (is_some (lookup (remote_path f) before) ≡ true)
            × (lookup (remote_path f) u.remote ≡ lookup (remote_path f) before))

  -- The paths of the files are as they were before.
  abbrev pub Same : List (LocalFile File) → Dict String File → Upload File → Type 0
  Same files before u =
      (p : String) → contains (paths files) p ≡ true → lookup p u.remote ≡ lookup p before

  pub skipped-lem :
      (f : LocalFile File) (u : Upload File)
      → is_skipped include skip prefix f u ≡ true
      → is_included include f ≡ true
      → (is_index f ≡ false) × (skip ≡ true) × (is_some (lookup (remote_path f) u.remote) ≡ true)
  unfolding is_skipped
  skipped-lem f u s i = (ground arith, ground arith, ground arith)

  -- The index is always written.
  pub index-not_skipped :
      (f : LocalFile File) (u : Upload File)
      → is_index f ≡ true
      → is_skipped include skip prefix f u ≡ false
  unfolding is_skipped is_included
  index-not_skipped f u i = ground arith

  pub Same-skip :
      (f : LocalFile File) (files : List (LocalFile File)) (before : Dict String File)
      (u : Upload File)
      → Same (f ∷ files) before u
      → Same files before u
  Same-skip f files before u same p there = same p (ground arith)

  pub Same-put :
      (f : LocalFile File) (files : List (LocalFile File)) (before : Dict String File)
      (u : Upload File)
      → contains (paths files) (remote_path f) ≡ false
      → Same (f ∷ files) before u
      → Same files before (put f u).1
  Same-put f files before u new same p there =
      put_bytes-elsewhere (remote_path f) p f u (ground arith) ∙ same p (ground arith)

  -- What the turn of a file leaves of it, given what the rest of the loop leaves.
  pub skipped-IsDone :
      (f : LocalFile File) (files : List (LocalFile File)) (before : Dict String File)
      (u : Upload File)
      → is_skipped include skip prefix f u ≡ true
      → contains (paths files) (remote_path f) ≡ false
      → Same (f ∷ files) before u
      → IsDone before (run files u).1 f
  skipped-IsDone f files before u s new same i =
      let (a, b, c) = skipped-lem f u s i in
      let was = same (remote_path f) (ground arith) in
      inr (a, b, ground arith, upload_files-elsewhere files u (remote_path f) new ∙ was)

  pub put-IsDone :
      (f : LocalFile File) (files : List (LocalFile File)) (before : Dict String File)
      (u : Upload File)
      → (put f u).0 ≡ none
      → contains (paths files) (remote_path f) ≡ false
      → IsDone before (run files (put f u).1).1 f
  put-IsDone f files before u e new i = inl (
      upload_files-elsewhere files (put f u).1 (remote_path f) new
      ∙ put_bytes-there (remote_path f) f u e)

  -- The index is among the files, and apart from a path that is not.
  pub index-there :
      (archives : List (LocalFile File)) (index : LocalFile File)
      → contains (paths (archives ++ (index ∷ []))) (remote_path index) ≡ true
  index-there [] index = ground arith
  index-there (f ∷ archives) index = ground (arith, index-there archives index)

  pub index-apart :
      (archives : List (LocalFile File)) (index : LocalFile File) (p : String)
      → contains (paths (archives ++ (index ∷ []))) p ≡ false
      → (remote_path index == p) ≡ false
  index-apart [] index p h = ground arith
  index-apart (f ∷ archives) index p h = ground (arith, index-apart archives index p)
