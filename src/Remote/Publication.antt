-- ===== src/Remote/Publication.antt =====
-- What an upload of a snapshot leaves on the remote, whether it returns or raises.
use skill_sync_sidecar.Common.{String, ◌≡◌, refl, ◌∙◌, ◌≢◌, ◌⊎◌, inl, inr, Bool, true, false}
use skill_sync_sidecar.Common.{not, Option, none, some, List, [], ◌∷◌, ◌++◌, arith}
use skill_sync_sidecar.Common.{contains, option_eq, string_eq, nat_eq, Bool-cases}
use skill_sync_sidecar.Common.{Option-cases, select, All, Error}
use mathlib.Core.Path.{subst}
use skill_sync_sidecar.Common.Dict.{Dict, lookup}
use skill_sync_sidecar.Common.Sorted.{NodupTexts}
use skill_sync_sidecar.Remote.{LocalFile, is_index, ordered_files}
use skill_sync_sidecar.Remote.{Upload, is_skipped, upload_snapshot}
use skill_sync_sidecar.Remote.Loop.{remote_path, paths, run, put, IsDone, Same, Same-skip, Same-put}
use skill_sync_sidecar.Remote.Loop.{upload_files-nil, upload_files-skip, upload_files-put}
use skill_sync_sidecar.Remote.Loop.{upload_files-raise, upload_files-elsewhere, index-not_skipped}
use skill_sync_sidecar.Remote.Loop.{put_bytes-elsewhere, put_bytes-there, put_bytes-left}
use skill_sync_sidecar.Remote.Loop.{put_bytes-left_by_failure, skipped-IsDone, put-IsDone}
use skill_sync_sidecar.Remote.Loop.{index-there, index-apart}

module _ {File : Type 0} (include : Option (List String)) (skip : Bool) (prefix : String) where
  abbrev path_of : LocalFile File → String
  path_of f = remote_path include skip prefix f

  abbrev loop : List (LocalFile File) → Upload File → Option Error × Upload File
  loop files u = run include skip prefix files u

  -- How the loop over the archives and then the index ends.
  pub record Ends (archives : List (LocalFile File)) (index : LocalFile File)
      (before : Dict String File) (left_by_failure : Option File) (r : Option Error × Upload File)
      : Type 0 where
    returned :
        r.0 ≡ none
        → All (IsDone include skip prefix before r.1) archives
          × (lookup (path_of index) r.1.remote ≡ some index.1)
    raising :
        r.0 ≢ none
        → (lookup (path_of index) r.1.remote ≡ lookup (path_of index) before)
          ⊎ ((left : File) × (left_by_failure ≡ some left)
              × (lookup (path_of index) r.1.remote ≡ some left)
              × All (IsDone include skip prefix before r.1) archives)

  -- The index is the last file, so a write of it that raises comes after all the archives.
  Ends-index :
      (index : LocalFile File) (before : Dict String File) (u : Upload File)
      → is_index index ≡ true
      → Same include skip prefix (index ∷ []) before u
      → Ends [] index before u.left_by_failure (loop (index ∷ []) u)
  Ends-index index before u i same =
      let s = index-not_skipped include skip prefix index u i in
      let was = same (path_of index) (ground arith) in
      elim (Option-cases (put include skip prefix index u).0) [
        | inl e ↦ rw (upload_files-put include skip prefix index [] u s e) (
            rw (upload_files-nil include skip prefix (put include skip prefix index u).1) (record {
              returned = λ h. (tt, put_bytes-there (path_of index) index u e);
              raising = λ h. absurd (h refl);
            }))
        | inr (x, e) ↦ rw (upload_files-raise include skip prefix index [] u x s e) (record {
          returned = λ h. absurd (ground arith);
          raising = λ h. elim (put_bytes-left (path_of index) index u x e) [
            | inl kept ↦ inl (kept ∙ was)
            | inr (left, a, b) ↦ inr (left, a, b, tt)
          ];
        })
      ]

  -- One more file in front.
  Ends-more :
      (f index : LocalFile File) (archives : List (LocalFile File)) (before : Dict String File)
      (left : Option File) (r : Option Error × Upload File)
      → IsDone include skip prefix before r.1 f
      → Ends archives index before left r
      → Ends (f ∷ archives) index before left r
  Ends-more f index archives before left r done rest = record {
    returned = λ h. let (all, there) = rest.returned h in ((done, all), there);
    raising = λ h. elim (rest.raising h) [
      | inl same ↦ inl same
      | inr (x, a, b, all) ↦ inr (x, a, b, (done, all))
    ];
  }

  upload_files-Ends :
      (archives : List (LocalFile File)) (index : LocalFile File) (before : Dict String File)
      (u : Upload File)
      → is_index index ≡ true
      → NodupTexts (paths include skip prefix (archives ++ (index ∷ [])))
      → Same include skip prefix (archives ++ (index ∷ [])) before u
      → Ends archives index before u.left_by_failure (loop (archives ++ (index ∷ [])) u)
  upload_files-Ends [] index before u i nodup same = Ends-index index before u i same
  upload_files-Ends (f ∷ archives) index before u i (new, nodup) same =
      let files = archives ++ (index ∷ []) in
      let rest =
        upload_files-Ends archives index before u i nodup
          (Same-skip include skip prefix f files before u same) in
      elim (Bool-cases (is_skipped include skip prefix f u)) [
        | inl s ↦ rw (upload_files-skip include skip prefix f files u s) (
            Ends-more f index archives before u.left_by_failure (loop files u)
              (skipped-IsDone include skip prefix f files before u s new same) rest)
        | inr s ↦
            let u1 = (put include skip prefix f u).1 in
            elim (Option-cases (put include skip prefix f u).0) [
              | inl e ↦
                  let rest' =
                    upload_files-Ends archives index before u1 i nodup
                      (Same-put include skip prefix f files before u new same) in
                  rw (upload_files-put include skip prefix f files u s e) (
                    Ends-more f index archives before u.left_by_failure (loop files u1)
                      (put-IsDone include skip prefix f files before u e new)
                      (subst (λ l. Ends archives index before l (loop files u1))
                        (put_bytes-left_by_failure (path_of f) f u) rest'))
              | inr (x, e) ↦ rw (upload_files-raise include skip prefix f files u x s e) (record {
                returned = λ h. absurd (ground arith);
                raising = λ h. inl (
                    put_bytes-elsewhere (path_of f) (path_of index) f u
                      (index-apart include skip prefix archives index (path_of f) new)
                    ∙ same (path_of index) (index-there include skip prefix (f ∷ archives) index));
              })
            ]
      ]

  -- What a run leaves behind.
  pub record IsPublication (archives : List (LocalFile File)) (index : LocalFile File)
      (u : Upload File) (r : Option Error × Upload File) : Type 0 where
    pub ends : Ends archives index u.remote u.left_by_failure r
    pub elsewhere :
        (p : String)
        → contains (paths include skip prefix (archives ++ (index ∷ []))) p ≡ false
        → lookup p r.1.remote ≡ lookup p u.remote

  -- Take a snapshot with one index, whose files go to different paths. A run that returns has
  -- published the snapshot's own index, and of every archive that it was to upload, the remote has
  -- the snapshot's content, or what stood there before, if such archives are not to be replaced. A
  -- run that raises, whichever write breaks and whatever that leaves at its path, leaves the index
  -- that was published before, or it is the write of the index that broke, and then all archives are
  -- as after a run that returns. No path but those of the files changes.
  pub upload_snapshot-IsPublication :
      (files : List (LocalFile File)) (index : LocalFile File) (u : Upload File)
      → select is_index files ≡ index ∷ []
      → is_index index ≡ true
      → NodupTexts
          (paths include skip prefix (select (λ f. not (is_index f)) files ++ (index ∷ [])))
      → IsPublication
          (select (λ f. not (is_index f)) files)
          index
          u
          (upload_snapshot include skip prefix files u)
  unfolding upload_snapshot ordered_files
  upload_snapshot-IsPublication files index u one i nodup =
      let archives = select (λ f. not (is_index f)) files in
      rw one (record {
        ends = upload_files-Ends archives index u.remote u i nodup (λ p there. refl);
        elsewhere =
            λ p out. upload_files-elsewhere include skip prefix (archives ++ (index ∷ [])) u p out;
      })
