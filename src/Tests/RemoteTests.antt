-- ===== src/Tests/RemoteTests.antt =====
-- src/skill_sync_sidecar/remote.py: publishing two archives of which the second is there already.
use skill_sync_sidecar.Common.{ℕ, ◌≡◌, refl}
use skill_sync_sidecar.Common.{true}
use skill_sync_sidecar.Common.{none, some, List, [], ◌∷◌}
use skill_sync_sidecar.Common.{option_eq, string_eq, nat_eq}
use skill_sync_sidecar.Common.{remote_error}
use skill_sync_sidecar.Common.Dict.{lookup, insert}
use skill_sync_sidecar.Common.Text.{strip_slashes}
use skill_sync_sidecar.Remote.{join_remote_path, LocalFile, Upload, upload_snapshot, upload_files}
use skill_sync_sidecar.Remote.{ordered_files, is_included, is_skipped}
use skill_sync_sidecar.Remote.Publication.{IsPublication, upload_snapshot-IsPublication}

abbrev index : LocalFile ℕ
index = ("index.json", 9)

abbrev files : List (LocalFile ℕ)
files = index ∷ ("skills/a.zip", 1) ∷ ("skills/b.zip", 2) ∷ []

-- The connection breaks after `n` writes.
abbrev online : ℕ → Upload ℕ
online n = record {
  remote = ("team/index.json", 8) ∷ ("team/skills/b.zip", 2) ∷ [];
  writes_left = n;
  left_by_failure = some 0;
  uploaded = [];
}

abbrev after : Upload ℕ
after = record {
  remote = ("team/index.json", 0) ∷ ("team/skills/b.zip", 2) ∷ ("team/skills/a.zip", 1) ∷ [];
  writes_left = 0;
  left_by_failure = some 0;
  uploaded = ("skills/a.zip", 1) ∷ [];
}

broken :
    upload_snapshot none true "/team/" files (online 1)
    ≡ (some (remote_error "network error for PUT team/index.json"), after)
unfolding upload_snapshot upload_files ordered_files is_included is_skipped lookup insert
    join_remote_path strip_slashes string_eq
broken = refl

upload_snapshot-IsPublication_example :
    IsPublication none true "/team/"
      (("skills/a.zip", 1) ∷ ("skills/b.zip", 2) ∷ [])
      index
      (online 1)
      (upload_snapshot none true "/team/" files (online 1))
unfolding string_eq join_remote_path strip_slashes
upload_snapshot-IsPublication_example =
    upload_snapshot-IsPublication none true "/team/" files index (online 1) refl refl
      (refl, (refl, (refl, tt)))
