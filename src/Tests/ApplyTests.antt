-- ===== src/Tests/ApplyTests.antt =====
-- src/skill_sync_sidecar/apply.py on two skills, the second of which cannot be installed.
use skill_sync_sidecar.Common.{ℕ, String, ◌<>◌, ◌≡◌, refl}
use skill_sync_sidecar.Common.{◌≢◌, inl, true, false}
use skill_sync_sidecar.Common.{none, some, [], ◌∷◌, if◌then◌else◌}
use skill_sync_sidecar.Common.{◌==◌, option_eq, string_eq, nat_eq}
use skill_sync_sidecar.Common.{is_some}
use skill_sync_sidecar.Common.{Error, ok, err}
use skill_sync_sidecar.Common.Text.{split_last, ne_of_differ}
use skill_sync_sidecar.Common.{works, fails}
use skill_sync_sidecar.Apply.{Fs, place, ApplyItem, Applied, Undoing, Weather, temp_path}
use skill_sync_sidecar.Apply.{recover, apply_item, execute_apply_plan, rollback_apply_record}
use skill_sync_sidecar.Apply.Item.{
  IsApart, IsInstalled, apply_item-IsInstalled, apply_item-restores,
}
use skill_sync_sidecar.Apply.Item.{apply_item_half_removed}
use skill_sync_sidecar.Apply.Rollback.{
  IsApartAll, SameOutside, rollback_apply_record-execute_apply_plan,
}

abbrev item : String → ApplyItem
item k = record {
  key = "cc-switch/" <> k;
  skill_id = k;
  content_hash = k;
  source_path = "/stage/" <> k;
  target_path = "/skills/" <> k;
  backup_path = "/skills/.skill-sync-backups/1/" <> k;
  allowed = true;
}

abbrev fair : Weather ℕ
fair = record {
  copy_source = works;
  copy_backup = works;
  remove_target = works;
  rename = true;
  restore_copy = works;
  remove_temp = works;
}

abbrev undoing : Applied → Undoing ℕ
undoing a = record { remove = works; copy = works }

-- The rename fails.
abbrev foul : Weather ℕ
foul = record fair { rename = false }

-- Removing the old directory fails half-way, and 7 is left of it.
abbrev half : Weather ℕ
half = record fair { remove_target = fails (some 7) }

abbrev weather : ApplyItem → Weather ℕ
weather i = if i.skill_id == "b" then foul else fair

abbrev disk : Fs ℕ
disk = place "/stage/a" (some 1) (
    place "/stage/b" (some 2) (place "/skills/a" (some 3) (place "/skills/b" (some 4) (λ _. none))))

a-IsApart : IsApart "1" (item "a")
unfolding temp_path split_last
a-IsApart = record {
  source_temp = ne_of_differ _ _ refl;
  source_target = ne_of_differ _ _ refl;
  source_backup = ne_of_differ _ _ refl;
  target_temp = ne_of_differ _ _ refl;
  target_backup = ne_of_differ _ _ refl;
  backup_temp = ne_of_differ _ _ refl;
}

b-IsApart : IsApart "1" (item "b")
unfolding temp_path split_last
b-IsApart = record {
  source_temp = ne_of_differ _ _ refl;
  source_target = ne_of_differ _ _ refl;
  source_backup = ne_of_differ _ _ refl;
  target_temp = ne_of_differ _ _ refl;
  target_backup = ne_of_differ _ _ refl;
  backup_temp = ne_of_differ _ _ refl;
}

both-IsApartAll : IsApartAll "1" (item "a" ∷ item "b" ∷ [])
unfolding temp_path split_last string_eq
both-IsApartAll = (a-IsApart, refl, (b-IsApart, refl, tt))

abbrev applied : Applied
applied = record {
  key = "cc-switch/a";
  skill_id = "a";
  content_hash = "a";
  source_path = "/stage/a";
  target_path = "/skills/a";
  backup_path = "/skills/.skill-sync-backups/1/a";
  had_existing = true;
  backup_written = true;
}

after_a : Fs ℕ
unfolding apply_item temp_path split_last string_eq
after_a = (apply_item fair "1" (item "a") disk).1

a_applied : apply_item fair "1" (item "a") disk ≡ (ok applied, after_a)
unfolding after_a
a_applied = refl

apply_item-IsInstalled_example : IsInstalled fair "1" (item "a") disk applied after_a
apply_item-IsInstalled_example =
    apply_item-IsInstalled fair "1" (item "a") disk a-IsApart applied after_a a_applied

after_b : Fs ℕ
unfolding apply_item temp_path split_last string_eq
after_b = (apply_item foul "1" (item "b") disk).1

b_failed :
    apply_item foul "1" (item "b") disk
    ≡ (err (Error.apply_error "installing failed: /skills/b"), after_b)
unfolding after_b
b_failed = refl

apply_item-restores_example :
    (after_b "/skills/b" ≡ disk "/skills/b")
    × ((p : String)
        → p ≢ "/skills/.skill-sync-backups/1/b"
        → p ≢ temp_path "/skills/b" "1"
        → after_b p ≡ disk p)
apply_item-restores_example =
    apply_item-restores foul "1" (item "b") disk b-IsApart (inl refl) refl
      (Error.apply_error "installing failed: /skills/b") after_b b_failed

b_was_there : after_b "/skills/b" ≡ some 4
unfolding after_b recover
b_was_there = refl

apply_item_half_removed_example :
    (is_some {A = Error}
        (elim (apply_item half "1" (item "a") disk).0 [ err e ↦ some e | ok _ ↦ none ])
      ≡ true)
    × ((apply_item half "1" (item "a") disk).1 "/skills/a" ≡ some 7)
    × ((apply_item half "1" (item "a") disk).1 "/skills/.skill-sync-backups/1/a" ≡ disk "/skills/a")
unfolding string_eq temp_path split_last
apply_item_half_removed_example =
    apply_item_half_removed half "1" (item "a") disk a-IsApart 7 refl refl refl refl refl refl refl

rollback_apply_record-execute_apply_plan_example :
    let (failure, record_, fs2) = execute_apply_plan weather "1" (item "a" ∷ item "b" ∷ []) disk in
    (fs3 : Fs ℕ) × (rollback_apply_record undoing record_ fs2 ≡ (ok tt, fs3))
    × SameOutside undoing weather "1" (item "a" ∷ item "b" ∷ []) disk fs3
unfolding string_eq
rollback_apply_record-execute_apply_plan_example =
    rollback_apply_record-execute_apply_plan undoing weather "1" (item "a" ∷ item "b" ∷ []) disk
      (λ a. (refl, refl)) both-IsApartAll ((refl, refl), ((refl, refl), tt))
