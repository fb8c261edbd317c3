-- ===== src/Tests/SchedulerTests.antt =====
-- src/skill_sync_sidecar/fanout.py: the scheduler on a device whose first run fails.
use skill_sync_sidecar.Common.{ℕ, zero, suc, ◌≡◌, refl}
use skill_sync_sidecar.Common.{true, false}
use skill_sync_sidecar.Common.{List, [], ◌∷◌, map}
use skill_sync_sidecar.Common.{option_eq, string_eq, nat_eq}
use skill_sync_sidecar.Common.{ok}
use skill_sync_sidecar.Fanout.Scheduler.{Device, Settings, maybe_run, new_scheduler, due, sum_of}
use skill_sync_sidecar.Fanout.Scheduler.History.{Turn, run_turns, IsJustified, is_skip}
use skill_sync_sidecar.Fanout.Scheduler.History.{run_turns-IsJustified}

-- A device whose fingerprint is the state's first number and whose clock is the second; a run takes
-- a tick, and has a failure when the fingerprint is 0.
abbrev device : Device (ℕ × ℕ)
device = record {
  fingerprint = λ (content, now). elim content [ zero ↦ ok "0" | suc n ↦ ok "1" ];
  runner = λ (content, now). (
    ok (record {
      run_id = "1";
      record_path = "/runs/1.json";
      tools =
          record { executed = 1; failed = elim content [ zero ↦ 1 | suc n ↦ 0 ]; conflicts = 0 }
          ∷ [];
    }),
    (content, suc now),
  );
  planner = λ w. ok [];
  clock = λ (content, now). now;
}

abbrev settings : Settings
settings = record { yes_ = true; interval = 10 }

abbrev worlds : List (ℕ × ℕ)
worlds = (0, 0) ∷ (0, 5) ∷ (1, 7) ∷ (1, 9) ∷ (1, 30) ∷ []

-- The first run fails, the second too, the third sees a change, the fourth skips, the fifth is late.
skips :
    map
      (λ (t : Turn (ℕ × ℕ)). is_skip t.outcome)
      (run_turns device settings worlds new_scheduler []).1
    ≡ false ∷ true ∷ false ∷ false ∷ false ∷ []
unfolding run_turns maybe_run due sum_of string_eq option_eq
skips = refl

run_turns-IsJustified_example :
    IsJustified device settings (run_turns device settings worlds new_scheduler []).1
run_turns-IsJustified_example = run_turns-IsJustified device settings worlds
