-- ===== src/Tests/DaemonTests.antt =====
-- src/skill_sync_sidecar/daemon.py on a host whose cycles raise, complete and then are blocked.
use skill_sync_sidecar.Common.{ℕ, zero, suc, ◌≡◌, refl}
use skill_sync_sidecar.Common.{◌≢◌, true}
use skill_sync_sidecar.Common.{Option, none, some, [], arith}
use skill_sync_sidecar.Common.{option_eq, string_eq, nat_eq}
use skill_sync_sidecar.Common.{length}
use skill_sync_sidecar.Common.{Error, ok, err}
use skill_sync_sidecar.SyncCycle.{CycleStatus, complete, blocked}
use skill_sync_sidecar.Common.{remote_error}
use skill_sync_sidecar.Daemon.{
  CycleReport, Host, Settings, Daemon, run_sync_daemon, turn, try_cycle,
}
use skill_sync_sidecar.Daemon.{record_successful_base, base_path, fan_out, conclude}
use skill_sync_sidecar.Daemon.Runs.{IsRun, run_sync_daemon-IsRun, run_sync_daemon-total}

abbrev report : CycleStatus → CycleReport
report status = record {
  status = status;
  has_apply_result = true;
  base_record_path = none;
  record_path = some "/bases/1.json";
  applied = 2;
  uploaded = 0;
}

-- The state counts the cycles.
abbrev host : Host ℕ
host = record {
  run_cycle = λ base n. elim n [
    | zero ↦ (err (remote_error "offline"), 1)
    | suc m ↦ elim m [ zero ↦ (ok (report complete), 2) | suc k ↦ (ok (report blocked), 3) ]
  ];
  fanout = some (λ n. (ok tt, n));
  exists = λ n path. true;
  copy_file = λ source file n. (ok tt, n);
}

abbrev settings : Settings
settings = record {
  max_cycles = some 5;
  stop_on_blocked = true;
  base_record_file = some "/base.json";
}

abbrev start : Daemon ℕ
start = record { world = 0; current_base_record = none; cycles = []; sleeps = 0; state_file = none }

unfoldable whole : Option (Option Error × Daemon ℕ)
unfolding run_sync_daemon turn try_cycle record_successful_base base_path fan_out conclude nat_eq
    string_eq
whole = run_sync_daemon host settings 6 start

last : Daemon ℕ
unfolding whole
last = elim whole [ none ↦ start | some (e, d) ↦ d ]

three_cycles :
    (length last.cycles ≡ 3) × (last.sleeps ≡ 2) × (last.current_base_record ≡ some "/base.json")
unfolding last
three_cycles = (refl, refl, refl)

ran : run_sync_daemon host settings 6 start ≡ some (none, last)
unfolding last
ran = refl

run_sync_daemon-IsRun_example : IsRun host settings start last
run_sync_daemon-IsRun_example = run_sync_daemon-IsRun host settings 6 start last ran

run_sync_daemon-total_example : run_sync_daemon host settings 6 start ≢ none
run_sync_daemon-total_example = run_sync_daemon-total host settings 5 5 start refl (omega arith)
