-- ===== src/Daemon.antt =====
-- src/skill_sync_sidecar/daemon.py: the loop over sync cycles. The cycle, the fan-out and the files
-- of base records are an argument (`Host`), and `S` is the state that they work on.
pub mod Turns
pub mod Runs
use skill_sync_sidecar.Common.{ℕ, zero, suc, ◌+◌, ◌-◌, ◌≤◌, ◌<◌, String, ◌<>◌, ◌≡◌, refl, sym}
use skill_sync_sidecar.Common.{◌∙◌, ap, ◌≢◌, ◌↔◌, ◌⊎◌, inl, inr, Bool, true, false, ◌&&◌, ◌||◌}
use skill_sync_sidecar.Common.{
  not, Option, none, some, List, [], ◌∷◌, ◌++◌, map, arith, if◌then◌else◌,
}
use skill_sync_sidecar.Common.{ltb, leb, ◌==◌, contains, option_eq, string_eq, nat_eq, Bool-cases}
use skill_sync_sidecar.Common.{
  Option-cases, truthy, or_else_text, is_some, length, select, count_if,
}
use skill_sync_sidecar.Common.{any_of, is_empty, All, Error, Result, ok, err, ◌>>=◌, ◌>>◌, require}
use skill_sync_sidecar.SyncCycle.{CycleStatus, complete, blocked, error}

-- What the daemon reads of a cycle's result.
pub record CycleReport : Type 0 where
  pub status : CycleStatus
  pub has_apply_result : Bool
  pub base_record_path : Option String
  pub record_path : Option String
  pub applied : ℕ
  pub uploaded : ℕ

-- `cycles` of the summary
pub record Cycle : Type 0 where
  pub status : CycleStatus
  pub applied : ℕ
  pub uploaded : ℕ
  pub fanned_out : Bool

-- What was last passed to `_write_state_file`.
pub record Summary : Type 0 where
  pub running : Bool
  pub current_base_record : Option String
  pub cycles_run : ℕ
  pub cycles : List Cycle
  pub active_cycle : Option ℕ

-- `run_sync_cycle` with its options, `fanout`, `Path.exists`, and `shutil.copyfile` with `replace`.
pub record Host (S : Type 0) : Type 0 where
  pub run_cycle : Option String → S → Result CycleReport × S
  pub fanout : Option (S → Result (Unit {0}) × S)
  pub exists : S → String → Bool
  pub copy_file : String → String → S → Result (Unit {0}) × S

pub record Settings : Type 0 where
  pub max_cycles : Option ℕ
  pub stop_on_blocked : Bool
  pub base_record_file : Option String

pub record Daemon (S : Type 0) : Type 0 where
  pub world : S
  pub current_base_record : Option String
  pub cycles : List Cycle
  pub sleeps : ℕ
  pub state_file : Option Summary

-- The path that `_record_successful_base` finds in the result of a complete cycle.
unfoldable pub base_path : CycleReport → Option String
base_path r = elim r.status [
  | complete ↦
      if r.has_apply_result
      then (elim (truthy r.base_record_path) [ some p ↦ some p | none ↦ truthy r.record_path ])
      else none
  | _ ↦ none
]

abbrev pub cycle_summary : CycleReport → Cycle
cycle_summary r = record {
  status = r.status;
  applied = if r.has_apply_result then r.applied else 0;
  uploaded = if r.has_apply_result then r.uploaded else 0;
  fanned_out = false;
}

abbrev pub cycle_error_summary : Cycle
cycle_error_summary = record { status = error; applied = 0; uploaded = 0; fanned_out = false }

-- `cycle["status"] in {"complete", "blocked", "dry_run"}`
abbrev pub may_fan_out : CycleStatus → Bool
may_fan_out error = false
may_fan_out _ = true

abbrev pub is_blocked : CycleStatus → Bool
is_blocked blocked = true
is_blocked _ = false

-- `max_cycles is not None and count >= max_cycles`
abbrev pub is_reached : Option ℕ → ℕ → Bool
is_reached none count = false
is_reached (some m) count = leb m count

-- How a turn of the loop ends.
pub data Ending : Type 0 where
  goes_on stops : Ending
  raises : Error → Ending

module _ {S : Type 0} (H : Host S) (settings : Settings) where
  -- `_record_successful_base`
  unfoldable pub record_successful_base : CycleReport → S → Result (Option String) × S
  record_successful_base r w = elim (base_path r) [
    | none ↦ (ok none, w)
    | some source ↦
        if not (H.exists w source) then (ok none, w) else elim settings.base_record_file [
          | none ↦ (ok (some source), w)
          | some file ↦
              let (copied, w') = H.copy_file source file w in (copied >>= (λ _. ok (some file)), w')
        ]
  ]

  -- The `try` statement: the cycle, the base record afterwards, and the state.
  unfoldable pub try_cycle : Option String → S → Cycle × Option String × S
  try_cycle base w =
      let (result, w1) = H.run_cycle base w in
      elim result [
        | err e ↦ (cycle_error_summary, base, w1)
        | ok r ↦
            let (recorded, w2) = record_successful_base r w1 in
            elim recorded [
              | err e ↦ (cycle_error_summary, base, w2)
              | ok none ↦ (cycle_summary r, base, w2)
              | ok (some next) ↦ (cycle_summary r, some next, w2)
            ]
      ]

  -- The fan-out after a cycle, if it is to run.
  unfoldable pub fan_out : Cycle → S → Result Cycle × S
  fan_out c w = elim H.fanout [
    | none ↦ (ok c, w)
    | some run ↦
        if may_fan_out c.status
        then (let (done, w') = run w in (done >>= (λ _. ok (record c { fanned_out = true })), w'))
        else (ok c, w)
  ]

  summary_of : Bool → Option String → List Cycle → Option ℕ → Summary
  summary_of running base cycles active = record {
    running = running;
    current_base_record = base;
    cycles_run = length cycles;
    cycles = cycles;
    active_cycle = active;
  }

  -- One turn of the loop.
  unfoldable pub turn : Daemon S → Ending × Daemon S
  unfolding summary_of
  turn d =
      let active = summary_of true d.current_base_record d.cycles (some (suc (length d.cycles))) in
      let (tried, base, w) = try_cycle d.current_base_record d.world in
      let (fanned, w') = fan_out tried w in
      elim fanned [
        | err e ↦ (
          raises e,
          record d { world = w'; current_base_record = base; state_file = some active },
        )
        | ok c ↦
            let cycles = d.cycles ++ (c ∷ []) in
            let d' = record d {
              world = w';
              current_base_record = base;
              cycles = cycles;
              state_file = some (summary_of true base cycles none);
            } in
            if settings.stop_on_blocked && is_blocked c.status
            then (stops, d')
            else if is_reached settings.max_cycles (length cycles)
            then (stops, d')
            else (goes_on, record d' { sleeps = suc d.sleeps })
      ]

  -- What stands after the loop.
  unfoldable pub conclude : Daemon S → Daemon S
  unfolding summary_of
  conclude d = record d { state_file = some (summary_of false d.current_base_record d.cycles none) }

  -- `run_sync_daemon`, where the fuel bounds the turns of the loop: `none` if it runs out.
  unfoldable pub run_sync_daemon : ℕ → Daemon S → Option (Option Error × Daemon S)
  run_sync_daemon zero d = none
  run_sync_daemon (suc fuel) d = elim (is_reached settings.max_cycles (length d.cycles)) [
    | true ↦ some (none, conclude d)
    | false ↦
        let (ending, d') = turn d in
        elim ending [
          | raises e ↦ some (some e, d')
          | stops ↦ some (none, conclude d')
          | goes_on ↦ run_sync_daemon fuel d'
        ]
  ]
