-- ===== src/Fanout/Scheduler.antt =====
-- src/skill_sync_sidecar/fanout.py: `FanoutScheduler`, which the daemon calls once in a cycle. `S`
-- is the state of the device; time is counted in ticks of the clock.
pub mod History
use skill_sync_sidecar.Common.{ℕ, zero, suc, ◌+◌, ◌-◌, ◌≤◌, ◌<◌, String, ◌<>◌, ◌≡◌, refl, sym}
use skill_sync_sidecar.Common.{◌∙◌, ap, ◌≢◌, ◌↔◌, ◌⊎◌, inl, inr, Bool, true, false, ◌&&◌, ◌||◌}
use skill_sync_sidecar.Common.{
  not, Option, none, some, List, [], ◌∷◌, ◌++◌, map, arith, if◌then◌else◌,
}
use skill_sync_sidecar.Common.{ltb, leb, ◌==◌, contains, option_eq, string_eq, nat_eq, Bool-cases}
use skill_sync_sidecar.Common.{
  Option-cases, truthy, or_else_text, is_some, length, select, count_if,
}
use skill_sync_sidecar.Common.{any_of, is_empty, All, Error, Result, ok, err, ◌>>=◌, ◌>>◌, require}
use skill_sync_sidecar.Common.Dict.{Dict}

-- What the scheduler reads of a tool's report, and of a run's record.
pub record ToolCounts : Type 0 where
  pub executed : ℕ
  pub failed : ℕ
  pub conflicts : ℕ

pub record RunRecord : Type 0 where
  pub run_id : String
  pub record_path : String
  pub tools : List ToolCounts

-- `canonical_fingerprint`, `run_fanout`, `build_fanout_plan` (the tools' summaries) and the clock.
pub record Device (S : Type 0) : Type 0 where
  pub fingerprint : S → Result String
  pub runner : S → Result RunRecord × S
  pub planner : S → Result (List (Dict String ℕ))
  pub clock : S → ℕ

pub record Settings : Type 0 where
  pub yes_ : Bool
  pub interval : ℕ

pub record Scheduler : Type 0 where
  pub last_fingerprint : Option String
  pub last_at : Option ℕ
  pub last_failed : Bool

abbrev pub new_scheduler : Scheduler
new_scheduler = record { last_fingerprint = none; last_at = none; last_failed = false }

pub data Outcome : Type 0 where
  skipped : Outcome
  planned : String → ℕ → Outcome
  ran : String → RunRecord → ℕ → ℕ → ℕ → Outcome
  error : Error → Outcome

unfoldable pub sum_of : (ToolCounts → ℕ) → List ToolCounts → ℕ
sum_of f [] = 0
sum_of f (t ∷ ts) = f t + sum_of f ts

-- The changes that a tool's summary counts, and that all of them count.
unfoldable pub changes_in : Dict String ℕ → ℕ
changes_in [] = 0
changes_in ((action, count) ∷ rest) =
    let more = changes_in rest in
    if contains ("ok" ∷ "conflict" ∷ "foreign_link" ∷ []) action then more else count + more

unfoldable pub all_changes : List (Dict String ℕ) → ℕ
unfolding changes_in
all_changes [] = 0
all_changes (summary ∷ rest) = changes_in summary + all_changes rest

module _ {S : Type 0} (D : Device S) (settings : Settings) where
  -- `_due`
  unfoldable pub due : Scheduler → String → S → Option String
  due s fingerprint w = elim s.last_at [
    | none ↦ some "first run"
    | some at ↦
        if s.last_failed
        then some "previous run had failures"
        else if not (some fingerprint == s.last_fingerprint)
        then some "canonical changed"
        else if leb (at + settings.interval) (D.clock w)
        then some "periodic check"
        else none
  ]

  -- The `except` branch.
  failure : Scheduler → Error → S → Outcome × Scheduler × S
  failure s e w = (error e, record s { last_failed = true; last_at = some (D.clock w) }, w)

  -- What stands after the `try` statement.
  success : String → ℕ → Outcome → S → Outcome × Scheduler × S
  success fingerprint failed outcome w = (
    outcome,
    record {
      last_fingerprint = some fingerprint;
      last_at = some (D.clock w);
      last_failed = ltb 0 failed;
    },
    w,
  )

  act : Scheduler → String → String → S → Outcome × Scheduler × S
  unfolding failure success
  act s fingerprint reason w =
      if not settings.yes_
      then elim (D.planner w) [
        | err e ↦ failure s e w
        | ok summaries ↦ success fingerprint 0 (planned reason (all_changes summaries)) w
      ]
      else (let (result, w') = D.runner w in
          elim result [
            | err e ↦ failure s e w'
            | ok r ↦
                let failed = sum_of (λ t. t.failed) r.tools in
                success fingerprint failed
                  (ran reason r (sum_of (λ t. t.executed) r.tools) failed
                    (sum_of (λ t. t.conflicts) r.tools))
                  w'
          ])

  -- `maybe_run`
  unfoldable pub maybe_run : Scheduler → S → Outcome × Scheduler × S
  unfolding act failure success
  maybe_run s w = elim (D.fingerprint w) [
    | err e ↦ failure s e w
    | ok fingerprint ↦ elim (due s fingerprint w) [
      | none ↦ (skipped, s, w)
      | some reason ↦ act s fingerprint reason w
    ]
  ]
