-- ===== src/Fanout/Run.antt =====
-- src/skill_sync_sidecar/fanout.py: `build_fanout_plan` and `run_fanout` over all tools. The state
-- gives each tool, by its id, its place.
pub mod Accounts
pub mod Final
pub mod Undo
use skill_sync_sidecar.Common.{ℕ, zero, suc, ◌+◌, ◌-◌, ◌≤◌, ◌<◌, String, ◌<>◌, ◌≡◌, refl, sym}
use skill_sync_sidecar.Common.{◌∙◌, ap, ◌≢◌, ◌↔◌, ◌⊎◌, inl, inr, Bool, true, false, ◌&&◌, ◌||◌}
use skill_sync_sidecar.Common.{
  not, Option, none, some, List, [], ◌∷◌, ◌++◌, map, arith, if◌then◌else◌,
}
use skill_sync_sidecar.Common.{ltb, leb, ◌==◌, contains, option_eq, string_eq, nat_eq, Bool-cases}
use skill_sync_sidecar.Common.{
  Option-cases, truthy, or_else_text, is_some, length, select, count_if,
}
use skill_sync_sidecar.Common.{any_of, is_empty, All, Error, Result, ok, err, ◌>>=◌, ◌>>◌, require}
use skill_sync_sidecar.Common.{fanout_error}
use skill_sync_sidecar.Common.Dict.{Dict}
use skill_sync_sidecar.Common.Sorting.{sorted_texts}
use skill_sync_sidecar.Fanout.{Disk}
use skill_sync_sidecar.Fanout.Items.{FanoutTool, FanoutSkill, FanoutItem, ToolPlan}
use skill_sync_sidecar.Fanout.Plan.{tool_plan}
use skill_sync_sidecar.Fanout.Items.{is_link_mode, Action, up_to_date, link}
use skill_sync_sidecar.Fanout.Items.{relink, conflict}
use skill_sync_sidecar.Fanout.Items.{replace_dir_with_link}
use skill_sync_sidecar.Fanout.Execute.{Place, Luck, Done, execute_items, ToolRun}
use skill_sync_sidecar.Fanout.Tools.{chosen_tools}
use skill_sync_sidecar.Fanout.Rollback.{Undone, rollback_tool}
use mathlib.Core.List.{reverse}

-- What the code finds around the tools' places: the disk, the canonical root, resolved and as it is
-- given, its skills, and of each tool its resolved root, whether that is there, the names in it, in
-- their order, whether another process holds its lock for too long, whether its ledger cannot be
-- read, and whether it cannot be saved; and what raises at the end of the run, before its record is
-- there (write protection, pruning the backups, writing the record) and after (pruning records).
pub record Around : Type 0 where
  pub disk : Disk
  pub canonical : String
  pub given : String
  pub roots : List String
  pub skills : List FanoutSkill
  pub real_root : FanoutTool → String
  pub has_root : FanoutTool → Bool
  pub listing : FanoutTool → Place → List String
  pub is_locked : FanoutTool → Bool
  pub bad_ledger : FanoutTool → Option Error
  pub unsaved : FanoutTool → Option Error
  pub unfinished : Option Error
  pub unpruned : Option Error

abbrev pub Places : Type 0
Places = String → Place

abbrev pub set_place : String → Place → Places → Places
set_place i p places j = if j == i then p else places j

-- A tool's report in a run's record.
pub record RanTool : Type 0 where
  pub tool_id : String
  pub is_copy : Bool
  pub ledger_before : Dict String String
  pub executed : List Done
  pub failures : List String
  pub summary : Dict String ℕ
  pub conflicts : List String

pub data ToolReport : Type 0 where
  skipped_tool : String → String → ToolReport
  ran_tool : RanTool → ToolReport

pub data PlanReport : Type 0 where
  skipped_plan : String → String → PlanReport
  planned_tool : String → ToolPlan → PlanReport

-- The record that `run_fanout` writes in its `finally` block.
pub record FanoutRecord : Type 0 where
  pub tools : List ToolReport
  pub is_protected : Bool

module _ (A : Around) where
  -- `report["skipped"]`
  unfoldable pub skip_reason : FanoutTool → Option String
  skip_reason tool =
      if A.real_root tool == A.canonical
      then some "tool root is the canonical root"
      else if not (A.has_root tool)
      then some "tool root not found on this device"
      else none

  -- The ledger is read in copy mode only.
  abbrev pub ledger_of : FanoutTool → Place → Dict String String
  ledger_of tool p = if is_link_mode tool.mode then [] else p.ledger

  unfoldable pub plan_of : FanoutTool → Place → ToolPlan
  plan_of tool p =
      tool_plan A.disk A.canonical A.roots tool A.given (ledger_of tool p) p.entries
        (A.listing tool p) A.skills

  -- `build_fanout_plan`, with ledgers that can be read
  unfoldable pub plan_tools : List FanoutTool → Places → List PlanReport
  plan_tools [] places = []
  plan_tools (tool ∷ tools) places =
      let rest = plan_tools tools places in
      elim (skip_reason tool) [
        | some reason ↦ skipped_plan tool.tool_id reason ∷ rest
        | none ↦ planned_tool tool.tool_id (plan_of tool (places tool.tool_id)) ∷ rest
      ]

  unfoldable pub build_fanout_plan :
      List FanoutTool → Option (List String) → Places → Result (List PlanReport)
  build_fanout_plan tools tool_ids places =
      chosen_tools tool_ids tools >>= (λ chosen. ok (plan_tools chosen places))

  -- `action in {"ok", "link", "relink", "replace_dir_with_link"}`
  abbrev is_linked : Action → Bool
  is_linked up_to_date = true
  is_linked link = true
  is_linked relink = true
  is_linked replace_dir_with_link = true
  is_linked _ = false

  abbrev is_conflict : Action → Bool
  is_conflict conflict = true
  is_conflict _ = false

  module _ (luck : FanoutTool → FanoutItem → Luck) (run_id : String) where
    -- The body of the `with` statement for a tool that is not skipped, and whether it sets
    -- `linked_any`.
    unfoldable pub run_tool : FanoutTool → Place → RanTool × Bool × Place
    unfolding plan_of
    run_tool tool p =
        let ledger = ledger_of tool p in
        let plan = plan_of tool p in
        let run =
          execute_items A.disk (luck tool) run_id plan.items (record p { ledger = ledger }) in
        let report : RanTool = record {
          tool_id = tool.tool_id;
          is_copy = not (is_link_mode tool.mode);
          ledger_before = ledger;
          executed = run.executed;
          failures = run.failures;
          summary = plan.summary;
          conflicts =
              sorted_texts (map (λ i. i.name) (select (λ i. is_conflict i.action) plan.items));
        } in
        (
          report,
          is_link_mode tool.mode && any_of (λ i. is_linked i.action) plan.items,
          if is_link_mode tool.mode then record run.place { ledger = p.ledger } else run.place,
        )

    -- `_save_ledger`, which raises or replaces the ledger as a whole; in copy mode only
    unfoldable pub save_fails : FanoutTool → Option Error
    save_fails tool = if is_link_mode tool.mode then none else A.unsaved tool

    -- The tool's place when its ledger has not been saved.
    abbrev pub with_old_ledger : Place → Place → Place
    with_old_ledger old p = record p { ledger = old.ledger }

    -- What may raise before a tool is planned: its lock and its ledger.
    unfoldable pub admitted : FanoutTool → Option Error
    admitted tool =
        if A.is_locked tool
        then some (fanout_error ("another fanout is writing " <> tool.tool_id))
        else if is_link_mode tool.mode
        then none
        else A.bad_ledger tool

    -- The loop over the tools: the reports, `linked_any`, and the exception that ended it.
    unfoldable pub run_tools :
        List FanoutTool → Places → List ToolReport × Bool × Option Error × Places
    run_tools [] places = ([], false, none, places)
    run_tools (tool ∷ tools) places =
        let (skipped, linked, failure, left) = run_tools tools places in
        let (report, links, p) = run_tool tool (places tool.tool_id) in
        let (reports, linked', failure', left') =
          run_tools tools (set_place tool.tool_id p places) in
        elim (admitted tool) [
          | some e ↦ ([], false, some e, places)
          | none ↦ elim (skip_reason tool) [
            | some reason ↦ (skipped_tool tool.tool_id reason ∷ skipped, linked, failure, left)
            | none ↦ elim (save_fails tool) [
              | some e ↦ (
                [],
                false,
                some e,
                set_place tool.tool_id (with_old_ledger (places tool.tool_id) p) places,
              )
              | none ↦ (ran_tool report ∷ reports, links || linked', failure', left')
            ]
          ]
        ]

    -- The exception that leaves the call: a later one takes the place of an earlier one.
    abbrev pub last_error : Option Error → Option Error → Option Error
    last_error failure none = failure
    last_error failure (some e) = some e

    -- The `finally` block: what the call raises, and the record if it has been written.
    unfoldable pub finish : Option Error → FanoutRecord → Option Error × Option FanoutRecord
    finish failure r = elim A.unfinished [
      | some e ↦ (some e, none)
      | none ↦ (last_error failure A.unpruned, some r)
    ]

    -- `run_fanout` with `yes=True`: what it raises, the record that it has written by then, and what
    -- it leaves. What the code prunes then are backups and records of older runs.
    unfoldable pub run_fanout :
        Bool
        → List FanoutTool
        → Option (List String)
        → Places
        → Option Error × Option FanoutRecord × Places
    run_fanout protect tools tool_ids places = elim (chosen_tools tool_ids tools) [
      | err e ↦ (some e, none, places)
      | ok chosen ↦
          let (reports, linked, failure, left) = run_tools chosen places in
          let (raised, written) =
            finish failure (record { tools = reports; is_protected = linked && protect }) in
          (raised, written, left)
    ]

  -- The locks that other processes hold during a rollback.
  module _ (is_held : String → Bool) where
    -- The loop of `rollback_fanout` over the reports, in the order in which it visits them.
    unfoldable pub roll_back_reports :
        Bool → List ToolReport → Places → Option Error × List Undone × Places
    roll_back_reports yes_ [] places = (none, [], places)
    roll_back_reports yes_ (report ∷ reports) places = elim report [
      | skipped_tool i reason ↦ roll_back_reports yes_ reports places
      | ran_tool r ↦
          let (outcomes, p) =
            rollback_tool A.disk A.canonical yes_ r.is_copy r.ledger_before r.executed
              (places r.tool_id) in
          let (failure, more, left) =
            roll_back_reports yes_ reports (set_place r.tool_id p places) in
          if is_held r.tool_id
          then (some (fanout_error ("another fanout is writing " <> r.tool_id)), [], places)
          else (failure, outcomes ++ more, left)
    ]

    -- `rollback_fanout`
    unfoldable pub rollback_fanout :
        Bool → FanoutRecord → Places → Option Error × List Undone × Places
    rollback_fanout yes_ r places = roll_back_reports yes_ (reverse r.tools) places
