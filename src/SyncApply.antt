-- ===== src/SyncApply.antt =====
-- src/skill_sync_sidecar/sync_apply.py: what `build_sync_apply_preview` finds that a plan would do
-- to a target. The execution is in SyncApply/Execute.
pub mod Execute
pub mod Supported
use skill_sync_sidecar.Common.{ℕ, zero, suc, ◌+◌, ◌-◌, ◌≤◌, ◌<◌, String, ◌<>◌, ◌≡◌, refl, sym}
use skill_sync_sidecar.Common.{◌∙◌, ap, ◌≢◌, ◌↔◌, ◌⊎◌, inl, inr, Bool, true, false, ◌&&◌, ◌||◌}
use skill_sync_sidecar.Common.{
  not, Option, none, some, List, [], ◌∷◌, ◌++◌, map, arith, if◌then◌else◌,
}
use skill_sync_sidecar.Common.{ltb, leb, ◌==◌, contains, option_eq, string_eq, nat_eq, Bool-cases}
use skill_sync_sidecar.Common.{
  Option-cases, truthy, or_else_text, is_some, length, select, count_if,
}
use skill_sync_sidecar.Common.{any_of, is_empty, All, Error, Result, ok, err, ◌>>=◌, ◌>>◌, require}
use skill_sync_sidecar.Common.{sync_apply_error}
use skill_sync_sidecar.Common.Dict.{Dict, lookup, insert}
use skill_sync_sidecar.Common.Text.{strip, lower}
use skill_sync_sidecar.Skill.{Entry, Index}
use skill_sync_sidecar.SyncState.Overrides.{Projections}
use skill_sync_sidecar.SyncState.Status.{Inputs, Status, build_sync_status}
use skill_sync_sidecar.SyncPlan.{PlanAction, SyncPlanItem, SyncPlan, build_sync_plan}

-- `TARGET_SCOPES`
abbrev pub target_scopes : Dict String (Option String)
target_scopes =
    ("cc-switch-global", some "global")
    ∷ ("skillshub-global", some "global")
    ∷ ("codex-global", some "global")
    ∷ ("cursor-global", some "global")
    ∷ ("claude-code-global", some "global")
    ∷ ("qoder-global", some "global")
    ∷ ("deepseek-harness-global", some "global")
    ∷ ("codex-project", some "project")
    ∷ ("mixed-scope-root", none)
    ∷ []

-- `TARGET_ALIASES`
abbrev pub target_aliases : Dict String (List String)
target_aliases =
    ("cc-switch-global", "cc-switch" ∷ [])
    ∷ ("skillshub-global", "skillshub" ∷ [])
    ∷ ("codex-global", "codex" ∷ [])
    ∷ ("cursor-global", "cursor" ∷ [])
    ∷ ("claude-code-global", "claude-code" ∷ "claude" ∷ [])
    ∷ ("qoder-global", "qoder" ∷ [])
    ∷ ("deepseek-harness-global", "deepseek-harness" ∷ "deepseek" ∷ [])
    ∷ ("codex-project", "codex" ∷ [])
    ∷ ("mixed-scope-root", [])
    ∷ []

unfoldable pub expected_scope : String → Result (Option String)
expected_scope target = elim (lookup target target_scopes) [
  | some scope ↦ ok scope
  | none ↦ err (sync_apply_error ("unsupported sync-apply target: " <> target))
]

unfoldable pub allowed_scopes : String → Result (List String)
allowed_scopes target = do
  expected ← expected_scope target
  ok (elim expected [ none ↦ "global" ∷ "project" ∷ [] | some scope ↦ scope ∷ [] ])

-- The aliases of a target, or the empty set.
aliases_of : String → List String
aliases_of target = elim (lookup target target_aliases) [ none ↦ [] | some names ↦ names ]

unfoldable pub targets_tool : List String → String → Bool
unfolding aliases_of
targets_tool targets target =
    is_empty (aliases_of target)
    || is_empty targets
    || any_of (λ t. contains (aliases_of target) (lower (strip t))) targets

-- `PULL_ACTIONS`, `PUSH_ACTIONS` and `SUPPORTED_ACTIONS`
abbrev pub is_pull : PlanAction → Bool
is_pull PlanAction.pull = true
is_pull PlanAction.pull_new = true
is_pull _ = false

abbrev pub is_push : PlanAction → Bool
is_push PlanAction.push = true
is_push PlanAction.push_new = true
is_push _ = false

abbrev pub is_supported : PlanAction → Bool
is_supported PlanAction.noop = true
is_supported a = is_pull a || is_push a

pub data ApplyAction : Type 0 where
  nothing install_or_replace upload_snapshot : ApplyAction

-- An item of the preview, with what it adds to the counters.
pub record PreviewItem : Type 0 where
  pub item : SyncPlanItem
  pub remote_scope : String
  pub remote_targets : List String
  pub sync_apply_action : ApplyAction
  pub sync_apply_supported : Bool
  pub sync_apply_reason : String

-- The loop over the index of `_remote_entries_by_skill_id`; a later entry replaces an earlier one.
remote_loop : List Entry → Dict String Entry → Dict String Entry
remote_loop [] entries = entries
remote_loop (e ∷ es) entries =
    remote_loop es (elim (truthy e.skill_id) [ none ↦ entries | some k ↦ insert k e entries ])

unfoldable pub remote_entries_by_skill_id : Option Index → Dict String Entry
unfolding remote_loop
remote_entries_by_skill_id none = []
remote_entries_by_skill_id (some index) = remote_loop index.skills []

scope_of : Option Entry → String
scope_of none = "global"
scope_of (some e) = or_else_text e.scope "global"

targets_of : Option Entry → List String
targets_of none = []
targets_of (some e) = e.targets

-- One turn of the loop of `build_sync_apply_preview`: the item, and what it adds to `executable`
-- and to `unsupported`.
unfoldable pub enrich : List String → String → Option Entry → SyncPlanItem → PreviewItem × ℕ × ℕ
unfolding scope_of targets_of
enrich scopes target remote item =
    let scope = scope_of remote in
    let targets = targets_of remote in
    let plain : PreviewItem = record {
      item = item;
      remote_scope = scope;
      remote_targets = targets;
      sync_apply_action = nothing;
      sync_apply_supported = true;
      sync_apply_reason = item.reason;
    } in
    if not item.allowed
    then (record plain { sync_apply_supported = false }, 0, 0)
    else if is_pull item.plan_action
    then if not (contains scopes scope)
      then (
        record plain {
          sync_apply_supported = false;
          sync_apply_reason = scope <> ("-scoped skills are not installed into " <> target);
        },
        0,
        1,
      )
      else if not (targets_tool targets target)
      then (
        record plain {
          sync_apply_supported = false;
          sync_apply_reason = "manifest targets do not include " <> target;
        },
        0,
        1,
      )
      else (record plain { sync_apply_action = install_or_replace }, 1, 0)
    else if is_push item.plan_action
    then (record plain { sync_apply_action = upload_snapshot }, 1, 0)
    else if not (is_supported item.plan_action)
    then (
      record plain {
        sync_apply_supported = false;
        sync_apply_reason = "sync-apply currently supports pull/pull_new/push/push_new/noop only";
      },
      0,
      1,
    )
    else (plain, 0, 0)

-- The loop: the items, `executable` and `unsupported`.
unfoldable pub enrich_all :
    List String → String → Dict String Entry → List SyncPlanItem → List PreviewItem × ℕ × ℕ
enrich_all scopes target remote [] = ([], 0, 0)
enrich_all scopes target remote (item ∷ items) =
    let (p, x, u) = enrich scopes target (lookup item.skill_id remote) item in
    let (ps, xs, us) = enrich_all scopes target remote items in (p ∷ ps, x + xs, u + us)

pub record Preview : Type 0 where
  pub plan : SyncPlan
  pub executable : ℕ
  pub unsupported : ℕ
  pub supported_to_apply : Bool
  pub items : List PreviewItem

unfoldable pub preview_of : List String → String → Dict String Entry → SyncPlan → Preview
preview_of scopes target remote plan =
    let (items, executable, unsupported) = enrich_all scopes target remote plan.items in
    record {
      plan = plan;
      executable = executable;
      unsupported = unsupported;
      supported_to_apply = plan.blocked == 0 && unsupported == 0;
      items = items;
    }

-- The options of a run
pub record Options : Type 0 where
  pub allow_new : Bool
  pub allow_delete : Bool
  pub writer_policy : String
  pub target : String

unfoldable pub build_sync_apply_preview : Projections → Inputs → Options → Result Preview
build_sync_apply_preview P i o = do
  scopes ← allowed_scopes o.target
  status ← build_sync_status P i
  plan ← build_sync_plan o.allow_new o.allow_delete o.writer_policy status
  ok (preview_of scopes o.target (remote_entries_by_skill_id i.index) plan)
