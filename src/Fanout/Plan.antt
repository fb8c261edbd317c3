-- ===== src/Fanout/Plan.antt =====
-- src/skill_sync_sidecar/fanout.py: what is to be done with the entries of a tool's directory.
pub mod Composes
pub mod Converges
pub mod Fits
pub mod Refusal
use skill_sync_sidecar.Common.{ℕ, zero, suc, ◌+◌, ◌-◌, ◌≤◌, ◌<◌, String, ◌<>◌, ◌≡◌, refl, sym}
use skill_sync_sidecar.Common.{◌∙◌, ap, ◌≢◌, ◌↔◌, ◌⊎◌, inl, inr, Bool, true, false, ◌&&◌, ◌||◌}
use skill_sync_sidecar.Common.{
  not, Option, none, some, List, [], ◌∷◌, ◌++◌, map, arith, if◌then◌else◌,
}
use skill_sync_sidecar.Common.{ltb, leb, ◌==◌, contains, option_eq, string_eq, nat_eq, Bool-cases}
use skill_sync_sidecar.Common.{
  Option-cases, truthy, or_else_text, is_some, length, select, count_if,
}
use skill_sync_sidecar.Common.{any_of, is_empty, All, Error, Result, ok, err, ◌>>=◌, ◌>>◌, require}
use skill_sync_sidecar.Common.Dict.{Dict, lookup}
use skill_sync_sidecar.Common.Tally.{tally}
use skill_sync_sidecar.Common.Sorting.{sort_by}
use skill_sync_sidecar.Common.Text.{starts_with}
use skill_sync_sidecar.Fanout.{Tree, Thing, file, directory, Entry, symlink, thing, Disk, within}
use skill_sync_sidecar.Fanout.{entry_hash, same_content, led_to}
use skill_sync_sidecar.Fanout.Items.{Mode, link_mode, copy_mode, FanoutTool}
use skill_sync_sidecar.Fanout.Items.{Action, link, relink, replace_dir_with_link}
use skill_sync_sidecar.Fanout.Items.{copy, update_copy, adopt, replace_link_with_copy}
use skill_sync_sidecar.Fanout.Items.{remove_dangling_link, remove_copy, up_to_date, conflict}
use skill_sync_sidecar.Fanout.Items.{foreign_link, action_name, is_noop, planned_hash}
use skill_sync_sidecar.Fanout.Items.{FanoutSkill, FanoutItem, is_link_mode, Directory}
use skill_sync_sidecar.Fanout.Items.{source_entry, declared_targets, ToolPlan}

-- The action for a directory in copy mode, by its recorded, current and canonical hash.
unfoldable pub copy_action :
    Option String → Option String → Option String → Bool → Action × Option String
copy_action recorded current canonical_hash same =
    if current == canonical_hash || (not (is_some recorded) && same)
    then (if recorded == current then up_to_date else adopt, none)
    else if is_some recorded && recorded == current
    then (update_copy, none)
    else (
      conflict,
      some "existing directory differs from canonical and is not a copy the sidecar recorded",
    )

module _ (D : Disk) where
  module _ (canonical : String) (adoptable_roots : List String) (tool : FanoutTool) where
    -- `_skill_decision`: why a skill is not placed.
    unfoldable pub skill_decision : FanoutSkill → Option Entry → Option String
    skill_decision skill entry =
        if not (skill.parent == canonical)
        then some "inside_another_skill"
        else if not (skill.scope == "global")
        then some "project_scope"
        else if skill.risk_level == "error"
        then some "risk_error"
        else elim (declared_targets skill) [
          | none ↦ if is_some entry then none else some "undeclared_not_present"
          | some declared ↦
              if any_of (contains tool.aliases) declared then none else some "not_targeted"
        ]

    -- The action for a link, and the reason of a conflict.
    unfoldable pub link_action : String → Option String → FanoutSkill → Action × Option String
    link_action raw canonical_hash skill =
        let target = D.real raw in
        let replace = if is_link_mode tool.mode then relink else replace_link_with_copy in
        let same = same_content D (some (symlink raw)) canonical_hash (source_entry D skill.path) in
        if target == skill.path
        then (if is_link_mode tool.mode then up_to_date else replace_link_with_copy, none)
        else if within target canonical
        then (replace, none)
        else if not (any_of (λ root. is_some (D.at root) && within target root) adoptable_roots)
        then (foreign_link, none)
        else if same
        then (replace, none)
        else (conflict, some "linked content differs from canonical")

    -- The action for a directory.
    unfoldable pub directory_action :
        Dict String String → String → Tree → Option String → FanoutSkill → Action × Option String
    directory_action ledger name t canonical_hash skill =
        let entry = some (thing (directory t)) in
        let same = same_content D entry canonical_hash (source_entry D skill.path) in
        if not (is_link_mode tool.mode)
        then copy_action (lookup name ledger) (entry_hash D entry) canonical_hash same
        else if same
        then (replace_dir_with_link, none)
        else (conflict, some "existing directory differs from canonical")

    -- `_plan_entry`
    unfoldable pub plan_entry : Dict String String → FanoutSkill → Option Entry → FanoutItem
    plan_entry ledger skill entry =
        let canonical_hash = entry_hash D (source_entry D skill.path) in
        let item : FanoutItem = record {
          name = skill.name;
          action = conflict;
          risk_level = some skill.risk_level;
          content_hash = canonical_hash;
          source_path = skill.path;
          link_target = none;
          reason = none;
        } in
        elim entry [
          | none ↦ record item { action = if is_link_mode tool.mode then link else copy }
          | some e ↦ elim e [
            | symlink raw ↦
                let (action, reason) = link_action raw canonical_hash skill in
                record item { action = action; reason = reason; link_target = some raw }
            | thing x ↦ elim x [
              | file ↦ record item { reason = some "a non-directory is in the way" }
              | directory t ↦
                  let (action, reason) =
                    directory_action ledger skill.name t canonical_hash skill in
                  record item {
                    action = action;
                    reason = reason;
                    content_hash =
                        planned_hash action (entry_hash D (some (thing (directory t))))
                          canonical_hash;
                  }
            ]
          ]
        ]

    -- What `_removals` makes of one entry of the directory, where `given` is the canonical root as it
    -- was given, unresolved.
    unfoldable pub removal : String → Dict String String → String → Option Entry → Option FanoutItem
    removal given ledger name entry =
        let item : FanoutItem = record {
          name = name;
          action = conflict;
          risk_level = none;
          content_hash = none;
          source_path = "";
          link_target = none;
          reason = none;
        } in
        elim entry [
          | none ↦ none
          | some e ↦ elim e [
            | symlink raw ↦
                if (within (D.normal raw) given || within (D.normal raw) canonical)
                  && not (is_some (D.at (D.real raw)))
                then some (record item { action = remove_dangling_link; link_target = some raw })
                else none
            | thing x ↦ elim x [
              | file ↦ none
              | directory t ↦
                  if not (is_link_mode tool.mode) && is_some (lookup name ledger)
                  then (if entry_hash D (some (thing (directory t))) == lookup name ledger
                      then some (record item { action = remove_copy })
                      else some
                          (record item { reason = some "recorded copy was modified; not removed" }))
                  else none
            ]
          ]
        ]

    -- `_removals`, over the names of the directory in their order
    unfoldable pub removals :
        String → Dict String String → Directory → List String → List String → List FanoutItem
    unfolding starts_with
    removals given ledger entries wanted [] = []
    removals given ledger entries wanted (name ∷ names) =
        let rest = removals given ledger entries wanted names in
        if starts_with "." name || contains wanted name
        then rest
        else elim (removal given ledger name (entries name)) [
          | none ↦ rest
          | some item ↦ item ∷ rest
        ]

    -- The loop over the skills: the items, and the reasons of those not placed.
    unfoldable pub place_skills :
        Dict String String → Directory → List FanoutSkill → List FanoutItem × List String
    place_skills ledger entries [] = ([], [])
    place_skills ledger entries (skill ∷ skills) =
        let (items, reasons) = place_skills ledger entries skills in
        elim (skill_decision skill (entries skill.name)) [
          | some reason ↦ (items, reason ∷ reasons)
          | none ↦ (plan_entry ledger skill (entries skill.name) ∷ items, reasons)
        ]

    unfoldable pub plan_items :
        String → Dict String String → Directory → List String → List FanoutSkill → List FanoutItem
    plan_items given ledger entries names skills =
        let placed = (place_skills ledger entries skills).0 in
        placed ++ removals given ledger entries (map (λ item. item.name) placed) names

    unfoldable pub tool_plan :
        String → Dict String String → Directory → List String → List FanoutSkill → ToolPlan
    tool_plan given ledger entries names skills =
        let items = plan_items given ledger entries names skills in
        record {
          summary = tally (map (λ item. action_name item.action) items);
          not_placed = tally (place_skills ledger entries skills).1;
          warnings =
              sort_by (λ n. n)
                (map (λ item. item.name)
                  (select (λ item. item.risk_level == some "warning" && not (is_noop item.action))
                    items));
          items = items;
        }
