-- ===== src/Reconcile/Gate.antt =====
-- src/skill_sync_sidecar/openclaw_gate.py: whether a reconcile report lets an unattended run go on.
pub mod Agreement
pub mod Statuses
use skill_sync_sidecar.Common.{ℕ, zero, suc, ◌+◌, ◌-◌, ◌≤◌, ◌<◌, String, ◌<>◌, ◌≡◌, refl, sym}
use skill_sync_sidecar.Common.{◌∙◌, ap, ◌≢◌, ◌↔◌, ◌⊎◌, inl, inr, Bool, true, false, ◌&&◌, ◌||◌}
use skill_sync_sidecar.Common.{
  not, Option, none, some, List, [], ◌∷◌, ◌++◌, map, arith, if◌then◌else◌,
}
use skill_sync_sidecar.Common.{ltb, leb, ◌==◌, contains, option_eq, string_eq, nat_eq, Bool-cases}
use skill_sync_sidecar.Common.{
  Option-cases, truthy, or_else_text, is_some, length, select, count_if,
}
use skill_sync_sidecar.Common.{any_of, is_empty, All, Error, Result, ok, err, ◌>>=◌, ◌>>◌, require}
use skill_sync_sidecar.Common.Dict.{Dict, lookup}
use skill_sync_sidecar.Common.Tally.{or_zero}
use skill_sync_sidecar.Reconcile.{ReconcileReport, Changes}

-- What the gate reads of a report's JSON text.
pub record GateReport : Type 0 where
  pub safe_to_auto_apply : Bool
  pub summary : Dict String ℕ
  pub changed_count : Option ℕ

-- The report that was selected: by its path, or as the latest below a root.
pub data Selected : Type 0 where
  no_report : Selected
  unreadable : String → Selected
  loaded : GateReport → Selected

pub record Gate : Type 0 where
  pub is_ok : Bool
  pub available : Bool
  pub blockers : List String

-- `if count: blockers.append(…)`
abbrev pub block_if : ℕ → String → List String → List String
block_if count text rest = if count == 0 then rest else text ∷ rest

abbrev pub count_of : String → GateReport → ℕ
count_of key r = or_zero (lookup key r.summary)

abbrev pub changed_or_zero : Option ℕ → ℕ
changed_or_zero none = 0
changed_or_zero (some n) = n

-- `_blockers`; the counts in their texts are left out.
unfoldable pub blockers : GateReport → Bool → List String
blockers r require_complete =
    let complete =
      if require_complete then block_if (count_of "remote_new" r) "remote_new" [] else [] in
    let rest = block_if (count_of "conflict" r) "conflict" (
      block_if (count_of "local_new" r) "local_new"
        (block_if (changed_or_zero r.changed_count) "changed_since_previous" complete)) in
    if r.safe_to_auto_apply then rest else "safe_to_auto_apply=false" ∷ rest

-- `build_openclaw_gate`
unfoldable pub build_openclaw_gate : Selected → Bool → Gate
build_openclaw_gate no_report complete = record { is_ok = true; available = false; blockers = [] }
build_openclaw_gate (unreadable e) complete = record {
  is_ok = false;
  available = false;
  blockers = [];
}
build_openclaw_gate (loaded r) complete = record {
  is_ok = is_empty (blockers r complete);
  available = true;
  blockers = blockers r complete;
}

-- A reconcile report as it is read back from its file.
unfoldable pub read_back : ReconcileReport → GateReport
read_back r = record {
  safe_to_auto_apply = r.safe_to_auto_apply;
  summary = r.summary;
  changed_count = elim r.changed_since_previous [ none ↦ none | some c ↦ some (length c.changed) ];
}
