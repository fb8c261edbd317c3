-- ===== src/Reconcile/Gate/Agreement.antt =====
-- When the gate opens for a report that reconcile.py has built.
use skill_sync_sidecar.Common.{String, ◌≡◌, refl, sym}
use skill_sync_sidecar.Common.{◌∙◌, ap, ◌↔◌, inl, inr, Bool, true, false, ◌&&◌}
use skill_sync_sidecar.Common.{
  not, Option, none, some, List, [], ◌∷◌, ◌++◌, map, arith, if◌then◌else◌,
}
use skill_sync_sidecar.Common.{◌==◌, contains, option_eq, string_eq, nat_eq, Bool-cases}
use skill_sync_sidecar.Common.{is_some, length, select, count_if}
use skill_sync_sidecar.Common.{is_empty, ok}
use mathlib.Core.Path.{subst}
use skill_sync_sidecar.Common.{from_value, count_if-map}
use skill_sync_sidecar.Common.Dict.{Dict, lookup, keys, contains-keys}
use skill_sync_sidecar.Common.Sorted.{
  sorted_set, contains-sorted_set, contains-select, contains-append, length-zero,
}
use skill_sync_sidecar.Common.Tally.{or_zero, lookup-tally}
use skill_sync_sidecar.Skill.{Entry, Index, hash_of}
use skill_sync_sidecar.Reconcile.{Files, ReconcileReport, ReconcileItem, Changes, Status}
use skill_sync_sidecar.Reconcile.{status_name, status_of}
use skill_sync_sidecar.Reconcile.{changed_since_previous, reconcile_items}
use skill_sync_sidecar.Reconcile.{report_of, build_reconcile_report, unique_entries, compared_ids}
use skill_sync_sidecar.Reconcile.Gate.{Gate, loaded, build_openclaw_gate}
use skill_sync_sidecar.Reconcile.Gate.{read_back, changed_or_zero}
use skill_sync_sidecar.Reconcile.Gate.Statuses.{agrees, is_kept, is_empty-blockers}
use skill_sync_sidecar.Reconcile.Gate.Statuses.{reconcile_items-statuses}
use skill_sync_sidecar.Reconcile.Gate.Statuses.{count_if-zero}
use skill_sync_sidecar.Reconcile.Gate.Statuses.{named_conflict, named_local_new}
use skill_sync_sidecar.Reconcile.Gate.Statuses.{named_remote_new, agrees-status_of}

module _ (F : Files) (locals remotes before : Dict String Entry) (items : List ReconcileItem)
    (done : reconcile_items F locals remotes (compared_ids locals remotes) ≡ ok items) where
  report : ReconcileReport
  report = report_of locals remotes before items

  status_at : String → Status
  status_at k = status_of (lookup k locals) (lookup k remotes)

  -- The count that the report has of a status.
  counted :
      (name : String)
      → (or_zero (lookup name report.summary) ≡ 0) ↔ (
          (k : String)
          → contains (compared_ids locals remotes) k ≡ true
          → (name == status_name (status_at k)) ≡ false)
  unfolding report report_of status_at
  counted name =
      let ids = compared_ids locals remotes in
      let same =
        lookup-tally (map (λ i. status_name i.status) items) name
        ∙ (ap (count_if (λ x. name == x)) (reconcile_items-statuses F locals remotes ids items done)
            ∙ count_if-map (λ k. status_name (status_of (lookup k locals) (lookup k remotes)))
                (λ x. name == x) ids) in
      let (zero_all, all_zero) =
        count_if-zero (λ k. name == status_name (status_of (lookup k locals) (lookup k remotes)))
          ids in
      (λ h. zero_all (sym same ∙ h), λ h. same ∙ all_zero h)

  absent :
      (k : String)
      → contains (compared_ids locals remotes) k ≡ false
      → (lookup k locals ≡ none) × (lookup k remotes ≡ none)
  absent k h =
      let all =
        contains-sorted_set k (keys locals ++ keys remotes)
        ∙ contains-append (keys locals) (keys remotes) k in
      (ground (arith, all, contains-keys locals k), ground (arith, all, contains-keys remotes k))

  -- The three counts together.
  status_counts :
      (complete : Bool)
      → ((or_zero (lookup "conflict" report.summary) ≡ 0)
          × (or_zero (lookup "local_new" report.summary) ≡ 0)
          × (complete ≡ true → or_zero (lookup "remote_new" report.summary) ≡ 0))
        ↔ ((k : String) → agrees complete (lookup k locals) (lookup k remotes) ≡ true)
  unfolding status_at
  status_counts complete = (
    λ (c, n, r) k. elim (Bool-cases (contains (compared_ids locals remotes) k)) [
      | inr out ↦ ground (arith, absent k out)
      | inl m ↦
          let no_conflict = sym (named_conflict (status_at k)) ∙ (counted "conflict").0 c k m in
          let no_local = sym (named_local_new (status_at k)) ∙ (counted "local_new").0 n k m in
          elim (Bool-cases complete) [
            | inr partial ↦
                agrees-status_of complete (lookup k locals) (lookup k remotes)
                ∙ ground (arith, no_conflict, no_local)
            | inl full ↦
                let no_remote =
                  sym (named_remote_new (status_at k)) ∙ (counted "remote_new").0 (r full) k m in
                agrees-status_of complete (lookup k locals) (lookup k remotes)
                ∙ ground (arith, no_conflict, no_local, no_remote)
          ]
    ],
    λ h.
        let said = λ (k : String).
          sym (agrees-status_of complete (lookup k locals) (lookup k remotes)) ∙ h k in
        (
          (counted "conflict").1 (λ k m. named_conflict (status_at k) ∙ ground (arith, said k)),
          (counted "local_new").1 (λ k m. named_local_new (status_at k) ∙ ground (arith, said k)),
          λ full.
              (counted "remote_new").1
                (λ k m. named_remote_new (status_at k) ∙ ground (arith, said k)),
        ),
  )

is_kept-tests :
    (p l : Option Entry)
    → is_kept p l ≡ not (is_some p && (is_some l && not (hash_of p == hash_of l)))
unfolding hash_of
is_kept-tests none l = ground arith
is_kept-tests (some p) none = ground arith
is_kept-tests (some p) (some l) = ground arith

is_kept-changed :
    (previous current : Dict String Entry)
    → (length (changed_since_previous previous current).changed ≡ 0)
      ↔ ((k : String) → is_kept (lookup k previous) (lookup k current) ≡ true)
unfolding changed_since_previous
is_kept-changed previous current =
    let is_changed = λ (k : String).
      is_some (lookup k current)
      && not (hash_of (lookup k previous) == hash_of (lookup k current)) in
    let members = λ (k : String).
      contains-sorted_set k (select is_changed (keys previous))
      ∙ contains-select is_changed (keys previous) k in
    let (zero_none, none_zero) = length-zero (sorted_set (select is_changed (keys previous))) in
    (
      λ h k.
          is_kept-tests (lookup k previous) (lookup k current)
          ∙ ground (arith, zero_none h k, members k, contains-keys previous k),
      λ h. none_zero (λ k.
          let kept = sym (is_kept-tests (lookup k previous) (lookup k current)) ∙ h k in
          ground (arith, kept, members k, contains-keys previous k)),
    )

changed_since : Dict String Entry → Dict String Entry → Option Changes
changed_since before locals =
    if is_empty before then none else some (changed_since_previous before locals)

-- The count that the gate reads.
changed_count-is_kept :
    (before locals : Dict String Entry)
    → (changed_or_zero
          (elim (changed_since before locals) [ none ↦ none | some c ↦ some (length c.changed) ])
        ≡ 0)
      ↔ ((k : String) → is_kept (lookup k before) (lookup k locals) ≡ true)
unfolding changed_since lookup
changed_count-is_kept [] locals = (λ h k. refl, λ h. refl)
changed_count-is_kept (e ∷ before) locals = is_kept-changed (e ∷ before) locals

-- The gate's answer for a report, in the terms of the two inventories and the snapshot.
pub record IsGated (complete : Bool) (inventory : List Entry) (index : Index)
    (previous : Option (List Entry)) (gate : Gate) : Type 0 where
  pub locals : Dict String Entry
  pub remotes : Dict String Entry
  pub before : Dict String Entry
  pub local_side : unique_entries inventory "local" ≡ ok locals
  pub remote_side : unique_entries index.skills "remote" ≡ ok remotes
  pub previous_side :
      elim previous [ none ↦ ok [] | some es ↦ unique_entries es "previous_local" ] ≡ ok before
  pub opens : (gate.is_ok ≡ true) ↔ (
      ((k : String) → agrees complete (lookup k locals) (lookup k remotes) ≡ true)
      × ((k : String) → is_kept (lookup k before) (lookup k locals) ≡ true))

gate_opens :
    (F : Files) (locals remotes before : Dict String Entry) (items : List ReconcileItem)
    (complete : Bool)
    → reconcile_items F locals remotes (compared_ids locals remotes) ≡ ok items
    → ((build_openclaw_gate
          (loaded (read_back (report_of locals remotes before items)))
          complete).is_ok
        ≡ true)
      ↔ (((k : String) → agrees complete (lookup k locals) (lookup k remotes) ≡ true)
          × ((k : String) → is_kept (lookup k before) (lookup k locals) ≡ true))
unfolding build_openclaw_gate read_back report_of changed_since report
gate_opens F locals remotes before items complete done =
    let r = read_back (report_of locals remotes before items) in
    let same = is_empty-blockers r complete in
    let (zero_agree, agree_zero) = status_counts F locals remotes before items done complete in
    let (zero_kept, kept_zero) = changed_count-is_kept before locals in
    (
      λ h.
          let tests = sym same ∙ h in
          (zero_agree (ground arith, ground arith, λ full. ground arith), zero_kept (ground arith)),
      λ (agree, kept).
          let (c, n, m) = agree_zero agree in let z = kept_zero kept in same ∙ ground arith,
    )

-- Let a report be built from an inventory, the snapshot and, if there is one, the previous inventory,
-- and let it be read back by the gate. The gate is open if and only if the device and the snapshot
-- agree on every skill, where a skill that only the snapshot has counts if the report must be
-- complete, and no skill of the previous inventory is there in another version now.
pub build_openclaw_gate-build_reconcile_report :
    (F : Files) (complete : Bool) (inventory : List Entry) (index : Index)
    (previous : Option (List Entry)) (r : ReconcileReport)
    → build_reconcile_report F inventory (some index) previous ≡ ok r
    → IsGated complete inventory index previous
        (build_openclaw_gate (loaded (read_back r)) complete)
unfolding build_reconcile_report
build_openclaw_gate-build_reconcile_report F complete inventory index previous r h =
    from_value (unique_entries inventory "local") _ h (λ locals e1 h1.
      from_value (unique_entries index.skills "remote") _ h1 (λ remotes e2 h2.
        from_value (elim previous [ none ↦ ok [] | some es ↦ unique_entries es "previous_local" ]) _
          h2
          (λ before e3 h3.
            from_value (reconcile_items F locals remotes (compared_ids locals remotes)) _ h3
              (λ items e4 h4.
                let same : report_of locals remotes before items ≡ r = ground (arith, h4) in
                subst
                  (λ (q : ReconcileReport).
                    IsGated complete inventory index previous
                      (build_openclaw_gate (loaded (read_back q)) complete))
                  same
                  (record {
                    locals = locals;
                    remotes = remotes;
                    before = before;
                    local_side = e1;
                    remote_side = e2;
                    previous_side = e3;
                    opens = gate_opens F locals remotes before items complete e4;
                  })))))
