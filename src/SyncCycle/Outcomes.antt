-- ===== src/SyncCycle/Outcomes.antt =====
-- How a run ends: what its status and its reason say about what it has changed.
use skill_sync_sidecar.Common.{ℕ, ◌+◌, ◌≤◌, String, ◌≡◌, refl}
use skill_sync_sidecar.Common.{◌≢◌, ◌↔◌, inl, inr, Bool, true, false, ◌&&◌}
use skill_sync_sidecar.Common.{not, Option, none, some, List, [], ◌∷◌, arith, if◌then◌else◌}
use skill_sync_sidecar.Common.{◌==◌, option_eq, string_eq, nat_eq, Bool-cases}
use skill_sync_sidecar.Common.{count_if}
use skill_sync_sidecar.Common.{any_of, ok}
use mathlib.Core.Path.{subst}
use skill_sync_sidecar.Common.{>>=-eq-ok, Result-cases, length-select, any_of-count}
use skill_sync_sidecar.Skill.{Index}
use skill_sync_sidecar.SyncState.{SyncStateItem}
use skill_sync_sidecar.SyncState.Overrides.{Projections}
use skill_sync_sidecar.SyncState.Status.{
  Inputs, Status, build_sync_status, is_conflict, read_sides, items_of, all_ids,
}
use skill_sync_sidecar.SyncPlan.{WriterPolicy, SyncPlanItem, SyncPlan, build_sync_plan, plan_items}
use skill_sync_sidecar.SyncPlan.{
  plan_item, apply_writer_policy, decide, planned, read_policy, plan_of,
}
use skill_sync_sidecar.Stage.{Hashing}
use skill_sync_sidecar.SyncApply.{Options}
use skill_sync_sidecar.SyncApply.Execute.{Device, World, SyncResult, execute_sync_apply}
use skill_sync_sidecar.SyncCycle.{
  is_deletion, is_delete_plan, count_delete_plan_actions, CycleStatus, complete,
}
use skill_sync_sidecar.SyncCycle.{
  Reason, Reports, build_conflicts_if_needed, build_tombstones_if_needed, some_of,
}
use skill_sync_sidecar.SyncCycle.{
  reason_of, CycleResult, Findings, find, cycle_result, may_apply, download_snapshot,
}
use skill_sync_sidecar.SyncCycle.{refreshed, finish, run_sync_cycle, raised_or}

-- What stands in the way of a deletion: it is refused, or it is a deletion to review.
abbrev stops : SyncPlanItem → ℕ
stops q = if not q.allowed then 1 else if is_delete_plan q.plan_action then 1 else 0

deletion-stops :
    (new delete : Bool) (policy : WriterPolicy) (item : SyncStateItem)
    → is_deletion item.action ≡ true
    → stops (apply_writer_policy policy (plan_item new delete item)) ≡ 1
unfolding plan_item decide planned apply_writer_policy
deletion-stops new delete policy item h = ground arith

module _ (new delete : Bool) (policy : WriterPolicy) where
  -- Every deletion of the status is blocked or counted by the plan.
  deletions-stop :
      (items : List SyncStateItem)
      → count_if (λ item. is_deletion item.action) items
        ≤ count_if (λ q. not q.allowed) (plan_items new delete policy items)
          + count_if
              (λ q. is_delete_plan q.plan_action && q.allowed)
              (plan_items new delete policy items)
  unfolding plan_items
  deletions-stop [] = omega arith
  deletions-stop (item ∷ items) =
      let here = deletion-stops new delete policy item in ground (arith, deletions-stop items)

build_sync_plan-deletions :
    (new delete : Bool) (writer_policy : String) (st : Status) (plan : SyncPlan)
    → build_sync_plan new delete writer_policy st ≡ ok plan
    → count_if (λ item. is_deletion item.action) st.items
      ≤ plan.blocked + count_delete_plan_actions plan
unfolding build_sync_plan plan_of count_delete_plan_actions
build_sync_plan-deletions new delete writer_policy st plan h =
    let (policy, e, h') = >>=-eq-ok (read_policy writer_policy) _ h in
    let blocked = length-select (λ q. not q.allowed) (plan_items new delete policy st.items) in
    let bound = deletions-stop new delete policy st.items in ground arith

-- What the findings of a run say of each other.
pub record Agree (f : Findings) : Type 0 where
  pub deletions :
      count_if (λ item. is_deletion item.action) f.status.items
      ≤ f.plan.blocked + count_delete_plan_actions f.plan
  pub conflicts : f.conflicts ≡ (
      if f.status.has_conflicts
      then some (count_if (λ item. is_conflict item.action) f.status.items)
      else none)
  pub tombstones :
      some_of f.tombstones ≡ not (count_if (λ item. is_deletion item.action) f.status.items == 0)
  pub has_conflicts :
      f.status.has_conflicts ≡ any_of (λ item. is_conflict item.action) f.status.items

build_sync_status-has_conflicts :
    (P : Projections) (i : Inputs) (st : Status)
    → build_sync_status P i ≡ ok st
    → st.has_conflicts ≡ any_of (λ item. is_conflict item.action) st.items
unfolding build_sync_status
build_sync_status-has_conflicts P i st h = elim (Result-cases (read_sides i)) [
  | inr (e, h1) ↦ absurd (ground arith)
  | inl (sides, h1) ↦ elim (Result-cases (items_of P sides (all_ids sides))) [
    | inr (e, h2) ↦ absurd (ground arith)
    | inl (items, h2) ↦ ground arith
  ]
]

-- The three reports that were written for a status and a plan.
reports-Agree :
    (R : Reports) (st : Status) (plan : SyncPlan) (conflicts tombstones : Option ℕ)
    → count_if (λ item. is_deletion item.action) st.items
      ≤ plan.blocked + count_delete_plan_actions plan
    → build_conflicts_if_needed R st ≡ ok conflicts
    → build_tombstones_if_needed R st ≡ ok tombstones
    → st.has_conflicts ≡ any_of (λ item. is_conflict item.action) st.items
    → Agree (record { status = st; plan = plan; conflicts = conflicts; tombstones = tombstones })
unfolding build_conflicts_if_needed build_tombstones_if_needed raised_or
reports-Agree R st plan conflicts tombstones bound hc ht has = record {
  deletions = bound;
  conflicts = elim (Bool-cases st.has_conflicts) [ inl c ↦ ground arith | inr c ↦ ground arith ];
  tombstones = ground arith;
  has_conflicts = has;
}

find-Agree :
    (P : Projections) (R : Reports) (i : Inputs) (o : Options) (f : Findings)
    → find P R i o ≡ ok f
    → Agree f
unfolding find
find-Agree P R i o f h = elim (Result-cases (build_sync_status P i)) [
  | inr (e, h1) ↦ absurd (ground arith)
  | inl (st, h1) ↦
      elim (Result-cases (build_sync_plan o.allow_new o.allow_delete o.writer_policy st)) [
        | inr (e, h2) ↦ absurd (ground arith)
        | inl (plan, h2) ↦ elim (Result-cases (build_conflicts_if_needed R st)) [
          | inr (e, h3) ↦ absurd (ground arith)
          | inl (conflicts, h3) ↦ elim (Result-cases (build_tombstones_if_needed R st)) [
            | inr (e, h4) ↦ absurd (ground arith)
            | inl (tombstones, h4) ↦ elim (Result-cases (raised_or R.blocked_report_raises tt)) [
              | inr (e, h5) ↦ absurd (ground arith)
              | inl (x, h5) ↦
                  let same : record {
                    status = st;
                    plan = plan;
                    conflicts = conflicts;
                    tombstones = tombstones;
                  }
                      ≡ f =
                    ground arith in
                  subst Agree same (
                    reports-Agree R st plan conflicts tombstones
                      (build_sync_plan-deletions o.allow_new o.allow_delete o.writer_policy st plan
                        h2)
                      h3 h4 (build_sync_status-has_conflicts P i st h1))
            ]
          ]
        ]
      ]
]

-- What the status and the reason of a run tell.
pub record Ends {H : Hashing} (dry : Bool) (r : CycleResult) (w w' : World H) : Type 1 where
  pub untouched : r.status ≢ complete → w' ≡ w
  pub dry_run : dry ≡ true → r.status ≡ CycleStatus.dry_run
  pub applied : (r.status ≡ complete) ↔ (r.reason ≡ Reason.actions_applied)
  pub clear :
      r.status ≡ complete
      → (r.sync_plan.blocked ≡ 0)
        × (r.delete_actions ≡ 0)
        × (count_if (λ item. is_conflict item.action) r.sync_status.items ≡ 0)
        × (count_if (λ item. is_deletion item.action) r.sync_status.items ≡ 0)

reason-may_apply :
    (dry : Bool) (f : Findings)
    → Agree f
    → (may_apply dry f ≡ true) ↔ (
        reason_of dry f.plan f.conflicts f.tombstones (count_delete_plan_actions f.plan)
        ≡ Reason.actions_applied)
unfolding may_apply reason_of nat_eq
reason-may_apply dry f a =
    let bound = a.deletions in
    let c = a.conflicts in
    let t = a.tombstones in
    let n = any_of-count (λ item. is_conflict item.action) f.status.items in
    let h = a.has_conflicts in
    elim (Bool-cases f.status.has_conflicts) [ inl e ↦ ground arith | inr e ↦ ground arith ]

module _ {H : Hashing} where
  refused-Ends :
      (dry : Bool) (index : Index) (f : Findings) (w : World H)
      → Agree f
      → may_apply dry f ≡ false
      → Ends dry
          (cycle_result dry index f (if dry then CycleStatus.dry_run else CycleStatus.blocked) none)
          w
          w
  unfolding cycle_result
  refused-Ends dry index f w a refused =
      let iff = reason-may_apply dry f a in
      record {
        untouched = λ _. refl;
        dry_run = λ d. ground arith;
        applied = (λ c. absurd (ground arith), λ c. absurd (ground arith));
        clear = λ c. absurd (ground arith);
      }

  applied-Ends :
      (dry : Bool) (index : Index) (f : Findings) (w w' : World H) (x : SyncResult)
      → Agree f
      → may_apply dry f ≡ true
      → Ends dry (cycle_result dry index f complete (some x)) w w'
  unfolding cycle_result may_apply nat_eq
  applied-Ends dry index f w w' x a granted =
      let iff = reason-may_apply dry f a in
      let bound = a.deletions in
      let c = a.conflicts in
      let n = any_of-count (λ item. is_conflict item.action) f.status.items in
      let has = a.has_conflicts in
      record {
        untouched = λ differs. absurd (differs refl);
        dry_run = λ d. absurd (ground arith);
        applied = (λ _. ground arith, λ _. refl);
        clear = λ _. elim (Bool-cases f.status.has_conflicts) [
          | inl e ↦ absurd (ground arith)
          | inr e ↦ (ground arith, ground arith, ground arith, ground arith)
        ];
      }

  finish-Ends :
      (D : Device H) (P : Projections) (i : Inputs) (o : Options) (dry : Bool) (index : Index)
      (f : Findings) (w w' : World H) (r : CycleResult)
      → Agree f
      → finish D P i o dry index f w ≡ (ok r, w')
      → Ends dry r w w'
  unfolding finish
  finish-Ends D P i o dry index f w w' r a h = elim (Bool-cases (may_apply dry f)) [
    | inr refused ↦
        let result : cycle_result dry index f
              (if dry then CycleStatus.dry_run else CycleStatus.blocked) none
            ≡ r =
          ground arith in
        let out : w ≡ w' = ground arith in
        subst (λ y. Ends dry y w w') result
          (subst
            (λ v.
              Ends dry
                (cycle_result dry index f (if dry then CycleStatus.dry_run else CycleStatus.blocked)
                  none)
                w v)
            out (refused-Ends dry index f w a refused))
    | inl granted ↦ elim (Result-cases (execute_sync_apply D P i o w).0) [
      | inr (e, g) ↦ absurd (ground arith)
      | inl (x, g) ↦
          let result : cycle_result dry index f complete (some x) ≡ r = ground arith in
          subst (λ y. Ends dry y w w') result (applied-Ends dry index f w w' x a granted)
    ]
  ]

  -- A run that returns without the status `complete` has changed nothing, and a dry run never has
  -- that status. Its reason says that actions were applied exactly if its status is `complete`;
  -- then nothing was blocked, no deletion was planned, and the status showed no conflict and no
  -- skill that one side had deleted.
  pub run_sync_cycle-Ends :
      (D : Device H) (P : Projections) (R : Reports) (i : Inputs) (o : Options) (dry : Bool)
      (w w' : World H) (r : CycleResult)
      → run_sync_cycle D P R i o dry w ≡ (ok r, w')
      → Ends dry r w w'
  unfolding run_sync_cycle
  run_sync_cycle-Ends D P R i o dry w w' r h = elim (Result-cases (download_snapshot D w.remote)) [
    | inr (e, g) ↦ absurd (ground arith)
    | inl (index, g) ↦ elim (Result-cases (find P R (record i { index = some index }) o)) [
      | inr (e, g') ↦ absurd (ground arith)
      | inl (f, g') ↦
          finish-Ends (refreshed D w.remote) P (record i { index = some index }) o dry index f w w'
            r (find-Agree P R (record i { index = some index }) o f g') (ground arith)
    ]
  ]
