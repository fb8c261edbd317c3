-- ===== src/ApprovedPush/Execute/Previews.antt =====
-- What the preview of an approved push rests on.
use skill_sync_sidecar.Common.{◌≡◌}
use skill_sync_sidecar.Common.{◌∙◌, ap, false}
use skill_sync_sidecar.Common.{Option, none, some, [], arith}
use skill_sync_sidecar.Common.{option_eq, string_eq, nat_eq}
use skill_sync_sidecar.Common.{ok}
use mathlib.Core.Path.{subst}
use skill_sync_sidecar.Common.{from_value}
use skill_sync_sidecar.SyncState.Status.{Inputs, Status, build_sync_status}
use skill_sync_sidecar.SyncState.Overrides.{Projections}
use skill_sync_sidecar.SyncPlan.{SyncPlan, build_sync_plan}
use skill_sync_sidecar.ApprovedPush.{Report, load_blocked_report, normalize_approved_ids}
use skill_sync_sidecar.ApprovedPush.{report_items_by_skill_id, plan_by_id}
use skill_sync_sidecar.ApprovedPush.{approved_items}
use skill_sync_sidecar.ApprovedPush.Approval.{AreApproved, approved_items-AreApproved}
use skill_sync_sidecar.ApprovedPush.Merge.{build_merged_snapshot}
use skill_sync_sidecar.ApprovedPush.Execute.{Options, Snapshot, Preview}
use skill_sync_sidecar.ApprovedPush.Execute.{cached_index, build_approved_push_preview}

module _ (P : Projections) (report : Option Report) (i : Inputs) (o : Options) where
  -- The approval that a preview rests on: the report and the plan of the current status.
  pub record IsPreviewed (preview : Preview) : Type 0 where
    pub blocked : Report
    pub status : Status
    pub plan : SyncPlan
    pub loaded : load_blocked_report report ≡ ok blocked
    pub current : build_sync_status P i ≡ ok status
    pub normal : normalize_approved_ids o.skill_ids ≡ ok preview.approved_skill_ids
    pub approved :
        AreApproved
          (report_items_by_skill_id [] blocked.items)
          (plan_by_id [] plan.items)
          o.allow_conflict_local_wins
          preview.approved_skill_ids
          preview.items

module _ {Bytes : Type 0} (P : Projections) (report : Option Report) (i : Inputs)
    (o : Options) where
  pub build_approved_push_preview-IsPreviewed :
      (local : Snapshot Bytes) (preview : Preview)
      → build_approved_push_preview P report i o local ≡ ok preview
      → IsPreviewed P report i o preview
  unfolding build_approved_push_preview
  build_approved_push_preview-IsPreviewed local preview h =
      from_value (load_blocked_report report) _ h (λ r e1 h1.
        from_value (normalize_approved_ids o.skill_ids) _ h1 (λ ids e2 h2.
          from_value (build_sync_status P i) _ h2 (λ status e3 h3.
            from_value
              (build_sync_plan (elim o.allow_new [ none ↦ r.allow_new | some b ↦ b ]) false
                "push-pull" status)
              _ h3
              (λ plan e4 h4.
                from_value
                  (approved_items (report_items_by_skill_id [] r.items) (plan_by_id [] plan.items)
                    o.allow_conflict_local_wins ids)
                  _ h4
                  (λ items e5 h5. from_value (cached_index i.index) _ h5 (λ cache e6 h6.
                    from_value (build_merged_snapshot "approved-push-preview" "" ids local.0 cache)
                      _ h6
                      (λ merged e7 h7.
                        let same_ids : ids ≡ preview.approved_skill_ids = ground (arith, h7) in
                        let same_items : items ≡ preview.items = ground (arith, h7) in
                        let approved =
                          approved_items-AreApproved (report_items_by_skill_id [] r.items)
                            (plan_by_id [] plan.items) o.allow_conflict_local_wins ids items e5 in
                        record {
                          blocked = r;
                          status = status;
                          plan = plan;
                          loaded = e1;
                          current = e3;
                          normal = e2 ∙ ap ok same_ids;
                          approved =
                              subst
                                (λ its.
                                  AreApproved (report_items_by_skill_id [] r.items)
                                    (plan_by_id [] plan.items) o.allow_conflict_local_wins
                                    preview.approved_skill_ids its)
                                same_items
                                (subst
                                  (λ ks.
                                    AreApproved (report_items_by_skill_id [] r.items)
                                      (plan_by_id [] plan.items) o.allow_conflict_local_wins ks
                                      items)
                                  same_ids approved);
                        })))))))
