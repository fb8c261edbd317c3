-- ===== src/SyncApply/Execute/Results.antt =====
-- What a run that returns has done.
use skill_sync_sidecar.Common.{ℕ, zero, suc, String, ◌≡◌, refl, sym}
use skill_sync_sidecar.Common.{◌∙◌, ap, ◌≢◌, ◌⊎◌, inl, inr, Bool, ◌&&◌}
use skill_sync_sidecar.Common.{Option, none, some, List, [], ◌∷◌, arith}
use skill_sync_sidecar.Common.{option_eq, string_eq, nat_eq, Bool-cases}
use skill_sync_sidecar.Common.{Option-cases, length, select, count_if}
use skill_sync_sidecar.Common.{All, ok}
use mathlib.Core.Path.{subst}
use skill_sync_sidecar.Common.{Result-cases, length-select}
use skill_sync_sidecar.Common.Dict.{Dict, lookup}
use skill_sync_sidecar.SyncState.Overrides.{Projections}
use skill_sync_sidecar.SyncState.Status.{Inputs}
use skill_sync_sidecar.Skill.{Index}
use skill_sync_sidecar.Stage.{Hashing, StagedSkill, Files, stage_snapshot}
use skill_sync_sidecar.Apply.{
  Fs, ApplyItem, ApplyRecord, Weather, apply_item, apply_items, execute_apply_plan,
}
use skill_sync_sidecar.SyncApply.{
  PreviewItem, Preview, Options, build_sync_apply_preview, allowed_scopes, is_push, is_pull,
}
use skill_sync_sidecar.SyncApply.Supported.{IsSupported}
use skill_sync_sidecar.SyncApply.Execute.{
  Device, World, SyncResult, guards, count_actions, pull_then_push,
}
use skill_sync_sidecar.SyncApply.Execute.{
  execute_sync_apply, pull_items, pull_phase, push_phase, install_staged,
}
use skill_sync_sidecar.SyncApply.Execute.{
  staged_by_skill_id, pull_item, put_staged, base_record_entries, push_local_snapshot,
  action_skill_ids, sync_result,
}
use skill_sync_sidecar.SyncPlan.{PlanAction}
use skill_sync_sidecar.SyncApply.Execute.Guards.{IsCleared, guards-IsCleared}

Nat-cases : (n : ℕ) → (n ≡ 0) ⊎ ((m : ℕ) × (n ≡ suc m))
Nat-cases zero = inl refl
Nat-cases (suc m) = inr (m, refl)

-- A loop that does not raise applies every item.
length-apply_items :
    {C : Type 0} (weather : ApplyItem → Weather C) (apply_id : String) (items : List ApplyItem)
    (fs : Fs C)
    → (apply_items weather apply_id items fs).1 ≡ none
    → length (apply_items weather apply_id items fs).0 ≡ length items
unfolding apply_items
length-apply_items weather apply_id [] fs h = refl
length-apply_items weather apply_id (item ∷ items) fs h =
    elim (Result-cases (apply_item (weather item) apply_id item fs).0) [
      | inl (a, e) ↦ ground (
        arith,
        length-apply_items weather apply_id items (apply_item (weather item) apply_id item fs).1,
      )
      | inr (x, e) ↦ absurd (ground arith)
    ]

length-execute_apply_plan :
    {C : Type 0} (weather : ApplyItem → Weather C) (apply_id : String) (items : List ApplyItem)
    (fs : Fs C)
    → (execute_apply_plan weather apply_id items fs).0 ≡ none
    → length (execute_apply_plan weather apply_id items fs).1.applied
      ≡ count_if (λ item. item.allowed) items
unfolding execute_apply_plan
length-execute_apply_plan weather apply_id items fs h =
    length-apply_items weather apply_id (select (λ item. item.allowed) items) fs h
    ∙ length-select (λ item. item.allowed) items

module _ {H : Hashing} (D : Device H) where
  -- The apply plan has one allowed item for each pull.
  count-pull_items :
      (scopes : List String) (staged : Dict String StagedSkill) (qs : List PreviewItem)
      (items : List ApplyItem)
      → pull_items D scopes staged qs ≡ ok items
      → count_if (λ item. item.allowed) items ≡ count_if (λ q. is_pull q.item.plan_action) qs
  unfolding pull_items pull_item
  count-pull_items scopes staged [] [] h = refl
  count-pull_items scopes staged [] (x ∷ xs) h = cc
  count-pull_items scopes staged (q ∷ qs) items h = elim (Bool-cases (is_pull q.item.plan_action)) [
    | inr e ↦ ground (arith, count-pull_items scopes staged qs items)
    | inl e ↦ elim (Option-cases (lookup q.item.skill_id staged)) [
      | inl e' ↦ absurd (ground arith)
      | inr (s, e') ↦ elim (Result-cases (pull_items D scopes staged qs)) [
        | inl (rest, er) ↦ ground (arith, count-pull_items scopes staged qs rest er)
        | inr (x, er) ↦ absurd (ground arith)
      ]
    ]
  ]

  count_actions-supported :
      (wanted : PlanAction → Bool) (scopes : List String) (target : String) (qs : List PreviewItem)
      → All (IsSupported scopes target) qs
      → count_if (λ q. wanted q.item.plan_action && q.item.allowed) qs
        ≡ count_if (λ q. wanted q.item.plan_action) qs
  count_actions-supported wanted scopes target [] _ = refl
  count_actions-supported wanted scopes target (q ∷ qs) (s, ss) =
      let allowed = s.allowed in ground (arith, count_actions-supported wanted scopes target qs ss)

  abbrev applied_by : Option ApplyRecord → ℕ
  applied_by none = 0
  applied_by (some r) = length r.applied

  install_staged-applied :
      (staged : List (StagedSkill × Files H)) (items : List ApplyItem) (w w' : World H)
      (r : Option ApplyRecord)
      → install_staged D staged items w ≡ (ok r, w')
      → applied_by r ≡ count_if (λ item. item.allowed) items
  unfolding install_staged
  install_staged-applied staged items w w' r h =
      elim (Option-cases
        (execute_apply_plan D.weather D.apply_id items (put_staged D staged w.disk)).0) [
          | inl e ↦
              let applied =
                length-execute_apply_plan D.weather D.apply_id items (put_staged D staged w.disk)
                  e in
              ground arith
          | inr (x, e) ↦ absurd (ground arith)
        ]

  pull_phase-applied :
      (index : Option Index) (scopes : List String) (p : Preview) (w w' : World H)
      (r : Option ApplyRecord)
      → pull_phase D index scopes p w ≡ (ok r, w')
      → count_if (λ q. is_pull q.item.plan_action) p.items ≡ count_actions is_pull p
      → applied_by r ≡ count_actions is_pull p
  unfolding pull_phase
  pull_phase-applied index scopes p w w' r h same = elim (Nat-cases (count_actions is_pull p)) [
    | inl e ↦ ground arith
    | inr (n, e) ↦ elim (Result-cases (stage_snapshot H D.archives index)) [
      | inr (x, e') ↦ absurd (ground arith)
      | inl (staged, e') ↦
          elim (Result-cases (pull_items D scopes (staged_by_skill_id D staged) p.items)) [
            | inr (x, e'') ↦ absurd (ground arith)
            | inl (items, e'') ↦
                install_staged-applied staged items w w' r (ground arith)
                ∙ (count-pull_items scopes (staged_by_skill_id D staged) p.items items e'' ∙ same)
          ]
    ]
  ]

  -- Without a base record nothing was to be pushed, and neither the remote nor the records have
  -- changed; with one, it lists the local root's skills as they are after the pulls.
  abbrev pub Pushed : Preview → World H → World H → Option (List (String × String)) → Type 0
  Pushed p w w' none =
      (count_actions is_push p ≡ 0) × (w'.remote ≡ w.remote) × (w'.base_records ≡ w.base_records)
  Pushed p w w' (some base) =
      (count_actions is_push p ≢ 0)
      × (base ≡ base_record_entries (D.scan w'.disk).0.skills)
      × (w'.base_records ≡ base ∷ w.base_records)

  -- What a run that returned reports.
  pub record Reports (i : Inputs) (o : Options) (w : World H) (p : Preview) (r : SyncResult)
      (w' : World H) : Type 1 where
    pub cleared : IsCleared D i o w p
    pub applied : r.applied ≡ count_actions is_pull p
    pub pushed : Pushed p w w' r.base_record

  pull_phase-remote :
      (index : Option Index) (scopes : List String) (p : Preview) (w : World H)
      → let w' = (pull_phase D index scopes p w).1 in
        (w'.remote ≡ w.remote) × (w'.base_records ≡ w.base_records)
  unfolding pull_phase install_staged
  pull_phase-remote index scopes p w = elim (Nat-cases (count_actions is_pull p)) [
    | inl e ↦ (ground arith, ground arith)
    | inr (n, e) ↦ elim (Result-cases (stage_snapshot H D.archives index)) [
      | inr (x, e') ↦ (ground arith, ground arith)
      | inl (staged, e') ↦
          elim (Result-cases (pull_items D scopes (staged_by_skill_id D staged) p.items)) [
            | inr (x, e'') ↦ (ground arith, ground arith)
            | inl (items, e'') ↦ (ground arith, ground arith)
          ]
    ]
  ]

  abbrev base_of : Option (ℕ × List (String × String)) → Option (List (String × String))
  base_of none = none
  base_of (some (n, base)) = some base

  push_local_snapshot-Pushed :
      (ids : List String) (w w' : World H) (n : ℕ) (base : List (String × String))
      → push_local_snapshot D ids w ≡ (ok (n, base), w')
      → (base ≡ base_record_entries (D.scan w'.disk).0.skills)
        × (w'.base_records ≡ base ∷ w.base_records)
  unfolding push_local_snapshot
  push_local_snapshot-Pushed ids w w' n base h = (ground arith, ground arith)

  push_phase-Pushed :
      (p : Preview) (w w' : World H) (x : Option (ℕ × List (String × String)))
      → push_phase D p w ≡ (ok x, w')
      → Pushed p w w' (base_of x)
  unfolding push_phase
  push_phase-Pushed p w w' none h = elim (Nat-cases (count_actions is_push p)) [
    | inl e ↦ (e, ground arith, ground arith)
    | inr (n, e) ↦ absurd (ground arith)
  ]
  push_phase-Pushed p w w' (some (n, base)) h = elim (Nat-cases (count_actions is_push p)) [
    | inl e ↦ absurd (ground arith)
    | inr (m, e) ↦
        let ids = action_skill_ids is_push p in
        let (same, records) = push_local_snapshot-Pushed ids w w' n base (ground arith) in
        (λ z. absurd (ground arith), same, records)
  ]

  Pushed-from :
      (p : Preview) (w1 w w2 : World H) (x : Option (List (String × String)))
      → w1.remote ≡ w.remote
      → w1.base_records ≡ w.base_records
      → Pushed p w1 w2 x
      → Pushed p w w2 x
  Pushed-from p w1 w w2 none e1 e2 (z, r, b) = (z, r ∙ e1, b ∙ e2)
  Pushed-from p w1 w w2 (some base) e1 e2 (z, same, b) = (z, same, b ∙ ap (λ y. base ∷ y) e2)

  -- A run that returns has passed its guards; it has applied exactly as many skills as there were
  -- pulls; and if there was anything to push, it has added one base record, which lists the local
  -- root's skills as they are after the pulls, else it has left the remote and the records alone.
  pub execute_sync_apply-Reports :
      (P : Projections) (i : Inputs) (o : Options) (w w' : World H) (r : SyncResult)
      → execute_sync_apply D P i o w ≡ (ok r, w')
      → (p : Preview) × (build_sync_apply_preview P i o ≡ ok p) × Reports i o w p r w'
  unfolding execute_sync_apply pull_then_push sync_result
  execute_sync_apply-Reports P i o w w' r h = elim (Result-cases (build_sync_apply_preview P i o)) [
    | inr (e, made) ↦ absurd (ground arith)
    | inl (p, made) ↦ elim (Result-cases (guards D i.index p w.remote)) [
      | inr (e, refused) ↦ absurd (ground arith)
      | inl (tt, cleared) ↦ elim (Result-cases (allowed_scopes o.target)) [
        | inr (e, f) ↦ absurd (ground arith)
        | inl (scopes, f) ↦
            let c = guards-IsCleared D P i o w p made cleared in
            let w1 = (pull_phase D i.index scopes p w).1 in
            let same = count_actions-supported is_pull c.scopes o.target p.items c.items in
            let (remote, records) = pull_phase-remote i.index scopes p w in
            elim (Result-cases (pull_phase D i.index scopes p w).0) [
              | inr (e, g) ↦ absurd (ground arith)
              | inl (a, g) ↦ elim (Result-cases (push_phase D p w1).0) [
                | inr (e, g') ↦ absurd (ground arith)
                | inl (x, g') ↦
                    let w2 = (push_phase D p w1).1 in
                    let result : r ≡ sync_result D p a x = ground arith in
                    let out : w2 ≡ w' = ground arith in
                    let base : base_of x ≡ r.base_record = ap (λ y. y.base_record) (sym result) in
                    (
                      p,
                      made,
                      record {
                        cleared = c;
                        applied =
                            ap (λ y. y.applied) result
                            ∙ pull_phase-applied i.index scopes p w w1 a (ap (λ y. (y, w1)) g)
                                (sym same);
                        pushed =
                            subst (λ y. Pushed p w w' y) base
                              (subst (λ y. Pushed p w y (base_of x)) out
                                (Pushed-from p w1 w w2 (base_of x) remote records
                                  (push_phase-Pushed p w1 w2 x (ap (λ y. (y, w2)) g'))));
                      },
                    )
              ]
            ]
      ]
    ]
  ]
