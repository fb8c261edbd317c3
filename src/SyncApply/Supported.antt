-- ===== src/SyncApply/Supported.antt =====
-- What a preview promises: a supported plan can be carried out item by item.
use skill_sync_sidecar.Common.{ℕ, ◌+◌, String, ◌≡◌, refl}
use skill_sync_sidecar.Common.{◌↔◌, Bool, true, ◌&&◌, ◌||◌}
use skill_sync_sidecar.Common.{not, Option, none, some, List, [], ◌∷◌, map, arith, if◌then◌else◌}
use skill_sync_sidecar.Common.{Option-cases, inl, inr, truthy, or_else_text, sym, ◌∙◌}
use skill_sync_sidecar.Common.{◌==◌, contains, option_eq, string_eq, nat_eq}
use skill_sync_sidecar.Common.{count_if}
use skill_sync_sidecar.Common.{All, ok}
use mathlib.Core.Path.{subst, fun_ext}
use skill_sync_sidecar.Common.{>>=-eq-ok}
use skill_sync_sidecar.Common.Dict.{Dict, lookup, insert, lookup-insert, lookup-nil}
use skill_sync_sidecar.Skill.{Entry, Index}
use skill_sync_sidecar.SyncState.Overrides.{Projections}
use skill_sync_sidecar.SyncState.Status.{Inputs, build_sync_status}
use skill_sync_sidecar.SyncPlan.{SyncPlanItem, SyncPlan, build_sync_plan}
use skill_sync_sidecar.SyncPlan.Counts.{build_sync_plan-Tallies}
use skill_sync_sidecar.SyncApply.{
  is_pull, is_push, is_supported, PreviewItem, enrich, enrich_all, Preview,
}
use skill_sync_sidecar.SyncApply.{
  preview_of, Options, build_sync_apply_preview, targets_tool, allowed_scopes,
}
use skill_sync_sidecar.SyncApply.{remote_entries_by_skill_id, remote_loop}

abbrev pub one_if : Bool → ℕ
one_if b = if b then 1 else 0

-- An item that the preview supports is allowed, is no deletion, and if it is a pull, then of a
-- scope that the target takes.
pub record IsSupported (scopes : List String) (target : String) (p : PreviewItem) : Type 0 where
  pub allowed : p.item.allowed ≡ true
  pub action : is_supported p.item.plan_action ≡ true
  pub scope : is_pull p.item.plan_action ≡ true → contains scopes p.remote_scope ≡ true
  pub tool : is_pull p.item.plan_action ≡ true → targets_tool p.remote_targets target ≡ true

-- The last entry of the skill in the index.
pub last_of : String → List Entry → Option Entry
last_of k [] = none
last_of k (e ∷ es) = elim (last_of k es) [
  | some later ↦ some later
  | none ↦ if truthy e.skill_id == some k then some e else none
]

remote_loop-last_of :
    (k : String) (es : List Entry) (entries : Dict String Entry)
    → lookup k (remote_loop es entries)
      ≡ elim (last_of k es) [ some e ↦ some e | none ↦ lookup k entries ]
unfolding remote_loop last_of
remote_loop-last_of k [] entries = refl
remote_loop-last_of k (e ∷ es) entries = elim (Option-cases (truthy e.skill_id)) [
  | inl h ↦ elim (Option-cases (last_of k es)) [
    | inl g ↦ rw (h, g) (ground (arith, remote_loop-last_of k es entries))
    | inr (later, g) ↦ rw (h, g) (ground (arith, remote_loop-last_of k es entries))
  ]
  | inr (j, h) ↦
      let there = lookup-insert k j e entries in
      let entries' = insert j e entries in
      elim (Option-cases (last_of k es)) [
        | inl g ↦ rw (h, g) (ground (arith, there, remote_loop-last_of k es entries'))
        | inr (later, g) ↦ rw (h, g) (ground (arith, remote_loop-last_of k es entries'))
      ]
]

-- The entry of the skill in the remote's index, if it has one.
abbrev pub remote_entry : Option Index → String → Option Entry
remote_entry none k = none
remote_entry (some index) k = last_of k index.skills

remote_entries_by_skill_id-remote_entry :
    (index : Option Index) (k : String)
    → lookup k (remote_entries_by_skill_id index) ≡ remote_entry index k
unfolding remote_entries_by_skill_id
remote_entries_by_skill_id-remote_entry none k = lookup-nil {K = String} {V = Entry} k
remote_entries_by_skill_id-remote_entry (some index) k =
    remote_loop-last_of k index.skills [] ∙ (elim (Option-cases (last_of k index.skills)) [
      | inl g ↦ rw g (lookup-nil {K = String} {V = Entry} k)
      | inr (e, g) ↦ rw g refl
    ])

-- The scope and the targets of a previewed item are those of its remote entry.
pub record IsOfEntry (entry : Option Entry) (p : PreviewItem) : Type 0 where
  pub missing : entry ≡ none → (p.remote_scope ≡ "global") × (p.remote_targets ≡ [])
  pub present :
      (e : Entry)
      → entry ≡ some e
      → (p.remote_scope ≡ or_else_text e.scope "global") × (p.remote_targets ≡ e.targets)

module _ (scopes : List String) (target : String) where
  -- What one item adds to the counters.
  record Weighs (remote : Option Entry) (item : SyncPlanItem) : Type 0 where
    same_item : (enrich scopes target remote item).0.item ≡ item
    of_entry : IsOfEntry remote (enrich scopes target remote item).0
    refused :
        (enrich scopes target remote item).2 + one_if (not item.allowed)
        ≡ one_if (not (enrich scopes target remote item).0.sync_apply_supported)
    executes :
        (enrich scopes target remote item).1
        ≡ one_if (
            (enrich scopes target remote item).0.sync_apply_supported
            && (is_pull item.plan_action || is_push item.plan_action))
    supported :
        (enrich scopes target remote item).0.sync_apply_supported ≡ true
        → IsSupported scopes target (enrich scopes target remote item).0

  enrich-Weighs : (remote : Option Entry) (item : SyncPlanItem) → Weighs remote item
  unfolding enrich
  enrich-Weighs remote item = record {
    same_item = ground arith;
    of_entry = record { missing = λ h. ground arith; present = λ e h. ground arith };
    refused = ground arith;
    executes = ground arith;
    supported = λ h. record {
      allowed = ground arith;
      action = ground arith;
      scope = λ pulls. ground arith;
      tool = λ pulls. ground arith;
    };
  }

  -- What the whole loop adds.
  record WeighsAll (remote : Dict String Entry) (items : List SyncPlanItem) : Type 0 where
    same_items : map (λ p. p.item) (enrich_all scopes target remote items).0 ≡ items
    of_entries :
        All
          (λ p. IsOfEntry (lookup p.item.skill_id remote) p)
          (enrich_all scopes target remote items).0
    refused :
        (enrich_all scopes target remote items).2 + count_if (λ item. not item.allowed) items
        ≡ count_if (λ p. not p.sync_apply_supported) (enrich_all scopes target remote items).0
    executes :
        (enrich_all scopes target remote items).1
        ≡ count_if
            (λ p.
              p.sync_apply_supported && (is_pull p.item.plan_action || is_push p.item.plan_action))
            (enrich_all scopes target remote items).0
    supported :
        All
          (λ p. p.sync_apply_supported ≡ true → IsSupported scopes target p)
          (enrich_all scopes target remote items).0

  enrich_all-WeighsAll :
      (remote : Dict String Entry) (items : List SyncPlanItem) → WeighsAll remote items
  unfolding enrich_all
  enrich_all-WeighsAll remote [] = record {
    same_items = refl;
    of_entries = tt;
    refused = refl;
    executes = refl;
    supported = tt;
  }
  enrich_all-WeighsAll remote (item ∷ items) =
      let w = enrich-Weighs (lookup item.skill_id remote) item in
      let rest = enrich_all-WeighsAll remote items in
      let same = w.same_item in
      let e1 = w.refused in
      let e2 = w.executes in
      let e3 = rest.refused in
      let e4 = rest.executes in
      record {
        same_items = ground (arith, rest.same_items);
        of_entries = (
          subst
              (λ (x : SyncPlanItem).
                IsOfEntry (lookup x.skill_id remote)
                  (enrich scopes target (lookup item.skill_id remote) item).0)
              (sym same) w.of_entry,
          rest.of_entries,
        );
        refused = ground arith;
        executes = ground arith;
        supported = (w.supported, rest.supported);
      }

count_if-zero :
    (items : List PreviewItem)
    → (count_if (λ p. not p.sync_apply_supported) items ≡ 0)
      ↔ All (λ p. p.sync_apply_supported ≡ true) items
count_if-zero [] = (λ _. tt, λ _. refl)
count_if-zero (p ∷ ps) = let rest = count_if-zero ps in ground arith

All-IsSupported :
    (scopes : List String) (target : String) (ps : List PreviewItem)
    → All (λ p. p.sync_apply_supported ≡ true → IsSupported scopes target p) ps
    → All (λ p. p.sync_apply_supported ≡ true) ps
    → All (IsSupported scopes target) ps
All-IsSupported scopes target [] _ _ = tt
All-IsSupported scopes target (x ∷ xs) (f, fs) (p, ps) =
    (f p, All-IsSupported scopes target xs fs ps)

-- What the preview of a plan says of it.
pub record Promises (index : Option Index) (target : String) (p : Preview) : Type 0 where
  pub scopes : List String
  pub scopes_of : allowed_scopes target ≡ ok scopes
  pub items : map (λ q. q.item) p.items ≡ p.plan.items
  pub of_entries : All (λ q. IsOfEntry (remote_entry index q.item.skill_id) q) p.items
  pub counts : p.unsupported + p.plan.blocked ≡ count_if (λ q. not q.sync_apply_supported) p.items
  pub executable :
      p.executable
      ≡ count_if
          (λ q.
            q.sync_apply_supported && (is_pull q.item.plan_action || is_push q.item.plan_action))
          p.items
  pub zero : p.supported_to_apply ≡ (p.plan.blocked == 0 && p.unsupported == 0)
  pub supported_iff :
      (p.supported_to_apply ≡ true) ↔ All (λ q. q.sync_apply_supported ≡ true) p.items
  pub supported : p.supported_to_apply ≡ true → All (IsSupported scopes target) p.items

preview_of-Promises :
    (scopes : List String) (target : String) (index : Option Index) (plan : SyncPlan)
    → allowed_scopes target ≡ ok scopes
    → plan.blocked ≡ count_if (λ item. not item.allowed) plan.items
    → Promises index target (preview_of scopes target (remote_entries_by_skill_id index) plan)
unfolding preview_of nat_eq
preview_of-Promises scopes target index plan e blocked =
    let remote = remote_entries_by_skill_id index in
    let w = enrich_all-WeighsAll scopes target remote plan.items in
    let refused = w.refused in
    let zero_iff = count_if-zero (enrich_all scopes target remote plan.items).0 in
    let iff : ((preview_of scopes target remote plan).supported_to_apply ≡ true)
        ↔ All (λ q. q.sync_apply_supported ≡ true) (enrich_all scopes target remote plan.items).0 =
      ground arith in
    record {
      scopes = scopes;
      scopes_of = e;
      items = w.same_items;
      of_entries =
          subst
            (λ (f : String → Option Entry).
              All (λ q. IsOfEntry (f q.item.skill_id) q)
                (enrich_all scopes target remote plan.items).0)
            (fun_ext (remote_entries_by_skill_id-remote_entry index)) w.of_entries;
      counts = ground arith;
      executable = w.executes;
      zero = refl;
      supported_iff = iff;
      supported = λ h.
          All-IsSupported scopes target (enrich_all scopes target remote plan.items).0 w.supported
            (iff.0 h);
    }

-- A preview has the plan's items in order; refused and unsupported items are the blocked ones of
-- the plan and those that it counts as unsupported; the items to execute are the supported pulls
-- and pushes; it is supported exactly if nothing is refused, which is exactly if every item is
-- supported, and then every item is allowed and no
-- deletion, and every pull is of a scope and a tool that the target takes. The scope and the tools
-- of an item are those of the last entry of its skill in the remote's index; without a scope there,
-- or without such an entry, the scope is `global`, and without an entry there are no tools.
pub build_sync_apply_preview-Promises :
    (P : Projections) (i : Inputs) (o : Options) (p : Preview)
    → build_sync_apply_preview P i o ≡ ok p
    → Promises i.index o.target p
unfolding build_sync_apply_preview
build_sync_apply_preview-Promises P i o p h =
    let (scopes, e1, h1) = >>=-eq-ok (allowed_scopes o.target) _ h in
    let (status, e2, h2) = >>=-eq-ok (build_sync_status P i) _ h1 in
    let (plan, e3, h3) =
      >>=-eq-ok (build_sync_plan o.allow_new o.allow_delete o.writer_policy status) _ h2 in
    let t = build_sync_plan-Tallies o.allow_new o.allow_delete o.writer_policy status plan e3 in
    let same : preview_of scopes o.target (remote_entries_by_skill_id i.index) plan ≡ p = cc in
    subst (Promises i.index o.target) same
      (preview_of-Promises scopes o.target i.index plan e1 t.blocked)
