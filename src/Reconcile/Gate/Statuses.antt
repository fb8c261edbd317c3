-- ===== src/Reconcile/Gate/Statuses.antt =====
-- The statuses that a reconcile report counts, and the tests of the gate.
use skill_sync_sidecar.Common.{String, ◌≡◌, refl}
use skill_sync_sidecar.Common.{◌∙◌, ap, ◌↔◌, Bool, true, false, ◌&&◌, ◌||◌}
use skill_sync_sidecar.Common.{not, Option, none, some, List, [], ◌∷◌, map, arith}
use skill_sync_sidecar.Common.{◌==◌, contains, option_eq, string_eq, nat_eq}
use skill_sync_sidecar.Common.{count_if}
use skill_sync_sidecar.Common.{is_empty, ok}
use mathlib.Core.Path.{subst}
use skill_sync_sidecar.Common.{from_value}
use skill_sync_sidecar.Common.Dict.{Dict, lookup}
use skill_sync_sidecar.Skill.{Entry, hash_of}
use skill_sync_sidecar.Reconcile.{Files, ReconcileItem, Status, local_new}
use skill_sync_sidecar.Reconcile.{remote_new, same_without_base, conflict, status_name, status_of}
use skill_sync_sidecar.Reconcile.{differing, reconcile_item, reconcile_items}
use skill_sync_sidecar.Reconcile.Gate.{GateReport, blockers}
use skill_sync_sidecar.Reconcile.Gate.{count_of, changed_or_zero}

-- The two sides agree on a skill: both have it in one version, or neither; or, if the report need
-- not be complete, only the remote has it.
abbrev pub agrees : Bool → Option Entry → Option Entry → Bool
agrees complete none none = true
agrees complete none (some r) = not complete
agrees complete (some l) none = false
agrees complete (some l) (some r) = hash_of (some l) == hash_of (some r)

-- The skill is not in the device's previous and its present inventory in different versions.
abbrev pub is_kept : Option Entry → Option Entry → Bool
is_kept (some p) (some l) = hash_of (some p) == hash_of (some l)
is_kept _ _ = true

pub is_empty-blockers :
    (r : GateReport) (complete : Bool)
    → is_empty (blockers r complete) ≡ (
        r.safe_to_auto_apply
        && (count_of "conflict" r == 0)
        && (count_of "local_new" r == 0)
        && (changed_or_zero r.changed_count == 0)
        && (not complete || count_of "remote_new" r == 0))
unfolding blockers
is_empty-blockers r complete = ground arith

-- The status of an item.
pub reconcile_item-status :
    (F : Files) (locals remotes : Dict String Entry) (k : String) (item : ReconcileItem)
    → reconcile_item F locals remotes k ≡ ok item
    → item.status ≡ status_of (lookup k locals) (lookup k remotes)
unfolding reconcile_item
reconcile_item-status F locals remotes k item h =
    from_value
      (differing F (status_of (lookup k locals) (lookup k remotes)) (lookup k locals)
        (lookup k remotes))
      _ h (λ diff e h'. ground (arith, h'))

abbrev pub statuses : Dict String Entry → Dict String Entry → List String → List String
statuses locals remotes ks =
    map (λ k. status_name (status_of (lookup k locals) (lookup k remotes))) ks

pub reconcile_items-statuses :
    (F : Files) (locals remotes : Dict String Entry) (ks : List String) (items : List ReconcileItem)
    → reconcile_items F locals remotes ks ≡ ok items
    → map (λ i. status_name i.status) items ≡ statuses locals remotes ks
unfolding reconcile_items
reconcile_items-statuses F locals remotes [] [] h = refl
reconcile_items-statuses F locals remotes [] (i ∷ items) h = absurd (ground arith)
reconcile_items-statuses F locals remotes (k ∷ ks) items h =
    from_value (reconcile_item F locals remotes k) _ h (λ item e h1.
      from_value (reconcile_items F locals remotes ks) _ h1 (λ rest e' h2.
        let same : item ∷ rest ≡ items = ground (arith, h2) in
        subst (λ its. map (λ i. status_name i.status) its ≡ statuses locals remotes (k ∷ ks)) same
          (ground (
            arith,
            reconcile_item-status F locals remotes k item e,
            reconcile_items-statuses F locals remotes ks rest e',
          ))))

-- Counting none means that every member fails the test.
pub count_if-zero :
    (p : String → Bool) (xs : List String)
    → (count_if p xs ≡ 0) ↔ ((k : String) → contains xs k ≡ true → p k ≡ false)
count_if-zero p [] = (λ h k m. absurd (ground arith), λ h. refl)
count_if-zero p (x ∷ xs) =
    let rest = count_if-zero p xs in
    (
      λ h k m. elim (string_eq.dec k x) [
        | yes e ↦ ap p e ∙ ground (arith, h)
        | no n ↦ rest.0 (ground (arith, h)) k (ground arith)
      ],
      λ h.
          let here = h x (ground arith) in
          let none_left = rest.1 (λ k m. h k (ground arith)) in ground (arith, here, none_left),
    )

unfoldable pub is_conflict : Status → Bool
is_conflict conflict = true
is_conflict _ = false

unfoldable pub is_local_new : Status → Bool
is_local_new local_new = true
is_local_new _ = false

unfoldable pub is_remote_new : Status → Bool
is_remote_new remote_new = true
is_remote_new _ = false

pub named_conflict : (s : Status) → ("conflict" == status_name s) ≡ is_conflict s
unfolding string_eq is_conflict
named_conflict local_new = refl
named_conflict remote_new = refl
named_conflict same_without_base = refl
named_conflict conflict = refl

pub named_local_new : (s : Status) → ("local_new" == status_name s) ≡ is_local_new s
unfolding string_eq is_local_new
named_local_new local_new = refl
named_local_new remote_new = refl
named_local_new same_without_base = refl
named_local_new conflict = refl

pub named_remote_new : (s : Status) → ("remote_new" == status_name s) ≡ is_remote_new s
unfolding string_eq is_remote_new
named_remote_new local_new = refl
named_remote_new remote_new = refl
named_remote_new same_without_base = refl
named_remote_new conflict = refl

pub agrees-status_of :
    (complete : Bool) (l r : Option Entry)
    → agrees complete l r ≡ (
        not (is_conflict (status_of l r))
        && not (is_local_new (status_of l r))
        && (not complete || not (is_remote_new (status_of l r))))
unfolding status_of is_conflict is_local_new is_remote_new hash_of
agrees-status_of complete none none = ground arith
agrees-status_of complete none (some r) = ground arith
agrees-status_of complete (some l) none = ground arith
agrees-status_of complete (some l) (some r) = ground arith
