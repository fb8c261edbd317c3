-- ===== src/SyncApply/Execute/Guards.antt =====
-- A run that its guards refuse changes nothing.
use skill_sync_sidecar.Common.{String, ◌≡◌, refl}
use skill_sync_sidecar.Common.{◌≢◌, ◌⊎◌, inl, inr, true, ◌||◌}
use skill_sync_sidecar.Common.{Option, none, some, List, arith}
use skill_sync_sidecar.Common.{◌==◌, option_eq, string_eq, nat_eq}
use skill_sync_sidecar.Common.{All, Result, ok, require}
use skill_sync_sidecar.Common.{>>=-eq-ok, Result-cases}
use skill_sync_sidecar.SyncState.Overrides.{Projections}
use skill_sync_sidecar.SyncState.Status.{Inputs}
use skill_sync_sidecar.Skill.{Index}
use skill_sync_sidecar.Stage.{Hashing}
use skill_sync_sidecar.SyncApply.{Preview, Options, build_sync_apply_preview, is_push}
use skill_sync_sidecar.SyncApply.Supported.{build_sync_apply_preview-Promises, IsSupported}
use skill_sync_sidecar.SyncApply.Execute.{Device, World, SyncResult, guards, count_actions}
use skill_sync_sidecar.SyncApply.Execute.{
  execute_sync_apply, assert_remote_matches_cache, remote_index, same_dict,
}
use skill_sync_sidecar.SyncApply.Execute.{hashes_by_skill_id}

module _ {H : Hashing} (D : Device H) where
  -- What the guards of a run have found, with the index that was then on the remote.
  pub record IsCleared (i : Inputs) (o : Options) (w : World H) (p : Preview) : Type 1 where
    pub supported : p.plan.blocked ≡ 0
    pub executable : p.unsupported ≡ 0
    pub scopes : List String
    pub items : All (IsSupported scopes o.target) p.items
    pub remote : count_actions is_push p ≢ 0 → D.has_remote ≡ true
    pub unchanged :
        count_actions is_push p ≢ 0
        → (cache : Index) × (index : Index) × (i.index ≡ some cache)
          × (remote_index D w.remote ≡ ok index)
          × (same_dict (hashes_by_skill_id index) (hashes_by_skill_id cache) ≡ true)

  matches-unchanged :
      (index : Option Index) (w : World H)
      → assert_remote_matches_cache D index w.remote ≡ ok tt
      → (cache : Index) × (now : Index) × (index ≡ some cache)
        × (remote_index D w.remote ≡ ok now)
        × (same_dict (hashes_by_skill_id now) (hashes_by_skill_id cache) ≡ true)
  unfolding assert_remote_matches_cache
  matches-unchanged none w h = absurd (ground arith)
  matches-unchanged (some cache) w h =
      let (now, e, h') = >>=-eq-ok (remote_index D w.remote) _ h in
      (cache, now, refl, e, ground arith)

  pub guards-IsCleared :
      (P : Projections) (i : Inputs) (o : Options) (w : World H) (p : Preview)
      → build_sync_apply_preview P i o ≡ ok p
      → guards D i.index p w.remote ≡ ok tt
      → IsCleared i o w p
  unfolding guards nat_eq
  guards-IsCleared P i o w p made h =
      let (_, e1, h1) = >>=-eq-ok (require (p.plan.blocked == 0) _) _ h in
      let (_, e2, h2) = >>=-eq-ok (require (p.unsupported == 0) _) _ h1 in
      let (_, e3, h3) = >>=-eq-ok (require (count_actions is_push p == 0 || D.has_remote) _) _ h2 in
      let promises = build_sync_apply_preview-Promises P i o p made in
      let applies = promises.zero in
      record {
        supported = ground arith;
        executable = ground arith;
        scopes = promises.scopes;
        items = promises.supported (ground arith);
        remote = λ some_push. ground arith;
        unchanged = λ some_push. matches-unchanged i.index w (ground arith);
      }

  -- A run leaves disk, remote and base records as they are, unless its plan has no blocked and no
  -- unsupported item, every item is one that it can carry out, and, if there is anything to push,
  -- a remote is given whose skills and versions are still those of the cached index.
  pub execute_sync_apply-IsCleared :
      (P : Projections) (i : Inputs) (o : Options) (w w' : World H) (r : Result SyncResult)
      → execute_sync_apply D P i o w ≡ (r, w')
      → (w' ≡ w) ⊎ ((p : Preview) × (build_sync_apply_preview P i o ≡ ok p) × IsCleared i o w p)
  unfolding execute_sync_apply
  execute_sync_apply-IsCleared P i o w w' r h =
      elim (Result-cases (build_sync_apply_preview P i o)) [
        | inr (e, made) ↦ inl (ground arith)
        | inl (p, made) ↦ elim (Result-cases (guards D i.index p w.remote)) [
          | inr (e, refused) ↦ inl (ground arith)
          | inl (tt, cleared) ↦ inr (p, made, guards-IsCleared P i o w p made cleared)
        ]
      ]
