-- ===== src/Fanout/Plan/Converges.antt =====
-- Planning again what a run has executed.
use skill_sync_sidecar.Common.{String, ◌≡◌, refl, sym}
use skill_sync_sidecar.Common.{◌∙◌, ap, ◌≢◌, ◌⊎◌, inl, inr, true, false}
use skill_sync_sidecar.Common.{Option, none, some, List, arith}
use skill_sync_sidecar.Common.{option_eq, string_eq, nat_eq, Bool-cases}
use skill_sync_sidecar.Common.{ok}
use mathlib.Core.Path.{subst}
use skill_sync_sidecar.Fanout.{file, directory, Entry, symlink, thing, Disk}
use skill_sync_sidecar.Fanout.{entry_hash}
use skill_sync_sidecar.Common.Dict.{Dict, lookup}
use skill_sync_sidecar.Fanout.Items.{FanoutTool, FanoutSkill, FanoutItem, is_noop}
use skill_sync_sidecar.Fanout.Items.{is_link_mode}
use skill_sync_sidecar.Fanout.Plan.{plan_entry, link_action, directory_action, copy_action}
use skill_sync_sidecar.Fanout.Items.{update_copy, adopt}
use skill_sync_sidecar.Fanout.Items.{up_to_date}
use skill_sync_sidecar.Fanout.Plan.Fits.{IsSource}
use skill_sync_sidecar.Fanout.Execute.{Place, Luck, Done, temp_name, execute_item, hash_text}
use skill_sync_sidecar.Fanout.Execute.Item.{execute_item-IsPlaced}
use skill_sync_sidecar.Fanout.Rollback.{kind_of, placed_link, placed_copy}

module _ (D : Disk) (canonical : String) (roots : List String) (tool : FanoutTool)
    (skill : FanoutSkill) (source : IsSource D canonical skill)
    (resolved : D.real skill.path ≡ skill.path) (h : String)
    (hashed : entry_hash D (some (thing (directory source.tree))) ≡ some h) where
  plan : Dict String String → Option Entry → FanoutItem
  plan ledger entry = plan_entry D canonical roots tool ledger skill entry

  -- A link to the source is up to date in link mode.
  plan_entry-linked :
      (ledger : Dict String String)
      → is_link_mode tool.mode ≡ true
      → (plan ledger (some (symlink skill.path))).action ≡ up_to_date
  unfolding plan plan_entry link_action
  plan_entry-linked ledger mode = ground (arith, resolved)

  -- A copy of the source with its hash in the ledger is up to date in copy mode.
  plan_entry-copied :
      (ledger : Dict String String)
      → is_link_mode tool.mode ≡ false
      → lookup skill.name ledger ≡ some h
      → (plan ledger (some (thing (directory source.tree)))).action ≡ up_to_date
  unfolding plan plan_entry directory_action copy_action
  plan_entry-copied ledger mode recorded = ground (arith, hashed, source.there)

  -- What an item that acts does, by mode.
  record IsKindly (item : FanoutItem) : Type 0 where
    name : item.name ≡ skill.name
    source_path : item.source_path ≡ skill.path
    links : is_link_mode tool.mode ≡ true → kind_of item.action ≡ placed_link
    copies :
        is_link_mode tool.mode ≡ false
        → (kind_of item.action ≡ placed_copy × (item.content_hash ≡ some h)) ⊎ (item.action ≡ adopt)

  plan_entry-IsKindly :
      (ledger : Dict String String) (entry : Option Entry)
      → is_noop (plan ledger entry).action ≡ false
      → IsKindly (plan ledger entry)
  unfolding plan plan_entry link_action directory_action copy_action kind_of
  plan_entry-IsKindly ledger none acts = record {
    name = refl;
    source_path = refl;
    links = λ mode. ground arith;
    copies = λ mode. ground (arith, hashed, source.there);
  }
  plan_entry-IsKindly ledger (some (symlink raw)) acts = record {
    name = ground arith;
    source_path = ground arith;
    links = λ mode. ground arith;
    copies = λ mode. ground (arith, hashed, source.there);
  }
  plan_entry-IsKindly ledger (some (thing file)) acts = absurd (ground arith)
  plan_entry-IsKindly ledger (some (thing (directory t))) acts = record {
    name = ground arith;
    source_path = ground arith;
    links = λ mode. ground arith;
    copies = λ mode. ground (arith, hashed, source.there);
  }

  -- An adopted copy is recorded with its own hash, and only a directory is adopted.
  plan_entry-adopts :
      (ledger ledger' : Dict String String) (entry : Option Entry)
      → (plan ledger entry).action ≡ adopt
      → lookup skill.name ledger' ≡ some (hash_text (plan ledger entry).content_hash)
      → ((plan ledger' entry).action ≡ up_to_date) ⊎ ((plan ledger' entry).action ≡ update_copy)
  unfolding plan plan_entry link_action directory_action copy_action
  plan_entry-adopts ledger ledger' none acts recorded = absurd (ground arith)
  plan_entry-adopts ledger ledger' (some (symlink raw)) acts recorded = absurd (ground arith)
  plan_entry-adopts ledger ledger' (some (thing file)) acts recorded = absurd (ground arith)
  plan_entry-adopts ledger ledger' (some (thing (directory t))) acts recorded = ground arith

  -- An entry is planned for a skill of the canonical root, and the item executed; the skill's path is
  -- resolved, and its directory is a skill. If the execution returns, planning again finds the
  -- entry up to date, but for a copy that was adopted: that may have an update left to do.
  pub plan_entry-execute_item :
      (luck : Luck) (run_id : String) (p p1 : Place) (done : Done)
      → let item = plan_entry D canonical roots tool p.ledger skill (p.entries skill.name) in
        let next = plan_entry D canonical roots tool p1.ledger skill (p1.entries skill.name) in
        is_noop item.action ≡ false
        → skill.name ≢ temp_name run_id skill.name
        → execute_item D luck run_id item p ≡ (ok done, p1)
        → (next.action ≡ up_to_date) ⊎ ((item.action ≡ adopt) × (next.action ≡ update_copy))
  unfolding plan
  plan_entry-execute_item luck run_id p p1 done acts apart e =
      let item : FanoutItem = plan p.ledger (p.entries skill.name) in
      let kind = plan_entry-IsKindly p.ledger (p.entries skill.name) acts in
      let placed =
        execute_item-IsPlaced D luck run_id item p p1 done
          (subst (λ n. n ≢ temp_name run_id n) (sym kind.name) apart) e in
      let step : (entry : Option Entry)
          → p1.entries skill.name ≡ entry
          → (plan p1.ledger (p1.entries skill.name)).action ≡ (plan p1.ledger entry).action =
        λ entry here. ap (λ x. (plan p1.ledger x).action) here in
      elim (Bool-cases (is_link_mode tool.mode)) [
        | inl mode ↦
            let here : p1.entries skill.name ≡ some (symlink skill.path) =
              ground (arith, placed.links (kind.links mode), kind.name, kind.source_path) in
            inl (step (some (symlink skill.path)) here ∙ plan_entry-linked p1.ledger mode)
        | inr mode ↦ elim (kind.copies mode) [
          | inl (k, hash) ↦
              let (copied, recorded) = placed.copies k in
              let here : p1.entries skill.name ≡ some (thing (directory source.tree)) =
                ground (arith, copied, kind.name, kind.source_path, source.there) in
              inl (
                step (some (thing (directory source.tree))) here
                ∙ plan_entry-copied p1.ledger mode (ground (arith, recorded, kind.name, hash)))
          | inr adopts ↦
              let (kept, recorded) = placed.adopted adopts in
              let here : p1.entries skill.name ≡ p.entries skill.name =
                ground (arith, kept, kind.name) in
              elim (plan_entry-adopts p.ledger p1.ledger (p.entries skill.name) adopts
                (ground (arith, recorded, kind.name))) [
                  | inl settled ↦ inl (step (p.entries skill.name) here ∙ settled)
                  | inr left ↦ inr (adopts, step (p.entries skill.name) here ∙ left)
                ]
        ]
      ]
