-- ===== src/Fanout/Run/Undo.antt =====
-- One tool in a run, and rolling its report back.
use skill_sync_sidecar.Common.{String, ◌≡◌, refl}
use skill_sync_sidecar.Common.{◌∙◌, ap, inl, inr, true}
use skill_sync_sidecar.Common.{not, List, [], ◌∷◌, map, arith}
use skill_sync_sidecar.Common.{option_eq, string_eq, nat_eq, Bool-cases}
use skill_sync_sidecar.Common.{All}
use mathlib.Core.List.{reverse}
use skill_sync_sidecar.Common.Dict.{Dict}
use skill_sync_sidecar.Common.Sorted.{NodupTexts}
use skill_sync_sidecar.Fanout.{Disk}
use skill_sync_sidecar.Fanout.Items.{FanoutTool, FanoutItem, is_link_mode}
use skill_sync_sidecar.Fanout.Plan.{tool_plan}
use skill_sync_sidecar.Fanout.Plan.Composes.{IsStart, IsGoodSkill, rollback_tool-plan_items}
use skill_sync_sidecar.Fanout.Execute.Item.{IsSafe}
use skill_sync_sidecar.Fanout.Execute.{Place, Luck, Done, execute_items}
use skill_sync_sidecar.Fanout.Rollback.{undo, undo_all, rollback_tool}
use skill_sync_sidecar.Fanout.Run.{Around, RanTool}
use skill_sync_sidecar.Fanout.Run.{run_tool}
use skill_sync_sidecar.Fanout.Run.{plan_of, ledger_of}
use skill_sync_sidecar.Fanout.Execute.Names.{IsVisible}

module _ (D : Disk) (canonical : String) where
  abbrev with_ledger : Dict String String → Place → Place
  with_ledger l p = record p { ledger = l }

  -- Undoing does not look at the ledger.
  undo-with_ledger :
      (done : Done) (p : Place) (l : Dict String String)
      → (undo D canonical true done (with_ledger l p)).1
        ≡ with_ledger l (undo D canonical true done p).1
  unfolding undo
  undo-with_ledger done p l = ground arith

  undo_all-with_ledger :
      (executed : List Done) (p : Place) (l : Dict String String)
      → (undo_all D canonical true executed (with_ledger l p)).1
        ≡ with_ledger l (undo_all D canonical true executed p).1
  unfolding undo_all
  undo_all-with_ledger [] p l = refl
  undo_all-with_ledger (done ∷ executed) p l =
      ap (λ q. (undo_all D canonical true executed q).1) (undo-with_ledger done p l)
      ∙ undo_all-with_ledger executed (undo D canonical true done p).1 l

-- The same visible entries and the same ledger.
pub record IsSame (p p' : Place) : Type 0 where
  pub entries : (n : String) → IsVisible n → p'.entries n ≡ p.entries n
  pub ledger : p'.ledger ≡ p.ledger

unfoldable pub roll_back_tool : Around → RanTool → Place → Place
roll_back_tool A r p =
    (rollback_tool A.disk A.canonical true r.is_copy r.ledger_before r.executed p).1

module _ (A : Around) (luck : FanoutTool → FanoutItem → Luck) (run_id : String) where
  -- A tool's place as the run finds it.
  pub record IsReady (tool : FanoutTool) (p : Place) : Type 0 where
    pub start :
        (ledger : Dict String String)
        → IsStart A.disk A.canonical A.roots tool A.given ledger (record p { ledger = ledger })
    pub listing : NodupTexts (A.listing tool p)

  -- The canonical root's skills, and the items' file operations.
  pub record AreSkills : Type 0 where
    pub safe : (tool : FanoutTool) (item : FanoutItem) → IsSafe (luck tool item)
    pub good :
        (tool : FanoutTool) → All (IsGoodSkill A.disk A.canonical A.roots tool A.given) A.skills
    pub distinct : NodupTexts (map (λ s. s.name) A.skills)

  pub run_tool-IsSame :
      (tool : FanoutTool) (p : Place)
      → AreSkills
      → IsReady tool p
      → let (report, links, p') = run_tool A luck run_id tool p in
        IsSame p (roll_back_tool A report p')
  unfolding roll_back_tool run_tool plan_of tool_plan rollback_tool
  run_tool-IsSame tool p skills ready =
      let ledger = ledger_of A tool p in
      let q : Place = record p { ledger = ledger } in
      let items = (plan_of A tool p).items in
      let run = execute_items A.disk (luck tool) run_id items q in
      let (entries, back) =
        rollback_tool-plan_items A.disk A.canonical A.roots tool A.given ledger q (luck tool) run_id
          A.skills (A.listing tool p) (not (is_link_mode tool.mode)) ledger (skills.safe tool)
          (ready.start ledger) (skills.good tool) skills.distinct ready.listing in
      let same =
        undo_all-with_ledger A.disk A.canonical (reverse run.executed) run.place p.ledger in
      elim (Bool-cases (is_link_mode tool.mode)) [
        | inl is_link ↦ record {
          entries = λ n v. ground (arith, entries n v, same);
          ledger = ground (arith, same);
        }
        | inr is_copy ↦ record {
          entries = λ n v. ground (arith, entries n v);
          ledger = ground (arith, back);
        }
      ]
