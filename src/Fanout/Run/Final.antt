-- ===== src/Fanout/Run/Final.antt =====
-- Rolling back the record of a run over all tools.
use skill_sync_sidecar.Common.{String, ◌≡◌, refl, sym}
use skill_sync_sidecar.Common.{◌∙◌, ap, inl, inr, Bool, true, false, ◌&&◌}
use skill_sync_sidecar.Common.{Option, none, some, List, [], ◌∷◌, ◌++◌, arith}
use skill_sync_sidecar.Common.{contains, option_eq, string_eq, nat_eq}
use skill_sync_sidecar.Common.{Option-cases}
use skill_sync_sidecar.Common.{All, Error, ok}
use mathlib.Core.Path.{subst}
use mathlib.Core.List.{reverse, reverse-append}
use skill_sync_sidecar.Common.Sorted.{NodupTexts}
use skill_sync_sidecar.Fanout.Items.{FanoutTool, FanoutItem}
use skill_sync_sidecar.Fanout.Execute.{Place, Luck}
use skill_sync_sidecar.Fanout.Rollback.{rollback_tool}
use skill_sync_sidecar.Fanout.Run.{Around, Places, set_place, RanTool, ToolReport, skipped_tool}
use skill_sync_sidecar.Fanout.Run.{ran_tool, skip_reason, run_tool, admitted, run_tools, run_fanout}
use skill_sync_sidecar.Fanout.Run.{roll_back_reports, rollback_fanout}
use skill_sync_sidecar.Fanout.Run.Accounts.{
  run_tools-raises, run_tools-skips, run_tools-runs, ids, run_tool-id,
}
use skill_sync_sidecar.Fanout.Run.{FanoutRecord, save_fails, finish, last_error}
use skill_sync_sidecar.Fanout.Tools.{chosen_tools}
use skill_sync_sidecar.Fanout.Run.Undo.{IsReady, AreSkills, IsSame, roll_back_tool, run_tool-IsSame}

module _ (A : Around) (is_held : String → Bool) (free : (i : String) → is_held i ≡ false) where
  roll_back : List ToolReport → Places → Places
  roll_back reports places = (roll_back_reports A is_held true reports places).2

  roll_back-append :
      (xs : List ToolReport) (report : ToolReport) (places : Places)
      → roll_back (xs ++ (report ∷ [])) places ≡ roll_back (report ∷ []) (roll_back xs places)
  unfolding roll_back_reports roll_back
  roll_back-append [] report places = refl
  roll_back-append (skipped_tool i reason ∷ xs) report places = roll_back-append xs report places
  roll_back-append (ran_tool r ∷ xs) report places =
      let p =
        (rollback_tool A.disk A.canonical true r.is_copy r.ledger_before r.executed
          (places r.tool_id)).1 in
      ground (arith, free r.tool_id, roll_back-append xs report (set_place r.tool_id p places))

  roll_back-skipped :
      (i reason : String) (places : Places) → roll_back (skipped_tool i reason ∷ []) places ≡ places
  unfolding roll_back_reports roll_back
  roll_back-skipped i reason places = refl

  roll_back-ran :
      (r : RanTool) (places : Places)
      → roll_back (ran_tool r ∷ []) places
        ≡ set_place r.tool_id (roll_back_tool A r (places r.tool_id)) places
  unfolding roll_back_reports roll_back roll_back_tool
  roll_back-ran r places = ground (arith, free r.tool_id)

  module _ (luck : FanoutTool → FanoutItem → Luck) (run_id : String) where
    -- The places after a run and its rollback.
    final : List FanoutTool → Places → Places
    final tools places =
        let (reports, linked, failure, left) = run_tools A luck run_id tools places in
        roll_back (reverse reports) left

    final-raises :
        (tool : FanoutTool) (tools : List FanoutTool) (places : Places) (e : Error)
        → admitted A luck run_id tool ≡ some e
        → final (tool ∷ tools) places ≡ places
    unfolding final roll_back roll_back_reports
    final-raises tool tools places e h =
        ap (λ (r : List ToolReport × Bool × Option Error × Places). roll_back (reverse r.0) r.3)
          (run_tools-raises A luck run_id tool tools places e h)

    final-skips :
        (tool : FanoutTool) (tools : List FanoutTool) (places : Places) (reason : String)
        → admitted A luck run_id tool ≡ none
        → skip_reason A tool ≡ some reason
        → final (tool ∷ tools) places ≡ final tools places
    unfolding final
    final-skips tool tools places reason h h' =
        let r = run_tools A luck run_id tools places in
        ap (λ (r : List ToolReport × Bool × Option Error × Places). roll_back (reverse r.0) r.3)
          (run_tools-skips A luck run_id tool tools places reason h h')
        ∙ (ap (λ xs. roll_back xs r.3) (reverse-append (skipped_tool tool.tool_id reason ∷ []) r.0)
            ∙ (roll_back-append (reverse r.0) (skipped_tool tool.tool_id reason) r.3
                ∙ roll_back-skipped tool.tool_id reason (roll_back (reverse r.0) r.3)))

    final-runs :
        (tool : FanoutTool) (tools : List FanoutTool) (places : Places)
        → admitted A luck run_id tool ≡ none
        → skip_reason A tool ≡ none
        → save_fails A luck run_id tool ≡ none
        → final (tool ∷ tools) places ≡ (
            let t = run_tool A luck run_id tool (places tool.tool_id) in
            let rest = final tools (set_place tool.tool_id t.2 places) in
            set_place tool.tool_id (roll_back_tool A t.0 (rest tool.tool_id)) rest)
    unfolding final
    final-runs tool tools places h h' s =
        let t = run_tool A luck run_id tool (places tool.tool_id) in
        let r = run_tools A luck run_id tools (set_place tool.tool_id t.2 places) in
        let rest = roll_back (reverse r.0) r.3 in
        ap (λ (r : List ToolReport × Bool × Option Error × Places). roll_back (reverse r.0) r.3)
          (run_tools-runs A luck run_id tool tools places h h' s)
        ∙ (ap (λ xs. roll_back xs r.3) (reverse-append (ran_tool t.0 ∷ []) r.0)
            ∙ (roll_back-append (reverse r.0) (ran_tool t.0) r.3
                ∙ (roll_back-ran t.0 rest
                    ∙ ap (λ i. set_place i (roll_back_tool A t.0 (rest i)) rest)
                        (run_tool-id A luck run_id tool (places tool.tool_id)))))

    -- What a run and its rollback leave.
    record IsFinal (tools : List FanoutTool) (places left : Places) : Type 0 where
      elsewhere : (i : String) → contains (ids tools) i ≡ false → left i ≡ places i
      same : (i : String) → IsSame (places i) (left i)

    IsSame-refl : (p : Place) → IsSame p p
    IsSame-refl p = record { entries = λ n v. refl; ledger = refl }

    -- The tools as the run finds them.
    abbrev pub AreReady : List FanoutTool → Places → Type 0
    AreReady tools places = All (λ t. IsReady A luck run_id t (places t.tool_id)) tools

    -- Saving the tools' ledgers works.
    abbrev pub AreSaved : List FanoutTool → Type 0
    AreSaved tools = All (λ t. save_fails A luck run_id t ≡ none) tools

    AreReady-set_place :
        (tools : List FanoutTool) (i : String) (p : Place) (places : Places)
        → contains (ids tools) i ≡ false
        → AreReady tools places
        → AreReady tools (set_place i p places)
    AreReady-set_place [] i p places out ready = tt
    AreReady-set_place (t ∷ tools) i p places out (r, ready) =
        let kept : places t.tool_id ≡ set_place i p places t.tool_id = ground arith in
        (
          subst (IsReady A luck run_id t) kept r,
          AreReady-set_place tools i p places (ground arith) ready,
        )

    IsFinal-runs :
        (tool : FanoutTool) (tools : List FanoutTool) (places : Places)
        → AreSkills A luck run_id
        → IsReady A luck run_id tool (places tool.tool_id)
        → contains (ids tools) tool.tool_id ≡ false
        → let t = run_tool A luck run_id tool (places tool.tool_id) in
          let places1 = set_place tool.tool_id t.2 places in
          (rest : Places)
          → IsFinal tools places1 rest
          → IsFinal
              (tool ∷ tools)
              places
              (set_place tool.tool_id (roll_back_tool A t.0 (rest tool.tool_id)) rest)
    IsFinal-runs tool tools places skills ready new rest done =
        let t = run_tool A luck run_id tool (places tool.tool_id) in
        let back = run_tool-IsSame A luck run_id tool (places tool.tool_id) skills ready in
        let here : rest tool.tool_id ≡ t.2 = ground (arith, done.elsewhere tool.tool_id) in
        let back' : IsSame (places tool.tool_id) (roll_back_tool A t.0 (rest tool.tool_id)) =
          subst (λ p. IsSame (places tool.tool_id) (roll_back_tool A t.0 p)) (sym here) back in
        record {
          elsewhere = λ i out. ground (arith, done.elsewhere i);
          same = λ i. record {
            entries = λ n v. ground (arith, back'.entries n v, (done.same i).entries n v);
            ledger = ground (arith, back'.ledger, (done.same i).ledger);
          };
        }

    final-IsFinal :
        (tools : List FanoutTool) (places : Places)
        → AreSkills A luck run_id
        → AreReady tools places
        → AreSaved tools
        → NodupTexts (ids tools)
        → IsFinal tools places (final tools places)
    unfolding final roll_back roll_back_reports run_tools
    final-IsFinal [] places skills ready saved u = record {
      elsewhere = λ i out. refl;
      same = λ i. IsSame-refl (places i);
    }
    final-IsFinal (tool ∷ tools) places skills (r, ready) (s, saved) (new, u) =
        elim (Option-cases (admitted A luck run_id tool)) [
          | inr (e, h) ↦
              rw (final-raises tool tools places e h)
                (record { elsewhere = λ i out. refl; same = λ i. IsSame-refl (places i) })
          | inl h ↦ elim (Option-cases (skip_reason A tool)) [
            | inr (reason, h') ↦
                let rest = final-IsFinal tools places skills ready saved u in
                rw (final-skips tool tools places reason h h') (record {
                  elsewhere = λ i out. rest.elsewhere i (ground arith);
                  same = rest.same;
                })
            | inl h' ↦
                let t = run_tool A luck run_id tool (places tool.tool_id) in
                let places1 = set_place tool.tool_id t.2 places in
                rw (final-runs tool tools places h h' s) (
                  IsFinal-runs tool tools places skills r new (final tools places1) (
                    final-IsFinal tools places1 skills
                      (AreReady-set_place tools tool.tool_id t.2 places new ready) saved u))
          ]
        ]

    -- No lock is held, so nothing is raised.
    roll_back_reports-none :
        (reports : List ToolReport) (places : Places)
        → (roll_back_reports A is_held true reports places).0 ≡ none
    unfolding roll_back_reports roll_back_tool
    roll_back_reports-none [] places = refl
    roll_back_reports-none (skipped_tool i reason ∷ reports) places =
        roll_back_reports-none reports places
    roll_back_reports-none (ran_tool r ∷ reports) places =
        let p = roll_back_tool A r (places r.tool_id) in
        ground
          (arith, free r.tool_id, roll_back_reports-none reports (set_place r.tool_id p places))

    run_fanout-ok :
        (protect : Bool) (tools chosen : List FanoutTool) (tool_ids : Option (List String))
        (places : Places)
        → chosen_tools tool_ids tools ≡ ok chosen
        → A.unfinished ≡ none
        → run_fanout A luck run_id protect tools tool_ids places ≡ (
            let ran = run_tools A luck run_id chosen places in
            (
              last_error A luck run_id ran.2 A.unpruned,
              some (record { tools = ran.0; is_protected = ran.1 && protect }),
              ran.3,
            ))
    unfolding run_fanout finish
    run_fanout-ok protect tools chosen tool_ids places h finished = ground arith

    -- Run the fan-out for chosen tools with different ids, whatever items fail, and whether it returns
    -- or a lock, a ledger that cannot be read, or pruning old records at the end stops it, as long as
    -- saving the ledgers works and so does what the run does at its end until its record is written.
    -- Then the record is written; roll it back with no lock held, by file operations that work. The
    -- rollback does not raise, and every visible entry of every tool's directory, and every ledger, is
    -- what it was before the run. A move of the run that raises has changed nothing, and the recovery
    -- of an item works. The skills of the canonical root have different, visible names and their
    -- directories; the tools' directories have different names, links with texts, and no backups of
    -- this run.
    pub rollback_fanout-run_fanout :
        (protect : Bool) (tools chosen : List FanoutTool) (tool_ids : Option (List String))
        (places : Places)
        → chosen_tools tool_ids tools ≡ ok chosen
        → AreSkills A luck run_id
        → AreReady chosen places
        → AreSaved chosen
        → A.unfinished ≡ none
        → NodupTexts (ids chosen)
        → let (failure, written, left) = run_fanout A luck run_id protect tools tool_ids places in
          (r : FanoutRecord) × (written ≡ some r)
          × (let (failure', outcomes, after) = rollback_fanout A is_held true r left in
              (failure' ≡ none) × ((i : String) → IsSame (places i) (after i)))
    unfolding rollback_fanout final roll_back
    rollback_fanout-run_fanout protect tools chosen tool_ids places h skills ready saved finished
          u =
        let ran = run_tools A luck run_id chosen places in
        rw (run_fanout-ok protect tools chosen tool_ids places h finished) (
          record { tools = ran.0; is_protected = ran.1 && protect },
          refl,
          (
            roll_back_reports-none (reverse ran.0) ran.3,
            (final-IsFinal chosen places skills ready saved u).same,
          ),
        )
