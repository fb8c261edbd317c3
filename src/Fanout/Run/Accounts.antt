-- ===== src/Fanout/Run/Accounts.antt =====
-- What the reports of a run say of the places that it leaves.
use skill_sync_sidecar.Common.{String, ◌≡◌, refl}
use skill_sync_sidecar.Common.{ap, inl, inr, Bool, false, ◌||◌, ◌⊎◌, sym}
use mathlib.Core.Path.{subst}
use skill_sync_sidecar.Common.{Option, none, some, List, [], ◌∷◌, ◌++◌, map, arith}
use skill_sync_sidecar.Common.{◌==◌, option_eq, string_eq, nat_eq}
use skill_sync_sidecar.Common.{Option-cases}
use skill_sync_sidecar.Common.{any_of, Error}
use skill_sync_sidecar.Fanout.Items.{FanoutTool, FanoutItem}
use skill_sync_sidecar.Fanout.Execute.{Place, Luck}
use skill_sync_sidecar.Fanout.Run.{Around, Places, set_place, ToolReport, skipped_tool}
use skill_sync_sidecar.Fanout.Run.{ran_tool, skip_reason, run_tool, admitted, run_tools, save_fails}
use skill_sync_sidecar.Fanout.Run.{with_old_ledger}

abbrev pub report_id : ToolReport → String
report_id (skipped_tool i reason) = i
report_id (ran_tool r) = r.tool_id

abbrev pub has_run : String → ToolReport → Bool
has_run i (skipped_tool j reason) = false
has_run i (ran_tool r) = i == r.tool_id

abbrev pub ids : List FanoutTool → List String
ids tools = map (λ t. t.tool_id) tools

-- The tool whose ledger could not be saved, which ended the run: it has no report, and its ledger is
-- as it was, though its items have been executed.
pub record IsUnsaved (save : FanoutTool → Option Error) (failure : Option Error)
    (missing : List String) (i : String) (old new : Place) : Type 0 where
  pub error : Error
  pub raised : failure ≡ some error
  pub tool : FanoutTool
  pub named : tool.tool_id ≡ i
  pub unsaved : save tool ≡ some error
  pub ledger : new.ledger ≡ old.ledger
  pub rest : List String
  pub first : missing ≡ i ∷ rest

pub record IsAccounted (save : FanoutTool → Option Error) (tools : List FanoutTool)
    (places : Places) (reports : List ToolReport) (failure : Option Error) (left : Places)
    : Type 0 where
  pub missing : List String
  pub in_order : map report_id reports ++ missing ≡ ids tools
  pub complete : failure ≡ none → missing ≡ []
  pub untouched :
      (i : String)
      → any_of (has_run i) reports ≡ false
      → (left i ≡ places i) ⊎ IsUnsaved save failure missing i (places i) (left i)

module _ (A : Around) (luck : FanoutTool → FanoutItem → Luck) (run_id : String) where
  -- The three ways of one turn.
  pub run_tools-raises :
      (tool : FanoutTool) (tools : List FanoutTool) (places : Places) (e : Error)
      → admitted A luck run_id tool ≡ some e
      → run_tools A luck run_id (tool ∷ tools) places ≡ ([], false, some e, places)
  unfolding run_tools
  run_tools-raises tool tools places e h = ground arith

  pub run_tools-skips :
      (tool : FanoutTool) (tools : List FanoutTool) (places : Places) (reason : String)
      → admitted A luck run_id tool ≡ none
      → skip_reason A tool ≡ some reason
      → run_tools A luck run_id (tool ∷ tools) places ≡ (
          let r = run_tools A luck run_id tools places in
          (skipped_tool tool.tool_id reason ∷ r.0, r.1, r.2, r.3))
  unfolding run_tools
  run_tools-skips tool tools places reason h h' = ground arith

  pub run_tools-runs :
      (tool : FanoutTool) (tools : List FanoutTool) (places : Places)
      → admitted A luck run_id tool ≡ none
      → skip_reason A tool ≡ none
      → save_fails A luck run_id tool ≡ none
      → run_tools A luck run_id (tool ∷ tools) places ≡ (
          let t = run_tool A luck run_id tool (places tool.tool_id) in
          let r = run_tools A luck run_id tools (set_place tool.tool_id t.2 places) in
          (ran_tool t.0 ∷ r.0, t.1 || r.1, r.2, r.3))
  unfolding run_tools
  run_tools-runs tool tools places h h' s = ground arith

  pub run_tools-unsaved :
      (tool : FanoutTool) (tools : List FanoutTool) (places : Places) (e : Error)
      → admitted A luck run_id tool ≡ none
      → skip_reason A tool ≡ none
      → save_fails A luck run_id tool ≡ some e
      → run_tools A luck run_id (tool ∷ tools) places ≡ (
        [],
        false,
        some e,
        set_place tool.tool_id
            (with_old_ledger A luck run_id
              (places tool.tool_id)
              (run_tool A luck run_id tool (places tool.tool_id)).2)
            places,
      )
  unfolding run_tools
  run_tools-unsaved tool tools places e h h' s = ground arith

  pub run_tool-id :
      (tool : FanoutTool) (p : Place) → (run_tool A luck run_id tool p).0.tool_id ≡ tool.tool_id
  unfolding run_tool
  run_tool-id tool p = refl

  -- The reports are those of the first tools, in order, and of all of them if nothing was raised. A
  -- tool that has no report of a run is left as it was; but if saving a tool's ledger raised, that
  -- tool is the first without a report, and only its ledger is sure to be as it was.
  pub run_tools-IsAccounted :
      (tools : List FanoutTool) (places : Places)
      → let (reports, linked, failure, left) = run_tools A luck run_id tools places in
        IsAccounted (save_fails A luck run_id) tools places reports failure left
  unfolding run_tools
  run_tools-IsAccounted [] places = record {
    missing = [];
    in_order = refl;
    complete = λ h. refl;
    untouched = λ i h. inl refl;
  }
  run_tools-IsAccounted (tool ∷ tools) places = elim (Option-cases (admitted A luck run_id tool)) [
    | inr (e, h) ↦ rw (run_tools-raises tool tools places e h) (record {
      missing = ids (tool ∷ tools);
      in_order = refl;
      complete = λ g. absurd (ground arith);
      untouched = λ i g. inl refl;
    })
    | inl h ↦ elim (Option-cases (skip_reason A tool)) [
      | inr (reason, h') ↦
          let rest = run_tools-IsAccounted tools places in
          rw (run_tools-skips tool tools places reason h h') (record {
            missing = rest.missing;
            in_order = ap (λ is. tool.tool_id ∷ is) rest.in_order;
            complete = rest.complete;
            untouched = λ i g. rest.untouched i (ground arith);
          })
      | inl h' ↦ elim (Option-cases (save_fails A luck run_id tool)) [
        | inr (e, s) ↦ rw (run_tools-unsaved tool tools places e h h' s) (record {
          missing = ids (tool ∷ tools);
          in_order = refl;
          complete = λ g. absurd (ground arith);
          untouched = λ i g. elim (string_eq.dec i tool.tool_id) [
            | no other ↦ inl (ground arith)
            | yes own ↦ inr (record {
              error = e;
              raised = refl;
              tool = tool;
              named = sym own;
              unsaved = s;
              ledger = ground arith;
              rest = ids tools;
              first = ap (λ k. k ∷ ids tools) (sym own);
            })
          ];
        })
        | inl s ↦
            let t = run_tool A luck run_id tool (places tool.tool_id) in
            let rest = run_tools-IsAccounted tools (set_place tool.tool_id t.2 places) in
            let (_, _, failure, left) =
              run_tools A luck run_id tools (set_place tool.tool_id t.2 places) in
            let same = run_tool-id tool (places tool.tool_id) in
            rw (run_tools-runs tool tools places h h' s) (record {
              missing = rest.missing;
              in_order = ground (arith, rest.in_order, same);
              complete = rest.complete;
              untouched = λ i g.
                  let out : set_place tool.tool_id t.2 places i ≡ places i = ground (arith, same) in
                  subst
                    (λ (q : Place).
                      (left i ≡ q)
                      ⊎ IsUnsaved (save_fails A luck run_id) failure rest.missing i q (left i))
                    out (rest.untouched i (ground arith));
            })
      ]
    ]
  ]
