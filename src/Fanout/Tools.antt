-- ===== src/Fanout/Tools.antt =====
-- src/skill_sync_sidecar/fanout.py: the tools and what the configuration changes of them.
use skill_sync_sidecar.Common.{String, ◌<>◌}
use skill_sync_sidecar.Common.{Bool}
use skill_sync_sidecar.Common.{not, Option, none, some, List, [], ◌∷◌, map, if◌then◌else◌}
use skill_sync_sidecar.Common.{◌==◌, contains, option_eq, string_eq, nat_eq}
use skill_sync_sidecar.Common.{select}
use skill_sync_sidecar.Common.{any_of, is_empty, Result, ok, err, ◌>>=◌}
use skill_sync_sidecar.Common.{config_error}
use skill_sync_sidecar.Common.Dict.{Dict, lookup}
use skill_sync_sidecar.Fanout.Items.{FanoutTool, Mode, link_mode, copy_mode}

-- What `fanout.tools.<tool_id>` is in the configuration: another JSON value than an object, or an
-- object, of which `enabled` may be false and `mode` may be set.
pub data Override : Type 0 where
  not_an_object : Override
  object : Bool → Option String → Override

-- `DEFAULT_TOOLS`, by the home directory and the root of cc-switch
unfoldable pub default_tools : String → String → List FanoutTool
default_tools home legacy_local_root =
    record {
      tool_id = "codex";
      root = home <> "/.codex/skills";
      mode = link_mode;
      aliases = "codex" ∷ [];
    }
    ∷ record {
      tool_id = "cursor";
      root = home <> "/.cursor/skills";
      mode = copy_mode;
      aliases = "cursor" ∷ [];
    }
    ∷ record {
      tool_id = "claude-code";
      root = home <> "/.claude/skills";
      mode = link_mode;
      aliases = "claude-code" ∷ "claude" ∷ [];
    }
    ∷ record {
      tool_id = "qoder";
      root = home <> "/.qoder/skills";
      mode = link_mode;
      aliases = "qoder" ∷ [];
    }
    ∷ record {
      tool_id = "deepseek-harness";
      root = home <> "/.dsh/skills";
      mode = link_mode;
      aliases = "deepseek-harness" ∷ "deepseek" ∷ [];
    }
    ∷ record {
      tool_id = "cc-switch";
      root = legacy_local_root;
      mode = link_mode;
      aliases = "cc-switch" ∷ [];
    }
    ∷ []

-- `mode not in {"link", "copy"}`
unfoldable pub read_mode : String → Option String → Mode → Result Mode
read_mode tool_id none default = ok default
read_mode tool_id (some mode) default =
    if mode == "link"
    then ok link_mode
    else if mode == "copy"
    then ok copy_mode
    else err
        (config_error ("sidecar config fanout.tools." <> (tool_id <> ".mode must be link or copy")))

-- One turn of the loop: the tool as it is configured, or none if it is disabled.
unfoldable pub configured_tool : Option Override → FanoutTool → Result (Option FanoutTool)
unfolding read_mode
configured_tool none tool = ok (some tool)
configured_tool (some not_an_object) tool =
    err (config_error ("sidecar config fanout.tools." <> (tool.tool_id <> " must be an object")))
configured_tool (some (object disabled mode)) tool =
    if disabled
    then ok none
    else read_mode tool.tool_id mode tool.mode >>= (λ m. ok (some (record tool { mode = m })))

-- `configured_tools`, over the tools that there are by default
unfoldable pub configured_tools : Dict String Override → List FanoutTool → Result (List FanoutTool)
unfolding configured_tool
configured_tools overrides [] = ok []
configured_tools overrides (tool ∷ tools) =
    configured_tool (lookup tool.tool_id overrides) tool >>= (λ configured.
      configured_tools overrides tools
      >>= (λ rest. elim configured [ none ↦ ok rest | some t ↦ ok (t ∷ rest) ]))

-- `tool_ids` of `build_fanout_plan` and `run_fanout`: all tools, or those named, which must exist.
unfoldable pub chosen_tools : Option (List String) → List FanoutTool → Result (List FanoutTool)
chosen_tools none tools = ok tools
chosen_tools (some ids) tools =
    let known = map (λ t. t.tool_id) tools in
    if is_empty ids
    then ok tools
    else if any_of (λ i. not (contains known i)) ids
    then err (config_error "unknown or disabled fanout tool")
    else ok (select (λ t. contains ids t.tool_id) tools)
