-- ===== src/Agent/Builtin.antt =====
-- crates/cuartel-core/src/agent.rs: the harnesses of Pi, Claude Code, Codex and OpenCode, with the
-- defaults of the trait where a harness does not override them.
use cuartel.Common.{String, List, [], ◌∷◌, some, none}
use cuartel.Agent.{pi, claude_code, codex, open_code}
use cuartel.Agent.Harness.{Json, InstallStep, AgentHarness, checked}
use cuartel.Agent.Parse.{parsed, pi_value, claude_value, codex_value, open_code_value}

abbrev step : String → List String → InstallStep
step label command = record { label = label; command = command }

abbrev pub pi_required_env : List String
pi_required_env = "ANTHROPIC_API_KEY" ∷ []

abbrev pub pi_extra_env : List (String × String)
pi_extra_env =
    ("PI_DEFAULT_PROVIDER", "anthropic") ∷ ("PI_DEFAULT_MODEL", "claude-sonnet-4-20250514") ∷ []

abbrev pub pi_install : String
pi_install = "curl -fsSL https://pi.cuartel.dev/install.sh | sh"

module _ (json : Json) where
  unfoldable pub pi_harness : AgentHarness json.Value
  unfolding parsed pi_value checked
  pi_harness = record {
    agent_type = pi;
    required_env_keys = pi_required_env;
    provider_id = "anthropic";
    extra_env = pi_extra_env;
    probe_program = some "pi";
    install_hint = pi_install;
    install_steps =
        step "Install Pi CLI" ("sh" ∷ "-c" ∷ pi_install ∷ [])
        ∷ step "Verify Pi CLI" ("pi" ∷ "--version" ∷ [])
        ∷ [];
    launch = λ prompt env.
        checked pi_required_env env (record {
          program = "pi";
          args = "run" ∷ "--format" ∷ "jsonl" ∷ [];
          stdin = some prompt;
        });
    parse_line = parsed json (pi_value json);
  }

  unfoldable pub claude_code_harness : AgentHarness json.Value
  unfolding parsed claude_value checked
  claude_code_harness = record {
    agent_type = claude_code;
    required_env_keys = "ANTHROPIC_API_KEY" ∷ [];
    provider_id = "anthropic";
    extra_env = [];
    probe_program = some "claude";
    install_hint = "npm install -g @anthropic-ai/claude-code";
    install_steps =
        step "Install Claude Code" ("npm" ∷ "install" ∷ "-g" ∷ "@anthropic-ai/claude-code" ∷ [])
        ∷ step "Verify Claude Code" ("claude" ∷ "--version" ∷ [])
        ∷ [];
    launch = λ prompt env. checked ("ANTHROPIC_API_KEY" ∷ []) env (record {
      program = "claude";
      args = "-p" ∷ prompt ∷ "--output-format" ∷ "stream-json" ∷ "--verbose" ∷ [];
      stdin = none;
    });
    parse_line = parsed json (claude_value json);
  }

  unfoldable pub codex_harness : AgentHarness json.Value
  unfolding parsed codex_value checked
  codex_harness = record {
    agent_type = codex;
    required_env_keys = "OPENAI_API_KEY" ∷ [];
    provider_id = "openai";
    extra_env = [];
    probe_program = some "codex";
    install_hint = "npm install -g @openai/codex";
    install_steps =
        step "Install Codex CLI" ("npm" ∷ "install" ∷ "-g" ∷ "@openai/codex" ∷ [])
        ∷ step "Verify Codex CLI" ("codex" ∷ "--version" ∷ [])
        ∷ [];
    launch = λ prompt env.
        checked ("OPENAI_API_KEY" ∷ []) env
          (record { program = "codex"; args = "exec" ∷ "--json" ∷ prompt ∷ []; stdin = none });
    parse_line = parsed json (codex_value json);
  }

  unfoldable pub open_code_harness : AgentHarness json.Value
  unfolding parsed open_code_value checked
  open_code_harness = record {
    agent_type = open_code;
    required_env_keys = "ANTHROPIC_API_KEY" ∷ [];
    provider_id = "anthropic";
    extra_env = [];
    probe_program = some "opencode";
    install_hint = "curl -fsSL https://opencode.ai/install | bash";
    install_steps =
        step "Install OpenCode" ("sh" ∷ "-c" ∷ "curl -fsSL https://opencode.ai/install | bash" ∷ [])
        ∷ step "Verify OpenCode" ("opencode" ∷ "--version" ∷ [])
        ∷ [];
    launch = λ prompt env.
        checked ("ANTHROPIC_API_KEY" ∷ []) env
          (record { program = "opencode"; args = "run" ∷ "--json" ∷ prompt ∷ []; stdin = none });
    parse_line = parsed json (open_code_value json);
  }
