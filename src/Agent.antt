-- ===== src/Agent.antt =====
-- crates/cuartel-core/src/agent.rs: the kinds of agent and their names. Agent/Harness is what a
-- harness offers, Agent/Parse reads its lines, Agent/Builtin the four harnesses of the program, Agent/Registry their table.
pub mod Harness
pub mod Parse
pub mod Builtin
pub mod Registry
pub mod Lines
pub mod Tests
use cuartel.Common.{String, Bool, true, false, List, [], ◌∷◌, str_eq}

pub data AgentType : Type 0 where
  pi claude_code codex open_code : AgentType
  custom : String → AgentType

unfoldable pub rivet_name : AgentType → String
rivet_name pi = "pi"
rivet_name claude_code = "claude"
rivet_name codex = "codex"
rivet_name open_code = "opencode"
rivet_name (custom name) = name

unfoldable pub display_name : AgentType → String
display_name pi = "Pi"
display_name claude_code = "Claude Code"
display_name codex = "OpenAI Codex"
display_name open_code = "OpenCode"
display_name (custom name) = name

unfoldable pub all_builtin : List AgentType
all_builtin = pi ∷ claude_code ∷ codex ∷ open_code ∷ []

-- The derived equality.
unfoldable pub agent_eq : AgentType → AgentType → Bool
agent_eq pi pi = true
agent_eq claude_code claude_code = true
agent_eq codex codex = true
agent_eq open_code open_code = true
agent_eq (custom name) (custom other) = str_eq name other
agent_eq _ _ = false
