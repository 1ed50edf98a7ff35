-- ===== src/Agent/Tests.antt =====
-- Lines of the harnesses on a small stand-in for `serde_json` that knows the lines of the tests.
use cuartel.Common.{
  ◌≡◌, ◌⊎◌, refl, String, List, [], ◌∷◌, Option, none, some, str_eq, if◌then◌else◌, inl, inr,
}
use cuartel.Common.Dict.{lookup}
use cuartel.Session.{Session, running}
use cuartel.Agent.Harness
use cuartel.Agent.Harness.{
  Json, HarnessEvent, output, tool_use, completed, failed, parse_error, missing_env,
  to_session_event, contains_key,
}
use cuartel.Agent.Parse.{first_event}
use cuartel.Agent.Builtin.{pi_harness, claude_code_harness, codex_harness}

mutual
  pub data Node : Type 0 where
    nothing : Node
    word : String → Node
    array : Nodes → Node
    object : Members → Node

  pub data Nodes : Type 0 where
    nil : Nodes
    cons : Node → Nodes → Nodes

  pub data Members : Type 0 where
    end : Members
    member : String → Node → Members → Members

abbrev nodes : Nodes → List Node
nodes nil = []
nodes (cons n ns) = n ∷ nodes ns

abbrev value_of : String → Members → Option Node
value_of key end = none
value_of key (member at n rest) = if str_eq at key then some n else value_of key rest

abbrev get_node : Node → String → Option Node
get_node (object ms) key = value_of key ms
get_node _ key = none

abbrev node_text : Node → Option String
node_text (word s) = some s
node_text _ = none

abbrev node_items : Node → Option (List Node)
node_items (array ns) = some (nodes ns)
node_items _ = none

abbrev thinking : Node
thinking = object (member "type" (word "thinking") end)

abbrev hello : Node
hello = object (member "type" (word "text") (member "text" (word "hello") end))

abbrev known : String → String ⊎ Node
known s =
    if str_eq s "{\"type\":\"completed\"}"
    then inr (object (member "type" (word "completed") end))
    else if str_eq s "{\"type\":\"error\"}"
    then inr (object (member "type" (word "error") end))
    else inl "expected value"

abbrev pub small_json : Json
small_json = record {
  Value = Node;
  from_str = known;
  get = get_node;
  as_str = node_text;
  as_array = node_items;
  null = nothing;
}

blank_line : (pi_harness small_json).parse_line "  \t " ≡ Harness.ok none
unfolding pi_harness
blank_line = refl

completed_line :
    (pi_harness small_json).parse_line " {\"type\":\"completed\"}\n" ≡ Harness.ok (some completed)
unfolding pi_harness
completed_line = refl

error_line :
    (pi_harness small_json).parse_line "{\"type\":\"error\"}"
    ≡ Harness.ok (some (failed "unknown pi error"))
unfolding pi_harness
error_line = refl

broken_line : (codex_harness small_json).parse_line "{" ≡ Harness.err (parse_error "expected value")
unfolding codex_harness
broken_line = refl

unknown_claude_line :
    (claude_code_harness small_json).parse_line "{\"type\":\"completed\"}"
    ≡ Harness.err (parse_error "unknown claude code event type `completed`")
unfolding claude_code_harness
unknown_claude_line = refl

no_key : (pi_harness small_json).launch "hi" [] ≡ Harness.err (missing_env "ANTHROPIC_API_KEY")
unfolding pi_harness lookup
no_key = refl

abbrev at_work : Session
at_work = record {
  id = "sess-1";
  workspace_id = "ws-1";
  server_id = "local";
  agent_type = "pi";
  rivet_vm_id = none;
  rivet_session_id = none;
  state = running;
  created_at = 0;
  updated_at = 0;
  history = [];
}

hello_first : first_event small_json (thinking ∷ hello ∷ []) ≡ some (output "hello")
unfolding first_event
hello_first = refl
