-- ===== src/Agent/Harness.antt =====
-- crates/cuartel-core/src/agent.rs: the events, errors and commands of a harness, the trait
-- `AgentHarness` as a record of its methods, and the part of the crate `serde_json` that the
-- harnesses use.
use cuartel.Common.{
  String, Bool, true, false, List, [], ◌∷◌, Option, none, some, ◌⊎◌, if◌then◌else◌,
}
use cuartel.Common.Dict.{lookup}
use cuartel.Session.{SessionEvent, prompt_completed}
use cuartel.Agent.{AgentType}

-- `serde_json`: a value is taken apart by `get`, `as_str` and `as_array`; a text that is not JSON
-- has an error text.
pub record Json : Type 1 where
  pub Value : Type 0
  pub from_str : String → String ⊎ Value
  pub get : Value → String → Option Value
  pub as_str : Value → Option String
  pub as_array : Value → Option (List Value)
  pub null : Value

pub data HarnessEvent (V : Type 0) : Type 0 where
  output : String → HarnessEvent V
  tool_use : String → V → HarnessEvent V
  completed : HarnessEvent V
  failed : String → HarnessEvent V

pub data HarnessError : Type 0 where
  missing_env : String → HarnessError
  parse_error : String → HarnessError

pub data Result (A : Type 0) : Type 0 where
  ok : A → Result A
  err : HarnessError → Result A

unfoldable pub to_session_event : {V : Type 0} → HarnessEvent V → Option SessionEvent
to_session_event completed = some prompt_completed
to_session_event (failed msg) = some (SessionEvent.failed msg)
to_session_event _ = none

pub record InstallStep : Type 0 where
  pub label : String
  pub command : List String

pub record LaunchCommand : Type 0 where
  pub program : String
  pub args : List String
  pub stdin : Option String

-- A `HashMap<String, String>`.
abbrev pub Env : Type 0
Env = List (String × String)

pub record AgentHarness (V : Type 0) : Type 0 where
  pub agent_type : AgentType
  pub required_env_keys : List String
  pub provider_id : String
  pub extra_env : List (String × String)
  pub probe_program : Option String
  pub install_hint : String
  pub install_steps : List InstallStep
  pub launch : String → Env → Result LaunchCommand
  pub parse_line : String → Result (Option (HarnessEvent V))

abbrev pub contains_key : String → Env → Bool
contains_key key env = elim (lookup key env) [ none ↦ false | some _ ↦ true ]

-- The loop with which each `launch` begins: the first key that is missing.
unfoldable pub first_missing : List String → Env → Option String
first_missing [] env = none
first_missing (key ∷ keys) env =
    let later = first_missing keys env in if contains_key key env then later else some key

unfoldable pub checked : List String → Env → LaunchCommand → Result LaunchCommand
unfolding first_missing
checked keys env command = elim (first_missing keys env) [
  | some key ↦ err (missing_env key)
  | none ↦ ok command
]
