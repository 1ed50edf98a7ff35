-- ===== src/Availability.antt =====
-- crates/cuartel-core/src/availability.rs: which harnesses can be run on this host. A probe for a
-- program is an argument; the one that runs `which` is not modelled.
pub mod Ready
pub mod Sorted
mod Tests
use cuartel.Common.{
  String, Bool, true, false, not, List, [], ◌∷◌, Option, none, some, map, any, select,
  if◌then◌else◌,
}
use cuartel.Common.Dict.{key_lt}
use cuartel.Common.Sort.{sort_by}
use cuartel.Common.Text.{is_empty}
use cuartel.Agent.{AgentType, display_name}
use cuartel.Agent.Harness.{AgentHarness}
use cuartel.Agent.Registry.{HarnessRegistry, registered, get}

pub record RequiredEnv : Type 0 where
  pub key : String
  pub present : Bool

pub record HarnessAvailability : Type 0 where
  pub agent : AgentType
  pub display_name : String
  pub provider_id : String
  pub installed : Bool
  pub version : Option String
  pub install_hint : Option String
  pub required_env : List RequiredEnv

pub data AvailabilityStatus : Type 0 where
  ready needs_credentials not_installed : AvailabilityStatus

unfoldable pub status : HarnessAvailability → AvailabilityStatus
status a =
    if not a.installed
    then not_installed
    else if any (λ e. not e.present) a.required_env
    then needs_credentials
    else ready

unfoldable pub missing_env_keys : HarnessAvailability → List String
missing_env_keys a = map (λ e. e.key) (select (λ e. not e.present) a.required_env)

pub record ProbeResult : Type 0 where
  pub path : String
  pub version : Option String

-- `EnvSource::has`
abbrev pub EnvSource : Type 0
EnvSource = String → String → Bool

-- `NoEnv`
unfoldable pub no_env : EnvSource
no_env provider_id env_key = false

abbrev pub ProgramProbe : Type 0
ProgramProbe = String → Option ProbeResult

-- Whether the program of a harness is installed, and its version.
unfoldable pub found : ProgramProbe → Option String → Bool × Option String
found probe none = (true, none)
found probe (some program) = elim (probe program) [
  | some r ↦ (true, r.version)
  | none ↦ (false, none)
]

unfoldable pub probe_harness :
    {V : Type 0} → AgentHarness V → ProgramProbe → EnvSource → HarnessAvailability
unfolding found
probe_harness harness probe env =
    let (installed, version) = found probe harness.probe_program in
    record {
      agent = harness.agent_type;
      display_name = display_name harness.agent_type;
      provider_id = harness.provider_id;
      installed = installed;
      version = version;
      install_hint = if is_empty harness.install_hint then none else some harness.install_hint;
      required_env =
          map (λ k. record { key = k; present = env harness.provider_id k })
            harness.required_env_keys;
    }

-- `cmp` of the display names
abbrev pub name_lt : HarnessAvailability → HarnessAvailability → Bool
name_lt a b = key_lt a.display_name b.display_name

-- The loop of `probe_registry` over the agent types.
unfoldable pub probe_each :
    {V : Type 0}
    → HarnessRegistry V
    → ProgramProbe
    → EnvSource
    → List AgentType
    → List HarnessAvailability
unfolding get probe_harness
probe_each registry probe env [] = []
probe_each registry probe env (agent ∷ agents) =
    let later = probe_each registry probe env agents in
    elim (get agent registry) [
      | some harness ↦ probe_harness harness probe env ∷ later
      | none ↦ later
    ]

unfoldable pub probe_registry :
    {V : Type 0} → HarnessRegistry V → ProgramProbe → EnvSource → List HarnessAvailability
unfolding probe_each registered
probe_registry registry probe env =
    sort_by name_lt (probe_each registry probe env (registered registry))
