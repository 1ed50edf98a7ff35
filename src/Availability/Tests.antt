-- ===== src/Availability/Tests.antt =====
-- The built-in harnesses on a host that has only Pi.
use mathlib.Core.List.{Perm}
use cuartel.Common.{◌≡◌, refl, [], ◌∷◌, none, some, map, str_eq, if◌then◌else◌, ◌&&◌}
use cuartel.Agent.{pi, agent_eq, display_name}
use cuartel.Agent.Builtin.{pi_harness, claude_code_harness, codex_harness}
use cuartel.Agent.Registry.{get, with_builtins, register_all}
use cuartel.Agent.Tests.{small_json}
use cuartel.Credentials.{ok, Reader, has}
use cuartel.Common.Sort.{IsSorted, sort_by}
use cuartel.Availability.{
  name_lt, ready, not_installed, needs_credentials, status, ProgramProbe, probe_harness,
  probe_registry, no_env,
}
use cuartel.Availability.Ready.{Launches, launch_iff_none_missing}
use cuartel.Availability.Sorted.{reports, probe_registry_complete}

abbrev only_pi : ProgramProbe
only_pi program =
    if str_eq program "pi" then some (record { path = "/usr/bin/pi"; version = none }) else none

abbrev one_key : Reader
one_key provider key =
    ok (if str_eq provider "anthropic" && str_eq key "ANTHROPIC_API_KEY" then some "sk-1" else none)

pi_ready : status (probe_harness (pi_harness small_json) only_pi (has one_key)) ≡ ready
unfolding status probe_harness pi_harness has
pi_ready = refl

codex_not_installed :
    status (probe_harness (codex_harness small_json) only_pi (has one_key)) ≡ not_installed
unfolding status probe_harness codex_harness
codex_not_installed = refl

pi_without_key : status (probe_harness (pi_harness small_json) only_pi no_env) ≡ needs_credentials
unfolding status probe_harness pi_harness no_env
pi_without_key = refl

launch_iff_none_missing_example :
    Launches (with_builtins small_json) one_key only_pi "hi" (pi_harness small_json)
unfolding get with_builtins agent_eq
launch_iff_none_missing_example =
    launch_iff_none_missing small_json one_key only_pi "hi" pi (pi_harness small_json) refl

probe_registry_complete_example :
    IsSorted name_lt (
      probe_registry
        (register_all (pi_harness small_json ∷ claude_code_harness small_json ∷ []) [])
        only_pi
        (has one_key))
    × Perm
        (probe_registry
          (register_all (pi_harness small_json ∷ claude_code_harness small_json ∷ []) [])
          only_pi
          (has one_key))
        (reports only_pi
          (has one_key)
          (register_all (pi_harness small_json ∷ claude_code_harness small_json ∷ []) []))
probe_registry_complete_example =
    probe_registry_complete only_pi (has one_key)
      (pi_harness small_json ∷ claude_code_harness small_json ∷ [])

sorted_names :
    map
      (λ a. a.display_name)
      (probe_registry
        (register_all (pi_harness small_json ∷ claude_code_harness small_json ∷ []) [])
        only_pi
        no_env)
    ≡ "Claude Code" ∷ "Pi" ∷ []
unfolding probe_registry sort_by register_all agent_eq pi_harness claude_code_harness display_name
sorted_names = refl
