-- ===== src/Availability/Ready.antt =====
-- A harness that is reported ready can be launched with the environment drawn from the store.
use cuartel.Common.{
  String, ◌≡◌, ◌↔◌, refl, true, false, not, List, [], ◌∷◌, none, some, arith, any, map, All,
  Bool-cases, inl, inr, ◌∙◌, str_eq, if◌then◌else◌,
}
use mathlib.Core.Option
use mathlib.Core.Path.{subst}
use cuartel.Agent.{agent_eq, AgentType, pi, claude_code, codex, open_code, custom}
use cuartel.Agent.Harness.{
  Json, AgentHarness, LaunchCommand, Env, ok, err, missing_env, checked, first_missing,
  contains_key,
}
use cuartel.Agent.Builtin.{pi_harness, claude_code_harness, codex_harness, open_code_harness}
use cuartel.Agent.Registry.{HarnessRegistry, get, with_builtins}
use cuartel.Credentials.{Reader, has, env_for_harness}
use cuartel.Credentials.Environment.{first_missing-env_for_harness, contains_key-env_for_harness}
use cuartel.Availability.{
  RequiredEnv, status, ready, missing_env_keys, ProgramProbe, HarnessAvailability, probe_harness,
  EnvSource,
}

-- What a report has of the required keys.
required : EnvSource → String → List String → List RequiredEnv
required env provider keys = map (λ k. record { key = k; present = env provider k }) keys

module _ (env : EnvSource) (provider : String) where
  none_missing :
      (keys : List String)
      → any (λ e. not e.present) (required env provider keys) ≡ false
      → All (λ key. env provider key ≡ true) keys
  unfolding required
  none_missing [] h = tt
  none_missing (key ∷ keys) h = elim (Bool-cases (env provider key)) [
    | inl there ↦ (there, none_missing keys (rw there at h))
    | inr lacking ↦ absurd (ground arith)
  ]

ready_complete :
    (a : HarnessAvailability) → status a ≡ ready → any (λ e. not e.present) a.required_env ≡ false
unfolding status
ready_complete a h = ground arith

-- A harness that a probe reports ready, with the store as the source of its credentials, finds
-- all its required keys in the environment that is drawn from that store.
pub ready-first_missing :
    {V : Type 0} (registry : HarnessRegistry V) (read : Reader) (probe : ProgramProbe)
    (agent : AgentType) (harness : AgentHarness V)
    → get agent registry ≡ some harness
    → status (probe_harness harness probe (has read)) ≡ ready
    → first_missing harness.required_env_keys (env_for_harness registry read agent) ≡ none
unfolding probe_harness required
ready-first_missing registry read probe agent harness registered h =
    first_missing-env_for_harness registry read agent harness registered (
      none_missing (has read) harness.provider_id harness.required_env_keys
        (ready_complete (probe_harness harness probe (has read)) h))

-- The launch of a harness in the environment drawn for it, against the report of its probe.
abbrev pub Launches :
    {V : Type 0} → HarnessRegistry V → Reader → ProgramProbe → String → AgentHarness V → Type 0
Launches r read probe prompt h =
    ((command : LaunchCommand) × (h.launch prompt (env_for_harness r read h.agent_type)
        ≡ ok command))
    ↔ (missing_env_keys (probe_harness h probe (has read)) ≡ [])

module _ (read : Reader) (probe : ProgramProbe) (prompt : String) where
  missing_single :
      {V : Type 0} (h : AgentHarness V) (key : String)
      → h.required_env_keys ≡ key ∷ []
      → missing_env_keys (probe_harness h probe (has read))
        ≡ (if has read h.provider_id key then [] else key ∷ [])
  unfolding missing_env_keys probe_harness
  missing_single h key one = rw one (ground arith)

  checked_single :
      (key : String) (env : Env) (c : LaunchCommand)
      → checked (key ∷ []) env c ≡ (if contains_key key env then ok c else err (missing_env key))
  unfolding checked
  checked_single key env c = ground arith

  -- A harness with one required key.
  single-Launches :
      {V : Type 0} (r : HarnessRegistry V) (h : AgentHarness V) (key : String) (c : LaunchCommand)
      → get h.agent_type r ≡ some h
      → h.required_env_keys ≡ key ∷ []
      → All (λ e. str_eq e.0 key ≡ false) h.extra_env
      → ((env : Env) → h.launch prompt env ≡ checked (key ∷ []) env c)
      → Launches r read probe prompt h
  single-Launches r h key c known one others how =
      let env = env_for_harness r read h.agent_type in
      let drawn = contains_key-env_for_harness r read h key known one others in
      let outcome = how env ∙ checked_single key env c in
      elim (Bool-cases (has read h.provider_id key)) [
        | inl there ↦ (
          λ _. missing_single h key one ∙ rw there refl,
          λ _. (c, outcome ∙ rw (drawn ∙ there) refl),
        )
        | inr lacking ↦ (
          λ (c', p). absurd (ground (arith, outcome, drawn)),
          λ e. absurd (ground (arith, missing_single h key one)),
        )
      ]

-- A built-in harness can be launched in the environment that is drawn for it exactly if its probe,
-- with the same store as the source of credentials, reports no missing key.
pub launch_iff_none_missing :
    (json : Json) (read : Reader) (probe : ProgramProbe) (prompt : String) (agent : AgentType)
    (h : AgentHarness json.Value)
    → get agent (with_builtins json) ≡ some h
    → Launches (with_builtins json) read probe prompt h
unfolding with_builtins get agent_eq
launch_iff_none_missing json read probe prompt pi h e =
    subst (Launches (with_builtins json) read probe prompt) (Option.some-injective _ _ e) (
      single-Launches read probe prompt (with_builtins json) (pi_harness json) "ANTHROPIC_API_KEY" _
        refl refl (refl, (refl, tt)) (λ env. refl))
launch_iff_none_missing json read probe prompt claude_code h e =
    subst (Launches (with_builtins json) read probe prompt) (Option.some-injective _ _ e) (
      single-Launches read probe prompt (with_builtins json) (claude_code_harness json)
        "ANTHROPIC_API_KEY" _ refl refl tt (λ env. refl))
launch_iff_none_missing json read probe prompt codex h e =
    subst (Launches (with_builtins json) read probe prompt) (Option.some-injective _ _ e) (
      single-Launches read probe prompt (with_builtins json) (codex_harness json) "OPENAI_API_KEY" _
        refl refl tt (λ env. refl))
launch_iff_none_missing json read probe prompt open_code h e =
    subst (Launches (with_builtins json) read probe prompt) (Option.some-injective _ _ e) (
      single-Launches read probe prompt (with_builtins json) (open_code_harness json)
        "ANTHROPIC_API_KEY" _ refl refl tt (λ env. refl))
launch_iff_none_missing json read probe prompt (custom name) h e = absurd (cc)
