-- ===== src/Credentials/Environment.antt =====
-- The environment drawn from a store holds every required key that the store has.
use cuartel.Common.{
  String, ◌≡◌, refl, ◌∙◌, true, false, List, [], ◌∷◌, none, some, str_eq, eq_iff, arith, All,
  All-mono, Bool-cases, inl, inr, ◌⊎◌,
}
use cuartel.Common.Dict.{insert, lookup, lookup-insert}
use cuartel.Agent.{AgentType}
use cuartel.Agent.Harness.{AgentHarness, Env, contains_key, first_missing}
use cuartel.Agent.Registry.{HarnessRegistry, get}
use cuartel.Common.Text.{is_empty}
use cuartel.Credentials.{Result-cases, Reader, has, inject, inject_all, insert_all, env_for_harness}

contains_key-insert :
    (k v key : String) (env : Env)
    → contains_key key env ≡ true
    → contains_key key (insert k v env) ≡ true
contains_key-insert k v key env h = ground (arith, lookup-insert k key v env, eq_iff k key)

contains_key-insert_all :
    (pairs : List (String × String)) (key : String) (env : Env)
    → contains_key key env ≡ true
    → contains_key key (insert_all pairs env) ≡ true
unfolding insert_all
contains_key-insert_all [] key env h = h
contains_key-insert_all ((k, v) ∷ pairs) key env h =
    contains_key-insert_all pairs key (insert k v env) (contains_key-insert k v key env h)

-- The key is put in with its value exactly when the store has it.
inject-cases :
    (read : Reader) (provider key : String) (env : Env)
    → ((has read provider key ≡ false) × (inject read provider key env ≡ env))
      ⊎ ((v : String) × (has read provider key ≡ true)
          × (inject read provider key env ≡ insert key v env))
unfolding has inject
inject-cases read provider key env = elim (Result-cases (read provider key)) [
  | inl e ↦ inl (rw (e, has), rw (e, inject))
  | inr (inl (m, e)) ↦ inl (rw (e, has), rw (e, inject))
  | inr (inr (v, e)) ↦ elim (Bool-cases (is_empty v)) [
    | inl empty ↦ inl (rw (e, has) (rw empty), rw (e, inject) (rw empty))
    | inr full ↦ inr (v, rw (e, has) (rw full), rw (e, inject) (rw full))
  ]
]

contains_key-inject :
    (read : Reader) (provider k key : String) (env : Env)
    → contains_key key env ≡ true
    → contains_key key (inject read provider k env) ≡ true
contains_key-inject read provider k key env h = elim (inject-cases read provider k env) [
  | inl (_, e) ↦ rw e h
  | inr (v, _, e) ↦ rw e (contains_key-insert k v key env h)
]

contains_key-inject_self :
    (read : Reader) (provider key : String) (env : Env)
    → has read provider key ≡ true
    → contains_key key (inject read provider key env) ≡ true
contains_key-inject_self read provider key env h = elim (inject-cases read provider key env) [
  | inl (lacking, _) ↦ absurd (cc)
  | inr (v, _, e) ↦ rw e (ground (arith, lookup-insert key key v env, eq_iff key key))
]

contains_key-inject_all :
    (read : Reader) (provider key : String) (keys : List String) (env : Env)
    → contains_key key env ≡ true
    → contains_key key (inject_all read provider keys env) ≡ true
unfolding inject_all
contains_key-inject_all read provider key [] env h = h
contains_key-inject_all read provider key (k ∷ keys) env h =
    contains_key-inject_all read provider key keys (inject read provider k env)
      (contains_key-inject read provider k key env h)

abbrev Held : Env → List String → Type 0
Held env = All (λ key. contains_key key env ≡ true)

Held-inject_all :
    (read : Reader) (provider : String) (keys : List String) (env : Env)
    → All (λ key. has read provider key ≡ true) keys
    → Held (inject_all read provider keys env) keys
unfolding inject_all
Held-inject_all read provider [] env h = tt
Held-inject_all read provider (key ∷ keys) env h = (
  contains_key-inject_all read provider key keys (inject read provider key env)
      (contains_key-inject_self read provider key env h.0),
  Held-inject_all read provider keys (inject read provider key env) h.1,
)

first_missing-Held :
    (keys : List String) (env : Env) → Held env keys → first_missing keys env ≡ none
unfolding first_missing
first_missing-Held [] env h = refl
first_missing-Held (key ∷ keys) env h = rw h.0 (first_missing-Held keys env h.1)

-- If a store has every required key of a registered harness, then none is missing from the
-- environment that is drawn for it.
pub first_missing-env_for_harness :
    {V : Type 0} (registry : HarnessRegistry V) (read : Reader) (agent : AgentType)
    (harness : AgentHarness V)
    → get agent registry ≡ some harness
    → All (λ key. has read harness.provider_id key ≡ true) harness.required_env_keys
    → first_missing harness.required_env_keys (env_for_harness registry read agent) ≡ none
unfolding env_for_harness
first_missing-env_for_harness registry read agent harness found h =
    rw (found, env_for_harness)
      (first_missing-Held harness.required_env_keys _ (
        All-mono _ _ harness.required_env_keys
          (λ key held. contains_key-insert_all harness.extra_env key _ held)
          (Held-inject_all read harness.provider_id harness.required_env_keys [] h)))

contains_key-insert_all_other :
    (pairs : List (String × String)) (key : String) (env : Env)
    → All (λ e. str_eq e.0 key ≡ false) pairs
    → contains_key key (insert_all pairs env) ≡ contains_key key env
unfolding insert_all
contains_key-insert_all_other [] key env h = refl
contains_key-insert_all_other ((k, v) ∷ pairs) key env h =
    contains_key-insert_all_other pairs key (insert k v env) h.1
    ∙ ground (arith, lookup-insert k key v env, h.0)

-- With one required key that no extra variable overrides, the key is there exactly if the store
-- has it.
contains_key-drawn :
    (read : Reader) (provider key : String) (extra : List (String × String))
    → All (λ e. str_eq e.0 key ≡ false) extra
    → contains_key key (insert_all extra (inject_all read provider (key ∷ []) []))
      ≡ has read provider key
unfolding inject_all lookup
contains_key-drawn read provider key extra h =
    contains_key-insert_all_other extra key _ h ∙ elim (inject-cases read provider key []) [
      | inl (lacking, e) ↦ rw (e, lacking) refl
      | inr (v, there, e) ↦
          rw (e, there) (ground (arith, lookup-insert key key v [], eq_iff key key))
    ]

pub contains_key-env_for_harness :
    {V : Type 0} (r : HarnessRegistry V) (read : Reader) (h : AgentHarness V) (key : String)
    → get h.agent_type r ≡ some h
    → h.required_env_keys ≡ key ∷ []
    → All (λ e. str_eq e.0 key ≡ false) h.extra_env
    → contains_key key (env_for_harness r read h.agent_type) ≡ has read h.provider_id key
unfolding env_for_harness
contains_key-env_for_harness r read h key known one others =
    rw (known, env_for_harness)
      (rw one (contains_key-drawn read h.provider_id key h.extra_env others))
