-- ===== src/Credentials.antt =====
-- crates/cuartel-core/src/credential_store.rs: the trait `CredentialStore`, its implementations over
-- memory and over the system's keyring, and the environment that is drawn from a store.
pub mod Memory
pub mod Keychain
pub mod Refines
pub mod Accounts
pub mod Environment
mod Tests
use cuartel.Common.{
  ◌≡◌, refl, ◌⊎◌, inl, inr, String, Bool, true, false, not, ◌&&◌, List, [], ◌∷◌, Option, none, some,
  if◌then◌else◌,
}
use cuartel.Common.Dict.{insert}
use cuartel.Common.Text.{is_empty}
use cuartel.Agent.{AgentType}
use cuartel.Agent.Harness.{AgentHarness, Env}
use cuartel.Agent.Registry.{HarnessRegistry, get}

-- `anyhow::Result`, with the message of the error.
pub data Result (A : Type 0) : Type 0 where
  ok : A → Result A
  err : String → Result A

pub Result-cases :
    (r : Result (Option String))
    → (r ≡ ok none) ⊎ ((m : String) × (r ≡ err m)) ⊎ ((v : String) × (r ≡ ok (some v)))
Result-cases (ok none) = inl refl
Result-cases (err m) = inr (inl (m, refl))
Result-cases (ok (some v)) = inr (inr (v, refl))

-- `CredentialStore::get` of some store as it stands.
abbrev pub Reader : Type 0
Reader = String → String → Result (Option String)

-- `EnvSource::has` for every credential store: an error counts as not there.
unfoldable pub has : Reader → String → String → Bool
has read provider_id env_key = elim (read provider_id env_key) [
  | ok stored ↦ elim stored [ some value ↦ not (is_empty value) | none ↦ false ]
  | err message ↦ false
]

-- One round of the loop over the required keys.
unfoldable pub inject : Reader → String → String → Env → Env
inject read provider key env = elim (read provider key) [
  | ok stored ↦ elim stored [
    | some value ↦ if is_empty value then env else insert key value env
    | none ↦ env
  ]
  | err message ↦ env
]

unfoldable pub inject_all : Reader → String → List String → Env → Env
unfolding inject
inject_all read provider [] env = env
inject_all read provider (key ∷ keys) env =
    inject_all read provider keys (inject read provider key env)

unfoldable pub insert_all : List (String × String) → Env → Env
insert_all [] env = env
insert_all ((key, value) ∷ rest) env = insert_all rest (insert key value env)

unfoldable pub env_for_harness : {V : Type 0} → HarnessRegistry V → Reader → AgentType → Env
unfolding get inject_all insert_all
env_for_harness registry read agent = elim (get agent registry) [
  | none ↦ []
  | some harness ↦
      insert_all harness.extra_env
        (inject_all read harness.provider_id harness.required_env_keys [])
]
