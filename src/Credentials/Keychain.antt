-- ===== src/Credentials/Keychain.antt =====
-- crates/cuartel-core/src/credential_store.rs: `KeychainCredentialStore` over the crate `keyring`,
-- which is an interface here.
use Prim.Native.String.{◌++◌}
use cuartel.Common.{String, ◌≡◌, Option, none, some, if◌then◌else◌, str_eq}
use cuartel.Credentials.{Result, ok, err}

pub data Reading : Type 0 where
  password : String → Reading
  no_entry : Reading
  failure : String → Reading

pub data Removal : Type 0 where
  removed missing : Removal
  not_removed : String → Removal

-- The crate `keyring`: secrets by service and account. A write or a removal that succeeds is seen
-- by every later read of that account and of no other one; after a removal, or one that finds nothing
-- to remove, the account has no entry.
pub record Keyring : Type 1 where
  pub Vault : Type 0
  pub new_entry : String → String → Option String
  pub get_password : Vault → String → String → Reading
  pub set_password : Vault → String → String → String → Vault × Option String
  pub delete_credential : Vault → String → String → Vault × Removal
  pub set_reads :
      (v : Vault) (service account secret other : String)
      → (set_password v service account secret).1 ≡ none
      → get_password (set_password v service account secret).0 service other
        ≡ (if str_eq account other then password secret else get_password v service other)
  pub delete_reads :
      (v : Vault) (service account other : String)
      → (delete_credential v service account).1 ≡ removed
      → get_password (delete_credential v service account).0 service other
        ≡ (if str_eq account other then no_entry else get_password v service other)
  pub missing_reads :
      (v : Vault) (service account other : String)
      → (delete_credential v service account).1 ≡ missing
      → get_password (delete_credential v service account).0 service other
        ≡ (if str_eq account other then no_entry else get_password v service other)

pub record KeychainCredentialStore : Type 0 where
  pub service : String

unfoldable pub default : KeychainCredentialStore
default = record { service = "dev.cuartel.credentials" }

unfoldable pub account : String → String → String
account provider_id env_key = provider_id ++ (":" ++ env_key)

module _ (keyring : Keyring) (store : KeychainCredentialStore) where
  open keyring use {Vault, new_entry, get_password, set_password, delete_credential}

  -- `none` when the entry can be used.
  unfoldable pub entry : String → String → Option String
  unfolding account
  entry provider_id env_key = elim (new_entry store.service (account provider_id env_key)) [
    | none ↦ none
    | some e ↦ some ("keyring entry init failed: " ++ e)
  ]

  unfoldable pub reading : Reading → Result (Option String)
  reading (password v) = ok (some v)
  reading no_entry = ok none
  reading (failure e) = err ("keyring read failed: " ++ e)

  unfoldable pub get : Vault → String → String → Result (Option String)
  unfolding entry account reading
  get vault provider_id env_key = elim (entry provider_id env_key) [
    | some e ↦ err e
    | none ↦ reading (get_password vault store.service (account provider_id env_key))
  ]

  written : Vault × Option String → Vault × Result (Unit {0})
  written (vault, none) = (vault, ok tt)
  written (vault, some e) = (vault, err ("keyring write failed: " ++ e))

  unfoldable pub set : String → String → String → Vault → Vault × Result (Unit {0})
  unfolding entry account written
  set provider_id env_key value vault = elim (entry provider_id env_key) [
    | some e ↦ (vault, err e)
    | none ↦ written (set_password vault store.service (account provider_id env_key) value)
  ]

  deleted : Vault × Removal → Vault × Result (Unit {0})
  deleted (vault, removed) = (vault, ok tt)
  deleted (vault, missing) = (vault, ok tt)
  deleted (vault, not_removed e) = (vault, err ("keyring delete failed: " ++ e))

  unfoldable pub delete : String → String → Vault → Vault × Result (Unit {0})
  unfolding entry account deleted
  delete provider_id env_key vault = elim (entry provider_id env_key) [
    | some e ↦ (vault, err e)
    | none ↦ deleted (delete_credential vault store.service (account provider_id env_key))
  ]
