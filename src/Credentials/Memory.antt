-- ===== src/Credentials/Memory.antt =====
-- crates/cuartel-core/src/credential_store.rs: `MemoryCredentialStore`, a `HashMap` by pairs of a
-- provider and a key. Its lock is not modelled.
use cuartel.Common.{String, Bool, ◌&&◌, List, [], ◌∷◌, Option, none, some, str_eq, if◌then◌else◌}
use cuartel.Credentials.{Result, ok}

abbrev pub MemoryCredentialStore : Type 0
MemoryCredentialStore = List (String × String × String)

abbrev pub same : String → String → String → String → Bool
same provider key at_provider at_key = str_eq at_provider provider && str_eq at_key key

-- `HashMap::get`
unfoldable pub find : String → String → MemoryCredentialStore → Option String
find provider key [] = none
find provider key ((p, k, value) ∷ rest) =
    if same provider key p k then some value else find provider key rest

unfoldable pub get : MemoryCredentialStore → String → String → Result (Option String)
unfolding find
get store provider_id env_key = ok (find provider_id env_key store)

-- `HashMap::insert`
unfoldable pub set : String → String → String → MemoryCredentialStore → MemoryCredentialStore
set provider_id env_key value [] = (provider_id, env_key, value) ∷ []
set provider_id env_key value ((p, k, old) ∷ rest) =
    let later = (p, k, old) ∷ set provider_id env_key value rest in
    if same provider_id env_key p k then (p, k, value) ∷ rest else later

-- `HashMap::remove`
unfoldable pub delete : String → String → MemoryCredentialStore → MemoryCredentialStore
delete provider_id env_key [] = []
delete provider_id env_key ((p, k, value) ∷ rest) =
    let later = delete provider_id env_key rest in
    if same provider_id env_key p k then later else (p, k, value) ∷ later
