-- ===== src/Credentials/Tests.antt =====
-- Credentials in memory and in a keyring that is an association list of accounts.
use cuartel.Common.{
  ◌≡◌, refl, String, ◌&&◌, List, [], ◌∷◌, Option, none, some, str_eq, if◌then◌else◌, eq_iff, arith,
  inl,
}
use cuartel.Common.Dict.{lookup, insert, lookup-insert}
use cuartel.Common.Text.{Lacks}
use cuartel.Credentials.{ok}
use cuartel.Credentials.Refines.{
  Call, value, done, get_call, set_call, delete_call, memory_calls, keychain_calls, Agree,
  keychain_calls-memory_calls,
}
use cuartel.Credentials.Memory
use cuartel.Credentials.Keychain.{
  Keyring, Reading, Removal, password, no_entry, removed, missing, default, get, set, account,
}
use cuartel.Credentials.Accounts.{Willing, get-set}

abbrev day : List Call
day =
    set_call "anthropic" "ANTHROPIC_API_KEY" "sk-1"
    ∷ get_call "anthropic" "ANTHROPIC_API_KEY"
    ∷ delete_call "anthropic" "ANTHROPIC_API_KEY"
    ∷ get_call "anthropic" "ANTHROPIC_API_KEY"
    ∷ []

day_answers :
    memory_calls day []
    ≡ done (ok tt) ∷ value (ok (some "sk-1")) ∷ done (ok tt) ∷ value (ok none) ∷ []
unfolding memory_calls
day_answers = refl

-- One service only; each account is a key.
abbrev Vault : Type 0
Vault = List (String × String)

abbrev read_vault : Vault → String → String → Reading
read_vault v service at = elim (lookup at v) [ none ↦ no_entry | some s ↦ password s ]

abbrev write_vault : Vault → String → String → String → Vault × Option String
write_vault v service at secret = (insert at secret v, none)

erase : String → Vault → Vault
erase at [] = []
erase at ((key, secret) ∷ v) =
    let rest = erase at v in if str_eq key at then rest else (key, secret) ∷ rest

abbrev drop_from : Vault → String → String → Vault × Removal
drop_from v service at = (erase at v, removed)

lookup-erase :
    (at other : String) (v : Vault)
    → lookup other (erase at v) ≡ (if str_eq at other then none else lookup other v)
unfolding lookup erase
lookup-erase at other [] = ground arith
lookup-erase at other ((key, secret) ∷ v) =
    ground (arith, lookup-erase at other v, eq_iff key at, eq_iff key other, eq_iff at other)

vault_reads :
    (v : Vault) (service at secret other : String)
    → (write_vault v service at secret).1 ≡ none
    → read_vault (write_vault v service at secret).0 service other
      ≡ (if str_eq at other then password secret else read_vault v service other)
vault_reads v service at secret other h =
    ground (arith, lookup-insert at other secret v, eq_iff at other)

vault_drops :
    (v : Vault) (service at other : String)
    → (drop_from v service at).1 ≡ removed
    → read_vault (drop_from v service at).0 service other
      ≡ (if str_eq at other then no_entry else read_vault v service other)
vault_drops v service at other h = ground (arith, lookup-erase at other v)

vault_finds :
    (v : Vault) (service at other : String)
    → (drop_from v service at).1 ≡ missing
    → read_vault (drop_from v service at).0 service other
      ≡ (if str_eq at other then no_entry else read_vault v service other)
vault_finds v service at other h = absurd (cc)

abbrev vaults : Keyring
vaults = record {
  Vault = Vault;
  new_entry = λ service at. none;
  get_password = read_vault;
  set_password = write_vault;
  delete_credential = drop_from;
  set_reads = vault_reads;
  delete_reads = vault_drops;
  missing_reads = vault_finds;
}

get-set_example :
    get vaults default (set vaults default "anthropic" "KEY" "sk-1" []).0 "openai" "KEY" ≡ (
      if str_eq "anthropic" "openai" && str_eq "KEY" "KEY"
      then ok (some "sk-1")
      else get vaults default [] "openai" "KEY")
unfolding set
get-set_example =
    get-set vaults default "anthropic" "KEY" "sk-1" "openai" "KEY" []
      (refl, (refl, (refl, (refl, (refl, (refl, (refl, (refl, (refl, tt)))))))))
      (refl, (refl, (refl, (refl, (refl, (refl, tt)))))) refl

anthropic : Lacks 58 "anthropic"
anthropic = (refl, (refl, (refl, (refl, (refl, (refl, (refl, (refl, (refl, tt)))))))))

vaults-Willing : Willing vaults default
vaults-Willing = record {
  opens = λ at. refl;
  takes = λ v at secret. refl;
  drops = λ v at. inl refl;
}

both_empty : Agree vaults default [] []
unfolding get Memory.get lookup
both_empty q j i = refl

keychain_calls-memory_calls_example : keychain_calls vaults default day [] ≡ memory_calls day []
keychain_calls-memory_calls_example =
    keychain_calls-memory_calls vaults default day [] [] vaults-Willing
      (anthropic, (anthropic, (anthropic, (anthropic, tt)))) both_empty

-- A colon in the name of a provider mixes up two accounts.
shared_account : account "a:b" "c" ≡ account "a" "b:c"
unfolding account
shared_account = refl
