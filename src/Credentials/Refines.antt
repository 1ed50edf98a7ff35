-- ===== src/Credentials/Refines.antt =====
-- The store over the keyring as an implementation of what the store in memory does.
use cuartel.Common.{
  String, ◌≡◌, refl, sym, ap, ◌∙◌, ◌&&◌, List, [], ◌∷◌, Option, none, some, str_eq, eq_iff, arith,
  All, if◌then◌else◌,
}
use cuartel.Common.Text.{Lacks}
use cuartel.Credentials.{Result, ok}
use cuartel.Credentials.Memory.{MemoryCredentialStore}
use cuartel.Credentials.Memory
use cuartel.Credentials.Keychain.{Keyring, KeychainCredentialStore}
use cuartel.Credentials.Keychain
use cuartel.Credentials.Accounts.{Willing, get-set, get-delete, set_done, delete_done}

pub data Call : Type 0 where
  get_call delete_call : String → String → Call
  set_call : String → String → String → Call

abbrev pub provider_of : Call → String
provider_of (get_call p k) = p
provider_of (delete_call p k) = p
provider_of (set_call p k v) = p

pub data Answer : Type 0 where
  value : Result (Option String) → Answer
  done : Result (Unit {0}) → Answer

-- A call on the store in memory: the store that it leaves and its answer.
unfoldable pub memory_call : Call → MemoryCredentialStore → MemoryCredentialStore × Answer
unfolding Memory.get Memory.set Memory.delete
memory_call (get_call p k) store = (store, value (Memory.get store p k))
memory_call (set_call p k v) store = (Memory.set p k v store, done (ok tt))
memory_call (delete_call p k) store = (Memory.delete p k store, done (ok tt))

unfoldable pub memory_calls : List Call → MemoryCredentialStore → List Answer
unfolding memory_call
memory_calls [] store = []
memory_calls (c ∷ cs) store = (memory_call c store).1 ∷ memory_calls cs (memory_call c store).0

find-set :
    (p k v q j : String) (store : MemoryCredentialStore)
    → Memory.find q j (Memory.set p k v store)
      ≡ (if str_eq p q && str_eq k j then some v else Memory.find q j store)
unfolding Memory.find Memory.set
find-set p k v q j [] = refl
find-set p k v q j ((a, b, old) ∷ rest) = ground (
  arith,
  find-set p k v q j rest,
  eq_iff a p,
  eq_iff b k,
  eq_iff a q,
  eq_iff b j,
  eq_iff p q,
  eq_iff k j,
)

memory_get-set :
    (p k v q j : String) (store : MemoryCredentialStore)
    → Memory.get (Memory.set p k v store) q j
      ≡ (if str_eq p q && str_eq k j then ok (some v) else Memory.get store q j)
unfolding Memory.get
memory_get-set p k v q j store = ap ok (find-set p k v q j store) ∙ ground arith

find-delete :
    (p k q j : String) (store : MemoryCredentialStore)
    → Memory.find q j (Memory.delete p k store)
      ≡ (if str_eq p q && str_eq k j then none else Memory.find q j store)
unfolding Memory.find Memory.delete
find-delete p k q j [] = ground arith
find-delete p k q j ((a, b, old) ∷ rest) = ground (
  arith,
  find-delete p k q j rest,
  eq_iff a p,
  eq_iff b k,
  eq_iff a q,
  eq_iff b j,
  eq_iff p q,
  eq_iff k j,
)

memory_get-delete :
    (p k q j : String) (store : MemoryCredentialStore)
    → Memory.get (Memory.delete p k store) q j
      ≡ (if str_eq p q && str_eq k j then ok none else Memory.get store q j)
unfolding Memory.get
memory_get-delete p k q j store = ap ok (find-delete p k q j store) ∙ ground arith

module _ (keyring : Keyring) (keychain : KeychainCredentialStore) where
  open keyring use {Vault}

  -- A call on the store over the keyring.
  unfoldable pub keychain_call : Call → Vault → Vault × Answer
  unfolding Keychain.get Keychain.set Keychain.delete
  keychain_call (get_call p k) vault = (vault, value (Keychain.get keyring keychain vault p k))
  keychain_call (set_call p k v) vault =
      let (vault', answer) = Keychain.set keyring keychain p k v vault in (vault', done answer)
  keychain_call (delete_call p k) vault =
      let (vault', answer) = Keychain.delete keyring keychain p k vault in (vault', done answer)

  unfoldable pub keychain_calls : List Call → Vault → List Answer
  unfolding keychain_call
  keychain_calls [] vault = []
  keychain_calls (c ∷ cs) vault =
      (keychain_call c vault).1 ∷ keychain_calls cs (keychain_call c vault).0

  -- Both stores give the same credentials for all providers without a colon in their names.
  abbrev pub Agree : Vault → MemoryCredentialStore → Type 0
  Agree vault store =
      (q j : String) → Lacks 58 q → Keychain.get keyring keychain vault q j ≡ Memory.get store q j

  call_agrees :
      (c : Call) (vault : Vault) (store : MemoryCredentialStore)
      → Willing keyring keychain
      → Lacks 58 (provider_of c)
      → Agree vault store
      → ((keychain_call c vault).1 ≡ (memory_call c store).1)
        × Agree (keychain_call c vault).0 (memory_call c store).0
  unfolding keychain_call memory_call
  call_agrees (get_call p k) vault store w h r = (ap value (r p k h), r)
  call_agrees (set_call p k v) vault store w h r = (
    ap done (set_done keyring keychain w p k v vault),
    λ q j i.
        get-set keyring keychain p k v q j vault h i (set_done keyring keychain w p k v vault)
        ∙ ap (λ rest. if str_eq p q && str_eq k j then ok (some v) else rest) (r q j i)
        ∙ sym (memory_get-set p k v q j store),
  )
  call_agrees (delete_call p k) vault store w h r = (
    ap done (delete_done keyring keychain w p k vault),
    λ q j i.
        get-delete keyring keychain w p k q j vault h i
        ∙ ap (λ rest. if str_eq p q && str_eq k j then ok none else rest) (r q j i)
        ∙ sym (memory_get-delete p k q j store),
  )

  -- Over a keyring that grants every entry, write and removal, any sequence of calls for providers
  -- without a colon in their names gets the answers that the store in memory gives, if the two
  -- stores agree on those providers at the beginning.
  pub keychain_calls-memory_calls :
      (cs : List Call) (vault : Vault) (store : MemoryCredentialStore)
      → Willing keyring keychain
      → All (λ c. Lacks 58 (provider_of c)) cs
      → Agree vault store
      → keychain_calls cs vault ≡ memory_calls cs store
  unfolding keychain_calls memory_calls
  keychain_calls-memory_calls [] vault store w h r = refl
  keychain_calls-memory_calls (c ∷ cs) vault store w (h, hs) r =
      let (same, next) = call_agrees c vault store w h r in
      rw same (
        ap (λ answers. (memory_call c store).1 ∷ answers)
          (keychain_calls-memory_calls cs (keychain_call c vault).0 (memory_call c store).0 w hs
            next))
