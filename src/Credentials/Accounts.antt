-- ===== src/Credentials/Accounts.antt =====
-- The accounts of the keyring keep the credentials of different providers apart, as long as no
-- provider has a colon in its name.
use Prim.Native.String.{[], ◌∷◌, ◌++◌}
use Prim.Native.Char.{code}
use text.Mathlib.TextLemmas.{cons-append, nil-append, head-eq_of_cons-eq, tail-eq_of_cons-eq}
use cuartel.Common.{
  String, ◌≡◌, ap, sym, ◌∙◌, ◌&&◌, none, some, if◌then◌else◌, str_eq, eq_iff, arith, ◌⊎◌, inl, inr,
  Bool-cases,
}
use cuartel.Common.Text.{Lacks}
use cuartel.Credentials.{ok}
use cuartel.Credentials.Keychain.{
  no_entry, Keyring, KeychainCredentialStore, account, removed, missing, get, set, delete,
}

colon : (k : String) → ":" ++ k ≡ ":" ∷ k
colon k = cons-append ":" "" k ∙ ap (λ s. ":" ∷ s) (nil-append k)

grown : (c : _) (p k : String) → account (c ∷ p) k ≡ c ∷ account p k
unfolding account
grown c p k = cons-append c p (":" ++ k)

no_provider : (k : String) → account [] k ≡ ":" ∷ k
unfolding account
no_provider k = nil-append (":" ++ k) ∙ colon k

account_injective :
    (p q k j : String) → Lacks 58 p → Lacks 58 q → account p k ≡ account q j → (p ≡ q) × (k ≡ j)
account_injective [] [] k j h i e =
    (λ _. [], tail-eq_of_cons-eq (sym (no_provider k) ∙ e ∙ no_provider j))
account_injective [] (d ∷ q) k j h i e =
    let head : ":" ≡ d = head-eq_of_cons-eq (sym (no_provider k) ∙ e ∙ grown d q j) in
    absurd (ground (arith, ap code head, i.0))
account_injective (c ∷ p) [] k j h i e =
    let head : c ≡ ":" = head-eq_of_cons-eq (sym (grown c p k) ∙ e ∙ no_provider j) in
    absurd (ground (arith, ap code head, h.0))
account_injective (c ∷ p) (d ∷ q) k j h i e =
    let both : c ∷ account p k ≡ d ∷ account q j = sym (grown c p k) ∙ e ∙ grown d q j in
    let (same, rest) = account_injective p q k j h.1 i.1 (tail-eq_of_cons-eq both) in
    (λ t. head-eq_of_cons-eq both t ∷ same t, rest)

account_test :
    (p q k j : String)
    → Lacks 58 p
    → Lacks 58 q
    → str_eq (account p k) (account q j) ≡ (str_eq p q && str_eq k j)
account_test p q k j h i = elim (Bool-cases (str_eq (account p k) (account q j))) [
  | inl e ↦
      let (ps, ks) = account_injective p q k j h i ((eq_iff _ _).0 e) in
      e ∙ ground (arith, eq_iff p q, eq_iff k j, ps, ks)
  | inr e ↦
      e
      ∙ ground (
        arith,
        eq_iff p q,
        eq_iff k j,
        eq_iff (account p k) (account q j),
        λ (s : p ≡ q) (t : k ≡ j). ap (λ x. account x k) s ∙ ap (account q) t,
      )
]

module _ (keyring : Keyring) (store : KeychainCredentialStore) where
  open keyring use {
    Vault, new_entry, get_password, set_password, delete_credential, set_reads, delete_reads,
    missing_reads,
  }

  -- What a write that succeeded leaves: the account had an entry and the keyring took the secret.
  stored :
      (p k v : String) (vault : Vault)
      → (set keyring store p k v vault).1 ≡ ok tt
      → (new_entry store.service (account p k) ≡ none)
        × ((set_password vault store.service (account p k) v).1 ≡ none)
        × ((set keyring store p k v vault).0 ≡ (set_password vault store.service (account p k) v).0)
  unfolding set
  stored p k v vault h = ground arith

  -- A credential that was stored without an error is read back, and every other credential reads
  -- as before, when neither provider has a colon in its name.
  pub get-set :
      (p k v q j : String) (vault : Vault)
      → Lacks 58 p
      → Lacks 58 q
      → (set keyring store p k v vault).1 ≡ ok tt
      → get keyring store (set keyring store p k v vault).0 q j
        ≡ (if str_eq p q && str_eq k j then ok (some v) else get keyring store vault q j)
  unfolding get
  get-set p k v q j vault h i done =
      let (opened, taken, left) = stored p k v vault done in
      ground (
        arith,
        left,
        opened,
        account_test p q k j h i,
        account_injective p q k j h i,
        eq_iff p q,
        eq_iff k j,
        eq_iff (account p k) (account q j),
        set_reads vault store.service (account p k) v (account q j) taken,
      )

  -- The keyring grants every entry, write and removal.
  pub record Willing : Type 0 where
    pub opens : (at : String) → new_entry store.service at ≡ none
    pub takes :
        (vault : Vault) (at secret : String) → (set_password vault store.service at secret).1 ≡ none
    pub drops :
        (vault : Vault) (at : String)
        → ((delete_credential vault store.service at).1 ≡ removed)
          ⊎ ((delete_credential vault store.service at).1 ≡ missing)

  module _ (w : Willing) where
    pub set_done : (p k v : String) (vault : Vault) → (set keyring store p k v vault).1 ≡ ok tt
    unfolding set
    set_done p k v vault = ground (arith, w.opens (account p k), w.takes vault (account p k) v)

    -- What a removal leaves.
    dropped :
        (p k : String) (vault : Vault)
        → ((delete keyring store p k vault).1 ≡ ok tt)
          × ((delete keyring store p k vault).0
              ≡ (delete_credential vault store.service (account p k)).0)
    unfolding delete
    dropped p k vault = ground (arith, w.opens (account p k), w.drops vault (account p k))

    pub delete_done : (p k : String) (vault : Vault) → (delete keyring store p k vault).1 ≡ ok tt
    delete_done p k vault = (dropped p k vault).0

    drop_reads :
        (vault : Vault) (at other : String)
        → get_password (delete_credential vault store.service at).0 store.service other
          ≡ (if str_eq at other then no_entry else get_password vault store.service other)
    drop_reads vault at other = elim (w.drops vault at) [
      | inl e ↦ delete_reads vault store.service at other e
      | inr e ↦ missing_reads vault store.service at other e
    ]

    -- A credential that was removed is not there, and every other one reads as before.
    pub get-delete :
        (p k q j : String) (vault : Vault)
        → Lacks 58 p
        → Lacks 58 q
        → get keyring store (delete keyring store p k vault).0 q j
          ≡ (if str_eq p q && str_eq k j then ok none else get keyring store vault q j)
    unfolding get
    get-delete p k q j vault h i = ground (
      arith,
      (dropped p k vault).1,
      w.opens (account q j),
      account_test p q k j h i,
      drop_reads vault (account p k) (account q j),
    )
