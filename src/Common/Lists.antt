-- ===== src/Common/Lists.antt =====
-- Lists measured and indexed by native numbers (Rust's `Vec`), under the library's names.
use Prim.Native.Nat.{ℕ, zero, suc, ◌+◌, ◌-◌, ◌≤◌, ◌<◌, min}
use mathlib.Core.Path.{◌≡◌, refl, ap, subst}
use mathlib.Core.Bool.{Bool, true, false, ◌&&◌, ◌||◌}
use mathlib.Core.List.{List, [], ◌∷◌, ◌++◌, map}
use mathlib.Core.Option.{Option, none, some}
use native.Mathlib.Omega.{arith}

module _ {ℓ} {A : Type ℓ} where
  abbrev pub length : List A → ℕ
  length [] = 0
  length (x ∷ xs) = suc (length xs)

  -- `Vec::get`
  abbrev pub get_elem? : List A → ℕ → Option A
  get_elem? [] i = none
  get_elem? (x ∷ xs) zero = some x
  get_elem? (x ∷ xs) (suc i) = get_elem? xs i

  -- A write out of bounds changes nothing.
  abbrev pub set : List A → ℕ → A → List A
  set [] i v = []
  set (x ∷ xs) zero v = v ∷ xs
  set (x ∷ xs) (suc i) v = x ∷ set xs i v

  abbrev pub take : ℕ → List A → List A
  take zero xs = []
  take (suc n) [] = []
  take (suc n) (x ∷ xs) = x ∷ take n xs

  abbrev pub drop : ℕ → List A → List A
  drop zero xs = xs
  drop (suc n) [] = []
  drop (suc n) (x ∷ xs) = drop n xs

  abbrev pub replicate : ℕ → A → List A
  replicate zero a = []
  replicate (suc n) a = a ∷ replicate n a

  -- `Iterator::all` and `Iterator::any`
  abbrev pub all : (A → Bool) → List A → Bool
  all p [] = true
  all p (x ∷ xs) = p x && all p xs

  abbrev pub any : (A → Bool) → List A → Bool
  any p [] = false
  any p (x ∷ xs) = p x || any p xs

  -- The index operator of a slice on a checked index is `get_elem?`; this is the update of one
  -- element in place.
  abbrev pub modify : (A → A) → List A → ℕ → List A
  modify f [] i = []
  modify f (x ∷ xs) zero = f x ∷ xs
  modify f (x ∷ xs) (suc i) = x ∷ modify f xs i

  pub length-append : (xs ys : List A) → length (xs ++ ys) ≡ length xs + length ys
  length-append [] ys = omega arith
  length-append (x ∷ xs) ys = omega (arith, length-append xs ys)

  pub length-set : (xs : List A) (i : ℕ) (v : A) → length (set xs i v) ≡ length xs
  length-set [] i v = refl
  length-set (x ∷ xs) zero v = refl
  length-set (x ∷ xs) (suc i) v = ap suc (length-set xs i v)

  pub length-modify : (f : A → A) (xs : List A) (i : ℕ) → length (modify f xs i) ≡ length xs
  length-modify f [] i = refl
  length-modify f (x ∷ xs) zero = refl
  length-modify f (x ∷ xs) (suc i) = ap suc (length-modify f xs i)

  pub length-replicate : (n : ℕ) (a : A) → length (replicate n a) ≡ n
  length-replicate zero a = refl
  length-replicate (suc n) a = ap suc (length-replicate n a)

  pub length-take_le : (n : ℕ) (xs : List A) → n ≤ length xs → length (take n xs) ≡ n
  length-take_le zero xs h = refl
  length-take_le (suc n) [] h = omega arith
  length-take_le (suc n) (x ∷ xs) h = omega (arith, length-take_le n xs)

  pub length-take : (n : ℕ) (xs : List A) → length (take n xs) ≡ min n (length xs)
  length-take zero xs = omega arith
  length-take (suc n) [] = omega arith
  length-take (suc n) (x ∷ xs) = omega (arith, length-take n xs)

  pub length-drop : (n : ℕ) (xs : List A) → length (drop n xs) ≡ length xs - n
  length-drop zero xs = omega arith
  length-drop (suc n) [] = omega arith
  length-drop (suc n) (x ∷ xs) = omega (arith, length-drop n xs)

  -- An index below the length holds an element.
  pub get_elem?_of_lt : (xs : List A) (i : ℕ) → i < length xs → (a : A) × (get_elem? xs i ≡ some a)
  get_elem?_of_lt [] i h = elim h [ ]
  get_elem?_of_lt (x ∷ xs) zero h = (x, refl)
  get_elem?_of_lt (x ∷ xs) (suc i) h = get_elem?_of_lt xs i (omega arith)

pub length-map {ℓ κ} :
    {A : Type ℓ} {B : Type κ} (f : A → B) (xs : List A) → length (map f xs) ≡ length xs
length-map f [] = refl
length-map f (x ∷ xs) = ap suc (length-map f xs)

-- `Iterator::find` and `Iterator::filter` with a Boolean test
module _ {ℓ} {A : Type ℓ} where
  abbrev pub find : (A → Bool) → List A → Option A
  find p [] = none
  find p (x ∷ xs) = elim (p x) [ true ↦ some x | false ↦ find p xs ]

  abbrev pub select : (A → Bool) → List A → List A
  select p [] = []
  select p (x ∷ xs) = let rest = select p xs in elim (p x) [ true ↦ x ∷ rest | false ↦ rest ]

-- A predicate on every element.
module _ {ℓ κ} {A : Type ℓ} (P : A → Type κ) where
  abbrev pub All : List A → Type κ
  All [] = Unit
  All (x ∷ xs) = P x × All xs

  pub All-append : (xs ys : List A) → All xs → All ys → All (xs ++ ys)
  All-append [] ys hx hy = hy
  All-append (x ∷ xs) ys hx hy = (hx.0, All-append xs ys hx.1 hy)

  pub All-set : (xs : List A) (i : ℕ) (v : A) → All xs → P v → All (set xs i v)
  All-set [] i v h p = tt
  All-set (x ∷ xs) zero v h p = (p, h.1)
  All-set (x ∷ xs) (suc i) v h p = (h.0, All-set xs i v h.1 p)

  pub All-modify :
      (f : A → A) (xs : List A) (i : ℕ) → ((x : A) → P x → P (f x)) → All xs → All (modify f xs i)
  All-modify f [] i k h = tt
  All-modify f (x ∷ xs) zero k h = (k x h.0, h.1)
  All-modify f (x ∷ xs) (suc i) k h = (h.0, All-modify f xs i k h.1)

  pub All-replicate : (n : ℕ) (a : A) → P a → All (replicate n a)
  All-replicate zero a p = tt
  All-replicate (suc n) a p = (p, All-replicate n a p)

  pub All-take : (n : ℕ) (xs : List A) → All xs → All (take n xs)
  All-take zero xs h = tt
  All-take (suc n) [] h = tt
  All-take (suc n) (x ∷ xs) h = (h.0, All-take n xs h.1)

  pub All-drop : (n : ℕ) (xs : List A) → All xs → All (drop n xs)
  All-drop zero xs h = h
  All-drop (suc n) [] h = tt
  All-drop (suc n) (x ∷ xs) h = All-drop n xs h.1

  pub All-get_elem? : (xs : List A) (i : ℕ) (a : A) → All xs → get_elem? xs i ≡ some a → P a
  All-get_elem? [] i a h e = cc
  All-get_elem? (x ∷ xs) zero a h e = subst P (cc) h.0
  All-get_elem? (x ∷ xs) (suc i) a h e = All-get_elem? xs i a h.1 e

pub All-map {ℓ κ μ} :
    {A : Type ℓ} {B : Type μ} (P : B → Type κ) (f : A → B) (xs : List A)
    → All (λ x. P (f x)) xs
    → All P (map f xs)
All-map P f [] h = tt
All-map P f (x ∷ xs) h = (h.0, All-map P f xs h.1)

pub All-mono {ℓ κ μ} :
    {A : Type ℓ} (P : A → Type κ) (Q : A → Type μ) (xs : List A)
    → ((x : A) → P x → Q x)
    → All P xs
    → All Q xs
All-mono P Q [] k h = tt
All-mono P Q (x ∷ xs) k h = (k x h.0, All-mono P Q xs k h.1)
