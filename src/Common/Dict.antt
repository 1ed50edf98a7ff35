-- ===== src/Common/Dict.antt =====
-- Rust's `BTreeMap<String, V>` as an association list in the order of its keys. `insert` keeps the
-- order; the lookup laws need no order.
use Prim.Native.Nat.{compare, Ordering}
use Prim.Native.Char.{code}
use Prim.Native.String.{String}
use mathlib.Core.Path.{◌≡◌, refl, sym}
use mathlib.Core.Logic.{◌≢◌}
use mathlib.Core.Option
use mathlib.Core.Bool.{Bool, true, false}
use mathlib.Core.Option.{Option, none, some}
use mathlib.Core.List.{List, [], ◌∷◌}
use native.Mathlib.Omega.{arith}
use text.Mathlib.Text.{◌==◌}
use text.Mathlib.TextEquality.{eq_iff}
use cuartel.Common.Tests.{if◌then◌else◌}

-- The order of texts: by code points, which is the order of their UTF-8 bytes.
abbrev pub key_lt : String → String → Bool
key_lt s String.[] = false
key_lt String.[] (String.◌∷◌ d t) = true
key_lt (String.◌∷◌ c s) (String.◌∷◌ d t) =
    let rest = key_lt s t in
    elim (compare (code c) (code d)) [
      | Ordering.lt ↦ true
      | Ordering.eq ↦ rest
      | Ordering.gt ↦ false
    ]

pub key_lt_asym : (s t : String) → key_lt s t ≡ true → key_lt t s ≡ false
key_lt_asym s String.[] h = absurd (cc)
key_lt_asym String.[] (String.◌∷◌ d t) h = refl
key_lt_asym (String.◌∷◌ c s) (String.◌∷◌ d t) h = ground (arith, key_lt_asym s t)

module _ {ℓ} {V : Type ℓ} where
  -- `BTreeMap::get`
  unfoldable pub lookup : String → List (String × V) → Option V
  lookup key [] = none
  lookup key ((at, value) ∷ rest) = elim (at == key) [ true ↦ some value | false ↦ lookup key rest ]

  -- `BTreeMap::insert`: a key that is there gets the new value, a new one its place in the order.
  unfoldable pub insert : String → V → List (String × V) → List (String × V)
  insert key new [] = (key, new) ∷ []
  insert key new ((at, old) ∷ rest) =
      let later = (at, old) ∷ insert key new rest in
      let here = (key, new) ∷ (at, old) ∷ rest in
      elim (at == key) [ true ↦ (key, new) ∷ rest | false ↦ if key_lt key at then here else later ]

  -- The new value is found under its key, and every other key finds what it found before.
  pub lookup-insert :
      (key other : String) (new : V) (map : List (String × V))
      → lookup other (insert key new map)
        ≡ elim (key == other) [ true ↦ some new | false ↦ lookup other map ]
  unfolding lookup insert
  lookup-insert key other new [] = refl
  lookup-insert key other new ((at, old) ∷ rest) =
      ground
        (arith, lookup-insert key other new rest, eq_iff at other, eq_iff at key, eq_iff key other)

  -- `BTreeMap::get_mut` followed by a change of the value.
  unfoldable pub adjust : (V → V) → String → List (String × V) → List (String × V)
  adjust f k [] = []
  adjust f k ((j, v) ∷ m) =
      let later = adjust f k m in if j == k then (j, f v) ∷ m else (j, v) ∷ later

  -- A change of every value, `values_mut`.
  unfoldable pub map_values : (V → V) → List (String × V) → List (String × V)
  map_values f [] = []
  map_values f ((j, v) ∷ m) = (j, f v) ∷ map_values f m

  pub lookup-adjust :
      (f : V → V) (k j : String) (m : List (String × V))
      → lookup j (adjust f k m) ≡ (if k == j then Option.map f (lookup j m) else lookup j m)
  unfolding lookup adjust
  lookup-adjust f k j [] = ground arith
  lookup-adjust f k j ((i, w) ∷ m) =
      ground (arith, eq_iff k j, eq_iff i k, eq_iff i j, lookup-adjust f k j m)

  pub lookup-map_values :
      (f : V → V) (j : String) (m : List (String × V))
      → lookup j (map_values f m) ≡ Option.map f (lookup j m)
  unfolding lookup map_values
  lookup-map_values f j [] = refl
  lookup-map_values f j ((i, w) ∷ m) = ground (arith, lookup-map_values f j m)

  -- No key stands twice: what a `BTreeMap` keeps.
  abbrev pub Absent : String → List (String × V) → Type 0
  Absent k [] = Unit
  Absent k ((j, w) ∷ m) = (j ≢ k) × Absent k m

  abbrev pub Distinct : List (String × V) → Type 0
  Distinct [] = Unit
  Distinct ((j, w) ∷ m) = Absent j m × Distinct m

  pub Absent-insert :
      (k j : String) (v : V) (m : List (String × V)) → k ≢ j → Absent j m → Absent j (insert k v m)
  unfolding insert
  Absent-insert k j v [] h a = (h, tt)
  Absent-insert k j v ((i, w) ∷ m) h a = ground (arith, eq_iff i k, Absent-insert k j v m h a.1)

  pub Distinct-insert :
      (k : String) (v : V) (m : List (String × V))
      → Absent k m
      → Distinct m
      → Distinct (insert k v m)
  unfolding insert
  Distinct-insert k v [] a d = (tt, tt)
  Distinct-insert k v ((i, w) ∷ m) a d = ground (
    arith,
    eq_iff i k,
    Distinct-insert k v m a.1 d.1,
    Absent-insert k i v m (λ e. a.0 (sym e)) d.0,
  )

  pub Absent-adjust :
      (f : V → V) (k j : String) (m : List (String × V)) → Absent j m → Absent j (adjust f k m)
  unfolding adjust
  Absent-adjust f k j [] a = tt
  Absent-adjust f k j ((i, w) ∷ m) a = ground (arith, Absent-adjust f k j m a.1)

  pub Distinct-adjust :
      (f : V → V) (k : String) (m : List (String × V)) → Distinct m → Distinct (adjust f k m)
  unfolding adjust
  Distinct-adjust f k [] d = tt
  Distinct-adjust f k ((i, w) ∷ m) d =
      ground (arith, Distinct-adjust f k m d.1, Absent-adjust f k i m d.0)

  pub Absent-map_values :
      (f : V → V) (j : String) (m : List (String × V)) → Absent j m → Absent j (map_values f m)
  unfolding map_values
  Absent-map_values f j [] a = tt
  Absent-map_values f j ((i, w) ∷ m) a = (a.0, Absent-map_values f j m a.1)

  pub Distinct-map_values :
      (f : V → V) (m : List (String × V)) → Distinct m → Distinct (map_values f m)
  unfolding map_values
  Distinct-map_values f [] d = tt
  Distinct-map_values f ((i, w) ∷ m) d = (Absent-map_values f i m d.0, Distinct-map_values f m d.1)

  pub lookup-Absent : (k : String) (m : List (String × V)) → Absent k m → lookup k m ≡ none
  unfolding lookup
  lookup-Absent k [] a = refl
  lookup-Absent k ((i, w) ∷ m) a = ground (arith, eq_iff i k, lookup-Absent k m a.1)
