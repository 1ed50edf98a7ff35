-- ===== src/Pipeline/Settled.antt =====
-- Stages with no dependency left in the numbers of `topological_sort`, and lists without repetition.
use mathlib.Core.Option.{some_inj}
use cuartel.Common.{
  ℕ, zero, suc, ◌+◌, ◌<◌, ◌≡◌, refl, sym, ap, ◌∙◌, true, false, some, List, [], ◌∷◌, ◌++◌, str_eq,
  eq_iff, if◌then◌else◌, arith, Bool-cases, Option-cases, inl, inr, ◌==◌, All, ltb,
}
use cuartel.Common.Dict.{lookup, adjust}
use cuartel.Pipeline.Defs.{StageId, contains}
use cuartel.Pipeline.Degrees.{or0, degree, degree-adjust, contains-append}

abbrev pub NoDup : List StageId → Type 0
NoDup [] = Unit
NoDup (x ∷ xs) = (contains xs x ≡ false) × NoDup xs

abbrev pub Settled : List (StageId × ℕ) → List StageId → Type 0
Settled m l = All (λ q. degree m q ≡ 0) l

-- How many keys have a number above 0.
abbrev pub positive : List (StageId × ℕ) → ℕ
positive [] = 0
positive ((j, n) ∷ m) = (if ltb 0 n then 1 else 0) + positive m

pub positive-adjust :
    (y : StageId) (k : ℕ) (m : List (StageId × ℕ))
    → lookup y m ≡ some (suc k)
    → positive m ≡ positive (adjust (λ d. k) y m) + (if k == 0 then 1 else 0)
unfolding lookup adjust
positive-adjust y k [] h = absurd (cc)
positive-adjust y k ((j, n) ∷ m) h = elim (Bool-cases (str_eq j y)) [
  | inl same ↦
      let now : n ≡ suc k = some_inj.0 (sym (rw (same, lookup) refl) ∙ h) in
      rw (same, now, adjust) (ground arith)
  | inr other ↦
      rw (other, adjust) (omega (arith, positive-adjust y k m (sym (rw (other, lookup) refl) ∙ h)))
]

-- A settled stage is not one with a number above 0.
pub unsettled :
    (m : List (StageId × ℕ)) (l : List StageId) (y : StageId)
    → Settled m l
    → 0 < degree m y
    → contains l y ≡ false
unsettled m [] y h p = refl
unsettled m (q ∷ l) y (z, h) p = elim (Bool-cases (str_eq q y)) [
  | inl same ↦ absurd (omega (arith, z, ap (degree m) ((eq_iff q y).0 same)))
  | inr other ↦ rw other (unsettled m l y h p)
]

pub Settled-adjust :
    (m : List (StageId × ℕ)) (l : List StageId) (y : StageId) (k : ℕ)
    → lookup y m ≡ some (suc k)
    → Settled m l
    → Settled (adjust (λ d. k) y m) l
Settled-adjust m [] y k e h = tt
Settled-adjust m (q ∷ l) y k e (z, h) = (
  degree-adjust (λ d. k) y q m (suc k) e ∙ elim (Bool-cases (str_eq y q)) [
    | inl same ↦
        let p : degree m q ≡ suc k = ap (degree m) (sym ((eq_iff y q).0 same)) ∙ ap or0 e in
        absurd (omega arith)
    | inr other ↦ rw other z
  ],
  Settled-adjust m l y k e h,
)

pub Settled-last :
    (m : List (StageId × ℕ)) (l : List StageId) (y : StageId)
    → Settled m l
    → degree m y ≡ 0
    → Settled m (l ++ y ∷ [])
Settled-last m [] y h z = (z, tt)
Settled-last m (q ∷ l) y (a, h) z = (a, Settled-last m l y h z)

pub true_is_no_false : ¬ (true ≡ false)
true_is_no_false h = cc

pub NoDup-last :
    (l : List StageId) (y : StageId) → NoDup l → contains l y ≡ false → NoDup (l ++ y ∷ [])
NoDup-last [] y h c = (refl, tt)
NoDup-last (q ∷ l) y (a, h) c = elim (Bool-cases (str_eq q y)) [
  | inl same ↦ absurd (true_is_no_false (rw same at c))
  | inr other ↦
      let flip : str_eq y q ≡ false = ground (arith, eq_iff q y, eq_iff y q) in
      (contains-append l (y ∷ []) q ∙ rw (a, flip) refl, NoDup-last l y h (rw other at c))
]

pub present :
    (y : StageId) (m : List (StageId × ℕ)) → 0 < degree m y → (k : ℕ) × (lookup y m ≡ some (suc k))
present y m p = elim (Option-cases (lookup y m)) [
  | inl e ↦ absurd (omega (arith, ap or0 e))
  | inr (zero, e) ↦ absurd (omega (arith, ap or0 e))
  | inr (suc k, e) ↦ (k, e)
]
