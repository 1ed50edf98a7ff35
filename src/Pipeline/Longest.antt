-- ===== src/Pipeline/Longest.antt =====
-- A list of different ids is no longer than a list that has them all.
use cuartel.Common.{
  suc, ◌≤◌, ◌≡◌, true, false, List, [], ◌∷◌, str_eq, eq_iff, length, arith, Bool-cases, inl, inr,
  if◌then◌else◌,
}
use cuartel.Pipeline.Defs.{StageId, contains}
use cuartel.Pipeline.Settled.{NoDup}
use cuartel.Pipeline.Relaxed.{Within}

-- The list with one occurrence of an id taken out.
without : StageId → List StageId → List StageId
without x [] = []
without x (y ∷ ys) = let rest = y ∷ without x ys in if str_eq y x then ys else rest

length-without :
    (x : StageId) (ys : List StageId)
    → contains ys x ≡ true
    → length ys ≡ suc (length (without x ys))
unfolding without
length-without x [] c = absurd (cc)
length-without x (y ∷ ys) c = ground (arith, length-without x ys)

contains-without :
    (x z : StageId) (ys : List StageId)
    → str_eq x z ≡ false
    → contains ys z ≡ true
    → contains (without x ys) z ≡ true
unfolding without
contains-without x z [] d c = c
contains-without x z (y ∷ ys) d c =
    ground (arith, contains-without x z ys d, eq_iff y x, eq_iff y z, eq_iff x z)

Within-without :
    (x : StageId) (ys xs : List StageId)
    → contains xs x ≡ false
    → Within ys xs
    → Within (without x ys) xs
Within-without x ys [] c w = tt
Within-without x ys (z ∷ xs) c (a, w) = elim (Bool-cases (str_eq z x)) [
  | inl same ↦ absurd (cc (rw same at c))
  | inr other ↦ (
    contains-without x z ys (ground (arith, eq_iff z x, eq_iff x z)) a,
    Within-without x ys xs (rw other at c) w,
  )
]

pub length-Within : (xs ys : List StageId) → NoDup xs → Within ys xs → length xs ≤ length ys
length-Within [] ys n w = omega arith
length-Within (x ∷ xs) ys (fresh, n) (a, w) = omega (
  arith,
  length-without x ys a,
  length-Within xs (without x ys) n (Within-without x ys xs fresh w),
)
