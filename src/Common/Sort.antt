-- ===== src/Common/Sort.antt =====
-- Rust's `sort_by`: sorting by insertion, which is stable too.
use mathlib.Core.List.{List, [], ◌∷◌, Perm}
use mathlib.Core.List.Perm
use mathlib.Core.Path.{◌≡◌}
use mathlib.Core.Logic.{◌⊎◌, inl, inr}
use mathlib.Core.Bool.{Bool, true, false}
use cuartel.Common.Tests.{if◌then◌else◌, Bool-cases}

-- The argument `lt` tells which elements stand before which.
module _ {A : Type 0} (lt : A → A → Bool) where
  unfoldable pub place : A → List A → List A
  place a [] = a ∷ []
  place a (b ∷ rest) = let later = b ∷ place a rest in if lt b a then later else a ∷ b ∷ rest

  unfoldable pub sort_by : List A → List A
  unfolding place
  sort_by [] = []
  sort_by (a ∷ rest) = place a (sort_by rest)

  -- No element stands right before one that belongs before it.
  abbrev pub IsSorted : List A → Type 0
  IsSorted [] = Unit
  IsSorted (a ∷ []) = Unit
  IsSorted (a ∷ b ∷ rest) = (lt b a ≡ false) × IsSorted (b ∷ rest)

  NotAfter : A → List A → Type 0
  NotAfter a [] = Unit
  NotAfter a (b ∷ rest) = lt b a ≡ false

  IsSorted-cons : (a : A) (l : List A) → NotAfter a l → IsSorted l → IsSorted (a ∷ l)
  unfolding NotAfter
  IsSorted-cons a [] n h = tt
  IsSorted-cons a (b ∷ rest) n h = (n, h)

  IsSorted-head : (a : A) (l : List A) → IsSorted (a ∷ l) → NotAfter a l × IsSorted l
  unfolding NotAfter
  IsSorted-head a [] h = (tt, tt)
  IsSorted-head a (b ∷ rest) h = h

  -- What may stand before a list and before one more element may stand before both.
  NotAfter-place : (b a : A) (l : List A) → lt a b ≡ false → NotAfter b l → NotAfter b (place a l)
  unfolding place NotAfter
  NotAfter-place b a [] h n = h
  NotAfter-place b a (c ∷ rest) h n = elim (Bool-cases (lt c a)) [
    | inl e ↦ rw (e, NotAfter) n
    | inr e ↦ rw (e, NotAfter) h
  ]

  place-perm : (a : A) (l : List A) → Perm (place a l) (a ∷ l)
  unfolding place
  place-perm a [] = Perm.refl (a ∷ [])
  place-perm a (b ∷ rest) = elim (Bool-cases (lt b a)) [
    | inr e ↦ rw e (Perm.refl (a ∷ b ∷ rest))
    | inl e ↦ rw e (Perm.trans (Perm.cons b (place-perm a rest)) (Perm.swap a b rest))
  ]

  pub sort_by-perm : (l : List A) → Perm (sort_by l) l
  unfolding sort_by
  sort_by-perm [] = Perm.refl []
  sort_by-perm (a ∷ rest) =
      Perm.trans (place-perm a (sort_by rest)) (Perm.cons a (sort_by-perm rest))

  module _ (asym : (a b : A) → lt a b ≡ true → lt b a ≡ false) where
    place-IsSorted : (a : A) (l : List A) → IsSorted l → IsSorted (place a l)
    unfolding place NotAfter
    place-IsSorted a [] h = tt
    place-IsSorted a (b ∷ rest) h = elim (Bool-cases (lt b a)) [
      | inr e ↦ rw (e, IsSorted) (IsSorted-cons a (b ∷ rest) e h)
      | inl e ↦
          let (front, behind) = IsSorted-head b rest h in
          rw (e, IsSorted)
            (IsSorted-cons b (place a rest) (NotAfter-place b a rest (asym b a e) front)
              (place-IsSorted a rest behind))
    ]

    pub sort_by-IsSorted : (l : List A) → IsSorted (sort_by l)
    unfolding sort_by
    sort_by-IsSorted [] = tt
    sort_by-IsSorted (a ∷ rest) = place-IsSorted a (sort_by rest) (sort_by-IsSorted rest)

-- A member, with its place.
abbrev pub In : {A : Type 0} → A → List A → Type 0
In a [] = ⊥
In a (b ∷ rest) = (a ≡ b) ⊎ In a rest

module _ {A : Type 0} (lt : A → A → Bool) where
  In-place : (x a : A) (l : List A) → In x (a ∷ l) → In x (place lt a l)
  unfolding place
  In-place x a [] h = h
  In-place x a (b ∷ rest) h = elim (Bool-cases (lt b a)) [
    | inr e ↦ rw (e, In) h
    | inl e ↦
        rw (e, In)
          (elim h [
            | inl first ↦ inr (In-place x a rest (inl first))
            | inr (inl second) ↦ inl second
            | inr (inr later) ↦ inr (In-place x a rest (inr later))
          ])
  ]

  place-In : (x a : A) (l : List A) → In x (place lt a l) → In x (a ∷ l)
  unfolding place
  place-In x a [] h = h
  place-In x a (b ∷ rest) h = elim (Bool-cases (lt b a)) [
    | inr e ↦ rw (e, In) at h
    | inl e ↦
        let h' : (x ≡ b) ⊎ In x (place lt a rest) = rw (e, In) at h in
        elim h' [
          | inl second ↦ inr (inl second)
          | inr later ↦ elim (place-In x a rest later) [
            | inl first ↦ inl first
            | inr l ↦ inr (inr l)
          ]
        ]
  ]

  -- Sorting keeps the members.
  pub In-sort_by : (x : A) (l : List A) → In x l → In x (sort_by lt l)
  unfolding sort_by
  In-sort_by x [] h = h
  In-sort_by x (a ∷ rest) (inl first) = In-place x a (sort_by lt rest) (inl first)
  In-sort_by x (a ∷ rest) (inr later) =
      In-place x a (sort_by lt rest) (inr (In-sort_by x rest later))

  pub sort_by-In : (x : A) (l : List A) → In x (sort_by lt l) → In x l
  unfolding sort_by
  sort_by-In x [] h = h
  sort_by-In x (a ∷ rest) h = elim (place-In x a (sort_by lt rest) h) [
    | inl first ↦ inl first
    | inr later ↦ inr (sort_by-In x rest later)
  ]
