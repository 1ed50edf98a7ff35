-- ===== src/Mount/Batches.antt =====
-- The batches in which `mount_workspace` of crates/cuartel-core/src/workspace_mount.rs writes files.
use cuartel.Common.{
  ℕ, ◌≤◌, ◌<◌, ◌≡◌, refl, sym, ap, ◌∙◌, List, [], ◌∷◌, ◌++◌, leb, length, length-append, max, All,
  arith, Bool-cases, inl, inr, if◌then◌else◌,
}

module _ {A : Type 0} where
  -- The batch that is being filled, put with the others when it has the size.
  unfoldable pub close : ℕ → List A → List (List A) → List A × List (List A)
  close size current batches =
      if leb size (length current) then ([], batches ++ current ∷ []) else (current, batches)

  -- The batch that is left at the end.
  abbrev pub last_batch : List A → List (List A) → List (List A)
  last_batch [] batches = batches
  last_batch (f ∷ current) batches = batches ++ (f ∷ current) ∷ []

  -- The loop, with `current` and `batches`.
  unfoldable pub batch_loop : ℕ → List A → List A → List (List A) → List (List A)
  unfolding close
  batch_loop size [] current batches = last_batch current batches
  batch_loop size (f ∷ files) current batches =
      let (current', batches') = close size (current ++ f ∷ []) batches in
      batch_loop size files current' batches'

  unfoldable pub batches_of : ℕ → List A → List (List A)
  unfolding batch_loop
  batches_of size files = batch_loop size files [] []

  abbrev pub concat : List (List A) → List A
  concat [] = []
  concat (b ∷ bs) = b ++ concat bs

  append_assoc : (xs ys zs : List A) → (xs ++ ys) ++ zs ≡ xs ++ (ys ++ zs)
  append_assoc [] ys zs = refl
  append_assoc (x ∷ xs) ys zs = ap (λ r. x ∷ r) (append_assoc xs ys zs)

  append_none : (xs : List A) → xs ++ [] ≡ xs
  append_none [] = refl
  append_none (x ∷ xs) = ap (λ r. x ∷ r) (append_none xs)

  concat-snoc : (bs : List (List A)) (b : List A) → concat (bs ++ b ∷ []) ≡ concat bs ++ b
  concat-snoc [] b = append_none b
  concat-snoc (c ∷ bs) b = ap (λ r. c ++ r) (concat-snoc bs b) ∙ sym (append_assoc c (concat bs) b)

  All-snoc :
      (P : List A → Type 0) (bs : List (List A)) (b : List A)
      → All P bs
      → P b
      → All P (bs ++ b ∷ [])
  All-snoc P [] b h k = (k, tt)
  All-snoc P (c ∷ bs) b (h, hs) k = (h, All-snoc P bs b hs k)

  -- A batch that is written.
  abbrev pub Sized : ℕ → List A → Type 0
  Sized size b = (0 < length b) × (length b ≤ max 1 size)

  -- What is still to be put into a batch fits into one.
  abbrev Fills : ℕ → List A → List (List A) → List A → List (List A) → Type 0
  Fills size before done current batches =
      (concat batches ++ current ≡ concat done ++ before)
      × (All (Sized size) done → All (Sized size) batches)
      × (length current < max 1 size)

  close-Fills :
      (size : ℕ) (current : List A) (batches : List (List A))
      → Sized size current
      → Fills size current batches (close size current batches).0 (close size current batches).1
  unfolding close
  close-Fills size current batches fits = elim (Bool-cases (leb size (length current))) [
    | inl full ↦
        rw (full, close)
          (
            append_none (concat (batches ++ current ∷ [])) ∙ concat-snoc batches current,
            λ all. All-snoc (Sized size) batches current all fits,
            omega arith,
          )
    | inr room ↦ rw (room, close) (refl, λ all. all, ground arith)
  ]

  batch_loop-Sized :
      (size : ℕ) (files current : List A) (batches : List (List A))
      → length current < max 1 size
      → All (Sized size) batches
      → (concat (batch_loop size files current batches) ≡ concat batches ++ (current ++ files))
        × All (Sized size) (batch_loop size files current batches)
  unfolding batch_loop
  batch_loop-Sized size [] [] batches room all = (sym (append_none (concat batches)), all)
  batch_loop-Sized size [] (f ∷ current) batches room all = (
    concat-snoc batches (f ∷ current)
        ∙ ap (λ r. concat batches ++ r) (sym (append_none (f ∷ current))),
    All-snoc (Sized size) batches (f ∷ current) all (omega arith, omega arith),
  )
  batch_loop-Sized size (f ∷ files) current batches room all =
      let next = current ++ f ∷ [] in
      let (same, kept, room') = close-Fills size next batches (
        omega (arith, length-append current (f ∷ [])),
        omega (arith, length-append current (f ∷ [])),
      ) in
      let c = close size next batches in
      let (covers, sized) = batch_loop-Sized size files c.0 c.1 room' (kept all) in
      (
        covers
            ∙ sym (append_assoc (concat c.1) c.0 files)
            ∙ ap (λ r. r ++ files) same
            ∙ append_assoc (concat batches) next files
            ∙ ap (λ r. concat batches ++ r) (append_assoc current (f ∷ []) files),
        sized,
      )

  -- The batches hold all files in their order, and each has at least one and at most as many as the
  -- batch size says, or one if that is zero.
  pub batches_of-Sized :
      (size : ℕ) (files : List A)
      → (concat (batches_of size files) ≡ files) × All (Sized size) (batches_of size files)
  unfolding batches_of
  batches_of-Sized size files = batch_loop-Sized size files [] [] (omega arith) tt
