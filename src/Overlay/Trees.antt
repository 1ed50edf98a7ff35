-- ===== src/Overlay/Trees.antt =====
-- What `diff_trees` reports.
use cuartel.Common.{
  ◌≡◌, ◌≢◌, ◌↔◌, refl, sym, ap, ◌∙◌, ◌⊎◌, inl, inr, true, false, none, some, List, [], ◌∷◌, ◌++◌,
  String, arith, str_eq, eq_iff, eq_refl, Bool-cases, Option-cases,
}
use cuartel.Common.Dict.{lookup, Distinct, Absent}
use cuartel.Common.Sort.{In}
use cuartel.Review.Plan.{DiffKind}
use cuartel.Overlay.{Bytes, Tree, bytes_eq, Edit, overlay_edits, base_edits}

-- A file that is only in the overlay.
abbrev pub Adds : Tree → Tree → Edit → Type 0
Adds base overlay e =
    (lookup e.path base ≡ none)
    × (lookup e.path overlay ≡ some e.new)
    × (e ≡ record { path = e.path; old = []; new = e.new; kind = DiffKind.added })

-- A file that is in both, with another content.
abbrev pub Modifies : Tree → Tree → Edit → Type 0
Modifies base overlay e =
    (lookup e.path base ≡ some e.old)
    × (lookup e.path overlay ≡ some e.new)
    × (e.old ≢ e.new)
    × (e ≡ record { path = e.path; old = e.old; new = e.new; kind = DiffKind.modified })

-- A file that is only in the base.
abbrev pub Deletes : Tree → Tree → Edit → Type 0
Deletes base overlay e =
    (lookup e.path base ≡ some e.old)
    × (lookup e.path overlay ≡ none)
    × (e ≡ record { path = e.path; old = e.old; new = []; kind = DiffKind.deleted })

abbrev pub Differs : Tree → Tree → Edit → Type 0
Differs base overlay e = Adds base overlay e ⊎ Modifies base overlay e ⊎ Deletes base overlay e

bytes_eq_iff : (a b : Bytes) → (bytes_eq a b ≡ true) ↔ (a ≡ b)
unfolding bytes_eq
bytes_eq_iff a b = (to a b, from a b)
  where
    to : (a b : Bytes) → bytes_eq a b ≡ true → a ≡ b
    to [] [] h = refl
    to [] (b ∷ bs) h = absurd (cc)
    to (a ∷ more) [] h = absurd (cc)
    to (a ∷ more) (b ∷ bs) h = ground (arith, to more bs)

    same : (a : Bytes) → bytes_eq a a ≡ true
    same [] = refl
    same (a ∷ more) = ground (arith, same more)

    from : (a b : Bytes) → a ≡ b → bytes_eq a b ≡ true
    from a b e = rw e (same b)

-- The entries of a tree are those that its keys find.
Absent-other : (k : String) (v : Bytes) (j : String) (m : Tree) → Absent k m → In (j, v) m → k ≢ j
Absent-other k v j [] a i = elim i [ ]
Absent-other k v j ((at, w) ∷ m) a (inl e) = λ same. a.0 (sym (ap (λ p. p.0) e) ∙ sym same)
Absent-other k v j ((at, w) ∷ m) a (inr i) = Absent-other k v j m a.1 i

In-lookup : (k : String) (v : Bytes) (m : Tree) → Distinct m → In (k, v) m → lookup k m ≡ some v
unfolding lookup
In-lookup k v [] d i = elim i [ ]
In-lookup k v ((at, w) ∷ m) d (inl e) =
    rw (← ap (λ p. p.0) e, ← ap (λ p. p.1) e) (rw (eq_refl k, lookup) refl)
In-lookup k v ((at, w) ∷ m) d (inr i) =
    ground (arith, eq_iff at k, In-lookup k v m d.1 i, Absent-other at v k m d.0 i)

lookup-In : (k : String) (v : Bytes) (m : Tree) → lookup k m ≡ some v → In (k, v) m
unfolding lookup
lookup-In k v [] h = absurd (cc)
lookup-In k v ((at, w) ∷ m) h = elim (Bool-cases (str_eq at k)) [
  | inl here ↦
      let value : some w ≡ some v = rw (here, lookup) at h in
      let name : at ≡ k = (eq_iff at k).0 here in inl (rw name (ap (λ x. (k, x)) (cc)))
  | inr there ↦ inr (lookup-In k v m (rw (there, lookup) at h))
]

In-append_left : {A : Type 0} (x : A) (xs ys : List A) → In x xs → In x (xs ++ ys)
In-append_left x [] ys i = elim i [ ]
In-append_left x (y ∷ xs) ys (inl e) = inl e
In-append_left x (y ∷ xs) ys (inr i) = inr (In-append_left x xs ys i)

In-append_right : {A : Type 0} (x : A) (xs ys : List A) → In x ys → In x (xs ++ ys)
In-append_right x [] ys i = i
In-append_right x (y ∷ xs) ys i = inr (In-append_right x xs ys i)

append-In : {A : Type 0} (x : A) (xs ys : List A) → In x (xs ++ ys) → In x xs ⊎ In x ys
append-In x [] ys i = inr i
append-In x (y ∷ xs) ys (inl e) = inl (inl e)
append-In x (y ∷ xs) ys (inr i) = elim (append-In x xs ys i) [ inl l ↦ inl (inr l) | inr r ↦ inr r ]

module _ (base overlay : Tree) where
  overlay_edits-Differs :
      (e : Edit) (l : Tree)
      → ((k : String) (v : Bytes) → In (k, v) l → lookup k overlay ≡ some v)
      → In e (overlay_edits base l)
      → Differs base overlay e
  unfolding overlay_edits
  overlay_edits-Differs e [] h i = elim i [ ]
  overlay_edits-Differs e ((path, new) ∷ rest) h i = elim (Option-cases (lookup path base)) [
    | inl absent ↦ elim (rw (absent, In) at i) [
      | inl first ↦ rw first (inl (absent, h path new (inl refl), refl))
      | inr later ↦ overlay_edits-Differs e rest (λ k v m. h k v (inr m)) later
    ]
    | inr (old, found) ↦ elim (Bool-cases (bytes_eq old new)) [
      | inl same ↦ overlay_edits-Differs e rest (λ k v m. h k v (inr m)) (rw (found, same, In) at i)
      | inr other ↦ elim (rw (found, other, In) at i) [
        | inl first ↦
            let differ : old ≢ new = λ p. ground (arith, (bytes_eq_iff old new).1 p) in
            rw first (inr (inl (found, h path new (inl refl), differ, refl)))
        | inr later ↦ overlay_edits-Differs e rest (λ k v m. h k v (inr m)) later
      ]
    ]
  ]

  base_edits-Differs :
      (e : Edit) (l : Tree)
      → ((k : String) (v : Bytes) → In (k, v) l → lookup k base ≡ some v)
      → In e (base_edits overlay l)
      → Differs base overlay e
  unfolding base_edits
  base_edits-Differs e [] h i = elim i [ ]
  base_edits-Differs e ((path, old) ∷ rest) h i = elim (Option-cases (lookup path overlay)) [
    | inl absent ↦ elim (rw (absent, In) at i) [
      | inl first ↦ rw first (inr (inr (h path old (inl refl), absent, refl)))
      | inr later ↦ base_edits-Differs e rest (λ k v m. h k v (inr m)) later
    ]
    | inr (new, found) ↦ base_edits-Differs e rest (λ k v m. h k v (inr m)) (rw (found, In) at i)
  ]

  In-overlay_edits_later :
      (at : String) (value : Bytes) (rest : Tree) (e : Edit)
      → In e (overlay_edits base rest)
      → In e (overlay_edits base ((at, value) ∷ rest))
  unfolding overlay_edits
  In-overlay_edits_later at value rest e i = elim (Option-cases (lookup at base)) [
    | inl absent ↦ rw (absent, overlay_edits, In) (inr i)
    | inr (old, found) ↦ elim (Bool-cases (bytes_eq old value)) [
      | inl same ↦ rw (found, same, overlay_edits, In) i
      | inr other ↦ rw (found, other, overlay_edits, In) (inr i)
    ]
  ]

  -- Every file that differs is reported.
  Adds-overlay_edits :
      (path : String) (new : Bytes) (l : Tree)
      → lookup path base ≡ none
      → In (path, new) l
      → In
          (record { path = path; old = []; new = new; kind = DiffKind.added })
          (overlay_edits base l)
  unfolding overlay_edits
  Adds-overlay_edits path new [] absent i = elim i [ ]
  Adds-overlay_edits path new ((at, value) ∷ rest) absent (inl e) =
      rw (← ap (λ p. p.0) e, ← ap (λ p. p.1) e) (rw (absent, overlay_edits, In) (inl refl))
  Adds-overlay_edits path new ((at, value) ∷ rest) absent (inr later) =
      In-overlay_edits_later at value rest _ (Adds-overlay_edits path new rest absent later)

  Modifies-overlay_edits :
      (path : String) (old new : Bytes) (l : Tree)
      → lookup path base ≡ some old
      → old ≢ new
      → In (path, new) l
      → In
          (record { path = path; old = old; new = new; kind = DiffKind.modified })
          (overlay_edits base l)
  unfolding overlay_edits
  Modifies-overlay_edits path old new [] found differ i = elim i [ ]
  Modifies-overlay_edits path old new ((at, value) ∷ rest) found differ (inl e) =
      let unequal : bytes_eq old new ≡ false = ground (arith, (bytes_eq_iff old new).0) in
      rw (← ap (λ p. p.0) e, ← ap (λ p. p.1) e) (rw (found, unequal, overlay_edits, In) (inl refl))
  Modifies-overlay_edits path old new ((at, value) ∷ rest) found differ (inr later) =
      In-overlay_edits_later at value rest _
        (Modifies-overlay_edits path old new rest found differ later)

  Deletes-base_edits :
      (path : String) (old : Bytes) (l : Tree)
      → lookup path overlay ≡ none
      → In (path, old) l
      → In
          (record { path = path; old = old; new = []; kind = DiffKind.deleted })
          (base_edits overlay l)
  unfolding base_edits
  Deletes-base_edits path old [] absent i = elim i [ ]
  Deletes-base_edits path old ((at, value) ∷ rest) absent (inl e) =
      rw (← ap (λ p. p.0) e, ← ap (λ p. p.1) e) (rw (absent, base_edits, In) (inl refl))
  Deletes-base_edits path old ((at, value) ∷ rest) absent (inr later) =
      elim (Option-cases (lookup at overlay)) [
        | inl none_there ↦
            rw (none_there, base_edits, In) (inr (Deletes-base_edits path old rest absent later))
        | inr (new, found) ↦
            rw (found, base_edits, In) (Deletes-base_edits path old rest absent later)
      ]

  -- The calls of `build_file_diff` are those for the files that differ.
  pub edits-Differs :
      (e : Edit)
      → Distinct base
      → Distinct overlay
      → In e (overlay_edits base overlay ++ base_edits overlay base) ↔ Differs base overlay e
  edits-Differs e db ov = (to, from)
    where
      to : In e (overlay_edits base overlay ++ base_edits overlay base) → Differs base overlay e
      to i = elim (append-In e (overlay_edits base overlay) (base_edits overlay base) i) [
        | inl w ↦ overlay_edits-Differs e overlay (λ k v. In-lookup k v overlay ov) w
        | inr r ↦ base_edits-Differs e base (λ k v. In-lookup k v base db) r
      ]

      from : Differs base overlay e → In e (overlay_edits base overlay ++ base_edits overlay base)
      from (inl (absent, found, shape)) = rw shape (
          In-append_left _ (overlay_edits base overlay) (base_edits overlay base)
            (Adds-overlay_edits e.path e.new overlay absent (lookup-In e.path e.new overlay found)))
      from (inr (inl (before, after, differ, shape))) = rw shape (
          In-append_left _ (overlay_edits base overlay) (base_edits overlay base) (
            Modifies-overlay_edits e.path e.old e.new overlay before differ
              (lookup-In e.path e.new overlay after)))
      from (inr (inr (before, absent, shape))) = rw shape (
          In-append_right _ (overlay_edits base overlay) (base_edits overlay base)
            (Deletes-base_edits e.path e.old base absent (lookup-In e.path e.old base before)))
