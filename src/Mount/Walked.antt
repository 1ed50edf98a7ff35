-- ===== src/Mount/Walked.antt =====
-- `walk` and `collect_mount_plan` find exactly the files to copy.
use cuartel.Common.{
  ℕ, ◌≤◌, ◌≡◌, ◌↔◌, refl, sym, ap, ◌∙◌, ◌⊎◌, inl, inr, true, false, none, some, List, [], ◌∷◌, ◌++◌,
  ltb, All, arith, Bool-cases, Option-cases,
}
use cuartel.Common.Sort.{In, IsSorted, In-sort_by, sort_by-In, sort_by-IsSorted}
use cuartel.Review.Defs.{Text}
use cuartel.Overlay.{Bytes}
use cuartel.Overlay.Utf8.{from_utf8}
use cuartel.Mount.{
  HostPath, Node, directory, file, special, untyped, Listing, unreadable, done, entry, folder,
  MountOptions, ok, Result, ◌>>=◌, excluded, non_utf8_path, not_regular_file, SkipReason, kept_name,
  MountFile, MountPlan, vm_path_for_rel, contains, skip, add_directory, sized, walk, visit, no_plan,
  by_vm_path, text_lt, sorted_plan, normalized_mount_point, collect_mount_plan,
}
use cuartel.Mount.Files.{
  FileAt, Kept, Readable, ReadableNode, Below, Under, Adds, vm_path-Kept, All-snoc, append_none,
  Below-Kept, Below-dropped,
}

-- The members of a list with one more at its end.
In-snoc : {A : Type 0} (x y : A) (xs : List A) → In x (xs ++ y ∷ []) ↔ (In x xs ⊎ (x ≡ y))
In-snoc x y xs = (to xs, from xs)
  where
    to : (xs : List _) → In x (xs ++ y ∷ []) → In x xs ⊎ (x ≡ y)
    to [] (inl e) = inr e
    to [] (inr i) = elim i [ ]
    to (z ∷ xs) (inl e) = inl (inl e)
    to (z ∷ xs) (inr i) = elim (to xs i) [ inl l ↦ inl (inr l) | inr e ↦ inr e ]

    from : (xs : List _) → In x xs ⊎ (x ≡ y) → In x (xs ++ y ∷ [])
    from [] (inl i) = elim i [ ]
    from [] (inr e) = inl e
    from (z ∷ xs) (inl (inl e)) = inl e
    from (z ∷ xs) (inl (inr i)) = inr (from xs (inl i))
    from (z ∷ xs) (inr e) = inr (from xs (inr e))

module _ (opts : MountOptions) (point : Text) where
  -- A file that was found.
  sized-Adds :
      (path : HostPath) (vm : Text) (n : ℕ) (p : MountPlan)
      → vm_path_for_rel point path ≡ some vm
      → Adds opts point p (sized opts path vm n p) (Under opts point path (file (some n)))
  unfolding sized
  sized-Adds path vm n p e f = elim (Bool-cases (ltb opts.max_file_size n)) [
    | inl large ↦
        rw (large, sized)
          (
            inl,
            λ h. elim h [
              | inl i ↦ i
              | inr (q, (none_left, same), (host, kept, small, at)) ↦ absurd (ground arith)
            ],
          )
    | inr fits ↦
        rw (fits, sized)
          (
            λ i. elim ((In-snoc f _ p.files).0 i) [
              | inl before ↦ inl before
              | inr e' ↦
                  rw e' (
                    inr
                      ([], (refl, refl), (sym (append_none opts point path), tt, ground arith, e)))
            ],
            λ h. (In-snoc f _ p.files).1 (elim h [
              | inl i ↦ inl i
              | inr (q, (none_left, same), (host, kept, small, at)) ↦
                  let place : f.host_path ≡ path =
                    host ∙ ap (λ r. path ++ r) none_left ∙ append_none opts point path in
                  let target : some f.vm_path ≡ some vm =
                    sym at ∙ ap (vm_path_for_rel point) place ∙ e in
                  inr (cc (place, target, same))
            ]),
          )
  ]

  -- One entry with a kept name.
  abbrev Walks : MountPlan → Result MountPlan → (MountFile → Type 0) → Type 0
  Walks p o More = (p' : MountPlan) × (o ≡ ok p') × Adds opts point p p' More

  nothing_found :
      (p p' : MountPlan) (More : MountFile → Type 0)
      → p'.files ≡ p.files
      → ((f : MountFile) → More f → ⊥)
      → Adds opts point p p' More
  nothing_found p p' More e none_more f =
      rw e (inl, λ h. elim h [ inl i ↦ i | inr m ↦ absurd (none_more f m) ])

  Walks-bind :
      (p : MountPlan) (o : Result MountPlan) (go : MountPlan → Result MountPlan)
      (M M' More : MountFile → Type 0)
      → Walks p o M
      → ((p' : MountPlan) → Walks p' (go p') M')
      → ((f : MountFile) → More f ↔ (M f ⊎ M' f))
      → Walks p (o >>= go) More
  Walks-bind p o go M M' More (p', e, adds) next both =
      let (p'', e', adds') = next p' in
      (
        p'',
        rw e e',
        λ f. (
          λ i. elim ((adds' f).0 i) [
            | inl old ↦ elim ((adds f).0 old) [
              | inl first ↦ inl first
              | inr m ↦ inr ((both f).1 (inl m))
            ]
            | inr m ↦ inr ((both f).1 (inr m))
          ],
          λ h. elim h [
            | inl i ↦ (adds' f).1 (inl ((adds f).1 (inl i)))
            | inr m ↦ elim ((both f).0 m) [
              | inl m' ↦ (adds' f).1 (inl ((adds f).1 (inr m')))
              | inr m' ↦ (adds' f).1 (inr m')
            ]
          ],
        ),
      )

  -- An entry that is passed over.
  skipped-Walks :
      (prefix : HostPath) (name : Bytes) (node : Node) (rest : Listing) (p : MountPlan)
      (reason : SkipReason) (o : Result MountPlan) (go : MountPlan → Result MountPlan)
      → o ≡ ok (skip (prefix ++ name ∷ []) reason p)
      → (Kept opts name → ⊥)
      → ((p' : MountPlan) → Walks p' (go p') (Below opts point prefix rest))
      → Walks p (o >>= go) (Below opts point prefix (entry name node rest))
  skipped-Walks prefix name node rest p reason o go e dropped next =
      let here = skip (prefix ++ name ∷ []) reason p in
      Walks-bind p o go (λ f. ⊥) (Below opts point prefix rest)
        (Below opts point prefix (entry name node rest))
        (here, e, nothing_found p here (λ f. ⊥) refl (λ f b. b)) next
        (λ f.
          let (to, from) = Below-dropped opts point prefix name node rest f dropped in
          (λ b. inr (to b), λ h. elim h [ inl nothing ↦ elim nothing [ ] | inr b ↦ from b ]))

  mutual
    unfolding walk

    walk-Walks :
        (prefix : HostPath) (l : Listing) (p : MountPlan)
        → All (Kept opts) prefix
        → Readable opts l
        → Walks p (walk point opts prefix l p) (Below opts point prefix l)
    walk-Walks prefix unreadable p kept r = elim r [ ]
    walk-Walks prefix done p kept r =
        (p, refl, nothing_found p p (Below opts point prefix done) refl (λ f b. elim b.1 [ ]))
    walk-Walks prefix (entry name node rest) p kept r = elim (Option-cases (from_utf8 name)) [
      | inl e ↦
          skipped-Walks prefix name node rest p non_utf8_path _ (walk point opts prefix rest)
            (rw e refl) (λ k. ground (arith, e, k.1)) (λ p'. walk-Walks prefix rest p' kept r.1)
      | inr (s, e) ↦ elim (Bool-cases (contains opts.exclude s)) [
        | inl out ↦
            skipped-Walks prefix name node rest p excluded _ (walk point opts prefix rest)
              (rw (e, out, kept_name) refl) (λ (s', e', k). ground (arith, sym e ∙ e'))
              (λ p'. walk-Walks prefix rest p' kept r.1)
        | inr stays ↦
            let k : Kept opts name = (s, e, stays) in
            let path = prefix ++ name ∷ [] in
            Walks-bind p _ (walk point opts prefix rest) (Under opts point path node)
              (Below opts point prefix rest) (Below opts point prefix (entry name node rest))
              (rw (e, stays, kept_name)
                (visit-Walks path node p (All-snoc opts point prefix name kept k) (r.0 k)))
              (λ p'. walk-Walks prefix rest p' kept r.1)
              (λ f. Below-Kept opts point prefix name node rest f k)
      ]
    ]

    visit-Walks :
        (path : HostPath) (node : Node) (p : MountPlan)
        → All (Kept opts) path
        → ReadableNode opts node
        → Walks p (visit point opts path node p) (Under opts point path node)
    visit-Walks path untyped p kept r = elim r [ ]
    visit-Walks path special p kept r = (
      skip path not_regular_file p,
      refl,
      nothing_found p (skip path not_regular_file p) (Under opts point path special) refl
          (λ f b. elim b.1 [ ]),
    )
    visit-Walks path (file none) p kept r = elim r [ ]
    visit-Walks path (file (some n)) p kept r =
        let (vm, e) = vm_path-Kept opts point path kept in
        (sized opts path vm n p, rw (e, visit) refl, sized-Adds path vm n p e)
    visit-Walks path (directory l) p kept r =
        let (vm, e) = vm_path-Kept opts point path kept in
        let (p', walked, adds) = walk-Walks path l (add_directory vm p) kept r in
        (p', rw (e, visit) walked, adds)

text_lt_asym : (s t : Text) → text_lt s t ≡ true → text_lt t s ≡ false
text_lt_asym s [] h = absurd (cc)
text_lt_asym [] (d ∷ t) h = refl
text_lt_asym (c ∷ s) (d ∷ t) h = ground (arith, text_lt_asym s t)

-- With a valid mount point, and where the operating system refuses nothing below the names that are
-- kept, `collect_mount_plan` succeeds. Its files stand in the order of their paths in the machine,
-- and are exactly the regular files of at most the largest size that are reached by names which are
-- texts and not excluded, each with the path that its names have below the mount point.
pub collect_mount_plan-files :
    (opts : MountOptions) (point : Text) (l : Listing)
    → normalized_mount_point opts.mount_point ≡ ok point
    → Readable opts l
    → (plan : MountPlan) × (collect_mount_plan (folder l) opts ≡ ok plan)
      × IsSorted by_vm_path plan.files
      × ((f : MountFile)
          → In f plan.files ↔ (
              FileAt l f.host_path f.size
              × All (Kept opts) f.host_path
              × (f.size ≤ opts.max_file_size)
              × (vm_path_for_rel point f.host_path ≡ some f.vm_path)))
unfolding collect_mount_plan
collect_mount_plan-files opts point l valid r =
    let (p, walked, adds) = walk-Walks opts point [] l no_plan tt r in
    (
      sorted_plan p,
      rw (valid, walked, collect_mount_plan) refl,
      sort_by-IsSorted by_vm_path (λ a b. text_lt_asym a.vm_path b.vm_path) p.files,
      λ f. (
        λ i. elim ((adds f).0 (sort_by-In by_vm_path f p.files i)) [
          | inl nothing ↦ elim nothing [ ]
          | inr (q, at, (host, kept, small, vm)) ↦
              let at' : FileAt l f.host_path f.size = rw host at in
              let kept' : All (Kept opts) f.host_path = rw host kept in (at', kept', small, vm)
        ],
        λ (at, kept, small, vm).
            In-sort_by by_vm_path f p.files
              ((adds f).1 (inr (f.host_path, at, (refl, kept, small, vm)))),
      ),
    )
