-- ===== src/Mount/Files.antt =====
-- The files that `collect_mount_plan` plans to copy.
use cuartel.Common.{
  ℕ, ◌≤◌, ◌≡◌, ◌↔◌, refl, sym, ap, ◌∙◌, ◌⊎◌, inl, inr, false, none, some, List, [], ◌∷◌, ◌++◌, All,
}
use cuartel.Common.Sort.{In}
use cuartel.Review.Defs.{Text}
use cuartel.Overlay.{Bytes}
use cuartel.Overlay.Utf8.{from_utf8}
use cuartel.Mount.{
  HostPath, Node, directory, file, special, untyped, Listing, unreadable, done, entry, MountOptions,
  MountFile, MountPlan, to_strs, below, vm_path_for_rel, contains,
}

-- A regular file of the given size stands at a path in the listing.
abbrev mutual
  pub FileAt : Listing → HostPath → ℕ → Type 0
  FileAt unreadable path size = ⊥
  FileAt done path size = ⊥
  FileAt (entry name node rest) path size =
      ((tail : HostPath) × (path ≡ name ∷ tail) × FileUnder node tail size) ⊎ FileAt rest path size

  pub FileUnder : Node → HostPath → ℕ → Type 0
  FileUnder (directory l) tail size = FileAt l tail size
  FileUnder (file none) tail size = ⊥
  FileUnder (file (some n)) tail size = (tail ≡ []) × (n ≡ size)
  FileUnder special tail size = ⊥
  FileUnder untyped tail size = ⊥

module _ (opts : MountOptions) where
  -- A name that is a text and not excluded.
  abbrev pub Kept : Bytes → Type 0
  Kept name = (s : Text) × (from_utf8 name ≡ some s) × (contains opts.exclude s ≡ false)

  -- Nothing below the kept names is refused by the operating system.
  abbrev mutual
    pub Readable : Listing → Type 0
    Readable unreadable = ⊥
    Readable done = Unit
    Readable (entry name node rest) = (Kept name → ReadableNode node) × Readable rest

    pub ReadableNode : Node → Type 0
    ReadableNode (directory l) = Readable l
    ReadableNode (file none) = ⊥
    ReadableNode (file (some n)) = Unit
    ReadableNode special = Unit
    ReadableNode untyped = ⊥

  module _ (point : Text) where
    -- The file has a place in the machine and is not too large, and the names that lead to it from a
    -- prefix on are kept.
    abbrev pub Fits : HostPath → HostPath → MountFile → Type 0
    Fits prefix q f =
        (f.host_path ≡ prefix ++ q)
        × All Kept q
        × (f.size ≤ opts.max_file_size)
        × (vm_path_for_rel point f.host_path ≡ some f.vm_path)

    abbrev pub Below : HostPath → Listing → MountFile → Type 0
    Below prefix l f = (q : HostPath) × FileAt l q f.size × Fits prefix q f

    abbrev pub Under : HostPath → Node → MountFile → Type 0
    Under path node f = (q : HostPath) × FileUnder node q f.size × Fits path q f

    -- The files of the new plan are those of the old one, and some others.
    abbrev pub Adds : MountPlan → MountPlan → (MountFile → Type 0) → Type 0
    Adds p p' More = (f : MountFile) → In f p'.files ↔ (In f p.files ⊎ More f)

    to_strs-Kept : (path : HostPath) → All Kept path → (ss : List Text) × (to_strs path ≡ some ss)
    unfolding to_strs
    to_strs-Kept [] h = ([], refl)
    to_strs-Kept (name ∷ path) ((s, e, k), hs) =
        let (ss, r) = to_strs-Kept path hs in (s ∷ ss, rw (e, r, to_strs) refl)

    pub vm_path-Kept :
        (path : HostPath) → All Kept path → (vm : Text) × (vm_path_for_rel point path ≡ some vm)
    unfolding vm_path_for_rel
    vm_path-Kept path h =
        let (ss, e) = to_strs-Kept path h in (below point ss, rw (e, vm_path_for_rel) refl)

    pub All-snoc :
        (path : HostPath) (name : Bytes) → All Kept path → Kept name → All Kept (path ++ name ∷ [])
    All-snoc [] name h k = (k, tt)
    All-snoc (n ∷ path) name (h, hs) k = (h, All-snoc path name hs k)

    snoc-append :
        (path : HostPath) (name : Bytes) (q : HostPath)
        → (path ++ name ∷ []) ++ q ≡ path ++ name ∷ q
    snoc-append [] name q = refl
    snoc-append (n ∷ path) name q = ap (λ r. n ∷ r) (snoc-append path name q)

    pub append_none : (path : HostPath) → path ++ [] ≡ path
    append_none [] = refl
    append_none (n ∷ path) = ap (λ r. n ∷ r) (append_none path)

    pub Below-Kept :
        (prefix : HostPath) (name : Bytes) (node : Node) (rest : Listing) (f : MountFile)
        → Kept name
        → Below prefix (entry name node rest) f
          ↔ (Under (prefix ++ name ∷ []) node f ⊎ Below prefix rest f)
    Below-Kept prefix name node rest f k = (to, from)
      where
        to :
            Below prefix (entry name node rest) f
            → Under (prefix ++ name ∷ []) node f ⊎ Below prefix rest f
        to (q, inl (tail, e, under), (host, kept, small, vm)) =
            let names : All Kept (name ∷ tail) = rw e at kept in
            inl (
              tail,
              under,
              (
                host ∙ ap (λ r. prefix ++ r) e ∙ sym (snoc-append prefix name tail),
                names.1,
                small,
                vm,
              ),
            )
        to (q, inr later, fits) = inr (q, later, fits)

        from :
            Under (prefix ++ name ∷ []) node f ⊎ Below prefix rest f
            → Below prefix (entry name node rest) f
        from (inl (q, under, (host, kept, small, vm))) = (
          name ∷ q,
          inl (q, refl, under),
          (host ∙ snoc-append prefix name q, (k, kept), small, vm),
        )
        from (inr (q, later, fits)) = (q, inr later, fits)

    pub Below-dropped :
        (prefix : HostPath) (name : Bytes) (node : Node) (rest : Listing) (f : MountFile)
        → (Kept name → ⊥)
        → Below prefix (entry name node rest) f ↔ Below prefix rest f
    Below-dropped prefix name node rest f n = (to, λ (q, later, fits). (q, inr later, fits))
      where
        to : Below prefix (entry name node rest) f → Below prefix rest f
        to (q, inl (tail, e, under), (host, kept, small, vm)) =
            let names : All Kept (name ∷ tail) = rw e at kept in absurd (n names.0)
        to (q, inr later, fits) = (q, later, fits)
