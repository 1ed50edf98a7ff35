-- ===== src/Mount.antt =====
-- crates/cuartel-core/src/workspace_mount.rs: which files of a host directory are copied into a
-- machine. The directory is a value; a name is its bytes, and a text its code points.
pub mod Files
pub mod Walked
pub mod Batches
mod Tests
use cuartel.Common.{
  ℕ, suc, Bool, true, false, not, ◌&&◌, ◌||◌, Option, none, some, List, [], ◌∷◌, ◌++◌, map, leb,
  ltb, ◌==◌, any, length, if◌then◌else◌,
}
use cuartel.Common.Sort.{sort_by, place}
use cuartel.Review.Defs.{Text}
use cuartel.Overlay.{Bytes, bytes_eq}
use cuartel.Overlay.Utf8.{from_utf8}

-- `PathBuf`, its components below the host root.
abbrev pub HostPath : Type 0
HostPath = List Bytes

-- What the operating system has at a path, and the entries of a directory in the order in which
-- `read_dir` gives them. The size of a file and the type of an entry may be refused.
mutual
  pub data Node : Type 0 where
    directory : Listing → Node
    file : Option ℕ → Node
    special : Node
    untyped : Node

  pub data Listing : Type 0 where
    unreadable : Listing
    done : Listing
    entry : Bytes → Node → Listing → Listing

pub data Root : Type 0 where
  missing : Root
  no_directory : Root
  folder : Listing → Root

pub record MountOptions : Type 0 where
  pub mount_point : Text
  pub exclude : List Text
  pub max_file_size : ℕ
  pub batch_size : ℕ

pub data MountError : Type 0 where
  not_absolute : Text → MountError
  is_root : MountError
  no_host_root : MountError
  not_a_directory : MountError
  io_error : MountError

pub data Result (A : Type 0) : Type 0 where
  ok : A → Result A
  err : MountError → Result A

infixl 5 ◌>>=◌
abbrev pub ◌>>=◌ : {A B : Type 0} → Result A → (A → Result B) → Result B
ok a >>= f = f a
err e >>= f = err e

abbrev pub slash_or : ℕ → Text → Text
slash_or c [] = if c == 47 then [] else c ∷ []
slash_or c (d ∷ t) = c ∷ d ∷ t

-- `trim_end_matches('/')`
unfoldable pub trim_end_slashes : Text → Text
trim_end_slashes [] = []
trim_end_slashes (c ∷ t) = slash_or c (trim_end_slashes t)

abbrev pub starts_with_slash : Text → Bool
starts_with_slash [] = false
starts_with_slash (c ∷ t) = c == 47

abbrev pub is_empty : Text → Bool
is_empty [] = true
is_empty (c ∷ t) = false

unfoldable pub normalized_mount_point : Text → Result Text
unfolding trim_end_slashes
normalized_mount_point point =
    let trimmed = trim_end_slashes point in
    if not (starts_with_slash trimmed)
    then err (not_absolute point)
    else if is_empty trimmed
    then err is_root
    else ok trimmed

-- `with_batch_size`
unfoldable pub with_batch_size : ℕ → MountOptions → MountOptions
with_batch_size size opts = record opts { batch_size = if size == 0 then 1 else size }

pub data SkipReason : Type 0 where
  excluded : SkipReason
  too_large : ℕ → SkipReason
  non_utf8_path : SkipReason
  not_regular_file : SkipReason

pub record SkipEntry : Type 0 where
  pub host_path : HostPath
  pub reason : SkipReason

pub record MountFile : Type 0 where
  pub host_path : HostPath
  pub vm_path : Text
  pub size : ℕ

pub record MountPlan : Type 0 where
  pub directories : List Text
  pub files : List MountFile
  pub skipped : List SkipEntry

-- The order of texts and of names, by their numbers.
abbrev pub text_lt : Text → Text → Bool
text_lt s [] = false
text_lt [] (d ∷ t) = true
text_lt (c ∷ s) (d ∷ t) = ltb c d || ((c == d) && text_lt s t)

abbrev pub host_lt : HostPath → HostPath → Bool
host_lt p [] = false
host_lt [] (b ∷ q) = true
host_lt (a ∷ p) (b ∷ q) = text_lt a b || (bytes_eq a b && host_lt p q)

-- `to_str` of every component.
unfoldable pub to_strs : HostPath → Option (List Text)
unfolding from_utf8
to_strs [] = some []
to_strs (name ∷ names) = elim (from_utf8 name) [
  | none ↦ none
  | some s ↦ elim (to_strs names) [ none ↦ none | some ss ↦ some (s ∷ ss) ]
]

-- `"{}/{}"` with `join("/")`: a separator before every part.
abbrev pub below : Text → List Text → Text
below point [] = point
below point (s ∷ ss) = below (point ++ 47 ∷ s) ss

unfoldable pub vm_path_for_rel : Text → HostPath → Option Text
unfolding to_strs
vm_path_for_rel point rel = elim (to_strs rel) [
  | none ↦ none
  | some parts ↦ some (below point parts)
]

abbrev pub contains : List Text → Text → Bool
contains set s = any (λ t. bytes_eq t s) set

abbrev pub skip : HostPath → SkipReason → MountPlan → MountPlan
skip path reason p = record p {
  skipped = p.skipped ++ record { host_path = path; reason = reason } ∷ [];
}

-- `BTreeSet::insert`
abbrev pub add_directory : Text → MountPlan → MountPlan
add_directory vm p = record p {
  directories = if contains p.directories vm then p.directories else place text_lt vm p.directories;
}

abbrev pub add_file : HostPath → Text → ℕ → MountPlan → MountPlan
add_file path vm size p = record p {
  files = p.files ++ record { host_path = path; vm_path = vm; size = size } ∷ [];
}

-- A regular file whose size is known.
unfoldable pub sized : MountOptions → HostPath → Text → ℕ → MountPlan → MountPlan
sized opts path vm size p =
    if ltb opts.max_file_size size then skip path (too_large size) p else add_file path vm size p

abbrev pub with_metadata : MountOptions → HostPath → Text → Option ℕ → MountPlan → Result MountPlan
with_metadata opts path vm none p = err io_error
with_metadata opts path vm (some size) p = ok (sized opts path vm size p)

-- What `walk` does with a path that has no place in the machine; the last argument is what it does
-- with one that has.
abbrev pub with_vm_path :
    Option Text → HostPath → MountPlan → (Text → Result MountPlan) → Result MountPlan
with_vm_path none path p visit = ok (skip path non_utf8_path p)
with_vm_path (some vm) path p visit = visit vm

-- What it does with the name of an entry.
abbrev pub kept_name :
    MountOptions
    → HostPath
    → Option Text
    → MountPlan
    → (MountPlan → Result MountPlan)
    → Result MountPlan
kept_name opts path none p visit = ok (skip path non_utf8_path p)
kept_name opts path (some s) p visit =
    if contains opts.exclude s then ok (skip path excluded p) else visit p

module _ (point : Text) (opts : MountOptions) where
  -- `walk`, over the entries that are left, and one entry that has a name for it.
  unfoldable mutual
    unfolding sized

    pub walk : HostPath → Listing → MountPlan → Result MountPlan
    walk prefix unreadable p = err io_error
    walk prefix done p = ok p
    walk prefix (entry name node rest) p =
        kept_name opts (prefix ++ name ∷ []) (from_utf8 name) p
          (λ p. visit (prefix ++ name ∷ []) node p)
        >>= walk prefix rest

    pub visit : HostPath → Node → MountPlan → Result MountPlan
    visit path untyped p = err io_error
    visit path special p = ok (skip path not_regular_file p)
    visit path (directory l) p =
        with_vm_path (vm_path_for_rel point path) path p (λ vm. walk path l (add_directory vm p))
    visit path (file size) p =
        with_vm_path (vm_path_for_rel point path) path p (λ vm. with_metadata opts path vm size p)

abbrev pub by_vm_path : MountFile → MountFile → Bool
by_vm_path a b = text_lt a.vm_path b.vm_path

abbrev pub by_host_path : SkipEntry → SkipEntry → Bool
by_host_path a b = host_lt a.host_path b.host_path

abbrev pub no_plan : MountPlan
no_plan = record { directories = []; files = []; skipped = [] }

abbrev pub sorted_plan : MountPlan → MountPlan
sorted_plan p = record p {
  files = sort_by by_vm_path p.files;
  skipped = sort_by by_host_path p.skipped;
}

unfoldable pub collect_mount_plan : Root → MountOptions → Result MountPlan
unfolding normalized_mount_point walk sort_by
collect_mount_plan root opts = do
  point ← normalized_mount_point opts.mount_point
  elim root [
    | missing ↦ err no_host_root
    | no_directory ↦ err not_a_directory
    | folder l ↦ do p ← walk point opts [] l no_plan; ok (sorted_plan p)
  ]
