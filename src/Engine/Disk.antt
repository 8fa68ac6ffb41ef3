-- ===== src/Engine/Disk.antt =====
-- The file system that internal/syncengine works on: the calls of package os that it makes, as
-- functions on a disk that may fail. A path is the list of its components.
pub mod Laws
pub mod Keeps
use stoker_operator.Prelude.{
  ℕ, String, len, ◌≡◌, Bool, true, false, not, ◌&&◌, ◌||◌, Option, none, some, List, [], ◌∷◌, ◌++◌,
  Eq, ◌==◌, string_eq, list_eq, if◌then◌else◌,
}
use stoker_operator.Prelude.Dict.{Dict, lookup, erase}

abbrev pub FilePath : Type 0
FilePath = List String

-- What `os.Lstat` and a read of the whole file tell of a regular file.
pub record File : Type 0 where
  pub bytes : String
  pub mode : ℕ

-- A symbolic link is opaque: no operation follows it.
pub data Node : Type 0 where
  file : File → Node
  dir symlink : Node

abbrev pub is_dir : Node → Bool
is_dir dir = true
is_dir _ = false

abbrev pub Disk : Type 0
Disk = Dict FilePath Node

-- `os.Lstat`
unfoldable pub lstat : FilePath → Disk → Option Node
unfolding lookup list_eq
lstat p d = lookup p d

-- Which call failed, with the path that it was given.
pub data Err : Type 0 where
  stat_source refused_symlink mkdir_failed copy_failed rename_failed walk_failed : FilePath → Err
  rewrite_failed : String → Err

pub data Result {ℓ} (A : Type ℓ) : Type ℓ where
  ok : A → Result A
  err : Err → Result A

-- A failed operation keeps what it had written.
abbrev pub Io {ℓ} : Type ℓ → Type ℓ
Io A = Disk → Disk × Result A

abbrev pub pure {ℓ} : {A : Type ℓ} → A → Io A
pure a d = (d, ok a)

abbrev pub throw {ℓ} : {A : Type ℓ} → Err → Io A
throw e d = (d, err e)

-- An operation that first looks at the disk.
abbrev pub inspect {ℓ} : {A : Type ℓ} → (Disk → Io A) → Io A
inspect f d = f d d

abbrev pub after {ℓ κ} : {A : Type ℓ} {B : Type κ} → (A → Io B) → Disk × Result A → Disk × Result B
after f (d, ok a) = f a d
after f (d, err e) = (d, err e)

infixl 5 ◌>>=◌ ◌>>◌
abbrev pub ◌>>=◌ {ℓ κ} : {A : Type ℓ} {B : Type κ} → Io A → (A → Io B) → Io B
◌>>=◌ m f d = after f (m d)

abbrev pub ◌>>◌ {ℓ κ} : {A : Type ℓ} {B : Type κ} → Io A → Io B → Io B
m >> k = m >>= λ _. k

-- The part of a path below a root.
unfoldable pub below : FilePath → FilePath → Option FilePath
below [] p = some p
below (r ∷ root) [] = none
below (r ∷ root) (x ∷ p) = if r == x then below root p else none

unfoldable pub is_below : FilePath → FilePath → Bool
unfolding below
is_below root p = elim (below root p) [ some _ ↦ true | none ↦ false ]

-- `filepath.Dir`
unfoldable pub parent : FilePath → FilePath
parent [] = []
parent (x ∷ []) = []
parent (x ∷ y ∷ p) = x ∷ parent (y ∷ p)

-- The order of `filepath.WalkDir`: by component, a directory before what it holds.
abbrev text_before : String → String → Bool
text_before s t = elim (Prim.Native.String.compare s t) [
  | Prim.Native.Nat.Ordering.lt ↦ true
  | _ ↦ false
]

unfoldable pub before : FilePath → FilePath → Bool
before [] [] = false
before [] (y ∷ q) = true
before (x ∷ p) [] = false
before (x ∷ p) (y ∷ q) = if x == y then before p q else text_before x y

-- Entries are kept in that order.
unfoldable pub place : FilePath → Node → Disk → Disk
unfolding before
place p n [] = (p, n) ∷ []
place p n ((q, m) ∷ d) =
    if p == q then (p, n) ∷ d else if before p q then (p, n) ∷ (q, m) ∷ d else (q, m) ∷ place p n d

unfoldable pub erase_below : FilePath → Disk → Disk
unfolding is_below
erase_below root [] = []
erase_below root ((p, n) ∷ d) =
    let rest = erase_below root d in if is_below root p then rest else (p, n) ∷ rest

-- `os.RemoveAll`
unfoldable pub remove_all : FilePath → Io (Unit {0})
unfolding erase_below
remove_all root d = (erase_below root d, ok tt)

-- `os.Remove` of a file or of an empty directory
unfoldable pub remove : FilePath → Disk → Disk
unfolding erase list_eq
remove p d = erase p d

-- One directory of `os.MkdirAll`.
unfoldable pub make_dir : FilePath → Io (Unit {0})
unfolding lstat place
make_dir p d = elim (lstat p d) [
  | none ↦ (place p dir d, ok tt)
  | some dir ↦ (d, ok tt)
  | some _ ↦ (d, err (mkdir_failed p))
]

unfoldable pub make_dirs_from : FilePath → FilePath → Io (Unit {0})
unfolding make_dir
make_dirs_from base [] = pure tt
make_dirs_from base (x ∷ p) = make_dir (base ++ x ∷ []) >> make_dirs_from (base ++ x ∷ []) p

-- `os.MkdirAll`, which fails here at a symbolic link, where Go follows one to a directory.
unfoldable pub make_dirs : FilePath → Io (Unit {0})
unfolding make_dirs_from
make_dirs p = make_dirs_from [] p

-- A temporary file beside `p` is written and renamed to `p`; the rename fails at a directory, and
-- leaves nothing behind.
unfoldable pub rename_onto : FilePath → File → Io (Unit {0})
unfolding lstat place
rename_onto p f d = elim (lstat p d) [
  | some dir ↦ (d, err (rename_failed p))
  | _ ↦ (place p (file f) d, ok tt)
]

-- Whether `os.ReadDir` lists an entry.
unfoldable pub has_entries : FilePath → Disk → Bool
unfolding below
has_entries p [] = false
has_entries p ((q, n) ∷ d) = elim (below p q) [ some (_ ∷ _) ↦ true | _ ↦ false ] || has_entries p d

no_entries : Option Node → Bool → Bool
no_entries (some dir) listed = not listed
no_entries _ listed = false

-- `os.ReadDir` succeeds, which takes a directory, and lists nothing.
unfoldable pub is_empty_dir : FilePath → Disk → Bool
unfolding no_entries has_entries lstat
is_empty_dir p d = no_entries (lstat p d) (has_entries p d)

-- What a walk of `root` meets below it.
unfoldable pub entries_below : FilePath → Disk → List (FilePath × Node)
unfolding below
entries_below root [] = []
entries_below root ((p, n) ∷ d) =
    let rest = entries_below root d in
    elim (below root p) [ some (x ∷ rel) ↦ (x ∷ rel, n) ∷ rest | _ ↦ rest ]
