-- ===== src/Engine/Disk/Keeps.antt =====
-- Conditions on the disk that an operation keeps, whether it succeeds or fails.
use stoker_operator.Prelude.{◌≡◌, refl, Option, none, some, [], ◌∷◌, ◌++◌, string_eq, list_eq}
use stoker_operator.Engine.Disk.{
  FilePath, File, Node, file, dir, symlink, Disk, Io, ok, err, Result, after, ◌>>=◌, ◌>>◌, lstat,
  place, make_dir, make_dirs_from, make_dirs, rename_onto,
}

abbrev pub Keeps {ℓ κ} : {A : Type κ} → (Disk → Type ℓ) → Io A → Type ℓ
Keeps I m = (d : Disk) → I d → I ((m d).0)

-- What follows an operation leads from `I` to `J`, and `J` holds where it failed.
pub after-leads {ℓ κ ι υ} :
    {A : Type ι} {B : Type υ} (I : Disk → Type ℓ) (J : Disk → Type κ) (f : A → Io B)
    (r : Disk × Result A)
    → ((d : Disk) → I d → J d)
    → ((a : A) (d : Disk) → I d → J ((f a d).0))
    → I r.0
    → J ((after f r).0)
after-leads I J f (d, ok a) weaken k h = k a d h
after-leads I J f (d, err e) weaken k h = weaken d h

module _ {ℓ} (I : Disk → Type ℓ) where
  pub after-Keeps {κ ι} :
      {A : Type κ} {B : Type ι} (f : A → Io B) (r : Disk × Result A)
      → ((a : A) → Keeps I (f a))
      → I r.0
      → I ((after f r).0)
  after-Keeps f (d, ok a) k h = k a d h
  after-Keeps f (d, err e) k h = h

  pub >>=-Keeps {κ ι} :
      {A : Type κ} {B : Type ι} (m : Io A) (f : A → Io B)
      → Keeps I m
      → ((a : A) → Keeps I (f a))
      → Keeps I (m >>= f)
  >>=-Keeps m f hm hf d h = after-Keeps f (m d) hf (hm d h)

  pub >>-Keeps {κ ι} :
      {A : Type κ} {B : Type ι} (m : Io A) (k : Io B) → Keeps I m → Keeps I k → Keeps I (m >> k)
  >>-Keeps m k hm hk = >>=-Keeps m (λ _. k) hm (λ _. hk)

  -- Making a directory where nothing was is all that `os.MkdirAll` does to a disk.
  module _ (new_dir : (p : FilePath) (d : Disk) → lstat p d ≡ none → I d → I (place p dir d)) where
    make_dir-Keeps : (p : FilePath) → Keeps I (make_dir p)
    unfolding make_dir
    make_dir-Keeps p d h = go (lstat p d) refl
      where
        go : (o : Option Node) → lstat p d ≡ o → I (make_dir p d).0
        go none e = rw (e, make_dir) (new_dir p d e h)
        go (some dir) e = rw (e, make_dir) h
        go (some (file f)) e = rw (e, make_dir) h
        go (some symlink) e = rw (e, make_dir) h

    make_dirs_from-Keeps : (base p : FilePath) → Keeps I (make_dirs_from base p)
    unfolding make_dirs_from
    make_dirs_from-Keeps base [] = λ d h. h
    make_dirs_from-Keeps base (x ∷ p) =
        >>-Keeps (make_dir (base ++ x ∷ [])) (make_dirs_from (base ++ x ∷ []) p)
          (make_dir-Keeps (base ++ x ∷ [])) (make_dirs_from-Keeps (base ++ x ∷ []) p)

    pub make_dirs-Keeps : (p : FilePath) → Keeps I (make_dirs p)
    unfolding make_dirs
    make_dirs-Keeps p = make_dirs_from-Keeps [] p

  pub rename_onto-Keeps :
      (p : FilePath) (f : File)
      → ((d : Disk) → I d → I (place p (file f) d))
      → Keeps I (rename_onto p f)
  unfolding rename_onto
  rename_onto-Keeps p f written d h = go (lstat p d) refl
    where
      go : (o : Option Node) → lstat p d ≡ o → I (rename_onto p f d).0
      go none e = rw (e, rename_onto) (written d h)
      go (some dir) e = rw (e, rename_onto) h
      go (some (file g)) e = rw (e, rename_onto) (written d h)
      go (some symlink) e = rw (e, rename_onto) (written d h)
