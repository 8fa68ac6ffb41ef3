-- ===== src/Engine/Disk/Laws.antt =====
-- What the disk operations leave at each path.
use stoker_operator.Prelude.{
  ◌≡◌, refl, true, none, some, [], ◌∷◌, ◌++◌, arith, ◌==◌, string_eq, list_eq, if◌then◌else◌,
}
use stoker_operator.Prelude.Dict.{lookup-erase, lookup}
use stoker_operator.Engine.Disk.{FilePath, Node, Disk, lstat, is_below, place, erase_below, remove}

pub lstat-place :
    (p q : FilePath) (n : Node) (d : Disk)
    → lstat q (place p n d) ≡ (if q == p then some n else lstat q d)
unfolding lstat place lookup
lstat-place p q n [] = ground arith
lstat-place p q n ((r, m) ∷ d) = ground (arith, lstat-place p q n d)

pub lstat-remove :
    (p q : FilePath) (d : Disk) → lstat q (remove p d) ≡ (if q == p then none else lstat q d)
unfolding lstat remove
lstat-remove p q d = lookup-erase q p d

pub lstat-erase_below :
    (root q : FilePath) (d : Disk)
    → lstat q (erase_below root d) ≡ (if is_below root q then none else lstat q d)
unfolding lstat erase_below lookup
lstat-erase_below root q [] = ground arith
lstat-erase_below root q ((p, n) ∷ d) = ground (arith, lstat-erase_below root q d)

pub is_below-append : (root p : FilePath) → is_below root (root ++ p) ≡ true
unfolding is_below
is_below-append [] p = refl
is_below-append (x ∷ root) p = ground (arith, is_below-append root p)

pub append_cancel_left : (root p q : FilePath) → root ++ p ≡ root ++ q → p ≡ q
append_cancel_left [] p q e = e
append_cancel_left (x ∷ root) p q e = append_cancel_left root p q (cc)
