-- ===== src/Node/Inodes/Fresh.antt =====
-- The loop of `register` that looks for a free inode number: what it finds is free, and it finds
-- one as long as the fallback counter does not wrap.
use fuse_overlayfs.Base.{
  ℕ, zero, suc, ◌+◌, ◌≤◌, ◌<◌, ◌≡◌, refl, inl, inr, true, none, some, arith, is_some, length,
  nat_key, Bool-cases,
}
use fuse_overlayfs.Base.Map
use fuse_overlayfs.Base.Map.{Map, get-remove, length-remove}
use fuse_overlayfs.Node.{u64_mod}
use fuse_overlayfs.Node.Inodes.{InodeKey, bump, find_free}

pub find_free_sound :
    (f : ℕ) (m : Map ℕ InodeKey) (c nf : ℕ) (r : ℕ × ℕ)
    → find_free f m c nf ≡ some r
    → (Map.get r.0 m ≡ none) × (2 ≤ r.0)
unfolding find_free
find_free_sound zero m c nf r h = absurd (ground arith)
find_free_sound (suc f) m c nf r h = ground (arith, find_free_sound f m nf (bump nf) r)

-- A number below the ones tried can be left out of the map.
find_free-remove :
    (f : ℕ) (m : Map ℕ InodeKey) (x c nf : ℕ)
    → x < c
    → x < nf
    → nf + f < u64_mod
    → find_free f (Map.remove x m) c nf ≡ find_free f m c nf
unfolding find_free
find_free-remove zero m x c nf a b h = refl
find_free-remove (suc f) m x c nf a b h =
    ground (arith, get-remove x c m, find_free-remove f m x nf (bump nf))

find_free-some :
    (f : ℕ) (m : Map ℕ InodeKey) (nf : ℕ)
    → length m < f
    → 2 ≤ nf
    → nf + f + 1 < u64_mod
    → is_some (find_free f m nf (bump nf)) ≡ true
unfolding find_free
find_free-some zero m nf a b h = absurd (omega arith)
find_free-some (suc f) m nf a b h = elim (Bool-cases (Map.contains_key nf m)) [
  | inr free ↦ ground arith
  | inl used ↦ ground (
    arith,
    length-remove nf m used,
    find_free-remove f m nf (bump nf) (bump (bump nf)),
    find_free-some f (Map.remove nf m) (bump nf),
  )
]

-- With room above the fallback counter for every number in use, a free number is found.
pub find_free_enough :
    (m : Map ℕ InodeKey) (c nf : ℕ)
    → 2 ≤ nf
    → nf + length m + 2 < u64_mod
    → is_some (find_free (suc (suc (length m))) m c nf) ≡ true
unfolding find_free
find_free_enough m c nf b h = ground (arith, find_free-some (suc (length m)) m nf)
