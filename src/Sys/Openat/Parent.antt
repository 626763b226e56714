-- ===== src/Sys/Openat/Parent.antt =====
-- The parent of a path: `open_parent_safe` of src/sys/openat2.rs is the way back of `child_path`.
use Prim.Native.Nat.{bit_or}
use fuse_overlayfs.Base.{
  ℕ, ◌≡◌, refl, ap, Bool, true, false, none, some, [], ◌∷◌, ◌++◌, arith, all, if◌then◌else◌, codes,
  bytes_eq,
}
use fuse_overlayfs.Base.Text.{free_of}
use fuse_overlayfs.Datasource.{Bytes}
use fuse_overlayfs.Node.Path.{child_path}
use fuse_overlayfs.Sys.{Sys, o_directory, o_path}
use fuse_overlayfs.Sys.Actions.{pure, ◌>>=◌}
use fuse_overlayfs.Sys.Openat.{split_last, open_split, safe_openat, open_parent_safe}

split_last-free_of : (name : Bytes) → free_of b'/' name ≡ true → split_last name ≡ none
unfolding split_last all
split_last-free_of [] h = refl
split_last-free_of (c ∷ name) h = ground (arith, split_last-free_of name)

split_last-append :
    (parent name : Bytes)
    → free_of b'/' name ≡ true
    → split_last (parent ++ (b'/' ∷ name)) ≡ some (parent, name)
unfolding split_last
split_last-append [] name h = rw (split_last-free_of name h) refl
split_last-append (c ∷ parent) name h = rw (split_last-append parent name h) refl

module _ {W : Type 0} (sys : Sys W) where
  open_parent_safe-if :
      (dirfd : ℕ) (parent name : Bytes) (b : Bool)
      → free_of b'/' name ≡ true
      → open_parent_safe sys dirfd (if b then name else parent ++ (b'/' ∷ name)) ≡ (
          if b
          then pure (none, name)
          else safe_openat sys dirfd parent (bit_or o_directory o_path) 0 >>= λ fd.
              pure (some fd, name))
  unfolding open_parent_safe
  open_parent_safe-if dirfd parent name true h =
      ap (open_split sys dirfd name) (split_last-free_of name h)
  open_parent_safe-if dirfd parent name false h =
      ap (open_split sys dirfd (parent ++ (b'/' ∷ name))) (split_last-append parent name h)

  -- For a name without a slash, the parent of a child's path is the parent's path, which is opened
  -- as a directory and without access to its content, and the last name is the child's. Below the
  -- root, whose path is ".", nothing is opened.
  pub open_parent_safe-child_path :
      (dirfd : ℕ) (parent name : Bytes)
      → free_of b'/' name ≡ true
      → open_parent_safe sys dirfd (child_path parent name) ≡ (
          if bytes_eq parent (codes ".")
          then pure (none, name)
          else safe_openat sys dirfd parent (bit_or o_directory o_path) 0 >>= λ fd.
              pure (some fd, name))
  unfolding child_path
  open_parent_safe-child_path dirfd parent name h =
      open_parent_safe-if dirfd parent name (bytes_eq parent (codes ".")) h
