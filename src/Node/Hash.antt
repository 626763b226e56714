-- ===== src/Node/Hash.antt =====
-- src/node.rs and src/sys/handle.rs: FNV-1a over names and file handles, and the inode number
-- shown to the kernel.
use Prim.Native.Nat.{bit_xor}
use fuse_overlayfs.Base.{
  ℕ, ◌+◌, ◌*◌, ◌/◌, ◌%◌, ◌^◌, ◌≤◌, Bool, true, false, List, [], ◌∷◌, arith, leb, if◌then◌else◌,
}

abbrev fnv_offset_basis : ℕ
fnv_offset_basis = 0xcbf29ce484222325

abbrev fnv_prime : ℕ
fnv_prime = 0x100000001b3

fnv1a_loop : ℕ → List ℕ → ℕ
fnv1a_loop hash [] = hash
fnv1a_loop hash (byte ∷ rest) = fnv1a_loop ((bit_xor hash byte * fnv_prime) % 2 ^ 64) rest

unfoldable pub fnv1a_name_hash : List ℕ → ℕ
unfolding fnv1a_loop
fnv1a_name_hash name = fnv1a_loop fnv_offset_basis name

-- `sys::handle::fnv1a_hash` is the same loop over a file handle.
unfoldable pub fnv1a_hash : List ℕ → ℕ
unfolding fnv1a_loop
fnv1a_hash bytes = fnv1a_loop fnv_offset_basis bytes

-- Never 0 and never the root's number 1.
abbrev skip_reserved : ℕ → ℕ
skip_reserved n = if leb n 1 then n + 2 else n

abbrev fold_high : ℕ → ℕ
fold_high hash = bit_xor hash (hash / 2 ^ 32)

unfoldable pub compute_fuse_ino : ℕ → ℕ → Bool → ℕ
compute_fuse_ino ino dev true = skip_reserved ino
compute_fuse_ino ino dev false =
    let mixed = bit_xor ino ((dev * 0x9e3779b97f4a7c15) % 2 ^ 64) in
    skip_reserved (fold_high ((mixed * 0x517cc1b727220a95) % 2 ^ 64))

-- On every branch the number is neither 0 nor the root's.
pub compute_fuse_ino-ge :
    (ino dev : ℕ) (same_device : Bool) → 2 ≤ compute_fuse_ino ino dev same_device
unfolding compute_fuse_ino
compute_fuse_ino-ge ino dev true = ground arith
compute_fuse_ino-ge ino dev false = ground arith
