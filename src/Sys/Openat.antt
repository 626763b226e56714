-- ===== src/Sys/Openat.antt =====
-- src/sys/openat2.rs: opening below a descriptor without leaving it, and the parent directory of
-- a path.
pub mod Parent
use Prim.Native.Nat.{bit_and, bit_or}
use fuse_overlayfs.Base.{
  ℕ, suc, Bool, true, false, Option, none, some, List, [], ◌∷◌, ◌++◌, ok, err, FsResult, ◌==◌,
  if◌then◌else◌, codes, einval, is_ok,
}
use fuse_overlayfs.Base.Text.{to_string}
use fuse_overlayfs.Datasource.{Bytes, Stat, at_symlink_nofollow}
use fuse_overlayfs.Sys.{Sys, cstr_bytes, o_creat, o_directory, o_path, at_eaccess}
use fuse_overlayfs.Sys.Actions.{Action, pure, raise, lift, attempt, ◌>>=◌}

abbrev resolve_in_root : ℕ
resolve_in_root = 0x10

-- All the flags that VALID_OPEN_FLAGS names, with the bits of x86-64 and glibc.
abbrev pub valid_open_flags : ℕ
valid_open_flags = 0x7f_5fc3

-- The fields of `OpenHow`, which the kernel refuses where an unknown bit is set.
abbrev how_flags : ℕ → ℕ
how_flags flags = bit_and flags valid_open_flags

abbrev how_mode : ℕ → ℕ → ℕ
how_mode flags mode = if bit_and flags o_creat == 0 then 0 else bit_and mode 0o7777

-- The place of the last slash: what stands before it, and what stands behind it.
unfoldable pub split_last : Bytes → Option (Bytes × Bytes)
split_last [] = none
split_last (c ∷ path) = elim (split_last path) [
  | some (parent, basename) ↦ some (c ∷ parent, basename)
  | none ↦ if c == b'/' then some ([], path) else none
]

abbrev pub or_fd : ℕ → Option ℕ → ℕ
or_fd dirfd none = dirfd
or_fd dirfd (some fd) = fd

module _ {W : Type 0} (sys : Sys W) where
  unfoldable pub syscall_openat2 : ℕ → Bytes → ℕ → ℕ → ℕ → Action W ℕ
  syscall_openat2 dirfd path flags mode resolve =
      sys.openat2 dirfd path (how_flags flags) (how_mode flags mode) resolve

  unfoldable pub safe_openat : ℕ → Bytes → ℕ → ℕ → Action W ℕ
  safe_openat dirfd pathname flags mode = do
    c_path ← lift (cstr_bytes pathname)
    syscall_openat2 dirfd c_path flags mode resolve_in_root

  unfoldable pub open_trusted : Bytes → ℕ → ℕ → Action W ℕ
  open_trusted path flags mode = do c_path ← lift (cstr_bytes path); sys.open_path c_path flags mode

  abbrev pub open_split : ℕ → Bytes → Option (Bytes × Bytes) → Action W (Option ℕ × Bytes)
  open_split dirfd path none = pure (none, path)
  open_split dirfd path (some (parent, basename)) = do
    fd ← safe_openat dirfd parent (bit_or o_directory o_path) 0
    pure (some fd, basename)

  -- The descriptor of the parent directory, `none` where that is `dirfd` itself, and the last name.
  unfoldable pub open_parent_safe : ℕ → Bytes → Action W (Option ℕ × Bytes)
  open_parent_safe dirfd path = open_split dirfd path (split_last path)

  unfoldable pub open_parent_safe_cstr : ℕ → Bytes → Action W (ℕ × Bytes)
  open_parent_safe_cstr dirfd path = do
    (parent_fd, basename) ← open_parent_safe dirfd path
    c_name ← lift (cstr_bytes basename)
    pure (or_fd dirfd parent_fd, c_name)

  abbrev stat_exists : ℕ → Bytes → Action W Bool
  stat_exists dirfd c_path = do
    st ← attempt (sys.fstatat dirfd c_path at_symlink_nofollow)
    pure (is_ok st)

  unfoldable pub file_exists_at : ℕ → Bytes → Action W Bool
  file_exists_at dirfd pathname = elim (cstr_bytes pathname) [
    | err e ↦ pure false
    | ok c_path ↦ do
      found ← attempt (sys.faccessat dirfd c_path 0 (bit_or at_symlink_nofollow at_eaccess))
      elim found [
        | ok u ↦ pure true
        | err e ↦ if e == einval then stat_exists dirfd c_path else pure false
      ]
  ]

unfoldable pub proc_fd_path : ℕ → Bytes → Bytes
proc_fd_path fd basename = codes "/proc/self/fd/" ++ to_string fd ++ (b'/' ∷ basename)
