-- ===== src/Datasource.antt =====
-- src/datasource.rs: the access to one layer's file system, as an interface.
-- The operations are those of the trait `DataSource` that the overlay's own state is computed
-- from. Each is a function of the layer's content at one moment.
use fuse_overlayfs.Base.{ℕ, Bool, true, false, List, FsResult, codes}

abbrev pub Bytes : Type 0
Bytes = List ℕ

abbrev pub xattr_override_stat : Bytes
xattr_override_stat = codes "user.fuseoverlayfs.override_stat"

abbrev pub xattr_privileged_override_stat : Bytes
xattr_privileged_override_stat = codes "security.fuseoverlayfs.override_stat"

abbrev pub xattr_override_containers_stat : Bytes
xattr_override_containers_stat = codes "user.containers.override_stat"

-- `no_override` is the source's `None`.
pub data StatOverrideMode : Type 0 where
  no_override user privileged containers : StatOverrideMode

-- The derived `==` against `Containers`.
abbrev pub is_containers : StatOverrideMode → Bool
is_containers containers = true
is_containers _ = false

-- A device number, by the two parts that `libc::major` and `libc::minor` read from it.
pub record Dev : Type 0 where
  pub major : ℕ
  pub minor : ℕ

-- `libc::stat`
pub record Stat : Type 0 where
  pub st_dev : ℕ
  pub st_ino : ℕ
  pub st_mode : ℕ
  pub st_nlink : ℕ
  pub st_uid : ℕ
  pub st_gid : ℕ
  pub st_rdev : Dev
  pub st_size : ℕ
  pub st_blksize : ℕ
  pub st_blocks : ℕ
  pub st_atime : ℕ
  pub st_atime_nsec : ℕ
  pub st_mtime : ℕ
  pub st_mtime_nsec : ℕ

-- A directory entry; `dtype` is `DT_UNKNOWN` where the file system does not tell.
pub record DirEntry : Type 0 where
  pub name : Bytes
  pub ino : ℕ
  pub dtype : ℕ

abbrev pub dt_unknown : ℕ
dt_unknown = 0

abbrev pub dt_chr : ℕ
dt_chr = 2

abbrev pub dt_dir : ℕ
dt_dir = 4

-- The masks of `statx` (src/sys/statx.rs) and the flag AT_SYMLINK_NOFOLLOW.
abbrev pub statx_type : ℕ
statx_type = 1

abbrev pub statx_type_mode_ino : ℕ
statx_type_mode_ino = 0x103

abbrev pub statx_basic_stats : ℕ
statx_basic_stats = 0x7ff

abbrev pub at_symlink_nofollow : ℕ
at_symlink_nofollow = 0x100

-- `opendir` gives all the entries that the iterator would return. `getxattr` takes the size of the
-- caller's buffer and gives the bytes that are written to it.
pub record DataSource : Type 0 where
  pub file_exists : Bytes → FsResult Bool
  pub statat : Bytes → ℕ → ℕ → FsResult Stat
  pub fstat : ℕ → Bytes → ℕ → FsResult Stat
  pub opendir : Bytes → FsResult (List DirEntry)
  pub getxattr : Bytes → Bytes → ℕ → FsResult Bytes
  pub readlinkat : Bytes → FsResult Bytes
  pub get_nfs_filehandle : Bytes → ℕ
  pub root_fd : ℕ
  pub st_dev : ℕ
  pub stat_override_mode : StatOverrideMode
