-- ===== src/Sys.antt =====
-- The kernel, as the program calls it through src/sys: one operation for each call, over a type of
-- worlds that nothing is assumed of. Each wrapper turns a negative result into its errno.
-- Descriptors are numbers. That one is closed when its owner is dropped is not modelled.
pub mod Actions
pub mod Openat
pub mod Rules
use fuse_overlayfs.Base.{
  ℕ, ◌-◌, Bool, not, List, ok, err, FsResult, ◌==◌, if◌then◌else◌, all, einval,
}
use fuse_overlayfs.Base.Text.{u32_mod}
use fuse_overlayfs.Datasource.{Bytes, Dev, Stat, DirEntry}
use fuse_overlayfs.Sys.Actions.{Action}

-- `libc::timespec`
pub record Timespec : Type 0 where
  pub tv_sec : ℕ
  pub tv_nsec : ℕ

-- `libc::statx`
pub record Statx : Type 0 where
  pub stx_dev : ℕ
  pub stx_ino : ℕ
  pub stx_mode : ℕ
  pub stx_nlink : ℕ
  pub stx_uid : ℕ
  pub stx_gid : ℕ
  pub stx_rdev : Dev
  pub stx_size : ℕ
  pub stx_blksize : ℕ
  pub stx_blocks : ℕ
  pub stx_atime : Timespec
  pub stx_mtime : Timespec

-- `FileHandle`: the number of bytes that the kernel says it has written, and these bytes.
pub record FileHandle : Type 0 where
  pub handle_bytes : ℕ
  pub handle : Bytes

-- Reading calls give the bytes that they put in the caller's buffer, whose size they take.
-- `renameat` is (from directory, name, to
-- directory, name). `fstatvfs` gives its field `f_namemax`. `read_dir` stands for a stream that is
-- read to its end.
pub record Sys (W : Type 0) : Type 0 where
  pub openat2 : ℕ → Bytes → ℕ → ℕ → ℕ → Action W ℕ
  pub open_path : Bytes → ℕ → ℕ → Action W ℕ
  pub faccessat : ℕ → Bytes → ℕ → ℕ → Action W (Unit {0})
  pub fstat : ℕ → Action W Stat
  pub fstatat : ℕ → Bytes → ℕ → Action W Stat
  pub fstatvfs_namemax : ℕ → Action W ℕ
  pub statx : ℕ → Bytes → ℕ → ℕ → Action W Statx
  pub realpath : Bytes → Action W Bytes
  pub name_to_handle_at : ℕ → Bytes → ℕ → Action W FileHandle
  pub read_dir : ℕ → Action W (List DirEntry)
  pub readlinkat : ℕ → Bytes → Action W Bytes
  pub fgetxattr : ℕ → Bytes → ℕ → Action W Bytes
  pub lgetxattr : Bytes → Bytes → ℕ → Action W Bytes
  pub flistxattr : ℕ → ℕ → Action W Bytes
  pub llistxattr : Bytes → ℕ → Action W Bytes
  pub fsetxattr : ℕ → Bytes → Bytes → ℕ → Action W (Unit {0})
  pub mkdirat : ℕ → Bytes → ℕ → Action W (Unit {0})
  pub mknodat : ℕ → Bytes → ℕ → Dev → Action W (Unit {0})
  pub symlinkat : Bytes → ℕ → Bytes → Action W (Unit {0})
  pub unlinkat : ℕ → Bytes → ℕ → Action W (Unit {0})
  pub renameat : ℕ → Bytes → ℕ → Bytes → Action W (Unit {0})
  pub linkat : ℕ → Bytes → ℕ → Bytes → ℕ → Action W (Unit {0})
  pub renameat2 : ℕ → Bytes → ℕ → Bytes → ℕ → Action W (Unit {0})
  pub fchown : ℕ → ℕ → ℕ → Action W (Unit {0})
  pub fchownat : ℕ → Bytes → ℕ → ℕ → ℕ → Action W (Unit {0})
  pub fchmod : ℕ → ℕ → Action W (Unit {0})
  pub futimens : ℕ → Timespec → Timespec → Action W (Unit {0})
  pub ficlone : ℕ → ℕ → Action W (Unit {0})
  pub sendfile : ℕ → ℕ → ℕ → Action W ℕ
  pub read : ℕ → ℕ → Action W Bytes
  pub write : ℕ → Bytes → Action W ℕ

-- A path that goes to the kernel ends at its first zero byte, so one inside it is refused. A C
-- string is given by its bytes without the zero at the end.
unfoldable pub cstr_bytes : Bytes → FsResult Bytes
cstr_bytes path = if all (λ c. not (c == 0)) path then ok path else err einval

-- `statx_to_stat`
unfoldable pub statx_to_stat : Statx → Stat
statx_to_stat stx = record {
  st_dev = stx.stx_dev;
  st_ino = stx.stx_ino;
  st_mode = stx.stx_mode;
  st_nlink = stx.stx_nlink;
  st_uid = stx.stx_uid;
  st_gid = stx.stx_gid;
  st_rdev = stx.stx_rdev;
  st_size = stx.stx_size;
  st_blksize = stx.stx_blksize;
  st_blocks = stx.stx_blocks;
  st_atime = stx.stx_atime.tv_sec;
  st_atime_nsec = stx.stx_atime.tv_nsec;
  st_mtime = stx.stx_mtime.tv_sec;
  st_mtime_nsec = stx.stx_mtime.tv_nsec;
}

abbrev pub o_rdonly : ℕ
o_rdonly = 0

abbrev pub o_wronly : ℕ
o_wronly = 1

abbrev pub o_creat : ℕ
o_creat = 0x40

abbrev pub o_nonblock : ℕ
o_nonblock = 0x800

abbrev pub o_directory : ℕ
o_directory = 0x10000

abbrev pub o_nofollow : ℕ
o_nofollow = 0x20000

abbrev pub o_path : ℕ
o_path = 0x200000

-- The current directory, -100, as a bit pattern.
abbrev pub at_fdcwd : ℕ
at_fdcwd = u32_mod - 100

abbrev pub at_eaccess : ℕ
at_eaccess = 0x200

abbrev pub at_removedir : ℕ
at_removedir = 0x200

abbrev pub at_empty_path : ℕ
at_empty_path = 0x1000

abbrev pub at_statx_dont_sync : ℕ
at_statx_dont_sync = 0x4000

abbrev pub eintr : ℕ
eintr = 4

abbrev pub enosys : ℕ
enosys = 38
