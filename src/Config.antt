-- ===== src/Config.antt =====
-- src/config.rs: the configuration, from the command line. Texts are lists of character codes.
-- The children have the splitting of texts, the single options, and the command line.
pub mod Split
pub mod Numbers
pub mod Options
pub mod Args
pub mod Paths
pub mod Splitting
pub mod Accepted
use fuse_overlayfs.Base.{ℕ, Bool, true, false, Option, none, some, List, [], codes}
use fuse_overlayfs.Mapping.{IdMapping}

-- `xattr_permissions` and `nfs_filehandles` are `i32`, given by their bit patterns; `timeout` is the
-- text of the number.
pub record OverlayConfig : Type 0 where
  pub lowerdir : Option (List ℕ)
  pub upperdir : Option (List ℕ)
  pub workdir : Option (List ℕ)
  pub mountpoint : Option (List ℕ)
  pub redirect_dir : Option (List ℕ)
  pub context : Option (List ℕ)
  pub plugins : Option (List ℕ)
  pub uid_str : Option (List ℕ)
  pub gid_str : Option (List ℕ)
  pub uid_mappings : List IdMapping
  pub gid_mappings : List IdMapping
  pub timeout : List ℕ
  pub xattr_permissions : ℕ
  pub nfs_filehandles : ℕ
  pub threaded : Bool
  pub fsync : Bool
  pub fast_ino_check : Bool
  pub writeback : Bool
  pub disable_xattrs : Bool
  pub squash_to_uid : Option ℕ
  pub squash_to_gid : Option ℕ
  pub debug : Bool
  pub foreground : Bool
  pub squash_to_root : Bool
  pub ino_t_32 : Bool
  pub static_nlink : Bool
  pub volatile_mode : Bool
  pub noacl : Bool
  pub fuse_options : List (List ℕ)
  pub euid : ℕ

-- `OverlayConfig::default`, for the effective user `euid`.
abbrev pub default_config : ℕ → OverlayConfig
default_config euid = record {
  lowerdir = none;
  upperdir = none;
  workdir = none;
  mountpoint = none;
  redirect_dir = none;
  context = none;
  plugins = none;
  uid_str = none;
  gid_str = none;
  uid_mappings = [];
  gid_mappings = [];
  timeout = codes "1000000000";
  xattr_permissions = 0;
  nfs_filehandles = 0;
  threaded = false;
  fsync = true;
  fast_ino_check = false;
  writeback = true;
  disable_xattrs = false;
  squash_to_uid = none;
  squash_to_gid = none;
  debug = false;
  foreground = false;
  squash_to_root = false;
  ino_t_32 = false;
  static_nlink = false;
  volatile_mode = false;
  noacl = false;
  fuse_options = [];
  euid = euid;
}
