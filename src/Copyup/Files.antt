-- ===== src/Copyup/Files.antt =====
-- `copyup` of src/copyup.rs: directories, links, special files and regular files.
use Prim.Native.Nat.{bit_and, bit_or}
use fuse_overlayfs.Base.{
  ℕ, Bool, ◌||◌, Option, none, some, List, ok, err, FsResult, ◌==◌, if◌then◌else◌, ok_or, get_elem?,
  enoent, erofs,
}
use fuse_overlayfs.Datasource.{Bytes, Stat, at_symlink_nofollow, statx_basic_stats}
use fuse_overlayfs.Direct.{DirectAccess, fd_of, openat, statat, readlinkat}
use fuse_overlayfs.Layer.Init.{DirectLayer}
use fuse_overlayfs.Node.{NodeId, s_ifmt, s_ifdir}
use fuse_overlayfs.Sys.{Sys, cstr_bytes, o_rdonly, o_wronly, o_creat, o_nonblock, o_nofollow}
use fuse_overlayfs.Sys.Actions.{Action, pure, raise, lift, attempt, ignore, ◌>>=◌, ◌>>◌}
use fuse_overlayfs.Sys.Openat.{safe_openat, open_parent_safe_cstr, split_last}
use fuse_overlayfs.Whiteout.Change.{s_ifchr, wh_file}
use fuse_overlayfs.Copyup.{
  CopyState, call, stat_times, first_layer, next_wd_name, node_at, path_at, mark_upper,
}
use fuse_overlayfs.Copyup.Contents.{copy_data, copy_xattr}
use fuse_overlayfs.Copyup.Dirs.{create_node_directory}

abbrev s_iflnk : ℕ
s_iflnk = 0o120000

abbrev s_ifblk : ℕ
s_ifblk = 0o060000

abbrev s_ififo : ℕ
s_ififo = 0o010000

abbrev s_ifsock : ℕ
s_ifsock = 0o140000

-- `mode & S_IFMT`
abbrev pub type_of_mode : ℕ → ℕ
type_of_mode mode = bit_and mode s_ifmt

abbrev pub is_dir_type : ℕ → Bool
is_dir_type t = t == s_ifdir

abbrev pub is_link_type : ℕ → Bool
is_link_type t = t == s_iflnk

abbrev pub is_special_type : ℕ → Bool
is_special_type t = (t == s_ifchr) || (t == s_ifblk) || (t == s_ififo) || (t == s_ifsock)

-- `path.rsplit(|&b| b == b'/').next()`
abbrev pub last_name : Bytes → Option (Bytes × Bytes) → Bytes
last_name path none = path
last_name path (some (parent, basename)) = basename

module _ {W : Type 0} (sys : Sys W) where
  abbrev kept_or_removed : ℕ → Bytes → FsResult (Unit {0}) → Action W (Unit {0})
  kept_or_removed workdir_fd wd_name (ok u) = pure tt
  kept_or_removed workdir_fd wd_name (err e) = ignore (sys.unlinkat workdir_fd wd_name 0) >> raise e

  -- The file in the work directory moves to its place, or is removed. The result is the place.
  unfoldable pub move_file : ℕ → Bytes → ℕ → Bytes → Action W (ℕ × Bytes)
  move_file workdir_fd wd_name upper_fd path = do
    (dst_dirfd, dst_name) ← open_parent_safe_cstr sys upper_fd path
    r ← attempt (sys.renameat workdir_fd wd_name dst_dirfd dst_name)
    kept_or_removed workdir_fd wd_name r
    pure (dst_dirfd, dst_name)

  abbrev own_link : ℕ → Bytes → Stat → Action (CopyState W) (Unit {0})
  own_link workdir_fd wd_name st =
      ignore (call (sys.fchownat workdir_fd wd_name st.st_uid st.st_gid at_symlink_nofollow))

  unfoldable pub make_link : DirectAccess → Bytes → Stat → ℕ → Action (CopyState W) Bytes
  make_link source path st workdir_fd = do
    target ← call (readlinkat sys source path)
    c_target ← lift (cstr_bytes target)
    wd_name ← next_wd_name
    call (sys.symlinkat c_target workdir_fd wd_name)
    own_link workdir_fd wd_name st
    pure wd_name

  abbrev special_flags : ℕ
  special_flags = bit_or (bit_or o_rdonly o_nofollow) o_nonblock

  -- The attributes of a special file, where both files can be opened.
  abbrev special_xattr : DirectAccess → Bytes → ℕ → Bytes → Action W (Unit {0})
  special_xattr source path workdir_fd wd_name = do
    wd_fd ← safe_openat sys workdir_fd wd_name special_flags 0
    sfd ← openat sys source path special_flags 0
    copy_xattr sys sfd wd_fd

  unfoldable pub make_special : DirectAccess → Bytes → Stat → ℕ → Action (CopyState W) Bytes
  make_special source path st workdir_fd = do
    wd_name ← next_wd_name
    call (sys.mknodat workdir_fd wd_name st.st_mode st.st_rdev)
    own_link workdir_fd wd_name st
    ignore (call (special_xattr source path workdir_fd wd_name))
    pure wd_name

  abbrev set_times : ℕ → Stat → Action W (Unit {0})
  set_times dfd st = let (atime, mtime) = stat_times st in sys.futimens dfd atime mtime

  unfoldable pub make_regular : ℕ → DirectAccess → Bytes → Stat → ℕ → Action (CopyState W) Bytes
  make_regular rounds source path st workdir_fd = do
    wd_name ← next_wd_name
    sfd ← call (openat sys source path (bit_or o_rdonly o_nofollow) 0)
    dfd ←
        call
          (safe_openat sys workdir_fd wd_name (bit_or o_creat o_wronly) (bit_or st.st_mode 0o200))
    ignore (call (sys.fchown dfd st.st_uid st.st_gid))
    call (copy_data sys rounds sfd dfd st.st_size)
    ignore (call (set_times dfd st))
    ignore (call (copy_xattr sys sfd dfd))
    ignore (call (sys.fchmod dfd st.st_mode))
    pure wd_name

  -- The whiteout file beside a regular file that has come into place.
  abbrev remove_wh_file : ℕ → Bytes → Action W (Unit {0})
  remove_wh_file dst_dirfd path = do
    wh_name ← lift (cstr_bytes (wh_file (last_name path (split_last path))))
    sys.unlinkat dst_dirfd wh_name 0

  unfoldable pub copy_link : DirectAccess → Bytes → Stat → ℕ → ℕ → Action (CopyState W) (Unit {0})
  copy_link source path st workdir_fd upper_fd = do
    wd_name ← make_link source path st workdir_fd
    place ← call (move_file workdir_fd wd_name upper_fd path)
    pure tt

  unfoldable pub copy_special :
      DirectAccess → Bytes → Stat → ℕ → ℕ → Action (CopyState W) (Unit {0})
  copy_special source path st workdir_fd upper_fd = do
    wd_name ← make_special source path st workdir_fd
    place ← call (move_file workdir_fd wd_name upper_fd path)
    pure tt

  unfoldable pub copy_regular :
      ℕ → DirectAccess → Bytes → Stat → ℕ → ℕ → Action (CopyState W) (Unit {0})
  copy_regular rounds source path st workdir_fd upper_fd = do
    wd_name ← make_regular rounds source path st workdir_fd
    (dst_dirfd, dst_name) ← call (move_file workdir_fd wd_name upper_fd path)
    ignore (call (remove_wh_file dst_dirfd path))

  unfoldable pub copy_file :
      ℕ → DirectAccess → Bytes → Stat → ℕ → ℕ → Action (CopyState W) (Unit {0})
  copy_file rounds source path st workdir_fd upper_fd =
      if is_link_type (type_of_mode st.st_mode)
      then copy_link source path st workdir_fd upper_fd
      else if is_special_type (type_of_mode st.st_mode)
      then copy_special source path st workdir_fd upper_fd
      else copy_regular rounds source path st workdir_fd upper_fd

  abbrev pub parents_first : List DirectLayer → Option NodeId → ℕ → Action (CopyState W) (Unit {0})
  parents_first layers none workdir_fd = pure tt
  parents_first layers (some pid) workdir_fd = create_node_directory sys layers pid workdir_fd

  abbrev pub copy_node :
      ℕ → List DirectLayer → NodeId → ℕ → DirectLayer → Action (CopyState W) (Unit {0})
  copy_node rounds layers id workdir_fd upper = do
    path ← path_at id
    node ← node_at id
    source ← lift (ok_or (get_elem? layers node.layer_idx) enoent)
    st ← call (statat sys source.direct path at_symlink_nofollow statx_basic_stats)
    parents_first layers node.parent workdir_fd
    (if is_dir_type (type_of_mode st.st_mode)
        then create_node_directory sys layers id workdir_fd
        else copy_file rounds source.direct path st workdir_fd (fd_of upper.direct)
          >> mark_upper id)

  -- `rounds` bounds the loops that copy the content.
  unfoldable pub copyup : ℕ → List DirectLayer → NodeId → ℕ → Action (CopyState W) (Unit {0})
  copyup rounds layers id workdir_fd = do
    upper ← lift (ok_or (first_layer layers) erofs)
    (if upper.low then raise erofs else copy_node rounds layers id workdir_fd upper)
