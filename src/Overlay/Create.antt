-- ===== src/Overlay/Create.antt =====
-- The handlers `mknod`, `mkdir` and `symlink` of src/overlay.rs. The new file is made in the work
-- directory and moved to its place. `user` are the identifiers of the request.
use Prim.Native.Nat.{bit_or}
use fuse_overlayfs.Base.{
  ℕ, Bool, false, not, Option, none, some, ok, err, FsResult, ◌==◌, ltb, if◌then◌else◌, length,
  eexist, enotdir,
}
use fuse_overlayfs.Config.{OverlayConfig}
use fuse_overlayfs.Datasource.{Bytes, Stat, Dev, at_symlink_nofollow}
use fuse_overlayfs.Node.{NodeId}
use fuse_overlayfs.Overlay.{OverlayInner}
use fuse_overlayfs.Overlay.Attr.{map_uid, map_gid}
use fuse_overlayfs.Overlay.Mount.{
  Handler, call, on_process, reads, node_of, next_wd_counter, find_node, is_whiteout_or_missing,
}
use fuse_overlayfs.Overlay.Upper.{
  get_fs_namemax, prepare_create_parent, stat_and_register_child, inherit_acl,
}
use fuse_overlayfs.Sys.{Sys, cstr_bytes, o_rdonly, o_nonblock, o_directory, at_removedir}
use fuse_overlayfs.Sys.Actions.{Action, pure, raise, lift, attempt, ignore, ◌>>=◌, ◌>>◌}
use fuse_overlayfs.Sys.Openat.{safe_openat, open_parent_safe_cstr}
use fuse_overlayfs.Whiteout.Change.{delete_whiteout, set_fd_opaque}

-- The two identifiers of a request.
pub record User : Type 0 where
  pub uid : ℕ
  pub gid : ℕ

abbrev pub enametoolong : ℕ
enametoolong = 36

abbrev pub is_taken : OverlayInner → Option NodeId → Bool
is_taken s none = false
is_taken s (some id) = not (is_whiteout_or_missing s id)

module _ {W : Type 0} (sys : Sys W) where
  unfoldable pub check_length : Bytes → Handler W (Unit {0})
  check_length name = do
    namemax ← get_fs_namemax sys
    (if ltb namemax (length name) then raise enametoolong else pure tt)

  -- The name is not too long, and no node has it.
  unfoldable pub check_new_name : ℕ → Bytes → Handler W (Unit {0})
  check_new_name parent name = do
    check_length name
    found ← find_node sys parent (some name)
    taken ← reads (λ s. is_taken s found)
    (if taken then raise eexist else pure tt)

  -- The owner of the new file in the work directory.
  unfoldable pub own : Bytes → User → OverlayConfig → Handler W (Unit {0})
  own wd_name req config = do
    s ← reads (λ s. s)
    ignore (
        call (
          sys.fchownat s.workdir_fd wd_name (map_uid s req.uid config) (map_gid s req.gid config)
            at_symlink_nofollow))

  unfoldable pub acl_if_open : NodeId → OverlayConfig → FsResult ℕ → Handler W (Unit {0})
  acl_if_open pnode_id config (err e) = pure tt
  acl_if_open pnode_id config (ok fd) = inherit_acl sys pnode_id fd config

  unfoldable pub acl_on_new : NodeId → Bytes → ℕ → OverlayConfig → Handler W (Unit {0})
  acl_on_new pnode_id wd_name flags config = do
    s ← reads (λ s. s)
    fd ← attempt (call (safe_openat sys s.workdir_fd wd_name flags 0))
    acl_if_open pnode_id config fd

  abbrev removed_on_error : {A : Type 0} → ℕ → Bytes → ℕ → FsResult A → Action W A
  removed_on_error workdir_fd wd_name flags (ok a) = pure a
  removed_on_error workdir_fd wd_name flags (err e) =
      ignore (sys.unlinkat workdir_fd wd_name flags) >> raise e

  -- The place of the new file; the file in the work directory goes where it cannot be opened.
  abbrev new_place : ℕ → Bytes → ℕ → ℕ → Bytes → Action W (ℕ × Bytes)
  new_place workdir_fd wd_name flags upper_fd path = do
    r ← attempt (open_parent_safe_cstr sys upper_fd path)
    removed_on_error workdir_fd wd_name flags r

  -- Any other file moves by one rename; the result is its directory.
  unfoldable pub place_file : ℕ → Bytes → ℕ → Bytes → Action W ℕ
  place_file workdir_fd wd_name upper_fd path = do
    (dst_dirfd, dst_name) ← new_place workdir_fd wd_name 0 upper_fd path
    r ← attempt (sys.renameat workdir_fd wd_name dst_dirfd dst_name)
    removed_on_error workdir_fd wd_name 0 r
    pure dst_dirfd

  abbrev retry_dir : ℕ → Bytes → ℕ → Bytes → FsResult (Unit {0}) → Action W (Unit {0})
  retry_dir workdir_fd wd_name dst_dirfd dst_name (ok u) = pure tt
  retry_dir workdir_fd wd_name dst_dirfd dst_name (err e) =
      if e == enotdir
      then ignore (sys.unlinkat dst_dirfd dst_name 0)
        >> attempt (sys.renameat workdir_fd wd_name dst_dirfd dst_name)
        >>= removed_on_error workdir_fd wd_name at_removedir
      else removed_on_error workdir_fd wd_name at_removedir (err e)

  -- A directory cannot replace a file, which is removed first: a whiteout, since the name is free.
  unfoldable pub place_new_dir : ℕ → Bytes → ℕ → Bytes → Action W ℕ
  place_new_dir workdir_fd wd_name upper_fd path = do
    (dst_dirfd, dst_name) ← new_place workdir_fd wd_name at_removedir upper_fd path
    r ← attempt (sys.renameat workdir_fd wd_name dst_dirfd dst_name)
    retry_dir workdir_fd wd_name dst_dirfd dst_name r
    pure dst_dirfd

  -- The whiteouts of the name go, and the new file gets its node.
  unfoldable pub finish_new : ℕ → ℕ → NodeId → Bytes → Bytes → Bytes → Handler W (ℕ × Stat)
  finish_new upper_fd dst_dirfd pnode_id pnode_path name path = do
    ignore (on_process (delete_whiteout sys upper_fd (some dst_dirfd) pnode_path name))
    stat_and_register_child sys pnode_id name path

  unfoldable pub mknod : ℕ → User → ℕ → Bytes → ℕ → Dev → OverlayConfig → Handler W (ℕ × Stat)
  mknod rounds req parent name mode rdev config = do
    check_new_name parent name
    (pnode_id, pnode_path, upper_fd, path) ← prepare_create_parent sys rounds parent name
    wd_name ← next_wd_counter
    c_wd ← lift (cstr_bytes wd_name)
    s ← reads (λ s. s)
    call (sys.mknodat s.workdir_fd c_wd (bit_or mode 0o755) rdev)
    own c_wd req config
    acl_on_new pnode_id wd_name (bit_or o_rdonly o_nonblock) config
    dst_dirfd ← call (place_file s.workdir_fd c_wd upper_fd path)
    finish_new upper_fd dst_dirfd pnode_id pnode_path name path

  unfoldable pub opaque_if_open : FsResult ℕ → Handler W (Unit {0})
  opaque_if_open (err e) = pure tt
  opaque_if_open (ok fd) = ignore (call (set_fd_opaque sys fd))

  abbrev dir_flags : ℕ
  dir_flags = bit_or o_rdonly o_directory

  -- A new directory hides what lower layers have under its name.
  unfoldable pub opaque_new : ℕ → Bytes → ℕ → Handler W (Unit {0})
  opaque_new workdir_fd wd_name pnode_last_layer =
      if ltb 0 pnode_last_layer
      then attempt (call (safe_openat sys workdir_fd wd_name dir_flags 0)) >>= opaque_if_open
      else pure tt

  unfoldable pub mkdir : ℕ → User → ℕ → Bytes → ℕ → OverlayConfig → Handler W (ℕ × Stat)
  mkdir rounds req parent name mode config = do
    check_new_name parent name
    (pnode_id, pnode_path, upper_fd, path) ← prepare_create_parent sys rounds parent name
    pnode ← node_of pnode_id
    wd_name ← next_wd_counter
    c_wd ← lift (cstr_bytes wd_name)
    s ← reads (λ s. s)
    call (sys.mkdirat s.workdir_fd c_wd mode)
    own c_wd req config
    opaque_new s.workdir_fd wd_name pnode.last_layer_idx
    acl_on_new pnode_id wd_name dir_flags config
    dst_dirfd ← call (place_new_dir s.workdir_fd c_wd upper_fd path)
    finish_new upper_fd dst_dirfd pnode_id pnode_path name path

  unfoldable pub symlink : ℕ → User → ℕ → Bytes → Bytes → OverlayConfig → Handler W (ℕ × Stat)
  symlink rounds req parent name link config = do
    check_new_name parent name
    (pnode_id, pnode_path, upper_fd, path) ← prepare_create_parent sys rounds parent name
    wd_name ← next_wd_counter
    c_wd ← lift (cstr_bytes wd_name)
    c_link ← lift (cstr_bytes link)
    s ← reads (λ s. s)
    call (sys.symlinkat c_link s.workdir_fd c_wd)
    own c_wd req config
    dst_dirfd ← call (place_file s.workdir_fd c_wd upper_fd path)
    finish_new upper_fd dst_dirfd pnode_id pnode_path name path
