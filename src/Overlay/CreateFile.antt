-- ===== src/Overlay/CreateFile.antt =====
-- The handler `create` of src/overlay.rs: a regular file is made and opened. What the handler does
-- with the open descriptor, its third result, is not modelled.
use Prim.Native.Nat.{bit_and, bit_or}
use fuse_overlayfs.Base.{ℕ, ◌-◌, Bool, true, false, Option, none, some, ◌==◌, if◌then◌else◌, eexist}
use fuse_overlayfs.Base.Text.{u32_mod}
use fuse_overlayfs.Config.{OverlayConfig}
use fuse_overlayfs.Datasource.{Bytes, Stat, statx_basic_stats}
use fuse_overlayfs.Direct.{DirectAccess, openat, fstat}
use fuse_overlayfs.Node.{NodeId}
use fuse_overlayfs.Overlay.{OverlayInner, whiteout_in, lookup_node_id}
use fuse_overlayfs.Overlay.Attr.{map_uid, map_gid}
use fuse_overlayfs.Overlay.Create.{User, check_length, place_file}
use fuse_overlayfs.Overlay.Mount.{
  Handler, call, on_process, reads, next_wd_counter, first_now, find_node, is_whiteout_or_missing,
}
use fuse_overlayfs.Overlay.Upper.{prepare_create_parent, register_child, inherit_acl}
use fuse_overlayfs.Sys.{Sys, cstr_bytes, o_wronly, o_creat, o_nofollow}
use fuse_overlayfs.Sys.Actions.{pure, raise, lift, ignore, ◌>>=◌, ◌>>◌}
use fuse_overlayfs.Sys.Openat.{safe_openat}
use fuse_overlayfs.Whiteout.Change.{delete_whiteout}

abbrev o_accmode : ℕ
o_accmode = 3

abbrev o_rdwr : ℕ
o_rdwr = 2

abbrev o_append : ℕ
o_append = 0x400

abbrev o_direct : ℕ
o_direct = 0x4000

-- `flags & !mask`
abbrev clear_flags : ℕ → ℕ → ℕ
clear_flags flags mask = bit_and flags (u32_mod - 1 - mask)

-- With a writeback cache the kernel reads what the program only writes, and does the appends.
abbrev writeback_access : ℕ → ℕ
writeback_access flags =
    if bit_and flags o_accmode == o_wronly
    then bit_or (clear_flags flags o_accmode) o_rdwr
    else flags

unfoldable pub create_flags : ℕ → Bool → ℕ
create_flags flags writeback =
    let open_flags = clear_flags (bit_or (bit_or flags o_creat) o_nofollow) o_direct in
    if writeback then clear_flags (writeback_access open_flags) o_append else open_flags

-- A name without a node may be one that is known as deleted.
abbrev pub known_deleted : OverlayInner → Bytes → Option NodeId → Bool
known_deleted s name none = false
known_deleted s name (some pid) = whiteout_in s.nodes pid name

module _ {W : Type 0} (sys : Sys W) where
  -- The test for a whiteout, or EEXIST.
  unfoldable pub check_deleted : ℕ → Bytes → Option NodeId → Handler W Bool
  check_deleted parent name none = reads (λ s. known_deleted s name (lookup_node_id s parent))
  check_deleted parent name (some id) = do
    missing ← reads (λ s. is_whiteout_or_missing s id)
    (if missing then pure true else raise eexist)

  -- Where a whiteout may have the name, the file is made in the work directory and moved over it.
  unfoldable pub create_over : DirectAccess → ℕ → Bytes → Bytes → Bytes → ℕ → ℕ → Handler W ℕ
  create_over upper upper_fd pnode_path name path open_flags mode = do
    wd_name ← next_wd_counter
    s ← reads (λ s. s)
    wd_fd ← call (safe_openat sys s.workdir_fd wd_name open_flags mode)
    c_wd ← lift (cstr_bytes wd_name)
    dst_dirfd ← call (place_file sys s.workdir_fd c_wd upper_fd path)
    ignore (on_process (delete_whiteout sys upper_fd (some dst_dirfd) pnode_path name))
    call (openat sys upper path (bit_or (clear_flags open_flags o_creat) o_rdwr) mode)

  unfoldable pub create_opened :
      Bool → DirectAccess → ℕ → Bytes → Bytes → Bytes → ℕ → ℕ → Handler W ℕ
  create_opened is_whiteout upper upper_fd pnode_path name path open_flags mode =
      if is_whiteout
      then create_over upper upper_fd pnode_path name path open_flags mode
      else call (openat sys upper path open_flags mode)

  unfoldable pub own_opened : ℕ → User → OverlayConfig → Handler W (Unit {0})
  own_opened fd req config = do
    s ← reads (λ s. s)
    ignore (call (sys.fchown fd (map_uid s req.uid config) (map_gid s req.gid config)))

  -- The inode number and the stat of the reply, and the descriptor of the open file.
  unfoldable pub create : ℕ → User → ℕ → Bytes → ℕ → ℕ → OverlayConfig → Handler W ((ℕ × Stat) × ℕ)
  create rounds req parent name mode flags config = do
    check_length sys name
    found ← find_node sys parent (some name)
    is_whiteout ← check_deleted parent name found
    (pnode_id, pnode_path, upper_fd, path) ← prepare_create_parent sys rounds parent name
    upper ← first_now
    fd ←
        create_opened is_whiteout upper.direct upper_fd pnode_path name path
          (create_flags flags config.writeback) mode
    own_opened fd req config
    inherit_acl sys pnode_id fd config
    st ← call (fstat sys upper.direct fd path statx_basic_stats)
    shown ← register_child sys pnode_id name st false
    pure (shown, fd)
