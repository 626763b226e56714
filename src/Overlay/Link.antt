-- ===== src/Overlay/Link.antt =====
-- The handler `link` of src/overlay.rs: a second name for a file of the upper layer.
use fuse_overlayfs.Base.{ℕ, false, none, some, if◌then◌else◌, eexist}
use fuse_overlayfs.Datasource.{Bytes, Stat, at_symlink_nofollow, statx_basic_stats}
use fuse_overlayfs.Direct.{fd_of, statat}
use fuse_overlayfs.Node.Path.{child_path}
use fuse_overlayfs.Overlay.Create.{check_length, is_taken}
use fuse_overlayfs.Overlay.Mount.{
  Handler, call, on_process, reads, node_path, first_now, find_node, node_of_ino,
}
use fuse_overlayfs.Overlay.Upper.{get_node_up, register_child}
use fuse_overlayfs.Sys.{Sys}
use fuse_overlayfs.Sys.Actions.{pure, raise, ignore, ◌>>=◌, ◌>>◌}
use fuse_overlayfs.Sys.Openat.{open_parent_safe_cstr}
use fuse_overlayfs.Whiteout.Change.{delete_whiteout}

module _ {W : Type 0} (sys : Sys W) where
  unfoldable pub link : ℕ → ℕ → ℕ → Bytes → Handler W (ℕ × Stat)
  link rounds ino newparent newname = do
    check_length sys newname
    src_id ← node_of_ino sys ino
    get_node_up sys rounds src_id
    dparent_id ← node_of_ino sys newparent
    dst ← find_node sys newparent (some newname)
    taken ← reads (λ s. is_taken s dst)
    (if taken then raise eexist else pure tt)
    get_node_up sys rounds dparent_id
    src_path ← node_path src_id
    dparent_path ← node_path dparent_id
    upper ← first_now
    ignore (on_process (delete_whiteout sys (fd_of upper.direct) none dparent_path newname))
    (src_dirfd, old_name) ← call (open_parent_safe_cstr sys (fd_of upper.direct) src_path)
    (dst_dirfd, new_name) ←
        call (open_parent_safe_cstr sys (fd_of upper.direct) (child_path dparent_path newname))
    call (sys.linkat src_dirfd old_name dst_dirfd new_name 0)
    st ← call (
        statat sys upper.direct (child_path dparent_path newname) at_symlink_nofollow
          statx_basic_stats)
    register_child sys dparent_id newname st false
