-- ===== src/Overlay/Serve/Reached.antt =====
-- The states that the handlers of Overlay/Serve.antt reach, in any order of calls.
use fuse_overlayfs.Base.{ℕ, Bool, List, nat_key}
use fuse_overlayfs.Config.{OverlayConfig}
use fuse_overlayfs.Datasource.{Bytes}
use fuse_overlayfs.Layer.{OvlLayer}
use fuse_overlayfs.Mapping.{OverflowIds}
use fuse_overlayfs.Node.Inodes.{inode_key, set_same_device}
use fuse_overlayfs.Node.Inodes.Invariant.{
  IsConsistent, empty_table-IsConsistent, forget-IsConsistent,
}
use fuse_overlayfs.Overlay.{OverlayInner}
use fuse_overlayfs.Overlay.Attr.{Calls}
use fuse_overlayfs.Overlay.Serve.{new_overlay, lookup, forget_handler}
use fuse_overlayfs.Overlay.Serve.Known.{lookup-IsGood}

-- The states that the handlers reach from the start, in any order of calls.
pub data Reachable : OverlayInner → Type 0 where
  begun :
      (layers : List OvlLayer) (workdir_fd : ℕ) (overflow : OverflowIds) (can_mknod : Bool)
      → Reachable (new_overlay layers workdir_fd overflow can_mknod)
  looked_up :
      {s : OverlayInner} (calls : Calls) (parent : ℕ) (name : Bytes) (config : OverlayConfig)
      → Reachable s
      → Reachable (lookup calls s parent name config).0
  forgotten :
      {s : OverlayInner} (ino nlookup : ℕ) → Reachable s → Reachable (forget_handler s ino nlookup)

-- Every state that look-ups and forgets reach, in whatever order, has a consistent inode table, so
-- that two files never share a number.
pub Reachable-IsConsistent : {s : OverlayInner} → Reachable s → IsConsistent s.inodes
unfolding new_overlay set_same_device forget_handler
Reachable-IsConsistent (begun layers workdir_fd overflow can_mknod) = record {
  mapped = empty_table-IsConsistent.mapped;
  unreserved = empty_table-IsConsistent.unreserved;
}
Reachable-IsConsistent (looked_up {s = s} calls parent name config r) =
    (lookup-IsGood calls s parent name config (Reachable-IsConsistent r)).consistent
Reachable-IsConsistent (forgotten {s = s} ino nlookup r) =
    forget-IsConsistent s.inodes ino nlookup (Reachable-IsConsistent r)
