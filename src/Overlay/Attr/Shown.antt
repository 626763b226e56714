-- ===== src/Overlay/Attr/Shown.antt =====
-- What the stat shown by src/overlay.rs promises of identifiers, inode numbers and link counts.
use fuse_overlayfs.Base.{
  ℕ, ◌≤◌, ◌≡◌, true, false, Option, none, some, arith, ok, err, FsResult, is_ok,
}
use mathlib.Core.Path.{subst}
use fuse_overlayfs.Datasource.{Bytes, Stat}
use fuse_overlayfs.Config.{OverlayConfig}
use fuse_overlayfs.Mapping.Lookup.{IsTable, IsCovered, find_mapping-find_mapping}
use fuse_overlayfs.Layer.{OvlLayer}
use fuse_overlayfs.Node.{NodeId, OvlNode, get_node}
use fuse_overlayfs.Node.Hash.{compute_fuse_ino-ge}
use fuse_overlayfs.Overlay.{OverlayInner, layer}
use fuse_overlayfs.Overlay.Attr.{
  Calls, host_stat, shown_stat, rpl_stat_with_path, do_stat_with_path, get_st_ino_with_path,
  finish_ino, handle_ino, map_uid, map_gid,
}

-- No squash option is set.
pub record IsUnsquashed (config : OverlayConfig) : Type 0 where
  pub root : config.squash_to_root ≡ false
  pub uid : config.squash_to_uid ≡ none
  pub gid : config.squash_to_gid ≡ none

module _ (s : OverlayInner) (node : OvlNode) (config : OverlayConfig)
    (wide : config.ino_t_32 ≡ false) where
  finish_ino-ge : (ino : ℕ) → 2 ≤ finish_ino s node config ino
  finish_ino-ge ino = ground (arith, wide, compute_fuse_ino-ge ino node.tmp_dev s.ino_passthrough)

  handle_ino-ge :
      (path : Bytes) (r : FsResult OvlLayer) → is_ok r ≡ true → 2 ≤ handle_ino s node path config r
  handle_ino-ge path (ok l) h = finish_ino-ge _
  handle_ino-ge path (err e) h = absurd (ground arith)

module _ (calls : Calls) (s : OverlayInner) (node_id : NodeId) (fd : Option ℕ)
    (config : OverlayConfig) (path : Bytes) (node : OvlNode) (host st : Stat)
    (at : get_node s.nodes node_id ≡ some node) (read : host_stat calls s node fd path ≡ ok host)
    (shown : rpl_stat_with_path calls s node_id fd config path ≡ ok st) where
  shown_lem : shown_stat s node config path host ≡ st
  unfolding rpl_stat_with_path
  shown_lem = ground (arith, at, read, shown)

  -- A change of owner to the owner that is shown leaves the file's owner on disk as it is: the
  -- identifiers that the stat shows are mapped back to those of the layer. The stat succeeds, no
  -- squash option is set, and the tables have no overlaps and cover the file's identifiers.
  pub rpl_stat_with_path-map_uid :
      IsUnsquashed config
      → IsTable config.uid_mappings
      → IsTable config.gid_mappings
      → IsCovered host.st_uid config.uid_mappings true
      → IsCovered host.st_gid config.gid_mappings true
      → (map_uid s st.st_uid config ≡ host.st_uid) × (map_gid s st.st_gid config ≡ host.st_gid)
  unfolding map_uid map_gid shown_stat
  rpl_stat_with_path-map_uid un uids gids in_uids in_gids = (
    ground (
      arith,
      shown_lem,
      un.root,
      un.uid,
      find_mapping-find_mapping host.st_uid config.uid_mappings true s.overflow.uid uids in_uids,
    ),
    ground (
      arith,
      shown_lem,
      un.root,
      un.gid,
      find_mapping-find_mapping host.st_gid config.gid_mappings true s.overflow.gid gids in_gids,
    ),
  )

  -- The inode number that a successful stat shows is neither 0 nor the root's 1, with the numbers of
  -- the file system as with those of file handles, unless the option of 32-bit numbers is set.
  pub rpl_stat_with_path-ge : config.ino_t_32 ≡ false → 2 ≤ st.st_ino
  unfolding shown_stat get_st_ino_with_path host_stat do_stat_with_path
  rpl_stat_with_path-ge wide =
      let found : is_ok (layer s node.layer_idx) ≡ true = ground (arith, read) in
      subst (λ (x : Stat). 2 ≤ x.st_ino) shown_lem
        (ground (
          arith,
          finish_ino-ge s node config wide node.tmp_ino,
          handle_ino-ge s node config wide path (layer s node.layer_idx) found,
        ))
