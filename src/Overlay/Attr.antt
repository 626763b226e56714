-- ===== src/Overlay/Attr.antt =====
-- The stat that src/overlay.rs shows of a node: `do_stat_with_path`, `get_st_ino_with_path`,
-- `rpl_stat_with_path`, `rpl_stat`, and the way back of identifiers in `map_uid` and `map_gid`.
pub mod Shown
use fuse_overlayfs.Base.{
  ℕ, ◌+◌, ◌%◌, ◌^◌, Bool, true, false, not, ◌&&◌, ◌||◌, Option, none, some, List, [], ◌∷◌, ok, err,
  FsResult, ◌>>=◌, ok_or, ◌==◌, ltb, if◌then◌else◌, length, retain, all, enoent, einval,
}
use fuse_overlayfs.Base.Map.{Map}
use fuse_overlayfs.Datasource.{
  Bytes, Stat, DataSource, StatOverrideMode, no_override, user, privileged, containers,
  at_symlink_nofollow, statx_basic_stats,
}
use fuse_overlayfs.Config.{OverlayConfig}
use fuse_overlayfs.Layer.{OvlLayer}
use fuse_overlayfs.Mapping.{find_mapping}
use fuse_overlayfs.Node.{
  NodeId, OvlNode, NodeArena, is_dir, is_loaded, children, get_node, contains_node,
}
use fuse_overlayfs.Node.Hash.{compute_fuse_ino}
use fuse_overlayfs.Node.Path.{compute_path}
use fuse_overlayfs.Node.Inodes.{OvlIno, InodeKey, get_by_key}
use fuse_overlayfs.Overlay.{OverlayInner, layer}
use fuse_overlayfs.Overlay.Override.{override_mode}

-- The system calls on descriptors that are used here: `fgetxattr` into 64 bytes, and `fstatat`
-- without following a link.
pub record Calls : Type 0 where
  pub fgetxattr : ℕ → Bytes → FsResult Bytes
  pub fstatat : ℕ → Bytes → FsResult Stat

abbrev or_empty : Option Bytes → Bytes
or_empty none = []
or_empty (some path) = path

-- `cstr` refuses a zero byte.
abbrev hidden_stat : Calls → OvlNode → FsResult Stat
hidden_stat calls node =
    if all (λ c. not (c == 0)) (or_empty node.hidden_path)
    then calls.fstatat node.hidden_dirfd (or_empty node.hidden_path)
    else err einval

abbrev stat_in_layer : Calls → OvlLayer → OvlNode → Option ℕ → Bytes → FsResult Stat
stat_in_layer calls l node (some fd) path = l.ds.fstat fd path statx_basic_stats
stat_in_layer calls l node none path =
    if node.hidden
    then hidden_stat calls node
    else l.ds.statat path at_symlink_nofollow statx_basic_stats

-- The descriptor is `none` where the source has -1.
unfoldable pub do_stat_with_path : Calls → OverlayInner → OvlNode → Option ℕ → Bytes → FsResult Stat
do_stat_with_path calls s node fd path =
    layer s node.layer_idx >>= λ l. stat_in_layer calls l node fd path

abbrev handle_or : ℕ → ℕ → ℕ
handle_or kept fh = if fh == 0 then kept else fh

abbrev pub finish_ino : OverlayInner → OvlNode → OverlayConfig → ℕ → ℕ
finish_ino s node config ino =
    let number = compute_fuse_ino ino node.tmp_dev s.ino_passthrough in
    if config.ino_t_32 then number % 2 ^ 32 else number

abbrev pub handle_ino : OverlayInner → OvlNode → Bytes → OverlayConfig → FsResult OvlLayer → ℕ
handle_ino s node path config (err e) = node.tmp_ino
handle_ino s node path config (ok l) =
    finish_ino s node config (handle_or node.tmp_ino (l.ds.get_nfs_filehandle path))

unfoldable pub get_st_ino_with_path : OverlayInner → OvlNode → Bytes → OverlayConfig → ℕ
get_st_ino_with_path s node path config =
    if config.nfs_filehandles == 0
    then finish_ino s node config node.tmp_ino
    else handle_ino s node path config (layer s node.layer_idx)

abbrev or_stat : Stat → FsResult Stat → Stat
or_stat st (ok st') = st'
or_stat st (err e) = st

abbrev read_attribute : Calls → DataSource → Option ℕ → Bytes → Bytes → FsResult Bytes
read_attribute calls ds (some fd) path name = calls.fgetxattr fd name
read_attribute calls ds none path name = ds.getxattr path name 64

-- The first part of `rpl_stat_with_path`: the stat with the override applied; an override that fails
-- is passed over.
unfoldable pub host_stat : Calls → OverlayInner → OvlNode → Option ℕ → Bytes → FsResult Stat
host_stat calls s node fd path = do
  st ← do_stat_with_path calls s node fd path
  l ← layer s node.layer_idx
  ok (or_stat st (override_mode l.ds.stat_override_mode (read_attribute calls l.ds fd path) st))

abbrev is_dir_at : NodeArena → NodeId → Bool
is_dir_at a id = elim (get_node a id) [ none ↦ false | some n ↦ is_dir n ]

abbrev ids_of : Map Bytes NodeId → List NodeId
ids_of [] = []
ids_of ((name, id) ∷ kids) = id ∷ ids_of kids

abbrev or_no_children : Option (Map Bytes NodeId) → List NodeId
or_no_children none = []
or_no_children (some kids) = ids_of kids

-- The names of the file that are still in the arena, if there are any.
abbrev count_names : NodeArena → ℕ → Option OvlIno → ℕ
count_names a kept none = kept
count_names a kept (some o) =
    let count = length (retain (contains_node a) o.nodes) in if count == 0 then kept else count

unfoldable pub nlink_of : OverlayInner → OvlNode → OverlayConfig → ℕ → ℕ
nlink_of s node config kept =
    if is_loaded node && ltb 0 node.n_links
    then node.n_links
    else if is_dir node
    then if config.static_nlink
      then 1
      else 2 + length (retain (is_dir_at s.nodes) (or_no_children (children node)))
    else if node.tmp_ino == 0
    then kept
    else count_names s.nodes kept
        (get_by_key s.inodes (record { ino = node.tmp_ino; dev = node.tmp_dev }))

-- The second part: identifiers, inode number and link count.
unfoldable pub shown_stat : OverlayInner → OvlNode → OverlayConfig → Bytes → Stat → Stat
shown_stat s node config path st = record st {
  st_uid =
      find_mapping st.st_uid config.uid_mappings true config.squash_to_root config.squash_to_uid
        s.overflow.uid;
  st_gid =
      find_mapping st.st_gid config.gid_mappings true config.squash_to_root config.squash_to_gid
        s.overflow.gid;
  st_ino = get_st_ino_with_path s node path config;
  st_nlink = nlink_of s node config st.st_nlink;
}

unfoldable pub rpl_stat_with_path :
    Calls → OverlayInner → NodeId → Option ℕ → OverlayConfig → Bytes → FsResult Stat
rpl_stat_with_path calls s node_id fd config path = do
  node ← ok_or (get_node s.nodes node_id) enoent
  st ← host_stat calls s node fd path
  ok (shown_stat s node config path st)

abbrev path_of : OverlayInner → NodeId → OvlNode → Bytes
path_of s node_id node =
    if node.hidden then or_empty node.hidden_path else compute_path s.nodes node_id

unfoldable pub rpl_stat : Calls → OverlayInner → NodeId → Option ℕ → OverlayConfig → FsResult Stat
rpl_stat calls s node_id fd config = do
  node ← ok_or (get_node s.nodes node_id) enoent
  rpl_stat_with_path calls s node_id fd config (path_of s node_id node)

-- An identifier from the kernel, as it is written to disk.
unfoldable pub map_uid : OverlayInner → ℕ → OverlayConfig → ℕ
map_uid s id config =
    find_mapping id config.uid_mappings false config.squash_to_root config.squash_to_uid
      s.overflow.uid

unfoldable pub map_gid : OverlayInner → ℕ → OverlayConfig → ℕ
map_gid s id config =
    find_mapping id config.gid_mappings false config.squash_to_root config.squash_to_gid
      s.overflow.gid
