-- ===== src/Overlay/Serve.antt =====
-- The FUSE handlers `lookup` and `forget` of src/overlay.rs, and the state that `OverlayFs::new`
-- makes. The lock is not modelled: each handler is one step, and `lookup` with its fast path too.
pub mod Known
pub mod Reached
pub mod Paths
use fuse_overlayfs.Base.{
  ℕ, Bool, true, false, not, ◌&&◌, ◌||◌, Option, none, some, List, [], ◌∷◌, ok, err, FsResult,
  ok_or, ◌==◌, if◌then◌else◌, starts_with, contains, nat_key, is_some, enoent, eio, enomem,
}
use fuse_overlayfs.Config.{OverlayConfig}
use fuse_overlayfs.Datasource.{Bytes, Stat}
use fuse_overlayfs.Layer.{OvlLayer, all_same_device}
use fuse_overlayfs.Mapping.{OverflowIds}
use fuse_overlayfs.Node.{
  NodeId, OvlNode, empty_arena, new_node, insert_node, get_node, contains_node, is_dir,
}
use fuse_overlayfs.Node.Path.{compute_path}
use fuse_overlayfs.Node.Inodes.{
  InodeKey, InodeTable, OvlIno, empty_table, set_same_device, get_by_key, key_to_fuse_ino, register,
  inc_lookup, forget,
}
use fuse_overlayfs.Overlay.{OverlayInner, child_of, whiteout_in, lookup_node_id, wh_prefix}
use fuse_overlayfs.Overlay.Lookup.{do_lookup_file, reload_dir}
use fuse_overlayfs.Overlay.Attr.{Calls, rpl_stat, rpl_stat_with_path}

-- What the kernel is sent: an errno, or an inode number with the attributes of a stat.
pub data Reply : Type 0 where
  error : ℕ → Reply
  entry : ℕ → Stat → Reply

abbrev pub Answer : Type 0
Answer = OverlayInner × Reply

-- `OverlayFs::new`. The overflow identifiers, and whether the environment allows device nodes as
-- whiteouts, are arguments.
unfoldable pub new_overlay : List OvlLayer → ℕ → OverflowIds → Bool → OverlayInner
new_overlay layers workdir_fd overflow can_mknod =
    let (nodes, root_id) = insert_node empty_arena (new_node [] 0 0 0 true) in
    record {
      layers = layers;
      inodes = set_same_device empty_table (all_same_device layers);
      nodes = nodes;
      root_id = root_id;
      workdir_fd = workdir_fd;
      ino_passthrough = all_same_device layers;
      overflow = overflow;
      wd_counter = 1;
      can_mknod = can_mknod;
    }

abbrev pub key_of : OvlNode → InodeKey
key_of node = record { ino = node.tmp_ino; dev = node.tmp_dev }

abbrev pub holds : NodeId → Option OvlIno → Bool
holds id none = false
holds id (some o) = contains id o.nodes

-- A child that is registered is answered at once. `none` leaves the answer to the slow path.
unfoldable pub fast_child : Calls → OverlayInner → NodeId → OvlNode → OverlayConfig → Option Answer
fast_child calls s child_id node config = elim (key_to_fuse_ino s.inodes (key_of node)) [
  | none ↦ none
  | some fuse_ino ↦
      if holds child_id (get_by_key s.inodes (key_of node))
      then elim (rpl_stat_with_path calls s child_id none config (compute_path s.nodes child_id)) [
        | err e ↦ none
        | ok st ↦ some (record s { inodes = inc_lookup s.inodes (key_of node) }, entry fuse_ino st)
      ]
      else none
]

-- The part of `lookup` under the read lock.
unfoldable pub fast_lookup : Calls → OverlayInner → ℕ → Bytes → OverlayConfig → Option Answer
fast_lookup calls s parent name config = elim (lookup_node_id s parent) [
  | none ↦ none
  | some parent_id ↦
      if whiteout_in s.nodes parent_id name
      then some (s, error enoent)
      else elim (child_of s.nodes parent_id name) [
        | none ↦ none
        | some child_id ↦ elim (get_node s.nodes child_id) [
          | none ↦ some (s, error enoent)
          | some node ↦
              if node.hidden
              then some (s, error enoent)
              else fast_child calls s child_id node config
        ]
      ]
]

abbrev pub registered : OverlayInner → OvlNode → Stat → Option (InodeTable × ℕ) → Answer
registered s node st none = (s, error enomem)
registered s node st (some (t, fuse_ino)) =
    (record s { inodes = inc_lookup t (key_of node) }, entry fuse_ino st)

-- The answer for a node with its stat. Only a node with an inode number, or a directory, is
-- registered; another one gets the root's number.
unfoldable pub finish_lookup : OverlayInner → NodeId → Stat → Answer
finish_lookup s node_id st = elim (get_node s.nodes node_id) [
  | none ↦ (s, error enoent)
  | some node ↦
      if not (node.tmp_ino == 0) || is_dir node
      then registered s node st
          (register s.inodes s.nodes node_id node.tmp_ino node.tmp_dev st.st_mode)
      else (s, entry 1 st)
]

abbrev is_dir_there : Option OvlNode → Bool
is_dir_there none = false
is_dir_there (some n) = is_dir n

-- A directory is loaded first, unless its link count is not to be known.
unfoldable pub refresh_dir : OverlayInner → NodeId → OverlayConfig → OverlayInner × Bool
refresh_dir s node_id config =
    if not config.static_nlink && is_dir_there (get_node s.nodes node_id)
    then reload_dir s node_id config.fast_ino_check
    else (s, true)

abbrev pub stat_answer : OverlayInner → NodeId → FsResult Stat → Answer
stat_answer s node_id (err e) = (s, error e)
stat_answer s node_id (ok st) = finish_lookup s node_id st

abbrev pub after_refresh : Calls → NodeId → OverlayConfig → OverlayInner × Bool → Answer
after_refresh calls node_id config (s, false) = (s, error eio)
after_refresh calls node_id config (s, true) =
    stat_answer s node_id (rpl_stat calls s node_id none config)

abbrev pub after_lookup : Calls → OverlayConfig → OverlayInner × Option NodeId → Answer
after_lookup calls config (s, none) = (s, error enoent)
after_lookup calls config (s, some node_id) =
    if contains_node s.nodes node_id
    then after_refresh calls node_id config (refresh_dir s node_id config)
    else (s, error enoent)

-- The part of `lookup` under the write lock.
unfoldable pub slow_lookup : Calls → OverlayInner → ℕ → Bytes → OverlayConfig → Answer
slow_lookup calls s parent name config =
    after_lookup calls config (do_lookup_file s parent (some name))

unfoldable pub lookup : Calls → OverlayInner → ℕ → Bytes → OverlayConfig → Answer
lookup calls s parent name config =
    if starts_with name wh_prefix
    then (s, error enoent)
    else elim (fast_lookup calls s parent name config) [
      | some answer ↦ answer
      | none ↦ slow_lookup calls s parent name config
    ]

-- The handler `forget`.
unfoldable pub forget_handler : OverlayInner → ℕ → ℕ → OverlayInner
forget_handler s ino nlookup = record s { inodes = (forget s.inodes ino nlookup).0 }
