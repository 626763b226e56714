-- ===== src/Tests/Calls.antt =====
-- A look-up of "c" and a forget, from the start, over the layers of Tests/Directories.antt.
use fuse_overlayfs.Base.{
  ◌≡◌, refl, Option, some, [], ◌∷◌, codes, false, true, nat_key, bytes_key, contains, bytes_eq,
}
use fuse_overlayfs.Base.Map
use fuse_overlayfs.Base.Text.{join}
use fuse_overlayfs.Datasource.{Stat}
use fuse_overlayfs.Node.{OvlNode, new_node, dir, get_node, get_child, is_dir, is_loaded}
use fuse_overlayfs.Node.Path.{compute_path, walk_up}
use fuse_overlayfs.Node.Inodes.{
  InodeKey, inode_key, empty_table, key_to_fuse_ino, get_by_key, inc_lookup,
}
use fuse_overlayfs.Node.Inodes.Invariant.{empty_table-IsConsistent}
use fuse_overlayfs.Overlay.{OverlayInner, lookup_node_id, child_of, layer}
use fuse_overlayfs.Overlay.Override.{override_mode}
use fuse_overlayfs.Overlay.Attr.{shown_stat, host_stat, do_stat_with_path, rpl_stat_with_path}
use fuse_overlayfs.Overlay.Serve.{Answer, entry, lookup, slow_lookup, fast_child, new_overlay}
use fuse_overlayfs.Overlay.Serve.Paths.{slow_lookup-fast_child}
use fuse_overlayfs.Overlay.Serve.Known.{IsGood, lookup-IsGood}
use fuse_overlayfs.Tests.Directories.{state, two_layers, stat_of}
use fuse_overlayfs.Tests.Stats.{calls, config}

lookup-IsGood_example :
    IsGood (lookup calls state 1 (codes "c") config).0 (lookup calls state 1 (codes "c") config).1
lookup-IsGood_example = lookup-IsGood calls state 1 (codes "c") config empty_table-IsConsistent

abbrev first_state : OverlayInner
first_state = new_overlay two_layers 4 (record { uid = 65534; gid = 65534 }) true

abbrev second_state : OverlayInner
second_state = (lookup calls first_state 1 (codes "c") config).0

-- A state in which the file "b" is loaded and registered.
abbrev node_b : OvlNode
node_b = record (new_node (codes "b") 0 11 7 false) { parent = some 1 }

abbrev key_b : InodeKey
key_b = record { ino = 11; dev = 7 }

abbrev pub loaded_state : OverlayInner
loaded_state = record state {
  nodes = record {
    map =
        (1, record (new_node [] 0 0 0 true) { dir_state = dir ((codes "b", 2) ∷ []) [] true })
        ∷ (2, node_b)
        ∷ [];
    next_id = 3;
    stat_nodes = 2;
  };
  inodes = record empty_table {
    table = (key_b, record { nodes = 2 ∷ []; lookups = 1; mode = 0o100644; fuse_ino = 11 }) ∷ [];
    fuse_map = (11, key_b) ∷ [];
  };
}

abbrev stat_b : Stat
stat_b = shown_stat loaded_state node_b config (codes "b") (stat_of 0o100644)

fast_run :
    ◌≡◌ {A = Option Answer} (fast_child calls loaded_state 2 node_b config) (
      some (record loaded_state { inodes = inc_lookup loaded_state.inodes key_b }, entry 11 stat_b))
unfolding fast_child key_to_fuse_ino get_by_key Map.get new_node contains rpl_stat_with_path
    host_stat do_stat_with_path layer override_mode get_node compute_path walk_up join bytes_eq
fast_run = refl

slow_lookup-fast_child_example :
    (slow_lookup calls loaded_state 1 (codes "b") config).1 ≡ entry 11 stat_b
unfolding lookup_node_id child_of get_node Map.get get_child new_node bytes_eq is_dir is_loaded
slow_lookup-fast_child_example =
    slow_lookup-fast_child calls loaded_state 1 (codes "b") config 1 2 node_b
      (record loaded_state { inodes = inc_lookup loaded_state.inodes key_b }) 11 stat_b refl refl
      refl refl refl refl fast_run
