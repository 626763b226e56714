-- ===== src/Tests/Directories.antt =====
-- A root directory over two layers: the upper one has "b" and a whiteout file for "a", the lower one
-- has "a", "b" and "c".
use fuse_overlayfs.Base.{
  ℕ, ◌≡◌, refl, Bool, true, false, some, List, [], ◌∷◌, arith, ok, err, FsResult, if◌then◌else◌,
  codes, bytes_eq, any, all, find, starts_with, starts_with, enoent, enodata, nat_key, bytes_key,
  contains,
}
use fuse_overlayfs.Base.Map
use fuse_overlayfs.Datasource.{Bytes, no_override, Stat, DirEntry, DataSource}
use fuse_overlayfs.Layer.{OvlLayer}
use fuse_overlayfs.Whiteout.{is_directory_opaque}
use fuse_overlayfs.Node.{
  OvlNode, NodeArena, new_node, s_ifdir, is_dir, is_whiteout, get_child, is_loaded, get_node,
  update_node, mark_loaded, insert_node, contains_node,
}
use fuse_overlayfs.Node.Children.{map_option}
use fuse_overlayfs.Node.Path.{compute_path, walk_up, child_path}
use fuse_overlayfs.Node.Inodes.{empty_table}
use fuse_overlayfs.Overlay.{
  OverlayInner, child_of, whiteout_in, is_wh_file, wh_prefix_name, is_chardev_whiteout,
}
use fuse_overlayfs.Overlay.Load.{
  layer_dir, is_chardev_entry, load_entries, load_layers, load_dir_arena, load_dir_impl,
}
use fuse_overlayfs.Overlay.Load.Writes.{DirAt}
use fuse_overlayfs.Overlay.Load.Fate.{undecided, hidden, shown, fate, IsPlain, IsClear}
use fuse_overlayfs.Overlay.Load.Entries.{listed_fate, or_else}
use fuse_overlayfs.Overlay.Load.View.{AreCoherent, merged_fate, load_dir_arena-merged_fate}
use fuse_overlayfs.Overlay.Lookup.{lazy_loop, lazy_first, insert_found, found_node, do_lazy_lookup}
use fuse_overlayfs.Overlay.Lookup.Agree.{LooksUp}
use fuse_overlayfs.Overlay.Lookup.Linked.{do_lazy_lookup-child_of}
use fuse_overlayfs.Overlay.Lookup.Insert.{
  answer, do_lazy_lookup-merged_fate, do_lazy_lookup-load_dir_impl,
}

abbrev pub stat_of : ℕ → Stat
stat_of mode = record {
  st_dev = 7;
  st_ino = 11;
  st_mode = mode;
  st_nlink = 1;
  st_uid = 0;
  st_gid = 0;
  st_rdev = record { major = 0; minor = 0 };
  st_size = 0;
  st_blksize = 4096;
  st_blocks = 0;
  st_atime = 0;
  st_atime_nsec = 0;
  st_mtime = 0;
  st_mtime_nsec = 0;
}

abbrev file : Bytes → DirEntry
file name = record { name = name; ino = 11; dtype = 8 }

abbrev listed : List DirEntry → Bytes → Bool
listed [] path = false
listed (e ∷ es) path = if bytes_eq e.name path then true else listed es path

abbrev stat_in : List DirEntry → Bytes → FsResult Stat
stat_in es path =
    if bytes_eq path (codes ".")
    then ok (stat_of s_ifdir)
    else if listed es path
    then ok (stat_of 0o100644)
    else err enoent

-- A layer with these files in its root directory.
abbrev flat : List DirEntry → DataSource
flat es = record {
  file_exists = λ path. ok (listed es path);
  statat = λ path flags mask. stat_in es path;
  fstat = λ fd path mask. stat_in es path;
  opendir = λ path. ok es;
  getxattr = λ path name size. err enodata;
  readlinkat = λ path. err enoent;
  get_nfs_filehandle = λ path. 0;
  root_fd = 3;
  st_dev = 7;
  stat_override_mode = no_override;
}

abbrev upper_entries : List DirEntry
upper_entries = file (codes ".wh.a") ∷ file (codes "b") ∷ []

abbrev lower_entries : List DirEntry
lower_entries = file (codes "a") ∷ file (codes "b") ∷ file (codes "c") ∷ []

abbrev pub two_layers : List OvlLayer
two_layers =
    record { ds = flat upper_entries; low = false }
    ∷ record { ds = flat lower_entries; low = true }
    ∷ []

abbrev pub root : OvlNode
root = record (new_node [] 0 1 7 true) { last_layer_idx = 1 }

abbrev arena : NodeArena
arena = record { map = (1, root) ∷ []; next_id = 2; stat_nodes = 1 }

abbrev pub state : OverlayInner
state = record {
  layers = two_layers;
  inodes = empty_table;
  nodes = arena;
  root_id = 1;
  workdir_fd = 4;
  ino_passthrough = false;
  overflow = record { uid = 65534; gid = 65534 };
  wd_counter = 1;
  can_mknod = true;
}

root-DirAt : DirAt arena 1 5
unfolding get_node Map.get new_node is_dir
root-DirAt = record {
  node = root;
  at = refl;
  directory = refl;
  below = ground arith;
  room = ground arith;
}

a-IsPlain : IsPlain (codes "a")
unfolding starts_with bytes_eq
a-IsPlain = record { not_special = refl; not_wh = refl }

a-IsClear : IsClear arena 1 (codes "a")
unfolding child_of whiteout_in get_node Map.get new_node get_child is_whiteout contains
a-IsClear = record { no_child = refl; no_whiteout = refl }

a-AreCoherent : AreCoherent (codes ".") (codes "a") two_layers
unfolding layer_dir is_wh_file bytes_eq any all
a-AreCoherent = ((refl, refl, refl), ((refl, refl, refl), tt))

a_is_hidden : merged_fate (some 1) (codes ".") (codes "a") 0 two_layers ≡ hidden
unfolding merged_fate layer_dir listed_fate is_wh_file bytes_eq any all find
a_is_hidden = refl

root_path : compute_path arena 1 ≡ codes "."
unfolding compute_path walk_up Map.get new_node
root_path = refl

a-LooksUp : LooksUp 1 (compute_path arena 1) (codes "a") 0 two_layers
unfolding compute_path walk_up Map.get new_node layer_dir is_wh_file bytes_eq any all find
    is_directory_opaque child_path is_chardev_entry is_chardev_whiteout
a-LooksUp = ((refl, refl, refl), (λ h. cc), ((file (codes "a"), refl, refl, refl), (λ h. refl), tt))

at_compute_path-AreCoherent : AreCoherent (compute_path arena 1) (codes "a") two_layers
unfolding compute_path walk_up Map.get new_node
at_compute_path-AreCoherent = a-AreCoherent

load_dir_arena-merged_fate_example :
    (fate (load_dir_arena two_layers 1 (codes ".") (some 1) false arena) 1 (codes "a")
      ≡ or_else
          (fate arena 1 (codes "a"))
          (merged_fate (some 1) (codes ".") (codes "a") 0 two_layers))
    × (map_option is_loaded
          (get_node (load_dir_arena two_layers 1 (codes ".") (some 1) false arena) 1)
        ≡ some true)
unfolding layer_dir bytes_eq
load_dir_arena-merged_fate_example =
    load_dir_arena-merged_fate two_layers 1 (codes ".") (codes "a") (some 1) false arena a-IsPlain
      root-DirAt a-IsClear a-AreCoherent

do_lazy_lookup-merged_fate_example :
    answer 1 (codes "a") (do_lazy_lookup state 1 (codes "a"))
    ≡ merged_fate (some 1) (compute_path arena 1) (codes "a") 0 two_layers
unfolding whiteout_in get_node Map.get new_node is_whiteout contains root-DirAt
do_lazy_lookup-merged_fate_example =
    do_lazy_lookup-merged_fate state 1 (codes "a") root-DirAt a-IsPlain refl a-LooksUp

do_lazy_lookup-load_dir_impl_example :
    answer 1 (codes "a") (do_lazy_lookup state 1 (codes "a"))
    ≡ fate (load_dir_impl state 1 (compute_path arena 1) (some 1) false).nodes 1 (codes "a")
unfolding fate child_of whiteout_in get_node Map.get new_node get_child is_whiteout contains
    root-DirAt layer_dir compute_path walk_up
do_lazy_lookup-load_dir_impl_example =
    do_lazy_lookup-load_dir_impl state 1 (codes "a") root-DirAt a-IsPlain false refl a-IsClear
      a-LooksUp at_compute_path-AreCoherent (ground arith)

-- A directory that is opaque in the upper layer and ends there: loading it does not show the lower
-- layer's "c", looking "c" up does.
abbrev opaque_state : OverlayInner
opaque_state = record state {
  layers =
      record { ds = record (flat []) { getxattr = λ path name size. ok (codes "y") }; low = false }
      ∷ record { ds = flat lower_entries; low = true }
      ∷ [];
  nodes = record {
    map = (1, record root { last_layer_idx = 0 }) ∷ [];
    next_id = 2;
    stat_nodes = 1;
  };
}

opaque_load :
    fate (load_dir_impl opaque_state 1 (codes ".") (some 0) false).nodes 1 (codes "c") ≡ undecided
unfolding fate child_of whiteout_in get_node Map.get new_node get_child is_whiteout contains
    layer_dir load_dir_impl load_dir_arena load_layers load_entries is_directory_opaque bytes_eq
    update_node mark_loaded Map.insert
opaque_load = refl

opaque_lookup : answer 1 (codes "c") (do_lazy_lookup opaque_state 1 (codes "c")) ≡ shown
unfolding do_lazy_lookup lazy_loop lazy_first insert_found found_node compute_path walk_up get_node
    Map.get Map.insert new_node insert_node update_node contains_node bytes_eq is_wh_file
    wh_prefix_name is_chardev_whiteout child_path starts_with
opaque_lookup = refl

c_found : (do_lazy_lookup state 1 (codes "c")).1 ≡ some 2
unfolding do_lazy_lookup lazy_loop lazy_first insert_found found_node compute_path walk_up get_node
    Map.get Map.insert new_node insert_node update_node contains_node bytes_eq is_wh_file
    wh_prefix_name is_chardev_whiteout child_path starts_with
c_found = refl

do_lazy_lookup-child_of_example :
    child_of (do_lazy_lookup state 1 (codes "c")).0.nodes 1 (codes "c") ≡ some 2
do_lazy_lookup-child_of_example = do_lazy_lookup-child_of state 1 (codes "c") 4 2 root-DirAt c_found
