-- ===== src/Overlay/Query.antt =====
-- The handlers of src/overlay.rs that read: `getattr`, `readlink`, and `opendir` with
-- `build_dir_entries`. A descriptor is none of their arguments, so the calls on one are not made.
use Prim.Native.Nat.{compare, Ordering}
use fuse_overlayfs.Base.{
  ℕ, Bool, true, false, Option, none, some, List, [], ◌∷◌, ◌++◌, ok, err, FsResult, ◌>>=◌, ok_or,
  ◌==◌, if◌then◌else◌, codes, enoent, enotdir,
}
use fuse_overlayfs.Base.Map.{Map}
use fuse_overlayfs.Config.{OverlayConfig}
use fuse_overlayfs.Datasource.{Bytes, Stat}
use fuse_overlayfs.Layer.{OvlLayer}
use fuse_overlayfs.Node.{
  NodeId, OvlNode, s_ifdir, get_node, contains_node, children, is_dir, is_loaded,
}
use fuse_overlayfs.Node.Path.{compute_path, child_path}
use fuse_overlayfs.Overlay.{OverlayInner, layer, lookup_node_id}
use fuse_overlayfs.Overlay.Attr.{Calls, get_st_ino_with_path, rpl_stat, rpl_stat_with_path}
use fuse_overlayfs.Overlay.Lookup.{ensure_root_loaded, reload_dir}

-- `DirEntry` of src/overlay.rs; the attributes are those of a stat.
pub record Entry : Type 0 where
  pub name : Bytes
  pub ino : ℕ
  pub mode : ℕ
  pub attr : Option Stat
  pub node_id : Option NodeId

-- `Ord` of byte strings.
unfoldable pub bytes_le : Bytes → Bytes → Bool
bytes_le [] ys = true
bytes_le (x ∷ xs) [] = false
bytes_le (x ∷ xs) (y ∷ ys) = elim (compare x y) [
  | Ordering.lt ↦ true
  | Ordering.eq ↦ bytes_le xs ys
  | Ordering.gt ↦ false
]

-- Sorting by the name; no two children have one name.
unfoldable pub insert_sorted : Bytes × NodeId → List (Bytes × NodeId) → List (Bytes × NodeId)
insert_sorted c [] = c ∷ []
insert_sorted c (d ∷ ds) =
    let rest = insert_sorted c ds in if bytes_le c.0 d.0 then c ∷ d ∷ ds else d ∷ rest

unfoldable pub sort_children : List (Bytes × NodeId) → List (Bytes × NodeId)
sort_children [] = []
sort_children (c ∷ cs) = insert_sorted c (sort_children cs)

abbrev ok_stat : FsResult Stat → Option Stat
ok_stat (ok st) = some st
ok_stat (err e) = none

abbrev pub children_or_none : Option (Map Bytes NodeId) → List (Bytes × NodeId)
children_or_none none = []
children_or_none (some kids) = kids

-- The number and the attributes of a node that is shown under a path.
abbrev numbered : Calls → OverlayInner → OverlayConfig → NodeId → OvlNode → Bytes → ℕ × Option Stat
numbered calls s config id node path = (
  get_st_ino_with_path s node path config,
  ok_stat (rpl_stat_with_path calls s id none config path),
)

-- A directory without a parent stands for its own parent.
abbrev parent_numbers :
    Calls → OverlayInner → OverlayConfig → ℕ × Option Stat → Option NodeId → ℕ × Option Stat
parent_numbers calls s config self none = self
parent_numbers calls s config self (some pid) = elim (get_node s.nodes pid) [
  | none ↦ self
  | some parent ↦ numbered calls s config pid parent (compute_path s.nodes pid)
]

abbrev entry_of : Bytes → ℕ × Option Stat → ℕ → Option NodeId → Entry
entry_of name (ino, attr) mode id = record {
  name = name;
  ino = ino;
  mode = mode;
  attr = attr;
  node_id = id;
}

abbrev child_entry : Calls → OverlayInner → OverlayConfig → Bytes → Bytes × NodeId → List Entry
child_entry calls s config dir_path (name, id) = elim (get_node s.nodes id) [
  | none ↦ []
  | some child ↦
      if child.hidden
      then []
      else entry_of name (numbered calls s config id child (child_path dir_path child.name))
          child.mode (some id)
        ∷ []
]

unfoldable pub child_entries :
    Calls → OverlayInner → OverlayConfig → Bytes → List (Bytes × NodeId) → List Entry
child_entries calls s config dir_path [] = []
child_entries calls s config dir_path (c ∷ cs) =
    child_entry calls s config dir_path c ++ child_entries calls s config dir_path cs

-- The entries of a directory that is loaded.
unfoldable pub entries_of : Calls → OverlayInner → OverlayConfig → NodeId → OvlNode → List Entry
entries_of calls s config id node =
    let dir_path = compute_path s.nodes id in
    let self = numbered calls s config id node dir_path in
    entry_of (codes ".") self s_ifdir (some id)
    ∷ entry_of (codes "..") (parent_numbers calls s config self node.parent) s_ifdir node.parent
    ∷ child_entries calls s config dir_path (sort_children (children_or_none (children node)))

unfoldable pub build_dir_entries :
    Calls → OverlayInner → NodeId → OverlayConfig → OverlayInner × List Entry
build_dir_entries calls s id config =
    let s' = (reload_dir s id config.fast_ino_check).0 in
    (s', elim (get_node s'.nodes id) [ none ↦ [] | some node ↦ entries_of calls s' config id node ])

abbrev pub load_root_if : OverlayInner → ℕ → OverlayConfig → OverlayInner
load_root_if s ino config = if ino == 1 then ensure_root_loaded s config.fast_ino_check else s

abbrev pub loaded_or_missing : Option OvlNode → Bool
loaded_or_missing none = true
loaded_or_missing (some n) = is_loaded n

abbrev pub entries_if_dir :
    Calls → OverlayInner → NodeId → OverlayConfig → OverlayInner × FsResult (List Entry)
entries_if_dir calls s id config =
    let s' =
      if loaded_or_missing (get_node s.nodes id)
      then s
      else (reload_dir s id config.fast_ino_check).0 in
    let (s'', entries) = build_dir_entries calls s' id config in (s'', ok entries)

abbrev pub is_dir_there : Option OvlNode → Bool
is_dir_there none = false
is_dir_there (some n) = is_dir n

abbrev pub open_node :
    Calls → OverlayConfig → OverlayInner → Option NodeId → OverlayInner × FsResult (List Entry)
open_node calls config s none = (s, err enoent)
open_node calls config s (some id) =
    if is_dir_there (get_node s.nodes id)
    then entries_if_dir calls s id config
    else (s, err enotdir)

-- The entries that a later `readdir` gives from the handle.
unfoldable pub opendir :
    Calls → OverlayInner → ℕ → OverlayConfig → OverlayInner × FsResult (List Entry)
opendir calls s ino config =
    let s' = load_root_if s ino config in open_node calls config s' (lookup_node_id s' ino)

-- `resolve_node`
unfoldable pub resolve_node : OverlayInner → ℕ → FsResult NodeId
resolve_node s ino = elim (lookup_node_id s ino) [
  | none ↦ err enoent
  | some id ↦ if contains_node s.nodes id then ok id else err enoent
]

unfoldable pub getattr : Calls → OverlayInner → ℕ → OverlayConfig → OverlayInner × FsResult Stat
getattr calls s ino config =
    let s' = ensure_root_loaded s config.fast_ino_check in
    if ino == 1
    then (s', rpl_stat calls s' s'.root_id none config)
    else (s, resolve_node s ino >>= λ id. rpl_stat calls s id none config)

-- `node_and_layer`
unfoldable pub node_and_layer : OverlayInner → NodeId → FsResult (OvlNode × OvlLayer)
node_and_layer s id = do
  node ← ok_or (get_node s.nodes id) enoent
  l ← layer s node.layer_idx
  ok (node, l)

unfoldable pub readlink : OverlayInner → ℕ → FsResult Bytes
readlink s ino = do
  id ← ok_or (lookup_node_id s ino) enoent
  found ← node_and_layer s id
  found.1.ds.readlinkat (compute_path s.nodes id)
