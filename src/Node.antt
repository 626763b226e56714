-- ===== src/Node.antt =====
-- src/node.rs: the nodes of the overlay tree and the arena that owns them.
-- The atomic counter STAT_NODES is a field of the arena, of which the program has one. A file
-- descriptor is an `i32`, given by its bit pattern: -1 is 2 ^ 32 - 1.
pub mod Children
pub mod Hash
pub mod Path
pub mod Inodes
use fuse_overlayfs.Base.{
  ℕ, ◌+◌, ◌-◌, ◌%◌, ◌^◌, Bool, true, false, not, Option, none, some, List, [], ◌∷◌, ◌++◌,
  if◌then◌else◌, bytes_key, nat_key, contains, set_insert, is_some, all, ◌==◌, bytes_eq, same, ltb,
}
use fuse_overlayfs.Base.Map
use fuse_overlayfs.Base.Map.{Map}
use fuse_overlayfs.Base.Text.{u32_mod}
use fuse_overlayfs.Datasource.{Bytes}
use fuse_overlayfs.Node.Hash.{fnv1a_name_hash}

abbrev pub NodeId : Type 0
NodeId = ℕ

abbrev pub u64_mod : ℕ
u64_mod = 2 ^ 64

-- File types and modes (`libc::S_IF*`).
abbrev pub s_ifmt : ℕ
s_ifmt = 0o170000

abbrev pub s_ifdir : ℕ
s_ifdir = 0o040000

-- `dir children whiteouts loaded`
pub data DirState : Type 0 where
  not_a_dir : DirState
  dir : Map Bytes NodeId → List Bytes → Bool → DirState

pub record OvlNode : Type 0 where
  pub parent : Option NodeId
  pub dir_state : DirState
  pub layer_idx : ℕ
  pub last_layer_idx : ℕ
  pub tmp_ino : ℕ
  pub tmp_dev : ℕ
  pub name : Bytes
  pub hidden_path : Option Bytes
  pub hidden_dirfd : ℕ
  pub name_hash : ℕ
  pub n_links : ℕ
  pub mode : ℕ
  pub do_unlink : Bool
  pub do_rmdir : Bool
  pub hidden : Bool

-- `OvlNode::new(name, layer_idx, ino, dev, is_dir)`
unfoldable pub new_node : Bytes → ℕ → ℕ → ℕ → Bool → OvlNode
new_node name layer_idx ino dev is_dir = record {
  parent = none;
  dir_state = if is_dir then dir [] [] false else not_a_dir;
  layer_idx = layer_idx;
  last_layer_idx = layer_idx;
  tmp_ino = ino;
  tmp_dev = dev;
  name = name;
  hidden_path = none;
  hidden_dirfd = u32_mod - 1;
  name_hash = fnv1a_name_hash name;
  n_links = 0;
  mode = if is_dir then s_ifdir else 0;
  do_unlink = false;
  do_rmdir = false;
  hidden = false;
}

abbrev pub state_is_dir : DirState → Bool
state_is_dir not_a_dir = false
state_is_dir (dir kids whiteouts loaded) = true

unfoldable pub is_dir : OvlNode → Bool
is_dir n = state_is_dir n.dir_state

abbrev pub state_is_loaded : DirState → Bool
state_is_loaded not_a_dir = false
state_is_loaded (dir kids whiteouts loaded) = loaded

unfoldable pub is_loaded : OvlNode → Bool
is_loaded n = state_is_loaded n.dir_state

abbrev pub state_set_loaded : Bool → DirState → DirState
state_set_loaded b not_a_dir = not_a_dir
state_set_loaded b (dir kids whiteouts loaded) = dir kids whiteouts b

unfoldable pub mark_loaded : OvlNode → OvlNode
mark_loaded n = record n { dir_state = state_set_loaded true n.dir_state }

unfoldable pub mark_unloaded : OvlNode → OvlNode
mark_unloaded n = record n { dir_state = state_set_loaded false n.dir_state }

-- `children`: the map of a directory.
abbrev state_children : DirState → Option (Map Bytes NodeId)
state_children not_a_dir = none
state_children (dir kids whiteouts loaded) = some kids

unfoldable pub children : OvlNode → Option (Map Bytes NodeId)
children n = state_children n.dir_state

abbrev pub state_get_child : Bytes → DirState → Option NodeId
state_get_child name not_a_dir = none
state_get_child name (dir kids whiteouts loaded) = Map.get name kids

unfoldable pub get_child : OvlNode → Bytes → Option NodeId
get_child n name = state_get_child name n.dir_state

-- `HashSet::remove`
unfoldable pub set_remove : Bytes → List Bytes → List Bytes
set_remove name [] = []
set_remove name (w ∷ ws) =
    let rest = set_remove name ws in if bytes_eq w name then rest else w ∷ rest

abbrev pub state_insert_child : Bytes → NodeId → DirState → DirState
state_insert_child name id not_a_dir = not_a_dir
state_insert_child name id (dir kids whiteouts loaded) =
    dir (Map.insert name id kids) (set_remove name whiteouts) loaded

-- The child that had the name before, and the new node.
unfoldable pub insert_child : OvlNode → Bytes → NodeId → Option NodeId × OvlNode
insert_child n name id = (
  state_get_child name n.dir_state,
  record n { dir_state = state_insert_child name id n.dir_state },
)

abbrev pub state_remove_child : Bytes → DirState → DirState
state_remove_child name not_a_dir = not_a_dir
state_remove_child name (dir kids whiteouts loaded) = dir (Map.remove name kids) whiteouts loaded

-- The child that is removed, and the new node.
unfoldable pub remove_child : OvlNode → Bytes → Option NodeId × OvlNode
remove_child n name =
    (state_get_child name n.dir_state, record n { dir_state = state_remove_child name n.dir_state })

abbrev pub state_is_whiteout : Bytes → DirState → Bool
state_is_whiteout name not_a_dir = false
state_is_whiteout name (dir kids whiteouts loaded) = contains name whiteouts

unfoldable pub is_whiteout : OvlNode → Bytes → Bool
is_whiteout n name = state_is_whiteout name n.dir_state

abbrev state_insert_whiteout : Bytes → DirState → DirState
state_insert_whiteout name not_a_dir = not_a_dir
state_insert_whiteout name (dir kids whiteouts loaded) = dir kids (set_insert name whiteouts) loaded

unfoldable pub insert_whiteout : OvlNode → Bytes → OvlNode
insert_whiteout n name = record n { dir_state = state_insert_whiteout name n.dir_state }

abbrev state_clear : DirState → DirState
state_clear not_a_dir = not_a_dir
state_clear (dir kids whiteouts loaded) = dir [] [] loaded

unfoldable pub clear_children : OvlNode → OvlNode
clear_children n = record n { dir_state = state_clear n.dir_state }

-- A call of `unlinkat` on a name in the work directory: the descriptor, the name, and whether
-- AT_REMOVEDIR is given.
pub record Unlink : Type 0 where
  pub dirfd : ℕ
  pub path : Bytes
  pub removedir : Bool

abbrev unlink_if : Bool → ℕ → Bytes → Bool → List Unlink
unlink_if true dirfd path removedir =
    record { dirfd = dirfd; path = path; removedir = removedir } ∷ []
unlink_if false dirfd path removedir = []

-- `Drop for OvlNode`: the calls made when a node is dropped. A name with a zero byte makes none.
unfoldable pub drop_node : OvlNode → List Unlink
drop_node n = elim n.hidden_path [
  | none ↦ []
  | some path ↦
      if all (λ c. not (c == 0)) path
      then unlink_if n.do_unlink n.hidden_dirfd path false
        ++ unlink_if n.do_rmdir n.hidden_dirfd path true
      else []
]

pub record NodeArena : Type 0 where
  pub map : Map NodeId OvlNode
  pub next_id : ℕ
  pub stat_nodes : ℕ

abbrev pub empty_arena : NodeArena
empty_arena = record { map = []; next_id = 1; stat_nodes = 0 }

-- The new arena, and the node's identifier.
unfoldable pub insert_node : NodeArena → OvlNode → NodeArena × NodeId
insert_node a node = (
  record {
    map = Map.insert a.next_id node a.map;
    next_id = (a.next_id + 1) % u64_mod;
    stat_nodes = (a.stat_nodes + 1) % u64_mod;
  },
  a.next_id,
)

unfoldable pub get_node : NodeArena → NodeId → Option OvlNode
get_node a id = Map.get id a.map

abbrev update_entry : (OvlNode → OvlNode) → NodeId → Option OvlNode → NodeArena → NodeArena
update_entry f id none a = a
update_entry f id (some n) a = record a { map = Map.insert id (f n) a.map }

-- A write through `get_mut`: it does nothing where the node is missing.
unfoldable pub update_node : NodeArena → NodeId → (OvlNode → OvlNode) → NodeArena
update_node a id f = update_entry f id (Map.get id a.map) a

unfoldable pub contains_node : NodeArena → NodeId → Bool
contains_node a id = is_some (Map.get id a.map)

unfoldable pub remove_node : NodeArena → NodeId → NodeArena × Option OvlNode
remove_node a id = (
  record a {
    map = Map.remove id a.map;
    stat_nodes =
        if is_some (Map.get id a.map) then (a.stat_nodes + u64_mod - 1) % u64_mod else a.stat_nodes;
  },
  Map.get id a.map,
)
