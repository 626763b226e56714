-- ===== src/Node/Inodes.antt =====
-- `OvlIno` and `InodeTable` of src/node.rs: the inode numbers that the kernel sees.
-- The atomic counter STAT_INODES is a field of the table, of which the program has one. The
-- lookup count is an `i64`, given by its bit pattern; its arithmetic wraps.
pub mod Fresh
pub mod Invariant
pub mod Register
pub mod Forget
use fuse_overlayfs.Base.{
  ℕ, zero, suc, ◌+◌, ◌-◌, ◌%◌, ◌^◌, ◌≡◌, ◌↔◌, Bool, true, false, not, ◌&&◌, ◌||◌, Option, none,
  some, List, [], ◌∷◌, arith, leb, ◌==◌, if◌then◌else◌, is_some, length, is_empty, any, retain,
  set_insert, Key, nat_key, bytes_eq, ==_iff,
}
use fuse_overlayfs.Base.Map
use fuse_overlayfs.Base.Map.{Map}
use fuse_overlayfs.Datasource.{Bytes}
use fuse_overlayfs.Node.{NodeId, OvlNode, NodeArena, u64_mod, is_dir, contains_node, get_node}
use fuse_overlayfs.Node.Hash.{compute_fuse_ino}
use fuse_overlayfs.Node.Path.{compute_path}

pub record InodeKey : Type 0 where
  pub ino : ℕ
  pub dev : ℕ

abbrev same_key : InodeKey → InodeKey → Bool
same_key a b = a.ino == b.ino && a.dev == b.dev

pub same_key_iff : (a b : InodeKey) → (same_key a b ≡ true) ↔ (a ≡ b)
same_key_iff a b = ground arith

instance abbrev pub inode_key : Key InodeKey
inode_key = record { same = same_key; same_iff = same_key_iff }

pub record OvlIno : Type 0 where
  pub nodes : List NodeId
  pub lookups : ℕ
  pub mode : ℕ
  pub fuse_ino : ℕ

pub record InodeTable : Type 0 where
  pub table : Map InodeKey OvlIno
  pub fuse_map : Map ℕ InodeKey
  pub same_device : Bool
  pub next_fallback : ℕ
  pub stat_inodes : ℕ

abbrev pub empty_table : InodeTable
empty_table = record {
  table = [];
  fuse_map = [];
  same_device = true;
  next_fallback = 0x8000_0000_0000_0000;
  stat_inodes = 0;
}

unfoldable pub set_same_device : InodeTable → Bool → InodeTable
set_same_device t same_dev = record t { same_device = same_dev }

abbrev lookup_key : Map InodeKey OvlIno → Option InodeKey → Option OvlIno
lookup_key m none = none
lookup_key m (some key) = Map.get key m

unfoldable pub fuse_to_ino : InodeTable → ℕ → Option OvlIno
fuse_to_ino t fuse_ino = lookup_key t.table (Map.get fuse_ino t.fuse_map)

unfoldable pub get_by_key : InodeTable → InodeKey → Option OvlIno
get_by_key t key = Map.get key t.table

abbrev entry_fuse_ino : Option OvlIno → Option ℕ
entry_fuse_ino none = none
entry_fuse_ino (some o) = some o.fuse_ino

unfoldable pub key_to_fuse_ino : InodeTable → InodeKey → Option ℕ
key_to_fuse_ino t key = entry_fuse_ino (Map.get key t.table)

-- The fallback counter moves on, and skips the reserved numbers when it wraps.
abbrev pub bump : ℕ → ℕ
bump next_fallback = let next = (next_fallback + 1) % u64_mod in if leb next 1 then 2 else next

-- The loop of `register` that looks for a free number: the number, and the counter after it.
-- `none` means that the fuel ran out.
unfoldable pub find_free : ℕ → Map ℕ InodeKey → ℕ → ℕ → Option (ℕ × ℕ)
find_free zero m fuse_ino next_fallback = none
find_free (suc f) m fuse_ino next_fallback = elim (Map.contains_key fuse_ino m || leb fuse_ino 1) [
  | false ↦ some (fuse_ino, next_fallback)
  | true ↦ find_free f m next_fallback (bump next_fallback)
]

-- The node is a directory, or another node's path is the new one's.
unfoldable pub is_duplicate : NodeArena → Bytes → NodeId → Bool
is_duplicate arena new_path existing_id = elim (get_node arena existing_id) [
  | none ↦ false
  | some existing ↦ is_dir existing || bytes_eq (compute_path arena existing_id) new_path
]

abbrev finish_register : InodeTable → NodeId → InodeKey → ℕ → ℕ × ℕ → InodeTable × ℕ
finish_register t node_id key mode free = (
  record t {
    table =
        Map.insert key
          (record { nodes = node_id ∷ []; lookups = 0; mode = mode; fuse_ino = free.0 }) t.table;
    fuse_map = Map.insert free.0 key t.fuse_map;
    next_fallback = free.1;
    stat_inodes = (t.stat_inodes + 1) % u64_mod;
  },
  free.0,
)

abbrev option_map {ℓ κ} : {A : Type ℓ} {B : Type κ} → (A → B) → Option A → Option B
option_map f none = none
option_map f (some a) = some (f a)

-- The second half of `register`: a new entry, under a number that is not in use.
unfoldable pub register_new : InodeTable → NodeId → InodeKey → ℕ → Option (InodeTable × ℕ)
register_new t node_id key mode = option_map (finish_register t node_id key mode) (
    find_free (suc (suc (length t.fuse_map))) t.fuse_map
      (compute_fuse_ino key.ino key.dev t.same_device) t.next_fallback)

-- The first half: an entry with live nodes is used again.
unfoldable pub register_existing :
    InodeTable → NodeArena → NodeId → InodeKey → ℕ → OvlIno → Option (InodeTable × ℕ)
register_existing t arena node_id key mode existing =
    let live = retain (contains_node arena) existing.nodes in
    if is_empty live
    then register_new
        (record t {
          table = Map.remove key t.table;
          stat_inodes = (t.stat_inodes + u64_mod - 1) % u64_mod;
        })
        node_id key mode
    else if any (is_duplicate arena (compute_path arena node_id)) live
    then some (
      record t { table = Map.insert key (record existing { nodes = live }) t.table },
      existing.fuse_ino,
    )
    else some (
      record t {
        table =
            Map.insert key (record existing { nodes = set_insert node_id live; mode = mode })
              t.table;
      },
      existing.fuse_ino,
    )

-- `register(arena, node_id, ino, dev, mode)`: the new table and the FUSE inode number.
unfoldable pub register : InodeTable → NodeArena → NodeId → ℕ → ℕ → ℕ → Option (InodeTable × ℕ)
register t arena node_id ino dev mode =
    let key : InodeKey = record { ino = ino; dev = dev } in
    elim (Map.get key t.table) [
      | none ↦ register_new t node_id key mode
      | some existing ↦ register_existing t arena node_id key mode existing
    ]

abbrev set_entry : InodeTable → InodeKey → (OvlIno → OvlIno) → Option OvlIno → InodeTable
set_entry t key f none = t
set_entry t key f (some o) = record t { table = Map.insert key (f o) t.table }

unfoldable pub remove_node_id : InodeTable → InodeKey → NodeId → InodeTable
remove_node_id t key node_id =
    set_entry t key (λ o. record o { nodes = retain (λ id. not (id == node_id)) o.nodes })
      (Map.get key t.table)

unfoldable pub inc_lookup : InodeTable → InodeKey → InodeTable
inc_lookup t key =
    set_entry t key (λ o. record o { lookups = (o.lookups + 1) % u64_mod }) (Map.get key t.table)

-- `x <= 0` of an `i64`.
abbrev pub is_nonpositive : ℕ → Bool
is_nonpositive x = x == 0 || leb (2 ^ 63) x

abbrev drop_fuse_ino : InodeTable → ℕ → InodeTable
drop_fuse_ino t fuse_ino = record t { fuse_map = Map.remove fuse_ino t.fuse_map }

-- The branch of `forget` where the table has an entry for the key.
unfoldable pub forget_entry : InodeTable → ℕ → ℕ → InodeKey → OvlIno → InodeTable
forget_entry t fuse_ino nlookup key o =
    let left = (o.lookups + u64_mod - nlookup) % u64_mod in
    if not (o.fuse_ino == fuse_ino)
    then drop_fuse_ino t fuse_ino
    else if is_nonpositive left
    then record t {
      table = Map.remove key t.table;
      fuse_map = Map.remove fuse_ino t.fuse_map;
      stat_inodes = (t.stat_inodes + u64_mod - 1) % u64_mod;
    }
    else record t { table = Map.insert key (record o { lookups = left }) t.table }

unfoldable pub forget : InodeTable → ℕ → ℕ → InodeTable × Bool
forget t fuse_ino nlookup =
    if fuse_ino == 1 || fuse_ino == 0 then (t, false) else elim (Map.get fuse_ino t.fuse_map) [
      | none ↦ (t, false)
      | some key ↦ elim (Map.get key t.table) [
        | none ↦ (drop_fuse_ino t fuse_ino, true)
        | some o ↦ (forget_entry t fuse_ino nlookup key o, true)
      ]
    ]
