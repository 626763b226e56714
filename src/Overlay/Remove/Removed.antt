-- ===== src/Overlay/Remove/Removed.antt =====
-- What `unlink` and `rmdir` do in memory.
use fuse_overlayfs.Base.{
  ◌≡◌, refl, sym, ap, ◌∙◌, Bool, true, false, not, ◌&&◌, ◌||◌, Option, none, some, List, [], ◌∷◌,
  arith, ◌==◌, if◌then◌else◌, bytes_eq, Option-cases, inl, inr, retain, contains, nat_key,
  option_both,
}
use mathlib.Core.Path.{subst}
use fuse_overlayfs.Base.Map
use fuse_overlayfs.Base.Map.{get-insert}
use fuse_overlayfs.Datasource.{Bytes}
use fuse_overlayfs.Node.{NodeId, OvlNode, NodeArena, get_node, remove_child}
use fuse_overlayfs.Node.Children.{map_option, get-update_node, get-remove_node}
use fuse_overlayfs.Node.Inodes.{
  InodeTable, InodeKey, OvlIno, inode_key, get_by_key, key_to_fuse_ino, remove_node_id,
}
use fuse_overlayfs.Overlay.{OverlayInner, child_of}
use fuse_overlayfs.Overlay.Names.{child_of-unlinked, child_of-remove_node}
use fuse_overlayfs.Overlay.Relink.{unlinked}
use fuse_overlayfs.Overlay.Remove.{Rest, drop_inode, forget_node, remove_entry}
use fuse_overlayfs.Overlay.Serve.{key_of, holds}

contains-retain :
    (id : NodeId) (ids : List NodeId) → contains id (retain (λ k. not (k == id)) ids) ≡ false
unfolding contains retain
contains-retain id [] = refl
contains-retain id (k ∷ ids) = ground (arith, contains-retain id ids)

-- The entry of the key does not list the node any more.
holds-remove_node_id :
    (t : InodeTable) (key : InodeKey) (id : NodeId)
    → holds id (get_by_key (remove_node_id t key id) key) ≡ false
unfolding get_by_key remove_node_id
holds-remove_node_id t key id = elim (Option-cases (Map.get key t.table)) [
  | inl e ↦ ground arith
  | inr (o, e) ↦ ground (
    arith,
    inode_key.same_iff key key,
    contains-retain id o.nodes,
    get-insert key key (record o { nodes = retain (λ k. not (k == id)) o.nodes }) t.table,
  )
]

-- An entry without one of its nodes; the rest of it stays.
abbrev pub without : NodeId → OvlIno → OvlIno
without id o = record o { nodes = retain (λ k. not (k == id)) o.nodes }

-- Only the entry of the key changes, and only by the node that it loses.
get_by_key-remove_node_id :
    (t : InodeTable) (key k : InodeKey) (id : NodeId)
    → get_by_key (remove_node_id t key id) k
      ≡ (if inode_key.same key k then map_option (without id) (get_by_key t k) else get_by_key t k)
unfolding get_by_key remove_node_id
get_by_key-remove_node_id t key k id = elim (Option-cases (Map.get key t.table)) [
  | inl e ↦ ground (arith, inode_key.same_iff key k)
  | inr (o, e) ↦ ground (arith, inode_key.same_iff key k, get-insert key k (without id o) t.table)
]

fuse_map-remove_node_id :
    (t : InodeTable) (key : InodeKey) (id : NodeId)
    → (remove_node_id t key id).fuse_map ≡ t.fuse_map
unfolding remove_node_id
fuse_map-remove_node_id t key id = ground (arith, Option-cases (Map.get key t.table))

-- The node, if there is one, has this key.
abbrev pub has_key : Option OvlNode → InodeKey → Bool
has_key none k = false
has_key (some n) k = inode_key.same (key_of n) k

get_by_key-drop_inode :
    (s : OverlayInner) (id : NodeId) (k : InodeKey) (o : Option OvlNode)
    → get_by_key (drop_inode s id o) k ≡ (
        if has_key o k
        then map_option (without id) (get_by_key s.inodes k)
        else get_by_key s.inodes k)
get_by_key-drop_inode s id k none = refl
get_by_key-drop_inode s id k (some n) = get_by_key-remove_node_id s.inodes (key_of n) k id

fuse_map-drop_inode :
    (s : OverlayInner) (id : NodeId) (o : Option OvlNode)
    → (drop_inode s id o).fuse_map ≡ s.inodes.fuse_map
fuse_map-drop_inode s id none = refl
fuse_map-drop_inode s id (some n) = fuse_map-remove_node_id s.inodes (key_of n) id

-- No key loses its number.
key_to_fuse_ino-remove_node_id :
    (t : InodeTable) (key k : InodeKey) (id : NodeId)
    → key_to_fuse_ino (remove_node_id t key id) k ≡ key_to_fuse_ino t k
unfolding key_to_fuse_ino remove_node_id
key_to_fuse_ino-remove_node_id t key k id = elim (Option-cases (Map.get key t.table)) [
  | inl e ↦ ground arith
  | inr (o, e) ↦ ground (
    arith,
    inode_key.same_iff key k,
    get-insert key k (record o { nodes = retain (λ k. not (k == id)) o.nodes }) t.table,
  )
]

key_to_fuse_ino-drop_inode :
    (s : OverlayInner) (id : NodeId) (k : InodeKey) (o : Option OvlNode)
    → key_to_fuse_ino (drop_inode s id o) k ≡ key_to_fuse_ino s.inodes k
key_to_fuse_ino-drop_inode s id k none = refl
key_to_fuse_ino-drop_inode s id k (some n) = key_to_fuse_ino-remove_node_id s.inodes (key_of n) k id

-- What has become of `s` where the name of `p` that stood for the node `id` is removed.
pub record IsRemoved (s : OverlayInner) (p : NodeId) (name : Bytes) (id : NodeId) (t : OverlayInner)
    : Type 0 where
  pub names :
      (q : NodeId) (other : Bytes)
      → child_of t.nodes q other ≡ (
          if (id == q) || ((p == q) && bytes_eq name other) then none else child_of s.nodes q other)
  pub nodes :
      (q : NodeId)
      → get_node t.nodes q ≡ (
          if id == q
          then none
          else if p == q
          then map_option (λ n. (remove_child n name).1) (get_node s.nodes q)
          else get_node s.nodes q)
  pub unlisted :
      (n : OvlNode)
      → get_node s.nodes id ≡ some n
      → holds id (get_by_key t.inodes (key_of n)) ≡ false
  pub files :
      (k : InodeKey)
      → get_by_key t.inodes k ≡ (
          if has_key (get_node s.nodes id) k
          then map_option (without id) (get_by_key s.inodes k)
          else get_by_key s.inodes k)
  pub numbers : (k : InodeKey) → key_to_fuse_ino t.inodes k ≡ key_to_fuse_ino s.inodes k
  pub fuse_map : t.inodes.fuse_map ≡ s.inodes.fuse_map

or_none :
    (b c : Bool) (o : Option NodeId)
    → (if b then none else if c then none else o) ≡ (if b || c then none else o)
or_none true c o = refl
or_none false c o = refl

unlinked-key :
    (a : NodeArena) (p : NodeId) (name : Bytes) (id : NodeId) (n : OvlNode)
    → get_node a id ≡ some n
    → (m : OvlNode) × (get_node (unlinked p name a) id ≡ some m) × (key_of m ≡ key_of n)
unfolding remove_child
unlinked-key a p name id n e = at (p == id) (
    get-update_node a p id (λ n. (remove_child n name).1)
    ∙ ap (λ o. if p == id then map_option (λ n. (remove_child n name).1) o else o) e)
  where
    at :
        (b : Bool)
        → get_node (unlinked p name a) id ≡ (if b then some (remove_child n name).1 else some n)
        → (m : OvlNode) × (get_node (unlinked p name a) id ≡ some m) × (key_of m ≡ key_of n)
    at true h = (_, h, refl)
    at false h = (n, h, refl)

-- Taking a child's name from a directory changes no key.
unlinked-has_key :
    (a : NodeArena) (p : NodeId) (name : Bytes) (id : NodeId) (k : InodeKey)
    → has_key (get_node (unlinked p name a) id) k ≡ has_key (get_node a id) k
unfolding remove_child
unlinked-has_key a p name id k =
    ap (λ o. has_key o k) (get-update_node a p id (λ n. (remove_child n name).1))
    ∙ same (p == id) (get_node a id)
  where
    same :
        (b : Bool) (o : Option OvlNode)
        → has_key (if b then map_option (λ n. (remove_child n name).1) o else o) k ≡ has_key o k
    same true none = refl
    same true (some n) = refl
    same false o = refl

drop_inode-holds :
    (s : OverlayInner) (id : NodeId) (o : Option OvlNode) (m n : OvlNode)
    → o ≡ some m
    → key_of m ≡ key_of n
    → holds id (get_by_key (drop_inode s id o) (key_of n)) ≡ false
drop_inode-holds s id o m n e k =
    subst (λ o. holds id (get_by_key (drop_inode s id o) (key_of n)) ≡ false) (sym e)
      (subst (λ key. holds id (get_by_key (remove_node_id s.inodes (key_of m) id) key) ≡ false) k
        (holds-remove_node_id s.inodes (key_of m) id))

-- Where a directory has a child under a name, removing the entry takes this name from the directory
-- and no other name from any directory, but those below the removed node itself. The node leaves
-- the arena, in which every other node stays as it is but for the name that the directory loses.
-- The node leaves the list of its inode, which keeps the other nodes, the look-up count, the mode
-- and the number; the entries of the other inodes and the map from numbers stay as they are.
pub remove_entry-IsRemoved :
    (s : OverlayInner) (p : NodeId) (name : Bytes) (id : NodeId)
    → child_of s.nodes p name ≡ some id
    → IsRemoved s p name id (remove_entry s p name).0
unfolding remove_entry
remove_entry-IsRemoved s p name id e =
    option_both (λ (r : OverlayInner × Rest). IsRemoved s p name id r.0) (child_of s.nodes p name)
      (λ missing. absurd (ground arith))
      λ k found.
        let same_id : id ≡ k = cc in
        subst
          (λ k.
            IsRemoved s p name id (forget_node (record s { nodes = unlinked p name s.nodes }) k))
          same_id removed
  where
    removed : IsRemoved s p name id (forget_node (record s { nodes = unlinked p name s.nodes }) id)
    removed = record {
      names = λ q other.
          child_of-remove_node (unlinked p name s.nodes) id q other
          ∙ ap (λ c. if id == q then none else c) (child_of-unlinked p name s.nodes q other)
          ∙ or_none (id == q) ((p == q) && bytes_eq name other) (child_of s.nodes q other);
      nodes = λ q.
          get-remove_node (unlinked p name s.nodes) id q
          ∙ ap (λ o. if id == q then none else o)
              (get-update_node s.nodes p q (λ n. (remove_child n name).1));
      files = λ k.
          get_by_key-drop_inode (record s { nodes = unlinked p name s.nodes }) id k _
          ∙ ap
              (λ b.
                if b
                then map_option (without id) (get_by_key s.inodes k)
                else get_by_key s.inodes k)
              (unlinked-has_key s.nodes p name id k);
      fuse_map = fuse_map-drop_inode (record s { nodes = unlinked p name s.nodes }) id _;
      unlisted = λ n at.
          let (m, at', same_key) = unlinked-key s.nodes p name id n at in
          drop_inode-holds (record s { nodes = unlinked p name s.nodes }) id _ m n at' same_key;
      numbers =
          λ k. key_to_fuse_ino-drop_inode (record s { nodes = unlinked p name s.nodes }) id k _;
    }
