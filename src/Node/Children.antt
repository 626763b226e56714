-- ===== src/Node/Children.antt =====
-- How reads of the arena and of a directory see the writes.
use fuse_overlayfs.Base.{
  ◌≡◌, refl, true, not, ◌&&◌, ◌||◌, Option, none, some, List, [], ◌∷◌, arith, ◌==◌, if◌then◌else◌,
  Option-cases, if_both, inl, inr, bytes_eq, bytes_eq_iff, contains, contains-set_insert, nat_key,
  bytes_key,
}
use fuse_overlayfs.Base.Map
use fuse_overlayfs.Base.Map.{get-insert, get-remove}
use fuse_overlayfs.Datasource.{Bytes}
use fuse_overlayfs.Node.{
  NodeId, OvlNode, NodeArena, DirState, state_is_dir, state_get_child, state_insert_child,
  state_is_whiteout, state_insert_whiteout, not_a_dir, dir, is_dir, get_child, insert_child,
  is_whiteout, insert_whiteout, set_remove, insert_node, get_node, update_node, remove_child,
  state_remove_child, remove_node,
}

abbrev pub map_option {ℓ κ} : {A : Type ℓ} {B : Type κ} → (A → B) → Option A → Option B
map_option f none = none
map_option f (some a) = some (f a)

pub get-update_node :
    (a : NodeArena) (id j : NodeId) (f : OvlNode → OvlNode)
    → get_node (update_node a id f) j
      ≡ (if id == j then map_option f (get_node a j) else get_node a j)
unfolding get_node update_node
get-update_node a id j f = elim (Option-cases (Map.get id a.map)) [
  | inl gone ↦ ground arith
  | inr at ↦ ground (arith, at.1, get-insert id j (f at.0) a.map)
]

pub next_id-update_node :
    (a : NodeArena) (id : NodeId) (f : OvlNode → OvlNode) → (update_node a id f).next_id ≡ a.next_id
unfolding update_node
next_id-update_node a id f = ground arith

pub get-insert_node :
    (a : NodeArena) (n : OvlNode) (j : NodeId)
    → get_node (insert_node a n).0 j ≡ (if a.next_id == j then some n else get_node a j)
unfolding get_node insert_node
get-insert_node a n j = get-insert a.next_id j n a.map

contains-set_remove :
    (w name : Bytes) (ws : List Bytes)
    → contains name (set_remove w ws) ≡ (not (bytes_eq w name) && contains name ws)
unfolding set_remove contains
contains-set_remove w name [] = ground arith
contains-set_remove w name (x ∷ ws) = ground (
  arith,
  contains-set_remove w name ws,
  bytes_eq_iff x w,
  bytes_eq_iff x name,
  bytes_eq_iff w name,
)

-- Reads of one node after a write to it, where it is a directory.
pub get_child-insert_child :
    (n : OvlNode) (name other : Bytes) (id : NodeId)
    → is_dir n ≡ true
    → get_child (insert_child n name id).1 other
      ≡ (if bytes_eq name other then some id else get_child n other)
unfolding is_dir get_child insert_child
get_child-insert_child n name other id h = by_state n.dir_state h
  where
    by_state :
        (d : DirState)
        → state_is_dir d ≡ true
        → state_get_child other (state_insert_child name id d)
          ≡ (if bytes_eq name other then some id else state_get_child other d)
    by_state not_a_dir h = cc
    by_state (dir kids whiteouts loaded) h = get-insert name other id kids

pub is_whiteout-insert_child :
    (n : OvlNode) (name other : Bytes) (id : NodeId)
    → is_dir n ≡ true
    → is_whiteout (insert_child n name id).1 other
      ≡ (not (bytes_eq name other) && is_whiteout n other)
unfolding is_dir is_whiteout insert_child
is_whiteout-insert_child n name other id h = by_state n.dir_state h
  where
    by_state :
        (d : DirState)
        → state_is_dir d ≡ true
        → state_is_whiteout other (state_insert_child name id d)
          ≡ (not (bytes_eq name other) && state_is_whiteout other d)
    by_state not_a_dir h = cc
    by_state (dir kids whiteouts loaded) h = contains-set_remove name other whiteouts

pub is_whiteout-insert_whiteout :
    (n : OvlNode) (name other : Bytes)
    → is_dir n ≡ true
    → is_whiteout (insert_whiteout n name) other ≡ (bytes_eq name other || is_whiteout n other)
unfolding is_dir is_whiteout insert_whiteout
is_whiteout-insert_whiteout n name other h = by_state n.dir_state h
  where
    by_state :
        (d : DirState)
        → state_is_dir d ≡ true
        → state_is_whiteout other (state_insert_whiteout name d)
          ≡ (bytes_eq name other || state_is_whiteout other d)
    by_state not_a_dir h = cc
    by_state (dir kids whiteouts loaded) h = contains-set_insert name other whiteouts

pub get_child-insert_whiteout :
    (n : OvlNode) (name other : Bytes)
    → get_child (insert_whiteout n name) other ≡ get_child n other
unfolding get_child insert_whiteout
get_child-insert_whiteout n name other = by_state n.dir_state
  where
    by_state :
        (d : DirState)
        → state_get_child other (state_insert_whiteout name d) ≡ state_get_child other d
    by_state not_a_dir = refl
    by_state (dir kids whiteouts loaded) = refl

-- A write leaves a directory a directory.
pub is_dir-insert_child :
    (n : OvlNode) (name : Bytes) (id : NodeId) → is_dir (insert_child n name id).1 ≡ is_dir n
unfolding is_dir insert_child
is_dir-insert_child n name id = by_state n.dir_state
  where
    by_state : (d : DirState) → state_is_dir (state_insert_child name id d) ≡ state_is_dir d
    by_state not_a_dir = refl
    by_state (dir kids whiteouts loaded) = refl

pub is_dir-insert_whiteout :
    (n : OvlNode) (name : Bytes) → is_dir (insert_whiteout n name) ≡ is_dir n
unfolding is_dir insert_whiteout
is_dir-insert_whiteout n name = by_state n.dir_state
  where
    by_state : (d : DirState) → state_is_dir (state_insert_whiteout name d) ≡ state_is_dir d
    by_state not_a_dir = refl
    by_state (dir kids whiteouts loaded) = refl

pub get_child-remove_child :
    (n : OvlNode) (name other : Bytes)
    → get_child (remove_child n name).1 other
      ≡ (if bytes_eq name other then none else get_child n other)
unfolding get_child remove_child
get_child-remove_child n name other = by_state n.dir_state
  where
    by_state :
        (d : DirState)
        → state_get_child other (state_remove_child name d)
          ≡ (if bytes_eq name other then none else state_get_child other d)
    by_state not_a_dir =
        if_both (λ (o : Option NodeId). none ≡ o) (bytes_eq name other) (λ e. refl) λ e. refl
    by_state (dir kids whiteouts loaded) = get-remove name other kids

pub get-remove_node :
    (a : NodeArena) (id j : NodeId)
    → get_node (remove_node a id).0 j ≡ (if id == j then none else get_node a j)
unfolding get_node remove_node
get-remove_node a id j = get-remove id j a.map
