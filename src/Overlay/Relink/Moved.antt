-- ===== src/Overlay/Relink/Moved.antt =====
-- Which names the directories have after `rename` of src/overlay.rs has moved a node in memory.
use fuse_overlayfs.Base.{
  ◌≡◌, ◌≢◌, refl, sym, ap, ◌∙◌, Bool, true, false, ◌&&◌, Option, none, some, arith, ◌==◌,
  if◌then◌else◌, bytes_eq, option_both, nat_key,
}
use fuse_overlayfs.Datasource.{Bytes}
use fuse_overlayfs.Node.{
  NodeId, OvlNode, NodeArena, DirState, get_node, update_node, is_dir, state_is_dir,
  state_remove_child, not_a_dir, dir, insert_child, remove_child, get_child,
}
use mathlib.Core.Path.{subst}
use fuse_overlayfs.Node.Children.{map_option, get-update_node}
use fuse_overlayfs.Overlay.{child_of}
use fuse_overlayfs.Overlay.Names.{child_of-update, child_of-unlinked, child_of-linked}
use fuse_overlayfs.Overlay.Relink.{is_dir_node, renamed, unlinked, linked, move_child}

-- Where a node has become a child of another directory.
pub record IsMoved (a : NodeArena) (sp : NodeId) (name : Bytes) (dp : NodeId) (newname : Bytes)
    (id : NodeId) (b : NodeArena) : Type 0 where
  pub names :
      (q : NodeId) (other : Bytes)
      → child_of b q other ≡ (
          if (dp == q) && bytes_eq newname other
          then some id
          else if (sp == q) && bytes_eq name other
          then none
          else child_of a q other)
  pub node :
      id ≢ sp → id ≢ dp → get_node b id ≡ map_option (renamed newname (some dp)) (get_node a id)

pub get_child-renamed :
    (name : Bytes) (parent : Option NodeId) (n : OvlNode) (other : Bytes)
    → get_child (renamed name parent n) other ≡ get_child n other
unfolding get_child
get_child-renamed name parent n other = refl

is_dir_of : Option OvlNode → Bool
is_dir_of none = false
is_dir_of (some n) = is_dir n

-- A write that makes no file a directory and no directory a file.
pub is_dir_node-update :
    (a : NodeArena) (id : NodeId) (f : OvlNode → OvlNode) (q : NodeId)
    → ((n : OvlNode) → is_dir (f n) ≡ is_dir n)
    → is_dir_node (update_node a id f) q ≡ is_dir_node a q
unfolding is_dir_of
is_dir_node-update a id f q keep =
    as_is_dir_of (get_node (update_node a id f) q)
    ∙ ap is_dir_of (get-update_node a id q f)
    ∙ same (id == q) (get_node a q)
    ∙ sym (as_is_dir_of (get_node a q))
  where
    as_is_dir_of :
        (o : Option OvlNode)
        → elim o as (λ _. Bool) [ none ↦ false | some n ↦ is_dir n ] ≡ is_dir_of o
    as_is_dir_of none = refl
    as_is_dir_of (some n) = refl

    same :
        (b : Bool) (o : Option OvlNode) → is_dir_of (if b then map_option f o else o) ≡ is_dir_of o
    same true none = refl
    same true (some n) = keep n
    same false o = refl

pub is_dir-remove_child : (name : Bytes) (n : OvlNode) → is_dir (remove_child n name).1 ≡ is_dir n
unfolding remove_child is_dir
is_dir-remove_child name n = go n.dir_state
  where
    go : (d : DirState) → state_is_dir (state_remove_child name d) ≡ state_is_dir d
    go not_a_dir = refl
    go (dir kids whiteouts loaded) = refl

-- Where a directory has a child under a name and the other node is a directory, the move gives the
-- other directory the child under the new name, in place of one that had it, and takes the old
-- name; where both are the same, the child is left under the new name. No other name of any directory
-- changes. The moved node, if it is neither of the two directories, has the new name and the new
-- parent, and is otherwise as it was.
pub move_child-IsMoved :
    (sp : NodeId) (name : Bytes) (dp : NodeId) (newname : Bytes) (a : NodeArena) (id : NodeId)
    → child_of a sp name ≡ some id
    → is_dir_node a dp ≡ true
    → IsMoved a sp name dp newname id (move_child sp name dp newname a)
unfolding move_child is_dir
move_child-IsMoved sp name dp newname a id e is_d =
    option_both (λ b. IsMoved a sp name dp newname id b) (child_of a sp name)
      (λ missing. absurd (ground arith))
      λ k found.
        let same_id : id ≡ k = cc in
        subst (λ k. IsMoved a sp name dp newname id (to k)) same_id moved
  where
    to : NodeId → NodeArena
    to k = linked dp newname k (update_node (unlinked sp name a) k (renamed newname (some dp)))

    moved : IsMoved a sp name dp newname id (to id)
    moved = record {
      names = λ q other.
          child_of-linked dp newname id
            (update_node (unlinked sp name a) id (renamed newname (some dp))) q other
            (is_dir_node-update (unlinked sp name a) id (renamed newname (some dp)) dp (λ n. refl)
              ∙ is_dir_node-update a sp (λ n. (remove_child n name).1) dp (is_dir-remove_child name)
              ∙ is_d)
          ∙ ap (λ c. if (dp == q) && bytes_eq newname other then some id else c)
              (child_of-update (unlinked sp name a) id (renamed newname (some dp))
                  (get_child-renamed newname (some dp)) q other
                ∙ child_of-unlinked sp name a q other);
      node = λ not_sp not_dp. ground (
        arith,
        get-update_node (update_node (unlinked sp name a) id (renamed newname (some dp))) dp id
            (λ n. (insert_child n newname id).1),
        get-update_node (unlinked sp name a) id id (renamed newname (some dp)),
        get-update_node a sp id (λ n. (remove_child n name).1),
      );
    }
