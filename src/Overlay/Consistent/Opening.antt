-- ===== src/Overlay/Consistent/Opening.antt =====
-- The handlers `create` and `readdirplus` keep the inode table consistent. This file uses the names
-- of Overlay/Consistent.antt.
use fuse_overlayfs.Base.{
  ℕ, ◌+◌, Bool, true, false, Option, none, some, List, [], ◌∷◌, drop, ◌≡◌, refl,
}
use fuse_overlayfs.Config.{OverlayConfig}
use fuse_overlayfs.Datasource.{Bytes}
use fuse_overlayfs.Direct.{DirectAccess}
use fuse_overlayfs.Node.{NodeId, OvlNode, get_node}
use fuse_overlayfs.Node.Inodes.{InodeTable, register}
use fuse_overlayfs.Node.Inodes.Invariant.{IsConsistent, register-IsConsistent, update-IsConsistent}
use fuse_overlayfs.Overlay.{OverlayInner}
use fuse_overlayfs.Overlay.Consistent.{OnInodes, steady}
use fuse_overlayfs.Overlay.Consistent.Creating.{
  check_length-Keeps, prepare_create_parent-Keeps, inherit_acl-Keeps, register_child-Keeps,
}
use fuse_overlayfs.Overlay.Create.{User}
use fuse_overlayfs.Overlay.CreateFile.{
  check_deleted, create_over, create_opened, own_opened, create,
}
use fuse_overlayfs.Overlay.Query.{Entry}
use fuse_overlayfs.Overlay.ReadDir.{
  counted, count_node, count_entry, Listed, add_counted, readdirplus,
}
use fuse_overlayfs.Overlay.Serve.{key_of}
use fuse_overlayfs.Sys.{Sys}
use fuse_overlayfs.Sys.Rules.{Keeps}

module _ {W : Type 0} (sys : Sys W) where
  check_deleted-Keeps :
      (parent : ℕ) (name : Bytes) (found : Option NodeId)
      → Keeps OnInodes (check_deleted sys parent name found)
  unfolding check_deleted
  check_deleted-Keeps parent name none = search steady
  check_deleted-Keeps parent name (some id) = search steady depth 8

  create_over-Keeps :
      (upper : DirectAccess) (upper_fd : ℕ) (pnode_path name path : Bytes) (open_flags mode : ℕ)
      → Keeps OnInodes (create_over sys upper upper_fd pnode_path name path open_flags mode)
  unfolding create_over
  create_over-Keeps upper upper_fd pnode_path name path open_flags mode = search steady depth 20

  create_opened-Keeps :
      (is_whiteout : Bool) (upper : DirectAccess) (upper_fd : ℕ) (pnode_path name path : Bytes)
      (open_flags mode : ℕ)
      → Keeps OnInodes
          (create_opened sys is_whiteout upper upper_fd pnode_path name path open_flags mode)
  unfolding create_opened
  create_opened-Keeps is_whiteout upper upper_fd pnode_path name path open_flags mode =
      search (steady, create_over-Keeps)

  own_opened-Keeps :
      (fd : ℕ) (req : User) (config : OverlayConfig) → Keeps OnInodes (own_opened sys fd req config)
  unfolding own_opened
  own_opened-Keeps fd req config = search steady

  ruleset opening = (
    steady, check_length-Keeps, check_deleted-Keeps, prepare_create_parent-Keeps,
    create_opened-Keeps, own_opened-Keeps, inherit_acl-Keeps, register_child-Keeps,
  )

  pub create-Keeps :
      (rounds : ℕ) (req : User) (parent : ℕ) (name : Bytes) (mode flags : ℕ)
      (config : OverlayConfig)
      → Keeps OnInodes (create sys rounds req parent name mode flags config)
  unfolding create
  create-Keeps rounds req parent name mode flags config = search opening depth 40 fits 3000

counted-IsConsistent :
    (s : OverlayInner) (id : NodeId) (raw_ino : ℕ) (node : OvlNode) (o : Option (InodeTable × ℕ))
    → register s.inodes s.nodes id node.tmp_ino node.tmp_dev node.mode ≡ o
    → IsConsistent s.inodes
    → IsConsistent (counted s node raw_ino o).0.inodes
counted-IsConsistent s id raw_ino node none e c = c
counted-IsConsistent s id raw_ino node (some (t, ino_val)) e c =
    (update-IsConsistent t (key_of node) 0 (
      register-IsConsistent s.inodes s.nodes id node.tmp_ino node.tmp_dev node.mode t ino_val c
        e)).1

count_node-IsConsistent :
    (s : OverlayInner) (id : NodeId) (raw_ino : ℕ) (o : Option OvlNode)
    → IsConsistent s.inodes
    → IsConsistent (count_node s id raw_ino o).0.inodes
count_node-IsConsistent s id raw_ino none c = c
count_node-IsConsistent s id raw_ino (some node) c = counted-IsConsistent s id raw_ino node _ refl c

count_entry-IsConsistent :
    (s : OverlayInner) (raw_ino : ℕ) (o : Option NodeId)
    → IsConsistent s.inodes
    → IsConsistent (count_entry s raw_ino o).0.inodes
count_entry-IsConsistent s raw_ino none c = c
count_entry-IsConsistent s raw_ino (some id) c =
    count_node-IsConsistent s id raw_ino (get_node s.nodes id) c

stopped-IsConsistent :
    (b : Bool) (s : OverlayInner) (r : OverlayInner × List Listed) (l : Listed)
    → IsConsistent s.inodes
    → IsConsistent r.0.inodes
    → IsConsistent
        (elim b as (λ _. OverlayInner × List Listed) [
          | true ↦ (s, [])
          | false ↦ (r.0, l ∷ r.1)
        ]).0.inodes
stopped-IsConsistent true s r l c c' = c
stopped-IsConsistent false s r l c c' = c'

add_counted-IsConsistent :
    (is_full : ℕ → Entry → Bool) (i : ℕ) (entries : List Entry) (s : OverlayInner)
    → IsConsistent s.inodes
    → IsConsistent (add_counted is_full i entries s).0.inodes
unfolding add_counted
add_counted-IsConsistent is_full i [] s c = c
add_counted-IsConsistent is_full i (e ∷ es) s c =
    let c' = count_entry-IsConsistent s e.ino e.node_id c in
    stopped-IsConsistent (is_full i _) _ _ _ c'
      (add_counted-IsConsistent is_full (i + 1) es (count_entry s e.ino e.node_id).0 c')

pub readdirplus-IsConsistent :
    (is_full : ℕ → Entry → Bool) (s : OverlayInner) (entries : List Entry) (offset : ℕ)
    → IsConsistent s.inodes
    → IsConsistent (readdirplus is_full s entries offset).0.inodes
unfolding readdirplus
readdirplus-IsConsistent is_full s entries offset c =
    add_counted-IsConsistent is_full offset (drop offset entries) s c
