-- ===== src/Overlay/Names.antt =====
-- How the names of all directories change with a write to the arena.
use fuse_overlayfs.Base.{
  ◌≡◌, refl, sym, ap, ◌∙◌, Bool, true, false, ◌&&◌, Option, none, some, arith, ◌==◌, ==_iff,
  if◌then◌else◌, if_both, bytes_eq, Option-cases, inl, inr, nat_key,
}
use fuse_overlayfs.Datasource.{Bytes}
use fuse_overlayfs.Node.{
  NodeId, OvlNode, NodeArena, is_dir, get_node, update_node, remove_node, get_child, insert_child,
  remove_child,
}
use fuse_overlayfs.Node.Children.{
  map_option, get-update_node, get-remove_node, get_child-insert_child, get_child-remove_child,
}
use fuse_overlayfs.Overlay.{child_of}
use fuse_overlayfs.Overlay.Relink.{is_dir_node, unlinked, linked}

-- The child that an entry of the arena has.
abbrev child_at : Bytes → Option OvlNode → Option NodeId
child_at name none = none
child_at name (some n) = get_child n name

child_of-at :
    (a : NodeArena) (q : NodeId) (name : Bytes) → child_of a q name ≡ child_at name (get_node a q)
unfolding child_of
child_of-at a q name = elim (Option-cases (get_node a q)) [
  | inl e ↦ ground arith
  | inr (n, e) ↦ ground arith
]

-- A write that leaves the children of each node alone.
pub child_of-update :
    (a : NodeArena) (id : NodeId) (f : OvlNode → OvlNode)
    → ((n : OvlNode) (name : Bytes) → get_child (f n) name ≡ get_child n name)
    → (q : NodeId) (name : Bytes) → child_of (update_node a id f) q name ≡ child_of a q name
child_of-update a id f keep q name =
    child_of-at (update_node a id f) q name
    ∙ ap (child_at name) (get-update_node a id q f)
    ∙ same_child (get_node a q) (id == q)
    ∙ sym (child_of-at a q name)
  where
    same_child :
        (o : Option OvlNode) (b : Bool)
        → child_at name (if b then map_option f o else o) ≡ child_at name o
    same_child none true = refl
    same_child (some n) true = keep n name
    same_child o false = refl

pub child_of-remove_node :
    (a : NodeArena) (id q : NodeId) (name : Bytes)
    → child_of (remove_node a id).0 q name ≡ (if id == q then none else child_of a q name)
child_of-remove_node a id q name =
    child_of-at (remove_node a id).0 q name
    ∙ ap (child_at name) (get-remove_node a id q)
    ∙ no_child (get_node a q) (id == q)
    ∙ ap (λ c. if id == q then none else c) (sym (child_of-at a q name))
  where
    no_child :
        (o : Option OvlNode) (b : Bool)
        → child_at name (if b then none else o) ≡ (if b then none else child_at name o)
    no_child o true = refl
    no_child o false = refl

pub child_of-unlinked :
    (p : NodeId) (name : Bytes) (a : NodeArena) (q : NodeId) (other : Bytes)
    → child_of (unlinked p name a) q other
      ≡ (if (p == q) && bytes_eq name other then none else child_of a q other)
child_of-unlinked p name a q other =
    child_of-at (unlinked p name a) q other
    ∙ ap (child_at other) (get-update_node a p q (λ n. (remove_child n name).1))
    ∙ without (get_node a q) (p == q)
    ∙ ap (λ c. if (p == q) && bytes_eq name other then none else c) (sym (child_of-at a q other))
  where
    without :
        (o : Option OvlNode) (b : Bool)
        → child_at other (if b then map_option (λ n. (remove_child n name).1) o else o)
          ≡ (if b && bytes_eq name other then none else child_at other o)
    without none true =
        if_both (λ (c : Option NodeId). none ≡ c) (bytes_eq name other) (λ e. refl) λ e. refl
    without (some n) true = get_child-remove_child n name other
    without o false = refl

dir_at :
    (a : NodeArena) (p : NodeId)
    → is_dir_node a p ≡ true
    → (n : OvlNode) × (get_node a p ≡ some n) × (is_dir n ≡ true)
dir_at a p h = elim (Option-cases (get_node a p)) [
  | inl e ↦ absurd (ground arith)
  | inr (n, e) ↦ (n, e, ground arith)
]

pub child_of-linked :
    (p : NodeId) (name : Bytes) (id : NodeId) (a : NodeArena) (q : NodeId) (other : Bytes)
    → is_dir_node a p ≡ true
    → child_of (linked p name id a) q other
      ≡ (if (p == q) && bytes_eq name other then some id else child_of a q other)
child_of-linked p name id a q other h =
    let (n, at, is_d) = dir_at a p h in
    child_of-at (linked p name id a) q other
    ∙ ap (child_at other) (get-update_node a p q (λ n. (insert_child n name id).1))
    ∙ with_child n (get_node a q) (p == q) at is_d (λ e. ap (get_node a) (sym ((==_iff p q).0 e)))
    ∙ ap (λ c. if (p == q) && bytes_eq name other then some id else c) (sym (child_of-at a q other))
  where
    with_child :
        (n : OvlNode) (o : Option OvlNode) (b : Bool)
        → get_node a p ≡ some n
        → is_dir n ≡ true
        → (b ≡ true → o ≡ get_node a p)
        → child_at other (if b then map_option (λ n. (insert_child n name id).1) o else o)
          ≡ (if b && bytes_eq name other then some id else child_at other o)
    with_child n o false at is_d same = refl
    with_child n none true at is_d same = let e = same refl in cc
    with_child n (some m) true at is_d same =
        let m_is_n : n ≡ m = let e = same refl in cc in
        get_child-insert_child m name other id (ap is_dir (sym m_is_n) ∙ is_d)
