-- ===== src/Node/Path/Correct.antt =====
-- `compute_path` gives the names from the root down, and a child's path is its parent's path
-- with the child's name.
use fuse_overlayfs.Base.{
  ℕ, zero, suc, ◌<◌, ◌≡◌, ◌≢◌, refl, sym, ap, ◌∙◌, some, List, [], ◌∷◌, ◌++◌, arith, length,
  nat_key, if◌then◌else◌, is_empty, codes, bytes_eq, bytes_eq_iff,
}
use mathlib.Core.List.{append_assoc}
use fuse_overlayfs.Base.Map
use fuse_overlayfs.Base.Text.{join}
use fuse_overlayfs.Datasource.{Bytes}
use fuse_overlayfs.Node.{NodeId, NodeArena, OvlNode}
use fuse_overlayfs.Node.Path.{walk_up, or_empty, compute_path, child_path}
use fuse_overlayfs.Node.Path.Depth.{Nodes, IsAt, IsAt-depth}

-- The names `xs`, the lowest first, turned round in front of `parts`.
unfoldable pub top_down : List Bytes → List Bytes → List Bytes
top_down [] parts = parts
top_down (x ∷ xs) parts = top_down xs (x ∷ parts)

-- The root is ".", and any other node the names with slashes between them.
abbrev pub render : List Bytes → Bytes
render parts = if is_empty parts then codes "." else join b'/' parts

walk_up_child :
    (f : ℕ) (m : Nodes) (id p : NodeId) (n : OvlNode) (parts : List Bytes)
    → Map.get id m ≡ some n
    → n.parent ≡ some p
    → walk_up (suc f) m id parts ≡ walk_up f m p (n.name ∷ parts)
unfolding walk_up
walk_up_child f m id p n parts e g = ground arith

walk_up-render :
    (f : ℕ) (m : Nodes) (id : NodeId) (xs parts : List Bytes)
    → IsAt m id xs
    → length xs < f
    → walk_up f m id parts ≡ some (render (top_down xs parts))
unfolding walk_up top_down
walk_up-render zero m id xs parts h lt = absurd (omega arith)
walk_up-render (suc f) m id [] parts h lt = rw (h.1, walk_up) (ground arith)
walk_up-render (suc f) m id (x ∷ xs) parts h lt =
    walk_up_child f m id h.1 h.0 parts h.2 h.3
    ∙ ap (λ y. walk_up f m h.1 (y ∷ parts)) h.4
    ∙ walk_up-render f m h.1 xs (x ∷ parts) h.5 (omega arith)

-- A node that lies below the root under the names `xs` (its own first) has the path of these
-- names from the top down; the root's path is ".". No walk is cut short.
pub compute_path-IsAt :
    (a : NodeArena) (id : NodeId) (xs : List Bytes)
    → IsAt a.map id xs
    → compute_path a id ≡ render (top_down xs [])
unfolding compute_path
compute_path-IsAt a id xs h =
    ap or_empty (
      walk_up-render (suc (length a.map)) a.map id xs [] h
        (omega (arith, IsAt-depth a.map id xs h)))

top_down-append :
    (xs parts more : List Bytes) → top_down xs (parts ++ more) ≡ top_down xs parts ++ more
unfolding top_down
top_down-append [] parts more = refl
top_down-append (x ∷ xs) parts more = top_down-append xs (x ∷ parts) more

join-append :
    (f : Bytes) (fs : List Bytes) (x : Bytes)
    → join b'/' ((f ∷ fs) ++ (x ∷ [])) ≡ join b'/' (f ∷ fs) ++ (b'/' ∷ x)
unfolding join
join-append f [] x = refl
join-append f (g ∷ fs) x = rw (join-append g fs x) (sym (append_assoc f _ _))

-- The names below the root, from the top down, for a node that is not the root.
top_down_filled :
    (y : Bytes) (ys : List Bytes)
    → (f : Bytes) × (fs : List Bytes) × (top_down (y ∷ ys) [] ≡ f ∷ fs)
unfolding top_down
top_down_filled y ys = go ys y []
  where
    go :
        (ys : List Bytes) (y : Bytes) (parts : List Bytes)
        → (f : Bytes) × (fs : List Bytes) × (top_down ys (y ∷ parts) ≡ f ∷ fs)
    go [] y parts = (y, parts, refl)
    go (z ∷ ys) y parts = go ys z (y ∷ parts)

top_down_child :
    (y : Bytes) (ys : List Bytes) (x : Bytes)
    → top_down (x ∷ y ∷ ys) [] ≡ top_down (y ∷ ys) [] ++ (x ∷ [])
unfolding top_down
top_down_child y ys x = top_down-append ys (y ∷ []) (x ∷ [])

render_child :
    (y : Bytes) (ys : List Bytes) (x : Bytes)
    → render (top_down (y ∷ ys) []) ≢ codes "."
    → render (top_down (x ∷ y ∷ ys) []) ≡ child_path (render (top_down (y ∷ ys) [])) x
unfolding child_path
render_child y ys x proper =
    let filled = top_down_filled y ys in
    rw (top_down_child y ys x, filled.2)
      (ground (
        arith,
        join-append filled.0 filled.1 x,
        bytes_eq_iff (join b'/' (filled.0 ∷ filled.1)) (codes "."),
      ))

-- In a tree, the path of a child is the parent's path with the child's name behind it, as
-- `child_path` builds it; the parent's path must not be "." except at the root.
pub compute_path_child :
    (a : NodeArena) (id p : NodeId) (n : OvlNode) (ys : List Bytes)
    → Map.get id a.map ≡ some n
    → n.parent ≡ some p
    → IsAt a.map p ys
    → (ys ≢ [] → compute_path a p ≢ codes ".")
    → compute_path a id ≡ child_path (compute_path a p) n.name
unfolding child_path top_down join bytes_eq
compute_path_child a id p n [] e f h proper =
    compute_path-IsAt a id (n.name ∷ []) (n, p, e, f, refl, h)
    ∙ ap (λ parent. child_path parent n.name) (sym (compute_path-IsAt a p [] h))
compute_path_child a id p n (y ∷ ys) e f h proper =
    compute_path-IsAt a id (n.name ∷ y ∷ ys) (n, p, e, f, refl, h)
    ∙ render_child y ys n.name (λ dot. proper (λ e. cc) (compute_path-IsAt a p (y ∷ ys) h ∙ dot))
    ∙ ap (λ parent. child_path parent n.name) (sym (compute_path-IsAt a p (y ∷ ys) h))
