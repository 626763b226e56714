-- ===== src/Copyup/Dirs/Ends.antt =====
-- The recursion of `create_node_directory` against a recursion on the path, which has no fuel.
use fuse_overlayfs.Base.{
  ℕ, zero, suc, ◌<◌, ◌≡◌, refl, ap, Bool, true, false, Option, none, some, List, [], ◌∷◌, ok, err,
  FsResult, arith, length, nat_key, ok_or, erofs, enoent,
}
use fuse_overlayfs.Base.Map
use fuse_overlayfs.Datasource.{Bytes}
use fuse_overlayfs.Layer.Init.{DirectLayer}
use fuse_overlayfs.Node.{NodeId, OvlNode, get_node}
use fuse_overlayfs.Node.Path.Depth.{Nodes, IsAt, IsAt-depth}
use fuse_overlayfs.Sys.{Sys}
use fuse_overlayfs.Sys.Actions.{Action, ◌>>=◌, ◌>>◌, lift, pure}
use fuse_overlayfs.Copyup.{CopyState, first_layer, is_up, node_at}
use fuse_overlayfs.Copyup.Dirs.{
  parent_first, create_with, create_one, create_above, create_node_directory,
}

module _ {S A B : Type 0} where
  bind_same :
      (m n : Action S A) (f : A → Action S B) (s : S) → m s ≡ n s → (m >>= f) s ≡ (n >>= f) s
  unfolding ◌>>=◌
  bind_same m n f s e =
      ap (λ (r : FsResult A × S). elim r.0 [ err e ↦ (err e, r.1) | ok a ↦ f a r.1 ]) e

  lift_same :
      (r : FsResult A) (f g : A → Action S B) (s : S)
      → ((a : A) → r ≡ ok a → f a s ≡ g a s)
      → (lift r >>= f) s ≡ (lift r >>= g) s
  unfolding ◌>>=◌
  lift_same (ok a) f g s h = h a refl
  lift_same (err e) f g s h = refl

branch_same :
    {S A : Type 0} (b : Bool) (z x y : Action S A) (s : S)
    → x s ≡ y s
    → (elim b as (λ b. Action S A) [ true ↦ z | false ↦ x ]) s
      ≡ (elim b as (λ b. Action S A) [ true ↦ z | false ↦ y ]) s
branch_same true z x y s e = refl
branch_same false z x y s e = e

-- A node with a path is in the arena.
IsAt-node :
    (m : Nodes) (id : NodeId) (xs : List Bytes)
    → IsAt m id xs
    → (n : OvlNode) × (Map.get id m ≡ some n)
IsAt-node m id [] (n, at, top) = (n, at)
IsAt-node m id (x ∷ xs) (n, pid, at, up, named, below) = (n, at)

ok_or-some :
    {A : Type 0} (o : Option A) (e : ℕ) (a : A)
    → ◌≡◌ {A = FsResult A} (ok_or o e) (ok a)
    → o ≡ some a
ok_or-some none e a h = cc
ok_or-some (some b) e a h = cc

module _ {W : Type 0} (sys : Sys W) (layers : List DirectLayer) (workdir_fd : ℕ) where
  -- A node that is on the upper layer is left alone; any other is made, after `above`.
  abbrev if_missing :
      (OvlNode → Action (CopyState W) (Unit {0}))
      → NodeId
      → OvlNode
      → DirectLayer
      → Action (CopyState W) (Unit {0})
  if_missing above id node upper =
      elim (is_up node upper) as (λ b. Action (CopyState W) (Unit {0})) [
        | true ↦ pure tt
        | false ↦ above node >> create_one sys layers id workdir_fd
      ]

  abbrev on_node :
      (OvlNode → Action (CopyState W) (Unit {0})) → NodeId → Action (CopyState W) (Unit {0})
  on_node above id = node_at id >>= λ node.
      lift (ok_or (first_layer layers) erofs) >>= λ upper. if_missing above id node upper

  abbrev on_parent :
      (NodeId → Action (CopyState W) (Unit {0})) → Option NodeId → Action (CopyState W) (Unit {0})
  on_parent create none = pure tt
  on_parent create (some pid) = create pid

  -- The directory of a path, whose names are given from the last to the first, with all that is
  -- missing above it: the parent's path first, then the directory. The recursion is on the names, so
  -- there is no fuel.
  unfoldable pub create_path : List Bytes → NodeId → Action (CopyState W) (Unit {0})
  create_path [] id = on_node (λ node. pure tt) id
  create_path (name ∷ above) id = on_node (λ node. on_parent (create_path above) node.parent) id

  on_node_up :
      (above : OvlNode → Action (CopyState W) (Unit {0})) (id : NodeId) (p : OvlNode)
      (upper : DirectLayer) (s : CopyState W)
      → get_node s.nodes id ≡ some p
      → first_layer layers ≡ some upper
      → is_up p upper ≡ true
      → on_node above id s ≡ (ok tt, s)
  unfolding ◌>>=◌
  on_node_up above id p upper s at first up = ground arith

  -- Nothing is made for a directory that is on the upper layer.
  create_path-up :
      (xs : List Bytes) (id : NodeId) (p : OvlNode) (upper : DirectLayer) (s : CopyState W)
      → get_node s.nodes id ≡ some p
      → first_layer layers ≡ some upper
      → is_up p upper ≡ true
      → create_path xs id s ≡ (ok tt, s)
  unfolding create_path
  create_path-up [] id p upper s at first up = on_node_up _ id p upper s at first up
  create_path-up (x ∷ xs) id p upper s at first up = on_node_up _ id p upper s at first up

  -- The step of `create_above` for the parent is the one of the path.
  parent_first-on_parent :
      (fuel : ℕ) (xs : List Bytes) (upper : DirectLayer) (node p : OvlNode) (pid : NodeId)
      (s : CopyState W)
      → first_layer layers ≡ some upper
      → node.parent ≡ some pid
      → get_node s.nodes pid ≡ some p
      → create_above sys fuel layers pid workdir_fd s ≡ create_path xs pid s
      → parent_first sys upper node (λ id. create_above sys fuel layers id workdir_fd) s
        ≡ on_parent (create_path xs) node.parent s
  unfolding parent_first
  parent_first-on_parent fuel xs upper node p pid s first up at same =
      ground (arith, create_path-up xs pid p upper s at first)

  parent_first-top :
      (fuel : ℕ) (upper : DirectLayer) (node : OvlNode) (s : CopyState W)
      → node.parent ≡ none
      → parent_first sys upper node (λ pid. create_above sys fuel layers pid workdir_fd) s
        ≡ (ok tt, s)
  unfolding parent_first
  parent_first-top fuel upper node s top = ground arith

  create_with-if_missing :
      (c : NodeId → Action (CopyState W) (Unit {0}))
      (above : OvlNode → Action (CopyState W) (Unit {0})) (id : NodeId) (node : OvlNode)
      (upper : DirectLayer) (s : CopyState W)
      → parent_first sys upper node c s ≡ above node s
      → create_with sys c layers id workdir_fd node upper s ≡ if_missing above id node upper s
  unfolding create_with
  create_with-if_missing c above id node upper s h =
      branch_same (is_up node upper) (pure tt)
        (parent_first sys upper node c >> create_one sys layers id workdir_fd)
        (above node >> create_one sys layers id workdir_fd) s
        (bind_same (parent_first sys upper node c) (above node)
          (λ u. create_one sys layers id workdir_fd) s h)

  create_above-on_node :
      (fuel : ℕ) (above : OvlNode → Action (CopyState W) (Unit {0})) (id : NodeId) (s : CopyState W)
      → ((node : OvlNode) (upper : DirectLayer)
          → get_node s.nodes id ≡ some node
          → first_layer layers ≡ some upper
          → parent_first sys upper node (λ pid. create_above sys fuel layers pid workdir_fd) s
            ≡ above node s)
      → create_above sys (suc fuel) layers id workdir_fd s ≡ on_node above id s
  unfolding create_above ◌>>=◌
  create_above-on_node fuel above id s h =
      let c : NodeId → Action (CopyState W) (Unit {0}) =
        λ pid. create_above sys fuel layers pid workdir_fd in
      lift_same (ok_or (get_node s.nodes id) enoent)
        (λ node. lift (ok_or (first_layer layers) erofs) >>= λ upper.
          create_with sys c layers id workdir_fd node upper)
        (λ node.
          lift (ok_or (first_layer layers) erofs) >>= λ upper. if_missing above id node upper)
        s
        λ node at.
          lift_same (ok_or (first_layer layers) erofs)
            (λ upper. create_with sys c layers id workdir_fd node upper)
            (λ upper. if_missing above id node upper) s
            λ upper first. create_with-if_missing c above id node upper s (
              h node upper (ok_or-some (get_node s.nodes id) enoent node at)
                (ok_or-some (first_layer layers) erofs upper first))

  create_above-create_path :
      (fuel : ℕ) (id : NodeId) (xs : List Bytes) (s : CopyState W)
      → IsAt s.nodes.map id xs
      → length xs < fuel
      → create_above sys fuel layers id workdir_fd s ≡ create_path xs id s
  unfolding create_path get_node
  create_above-create_path zero id xs s at lt = absurd (omega arith)
  create_above-create_path (suc fuel) id [] s (n, at, top) lt =
      create_above-on_node fuel (λ node. pure tt) id s
        λ node upper here first. parent_first-top fuel upper node s (let same : node ≡ n = cc in cc)
  create_above-create_path (suc fuel) id (x ∷ xs) s (n, pid, at, up, named, below) lt =
      create_above-on_node fuel (λ node. on_parent (create_path xs) node.parent) id s
        λ node upper here first.
          let (p, there) = IsAt-node s.nodes.map pid xs below in
          parent_first-on_parent fuel xs upper node p pid s first (let same : node ≡ n = cc in cc)
            there (create_above-create_path fuel pid xs s below (omega arith))

  -- Over a tree of nodes, the recursion of `create_node_directory` ends: it does what `create_path`
  -- does by recursion on the names of the directory's path, without fuel. A directory on the upper
  -- layer is left alone, and any other is made after its parent's path is.
  pub create_node_directory-create_path :
      (id : NodeId) (xs : List Bytes) (s : CopyState W)
      → IsAt s.nodes.map id xs
      → create_node_directory sys layers id workdir_fd s ≡ create_path xs id s
  unfolding create_node_directory
  create_node_directory-create_path id xs s at =
      create_above-create_path (suc (length s.nodes.map)) id xs s at
        (omega (arith, IsAt-depth s.nodes.map id xs at))
