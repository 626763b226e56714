-- ===== src/Copyup/Effect.antt =====
-- What a copy-up does to the arena: nodes move to the upper layer, and nothing else happens.
use fuse_overlayfs.Base.{
  ℕ, zero, suc, ◌≡◌, inl, inr, refl, ap, ◌∙◌, true, Option, none, some, List, ok_or, option_both,
  Bool_both, arith, nat_key, same, if◌then◌else◌, if_both, Option-cases, length, enoent,
}
use fuse_overlayfs.Base.Map
use fuse_overlayfs.Base.Map.{get-insert}
use fuse_overlayfs.Datasource.{Bytes}
use fuse_overlayfs.Layer.Init.{DirectLayer}
use fuse_overlayfs.Node.{NodeId, OvlNode, NodeArena, get_node, update_node}
use fuse_overlayfs.Sys.{Sys}
use fuse_overlayfs.Sys.Actions.{Action, ◌>>=◌, ◌>>◌}
use fuse_overlayfs.Sys.Rules.{
  Ended, Ensures, Keeps, Ensures-bind, Ensures-weaken, Ensures-given, Ensures-raise, Keeps-pure,
  Keeps-bind, Keeps-lift, Keeps-ignore,
}
use fuse_overlayfs.Copyup.{CopyState, node_at, mark_upper, set_upper, is_up}
use fuse_overlayfs.Copyup.Dirs.{
  uncover, create_with, needs_parent, parent_first, create_one, create_above, create_node_directory,
}
use fuse_overlayfs.Copyup.Quiet.{
  OnNodes, call-quiet, path_at-quiet, on_process-quiet, copy_dir-quiet,
}

-- The node is there, and on the upper layer.
abbrev pub IsUpper : NodeId → NodeArena → Type 0
IsUpper id a = (n : OvlNode) × (get_node a id ≡ some n) × (n.layer_idx ≡ 0)

abbrev pub IsThere : NodeId → NodeArena → Type 0
IsThere id a = (n : OvlNode) × (get_node a id ≡ some n)

pub get_node-mark :
    (a : NodeArena) (k id : NodeId) (n : OvlNode)
    → get_node a id ≡ some n
    → get_node (update_node a k set_upper) id ≡ some (if same k id then set_upper n else n)
unfolding get_node update_node
get_node-mark a k id n e = elim (Option-cases (Map.get k a.map)) [
  | inl missing ↦ ground (arith, nat_key.same_iff k id)
  | inr (m, found) ↦ ground (arith, nat_key.same_iff k id, get-insert k id (set_upper m) a.map)
]

pub get_node-mark_none :
    (a : NodeArena) (k id : NodeId)
    → get_node a id ≡ none
    → get_node (update_node a k set_upper) id ≡ none
unfolding get_node update_node
get_node-mark_none a k id e = elim (Option-cases (Map.get k a.map)) [
  | inl missing ↦ ground (arith, nat_key.same_iff k id)
  | inr (m, found) ↦ ground (arith, nat_key.same_iff k id, get-insert k id (set_upper m) a.map)
]

pub IsThere-mark :
    (k id : NodeId) (a : NodeArena) → IsThere id a → IsThere id (update_node a k set_upper)
IsThere-mark k id a (n, e) = (_, get_node-mark a k id n e)

pub IsUpper-mark :
    (k id : NodeId) (a : NodeArena) → IsUpper id a → IsUpper id (update_node a k set_upper)
IsUpper-mark k id a (n, e, z) = (
  _,
  get_node-mark a k id n e,
  if_both (λ (m : OvlNode). m.layer_idx ≡ 0) (same k id) (λ _. refl) (λ _. z),
)

IsUpper-mark_self :
    (id : NodeId) (a : NodeArena) → IsThere id a → IsUpper id (update_node a id set_upper)
IsUpper-mark_self id a (n, e) = (
  set_upper n,
  get_node-mark a id id n e
      ∙ ap (λ b. some (if b then set_upper n else n)) ((nat_key.same_iff id id).1 refl),
  refl,
)

is_up_lem : (node : OvlNode) (upper : DirectLayer) → is_up node upper ≡ true → node.layer_idx ≡ 0
is_up_lem node upper h = ground arith

abbrev IsNode : NodeId → OvlNode → NodeArena → Type 0
IsNode id n a = get_node a id ≡ some n

abbrev pub IsKeptByMarks : (NodeArena → Type 0) → Type 0
IsKeptByMarks P = (k : NodeId) (a : NodeArena) → P a → P (update_node a k set_upper)

abbrev pub Both : (NodeArena → Type 0) → (NodeArena → Type 0) → NodeArena → Type 0
Both P Q a = P a × Q a

-- A predicate that is kept where a node is marked is kept by the whole copy-up.
module _ {W : Type 0} (P : NodeArena → Type 0) (keep : IsKeptByMarks P) where
  node_at-is :
      (id : NodeId)
      → Ensures
          (OnNodes {W = W} P)
          (node_at id)
          (λ (n : OvlNode). OnNodes {W = W} (Both P (IsNode id n)))
          (OnNodes {W = W} P)
  node_at-is id = record { at = λ s h. found s (get_node s.nodes id) refl h }
    where
      found :
          (s : CopyState W) (o : Option OvlNode)
          → get_node s.nodes id ≡ o
          → P s.nodes
          → Ended
              (λ (n : OvlNode). OnNodes {W = W} (Both P (IsNode id n)))
              (OnNodes {W = W} P)
              (ok_or o enoent, s)
      found s none e h = h
      found s (some n) e h = (h, e)

  node_at-IsThere :
      (id : NodeId)
      → Ensures
          (OnNodes {W = W} P)
          (node_at id)
          (λ (n : OvlNode). OnNodes {W = W} (Both P (IsThere id)))
          (OnNodes {W = W} P)
  node_at-IsThere id = Ensures-weaken (node_at-is id) (λ n s h. (h.0, (n, h.1))) (λ s h. h)

  pub mark_upper-IsUpper :
      (id : NodeId)
      → Ensures
          (OnNodes {W = W} (Both P (IsThere id)))
          (mark_upper id)
          (λ (u : Unit {0}). OnNodes {W = W} (Both P (IsUpper id)))
          (OnNodes {W = W} P)
  unfolding mark_upper
  mark_upper-IsUpper id = record {
    at = λ s h. (keep id s.nodes h.0, IsUpper-mark_self id s.nodes h.1);
  }

  module _ (sys : Sys W) where
    -- A success leaves the node on the upper layer.
    abbrev pub Lifts : {A : Type 0} → NodeId → Action (CopyState W) A → Type 0
    Lifts {A} id m =
        Ensures (OnNodes {W = W} P) m (λ (a : A). OnNodes {W = W} (Both P (IsUpper id)))
          (OnNodes {W = W} P)

    abbrev pub LiftsFrom : (NodeArena → Type 0) → NodeId → Action (CopyState W) (Unit {0}) → Type 0
    LiftsFrom R id m =
        Ensures (OnNodes {W = W} (Both P R)) m
          (λ (u : Unit {0}). OnNodes {W = W} (Both P (IsUpper id))) (OnNodes {W = W} P)

    pub after_node :
        {A : Type 0} {Q : A → CopyState W → Type 0} (id : NodeId)
        {f : OvlNode → Action (CopyState W) A}
        → ((n : OvlNode)
            → Ensures (OnNodes {W = W} (Both P (IsThere id))) (f n) Q (OnNodes {W = W} P))
        → Ensures (OnNodes {W = W} P) (node_at id >>= f) Q (OnNodes {W = W} P)
    after_node id k = Ensures-bind (node_at-IsThere id) k

    -- A step on the way, which keeps that the node is there.
    pub on_the_way :
        {A B : Type 0} (R : NodeArena → Type 0) {Q : B → CopyState W → Type 0}
        {m : Action (CopyState W) A} {f : A → Action (CopyState W) B}
        → Keeps (OnNodes {W = W} (Both P R)) m
        → ((a : A) → Ensures (OnNodes {W = W} (Both P R)) (f a) Q (OnNodes {W = W} P))
        → Ensures (OnNodes {W = W} (Both P R)) (m >>= f) Q (OnNodes {W = W} P)
    on_the_way R k l = Ensures-bind (Ensures-weaken k (λ a s h. h) (λ s h. h.0)) l

    finish-lifts :
        (id : NodeId) {m : Action (CopyState W) (Unit {0})}
        → Keeps (OnNodes {W = W} (Both P (IsUpper id))) m
        → Ensures
            (OnNodes {W = W} (Both P (IsThere id)))
            (mark_upper id >> m)
            (λ (u : Unit {0}). OnNodes {W = W} (Both P (IsUpper id)))
            (OnNodes {W = W} P)
    finish-lifts id k =
        Ensures-bind (mark_upper-IsUpper id) λ u. Ensures-weaken k (λ a s h. h) (λ s h. h.0)

    uncover-quiet :
        (R : NodeArena → Type 0) (upper_fd : ℕ) (parent : Option NodeId) (name : Bytes)
        → Keeps (OnNodes {W = W} R) (uncover sys upper_fd parent name)
    uncover-quiet R upper_fd none name = Keeps-pure tt
    uncover-quiet R upper_fd (some pid) name =
        Keeps-bind (path_at-quiet R pid) λ path. Keeps-ignore (on_process-quiet R _)

    create_one-Lifts :
        (layers : List DirectLayer) (id : NodeId) (workdir_fd : ℕ)
        → Lifts id (create_one sys layers id workdir_fd)
    unfolding create_one
    create_one-Lifts layers id workdir_fd = Ensures-bind (path_at-quiet P id) λ path.
        after_node id λ node. on_the_way _ (Keeps-lift _) λ layer.
          on_the_way _ (Keeps-lift _) λ upper.
            on_the_way _ (copy_dir-quiet _ sys layer.direct path workdir_fd) λ wd_name.
              on_the_way _ (call-quiet _ _) λ place.
                on_the_way _ (call-quiet _ _)
                  λ u. finish-lifts id (uncover-quiet _ _ node.parent node.name)

    parent_first-Keeps :
        (upper : DirectLayer) (node : OvlNode) {create : NodeId → Action (CopyState W) (Unit {0})}
        → ((pid : NodeId) → Keeps (OnNodes {W = W} P) (create pid))
        → Keeps (OnNodes {W = W} P) (parent_first sys upper node create)
    unfolding parent_first
    parent_first-Keeps upper node k = record {
      at = λ s h.
          option_both (Ended (λ (u : Unit {0}). OnNodes {W = W} P) (OnNodes {W = W} P)) node.parent
            (λ e. h)
            λ pid e.
              Bool_both (Ended (λ (u : Unit {0}). OnNodes {W = W} P) (OnNodes {W = W} P))
                (needs_parent upper (get_node s.nodes pid)) (λ e'. (k pid).at s h) λ e'. h;
    }

    -- The recursion over the parents keeps `P`, and a success leaves the node on the upper layer.
    create_above-Lifts :
        (fuel : ℕ) (layers : List DirectLayer) (id : NodeId) (workdir_fd : ℕ)
        → Lifts id (create_above sys fuel layers id workdir_fd)
    unfolding create_above create_with
    create_above-Lifts zero layers id workdir_fd = Ensures-raise _
    create_above-Lifts (suc fuel) layers id workdir_fd = Ensures-bind (node_at-is id) λ node.
        on_the_way _ (Keeps-lift _) λ upper.
          Bool_both (LiftsFrom (IsNode id node) id) (is_up node upper)
            (λ up. record { at = λ s h. (h.0, (node, h.1, is_up_lem node upper up)) })
            λ low.
              Ensures-given
                (Ensures-bind
                  (parent_first-Keeps upper node (λ pid.
                    Ensures-weaken (create_above-Lifts fuel layers pid workdir_fd) (λ a s h. h.0)
                      (λ s h. h)))
                  λ u. create_one-Lifts layers id workdir_fd)
                (λ s h. h.0)

    pub create_node_directory-Lifts :
        (layers : List DirectLayer) (id : NodeId) (workdir_fd : ℕ)
        → Lifts id (create_node_directory sys layers id workdir_fd)
    unfolding create_node_directory
    create_node_directory-Lifts layers id workdir_fd = record {
      at = λ s h. (create_above-Lifts (suc (length s.nodes.map)) layers id workdir_fd).at s h;
    }
