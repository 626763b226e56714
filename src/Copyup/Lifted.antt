-- ===== src/Copyup/Lifted.antt =====
-- What `copyup` as a whole does to the arena.
use fuse_overlayfs.Base.{
  ℕ, ◌≡◌, ◌⊎◌, inl, inr, refl, sym, ap, ◌∙◌, Bool, true, false, Option, none, some, List, ok, err,
  FsResult, arith, nat_key, same, if◌then◌else◌, Option-cases,
}
use mathlib.Core.Path.{subst}
use fuse_overlayfs.Direct.{fd_of}
use fuse_overlayfs.Layer.Init.{DirectLayer}
use fuse_overlayfs.Node.{NodeId, OvlNode, NodeArena, get_node, update_node}
use fuse_overlayfs.Sys.{Sys}
use fuse_overlayfs.Sys.Rules.{
  Ended, Keeps, Ensures-bind, Ensures-weaken, Ensures-given, Ensures-raise, Keeps-pure, Keeps-lift,
  Ensures-if,
}
use fuse_overlayfs.Copyup.{CopyState, set_upper}
use fuse_overlayfs.Copyup.Effect.{
  IsUpper, IsThere, IsKeptByMarks, Both, IsThere-mark, get_node-mark, get_node-mark_none, Lifts,
  after_node, on_the_way, mark_upper-IsUpper, create_node_directory-Lifts,
}
use fuse_overlayfs.Copyup.Files.{is_dir_type, type_of_mode, parents_first, copy_node, copyup}
use fuse_overlayfs.Copyup.Quiet.{OnNodes, call-quiet, path_at-quiet, copy_file-quiet}

module _ {W : Type 0} (sys : Sys W) where
  module _ (P : NodeArena → Type 0) (keep : IsKeptByMarks P) where
    parents_first-Keeps :
        (layers : List DirectLayer) (parent : Option NodeId) (workdir_fd : ℕ)
        → Keeps (OnNodes {W = W} P) (parents_first sys layers parent workdir_fd)
    parents_first-Keeps layers none workdir_fd = Keeps-pure tt
    parents_first-Keeps layers (some pid) workdir_fd =
        Ensures-weaken (create_node_directory-Lifts P keep sys layers pid workdir_fd) (λ u s h. h.0)
          (λ s h. h)

  module _ (P : NodeArena → Type 0) (keep : IsKeptByMarks P) where
    copy_node-Lifts :
        (rounds : ℕ) (layers : List DirectLayer) (id : NodeId) (workdir_fd : ℕ)
        (upper : DirectLayer)
        → Lifts P keep sys id (copy_node sys rounds layers id workdir_fd upper)
    copy_node-Lifts rounds layers id workdir_fd upper = Ensures-bind (path_at-quiet P id) λ path.
        after_node P keep sys id λ node. on_the_way P keep sys _ (Keeps-lift _) λ source.
          on_the_way P keep sys _ (call-quiet _ _) λ st.
            on_the_way P keep sys _
              (parents_first-Keeps (Both P (IsThere id))
                (λ k a h. (keep k a h.0, IsThere-mark k id a h.1)) layers node.parent workdir_fd)
              λ u.
                Ensures-if (is_dir_type (type_of_mode st.st_mode))
                  (λ e.
                    Ensures-given (create_node_directory-Lifts P keep sys layers id workdir_fd)
                      (λ s h. h.0))
                  λ e.
                    on_the_way P keep sys _
                      (copy_file-quiet _ sys source.direct path st workdir_fd rounds
                        (fd_of upper.direct))
                      λ v. mark_upper-IsUpper P keep id

    copyup-Lifts :
        (rounds : ℕ) (layers : List DirectLayer) (id : NodeId) (workdir_fd : ℕ)
        → Lifts P keep sys id (copyup sys rounds layers id workdir_fd)
    unfolding copyup
    copyup-Lifts rounds layers id workdir_fd = Ensures-bind (Keeps-lift _) λ upper.
        Ensures-if upper.low (λ e. Ensures-raise _)
          λ e. copy_node-Lifts rounds layers id workdir_fd upper

abbrev LiftedNode : Option OvlNode → Option OvlNode → Type 0
LiftedNode none none = Unit
LiftedNode (some n) (some m) = (m ≡ n) ⊎ (m ≡ set_upper n)
LiftedNode none (some m) = ⊥
LiftedNode (some n) none = ⊥

-- The same nodes, of which some have moved to the upper layer.
pub record IsLifted (a b : NodeArena) : Type 0 where
  pub nodes : (id : NodeId) → LiftedNode (get_node a id) (get_node b id)
  pub next_id : b.next_id ≡ a.next_id
  pub stat_nodes : b.stat_nodes ≡ a.stat_nodes

LiftedNode-self : (o : Option OvlNode) → LiftedNode o o
LiftedNode-self none = tt
LiftedNode-self (some n) = inl refl

LiftedNode-set_upper :
    (o : Option OvlNode) (n : OvlNode) (b : Bool)
    → LiftedNode o (some n)
    → LiftedNode o (some (if b then set_upper n else n))
LiftedNode-set_upper o n false h = h
LiftedNode-set_upper none n true h = elim h [ ]
LiftedNode-set_upper (some m) n true (inl e) = inr (ap set_upper e)
LiftedNode-set_upper (some m) n true (inr e) = inr (ap set_upper e)

LiftedNode-mark :
    (o : Option OvlNode) (a : NodeArena) (k id : NodeId)
    → LiftedNode o (get_node a id)
    → LiftedNode o (get_node (update_node a k set_upper) id)
LiftedNode-mark o a k id h = elim (Option-cases (get_node a id)) [
  | inl e ↦ subst (LiftedNode o) (e ∙ sym (get_node-mark_none a k id e)) h
  | inr (n, e) ↦
      subst (LiftedNode o) (sym (get_node-mark a k id n e))
        (LiftedNode-set_upper o n (same k id) (subst (LiftedNode o) e h))
]

update_counters :
    (a : NodeArena) (k : NodeId)
    → ((update_node a k set_upper).next_id ≡ a.next_id)
      × ((update_node a k set_upper).stat_nodes ≡ a.stat_nodes)
unfolding update_node
update_counters a k = ground arith

IsLifted-mark : (a : NodeArena) → IsKeptByMarks (IsLifted a)
IsLifted-mark a k b h = record {
  nodes = λ id. LiftedNode-mark (get_node a id) b k id (h.nodes id);
  next_id = (update_counters b k).0 ∙ h.next_id;
  stat_nodes = (update_counters b k).1 ∙ h.stat_nodes;
}

pub IsLifted-self : (a : NodeArena) → IsLifted a a
IsLifted-self a = record {
  nodes = λ id. LiftedNode-self (get_node a id);
  next_id = refl;
  stat_nodes = refl;
}

-- How a copy-up ended: on a success the node is on the upper layer.
abbrev pub LiftedTo : NodeId → FsResult (Unit {0}) → NodeArena → Type 0
LiftedTo id (ok u) b = IsUpper id b
LiftedTo id (err e) b = Unit

Ended-IsLifted :
    {W : Type 0} (a : NodeArena) (id : NodeId) (r : FsResult (Unit {0}) × CopyState W)
    → Ended
        (λ (u : Unit {0}). OnNodes {W = W} (Both (IsLifted a) (IsUpper id)))
        (OnNodes {W = W} (IsLifted a))
        r
    → IsLifted a r.1.nodes × LiftedTo id r.0 r.1.nodes
Ended-IsLifted a id (ok u, s) h = h
Ended-IsLifted a id (err e, s) h = (h, tt)

-- However a copy-up ends, also after a failure at any call, the arena has the nodes it had, each
-- as it was or moved to the upper layer. If it succeeds, the node that was asked for is there, and
-- on the upper layer.
pub copyup-IsLifted :
    {W : Type 0} (sys : Sys W) (rounds : ℕ) (layers : List DirectLayer) (id : NodeId)
    (workdir_fd : ℕ) (s : CopyState W)
    → let (r, s') = copyup sys rounds layers id workdir_fd s in
      IsLifted s.nodes s'.nodes × LiftedTo id r s'.nodes
copyup-IsLifted sys rounds layers id workdir_fd s =
    Ended-IsLifted s.nodes id (copyup sys rounds layers id workdir_fd s) (
      (copyup-Lifts sys (IsLifted s.nodes) (IsLifted-mark s.nodes) rounds layers id workdir_fd).at s
        (IsLifted-self s.nodes))
