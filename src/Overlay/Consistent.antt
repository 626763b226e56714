-- ===== src/Overlay/Consistent.antt =====
-- Every changing handler of src/overlay.rs keeps what is true of the inode table, however it ends.
pub mod Removing
pub mod Creating
pub mod Opening
pub mod Renaming
use fuse_overlayfs.Base.{
  ℕ, ◌≡◌, refl, sym, Bool, true, false, Option, none, some, List, [], ◌∷◌, ok, err, FsResult,
  nat_key, if◌then◌else◌, option_both, result_both, Option-cases, if_both, arith, ok_or,
}
use mathlib.Core.Path.{subst}
use fuse_overlayfs.Config.{OverlayConfig}
use fuse_overlayfs.Datasource.{Bytes, Stat}
use fuse_overlayfs.Layer.Init.{DirectLayer}
use fuse_overlayfs.Node.{NodeId, OvlNode, NodeArena, get_node}
use fuse_overlayfs.Node.Inodes.{InodeTable, register, inc_lookup}
use fuse_overlayfs.Node.Inodes.Invariant.{IsConsistent, register-IsConsistent, update-IsConsistent}
use fuse_overlayfs.Overlay.{OverlayInner, child_of}
use fuse_overlayfs.Overlay.Load.{load_dir_impl}
use fuse_overlayfs.Overlay.Lookup.{do_lookup_file, reload_dir, create_and_register_child}
use fuse_overlayfs.Overlay.Lookup.Insert.{do_lookup_file-IsConsistent}
use fuse_overlayfs.Overlay.Mount.{
  Mount, Handler, call, on_process, on_copy, reads, set_nodes, node_path, node_of, next_wd_counter,
  upper_now, first_now, looks, find_node, node_of_ino, view,
}
use fuse_overlayfs.Overlay.Remove.{Rest, drop_inode, unlink_name, forget_node, remove_entry}
use fuse_overlayfs.Overlay.Serve.{key_of}
use fuse_overlayfs.Sys.{Sys}
use fuse_overlayfs.Sys.Actions.{Action}
use fuse_overlayfs.Sys.Rules.{
  Keeps, Keeps-bind, Keeps-pure, Keeps-raise, Keeps-lift, Keeps-gets, Keeps-ignore, Keeps-attempt,
  Keeps-within, Ensures-if,
}
use fuse_overlayfs.Copyup.{CopyState}
use fuse_overlayfs.Whiteout.Change.{Process}

-- Reading a directory does not touch the inode table.
pub reload_dir-inodes :
    (s : OverlayInner) (id : NodeId) (fast : Bool) → (reload_dir s id fast).0.inodes ≡ s.inodes
unfolding reload_dir load_dir_impl
reload_dir-inodes s id fast = ground arith

created-IsConsistent :
    (s : OverlayInner) (pid : NodeId) (name : Bytes) (st : Stat) (is_dir : Bool)
    → IsConsistent s.inodes
    → IsConsistent (create_and_register_child s pid name st is_dir).0.inodes
unfolding create_and_register_child
created-IsConsistent s pid name st is_dir c =
    option_both (λ (r : OverlayInner × Option (NodeId × ℕ)). IsConsistent r.0.inodes)
      (register s.inodes _ _ st.st_ino st.st_dev st.st_mode) (λ none_free. c)
      λ (t, f) e.
        (update-IsConsistent t _ 0
          (register-IsConsistent s.inodes _ _ st.st_ino st.st_dev st.st_mode t f c e)).1

pub forget_node-IsConsistent :
    (s : OverlayInner) (id : NodeId)
    → IsConsistent s.inodes
    → IsConsistent (forget_node s id).inodes
forget_node-IsConsistent s id c = dropped (get_node s.nodes id)
  where
    dropped : (o : Option OvlNode) → IsConsistent (drop_inode s id o)
    dropped none = c
    dropped (some node) = (update-IsConsistent s.inodes (key_of node) id c).0

remove_entry-IsConsistent :
    (s : OverlayInner) (pid : NodeId) (name : Bytes)
    → IsConsistent s.inodes
    → IsConsistent (remove_entry s pid name).0.inodes
unfolding remove_entry
remove_entry-IsConsistent s pid name c =
    option_both (λ (r : OverlayInner × Rest). IsConsistent r.0.inodes) (child_of s.nodes pid name)
      (λ missing. c)
      λ id e. forget_node-IsConsistent (record s { nodes = unlink_name s.nodes pid name }) id c

module _ {W : Type 0} where
  -- What is said of the inode table only.
  abbrev pub OnInodes : Mount W → Type 0
  OnInodes s = IsConsistent s.inner.inodes

  pub on_process-Keeps : {A : Type 0} (m : Action (Process W) A) → Keeps OnInodes (on_process m)
  on_process-Keeps m = Keeps-within {P = OnInodes} _ _ (λ p s h. h) m

  pub call-Keeps : {A : Type 0} (m : Action W A) → Keeps OnInodes (call m)
  call-Keeps m = on_process-Keeps _

  pub on_copy-Keeps : {A : Type 0} (m : Action (CopyState W) A) → Keeps OnInodes (on_copy m)
  on_copy-Keeps m = Keeps-within {P = OnInodes} _ _ (λ p s h. h) m

  -- A step that only reads.
  pub reads-Keeps : {A : Type 0} (f : OverlayInner → A) → Keeps OnInodes (reads {W = W} f)
  reads-Keeps f = record { at = λ s h. h }

  pub set_nodes-Keeps : (f : NodeArena → NodeArena) → Keeps OnInodes (set_nodes {W = W} f)
  set_nodes-Keeps f = record { at = λ s h. h }

  pub next_wd_counter-Keeps : Keeps OnInodes (next_wd_counter {W = W})
  unfolding next_wd_counter
  next_wd_counter-Keeps = record { at = λ s h. h }

  pub node_path-Keeps : (id : NodeId) → Keeps OnInodes (node_path {W = W} id)
  node_path-Keeps id = record { at = λ s h. h }

  pub result-Keeps :
      {A : Type 0} (f : Mount W → FsResult A) → Keeps OnInodes (λ (s : Mount W). (f s, s))
  result-Keeps f = record { at = λ s h. (Keeps-lift {P = OnInodes} (f s)).at s h }

  pub node_of-Keeps : (id : NodeId) → Keeps OnInodes (node_of {W = W} id)
  node_of-Keeps id = result-Keeps _

  pub upper_now-Keeps : Keeps OnInodes (upper_now {W = W})
  upper_now-Keeps = result-Keeps _

  pub first_now-Keeps : Keeps OnInodes (first_now {W = W})
  first_now-Keeps = result-Keeps _

  module _ (sys : Sys W) where
    pub looks-Keeps :
        {A : Type 0} (f : OverlayInner → OverlayInner × A)
        → ((s : OverlayInner) → IsConsistent s.inodes → IsConsistent (f s).0.inodes)
        → Keeps OnInodes (looks sys f)
    unfolding looks
    looks-Keeps f k = record { at = λ s h. k (view sys s) h }

    pub find_node-Keeps : (ino : ℕ) (name : Option Bytes) → Keeps OnInodes (find_node sys ino name)
    unfolding find_node
    find_node-Keeps ino name =
        looks-Keeps (λ s. do_lookup_file s ino name) λ s c. do_lookup_file-IsConsistent s ino name c

    pub node_of_ino-Keeps : (ino : ℕ) → Keeps OnInodes (node_of_ino sys ino)
    unfolding node_of_ino
    node_of_ino-Keeps ino = Keeps-bind (find_node-Keeps ino none) λ found. Keeps-lift _

    pub reload-Keeps :
        (id : NodeId) (fast : Bool) → Keeps OnInodes (looks sys (λ s. reload_dir s id fast))
    reload-Keeps id fast =
        looks-Keeps (λ s. reload_dir s id fast)
          λ s c. subst IsConsistent (sym (reload_dir-inodes s id fast)) c

    pub created-Keeps :
        (pid : NodeId) (name : Bytes) (st : Stat) (is_dir : Bool)
        → Keeps OnInodes (looks sys (λ s. create_and_register_child s pid name st is_dir))
    created-Keeps pid name st is_dir =
        looks-Keeps (λ s. create_and_register_child s pid name st is_dir)
          λ s c. created-IsConsistent s pid name st is_dir c

    pub removed-Keeps :
        (pid : NodeId) (name : Bytes) → Keeps OnInodes (looks sys (λ s. remove_entry s pid name))
    removed-Keeps pid name =
        looks-Keeps (λ s. remove_entry s pid name) λ s c. remove_entry-IsConsistent s pid name c

pub ruleset steady = (
  call-Keeps, on_process-Keeps, on_copy-Keeps, reads-Keeps, set_nodes-Keeps, next_wd_counter-Keeps,
  node_path-Keeps, node_of-Keeps, upper_now-Keeps, first_now-Keeps, find_node-Keeps,
  node_of_ino-Keeps, reload-Keeps, created-Keeps, removed-Keeps, Keeps-pure, Keeps-raise,
  Keeps-lift, Keeps-gets, Keeps-ignore, Keeps-attempt, Keeps-bind, Ensures-if,
)
