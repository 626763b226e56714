-- ===== src/Overlay/Mount.antt =====
-- The overlay together with what its handlers change outside: the kernel's world and the static
-- variables. A handler of src/overlay.rs that ends by `reply.error` raises the errno. Its lock makes
-- it one step; log lines are left out.
use fuse_overlayfs.Base.{
  ℕ, ◌+◌, ◌%◌, Bool, not, Option, none, some, List, ok, FsResult, ok_or, map, enoent, erofs,
  if◌then◌else◌,
}
use fuse_overlayfs.Base.Text.{to_string}
use fuse_overlayfs.Datasource.{Bytes, at_symlink_nofollow}
use fuse_overlayfs.Layer.Init.{DirectLayer, layer_at}
use fuse_overlayfs.Node.{NodeId, OvlNode, NodeArena, contains_node, get_node, u64_mod}
use fuse_overlayfs.Node.Path.{compute_path}
use fuse_overlayfs.Copyup.{CopyState, first_layer}
use fuse_overlayfs.Overlay.{OverlayInner}
use fuse_overlayfs.Overlay.Attr.{Calls}
use fuse_overlayfs.Overlay.Lookup.{do_lookup_file}
use fuse_overlayfs.Sys.{Sys}
use fuse_overlayfs.Sys.Actions.{Action, lift, ◌>>=◌, within}
use fuse_overlayfs.Whiteout.Change.{Process, kernel}

-- `layers` are the layers of `inner`, of which `inner` itself has the view in one world.
pub record Mount (W : Type 0) : Type 0 where
  pub process : Process W
  pub layers : List DirectLayer
  pub inner : OverlayInner

abbrev pub Handler : Type 0 → Type 0 → Type 0
Handler W A = Action (Mount W) A

-- `is_whiteout_or_missing`
abbrev pub is_whiteout_or_missing : OverlayInner → NodeId → Bool
is_whiteout_or_missing inner id = not (contains_node inner.nodes id)

-- `upper_layer` of the program's own layers, and the error of `upper`.
abbrev pub writable_first : Option DirectLayer → Option DirectLayer
writable_first none = none
writable_first (some l) = if l.low then none else some l

abbrev pub upper_of : List DirectLayer → FsResult DirectLayer
upper_of layers = ok_or (writable_first (first_layer layers)) erofs

module _ {W : Type 0} where
  abbrev pub on_process : {A : Type 0} → Action (Process W) A → Handler W A
  on_process m = within (λ (s : Mount W). s.process) (λ p s. record s { process = p }) m

  abbrev pub call : {A : Type 0} → Action W A → Handler W A
  call m = on_process (kernel m)

  abbrev pub copy_part : Mount W → CopyState W
  copy_part s = record {
    process = s.process;
    nodes = s.inner.nodes;
    wd_counter = s.inner.wd_counter;
  }

  abbrev pub put_copy : CopyState W → Mount W → Mount W
  put_copy c s = record s {
    process = c.process;
    inner = record s.inner { nodes = c.nodes; wd_counter = c.wd_counter };
  }

  abbrev pub on_copy : {A : Type 0} → Action (CopyState W) A → Handler W A
  on_copy m = within copy_part put_copy m

  -- What is read from the state behind the lock.
  abbrev pub reads : {A : Type 0} → (OverlayInner → A) → Handler W A
  reads f s = (ok (f s.inner), s)

  abbrev pub set_nodes : (NodeArena → NodeArena) → Handler W (Unit {0})
  set_nodes f s = (ok tt, record s { inner = record s.inner { nodes = f s.inner.nodes } })

  abbrev pub node_path : NodeId → Handler W Bytes
  node_path id s = (ok (compute_path s.inner.nodes id), s)

  -- `OverlayInner::node`
  abbrev pub node_of : NodeId → Handler W OvlNode
  node_of id s = (ok_or (get_node s.inner.nodes id) enoent, s)

  unfoldable pub next_wd_counter : Handler W Bytes
  next_wd_counter s = (
    ok (to_string s.inner.wd_counter),
    record s { inner = record s.inner { wd_counter = (s.inner.wd_counter + 1) % u64_mod } },
  )

  abbrev pub upper_now : Handler W DirectLayer
  upper_now s = (upper_of s.layers, s)

  -- `self.layers[0]`; the handlers come here only where there is a writable layer.
  abbrev pub first_now : Handler W DirectLayer
  first_now s = (ok_or (first_layer s.layers) erofs, s)

  module _ (sys : Sys W) where
    abbrev pub view : Mount W → OverlayInner
    view s = record s.inner { layers = map (layer_at sys s.process.world) s.layers }

    -- A step that reads the layers as they are.
    unfoldable pub looks : {A : Type 0} → (OverlayInner → OverlayInner × A) → Handler W A
    looks f s = let (inner, a) = f (view s) in (ok a, record s { inner = inner })

    abbrev pub calls_at : W → Calls
    calls_at w = record {
      fgetxattr = λ fd name. (sys.fgetxattr fd name 64 w).0;
      fstatat = λ dirfd path. (sys.fstatat dirfd path at_symlink_nofollow w).0;
    }

    unfoldable pub find_node : ℕ → Option Bytes → Handler W (Option NodeId)
    find_node ino name = looks (λ s. do_lookup_file s ino name)

    -- The node of an inode number, or ENOENT.
    unfoldable pub node_of_ino : ℕ → Handler W NodeId
    node_of_ino ino = do found ← find_node ino none; lift (ok_or found enoent)
