-- ===== src/Copyup.antt =====
-- src/copyup.rs: copying a file or a directory of a lower layer to the upper one, so that it can be
-- changed there. The copy is made in the work directory and moved into place by one rename.
pub mod Contents
pub mod Dirs
pub mod Files
pub mod Quiet
pub mod Effect
pub mod Lifted
use fuse_overlayfs.Base.{
  ℕ, ◌+◌, ◌%◌, Bool, true, false, not, ◌&&◌, Option, none, some, List, [], ◌∷◌, ok, err, FsResult,
  ◌==◌, if◌then◌else◌, ok_or, enoent,
}
use fuse_overlayfs.Base.Text.{to_string}
use fuse_overlayfs.Datasource.{Bytes, Stat}
use fuse_overlayfs.Layer.Init.{DirectLayer}
use fuse_overlayfs.Node.{NodeId, OvlNode, NodeArena, get_node, update_node, u64_mod}
use fuse_overlayfs.Node.Path.{compute_path}
use fuse_overlayfs.Sys.{Timespec}
use fuse_overlayfs.Sys.Actions.{Action, pure, lift, gets, ◌>>=◌, within}
use fuse_overlayfs.Whiteout.Change.{Process, kernel}

-- What a copy-up changes: the process and the kernel's world, the arena, and the counter of the
-- names in the work directory.
pub record CopyState (W : Type 0) : Type 0 where
  pub process : Process W
  pub nodes : NodeArena
  pub wd_counter : ℕ

abbrev pub on_process : {W A : Type 0} → Action (Process W) A → Action (CopyState W) A
on_process {W} m = within (λ (s : CopyState W). s.process) (λ p s. record s { process = p }) m

abbrev pub call : {W A : Type 0} → Action W A → Action (CopyState W) A
call m = on_process (kernel m)

unfoldable pub stat_times : Stat → Timespec × Timespec
stat_times st = (
  record { tv_sec = st.st_atime; tv_nsec = st.st_atime_nsec },
  record { tv_sec = st.st_mtime; tv_nsec = st.st_mtime_nsec },
)

abbrev pub first_layer : List DirectLayer → Option DirectLayer
first_layer [] = none
first_layer (l ∷ rest) = some l

-- `node.layer_idx == 0 && !upper_ref.low`
abbrev pub is_up : OvlNode → DirectLayer → Bool
is_up node upper = (node.layer_idx == 0) && not upper.low

abbrev pub set_upper : OvlNode → OvlNode
set_upper n = record n { layer_idx = 0 }

module _ {W : Type 0} where
  unfoldable pub next_wd_name : Action (CopyState W) Bytes
  next_wd_name s =
      (ok (to_string s.wd_counter), record s { wd_counter = (s.wd_counter + 1) % u64_mod })

  abbrev pub node_at : NodeId → Action (CopyState W) OvlNode
  node_at id s = (ok_or (get_node s.nodes id) enoent, s)

  abbrev pub path_at : NodeId → Action (CopyState W) Bytes
  path_at id s = (ok (compute_path s.nodes id), s)

  -- The node is on the upper layer from now on.
  unfoldable pub mark_upper : NodeId → Action (CopyState W) (Unit {0})
  mark_upper id s = (ok tt, record s { nodes = update_node s.nodes id set_upper })
