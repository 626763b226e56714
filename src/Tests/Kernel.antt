-- ===== src/Tests/Kernel.antt =====
-- A kernel whose world is the number of bytes that a source file still has, and runs of the program
-- on it: paths, copy-up, removal of a name, and the states that the handlers reach.
use fuse_overlayfs.Base.{
  ℕ, zero, suc, ◌^◌, ◌≤◌, ◌<◌, ◌==◌, List, all, ◌≡◌, refl, true, false, none, some, [], ◌∷◌, ok,
  err, codes, arith, enoent, bytes_eq, if◌then◌else◌, nat_key, bytes_key,
}
use fuse_overlayfs.Base.Map
use fuse_overlayfs.Copyup.{CopyState}
use fuse_overlayfs.Copyup.Contents.{copy_data}
use fuse_overlayfs.Copyup.Contents.Ends.{MakesProgress, Ends, copy_data-Ends}
use fuse_overlayfs.Copyup.Dirs.{create_node_directory}
use fuse_overlayfs.Copyup.Dirs.Ends.{create_path, create_node_directory-create_path}
use fuse_overlayfs.Copyup.Files.{copyup}
use fuse_overlayfs.Copyup.Lifted.{IsLifted, LiftedTo, copyup-IsLifted}
use fuse_overlayfs.Direct.{new_direct}
use fuse_overlayfs.Layer.Init.{DirectLayer, init_layers}
use fuse_overlayfs.Layer.Init.Order.{InitEnds, plain_dirs, init_layers-AreLayers}
use fuse_overlayfs.Config.Split.{parse_lowerdir}
use fuse_overlayfs.Node.{new_node, get_node, get_child}
use fuse_overlayfs.Node.Inodes.Invariant.{IsConsistent}
use fuse_overlayfs.Overlay.{child_of}
use fuse_overlayfs.Overlay.Mount.{Mount}
use fuse_overlayfs.Overlay.Reach.{Reached, begun, next, unlinked, mounted, Reached-IsConsistent}
use fuse_overlayfs.Overlay.Remove.{remove_entry, unlink}
use fuse_overlayfs.Overlay.Remove.Removed.{IsRemoved, remove_entry-IsRemoved}
use Prim.Native.Nat.{bit_or}
use fuse_overlayfs.Node.Path.{child_path}
use fuse_overlayfs.Sys.{Sys, o_directory, o_path}
use fuse_overlayfs.Sys.Actions.{Action, pure, ◌>>=◌}
use fuse_overlayfs.Sys.Openat.{open_parent_safe, safe_openat}
use fuse_overlayfs.Sys.Openat.Parent.{open_parent_safe-child_path}
use fuse_overlayfs.Tests.Calls.{loaded_state}
use fuse_overlayfs.Tests.Paths.{tree, dir_a-IsAt}
use fuse_overlayfs.Tests.Directories.{stat_of}
use fuse_overlayfs.Tests.Stats.{config}

abbrev done : Action ℕ (Unit {0})
done w = (ok tt, w)

-- One byte of the source goes with each call.
abbrev send_byte : Action ℕ ℕ
send_byte zero = (ok 0, zero)
send_byte (suc w) = (ok 1, w)

abbrev sys : Sys ℕ
sys = record {
  openat2 = λ d p f m r w. (ok 9, w);
  open_path = λ p f m w. (ok 9, w);
  faccessat = λ d p m f. done;
  fstat = λ d w. (ok (stat_of 0o100644), w);
  fstatat = λ d p f w. (ok (stat_of 0o100644), w);
  fstatvfs_namemax = λ d w. (ok 255, w);
  statx = λ d p f m w. (err enoent, w);
  realpath = λ p w. (ok p, w);
  name_to_handle_at = λ d p f w. (err enoent, w);
  read_dir = λ d w. (ok [], w);
  readlinkat = λ d p w. (ok (codes "to"), w);
  fgetxattr = λ d n s w. (err 61, w);
  lgetxattr = λ p n s w. (err 61, w);
  flistxattr = λ d s w. (ok [], w);
  llistxattr = λ p s w. (ok [], w);
  fsetxattr = λ d n v f. done;
  mkdirat = λ d p m. done;
  mknodat = λ d p m r. done;
  symlinkat = λ t d p. done;
  unlinkat = λ d p f. done;
  renameat = λ d p e q. done;
  linkat = λ d p e q f. done;
  renameat2 = λ d p e q f. done;
  fchown = λ d u g. done;
  fchownat = λ d p u g f. done;
  fchmod = λ d m. done;
  futimens = λ d a m. done;
  ficlone = λ d s w. (err 95, w);
  sendfile = λ d s n. send_byte;
  read = λ s n w. (ok [], w);
  write = λ d b w. (ok 1, w);
}

abbrev left : ℕ → ℕ
left w = w

send_left : (w : ℕ) → left (send_byte w).1 ≤ w
send_left zero = omega arith
send_left (suc w) = omega arith

send_moves : (k w : ℕ) → (send_byte w).0 ≡ ok k → (k == 0) ≡ false → left (send_byte w).1 < w
send_moves k zero e h = absurd (ground arith)
send_moves k (suc w) e h = omega arith

send_ok : (w e : ℕ) → (send_byte w).0 ≡ err e → ⊥
send_ok zero e h = cc
send_ok (suc w) e h = cc

sys-MakesProgress : MakesProgress sys left
sys-MakesProgress = record {
  clone_left = λ d s w. omega arith;
  send_left = λ d s n w. send_left w;
  send_moves = λ d s n k w e h. send_moves k w e h;
  send_interrupted = λ d s n w e. absurd (send_ok w _ e);
  read_moves = λ s n c buf w e. absurd cc;
  read_left = λ s n w. omega arith;
  write_moves = λ d c k buf w e. ground arith;
  write_left = λ d buf w. omega arith;
  read_errno = λ s n e w h. absurd cc;
  write_errno = λ d e buf w h. absurd cc;
}

-- Five bytes.
copy_data-Ends_example : Ends left 5 (copy_data sys (2 ^ 20) 3 4 5 5)
copy_data-Ends_example =
    copy_data-Ends sys-MakesProgress (2 ^ 20) 3 4 5 5 (omega arith) (omega arith)

open_parent_safe-child_path_example :
    open_parent_safe sys 3 (child_path (codes "a") (codes "b")) ≡ (
      if bytes_eq (codes "a") (codes ".")
      then pure (none, codes "b")
      else safe_openat sys 3 (codes "a") (bit_or o_directory o_path) 0 >>= λ fd.
          pure (some fd, codes "b"))
unfolding all
open_parent_safe-child_path_example = open_parent_safe-child_path sys 3 (codes "a") (codes "b") refl

abbrev layers : List DirectLayer
layers =
    record { direct = record new_direct { fd = some 5 }; low = false }
    ∷ record { direct = record new_direct { fd = some 6 }; low = true }
    ∷ []

abbrev copy_state : CopyState ℕ
copy_state = record {
  process = record { world = 5; can_mknod = true };
  nodes = tree;
  wd_counter = 1;
}

copyup-IsLifted_example :
    let (r, s') = copyup sys 2097152 layers 3 4 copy_state in
    IsLifted tree s'.nodes × LiftedTo 3 r s'.nodes
copyup-IsLifted_example = copyup-IsLifted sys 2097152 layers 3 4 copy_state

create_node_directory-create_path_example :
    create_node_directory sys layers 2 4 copy_state
    ≡ create_path sys layers 4 (codes "a" ∷ []) 2 copy_state
create_node_directory-create_path_example =
    create_node_directory-create_path sys layers 4 2 (codes "a" ∷ []) copy_state dir_a-IsAt

init_layers-AreLayers_example :
    InitEnds sys 0 0
      (some (codes "/up"))
      (plain_dirs (parse_lowerdir (codes "/a:/b")))
      (init_layers sys (codes "/a:/b") (some (codes "/up")) 0 0 5)
init_layers-AreLayers_example = init_layers-AreLayers sys 0 (codes "/a:/b") (some (codes "/up")) 0 5

-- The file "b" of the root.
remove_entry-IsRemoved_example :
    IsRemoved loaded_state 1 (codes "b") 2 (remove_entry loaded_state 1 (codes "b")).0
unfolding child_of get_node Map.get get_child new_node bytes_eq
remove_entry-IsRemoved_example = remove_entry-IsRemoved loaded_state 1 (codes "b") 2 refl

abbrev start : Mount ℕ
start =
    mounted sys (record { world = 5; can_mknod = true }) layers 4
      (record { uid = 65534; gid = 65534 }) true

start-Reached : Reached sys (unlink sys 100 1 (codes "b") config start).1
start-Reached =
    next
      (begun (record { world = 5; can_mknod = true }) layers 4 (record { uid = 65534; gid = 65534 })
        true)
      (unlinked 100 1 (codes "b") config)

Reached-IsConsistent_example :
    IsConsistent (unlink sys 100 1 (codes "b") config start).1.inner.inodes
Reached-IsConsistent_example = Reached-IsConsistent start-Reached
