-- ===== src/Overlay/Reach.antt =====
-- The states that the handlers of src/overlay.rs reach in any order of calls, while other programs
-- change the world between them.
use fuse_overlayfs.Base.{
  ℕ, ◌≡◌, refl, sym, ◌∙◌, Bool, Option, none, some, List, FsResult, map, arith, if_both,
  if◌then◌else◌, true, false, ◌==◌,
}
use mathlib.Core.Path.{subst}
use fuse_overlayfs.Config.{OverlayConfig}
use fuse_overlayfs.Datasource.{Bytes, Dev}
use fuse_overlayfs.Layer.Init.{DirectLayer, layer_at}
use fuse_overlayfs.Mapping.{OverflowIds}
use fuse_overlayfs.Node.{NodeId, get_node}
use fuse_overlayfs.Node.Inodes.{set_same_device}
use fuse_overlayfs.Node.Inodes.Invariant.{
  IsConsistent, empty_table-IsConsistent, forget-IsConsistent,
}
use fuse_overlayfs.Overlay.{OverlayInner}
use fuse_overlayfs.Overlay.Attr.{Calls}
use fuse_overlayfs.Overlay.Consistent.{reload_dir-inodes}
use fuse_overlayfs.Overlay.Consistent.Creating.{mknod-Keeps, mkdir-Keeps, symlink-Keeps, link-Keeps}
use fuse_overlayfs.Overlay.Consistent.Opening.{create-Keeps, readdirplus-IsConsistent}
use fuse_overlayfs.Overlay.CreateFile.{create}
use fuse_overlayfs.Overlay.ReadDir.{readdirplus}
use fuse_overlayfs.Overlay.Consistent.Removing.{do_rm-Keeps}
use fuse_overlayfs.Overlay.Consistent.Renaming.{rename-Keeps}
use fuse_overlayfs.Overlay.Create.{User, mknod, mkdir, symlink}
use fuse_overlayfs.Overlay.Link.{link}
use fuse_overlayfs.Overlay.Load.{load_dir_impl}
use fuse_overlayfs.Overlay.Lookup.{ensure_root_loaded, load_dir_entries, reload_dir}
use fuse_overlayfs.Overlay.Mount.{Mount, view, calls_at}
use fuse_overlayfs.Overlay.Query.{
  Entry, opendir, getattr, build_dir_entries, load_root_if, open_node, loaded_or_missing,
  is_dir_there,
}
use fuse_overlayfs.Overlay.Remove.{unlink, rmdir}
use fuse_overlayfs.Overlay.Rename.{rename}
use fuse_overlayfs.Overlay.Serve.{new_overlay, lookup, forget_handler}
use fuse_overlayfs.Overlay.Serve.Known.{lookup-IsGood}
use fuse_overlayfs.Sys.{Sys}
use fuse_overlayfs.Sys.Rules.{Keeps-state}
use fuse_overlayfs.Whiteout.Change.{Process}

-- The state behind the lock after a handler that only reads the layers.
abbrev pub put_inner : {W : Type 0} → Mount W → OverlayInner → Mount W
put_inner s inner = record s { inner = inner }

abbrev pub mounted :
    {W : Type 0} → Sys W → Process W → List DirectLayer → ℕ → OverflowIds → Bool → Mount W
mounted sys process layers workdir_fd overflow can_mknod = record {
  process = process;
  layers = layers;
  inner = new_overlay (map (layer_at sys process.world) layers) workdir_fd overflow can_mknod;
}

-- One call of a handler, or a change of the world by someone else.
pub data Step {W : Type 0} (sys : Sys W) (s : Mount W) : Mount W → Type 0 where
  outside : (process : Process W) → Step sys s (record s { process = process })
  looked_up :
      (parent : ℕ) (name : Bytes) (config : OverlayConfig)
      → Step sys s
          (put_inner s (lookup (calls_at sys s.process.world) (view sys s) parent name config).0)
  forgotten : (ino nlookup : ℕ) → Step sys s (put_inner s (forget_handler s.inner ino nlookup))
  asked :
      (ino : ℕ) (config : OverlayConfig)
      → Step sys s (put_inner s (getattr (calls_at sys s.process.world) (view sys s) ino config).0)
  opened_dir :
      (ino : ℕ) (config : OverlayConfig)
      → Step sys s (put_inner s (opendir (calls_at sys s.process.world) (view sys s) ino config).0)
  unlinked :
      (rounds parent : ℕ) (name : Bytes) (config : OverlayConfig)
      → Step sys s (unlink sys rounds parent name config s).1
  dir_removed :
      (rounds parent : ℕ) (name : Bytes) (config : OverlayConfig)
      → Step sys s (rmdir sys rounds parent name config s).1
  node_made :
      (rounds : ℕ) (req : User) (parent : ℕ) (name : Bytes) (config : OverlayConfig) (mode : ℕ)
      (rdev : Dev)
      → Step sys s (mknod sys rounds req parent name mode rdev config s).1
  dir_made :
      (rounds : ℕ) (req : User) (parent : ℕ) (name : Bytes) (config : OverlayConfig) (mode : ℕ)
      → Step sys s (mkdir sys rounds req parent name mode config s).1
  symlink_made :
      (rounds : ℕ) (req : User) (parent : ℕ) (name : Bytes) (config : OverlayConfig)
      (target : Bytes)
      → Step sys s (symlink sys rounds req parent name target config s).1
  file_made :
      (rounds : ℕ) (req : User) (parent : ℕ) (name : Bytes) (config : OverlayConfig)
      (mode flags : ℕ)
      → Step sys s (create sys rounds req parent name mode flags config s).1
  read_plus :
      (is_full : ℕ → Entry → Bool) (entries : List Entry) (offset : ℕ)
      → Step sys s (put_inner s (readdirplus is_full s.inner entries offset).0)
  linked :
      (rounds ino newparent : ℕ) (newname : Bytes)
      → Step sys s (link sys rounds ino newparent newname s).1
  renamed :
      (rounds parent : ℕ) (name : Bytes) (newparent : ℕ) (newname : Bytes) (flags : ℕ)
      (config : OverlayConfig)
      → Step sys s (rename sys rounds parent name newparent newname flags config s).1

pub data Reached {W : Type 0} (sys : Sys W) : Mount W → Type 0 where
  begun :
      (process : Process W) (layers : List DirectLayer) (workdir_fd : ℕ) (overflow : OverflowIds)
      (can_mknod : Bool)
      → Reached sys (mounted sys process layers workdir_fd overflow can_mknod)
  next : {s t : Mount W} → Reached sys s → Step sys s t → Reached sys t

ensure_root_loaded-inodes :
    (s : OverlayInner) (fast : Bool) → (ensure_root_loaded s fast).inodes ≡ s.inodes
unfolding ensure_root_loaded load_dir_entries load_dir_impl
ensure_root_loaded-inodes s fast = ground arith

getattr-inodes :
    (calls : Calls) (s : OverlayInner) (ino : ℕ) (config : OverlayConfig)
    → (getattr calls s ino config).0.inodes ≡ s.inodes
unfolding getattr
getattr-inodes calls s ino config =
    ground (arith, ensure_root_loaded-inodes s config.fast_ino_check)

build_dir_entries-inodes :
    (calls : Calls) (s : OverlayInner) (id : NodeId) (config : OverlayConfig)
    → (build_dir_entries calls s id config).0.inodes ≡ s.inodes
unfolding build_dir_entries
build_dir_entries-inodes calls s id config = reload_dir-inodes s id config.fast_ino_check

load_root-inodes :
    (s : OverlayInner) (ino : ℕ) (config : OverlayConfig)
    → (load_root_if s ino config).inodes ≡ s.inodes
load_root-inodes s ino config =
    if_both (λ (t : OverlayInner). t.inodes ≡ s.inodes) (ino == 1)
      (λ e. ensure_root_loaded-inodes s config.fast_ino_check) λ e. refl

loaded-inodes :
    (s : OverlayInner) (id : NodeId) (fast : Bool) (b : Bool)
    → (if b then s else (reload_dir s id fast).0).inodes ≡ s.inodes
loaded-inodes s id fast true = refl
loaded-inodes s id fast false = reload_dir-inodes s id fast

open_node-inodes :
    (calls : Calls) (config : OverlayConfig) (s : OverlayInner) (o : Option NodeId)
    → (open_node calls config s o).0.inodes ≡ s.inodes
open_node-inodes calls config s none = refl
open_node-inodes calls config s (some id) =
    if_both (λ (r : OverlayInner × FsResult (List Entry)). r.0.inodes ≡ s.inodes)
      (is_dir_there (get_node s.nodes id))
      (λ e.
        build_dir_entries-inodes calls _ id config
        ∙ loaded-inodes s id config.fast_ino_check (loaded_or_missing (get_node s.nodes id)))
      λ e. refl

opendir-inodes :
    (calls : Calls) (s : OverlayInner) (ino : ℕ) (config : OverlayConfig)
    → (opendir calls s ino config).0.inodes ≡ s.inodes
unfolding opendir
opendir-inodes calls s ino config =
    open_node-inodes calls config (load_root_if s ino config) _ ∙ load_root-inodes s ino config

module _ {W : Type 0} {sys : Sys W} where
  Step-IsConsistent :
      {s t : Mount W} → IsConsistent s.inner.inodes → Step sys s t → IsConsistent t.inner.inodes
  unfolding forget_handler unlink rmdir
  Step-IsConsistent c (outside process) = c
  Step-IsConsistent {s = s} c (looked_up parent name config) =
      (lookup-IsGood (calls_at sys s.process.world) (view sys s) parent name config c).consistent
  Step-IsConsistent {s = s} c (forgotten ino nlookup) =
      forget-IsConsistent s.inner.inodes ino nlookup c
  Step-IsConsistent {s = s} c (asked ino config) =
      subst IsConsistent (sym (getattr-inodes _ (view sys s) ino config)) c
  Step-IsConsistent {s = s} c (opened_dir ino config) =
      subst IsConsistent (sym (opendir-inodes _ (view sys s) ino config)) c
  Step-IsConsistent {s = s} c (unlinked rounds parent name config) =
      Keeps-state (do_rm-Keeps sys rounds parent name false config) s c
  Step-IsConsistent {s = s} c (dir_removed rounds parent name config) =
      Keeps-state (do_rm-Keeps sys rounds parent name true config) s c
  Step-IsConsistent {s = s} c (node_made rounds req parent name config mode rdev) =
      Keeps-state (mknod-Keeps sys rounds req parent name config mode rdev) s c
  Step-IsConsistent {s = s} c (dir_made rounds req parent name config mode) =
      Keeps-state (mkdir-Keeps sys rounds req parent name config mode) s c
  Step-IsConsistent {s = s} c (symlink_made rounds req parent name config target) =
      Keeps-state (symlink-Keeps sys rounds req parent name config target) s c
  Step-IsConsistent {s = s} c (file_made rounds req parent name config mode flags) =
      Keeps-state (create-Keeps sys rounds req parent name mode flags config) s c
  Step-IsConsistent {s = s} c (read_plus is_full entries offset) =
      readdirplus-IsConsistent is_full s.inner entries offset c
  Step-IsConsistent {s = s} c (linked rounds ino newparent newname) =
      Keeps-state (link-Keeps sys rounds ino newparent newname) s c
  Step-IsConsistent {s = s} c (renamed rounds parent name newparent newname flags config) =
      Keeps-state (rename-Keeps sys rounds parent name newparent newname flags config) s c

  -- Whatever calls of lookup, forget, getattr, opendir, readdirplus, unlink, rmdir, mknod, mkdir,
  -- symlink, create, link and rename have run since the mount, in any order and however each of them
  -- ended, and whatever other programs did to the files meanwhile, the inode table is consistent:
  -- each file's number leads back to the file, and no number is reserved. The other handlers are no
  -- steps. A readdirplus may be given any entries.
  pub Reached-IsConsistent : {s : Mount W} → Reached sys s → IsConsistent s.inner.inodes
  unfolding new_overlay set_same_device
  Reached-IsConsistent (begun process layers workdir_fd overflow can_mknod) = record {
    mapped = empty_table-IsConsistent.mapped;
    unreserved = empty_table-IsConsistent.unreserved;
  }
  Reached-IsConsistent (next r step) = Step-IsConsistent (Reached-IsConsistent r) step
