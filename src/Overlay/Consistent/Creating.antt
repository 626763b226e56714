-- ===== src/Overlay/Consistent/Creating.antt =====
-- The handlers that create names keep the inode table consistent. This file uses the names of
-- Overlay/Consistent.antt.
use fuse_overlayfs.Base.{ℕ, Bool, Option, none, some, ok, err, FsResult, option_both}
use fuse_overlayfs.Config.{OverlayConfig}
use fuse_overlayfs.Datasource.{Bytes, Stat, Dev}
use fuse_overlayfs.Layer.Init.{DirectLayer}
use fuse_overlayfs.Node.{NodeId, OvlNode}
use fuse_overlayfs.Overlay.Consistent.{OnInodes, call-Keeps, steady}
use fuse_overlayfs.Overlay.Consistent.Removing.{get_node_up-Keeps}
use fuse_overlayfs.Overlay.Create.{
  User, check_length, check_new_name, own, acl_if_open, acl_on_new, finish_new, opaque_if_open,
  opaque_new, mknod, mkdir, symlink,
}
use fuse_overlayfs.Overlay.Link.{link}
use fuse_overlayfs.Overlay.Upper.{
  get_fs_namemax, prepare_create_parent, registered_or_enomem, register_child, reserve,
  stat_and_register_child, apply_acl, acl_from, acl_of, inherit_acl,
}
use fuse_overlayfs.Copyup.{first_layer}
use fuse_overlayfs.Direct.{fd_of}
use fuse_overlayfs.Sys.{Sys}
use fuse_overlayfs.Sys.Rules.{Ended, Keeps, Keeps-bind, Keeps-pure, Keeps-raise, Keeps-attempt}

module _ {W : Type 0} (sys : Sys W) where
  get_fs_namemax-Keeps : Keeps OnInodes (get_fs_namemax sys)
  unfolding get_fs_namemax
  get_fs_namemax-Keeps = record {
    at = λ s h.
        option_both (Ended (λ (n : ℕ). OnInodes {W = W}) OnInodes) (first_layer s.layers) (λ e. h)
          λ l e.
            (Keeps-bind (Keeps-attempt (call-Keeps (sys.fstatvfs_namemax (fd_of l.direct))))
                λ r. Keeps-pure (reserve r)).at
              s h;
  }

  pub check_length-Keeps : (name : Bytes) → Keeps OnInodes (check_length sys name)
  unfolding check_length
  check_length-Keeps name = search (steady, get_fs_namemax-Keeps) depth 8

  pub check_new_name-Keeps :
      (parent : ℕ) (name : Bytes) → Keeps OnInodes (check_new_name sys parent name)
  unfolding check_new_name
  check_new_name-Keeps parent name = search (steady, check_length-Keeps) depth 12

  pub prepare_create_parent-Keeps :
      (rounds parent : ℕ) (name : Bytes)
      → Keeps OnInodes (prepare_create_parent sys rounds parent name)
  unfolding prepare_create_parent
  prepare_create_parent-Keeps rounds parent name = search (steady, get_node_up-Keeps) depth 14

  registered_or_enomem-Keeps :
      (st : Stat) (made : Option (NodeId × ℕ)) → Keeps OnInodes (registered_or_enomem sys st made)
  unfolding registered_or_enomem
  registered_or_enomem-Keeps st none = Keeps-raise _
  registered_or_enomem-Keeps st (some (id, fuse_ino)) = Keeps-pure _

  pub register_child-Keeps :
      (pid : NodeId) (name : Bytes) (st : Stat) (is_dir : Bool)
      → Keeps OnInodes (register_child sys pid name st is_dir)
  unfolding register_child
  register_child-Keeps pid name st is_dir = search (steady, registered_or_enomem-Keeps)

  stat_and_register_child-Keeps :
      (pid : NodeId) (name path : Bytes)
      → Keeps OnInodes (stat_and_register_child sys pid name path)
  unfolding stat_and_register_child
  stat_and_register_child-Keeps pid name path = search (steady, register_child-Keeps) depth 8

  apply_acl-Keeps : (fd : ℕ) (acl : FsResult Bytes) → Keeps OnInodes (apply_acl sys fd acl)
  unfolding apply_acl
  apply_acl-Keeps fd (err e) = Keeps-pure tt
  apply_acl-Keeps fd (ok acl) = search steady

  acl_from-Keeps :
      (l : Option DirectLayer) (path : Bytes) (fd : ℕ) → Keeps OnInodes (acl_from sys l path fd)
  unfolding acl_from
  acl_from-Keeps none path fd = Keeps-pure tt
  acl_from-Keeps (some l) path fd = search (steady, apply_acl-Keeps)

  acl_of-Keeps :
      (n : Option OvlNode) (path : Bytes) (fd : ℕ) → Keeps OnInodes (acl_of sys n path fd)
  unfolding acl_of
  acl_of-Keeps none path fd = Keeps-pure tt
  acl_of-Keeps (some n) path fd = search (steady, acl_from-Keeps)

  pub inherit_acl-Keeps :
      (id : NodeId) (fd : ℕ) (config : OverlayConfig)
      → Keeps OnInodes (inherit_acl sys id fd config)
  unfolding inherit_acl
  inherit_acl-Keeps id fd config = search (steady, acl_of-Keeps) depth 8

  acl_if_open-Keeps :
      (id : NodeId) (config : OverlayConfig) (fd : FsResult ℕ)
      → Keeps OnInodes (acl_if_open sys id config fd)
  unfolding acl_if_open
  acl_if_open-Keeps id config (err e) = Keeps-pure tt
  acl_if_open-Keeps id config (ok fd) = inherit_acl-Keeps id fd config

  opaque_if_open-Keeps : (fd : FsResult ℕ) → Keeps OnInodes (opaque_if_open sys fd)
  unfolding opaque_if_open
  opaque_if_open-Keeps (err e) = Keeps-pure tt
  opaque_if_open-Keeps (ok fd) = search steady

  opaque_new-Keeps : (w : ℕ) (name : Bytes) (last : ℕ) → Keeps OnInodes (opaque_new sys w name last)
  unfolding opaque_new
  opaque_new-Keeps w name last = search (steady, opaque_if_open-Keeps) depth 8

  own-Keeps :
      (name : Bytes) (req : User) (config : OverlayConfig)
      → Keeps OnInodes (own sys name req config)
  unfolding own
  own-Keeps name req config = search steady

  acl_on_new-Keeps :
      (id : NodeId) (name : Bytes) (flags : ℕ) (config : OverlayConfig)
      → Keeps OnInodes (acl_on_new sys id name flags config)
  unfolding acl_on_new
  acl_on_new-Keeps id name flags config = search (steady, acl_if_open-Keeps) depth 8

  finish_new-Keeps :
      (fd dir : ℕ) (id : NodeId) (parent_path name path : Bytes)
      → Keeps OnInodes (finish_new sys fd dir id parent_path name path)
  unfolding finish_new
  finish_new-Keeps fd dir id parent_path name path =
      search (steady, stat_and_register_child-Keeps) depth 8

  ruleset creation = (
    steady, check_new_name-Keeps, prepare_create_parent-Keeps, own-Keeps, acl_on_new-Keeps,
    opaque_new-Keeps, finish_new-Keeps,
  )

  module _ (rounds : ℕ) (req : User) (parent : ℕ) (name : Bytes) (config : OverlayConfig) where
    pub mknod-Keeps :
        (mode : ℕ) (rdev : Dev) → Keeps OnInodes (mknod sys rounds req parent name mode rdev config)
    unfolding mknod
    mknod-Keeps mode rdev = search creation depth 40 fits 3000

    pub mkdir-Keeps : (mode : ℕ) → Keeps OnInodes (mkdir sys rounds req parent name mode config)
    unfolding mkdir
    mkdir-Keeps mode = search creation depth 40 fits 3000

    pub symlink-Keeps :
        (target : Bytes) → Keeps OnInodes (symlink sys rounds req parent name target config)
    unfolding symlink
    symlink-Keeps target = search creation depth 40 fits 3000

  pub link-Keeps :
      (rounds ino newparent : ℕ) (newname : Bytes)
      → Keeps OnInodes (link sys rounds ino newparent newname)
  unfolding link
  link-Keeps rounds ino newparent newname =
      search (steady, check_length-Keeps, get_node_up-Keeps, register_child-Keeps) depth 50 fits
        3000
