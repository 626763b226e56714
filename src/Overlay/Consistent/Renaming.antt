-- ===== src/Overlay/Consistent/Renaming.antt =====
-- `rename` keeps the inode table consistent. This file uses the names of Overlay/Consistent.antt.
use fuse_overlayfs.Base.{ℕ, Bool, true, false, Option, none, some}
use fuse_overlayfs.Config.{OverlayConfig}
use fuse_overlayfs.Datasource.{Bytes}
use fuse_overlayfs.Layer.Init.{DirectLayer}
use fuse_overlayfs.Node.{NodeId}
use fuse_overlayfs.Overlay.Consistent.{OnInodes, looks-Keeps, forget_node-IsConsistent, steady}
use fuse_overlayfs.Overlay.Consistent.Creating.{check_length-Keeps}
use fuse_overlayfs.Overlay.Consistent.Removing.{get_node_up-Keeps, existing_node-Keeps}
use fuse_overlayfs.Overlay.Mount.{looks}
use fuse_overlayfs.Overlay.Relink.{unlinked, replaced}
use fuse_overlayfs.Overlay.Rename.{
  check_source, clear_target, check_target, lifted_exchange, drop_target, move_in_memory,
  moved_or_exchanged, cover, cover_source, dir_target, rename,
}
use fuse_overlayfs.Sys.{Sys}
use fuse_overlayfs.Sys.Rules.{Keeps, Keeps-bind, Keeps-pure, Keeps-lift, Ensures-if}

module _ {W : Type 0} (sys : Sys W) where
  check_source-Keeps :
      (b : Bool) (id : NodeId) (config : OverlayConfig)
      → Keeps OnInodes (check_source sys b id config)
  unfolding check_source
  check_source-Keeps false id config = Keeps-pure tt
  check_source-Keeps true id config = search steady depth 12

  clear_target-Keeps :
      (l : DirectLayer) (id : NodeId) (config : OverlayConfig)
      → Keeps OnInodes (clear_target sys l id config)
  unfolding clear_target
  clear_target-Keeps l id config = search steady depth 16

  check_target-Keeps :
      (flags : ℕ) (l : DirectLayer) (dst : Option NodeId) (config : OverlayConfig)
      → Keeps OnInodes (check_target sys flags l dst config)
  unfolding check_target
  check_target-Keeps flags l none config = Keeps-pure tt
  check_target-Keeps flags l (some id) config = search (steady, clear_target-Keeps) depth 8

  lifted_exchange-Keeps :
      (p : NodeId) (name : Bytes) (q : NodeId) (newname : Bytes)
      → Keeps OnInodes (lifted_exchange sys p name q newname)
  unfolding lifted_exchange
  lifted_exchange-Keeps p name q newname =
      Keeps-bind (looks-Keeps sys _ (λ s c. c)) λ r. Keeps-lift r

  replaced-Keeps :
      (q : NodeId) (newname : Bytes) (id : NodeId)
      → Keeps OnInodes (looks sys (λ s. (replaced q newname id s, tt {0})))
  unfolding replaced
  replaced-Keeps q newname id =
      looks-Keeps sys _
        λ s c. forget_node-IsConsistent (record s { nodes = unlinked q newname s.nodes }) id c

  drop_target-Keeps :
      (q : NodeId) (newname : Bytes) (dst : Option NodeId)
      → Keeps OnInodes (drop_target sys q newname dst)
  unfolding drop_target
  drop_target-Keeps q newname none = Keeps-pure tt
  drop_target-Keeps q newname (some id) = search (steady, replaced-Keeps) depth 10

  move_in_memory-Keeps :
      (p : NodeId) (name : Bytes) (ino : ℕ) (q : NodeId) (newname : Bytes)
      → Keeps OnInodes (move_in_memory sys p name ino q newname)
  unfolding move_in_memory
  move_in_memory-Keeps p name ino q newname = search (steady, drop_target-Keeps) depth 8

  moved_or_exchanged-Keeps :
      (flags : ℕ) (p : NodeId) (name : Bytes) (ino : ℕ) (q : NodeId) (newname : Bytes)
      → Keeps OnInodes (moved_or_exchanged sys flags p name ino q newname)
  unfolding moved_or_exchanged
  moved_or_exchanged-Keeps flags p name ino q newname =
      search (move_in_memory-Keeps, lifted_exchange-Keeps, Ensures-if)

  cover-Keeps : (fd : ℕ) (p : NodeId) (name : Bytes) → Keeps OnInodes (cover sys fd p name)
  unfolding cover
  cover-Keeps fd p name = search steady depth 8

  cover_source-Keeps :
      (flags last fd : ℕ) (p : NodeId) (name : Bytes)
      → Keeps OnInodes (cover_source sys flags last fd p name)
  unfolding cover_source
  cover_source-Keeps flags last fd p name = search (steady, cover-Keeps)

  dir_target-Keeps :
      (b : Bool) (fd : ℕ) (path name : Bytes) → Keeps OnInodes (dir_target sys b fd path name)
  unfolding dir_target
  dir_target-Keeps false fd path name = Keeps-pure tt
  dir_target-Keeps true fd path name = search steady

  ruleset renaming = (
    steady, check_length-Keeps, existing_node-Keeps, check_source-Keeps, get_node_up-Keeps,
    check_target-Keeps, dir_target-Keeps, moved_or_exchanged-Keeps, cover_source-Keeps,
  )

  pub rename-Keeps :
      (rounds parent : ℕ) (name : Bytes) (newparent : ℕ) (newname : Bytes) (flags : ℕ)
      (config : OverlayConfig)
      → Keeps OnInodes (rename sys rounds parent name newparent newname flags config)
  unfolding rename
  rename-Keeps rounds parent name newparent newname flags config =
      search renaming depth 64 fits 5000
