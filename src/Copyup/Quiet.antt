-- ===== src/Copyup/Quiet.antt =====
-- The steps of a copy-up that leave the arena alone: all but the last one of each kind.
use fuse_overlayfs.Base.{ℕ}
use fuse_overlayfs.Datasource.{Bytes, Stat}
use fuse_overlayfs.Direct.{DirectAccess}
use fuse_overlayfs.Node.{NodeArena, NodeId}
use fuse_overlayfs.Sys.{Sys}
use fuse_overlayfs.Sys.Actions.{Action}
use fuse_overlayfs.Sys.Rules.{
  Keeps, Keeps-bind, Keeps-within, Keeps-pure, Keeps-lift, Keeps-ignore, Ensures-if,
}
use fuse_overlayfs.Whiteout.Change.{Process}
use fuse_overlayfs.Copyup.{CopyState, on_process, call, next_wd_name, path_at}
use fuse_overlayfs.Copyup.Dirs.{copy_dir}
use fuse_overlayfs.Copyup.Files.{
  make_link, make_special, make_regular, copy_link, copy_special, copy_regular, copy_file,
}

module _ {W : Type 0} (P : NodeArena → Type 0) where
  -- What is said of the arena only.
  abbrev pub OnNodes : CopyState W → Type 0
  OnNodes s = P s.nodes

  pub on_process-quiet : {A : Type 0} (m : Action (Process W) A) → Keeps OnNodes (on_process m)
  on_process-quiet m = Keeps-within {P = OnNodes} _ _ (λ p s h. h) m

  pub call-quiet : {A : Type 0} (m : Action W A) → Keeps OnNodes (call m)
  call-quiet m = on_process-quiet _

  pub next_wd_name-quiet : Keeps OnNodes (next_wd_name {W = W})
  unfolding next_wd_name
  next_wd_name-quiet = record { at = λ s h. h }

  pub path_at-quiet : (id : NodeId) → Keeps OnNodes (path_at {W = W} id)
  path_at-quiet id = record { at = λ s h. h }

  ruleset quiet = (call-quiet, next_wd_name-quiet, Keeps-pure, Keeps-lift, Keeps-ignore, Keeps-bind)

  pub copy_dir-quiet :
      (sys : Sys W) (source : DirectAccess) (path : Bytes) (workdir_fd : ℕ)
      → Keeps OnNodes (copy_dir sys source path workdir_fd)
  unfolding copy_dir
  copy_dir-quiet sys source path workdir_fd = search quiet depth 24

  module _ (sys : Sys W) (source : DirectAccess) (path : Bytes) (st : Stat) (workdir_fd : ℕ) where
    make_link-quiet : Keeps OnNodes (make_link sys source path st workdir_fd)
    unfolding make_link
    make_link-quiet = search quiet depth 24

    make_special-quiet : Keeps OnNodes (make_special sys source path st workdir_fd)
    unfolding make_special
    make_special-quiet = search quiet depth 24

    make_regular-quiet :
        (rounds : ℕ) → Keeps OnNodes (make_regular sys rounds source path st workdir_fd)
    unfolding make_regular
    make_regular-quiet rounds = search quiet depth 32

    module _ (rounds upper_fd : ℕ) where
      copy_link-quiet : Keeps OnNodes (copy_link sys source path st workdir_fd upper_fd)
      unfolding copy_link
      copy_link-quiet = search (quiet, make_link-quiet)

      copy_special-quiet : Keeps OnNodes (copy_special sys source path st workdir_fd upper_fd)
      unfolding copy_special
      copy_special-quiet = search (quiet, make_special-quiet)

      copy_regular-quiet :
          Keeps OnNodes (copy_regular sys rounds source path st workdir_fd upper_fd)
      unfolding copy_regular
      copy_regular-quiet = search (quiet, make_regular-quiet)

      pub copy_file-quiet : Keeps OnNodes (copy_file sys rounds source path st workdir_fd upper_fd)
      unfolding copy_file
      copy_file-quiet = search (copy_link-quiet, copy_special-quiet, copy_regular-quiet, Ensures-if)
