-- ===== src/Overlay/Rename.antt =====
-- The handler `rename` of src/overlay.rs, with its flags RENAME_NOREPLACE (1) and
-- RENAME_EXCHANGE (2).
use Prim.Native.Nat.{bit_and, bit_or}
use fuse_overlayfs.Base.{
  ℕ, Bool, true, false, not, ◌&&◌, ◌||◌, Option, none, some, List, [], ◌∷◌, ◌==◌, ltb,
  if◌then◌else◌, codes, bytes_eq, eexist, enotempty,
}
use fuse_overlayfs.Config.{OverlayConfig}
use fuse_overlayfs.Datasource.{Bytes, DirEntry, dt_dir}
use fuse_overlayfs.Direct.{DirectAccess, fd_of, openat}
use fuse_overlayfs.Layer.Init.{DirectLayer}
use fuse_overlayfs.Node.{NodeId, NodeArena, get_node}
use fuse_overlayfs.Node.Path.{child_path}
use fuse_overlayfs.Overlay.Create.{check_length}
use fuse_overlayfs.Overlay.Lookup.{reload_dir}
use fuse_overlayfs.Overlay.Mount.{
  Handler, call, on_process, reads, set_nodes, node_path, node_of, first_now, looks, find_node,
  node_of_ino, is_whiteout_or_missing,
}
use fuse_overlayfs.Overlay.Relink.{is_dir_node, unloaded, exchange, move_child, replaced}
use fuse_overlayfs.Overlay.Remove.{existing_node, is_empty_dir, unlink_calls, calls_of}
use fuse_overlayfs.Overlay.Upper.{get_node_up}
use fuse_overlayfs.Sys.{Sys, cstr_bytes, o_rdonly, o_directory, at_removedir}
use fuse_overlayfs.Sys.Actions.{Action, pure, raise, lift, ignore, ◌>>=◌, ◌>>◌}
use fuse_overlayfs.Sys.Openat.{open_parent_safe_cstr}
use fuse_overlayfs.Whiteout.Change.{create_whiteout, delete_whiteout}

abbrev exdev : ℕ
exdev = 18

abbrev no_replace : ℕ → Bool
no_replace flags = not (bit_and flags 1 == 0)

abbrev pub exchanges : ℕ → Bool
exchanges flags = not (bit_and flags 2 == 0)

module _ {W : Type 0} (sys : Sys W) where
  abbrev is_dots : Bytes → Bool
  is_dots name = bytes_eq name (codes ".") || bytes_eq name (codes "..")

  abbrev removal_flags : ℕ → ℕ
  removal_flags dtype = if dtype == dt_dir then at_removedir else 0

  -- Names with a zero byte are passed over, and so is a failure.
  abbrev remove_name : ℕ → DirEntry → Action W (Unit {0})
  remove_name dir_raw entry = do
    c_name ← lift (cstr_bytes entry.name)
    sys.unlinkat dir_raw c_name (removal_flags entry.dtype)

  unfoldable pub remove_entries : ℕ → List DirEntry → Action W (Unit {0})
  remove_entries dir_raw [] = pure tt
  remove_entries dir_raw (entry ∷ entries) =
      (if is_dots entry.name then pure tt else ignore (remove_name dir_raw entry))
      >> remove_entries dir_raw entries

  unfoldable pub empty_upper_dir : DirectAccess → Bytes → Action W (Unit {0})
  empty_upper_dir upper path = do
    fd ← openat sys upper path (bit_or o_rdonly o_directory) 0
    entries ← sys.read_dir fd
    remove_entries fd entries

  -- A directory that has content on a lower layer cannot be moved.
  unfoldable pub check_source : Bool → NodeId → OverlayConfig → Handler W (Unit {0})
  check_source false src_id config = pure tt
  check_source true src_id config = do
    loaded ← looks sys (λ s. reload_dir s src_id config.fast_ino_check)
    node ← node_of src_id
    (if ltb 0 node.layer_idx || ltb 0 node.last_layer_idx then raise exdev else pure tt)

  -- A directory that is replaced has no visible child, and loses its whiteouts.
  unfoldable pub clear_target : DirectLayer → NodeId → OverlayConfig → Handler W (Unit {0})
  clear_target upper dst_id config = do
    loaded ← looks sys (λ s. reload_dir s dst_id config.fast_ino_check)
    is_empty ← reads (λ s. is_empty_dir s dst_id)
    (if is_empty then pure tt else raise enotempty)
    dst_path ← node_path dst_id
    ignore (call (empty_upper_dir upper.direct dst_path))

  unfoldable pub check_target :
      ℕ → DirectLayer → Option NodeId → OverlayConfig → Handler W (Unit {0})
  check_target flags upper none config = pure tt
  check_target flags upper (some dst_id) config = do
    s ← reads (λ s. s)
    (if is_whiteout_or_missing s dst_id
        then pure tt
        else if no_replace flags
        then raise eexist
        else if not (exchanges flags) && is_dir_node s.nodes dst_id
        then clear_target upper dst_id config
        else pure tt)

  abbrev rename_files : ℕ → ℕ → Bytes → ℕ → Bytes → Action W (Unit {0})
  rename_files flags src_dirfd old_name dst_dirfd new_name =
      if flags == 0
      then sys.renameat src_dirfd old_name dst_dirfd new_name
      else sys.renameat2 src_dirfd old_name dst_dirfd new_name flags

  abbrev unload_parents : NodeId → NodeId → NodeArena → NodeArena
  unload_parents sparent_id dparent_id a =
      if dparent_id == sparent_id
      then unloaded sparent_id a
      else unloaded dparent_id (unloaded sparent_id a)

  abbrev last_layer_of : NodeArena → NodeId → ℕ
  last_layer_of a id = elim (get_node a id) [ none ↦ 0 | some n ↦ n.last_layer_idx ]

  unfoldable pub lifted_exchange : NodeId → Bytes → NodeId → Bytes → Handler W (Unit {0})
  lifted_exchange sparent_id name dparent_id newname = do
    r ← looks sys (λ s.
        let (a, r) = exchange sparent_id name dparent_id newname s.nodes in
        (record s { nodes = a }, r))
    lift r

  unfoldable pub drop_target : NodeId → Bytes → Option NodeId → Handler W (Unit {0})
  drop_target dparent_id newname none = pure tt
  drop_target dparent_id newname (some dst_id) = do
    s ← reads (λ s. s)
    (if is_whiteout_or_missing s dst_id then pure tt else do
      looks sys (λ s. (replaced dparent_id newname dst_id s, tt))
      call (unlink_calls sys (calls_of (get_node s.nodes dst_id))))

  unfoldable pub move_in_memory : NodeId → Bytes → ℕ → NodeId → Bytes → Handler W (Unit {0})
  move_in_memory sparent_id name newparent dparent_id newname = do
    dst ← find_node sys newparent (some newname)
    drop_target dparent_id newname dst
    set_nodes (move_child sparent_id name dparent_id newname)

  unfoldable pub moved_or_exchanged : ℕ → NodeId → Bytes → ℕ → NodeId → Bytes → Handler W (Unit {0})
  moved_or_exchanged flags sparent_id name newparent dparent_id newname =
      if exchanges flags
      then lifted_exchange sparent_id name dparent_id newname
      else move_in_memory sparent_id name newparent dparent_id newname

  unfoldable pub cover : ℕ → NodeId → Bytes → Handler W (Unit {0})
  cover upper_fd sparent_id name = do
    sparent_path ← node_path sparent_id
    s ← reads (λ s. s)
    ignore (on_process (create_whiteout sys upper_fd sparent_path name s.can_mknod))

  -- A whiteout takes the old place where a lower layer has the name too.
  unfoldable pub cover_source : ℕ → ℕ → ℕ → NodeId → Bytes → Handler W (Unit {0})
  cover_source flags src_last_layer upper_fd sparent_id name =
      if not (exchanges flags) && ltb 0 src_last_layer
      then cover upper_fd sparent_id name
      else pure tt

  unfoldable pub dir_target : Bool → ℕ → Bytes → Bytes → Handler W (Unit {0})
  dir_target false upper_fd dparent_path newname = pure tt
  dir_target true upper_fd dparent_path newname =
      ignore (on_process (delete_whiteout sys upper_fd none dparent_path newname))

  unfoldable pub rename : ℕ → ℕ → Bytes → ℕ → Bytes → ℕ → OverlayConfig → Handler W (Unit {0})
  rename rounds parent name newparent newname flags config = do
    check_length sys newname
    src_id ← existing_node sys parent name
    source_is_dir ← reads (λ s. is_dir_node s.nodes src_id)
    check_source source_is_dir src_id config
    get_node_up sys rounds src_id
    sparent_id ← node_of_ino sys parent
    get_node_up sys rounds sparent_id
    dparent_id ← node_of_ino sys newparent
    get_node_up sys rounds dparent_id
    upper ← first_now
    src_path ← node_path src_id
    dparent_path ← node_path dparent_id
    dst ← find_node sys newparent (some newname)
    check_target flags upper dst config
    src_is_dir ← reads (λ s. is_dir_node s.nodes src_id)
    dir_target src_is_dir (fd_of upper.direct) dparent_path newname
    (src_dirfd, old_name) ← call (open_parent_safe_cstr sys (fd_of upper.direct) src_path)
    (dst_dirfd, new_name) ←
        call (open_parent_safe_cstr sys (fd_of upper.direct) (child_path dparent_path newname))
    call (rename_files flags src_dirfd old_name dst_dirfd new_name)
    src_last_layer ← reads (λ s. last_layer_of s.nodes src_id)
    set_nodes (unload_parents sparent_id dparent_id)
    moved_or_exchanged flags sparent_id name newparent dparent_id newname
    cover_source flags src_last_layer (fd_of upper.direct) sparent_id name
