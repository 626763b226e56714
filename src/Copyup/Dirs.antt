-- ===== src/Copyup/Dirs.antt =====
-- `create_node_directory` of src/copyup.rs: the directories above a node, from the top down.
pub mod Ends
use Prim.Native.Nat.{bit_or}
use fuse_overlayfs.Base.{
  ℕ, zero, suc, Bool, true, false, not, ◌&&◌, ◌||◌, Option, none, some, List, [], ◌∷◌, ok, err,
  FsResult, ◌==◌, if◌then◌else◌, ok_or, get_elem?, length, enoent, eexist, enotdir, erofs,
  enotempty,
}
use fuse_overlayfs.Datasource.{Bytes, Stat}
use fuse_overlayfs.Direct.{DirectAccess, fd_of, openat}
use fuse_overlayfs.Layer.Init.{DirectLayer}
use fuse_overlayfs.Node.{NodeId, OvlNode, NodeArena, get_node}
use fuse_overlayfs.Node.Path.{compute_path}
use fuse_overlayfs.Sys.{Sys, o_rdonly, o_nonblock, at_removedir}
use fuse_overlayfs.Sys.Actions.{Action, pure, raise, lift, gets, attempt, ignore, ◌>>=◌, ◌>>◌}
use fuse_overlayfs.Sys.Openat.{safe_openat, open_parent_safe_cstr}
use fuse_overlayfs.Whiteout.Change.{delete_whiteout}
use fuse_overlayfs.Copyup.{
  CopyState, on_process, call, stat_times, first_layer, is_up, next_wd_name, node_at, path_at,
  mark_upper,
}
use fuse_overlayfs.Copyup.Contents.{copy_xattr, out_of_fuel}

abbrev rename_exchange : ℕ
rename_exchange = 2

-- `nodes.get(&parent_id).map(|p| p.layer_idx).unwrap_or(0)`
abbrev pub layer_or_upper : Option OvlNode → ℕ
layer_or_upper none = 0
layer_or_upper (some p) = p.layer_idx

abbrev pub needs_parent : DirectLayer → Option OvlNode → Bool
needs_parent upper parent = not (layer_or_upper parent == 0) || upper.low

module _ {W : Type 0} (sys : Sys W) where
  -- Owner, times and attributes of a new directory; a failure is passed over.
  abbrev dress : ℕ → ℕ → Stat → Action (CopyState W) (Unit {0})
  dress sfd dfd st =
      let (atime, mtime) = stat_times st in
      ignore (call (sys.fchown dfd st.st_uid st.st_gid))
      >> ignore (call (sys.futimens dfd atime mtime))
      >> ignore (call (copy_xattr sys sfd dfd))

  -- A copy of the directory, without its entries, under a new name in the work directory.
  unfoldable pub copy_dir : DirectAccess → Bytes → ℕ → Action (CopyState W) Bytes
  copy_dir source path workdir_fd = do
    sfd ← call (openat sys source path (bit_or o_rdonly o_nonblock) 0o755)
    st ← call (sys.fstat sfd)
    wd_name ← next_wd_name
    call (sys.mkdirat workdir_fd wd_name (bit_or st.st_mode 0o755))
    dfd ← call (safe_openat sys workdir_fd wd_name o_rdonly 0)
    dress sfd dfd st
    pure wd_name

  -- The copy is removed again, and the error is given back.
  abbrev remove_and : ℕ → Bytes → FsResult (Unit {0}) → Action W (Unit {0})
  remove_and workdir_fd wd_name r = ignore (sys.unlinkat workdir_fd wd_name at_removedir) >> lift r

  -- A directory of the name is there: the two change places, and the old one is removed.
  abbrev exchange : ℕ → Bytes → ℕ → Bytes → Action W (Unit {0})
  exchange workdir_fd wd_name dst_dirfd dst_name = do
    r ← attempt (sys.renameat2 workdir_fd wd_name dst_dirfd dst_name rename_exchange)
    remove_and workdir_fd wd_name r

  abbrev keep_or_remove : ℕ → Bytes → FsResult (Unit {0}) → Action W (Unit {0})
  keep_or_remove workdir_fd wd_name (ok u) = pure tt
  keep_or_remove workdir_fd wd_name (err e) = remove_and workdir_fd wd_name (err e)

  -- A file is in the way.
  abbrev replace_file : ℕ → Bytes → ℕ → Bytes → Action W (Unit {0})
  replace_file workdir_fd wd_name dst_dirfd dst_name = do
    ignore (sys.unlinkat dst_dirfd dst_name 0)
    r ← attempt (sys.renameat workdir_fd wd_name dst_dirfd dst_name)
    keep_or_remove workdir_fd wd_name r

  abbrev after_rename : ℕ → Bytes → ℕ → Bytes → FsResult (Unit {0}) → Action W (Unit {0})
  after_rename workdir_fd wd_name dst_dirfd dst_name (ok u) = pure tt
  after_rename workdir_fd wd_name dst_dirfd dst_name (err e) =
      if (e == eexist) || (e == enotempty)
      then exchange workdir_fd wd_name dst_dirfd dst_name
      else if e == enotdir
      then replace_file workdir_fd wd_name dst_dirfd dst_name
      else remove_and workdir_fd wd_name (err e)

  unfoldable pub place_dir : ℕ → Bytes → ℕ → Bytes → Action W (Unit {0})
  place_dir workdir_fd wd_name dst_dirfd dst_name = do
    r ← attempt (sys.renameat workdir_fd wd_name dst_dirfd dst_name)
    after_rename workdir_fd wd_name dst_dirfd dst_name r

  abbrev pub uncover : ℕ → Option NodeId → Bytes → Action (CopyState W) (Unit {0})
  uncover upper_fd none name = pure tt
  uncover upper_fd (some pid) name = do
    parent_path ← path_at pid
    ignore (on_process (delete_whiteout sys upper_fd none parent_path name))

  -- The part behind the recursion: the parent is on the upper layer.
  unfoldable pub create_one : List DirectLayer → NodeId → ℕ → Action (CopyState W) (Unit {0})
  create_one layers id workdir_fd = do
    path ← path_at id
    node ← node_at id
    layer ← lift (ok_or (get_elem? layers node.layer_idx) enoent)
    upper ← lift (ok_or (first_layer layers) erofs)
    wd_name ← copy_dir layer.direct path workdir_fd
    (dst_dirfd, dst_name) ← call (open_parent_safe_cstr sys (fd_of upper.direct) path)
    call (place_dir workdir_fd wd_name dst_dirfd dst_name)
    mark_upper id
    uncover (fd_of upper.direct) node.parent node.name

  -- The parent first, by `create`, where it is not on the upper layer.
  unfoldable pub parent_first :
      DirectLayer
      → OvlNode
      → (NodeId → Action (CopyState W) (Unit {0}))
      → Action (CopyState W) (Unit {0})
  parent_first upper node create s = elim node.parent [
    | none ↦ (ok tt, s)
    | some pid ↦ elim (needs_parent upper (get_node s.nodes pid)) [
      | true ↦ create pid s
      | false ↦ (ok tt, s)
    ]
  ]

  unfoldable pub create_with :
      (NodeId → Action (CopyState W) (Unit {0}))
      → List DirectLayer
      → NodeId
      → ℕ
      → OvlNode
      → DirectLayer
      → Action (CopyState W) (Unit {0})
  create_with create layers id workdir_fd node upper =
      elim (is_up node upper) as (λ b. Action (CopyState W) (Unit {0})) [
        | true ↦ pure tt
        | false ↦ parent_first upper node create >> create_one layers id workdir_fd
      ]

  -- The recursion over the parents, on fuel.
  unfoldable pub create_above : ℕ → List DirectLayer → NodeId → ℕ → Action (CopyState W) (Unit {0})
  create_above zero layers id workdir_fd = raise out_of_fuel
  create_above (suc fuel) layers id workdir_fd = do
    node ← node_at id
    upper ← lift (ok_or (first_layer layers) erofs)
    create_with (λ pid. create_above fuel layers pid workdir_fd) layers id workdir_fd node upper

  -- The walk to the root passes each node of the arena once, so this fuel is enough.
  unfoldable pub create_node_directory :
      List DirectLayer → NodeId → ℕ → Action (CopyState W) (Unit {0})
  create_node_directory layers id workdir_fd s =
      create_above (suc (length s.nodes.map)) layers id workdir_fd s
