-- ===== src/Direct.antt =====
-- src/direct.rs: the access to a layer that is a directory of the host. `data_source` gives what
-- the interface of src/datasource.rs reads at one moment.
use Prim.Native.Nat.{bit_or}
use fuse_overlayfs.Base.{
  ℕ, ◌-◌, Bool, not, ◌||◌, Option, none, some, List, [], ok, err, FsResult, ◌==◌, if◌then◌else◌,
  is_ok, enotsup, einval,
}
use fuse_overlayfs.Base.Text.{u32_mod}
use fuse_overlayfs.Datasource.{
  Bytes, Stat, DirEntry, DataSource, StatOverrideMode, no_override, user, privileged, containers,
  xattr_override_stat, xattr_privileged_override_stat, xattr_override_containers_stat,
}
use fuse_overlayfs.Node.Hash.{fnv1a_hash}
use fuse_overlayfs.Sys.{
  Sys, Statx, FileHandle, cstr_bytes, statx_to_stat, o_directory, o_nofollow, at_fdcwd,
  at_empty_path, at_statx_dont_sync, enosys,
}
use fuse_overlayfs.Sys.Actions.{Action, pure, raise, lift, attempt, ◌>>=◌}
use fuse_overlayfs.Sys.Openat.{
  safe_openat, open_trusted, open_parent_safe, or_fd, file_exists_at, proc_fd_path,
}

-- `nfs_fh` is an `i32`, by its bit pattern.
pub record DirectAccess : Type 0 where
  pub resolved_path : Bytes
  pub fd : Option ℕ
  pub dev : ℕ
  pub stat_override : StatOverrideMode
  pub nfs_fh : ℕ
  pub fh_size : ℕ

unfoldable pub new_direct : DirectAccess
new_direct = record {
  resolved_path = [];
  fd = none;
  dev = 0;
  stat_override = no_override;
  nfs_fh = 0;
  fh_size = 0;
}

-- `DirectAccess::fd`: -1 where nothing is open.
abbrev pub fd_of : DirectAccess → ℕ
fd_of d = or_fd (u32_mod - 1) d.fd

unfoldable pub set_stat_override : DirectAccess → StatOverrideMode → DirectAccess
set_stat_override d mode = record d { stat_override = mode }

-- Whether `statx` is not there, so that the older call is tried.
abbrev is_no_statx : ℕ → Bool
is_no_statx e = (e == enosys) || (e == einval)

abbrev handle_support : FsResult FileHandle → ℕ × ℕ
handle_support (ok fh) = (1, fh.handle_bytes)
handle_support (err e) = if e == enotsup then (0, 0) else (u32_mod - 1, 0)

abbrev hash_or_zero : FsResult FileHandle → ℕ
hash_or_zero (ok fh) = fnv1a_hash fh.handle
hash_or_zero (err e) = 0

module _ {W : Type 0} (sys : Sys W) where
  unfoldable pub name_to_handle_at : ℕ → Bytes → ℕ → Action W FileHandle
  name_to_handle_at dirfd pathname flags = do
    c_path ← lift (cstr_bytes pathname)
    sys.name_to_handle_at dirfd c_path flags

  unfoldable pub probe_nfs_handles : Bytes → Action W (ℕ × ℕ)
  probe_nfs_handles path = do
    fh ← attempt (name_to_handle_at at_fdcwd path 0)
    pure (handle_support fh)

  -- The first of the three attributes that can be read tells the mode.
  unfoldable pub detect_stat_override : ℕ → Action W StatOverrideMode
  detect_stat_override fd = do
    first ← attempt (sys.fgetxattr fd xattr_privileged_override_stat 64)
    if is_ok first then pure privileged else do
      second ← attempt (sys.fgetxattr fd xattr_override_containers_stat 64)
      if is_ok second then pure containers else do
        third ← attempt (sys.fgetxattr fd xattr_override_stat 64)
        pure (if is_ok third then user else no_override)

  -- The fields are set only where every call before has succeeded.
  unfoldable pub load_data_source : DirectAccess → Bytes → Action W DirectAccess
  load_data_source d path = do
    c_path ← lift (cstr_bytes path)
    resolved ← sys.realpath c_path
    fd ← open_trusted sys path o_directory 0
    st ← sys.fstat fd
    (nfs_fh, fh_size) ← probe_nfs_handles resolved
    stat_override ← detect_stat_override fd
    pure (record {
      resolved_path = resolved;
      fd = some fd;
      dev = st.st_dev;
      stat_override = stat_override;
      nfs_fh = nfs_fh;
      fh_size = fh_size;
    })

  -- The descriptor of the parent, or of the layer's root, and the last name.
  unfoldable pub parent_of : DirectAccess → Bytes → Action W (ℕ × Bytes)
  parent_of d path = do
    (parent_fd, basename) ← open_parent_safe sys (fd_of d) path
    pure (or_fd (fd_of d) parent_fd, basename)

  unfoldable pub file_exists : DirectAccess → Bytes → Action W Bool
  file_exists d path = do (dirfd, basename) ← parent_of d path; file_exists_at sys dirfd basename

  abbrev after_statx : FsResult Statx → Action W Stat → Action W Stat
  after_statx (ok stx) older = pure (statx_to_stat stx)
  after_statx (err e) older = if is_no_statx e then older else raise e

  unfoldable pub statat : DirectAccess → Bytes → ℕ → ℕ → Action W Stat
  statat d path flags mask = do
    (dirfd, basename) ← parent_of d path
    c_name ← lift (cstr_bytes basename)
    stx ← attempt (sys.statx dirfd c_name (bit_or at_statx_dont_sync flags) mask)
    after_statx stx (sys.fstatat dirfd c_name flags)

  unfoldable pub fstat : DirectAccess → ℕ → Bytes → ℕ → Action W Stat
  fstat d fd path mask = do
    stx ← attempt (sys.statx fd [] (bit_or at_statx_dont_sync at_empty_path) mask)
    after_statx stx (sys.fstat fd)

  unfoldable pub opendir : DirectAccess → Bytes → Action W (List DirEntry)
  opendir d path = do
    safe_fd ← safe_openat sys (fd_of d) path (bit_or o_directory o_nofollow) 0
    sys.read_dir safe_fd

  unfoldable pub openat : DirectAccess → Bytes → ℕ → ℕ → Action W ℕ
  openat d path flags mode = safe_openat sys (fd_of d) path flags mode

  unfoldable pub listxattr : DirectAccess → Bytes → ℕ → Action W Bytes
  listxattr d path size = do
    (dirfd, basename) ← parent_of d path
    c_path ← lift (cstr_bytes (proc_fd_path dirfd basename))
    sys.llistxattr c_path size

  unfoldable pub getxattr : DirectAccess → Bytes → Bytes → ℕ → Action W Bytes
  getxattr d path name size = do
    (dirfd, basename) ← parent_of d path
    c_path ← lift (cstr_bytes (proc_fd_path dirfd basename))
    c_name ← lift (cstr_bytes name)
    sys.lgetxattr c_path c_name size

  unfoldable pub readlinkat : DirectAccess → Bytes → Action W Bytes
  readlinkat d path = do
    (dirfd, basename) ← parent_of d path
    c_name ← lift (cstr_bytes basename)
    sys.readlinkat dirfd c_name

  abbrev handle_hash : ℕ × Bytes → Action W ℕ
  handle_hash (dirfd, basename) = do
    fh ← attempt (name_to_handle_at dirfd basename 0)
    pure (hash_or_zero fh)

  unfoldable pub get_nfs_filehandle : DirectAccess → Bytes → Action W ℕ
  get_nfs_filehandle d path = if not (d.nfs_fh == 1) || (d.fh_size == 0) then pure 0 else do
    parent ← attempt (parent_of d path)
    elim parent [ err e ↦ pure 0 | ok p ↦ handle_hash p ]

  abbrev ok_or_zero : FsResult ℕ → ℕ
  ok_or_zero (ok n) = n
  ok_or_zero (err e) = 0

  -- What the operations of the interface read in the world `w`.
  unfoldable pub data_source : DirectAccess → W → DataSource
  data_source d w = record {
    file_exists = λ path. (file_exists d path w).0;
    statat = λ path flags mask. (statat d path flags mask w).0;
    fstat = λ fd path mask. (fstat d fd path mask w).0;
    opendir = λ path. (opendir d path w).0;
    getxattr = λ path name size. (getxattr d path name size w).0;
    readlinkat = λ path. (readlinkat d path w).0;
    get_nfs_filehandle = λ path. ok_or_zero (get_nfs_filehandle d path w).0;
    root_fd = fd_of d;
    st_dev = d.dev;
    stat_override_mode = d.stat_override;
  }
