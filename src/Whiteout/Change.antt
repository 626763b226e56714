-- ===== src/Whiteout/Change.antt =====
-- src/whiteout.rs: marking a directory as opaque, and making and removing whiteouts.
use Prim.Native.Nat.{bit_and, bit_or}
use fuse_overlayfs.Base.{
  ℕ, Bool, true, false, ◌&&◌, ◌||◌, Option, none, some, [], ◌∷◌, ◌++◌, ok, err, FsResult, ◌==◌,
  if◌then◌else◌, codes, bytes_eq, eperm, enoent, eexist, enotsup,
}
use fuse_overlayfs.Datasource.{Bytes, Dev, Stat, at_symlink_nofollow}
use fuse_overlayfs.Sys.{
  Sys, cstr_bytes, o_wronly, o_creat, o_nonblock, o_directory, o_nofollow, o_path,
}
use fuse_overlayfs.Sys.Actions.{Action, pure, raise, lift, attempt, ◌>>=◌, ◌>>◌, within}
use fuse_overlayfs.Sys.Openat.{safe_openat}
use fuse_overlayfs.Xattr.{unprivileged_opaque_xattr, privileged_opaque_xattr, opaque_whiteout}

-- The world, and the program's static variable CAN_MKNOD.
pub record Process (W : Type 0) : Type 0 where
  pub world : W
  pub can_mknod : Bool

abbrev pub kernel : {W A : Type 0} → Action W A → Action (Process W) A
kernel {W} m = within (λ (p : Process W). p.world) (λ w p. record p { world = w }) m

abbrev pub s_ifchr : ℕ
s_ifchr = 0o020000

abbrev pub is_whiteout_stat : Stat → Bool
is_whiteout_stat st =
    (bit_and st.st_mode 0o170000 == s_ifchr) && (st.st_rdev.major == 0) && (st.st_rdev.minor == 0)

abbrev pub shows_whiteout : FsResult Stat → Bool
shows_whiteout (ok st) = is_whiteout_stat st
shows_whiteout (err e) = false

abbrev pub wh_file : Bytes → Bytes
wh_file name = codes ".wh." ++ name

abbrev no_dev : Dev
no_dev = record { major = 0; minor = 0 }

-- The flags under which a whiteout's parent directory is opened.
abbrev dir_flags : ℕ
dir_flags = bit_or (bit_or o_directory o_nofollow) o_path

abbrev new_file_flags : ℕ
new_file_flags = bit_or (bit_or o_creat o_wronly) o_nonblock

module _ {W : Type 0} (sys : Sys W) where
  -- Whether an attribute is set. A file system without attributes is no error, nor is the missing
  -- right to set the privileged one.
  abbrev set_unprivileged : ℕ → FsResult (Unit {0}) → Action W Bool
  set_unprivileged fd (ok u) = pure true
  set_unprivileged fd (err e) = if e == enotsup then pure false else raise e

  abbrev set_privileged : ℕ → FsResult (Unit {0}) → Action W Bool
  set_privileged fd (ok u) = pure true
  set_privileged fd (err e) =
      if e == enotsup
      then pure false
      else if e == eperm
      then attempt (sys.fsetxattr fd unprivileged_opaque_xattr (b'y' ∷ []) 0)
        >>= set_unprivileged fd
      else raise e

  abbrev opaque_result : Bool → FsResult ℕ → Action W (Unit {0})
  opaque_result xattr_set (ok fd) = pure tt
  opaque_result xattr_set (err e) = if xattr_set then pure tt else raise e

  unfoldable pub set_fd_opaque : ℕ → Action W (Unit {0})
  set_fd_opaque fd = do
    first ← attempt (sys.fsetxattr fd privileged_opaque_xattr (b'y' ∷ []) 0)
    xattr_set ← set_privileged fd first
    opq_result ← attempt (safe_openat sys fd opaque_whiteout new_file_flags 0o700)
    opaque_result xattr_set opq_result

  -- The directory that a whiteout stands in: "." is the layer's root.
  unfoldable pub open_parent : ℕ → Bytes → Action W ℕ
  open_parent upper_fd parent_path =
      if bytes_eq parent_path (codes ".")
      then pure upper_fd
      else safe_openat sys upper_fd parent_path dir_flags 0

  abbrev whiteout_dir : ℕ → Option ℕ → Bytes → Action W ℕ
  whiteout_dir upper_fd (some dirfd) parent_path = pure dirfd
  whiteout_dir upper_fd none parent_path = open_parent upper_fd parent_path

  abbrev delete_if : Bool → ℕ → Bytes → Action W (Unit {0})
  delete_if true dfd c_name = sys.unlinkat dfd c_name 0
  delete_if false dfd c_name = pure tt

  -- The device file of the name, where it is a whiteout.
  unfoldable pub delete_device : ℕ → Bytes → Action W (Unit {0})
  delete_device dfd name = do
    c_name ← lift (cstr_bytes name)
    st ← attempt (sys.fstatat dfd c_name at_symlink_nofollow)
    delete_if (shows_whiteout st) dfd c_name

  abbrev or_missing : FsResult (Unit {0}) → Action W (Unit {0})
  or_missing (ok u) = pure tt
  or_missing (err e) = if e == enoent then pure tt else raise e

  unfoldable pub delete_whiteout_file : ℕ → Bytes → Action W (Unit {0})
  delete_whiteout_file dfd name = do
    c_wh ← lift (cstr_bytes (wh_file name))
    removed ← attempt (sys.unlinkat dfd c_wh 0)
    or_missing removed

  unfoldable pub delete_whiteout : ℕ → Option ℕ → Bytes → Bytes → Action (Process W) (Unit {0})
  delete_whiteout upper_fd dirfd parent_path name p =
      kernel
        (do
          dfd ← whiteout_dir upper_fd dirfd parent_path
          (if p.can_mknod then delete_device dfd name else pure tt)
          delete_whiteout_file dfd name)
        p

  unfoldable pub create_whiteout_file : ℕ → Bytes → Action W (Unit {0})
  create_whiteout_file pfd name = do
    fd ← safe_openat sys pfd (wh_file name) new_file_flags 0o700
    pure tt

  -- Something has the name already: it may be the whiteout.
  abbrev check_existing : ℕ → Bytes → Action W (Unit {0})
  check_existing pfd c_name = do
    st ← attempt (sys.fstatat pfd c_name at_symlink_nofollow)
    (if shows_whiteout st then pure tt else raise eexist)

  abbrev forget_mknod : Process W → Process W
  forget_mknod p = record p { can_mknod = false }

  abbrev after_mknod : ℕ → Bytes → Bytes → FsResult (Unit {0}) → Action (Process W) (Unit {0})
  after_mknod pfd name c_name (ok u) p = (ok tt, p)
  after_mknod pfd name c_name (err e) p =
      if e == eexist
      then kernel (check_existing pfd c_name) p
      else if (e == eperm) || (e == enotsup)
      then kernel (create_whiteout_file pfd name) (forget_mknod p)
      else (err e, p)

  abbrev create_device : ℕ → Bytes → Action (Process W) (Unit {0})
  create_device pfd name = do
    c_name ← lift (cstr_bytes name)
    made ← kernel (attempt (sys.mknodat pfd c_name (bit_or s_ifchr 0o700) no_dev))
    after_mknod pfd name c_name made

  unfoldable pub create_whiteout : ℕ → Bytes → Bytes → Bool → Action (Process W) (Unit {0})
  create_whiteout dirfd parent_path name can_mknod = do
    pfd ← kernel (open_parent dirfd parent_path)
    (if can_mknod then create_device pfd name else kernel (create_whiteout_file pfd name))
