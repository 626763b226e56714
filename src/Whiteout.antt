-- ===== src/Whiteout.antt =====
-- src/whiteout.rs: when a directory is opaque, that is, hides the directories below it.
pub mod Change
use fuse_overlayfs.Base.{
  Bool, true, false, [], ◌∷◌, ◌++◌, ok, err, FsResult, enoent, ◌==◌, if◌then◌else◌,
}
use fuse_overlayfs.Datasource.{Bytes, DataSource}
use fuse_overlayfs.Xattr.{
  opaque_xattr, unprivileged_opaque_xattr, privileged_opaque_xattr, opaque_whiteout,
}

-- `Ok(s) if s > 0 && buf[0] == b'y'`
abbrev says_yes : FsResult Bytes → Bool
says_yes (err e) = false
says_yes (ok []) = false
says_yes (ok (c ∷ value)) = c == b'y'

-- `path` with a slash and the name of the sentinel file behind it.
abbrev pub opaque_path : Bytes → Bytes
opaque_path path = path ++ (b'/' ∷ opaque_whiteout)

abbrev exists_or_missing : FsResult Bool → FsResult Bool
exists_or_missing (ok b) = ok b
exists_or_missing (err e) = if e == enoent then ok false else err e

unfoldable pub is_directory_opaque : DataSource → Bytes → FsResult Bool
is_directory_opaque ds path =
    if says_yes (ds.getxattr path privileged_opaque_xattr 16)
    then ok true
    else if says_yes (ds.getxattr path unprivileged_opaque_xattr 16)
    then ok true
    else if says_yes (ds.getxattr path opaque_xattr 16)
    then ok true
    else exists_or_missing (ds.file_exists (opaque_path path))
