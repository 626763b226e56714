-- ===== src/Overlay/Override.antt =====
-- The stat override of src/overlay.rs: owner and mode of a file, kept in an extended attribute as
-- "uid:gid:mode[:type]", the mode in octal.
pub mod Codec
use Prim.Native.Nat.{bit_and, bit_or}
use fuse_overlayfs.Base.{
  ℕ, Bool, true, false, not, ◌&&◌, ◌||◌, Option, none, some, List, [], ◌∷◌, ◌++◌, ok, err, FsResult,
  ◌==◌, if◌then◌else◌, codes, starts_with, drop, einval, enodata, enotsup, ◌>>=◌, ok_or,
}
use fuse_overlayfs.Base.Text.{split_on, join, parse_uint, parse_u32, u32_mod}
use fuse_overlayfs.Datasource.{
  Bytes, Stat, Dev, DataSource, StatOverrideMode, no_override, user, privileged, containers,
  xattr_override_containers_stat, xattr_privileged_override_stat,
}
use fuse_overlayfs.Node.{s_ifmt, s_ifdir}
use fuse_overlayfs.Xattr.{is_utf8}

abbrev pub s_ifreg : ℕ
s_ifreg = 0o100000

abbrev pub s_iflnk : ℕ
s_iflnk = 0o120000

abbrev pub s_ififo : ℕ
s_ififo = 0o010000

abbrev pub s_ifsock : ℕ
s_ifsock = 0o140000

abbrev pub s_ifblk : ℕ
s_ifblk = 0o060000

abbrev pub s_ifchr : ℕ
s_ifchr = 0o020000

-- `splitn(2, ':')` with two parts; `makedev` keeps the two numbers.
abbrev pub device_of : List Bytes → Option Dev
device_of [] = none
device_of (a ∷ []) = none
device_of (a ∷ b ∷ more) = elim (parse_u32 a) [
  | none ↦ none
  | some major ↦ elim (parse_u32 (join b':' (b ∷ more))) [
    | none ↦ none
    | some minor ↦ some (record { major = major; minor = minor })
  ]
]

unfoldable pub parse_device : Bytes → Option Dev
parse_device s = device_of (split_on b':' s)

abbrev or_dev : Dev → Option Dev → Dev
or_dev kept none = kept
or_dev kept (some dev) = dev

-- The type bits and the device number that the fourth part gives.
unfoldable pub type_of : Bytes → Dev → Option (ℕ × Dev)
type_of s dev =
    if starts_with s (codes "dir")
    then some (s_ifdir, dev)
    else if starts_with s (codes "file")
    then some (s_ifreg, dev)
    else if starts_with s (codes "symlink")
    then some (s_iflnk, dev)
    else if starts_with s (codes "pipe")
    then some (s_ififo, dev)
    else if starts_with s (codes "socket")
    then some (s_ifsock, dev)
    else if starts_with s (codes "block")
    then some (s_ifblk, or_dev dev (parse_device (drop 5 s)))
    else if starts_with s (codes "char")
    then some (s_ifchr, or_dev dev (parse_device (drop 4 s)))
    else none

-- The type bits without a fourth part.
abbrev pub kept_type : Stat → List Bytes → Option (ℕ × Dev)
kept_type st [] = some (bit_and st.st_mode s_ifmt, st.st_rdev)
kept_type st (t ∷ more) = type_of (join b':' (t ∷ more)) st.st_rdev

abbrev pub apply_parts : List Bytes → Stat → FsResult Stat
apply_parts (u ∷ g ∷ m ∷ rest) st = do
  uid ← ok_or (parse_u32 u) einval
  gid ← ok_or (parse_u32 g) einval
  mode ← ok_or (parse_uint 8 u32_mod m) einval
  kind ← ok_or (kept_type st rest) einval
  ok (record st { st_uid = uid; st_gid = gid; st_mode = bit_or mode kind.0; st_rdev = kind.1 })
apply_parts _ st = err einval

-- `splitn(4, ':')` leaves the separators of the fourth part in it.
unfoldable pub parse_and_apply_override : Bytes → Stat → FsResult Stat
parse_and_apply_override s st = apply_parts (split_on b':' s) st

abbrev or_number : ℕ → Option ℕ → ℕ
or_number kept none = kept
or_number kept (some n) = n

abbrev pub fields_of : List Bytes → Stat → ℕ × ℕ × ℕ
fields_of (u ∷ g ∷ m ∷ rest) st = (
  or_number st.st_uid (parse_u32 u),
  or_number st.st_gid (parse_u32 g),
  or_number (bit_and st.st_mode 0o7777) (parse_uint 8 u32_mod m),
)
fields_of _ st = (st.st_uid, st.st_gid, bit_and st.st_mode 0o7777)

-- Owner and mode of an attribute that is there already.
unfoldable pub parse_override_fields : Bytes → Stat → ℕ × ℕ × ℕ
parse_override_fields s st = fields_of (split_on b':' s) st

abbrev override_name : StatOverrideMode → Option Bytes
override_name no_override = none
override_name user = some xattr_override_containers_stat
override_name containers = some xattr_override_containers_stat
override_name privileged = some xattr_privileged_override_stat

-- What the value of the attribute does. A file without one keeps its stat.
unfoldable pub apply_value : FsResult Bytes → Stat → FsResult Stat
apply_value (err e) st = if e == enodata || e == enotsup then ok st else err e
apply_value (ok value) st = if is_utf8 value then parse_and_apply_override value st else err einval

-- `read` gets an attribute of the file, by its descriptor or else by its path. The result is the new
-- stat.
unfoldable pub override_mode : StatOverrideMode → (Bytes → FsResult Bytes) → Stat → FsResult Stat
override_mode mode read st =
    let file_type = bit_and st.st_mode s_ifmt in
    if not (file_type == s_ifdir) && not (file_type == s_ifreg)
    then ok st
    else elim (override_name mode) [ none ↦ ok st | some name ↦ apply_value (read name) st ]
