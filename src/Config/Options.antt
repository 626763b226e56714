-- ===== src/Config/Options.antt =====
-- `parse_single_option` and `parse_option_string` of src/config.rs. The lines that an unknown option
-- prints are left out.
use fuse_overlayfs.Base.{
  ℕ, Bool, true, not, ◌||◌, none, some, List, [], ◌∷◌, ◌++◌, ◌==◌, if◌then◌else◌, Result, ok, err,
  ok_or, ◌>>=◌, bytes_eq, codes, any,
}
use fuse_overlayfs.Base.Text.{parse_u32}
use fuse_overlayfs.Config.{OverlayConfig}
use fuse_overlayfs.Config.Split.{split_options, split_once, unescape_path}
use fuse_overlayfs.Config.Numbers.{parse_i32, is_f64}

abbrev pub Parsed : Type 0
Parsed = Result (List ℕ) OverlayConfig

abbrev pub fuse_passthrough_opts : List (List ℕ)
fuse_passthrough_opts =
    codes "allow_root"
    ∷ codes "default_permissions"
    ∷ codes "allow_other"
    ∷ codes "suid"
    ∷ codes "nosuid"
    ∷ codes "dev"
    ∷ codes "nodev"
    ∷ codes "exec"
    ∷ codes "noexec"
    ∷ codes "atime"
    ∷ codes "noatime"
    ∷ codes "diratime"
    ∷ codes "nodiratime"
    ∷ codes "splice_write"
    ∷ codes "splice_read"
    ∷ codes "splice_move"
    ∷ codes "kernel_cache"
    ∷ codes "max_write"
    ∷ codes "ro"
    ∷ codes "rw"
    ∷ []

abbrev pub push_option : OverlayConfig → List ℕ → OverlayConfig
push_option config opt = record config { fuse_options = config.fuse_options ++ (opt ∷ []) }

-- An option that is passed on to the mount, or ignored.
abbrev other_option : List ℕ → List ℕ → OverlayConfig → OverlayConfig
other_option name opt config =
    if any (λ o. bytes_eq o name) fuse_passthrough_opts then push_option config opt else config

-- "invalid <name> value: <value>"
abbrev invalid : List ℕ → List ℕ → List ℕ
invalid name value = codes "invalid " ++ name ++ codes " value: " ++ value

abbrev i32_option : List ℕ → List ℕ → (ℕ → OverlayConfig) → Parsed
i32_option name value set = ok_or (parse_i32 value) (invalid name value) >>= λ n. ok (set n)

abbrev flag_option : List ℕ → List ℕ → (Bool → OverlayConfig) → Parsed
flag_option name value set = i32_option name value (λ n. set (not (n == 0)))

abbrev u32_option : List ℕ → List ℕ → (ℕ → OverlayConfig) → Parsed
u32_option name value set = ok_or (parse_u32 value) (invalid name value) >>= λ n. ok (set n)

abbrev set_timeout : List ℕ → OverlayConfig → Parsed
set_timeout value config =
    if is_f64 value
    then ok (record config { timeout = value })
    else err (invalid (codes "timeout") value)

abbrev set_xino : List ℕ → OverlayConfig → Parsed
set_xino value config =
    if bytes_eq value (codes "off")
    then ok (record config { nfs_filehandles = 0 })
    else if bytes_eq value (codes "auto")
    then ok (record config { nfs_filehandles = 1 })
    else if bytes_eq value (codes "on")
    then ok (record config { nfs_filehandles = 2 })
    else err (invalid (codes "xino") value)

abbrev one_of : List ℕ → List ℕ → List ℕ → Bool
one_of key a b = bytes_eq key a || bytes_eq key b

-- The arms of the match on the key of `key=value` from "timeout" on; `opt` is the whole option.
abbrev numeric_option : List ℕ → List ℕ → List ℕ → OverlayConfig → Parsed
numeric_option opt key value config =
    if bytes_eq key (codes "timeout")
    then set_timeout value config
    else if bytes_eq key (codes "threaded")
    then flag_option (codes "threaded") value (λ b. record config { threaded = b })
    else if one_of key (codes "fsync") (codes "sync")
    then flag_option (codes "fsync") value (λ b. record config { fsync = b })
    else if one_of key (codes "fast_ino") (codes "fast_ino_check")
    then flag_option (codes "fast_ino") value (λ b. record config { fast_ino_check = b })
    else if bytes_eq key (codes "writeback")
    then flag_option (codes "writeback") value (λ b. record config { writeback = b })
    else if bytes_eq key (codes "noxattrs")
    then flag_option (codes "noxattrs") value (λ b. record config { disable_xattrs = b })
    else if bytes_eq key (codes "plugins")
    then ok (record config { plugins = some value })
    else if bytes_eq key (codes "xattr_permissions")
    then i32_option (codes "xattr_permissions") value (λ n. record config { xattr_permissions = n })
    else if bytes_eq key (codes "squash_to_uid")
    then u32_option (codes "squash_to_uid") value (λ n. record config { squash_to_uid = some n })
    else if bytes_eq key (codes "squash_to_gid")
    then u32_option (codes "squash_to_gid") value (λ n. record config { squash_to_gid = some n })
    else if bytes_eq key (codes "xino")
    then set_xino value config
    else ok (other_option key opt config)

-- All arms of that match.
unfoldable pub key_option : List ℕ → List ℕ → List ℕ → OverlayConfig → Parsed
key_option opt key value config =
    if bytes_eq key (codes "lowerdir")
    then ok (record config { lowerdir = some value })
    else if bytes_eq key (codes "upperdir")
    then ok (record config { upperdir = some (unescape_path value) })
    else if bytes_eq key (codes "workdir")
    then ok (record config { workdir = some (unescape_path value) })
    else if bytes_eq key (codes "redirect_dir")
    then ok (record config { redirect_dir = some value })
    else if bytes_eq key (codes "context")
    then ok (record config { context = some value })
    else if bytes_eq key (codes "uidmapping")
    then ok (record config { uid_str = some value })
    else if bytes_eq key (codes "gidmapping")
    then ok (record config { gid_str = some value })
    else numeric_option opt key value config

-- An option without a value.
unfoldable pub word_option : List ℕ → OverlayConfig → OverlayConfig
word_option opt config =
    if bytes_eq opt (codes "debug")
    then push_option (record config { debug = true; foreground = true }) (codes "debug")
    else if bytes_eq opt (codes "squash_to_root")
    then record config { squash_to_root = true }
    else if bytes_eq opt (codes "ino32_t")
    then record config { ino_t_32 = true }
    else if bytes_eq opt (codes "static_nlink")
    then record config { static_nlink = true }
    else if bytes_eq opt (codes "volatile")
    then record config { volatile_mode = true }
    else if bytes_eq opt (codes "noacl")
    then record config { noacl = true }
    else other_option opt opt config

unfoldable pub parse_single_option : List ℕ → OverlayConfig → Parsed
parse_single_option opt config = elim (split_once (b'=' ∷ []) opt) [
  | none ↦ ok (word_option opt config)
  | some parts ↦ key_option opt parts.0 parts.1 config
]

unfoldable pub parse_options : List (List ℕ) → OverlayConfig → Parsed
parse_options [] config = ok config
parse_options (opt ∷ opts) config = parse_single_option opt config >>= λ c. parse_options opts c

unfoldable pub parse_option_string : List ℕ → OverlayConfig → Parsed
unfolding parse_options
parse_option_string opts config = parse_options (split_options opts) config
