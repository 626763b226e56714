-- ===== src/Config/Args.antt =====
-- `parse_args` of src/config.rs: the command line behind the program's name. What is printed is left
-- out; an argument that ends the program is an outcome of its own.
use fuse_overlayfs.Base.{
  ℕ, Bool, true, false, ◌||◌, Option, none, some, List, [], ◌∷◌, ◌==◌, if◌then◌else◌, Result, ok,
  err, ◌>>=◌, bytes_eq, codes, starts_with, drop,
}
use fuse_overlayfs.Mapping.{IdMapping, parse_mappings}
use fuse_overlayfs.Config.{OverlayConfig, default_config}
use fuse_overlayfs.Config.Options.{push_option, parse_option_string}

pub data Outcome : Type 0 where
  help_printed version_printed : Outcome
  configured : OverlayConfig → Outcome

-- The mount options that are set in advance, by the effective user.
unfoldable pub initial_config : ℕ → OverlayConfig
initial_config euid = record (default_config euid) {
  fuse_options =
      if euid == 0
      then codes "default_permissions" ∷ codes "allow_other" ∷ codes "suid" ∷ codes "noatime" ∷ []
      else codes "default_permissions" ∷ codes "noatime" ∷ [];
}

abbrev pub mappings_of : Option (List ℕ) → List IdMapping → Result (List ℕ) (List IdMapping)
mappings_of none kept = ok kept
mappings_of (some s) kept = parse_mappings s

abbrev pub volatile_is_unsynced : OverlayConfig → OverlayConfig
volatile_is_unsynced config =
    if config.volatile_mode then record config { fsync = false } else config

-- What follows the loop over the arguments.
unfoldable pub finish_config : OverlayConfig → Result (List ℕ) Outcome
finish_config config = do
  uids ← mappings_of config.uid_str config.uid_mappings
  gids ← mappings_of config.gid_str config.gid_mappings
  ok (
      configured
        (volatile_is_unsynced (record config { uid_mappings = uids; gid_mappings = gids })))

-- The loop over the arguments. The flag tells that the last argument was "-o", which takes the next.
unfoldable pub parse_arg_loop : Bool → List (List ℕ) → OverlayConfig → Result (List ℕ) Outcome
parse_arg_loop true [] config = err (codes "missing argument for -o")
parse_arg_loop false [] config = finish_config config
parse_arg_loop true (arg ∷ args) config =
    parse_option_string arg config >>= λ c. parse_arg_loop false args c
parse_arg_loop false (arg ∷ args) config = elim (bytes_eq arg (codes "-f")) [
  | true ↦
      parse_arg_loop false args
        (push_option (record config { foreground = true }) (codes "fsname=fuse-overlayfs"))
  | false ↦ elim (bytes_eq arg (codes "-d") || bytes_eq arg (codes "--debug")) [
    | true ↦
        parse_arg_loop false args
          (push_option (record config { debug = true; foreground = true }) (codes "debug"))
    | false ↦
        if bytes_eq arg (codes "--help") || bytes_eq arg (codes "-h")
        then ok help_printed
        else if bytes_eq arg (codes "--version") || bytes_eq arg (codes "-V")
        then ok version_printed
        else elim (bytes_eq arg (codes "-o")) [
          | true ↦ parse_arg_loop true args config
          | false ↦ elim (starts_with arg (codes "-o")) [
            | true ↦ parse_option_string (drop 2 arg) config >>= λ c. parse_arg_loop false args c
            | false ↦ elim (starts_with arg (codes "-")) [
              | true ↦ parse_arg_loop false args config
              | false ↦ parse_arg_loop false args (record config { mountpoint = some arg })
            ]
          ]
        ]
  ]
]

-- `args` starts with the program's name.
unfoldable pub parse_args : ℕ → List (List ℕ) → Result (List ℕ) Outcome
parse_args euid args = parse_arg_loop false (drop 1 args) (initial_config euid)
