-- ===== src/Tests/CommandLine.antt =====
-- A command line with the options "volatile" and "fsync=1", and texts with escapes.
use fuse_overlayfs.Base.{
  ℕ, ◌≡◌, refl, true, false, some, List, [], ◌∷◌, ◌++◌, codes, ok, bytes_eq, starts_with, any,
}
use fuse_overlayfs.Base.Text.{join, parse_uint, parse_digits}
use fuse_overlayfs.Config.{OverlayConfig, default_config}
use fuse_overlayfs.Config.Split.{
  split_options, split_loop, split_char, split_once, parse_lowerdir, parse_plugin_path,
}
use fuse_overlayfs.Config.Numbers.{parse_i32}
use fuse_overlayfs.Config.Options.{
  parse_option_string, parse_options, parse_single_option, key_option, word_option,
}
use fuse_overlayfs.Config.Args.{
  configured, initial_config, finish_config, parse_arg_loop, parse_args,
}
use fuse_overlayfs.Config.Paths.{print_lowerdir, parse_lowerdir-print_lowerdir}
use fuse_overlayfs.Config.Splitting.{escaped, parse_option_string-escape}
use fuse_overlayfs.Config.Accepted.{IsFinished, parse_args-IsFinished}

abbrev arguments : List (List ℕ)
arguments = codes "fuse-overlayfs" ∷ codes "-o" ∷ codes "volatile,fsync=1" ∷ codes "/mnt" ∷ []

abbrev accepted : OverlayConfig
accepted = record (default_config 1000) {
  fuse_options = codes "default_permissions" ∷ codes "noatime" ∷ [];
  volatile_mode = true;
  fsync = false;
  mountpoint = some (codes "/mnt");
}

accepted_run : parse_args 1000 arguments ≡ ok (configured accepted)
unfolding parse_args parse_arg_loop initial_config finish_config parse_option_string parse_options
    parse_single_option key_option word_option split_options split_loop split_char split_once
    starts_with bytes_eq any parse_i32 parse_uint parse_digits
accepted_run = refl

parse_args-IsFinished_example : IsFinished accepted
parse_args-IsFinished_example = parse_args-IsFinished 1000 arguments accepted accepted_run

abbrev lower_dirs : List (List ℕ)
lower_dirs = codes "/a:b" ∷ codes "/c" ∷ []

parse_lowerdir-print_lowerdir_example : parse_lowerdir (print_lowerdir lower_dirs) ≡ lower_dirs
parse_lowerdir-print_lowerdir_example = parse_lowerdir-print_lowerdir lower_dirs (refl, refl, refl)

parse_option_string-escape_example :
    parse_option_string
      (join b','
        (escaped ((codes "upperdir=" ++ codes "/u,1") ∷ (codes "workdir=" ++ codes "/w") ∷ [])))
      (default_config 0)
    ≡ ok (record (default_config 0) { upperdir = some (codes "/u,1"); workdir = some (codes "/w") })
parse_option_string-escape_example =
    parse_option_string-escape (codes "/u,1") (codes "/w") (default_config 0)

-- A plug-in's name with a path behind it.
plugin_run : parse_plugin_path (codes "//name/data//path") ≡ some (codes "name/data", codes "path")
unfolding parse_plugin_path split_once starts_with bytes_eq
plugin_run = refl
