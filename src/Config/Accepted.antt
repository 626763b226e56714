-- ===== src/Config/Accepted.antt =====
-- What holds of every configuration that `parse_args` of src/config.rs accepts.
use fuse_overlayfs.Base.{
  ℕ, Bool, true, false, ◌||◌, ◌≡◌, refl, some, List, [], ◌∷◌, Result, ok, err, ◌>>=◌, if_both,
  Bool_both, arith, codes, drop, starts_with, bytes_eq,
}
use mathlib.Core.Path.{subst}
use fuse_overlayfs.Mapping.{parse_mappings}
use fuse_overlayfs.Config.{OverlayConfig}
use fuse_overlayfs.Config.Options.{parse_option_string}
use fuse_overlayfs.Config.Args.{
  Outcome, configured, help_printed, version_printed, initial_config, mappings_of, finish_config,
  parse_arg_loop, parse_args,
}

-- A volatile mount is not synced, and the mapping tables are those of the mapping options.
pub record IsFinished (c : OverlayConfig) : Type 0 where
  pub unsynced : c.volatile_mode ≡ true → c.fsync ≡ false
  pub uids : (s : List ℕ) → c.uid_str ≡ some s → parse_mappings s ≡ ok c.uid_mappings
  pub gids : (s : List ℕ) → c.gid_str ≡ some s → parse_mappings s ≡ ok c.gid_mappings

abbrev AllFinished : Result (List ℕ) Outcome → Type 0
AllFinished (err e) = Unit
AllFinished (ok help_printed) = Unit
AllFinished (ok version_printed) = Unit
AllFinished (ok (configured c)) = IsFinished c

-- What holds of all that a chain goes on with holds of the chain.
after :
    {A : Type 0} (r : Result (List ℕ) A) (f : A → Result (List ℕ) Outcome)
    → ((a : A) → r ≡ ok a → AllFinished (f a))
    → AllFinished (r >>= f)
after (err e) f h = tt
after (ok a) f h = h a refl

finish_config-AllFinished : (config : OverlayConfig) → AllFinished (finish_config config)
unfolding finish_config
finish_config-AllFinished config =
    after (mappings_of config.uid_str config.uid_mappings) _ (λ uids u.
      after (mappings_of config.gid_str config.gid_mappings) _ (λ gids g.
        if_both IsFinished config.volatile_mode
          (λ on. record {
            unsynced = λ _. refl;
            uids = λ s e. ground arith;
            gids = λ s e. ground arith;
          })
          (λ off. record {
            unsynced = λ on. ground arith;
            uids = λ s e. ground arith;
            gids = λ s e. ground arith;
          })))

parse_arg_loop-AllFinished :
    (pending : Bool) (args : List (List ℕ)) (config : OverlayConfig)
    → AllFinished (parse_arg_loop pending args config)
unfolding parse_arg_loop
parse_arg_loop-AllFinished true [] config = tt
parse_arg_loop-AllFinished false [] config = finish_config-AllFinished config
parse_arg_loop-AllFinished true (arg ∷ args) config =
    after (parse_option_string arg config) _ (λ c _. parse_arg_loop-AllFinished false args c)
parse_arg_loop-AllFinished false (arg ∷ args) config =
    Bool_both AllFinished (bytes_eq arg (codes "-f")) (λ _. parse_arg_loop-AllFinished false args _)
      (λ _.
        Bool_both AllFinished (bytes_eq arg (codes "-d") || bytes_eq arg (codes "--debug"))
          (λ _. parse_arg_loop-AllFinished false args _)
          (λ _.
            if_both AllFinished (bytes_eq arg (codes "--help") || bytes_eq arg (codes "-h"))
              (λ _. tt)
              (λ _.
                if_both AllFinished (bytes_eq arg (codes "--version") || bytes_eq arg (codes "-V"))
                  (λ _. tt)
                  (λ _.
                    Bool_both AllFinished (bytes_eq arg (codes "-o"))
                      (λ _. parse_arg_loop-AllFinished true args config)
                      (λ _.
                        Bool_both AllFinished (starts_with arg (codes "-o"))
                          (λ _.
                            after (parse_option_string (drop 2 arg) config) _
                              (λ c _. parse_arg_loop-AllFinished false args c))
                          (λ _.
                            Bool_both AllFinished (starts_with arg (codes "-"))
                              (λ _. parse_arg_loop-AllFinished false args config)
                              (λ _. parse_arg_loop-AllFinished false args _)))))))

-- In every configuration that a command line gives, "volatile" has turned syncing off, whatever the
-- order of the options, and the mapping tables are what the mapping options parse to.
pub parse_args-IsFinished :
    (euid : ℕ) (args : List (List ℕ)) (c : OverlayConfig)
    → parse_args euid args ≡ ok (configured c)
    → IsFinished c
unfolding parse_args
parse_args-IsFinished euid args c h =
    subst AllFinished h (parse_arg_loop-AllFinished false (drop 1 args) (initial_config euid))
