-- ===== src/Tests/Stats.antt =====
-- The stat of the root directory of Tests/Directories.antt, and an override attribute.
use Prim.Native.Nat.{bit_and, bit_or}
use fuse_overlayfs.Base.{
  ◌≡◌, ◌≤◌, refl, inl, none, List, [], ◌∷◌, ok, err, arith, codes, bytes_eq, enodata, nat_key,
}
use fuse_overlayfs.Base.Map
use fuse_overlayfs.Datasource.{Stat}
use fuse_overlayfs.Config.{OverlayConfig, default_config}
use fuse_overlayfs.Mapping.{IdMapping}
use fuse_overlayfs.Node.{s_ifmt, s_ifdir, get_node, new_node}
use fuse_overlayfs.Overlay.{layer}
use fuse_overlayfs.Overlay.Override.{parse_and_apply_override, parse_override_fields, override_mode}
use fuse_overlayfs.Overlay.Override.Codec.{print_override, parse_and_apply_override-print_override}
use fuse_overlayfs.Overlay.Attr.{
  Calls, host_stat, do_stat_with_path, shown_stat, rpl_stat_with_path, map_uid, map_gid,
}
use fuse_overlayfs.Overlay.Attr.Shown.{rpl_stat_with_path-map_uid, rpl_stat_with_path-ge}
use fuse_overlayfs.Tests.Directories.{stat_of, root, state}

abbrev pub calls : Calls
calls = record { fgetxattr = λ fd name. err enodata; fstatat = λ fd path. ok (stat_of s_ifdir) }

abbrev ranges : List IdMapping
ranges = record { host = 0; to = 100000; len = 10 } ∷ []

abbrev pub config : OverlayConfig
config = record (default_config 0) { uid_mappings = ranges; gid_mappings = ranges }

abbrev host : Stat
host = stat_of s_ifdir

abbrev shown : Stat
shown = shown_stat state root config (codes ".") host

read_run : host_stat calls state root none (codes ".") ≡ ok host
unfolding host_stat do_stat_with_path layer override_mode new_node bytes_eq
read_run = refl

shown_run : rpl_stat_with_path calls state 1 none config (codes ".") ≡ ok shown
unfolding rpl_stat_with_path host_stat do_stat_with_path layer override_mode get_node Map.get
    new_node bytes_eq
shown_run = refl

rpl_stat_with_path-map_uid_example :
    (map_uid state shown.st_uid config ≡ host.st_uid)
    × (map_gid state shown.st_gid config ≡ host.st_gid)
unfolding get_node Map.get
rpl_stat_with_path-map_uid_example =
    rpl_stat_with_path-map_uid calls state 1 none config (codes ".") root host shown refl read_run
      shown_run (record { root = refl; uid = refl; gid = refl })
      (ground arith, ground arith, tt, tt) (ground arith, ground arith, tt, tt)
      (inl (ground arith, ground arith)) (inl (ground arith, ground arith))

rpl_stat_with_path-ge_example : 2 ≤ shown.st_ino
unfolding get_node Map.get
rpl_stat_with_path-ge_example =
    rpl_stat_with_path-ge calls state 1 none config (codes ".") root host shown refl read_run
      shown_run refl

parse_and_apply_override-print_override_example :
    (parse_and_apply_override (print_override 1000 1000 0o755) host
      ≡ ok (record host {
        st_uid = 1000;
        st_gid = 1000;
        st_mode = bit_or 0o755 (bit_and host.st_mode s_ifmt);
      }))
    × (parse_override_fields (print_override 1000 1000 0o755) host ≡ (1000, 1000, 0o755))
parse_and_apply_override-print_override_example =
    parse_and_apply_override-print_override 1000 1000 0o755 host (ground arith) (ground arith)
      (ground arith)
