-- ===== src/Tests/Identifiers.antt =====
-- Identifier mappings: the table "0:100000:10", and what becomes of its identifiers.
use fuse_overlayfs.Base.{◌≡◌, inl, none, List, [], ◌∷◌, arith, ok, false, true}
use fuse_overlayfs.Mapping.{IdMapping, parse_mappings, find_mapping}
use fuse_overlayfs.Mapping.Parse.{print_mappings, parse_mappings-print_mappings}
use fuse_overlayfs.Mapping.Lookup.{IsUnmapped, find_mapping-find_mapping, find_mapping-IsUnmapped}

abbrev one_range : IdMapping
one_range = record { host = 0; to = 100000; len = 10 }

abbrev one_table : List IdMapping
one_table = one_range ∷ []

find_mapping-find_mapping_example :
    find_mapping (find_mapping 7 one_table true false none 65534) one_table false false none 65534
    ≡ 7
find_mapping-find_mapping_example =
    find_mapping-find_mapping 7 one_table true 65534 (ground arith, ground arith, tt, tt)
      (inl (ground arith, ground arith))

find_mapping-IsUnmapped_example :
    (IsUnmapped 12 one_table false → find_mapping 12 one_table false true none 65534 ≡ 65534)
    × (IsUnmapped 12 one_table true → find_mapping 12 one_table true false none 65534 ≡ 65534)
find_mapping-IsUnmapped_example = find_mapping-IsUnmapped 12 one_range [] true none 65534

parse_mappings-print_mappings_example : parse_mappings (print_mappings one_table) ≡ ok one_table
parse_mappings-print_mappings_example =
    parse_mappings-print_mappings one_table (ground arith, ground arith, ground arith, tt)
