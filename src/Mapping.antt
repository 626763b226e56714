-- ===== src/Mapping.antt =====
-- src/mapping.rs: the UID and GID mappings between the host and the container.
-- Identifiers are `u32`: the sum in a match is written with its wrap-around.
pub mod Parse
pub mod Lookup
use fuse_overlayfs.Base.{
  ℕ, zero, suc, ◌+◌, ◌-◌, ◌%◌, Bool, true, false, not, ◌&&◌, Option, none, some, List, [], ◌∷◌, map,
  ◌++◌, ltb, leb, ◌==◌, if◌then◌else◌, length, is_empty, retain, codes, Result, ok, err, ok_or,
  ◌>>=◌,
}
use fuse_overlayfs.Base.Text.{split_on, parse_u32, u32_mod}

pub record IdMapping : Type 0 where
  pub host : ℕ
  pub to : ℕ
  pub len : ℕ

pub record OverflowIds : Type 0 where
  pub uid : ℕ
  pub gid : ℕ

abbrev default_overflow : ℕ
default_overflow = 65534

abbrev or_default : Option ℕ → ℕ
or_default none = default_overflow
or_default (some n) = n

-- `OverflowIds::read`: the two files of /proc, where one that is missing or no number gives 65534.
-- The arguments are what `read_proc_id` makes of them.
unfoldable pub read_overflow_ids : Option ℕ → Option ℕ → OverflowIds
read_overflow_ids uid gid = record { uid = or_default uid; gid = or_default gid }

-- The message of a mapping that is refused.
abbrev pub invalid_mapping : List ℕ → List ℕ
invalid_mapping s = codes "invalid mapping specified: " ++ s

-- `chunks(3)`: each chunk is a host identifier, a container identifier and a length.
unfoldable pub parse_chunks : List ℕ → List (List ℕ) → Result (List ℕ) (List IdMapping)
parse_chunks s (a ∷ b ∷ c ∷ parts) =
    let rest = parse_chunks s parts in
    do
      host ← ok_or (parse_u32 a) (invalid_mapping s)
      to ← ok_or (parse_u32 b) (invalid_mapping s)
      len ← ok_or (parse_u32 c) (invalid_mapping s)
      mappings ← rest
      ok (record { host = host; to = to; len = len } ∷ mappings)
parse_chunks s _ = ok []

unfoldable pub parse_mappings : List ℕ → Result (List ℕ) (List IdMapping)
unfolding parse_chunks
parse_mappings s =
    let parts = retain (λ p. not (is_empty p)) (split_on b':' s) in
    if length parts % 3 == 0 then parse_chunks s parts else err (invalid_mapping s)

-- The loop of `find_mapping` over the entries; the first entry whose range holds `id` answers.
unfoldable pub find_entry : ℕ → List IdMapping → Bool → Option ℕ
find_entry id [] direct = none
find_entry id (m ∷ mappings) direct =
    let rest = find_entry id mappings direct in
    if direct
    then (if leb m.host id && ltb (id - m.host) m.len
        then some ((m.to + (id - m.host)) % u32_mod)
        else rest)
    else if leb m.to id && ltb (id - m.to) m.len
    then some ((m.host + (id - m.to)) % u32_mod)
    else rest

-- The part of `find_mapping` after the squash options.
unfoldable pub find_in_table : ℕ → List IdMapping → Bool → ℕ → ℕ
unfolding find_entry
find_in_table id [] direct overflow_id = id
find_in_table id (m ∷ mappings) direct overflow_id = elim (find_entry id (m ∷ mappings) direct) [
  | some mapped ↦ mapped
  | none ↦ overflow_id
]

unfoldable pub find_mapping : ℕ → List IdMapping → Bool → Bool → Option ℕ → ℕ → ℕ
unfolding find_in_table
find_mapping id mappings true squash_to_root (some squash_id) overflow_id = squash_id
find_mapping id mappings true true none overflow_id = 0
find_mapping id mappings true false none overflow_id = find_in_table id mappings true overflow_id
find_mapping id mappings false squash_to_root squash_to_id overflow_id =
    find_in_table id mappings false overflow_id
