-- ===== src/Mapping/Parse.antt =====
-- The text form of a mapping reads back: `parse_mappings` after printing.
use fuse_overlayfs.Base.{
  ℕ, ◌%◌, ◌<◌, ◌≡◌, refl, true, false, not, List, [], ◌∷◌, arith, all, length, is_empty, retain, ok,
}
use fuse_overlayfs.Base.Text.{
  split_on, join, free_of, split_on_field, split_on-append, to_string, to_string-free_of,
  to_string-not-empty, parse_uint-to_string, u32_mod,
}
use fuse_overlayfs.Mapping.{IdMapping, parse_chunks, parse_mappings}

abbrev IsField : List ℕ → Type 0
IsField f = (free_of b':' f ≡ true) × (is_empty f ≡ false)

abbrev pub fields : List IdMapping → List (List ℕ)
fields [] = []
fields (m ∷ ms) = to_string m.host ∷ to_string m.to ∷ to_string m.len ∷ fields ms

-- The form of the options `uidmapping` and `gidmapping`: all numbers with colons between them.
unfoldable pub print_mappings : List IdMapping → List ℕ
print_mappings ms = join b':' (fields ms)

-- Every number of the table is a `u32`.
abbrev pub AllU32 : List IdMapping → Type 0
AllU32 [] = Unit
AllU32 (m ∷ ms) = (m.host < u32_mod) × (m.to < u32_mod) × (m.len < u32_mod) × AllU32 ms

number-IsField : (n : ℕ) → IsField (to_string n)
number-IsField n = (to_string-free_of n b':' (omega arith), to_string-not-empty n)

abbrev AllFields : List (List ℕ) → Type 0
AllFields [] = Unit
AllFields (f ∷ fs) = IsField f × AllFields fs

fields-AllFields : (ms : List IdMapping) → AllFields (fields ms)
fields-AllFields [] = tt
fields-AllFields (m ∷ ms) =
    (number-IsField m.host, (number-IsField m.to, (number-IsField m.len, fields-AllFields ms)))

-- Splitting what `join` made, and dropping empty fields, gives the fields.
split_on-join :
    (fs : List (List ℕ))
    → AllFields fs
    → retain (λ p. not (is_empty p)) (split_on b':' (join b':' fs)) ≡ fs
unfolding join retain all
split_on-join [] h = rw (split_on_field b':' [] refl)
split_on-join (f ∷ []) h = rw (split_on_field b':' f h.0.0) (ground arith)
split_on-join (f ∷ g ∷ fs) h =
    rw (split_on-append b':' f (join b':' (g ∷ fs)) h.0.0)
      (ground (arith, split_on-join (g ∷ fs) h.1))

length-fields : (ms : List IdMapping) → length (fields ms) % 3 ≡ 0
length-fields [] = refl
length-fields (m ∷ ms) = omega (arith, length-fields ms)

parse_chunks-fields :
    (s : List ℕ) (ms : List IdMapping) → AllU32 ms → parse_chunks s (fields ms) ≡ ok ms
unfolding parse_chunks
parse_chunks-fields s [] h = refl
parse_chunks-fields s (m ∷ ms) h = rw (
  parse_uint-to_string m.host u32_mod h.0 (omega arith),
  parse_uint-to_string m.to u32_mod h.1 (omega arith),
  parse_uint-to_string m.len u32_mod h.2 (omega arith),
  parse_chunks-fields s ms h.3,
)

-- A table of `u32` numbers, printed as the command line's option and parsed, gives itself.
pub parse_mappings-print_mappings :
    (ms : List IdMapping) → AllU32 ms → parse_mappings (print_mappings ms) ≡ ok ms
unfolding parse_mappings print_mappings
parse_mappings-print_mappings ms h =
    rw (split_on-join (fields ms) (fields-AllFields ms), length-fields ms)
      (parse_chunks-fields (join b':' (fields ms)) ms h)
