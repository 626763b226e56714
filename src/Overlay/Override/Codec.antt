-- ===== src/Overlay/Override/Codec.antt =====
-- The override attribute that `setattr` of src/overlay.rs writes, read back.
use Prim.Native.Nat.{bit_and, bit_or}
use native.Mathlib.Nat.{pow-suc}
use fuse_overlayfs.Base.{
  ℕ, zero, suc, ◌+◌, ◌*◌, ◌/◌, ◌%◌, ◌^◌, ◌<◌, ◌≡◌, refl, sym, ap, ◌∙◌, Bool, true, false, not, ◌&&◌,
  some, List, [], ◌∷◌, ◌++◌, arith, ok, if◌then◌else◌, ltb, all,
}
use fuse_overlayfs.Base.Text.{
  split_on, split_on_field, split_on-append, join, free_of, parse_digits, parse_uint, u32_mod,
  to_string, to_string-free_of, parse_uint-to_string,
}
use fuse_overlayfs.Datasource.{Bytes, Stat}
use fuse_overlayfs.Node.{s_ifmt}
use fuse_overlayfs.Overlay.Override.{
  apply_parts, fields_of, parse_and_apply_override, parse_override_fields,
}

-- The octal digits of `n` in front of `rest`.
unfoldable pub octal_digits : ℕ → ℕ → List ℕ → List ℕ
octal_digits zero n rest = rest
octal_digits (suc f) n rest =
    let more = octal_digits f (n / 8) ((b'0' + n % 8) ∷ rest) in
    if ltb n 8 then (b'0' + n) ∷ rest else more

-- `{:o}` of a `u32`, which has eleven octal digits at most.
unfoldable pub to_octal : ℕ → List ℕ
to_octal n = octal_digits 11 n []

-- `format!("{}:{}:{:o}", uid, gid, mode)`
unfoldable pub print_override : ℕ → ℕ → ℕ → Bytes
print_override uid gid mode = join b':' (to_string uid ∷ to_string gid ∷ to_octal mode ∷ [])

octal_digit : (n : ℕ) → n / 8 * 8 + n % 8 ≡ n
octal_digit n = omega arith

parse_digits-octal_digits :
    (f n limit : ℕ) (rest : List ℕ)
    → n < 8 ^ f
    → n < limit
    → parse_digits 8 limit 0 (octal_digits f n rest) ≡ parse_digits 8 limit n rest
unfolding parse_digits octal_digits
parse_digits-octal_digits zero n limit rest h k =
    let e : n ≡ 0 = omega arith in ap (λ (m : ℕ). parse_digits 8 limit m rest) (sym e)
parse_digits-octal_digits (suc f) n limit rest h k = ground (
  arith,
  pow-suc 8 f,
  parse_digits-octal_digits f (n / 8) limit ((b'0' + n % 8) ∷ rest),
  octal_digit n,
)

abbrev starts_with_octal : List ℕ → Bool
starts_with_octal [] = false
starts_with_octal (c ∷ s) = ltb c 56 && not (ltb c 48)

octal_digits-starts_with_octal :
    (f n : ℕ) (rest : List ℕ)
    → starts_with_octal rest ≡ true
    → starts_with_octal (octal_digits f n rest) ≡ true
unfolding octal_digits
octal_digits-starts_with_octal zero n rest h = h
octal_digits-starts_with_octal (suc f) n rest h =
    ground (arith, octal_digits-starts_with_octal f (n / 8) ((b'0' + n % 8) ∷ rest))

to_octal-starts_with_octal : (n : ℕ) → starts_with_octal (to_octal n) ≡ true
unfolding to_octal octal_digits
to_octal-starts_with_octal n =
    ground (arith, octal_digits-starts_with_octal 10 (n / 8) ((b'0' + n % 8) ∷ []))

parse_uint_of_octal :
    (limit : ℕ) (s : List ℕ)
    → starts_with_octal s ≡ true
    → parse_uint 8 limit s ≡ parse_digits 8 limit 0 s
unfolding parse_uint
parse_uint_of_octal limit [] h = ground arith
parse_uint_of_octal limit (c ∷ s) h = ground arith

parse_uint-to_octal : (n : ℕ) → n < u32_mod → parse_uint 8 u32_mod (to_octal n) ≡ some n
unfolding to_octal parse_digits
parse_uint-to_octal n h =
    parse_uint_of_octal u32_mod (to_octal n) (to_octal-starts_with_octal n)
    ∙ parse_digits-octal_digits 11 n u32_mod [] (omega arith) h

octal_digits-free_of :
    (f n : ℕ) (rest : List ℕ)
    → free_of b':' rest ≡ true
    → free_of b':' (octal_digits f n rest) ≡ true
unfolding octal_digits all
octal_digits-free_of zero n rest h = h
octal_digits-free_of (suc f) n rest h =
    ground (arith, octal_digits-free_of f (n / 8) ((b'0' + n % 8) ∷ rest))

split_on-print_override :
    (uid gid mode : ℕ)
    → split_on b':' (print_override uid gid mode)
      ≡ to_string uid ∷ to_string gid ∷ to_octal mode ∷ []
unfolding print_override join to_octal all
split_on-print_override uid gid mode =
    split_on-append b':' (to_string uid) (to_string gid ++ (b':' ∷ to_octal mode))
      (to_string-free_of uid b':' (omega arith))
    ∙ ap (λ fs. to_string uid ∷ fs)
        (split_on-append b':' (to_string gid) (to_octal mode)
            (to_string-free_of gid b':' (omega arith))
          ∙ ap (λ fs. to_string gid ∷ fs)
              (split_on_field b':' (to_octal mode) (octal_digits-free_of 11 mode [] refl)))

-- Owner and mode that are written to the attribute are the ones that a later stat shows, where the
-- type of the file stays as it is, and the ones that a later change of the attribute starts from.
pub parse_and_apply_override-print_override :
    (uid gid mode : ℕ) (st : Stat)
    → uid < u32_mod
    → gid < u32_mod
    → mode < u32_mod
    → (parse_and_apply_override (print_override uid gid mode) st
        ≡ ok (record st {
          st_uid = uid;
          st_gid = gid;
          st_mode = bit_or mode (bit_and st.st_mode s_ifmt);
        }))
      × (parse_override_fields (print_override uid gid mode) st ≡ (uid, gid, mode))
unfolding parse_and_apply_override parse_override_fields
parse_and_apply_override-print_override uid gid mode st u g m =
    let parts = split_on-print_override uid gid mode in
    let uid_read = parse_uint-to_string uid u32_mod u (omega arith) in
    let gid_read = parse_uint-to_string gid u32_mod g (omega arith) in
    let mode_read = parse_uint-to_octal mode m in
    (
      ap (λ fs. apply_parts fs st) parts ∙ ground (arith, uid_read, gid_read, mode_read),
      ap (λ fs. fields_of fs st) parts ∙ ground (arith, uid_read, gid_read, mode_read),
    )
