-- ===== src/Config/Numbers.antt =====
-- The numbers that src/config.rs reads with `parse`: `i32`, given by its bit pattern, and `f64`, of
-- which only the texts that are accepted are modelled.
use fuse_overlayfs.Base.{
  ℕ, ◌+◌, ◌-◌, ◌%◌, ◌^◌, Bool, true, false, ◌&&◌, ◌||◌, Option, none, some, List, [], ◌∷◌, ◌==◌,
  leb, if◌then◌else◌, bytes_eq, codes,
}
use fuse_overlayfs.Base.Text.{parse_uint, parse_digits, u32_mod}

abbrev negated : Option ℕ → Option ℕ
negated none = none
negated (some n) = some ((u32_mod - n) % u32_mod)

abbrev parse_magnitude : List ℕ → Option ℕ
parse_magnitude [] = none
parse_magnitude (c ∷ s) = negated (parse_digits 10 (2 ^ 31 + 1) 0 (c ∷ s))

unfoldable pub parse_i32 : List ℕ → Option ℕ
parse_i32 [] = none
parse_i32 (c ∷ s) = if c == b'-' then parse_magnitude s else parse_uint 10 (2 ^ 31) (c ∷ s)

abbrev is_decimal : ℕ → Bool
is_decimal c = leb b'0' c && leb c b'9'

-- The digits at the front are taken off: whether there are any, and what is left.
take_digits : List ℕ → Bool × List ℕ
take_digits [] = (false, [])
take_digits (c ∷ s) =
    let rest = take_digits s in if is_decimal c then (true, rest.1) else (false, c ∷ s)

abbrev drop_sign : List ℕ → List ℕ
drop_sign [] = []
drop_sign (c ∷ s) = if c == b'+' || c == b'-' then s else c ∷ s

abbrev all_digits : Bool × List ℕ → Bool
all_digits (some_digits, []) = some_digits
all_digits (some_digits, c ∷ s) = false

abbrev is_exponent : List ℕ → Bool
is_exponent [] = true
is_exponent (c ∷ s) = (c == b'e' || c == b'E') && all_digits (take_digits (drop_sign s))

abbrev after_point : Bool → Bool × List ℕ → Bool
after_point before (after, s) = (before || after) && is_exponent s

abbrev after_digits : Bool × List ℕ → Bool
after_digits (before, []) = before
after_digits (before, c ∷ s) =
    if c == b'.' then after_point before (take_digits s) else before && is_exponent (c ∷ s)

abbrev lower_case : List ℕ → List ℕ
lower_case [] = []
lower_case (c ∷ s) =
    let rest = lower_case s in if leb b'A' c && leb c b'Z' then (c + 32) ∷ rest else c ∷ rest

abbrev is_word : List ℕ → Bool
is_word s = bytes_eq s (codes "inf") || bytes_eq s (codes "infinity") || bytes_eq s (codes "nan")

-- The texts that `parse::<f64>` accepts.
unfoldable pub is_f64 : List ℕ → Bool
unfolding take_digits
is_f64 s = is_word (lower_case (drop_sign s)) || after_digits (take_digits (drop_sign s))
