-- ===== src/Base/Text.antt =====
-- What the program uses of the standard library's text functions: `split` on a separator, and
-- the decimal (or octal) reading and printing of integers.
use Prim.Native.Nat.{ℕ, zero, suc, ◌+◌, ◌-◌, ◌*◌, ◌/◌, ◌%◌, ◌^◌, ◌≤◌, ◌<◌}
use mathlib.Core.Path.{◌≡◌, refl, sym, ap, ◌∙◌}
use mathlib.Core.Bool.{Bool, true, false, not, ◌&&◌}
use mathlib.Core.List.{List, [], ◌∷◌, ◌++◌}
use mathlib.Core.Option.{Option, none, some}
use native.Mathlib.Nat.{pow-suc}
use native.Mathlib.Omega.{arith}
use fuse_overlayfs.Base.Tests.{ltb, leb, ◌==◌, if◌then◌else◌}
use fuse_overlayfs.Base.Lists.{is_empty, all}

abbrev pub cons_head : ℕ → List (List ℕ) → List (List ℕ)
cons_head c [] = (c ∷ []) ∷ []
cons_head c (f ∷ fs) = (c ∷ f) ∷ fs

-- `s.split(sep)`: a text with no separator is one field, and the empty text is one empty field.
unfoldable pub split_on : ℕ → List ℕ → List (List ℕ)
split_on sep [] = [] ∷ []
split_on sep (c ∷ s) = let rest = split_on sep s in if c == sep then [] ∷ rest else cons_head c rest

-- Fields with the separator between them.
unfoldable pub join : ℕ → List (List ℕ) → List ℕ
join sep [] = []
join sep (f ∷ []) = f
join sep (f ∷ g ∷ fs) = f ++ (sep ∷ join sep (g ∷ fs))

-- The separator is not among the field's bytes.
abbrev pub free_of : ℕ → List ℕ → Bool
free_of sep f = all (λ c. not (c == sep)) f

pub split_on_field : (sep : ℕ) (f : List ℕ) → free_of sep f ≡ true → split_on sep f ≡ f ∷ []
unfolding split_on all
split_on_field sep [] h = refl
split_on_field sep (c ∷ f) h = ground (arith, split_on_field sep f)

pub split_on-append :
    (sep : ℕ) (f rest : List ℕ)
    → free_of sep f ≡ true
    → split_on sep (f ++ (sep ∷ rest)) ≡ f ∷ split_on sep rest
unfolding split_on all
split_on-append sep [] rest h = ground arith
split_on-append sep (c ∷ f) rest h = ground (arith, split_on-append sep f rest)

-- The value of a digit in the given radix (at most ten).
abbrev is_digit : ℕ → ℕ → Bool
is_digit radix c = leb b'0' c && ltb c (b'0' + radix)

-- `from_str_radix` after the sign: every byte is a digit, and the value stays below `limit`.
unfoldable pub parse_digits : ℕ → ℕ → ℕ → List ℕ → Option ℕ
parse_digits radix limit n [] = some n
parse_digits radix limit n (c ∷ s) =
    let m = n * radix + (c - b'0') in
    let rest = parse_digits radix limit m s in
    if is_digit radix c && ltb m limit then rest else none

abbrev parse_unsigned : ℕ → ℕ → List ℕ → Option ℕ
parse_unsigned radix limit [] = none
parse_unsigned radix limit (c ∷ s) = parse_digits radix limit 0 (c ∷ s)

-- `str::parse` and `from_str_radix` at an unsigned type: one leading `+` is accepted.
unfoldable pub parse_uint : ℕ → ℕ → List ℕ → Option ℕ
unfolding parse_digits
parse_uint radix limit [] = none
parse_uint radix limit (c ∷ s) =
    if c == b'+' then parse_unsigned radix limit s else parse_unsigned radix limit (c ∷ s)

abbrev pub u32_mod : ℕ
u32_mod = 2 ^ 32

abbrev pub parse_u32 : List ℕ → Option ℕ
parse_u32 s = parse_uint 10 u32_mod s

-- `to_string` of an unsigned integer: the digits of `n` in front of `rest`.
unfoldable pub digits : ℕ → ℕ → List ℕ → List ℕ
digits zero n rest = rest
digits (suc f) n rest =
    let more = digits f (n / 10) ((b'0' + n % 10) ∷ rest) in
    if ltb n 10 then (b'0' + n) ∷ rest else more

-- Twenty digits are enough for every `u64`.
unfoldable pub to_string : ℕ → List ℕ
to_string n = digits 20 n []

last_digit : (n : ℕ) → n / 10 * 10 + n % 10 ≡ n
last_digit n = omega arith

-- A number below the limit reads back, whatever follows its digits.
parse_digits-digits :
    (f n limit : ℕ) (rest : List ℕ)
    → n < 10 ^ f
    → n < limit
    → parse_digits 10 limit 0 (digits f n rest) ≡ parse_digits 10 limit n rest
unfolding parse_digits digits
parse_digits-digits zero n limit rest h k =
    let e : n ≡ 0 = omega arith in ap (λ (m : ℕ). parse_digits 10 limit m rest) (sym e)
parse_digits-digits (suc f) n limit rest h k = ground (
  arith,
  pow-suc 10 f,
  parse_digits-digits f (n / 10) limit ((b'0' + n % 10) ∷ rest),
  last_digit n,
)

abbrev starts_with_digit : List ℕ → Bool
starts_with_digit [] = false
starts_with_digit (c ∷ s) = is_digit 10 c

digits-starts_with_digit :
    (f n : ℕ) (rest : List ℕ)
    → starts_with_digit rest ≡ true
    → starts_with_digit (digits f n rest) ≡ true
unfolding digits
digits-starts_with_digit zero n rest h = h
digits-starts_with_digit (suc f) n rest h =
    ground (arith, digits-starts_with_digit f (n / 10) ((b'0' + n % 10) ∷ rest))

digits-suc-starts_with_digit : (f n : ℕ) → starts_with_digit (digits (suc f) n []) ≡ true
unfolding digits
digits-suc-starts_with_digit f n =
    ground (arith, digits-starts_with_digit f (n / 10) ((b'0' + n % 10) ∷ []))

to_string-starts_with_digit : (n : ℕ) → starts_with_digit (to_string n) ≡ true
unfolding to_string
to_string-starts_with_digit n = digits-suc-starts_with_digit 19 n

parse_uint_of_digits :
    (limit : ℕ) (s : List ℕ)
    → starts_with_digit s ≡ true
    → parse_uint 10 limit s ≡ parse_digits 10 limit 0 s
unfolding parse_uint
parse_uint_of_digits limit [] h = ground arith
parse_uint_of_digits limit (c ∷ s) h = ground arith

pub parse_uint-to_string :
    (n limit : ℕ) → n < limit → limit ≤ 2 ^ 64 → parse_uint 10 limit (to_string n) ≡ some n
unfolding to_string parse_digits
parse_uint-to_string n limit h k =
    parse_uint_of_digits limit (to_string n) (to_string-starts_with_digit n)
    ∙ parse_digits-digits 20 n limit [] (omega arith) h

digits-free_of :
    (f n sep : ℕ) (rest : List ℕ)
    → b'9' < sep
    → free_of sep rest ≡ true
    → free_of sep (digits f n rest) ≡ true
unfolding digits all
digits-free_of zero n sep rest h k = k
digits-free_of (suc f) n sep rest h k =
    ground (arith, digits-free_of f (n / 10) sep ((b'0' + n % 10) ∷ rest))

pub to_string-free_of : (n sep : ℕ) → b'9' < sep → free_of sep (to_string n) ≡ true
unfolding to_string all
to_string-free_of n sep h = digits-free_of 20 n sep [] h refl

pub to_string-not-empty : (n : ℕ) → is_empty (to_string n) ≡ false
to_string-not-empty n = ground (arith, to_string-starts_with_digit n)
