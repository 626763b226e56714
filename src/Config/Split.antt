-- ===== src/Config/Split.antt =====
-- The loops over characters in src/config.rs: `split_options`, `unescape_path`, `parse_lowerdir` and
-- `parse_plugin_path`. A character looked at with `peek` after a backslash is met in the next round,
-- with the flag `escaped` set.
use fuse_overlayfs.Base.{
  ℕ, Bool, true, false, not, ◌&&◌, Option, none, some, List, [], ◌∷◌, ◌++◌, ◌==◌, if◌then◌else◌,
  is_empty, starts_with, drop, codes,
}

abbrev pub backslash : ℕ
backslash = 92

abbrev pub quote : ℕ
quote = 34

pub record Splitter : Type 0 where
  pub escaped : Bool
  pub in_quotes : Bool
  pub current : List ℕ
  pub result : List (List ℕ)

abbrev pub start : Splitter
start = record { escaped = false; in_quotes = false; current = []; result = [] }

abbrev pub push : Splitter → ℕ → Splitter
push t c = record t { escaped = false; current = t.current ++ (c ∷ []) }

-- A field that is empty is dropped.
abbrev pub end_field : Splitter → Splitter
end_field t =
    if is_empty t.current
    then t
    else record t { current = []; result = t.result ++ (t.current ∷ []) }

-- One round of `split_options`. The two characters of an escape are kept.
unfoldable pub split_char : Splitter → ℕ → Splitter
split_char t c =
    if t.escaped
    then record t { escaped = false; current = t.current ++ (backslash ∷ c ∷ []) }
    else if c == backslash
    then record t { escaped = true }
    else if c == quote
    then record (push t c) { in_quotes = not t.in_quotes }
    else if c == b',' && not t.in_quotes
    then end_field t
    else push t c

unfoldable pub split_loop : Splitter → List ℕ → Splitter
split_loop t [] = t
split_loop t (c ∷ s) = split_loop (split_char t c) s

-- A backslash at the end of the text is dropped.
unfoldable pub split_options : List ℕ → List (List ℕ)
split_options s = (end_field (split_loop start s)).result

unfoldable pub unescape_from : Bool → List ℕ → List ℕ
unescape_from false [] = []
unescape_from true [] = backslash ∷ []
unescape_from true (c ∷ s) = c ∷ unescape_from false s
unescape_from false (c ∷ s) = elim (c == backslash) [
  | true ↦ unescape_from true s
  | false ↦ c ∷ unescape_from false s
]

unfoldable pub unescape_path : List ℕ → List ℕ
unfolding unescape_from
unescape_path s = unescape_from false s

-- A character of `parse_lowerdir` that does not follow a backslash.
abbrev pub plain_lower_char : Splitter → ℕ → Splitter
plain_lower_char t c =
    if c == backslash
    then record t { escaped = true }
    else if c == b':'
    then end_field t
    else push t c

-- One round of `parse_lowerdir`: a backslash is dropped in front of a colon only.
unfoldable pub lower_char : Splitter → ℕ → Splitter
lower_char t c =
    if t.escaped
    then if c == b':' then push t c else plain_lower_char (push t backslash) c
    else plain_lower_char t c

unfoldable pub lower_loop : Splitter → List ℕ → Splitter
lower_loop t [] = t
lower_loop t (c ∷ s) = lower_loop (lower_char t c) s

abbrev pub end_lower : Splitter → Splitter
end_lower t = end_field (if t.escaped then push t backslash else t)

unfoldable pub parse_lowerdir : List ℕ → List (List ℕ)
parse_lowerdir s = (end_lower (lower_loop start s)).result

abbrev cons_fst : ℕ → Option (List ℕ × List ℕ) → Option (List ℕ × List ℕ)
cons_fst c none = none
cons_fst c (some (a, b)) = some (c ∷ a, b)

-- `split_once`: what is before and behind the first occurrence of a separator.
unfoldable pub split_once : List ℕ → List ℕ → Option (List ℕ × List ℕ)
split_once sep [] = none
split_once sep (c ∷ s) =
    let rest = split_once sep s in
    if starts_with (c ∷ s) sep then some ([], rest_of sep (c ∷ s)) else cons_fst c rest
  where
    rest_of : List ℕ → List ℕ → List ℕ
    rest_of [] t = t
    rest_of (x ∷ xs) [] = []
    rest_of (x ∷ xs) (y ∷ t) = rest_of xs t

abbrev or_whole : List ℕ → Option (List ℕ × List ℕ) → List ℕ × List ℕ
or_whole s none = (s, [])
or_whole s (some parts) = parts

-- The plug-in's name and data, and the path behind them.
unfoldable pub parse_plugin_path : List ℕ → Option (List ℕ × List ℕ)
parse_plugin_path path =
    if starts_with path (codes "//")
    then some (or_whole (drop 2 path) (split_once (codes "//") (drop 2 path)))
    else none
