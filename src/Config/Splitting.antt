-- ===== src/Config/Splitting.antt =====
-- Escaped texts through `split_options`, `unescape_path` and `parse_single_option` of src/config.rs.
use fuse_overlayfs.Base.{
  ℕ, ◌≡◌, refl, sym, ap, ◌∙◌, Bool, false, ◌||◌, some, List, [], ◌∷◌, ◌++◌, arith, ◌==◌,
  if◌then◌else◌, ok, is_empty, if_both, codes, bytes_eq, starts_with,
}
use mathlib.Core.Path.{ap₂}
use mathlib.Core.List.{append_assoc, append-nil}
use fuse_overlayfs.Base.Text.{join}
use fuse_overlayfs.Config.{OverlayConfig}
use fuse_overlayfs.Config.Split.{
  Splitter, backslash, quote, end_field, split_char, split_loop, split_options, split_once,
  unescape_from, unescape_path,
}
use fuse_overlayfs.Config.Options.{
  key_option, parse_single_option, parse_options, parse_option_string,
}

abbrev is_escapable : ℕ → Bool
is_escapable c = c == backslash || c == quote || c == b','

-- A backslash in front of each backslash, quote and comma.
unfoldable pub escape : List ℕ → List ℕ
escape [] = []
escape (c ∷ s) = let rest = escape s in if is_escapable c then backslash ∷ c ∷ rest else c ∷ rest

-- A text that is escaped is unescaped to itself.
unescape_path-escape : (s : List ℕ) → unescape_path (escape s) ≡ s
unfolding unescape_path unescape_from escape
unescape_path-escape [] = refl
unescape_path-escape (c ∷ s) = ground (arith, unescape_path-escape s)

-- The state between two options.
abbrev within : List ℕ → List (List ℕ) → Splitter
within current result = record {
  escaped = false;
  in_quotes = false;
  current = current;
  result = result;
}

plain_char :
    (c : ℕ) (current : List ℕ) (result : List (List ℕ))
    → is_escapable c ≡ false
    → split_char (within current result) c ≡ within (current ++ (c ∷ [])) result
unfolding split_char
plain_char c current result h = ground arith

-- An escaped text goes into the current option as it is.
split_loop-escape :
    (s rest current : List ℕ) (result : List (List ℕ))
    → split_loop (within current result) (escape s ++ rest)
      ≡ split_loop (within (current ++ escape s) result) rest
unfolding split_loop split_char escape
split_loop-escape [] rest current result =
    ap (λ x. split_loop (within x result) rest) (sym (append-nil current))
split_loop-escape (c ∷ s) rest current result =
    if_both
      (λ e.
        split_loop (within current result) (e ++ rest)
        ≡ split_loop (within (current ++ e) result) rest)
      (is_escapable c)
      (λ special.
        split_loop-escape s rest (current ++ (backslash ∷ c ∷ [])) result
        ∙ ap (λ x. split_loop (within x result) rest)
            (append_assoc current (backslash ∷ c ∷ []) (escape s)))
      (λ normal.
        ap (λ t. split_loop t (escape s ++ rest)) (plain_char c current result normal)
        ∙ split_loop-escape s rest (current ++ (c ∷ [])) result
        ∙ ap (λ x. split_loop (within x result) rest) (append_assoc current (c ∷ []) (escape s)))

-- The texts, each escaped, and none of them empty.
abbrev pub escaped : List (List ℕ) → List (List ℕ)
escaped [] = []
escaped (o ∷ opts) = escape o ∷ escaped opts

abbrev pub NoneEmpty : List (List ℕ) → Type 0
NoneEmpty [] = Unit
NoneEmpty (o ∷ opts) = (is_empty o ≡ false) × NoneEmpty opts

escape-not-empty : (o : List ℕ) → is_empty o ≡ false → is_empty (escape o) ≡ false
unfolding escape
escape-not-empty [] h = h
escape-not-empty (c ∷ s) h = ground arith

end_option :
    (current : List ℕ) (result : List (List ℕ))
    → is_empty current ≡ false
    → end_field (within current result) ≡ within [] (result ++ (current ∷ []))
end_option current result h = ground arith

-- The options behind those in `result` come out after them.
split_from :
    (opts : List (List ℕ)) (result : List (List ℕ))
    → NoneEmpty opts
    → (end_field (split_loop (within [] result) (join b',' (escaped opts)))).result
      ≡ result ++ escaped opts
unfolding join split_loop split_char
split_from [] result h = sym (append-nil result)
split_from (o ∷ []) result h =
    ap (λ s. (end_field (split_loop (within [] result) s)).result) (sym (append-nil (escape o)))
    ∙ ap (λ t. (end_field t).result) (split_loop-escape o [] [] result)
    ∙ ap (λ (t : Splitter). t.result) (end_option (escape o) result (escape-not-empty o h.0))
split_from (o ∷ p ∷ opts) result h =
    let rest = join b',' (escaped (p ∷ opts)) in
    ap (λ t. (end_field t).result) (split_loop-escape o (b',' ∷ rest) [] result)
    ∙ ap (λ t. (end_field (split_loop t rest)).result)
        (end_option (escape o) result (escape-not-empty o h.0))
    ∙ split_from (p ∷ opts) (result ++ (escape o ∷ [])) h.1
    ∙ append_assoc result (escape o ∷ []) (escaped (p ∷ opts))

-- Options, none of them empty, that are escaped and put together with commas are split into the
-- escaped options again.
pub split_options-join :
    (opts : List (List ℕ))
    → NoneEmpty opts
    → split_options (join b',' (escaped opts)) ≡ escaped opts
unfolding split_options
split_options-join opts h = split_from opts [] h

-- Any two paths, escaped and given as the options "upperdir" and "workdir" in one option string, are
-- the ones that the configuration gets, whatever characters they have; nothing else changes.
pub parse_option_string-escape :
    (upper work : List ℕ) (config : OverlayConfig)
    → parse_option_string
        (join b',' (escaped ((codes "upperdir=" ++ upper) ∷ (codes "workdir=" ++ work) ∷ [])))
        config
      ≡ ok (record config { upperdir = some upper; workdir = some work })
unfolding parse_option_string parse_options parse_single_option split_once key_option bytes_eq
    escape starts_with
parse_option_string-escape upper work config =
    ap (λ opts. parse_options opts config)
      (split_options-join ((codes "upperdir=" ++ upper) ∷ (codes "workdir=" ++ work) ∷ [])
        (refl, (refl, tt)))
    ∙ ap₂ (λ u w. ok (record config { upperdir = some u; workdir = some w }))
        (unescape_path-escape upper) (unescape_path-escape work)
