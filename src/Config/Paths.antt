-- ===== src/Config/Paths.antt =====
-- The list of lower directories in its text form, read back by `parse_lowerdir` of src/config.rs.
use fuse_overlayfs.Base.{
  ℕ, ◌≡◌, refl, sym, ap, ◌∙◌, Bool, true, false, List, [], ◌∷◌, ◌++◌, arith, ◌==◌, if◌then◌else◌,
  is_empty, if_both,
}
use mathlib.Core.List.{append_assoc, append-nil}
use fuse_overlayfs.Base.Text.{join}
use fuse_overlayfs.Config.Split.{
  Splitter, backslash, lower_char, lower_loop, end_lower, parse_lowerdir,
}

-- A backslash in front of each colon.
unfoldable pub escape_colons : List ℕ → List ℕ
escape_colons [] = []
escape_colons (c ∷ s) =
    let rest = escape_colons s in if c == b':' then backslash ∷ c ∷ rest else c ∷ rest

-- The directories, each with its colons escaped, and colons between them.
abbrev pub each_escaped : List (List ℕ) → List (List ℕ)
each_escaped [] = []
each_escaped (p ∷ ps) = escape_colons p ∷ each_escaped ps

unfoldable pub print_lowerdir : List (List ℕ) → List ℕ
print_lowerdir ps = join b':' (each_escaped ps)

abbrev ends_in : Bool → List ℕ → Bool
ends_in before [] = before
ends_in before (c ∷ s) = ends_in (c == backslash) s

-- Each directory has a name, and only the last one may end in a backslash.
abbrev pub AreListable : List (List ℕ) → Type 0
AreListable [] = Unit
AreListable (p ∷ []) = is_empty p ≡ false
AreListable (p ∷ q ∷ ps) = (is_empty p ≡ false) × (ends_in false p ≡ false) × AreListable (q ∷ ps)

-- The state in which `text` has been read of the current directory; a backslash at its end is held
-- back.
abbrev holding : Bool → List ℕ → List (List ℕ) → Splitter
holding escaped current result = record {
  escaped = escaped;
  in_quotes = false;
  current = current;
  result = result;
}

abbrev held : Bool → List ℕ → List ℕ
held true current = current ++ (backslash ∷ [])
held false current = current

abbrev next_current : Bool → List ℕ → ℕ → List ℕ
next_current escaped current c =
    if c == backslash then held escaped current else held escaped current ++ (c ∷ [])

held-next_current :
    (escaped : Bool) (current : List ℕ) (c : ℕ)
    → held (c == backslash) (next_current escaped current c) ≡ held escaped current ++ (c ∷ [])
held-next_current escaped current c = ground arith

-- One character, escaped if it is a colon.
read_plain :
    (escaped : Bool) (current : List ℕ) (result : List (List ℕ)) (c : ℕ)
    → (c == b':') ≡ false
    → lower_char (holding escaped current result) c
      ≡ holding (c == backslash) (next_current escaped current c) result
unfolding lower_char
read_plain true current result c h = ground arith
read_plain false current result c h = ground arith

read_colon :
    (escaped : Bool) (current : List ℕ) (result : List (List ℕ)) (c : ℕ)
    → (c == b':') ≡ true
    → lower_char (lower_char (holding escaped current result) backslash) c
      ≡ holding (c == backslash) (next_current escaped current c) result
unfolding lower_char
read_colon true current result c h = ground arith
read_colon false current result c h = ground arith

lower_loop-escape_colons :
    (p rest : List ℕ) (result : List (List ℕ)) (escaped : Bool) (current : List ℕ)
    → (current' : List ℕ) × (lower_loop (holding escaped current result) (escape_colons p ++ rest)
        ≡ lower_loop (holding (ends_in escaped p) current' result) rest)
      × (held (ends_in escaped p) current' ≡ held escaped current ++ p)
unfolding lower_loop escape_colons
lower_loop-escape_colons [] rest result escaped current =
    (current, refl, sym (append-nil (held escaped current)))
lower_loop-escape_colons (c ∷ p) rest result escaped current =
    let next = next_current escaped current c in
    let more = lower_loop-escape_colons p rest result (c == backslash) next in
    (
      more.0,
      if_both
            (λ e.
              lower_loop (holding escaped current result) (e ++ rest)
              ≡ lower_loop (holding (c == backslash) next result) (escape_colons p ++ rest))
            (c == b':')
            (λ colon.
              ap (λ t. lower_loop t (escape_colons p ++ rest))
                (read_colon escaped current result c colon))
            (λ plain.
              ap (λ t. lower_loop t (escape_colons p ++ rest))
                (read_plain escaped current result c plain))
          ∙ more.1,
      more.2
          ∙ ap (λ x. x ++ p) (held-next_current escaped current c)
          ∙ append_assoc (held escaped current) (c ∷ []) p,
    )

end_held :
    (escaped : Bool) (current p : List ℕ) (result : List (List ℕ))
    → held escaped current ≡ p
    → is_empty p ≡ false
    → (end_lower (holding escaped current result)).result ≡ result ++ (p ∷ [])
end_held true current p result h f = ground arith
end_held false current p result h f = ground arith

-- A colon behind a text that no backslash ends.
end_at_colon :
    (current p : List ℕ) (result : List (List ℕ))
    → current ≡ p
    → is_empty p ≡ false
    → lower_char (holding false current result) b':' ≡ holding false [] (result ++ (p ∷ []))
unfolding lower_char
end_at_colon current p result h f = ground arith

lower_from :
    (ps : List (List ℕ)) (result : List (List ℕ))
    → AreListable ps
    → (end_lower (lower_loop (holding false [] result) (join b':' (each_escaped ps)))).result
      ≡ result ++ ps
unfolding join lower_loop
lower_from [] result h = sym (append-nil result)
lower_from (p ∷ []) result h =
    let read = lower_loop-escape_colons p [] result false [] in
    ap (λ s. (end_lower (lower_loop (holding false [] result) s)).result)
      (sym (append-nil (escape_colons p)))
    ∙ ap (λ t. (end_lower t).result) read.1
    ∙ end_held (ends_in false p) read.0 p result read.2 h
lower_from (p ∷ q ∷ ps) result h =
    let rest = join b':' (each_escaped (q ∷ ps)) in
    let read = lower_loop-escape_colons p (b':' ∷ rest) result false [] in
    let kept : read.0 ≡ p = rw h.1 at read.2 in
    ap (λ t. (end_lower t).result) read.1
    ∙ ap (λ e. (end_lower (lower_loop (holding e read.0 result) (b':' ∷ rest))).result) h.1
    ∙ ap (λ t. (end_lower (lower_loop t rest)).result) (end_at_colon read.0 p result kept h.0)
    ∙ lower_from (q ∷ ps) (result ++ (p ∷ [])) h.2
    ∙ append_assoc result (p ∷ []) (q ∷ ps)

-- A list of lower directories is read back from its text form, in which each colon of a name has a
-- backslash in front. No name may be empty, and none but the last may end in a backslash; other
-- backslashes are kept.
pub parse_lowerdir-print_lowerdir :
    (ps : List (List ℕ)) → AreListable ps → parse_lowerdir (print_lowerdir ps) ≡ ps
unfolding parse_lowerdir print_lowerdir
parse_lowerdir-print_lowerdir ps h = lower_from ps [] h
