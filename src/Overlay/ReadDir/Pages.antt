-- ===== src/Overlay/ReadDir/Pages.antt =====
-- A directory that is read by several calls of `readdir` of src/overlay.rs.
use fuse_overlayfs.Base.{
  ℕ, zero, suc, ◌+◌, ◌≡◌, refl, ap, ◌∙◌, sym, Bool, List, [], ◌∷◌, ◌++◌, drop, map, length, arith,
}
use fuse_overlayfs.Overlay.Query.{Entry}
use fuse_overlayfs.Overlay.ReadDir.{Listed, add_entries, readdir}

drop-nil : (n : ℕ) → ◌≡◌ {A = List Entry} (drop n []) []
drop-nil zero = refl
drop-nil (suc n) = refl

drop-drop : (n k : ℕ) (xs : List Entry) → drop n (drop k xs) ≡ drop (k + n) xs
drop-drop n zero xs = ap (λ m. drop m xs) (omega arith)
drop-drop n (suc k) [] = drop-nil n ∙ sym (drop-nil (suc k + n))
drop-drop n (suc k) (x ∷ xs) =
    let next : suc (k + n) ≡ suc k + n = omega arith in
    drop-drop n k xs ∙ ap (λ m. drop m (x ∷ xs)) next

-- The position after the last entry of a reply that starts at `i`.
abbrev pub position_after : ℕ → List Listed → ℕ
position_after i [] = i
position_after i (l ∷ rest) = position_after l.offset rest

abbrev pub entries_in_reply : List Listed → List Entry
entries_in_reply rs = map (λ (l : Listed). l.entry) rs

add_entries-position :
    (is_full : ℕ → Entry → Bool) (i : ℕ) (es : List Entry)
    → position_after i (add_entries is_full i es) ≡ i + length (add_entries is_full i es)
unfolding add_entries
add_entries-position is_full i [] = omega arith
add_entries-position is_full i (e ∷ es) = ground (arith, add_entries-position is_full (i + 1) es)

add_entries-drop :
    (is_full : ℕ → Entry → Bool) (i : ℕ) (es : List Entry)
    → entries_in_reply (add_entries is_full i es) ++ drop (length (add_entries is_full i es)) es
      ≡ es
unfolding add_entries
add_entries-drop is_full i [] = refl
add_entries-drop is_full i (e ∷ es) = ground (arith, add_entries-drop is_full (i + 1) es)

-- Whatever fits in a reply, its entries and those from the position after its last one on are the
-- entries from the position that was asked for on: a reader that goes on at this position gets each
-- entry once and in order.
pub readdir-drop :
    (is_full : ℕ → Entry → Bool) (entries : List Entry) (offset : ℕ)
    → entries_in_reply (readdir is_full entries offset)
        ++ drop (position_after offset (readdir is_full entries offset)) entries
      ≡ drop offset entries
unfolding readdir
readdir-drop is_full entries offset =
    let reply = add_entries is_full offset (drop offset entries) in
    ap (λ m. entries_in_reply reply ++ drop m entries)
      (add_entries-position is_full offset (drop offset entries))
    ∙ ap (λ rest. entries_in_reply reply ++ rest) (sym (drop-drop (length reply) offset entries))
    ∙ add_entries-drop is_full offset (drop offset entries)
