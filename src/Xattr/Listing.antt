-- ===== src/Xattr/Listing.antt =====
-- What a user sees in the filtered list of extended attribute names.
use fuse_overlayfs.Base.{
  ℕ, ◌≡◌, refl, ◌∙◌, true, false, not, none, some, List, [], ◌∷◌, ◌++◌, arith, ◌==◌, if◌then◌else◌,
  is_empty, retain, all, Option-cases, Bool-cases, inl, inr, starts_with,
}
use fuse_overlayfs.Base.Text.{cons_head, split_on, split_on_field, split_on-append, free_of}
use fuse_overlayfs.Datasource.{Bytes, StatOverrideMode, no_override, user, privileged, containers}
use mathlib.Core.List.{append_assoc}
use fuse_overlayfs.Xattr.Codec.{decode_xattr_name-visible}
use fuse_overlayfs.Xattr.{
  xattr_containers_override_prefix, can_access_xattr, decode_xattr_name, is_utf8, filtered_name,
  filter_names, filter_xattr_list,
}

-- The names in a buffer of names that are each ended by a zero byte.
abbrev pub names_of : Bytes → List Bytes
names_of buf = retain (λ n. not (is_empty n)) (split_on 0 buf)

-- The names that are shown: those that decode, in their decoded form, in the order of the list.
unfoldable pub shown_names : StatOverrideMode → List Bytes → List Bytes
shown_names mode [] = []
shown_names mode (name ∷ names) =
    let rest = shown_names mode names in
    if is_utf8 name
    then elim (decode_xattr_name name mode) [ some decoded ↦ decoded ∷ rest | none ↦ rest ]
    else rest

abbrev AllFree : ℕ → List Bytes → Type 0
AllFree sep [] = Unit {0}
AllFree sep (f ∷ fs) = (free_of sep f ≡ true) × AllFree sep fs

AllFree-add :
    (sep c : ℕ) (fs : List Bytes)
    → AllFree sep fs
    → AllFree sep (if c == sep then [] ∷ fs else cons_head c fs)
unfolding all
AllFree-add sep c [] h = ground arith
AllFree-add sep c (f ∷ fs) h = elim (Bool-cases (c == sep)) [
  | inl e ↦ rw e (refl, h)
  | inr e ↦ rw e (ground arith, h.1)
]

split_on-AllFree : (sep : ℕ) (s : Bytes) → AllFree sep (split_on sep s)
unfolding split_on all
split_on-AllFree sep [] = (refl, tt)
split_on-AllFree sep (c ∷ s) = AllFree-add sep c (split_on sep s) (split_on-AllFree sep s)

-- A hidden name is not empty.
hidden_filled :
    (name : Bytes) (mode : StatOverrideMode)
    → can_access_xattr name mode ≡ false
    → is_empty name ≡ false
unfolding can_access_xattr starts_with
hidden_filled [] no_override h = cc
hidden_filled [] user h = cc
hidden_filled [] privileged h = cc
hidden_filled [] containers h = cc
hidden_filled (c ∷ name) mode h = refl

free_of-append : (sep : ℕ) (f g : Bytes) → free_of sep (f ++ g) ≡ true → free_of sep g ≡ true
unfolding all
free_of-append sep [] g h = h
free_of-append sep (c ∷ f) g h = free_of-append sep f g (ground arith)

-- A decoded name holds no separator, and is not empty.
decoded_field :
    (name decoded : Bytes) (mode : StatOverrideMode)
    → free_of 0 name ≡ true
    → is_empty name ≡ false
    → decode_xattr_name name mode ≡ some decoded
    → (free_of 0 decoded ≡ true) × (is_empty decoded ≡ false)
decoded_field name decoded mode free filled d =
    elim (decode_xattr_name-visible name decoded mode d) [
      | inl plain ↦ (rw plain.0 at free, rw plain.0 at filled)
      | inr coded ↦ (
        free_of-append 0 xattr_containers_override_prefix decoded (rw coded.0 at free),
        hidden_filled decoded mode coded.1,
      )
    ]

names_of-append :
    (f rest : Bytes)
    → free_of 0 f ≡ true
    → is_empty f ≡ false
    → names_of (f ++ (0 ∷ rest)) ≡ f ∷ names_of rest
unfolding retain
names_of-append f rest free filled = rw (split_on-append 0 f rest free) (ground arith)

names_of-filtered_name :
    (mode : StatOverrideMode) (name rest : Bytes)
    → free_of 0 name ≡ true
    → is_empty name ≡ false
    → names_of (filtered_name mode name ++ rest) ≡ (
        if is_utf8 name
        then elim (decode_xattr_name name mode) [
          | some decoded ↦ decoded ∷ names_of rest
          | none ↦ names_of rest
        ]
        else names_of rest)
unfolding filtered_name
names_of-filtered_name mode name rest free filled = elim (Bool-cases (is_utf8 name)) [
  | inr other ↦ rw (filled, other)
  | inl text ↦ elim (Option-cases (decode_xattr_name name mode)) [
    | inl gone ↦ rw (filled, text) (rw gone)
    | inr shown ↦
        let parts = decoded_field name shown.0 mode free filled shown.1 in
        rw (filled, text)
          (rw (shown.1, append_assoc) (names_of-append shown.0 rest parts.0 parts.1))
  ]
]

names_of-filter_names :
    (mode : StatOverrideMode) (names : List Bytes)
    → AllFree 0 names
    → names_of (filter_names mode names) ≡ shown_names mode (retain (λ n. not (is_empty n)) names)
unfolding filter_names filtered_name shown_names retain all
names_of-filter_names mode [] h = rw (split_on_field 0 [] refl)
names_of-filter_names mode ([] ∷ names) h = names_of-filter_names mode names h.1
names_of-filter_names mode ((c ∷ n) ∷ names) h =
    names_of-filtered_name mode (c ∷ n) (filter_names mode names) h.0 refl
    ∙ ground (arith, names_of-filter_names mode names h.1)

-- The names in the filtered buffer are the decoded forms of the names in the buffer, in order,
-- without those that are not UTF-8 and those that are hidden.
pub names_of-filter_xattr_list :
    (buf : Bytes) (mode : StatOverrideMode)
    → names_of (filter_xattr_list buf mode) ≡ shown_names mode (names_of buf)
unfolding filter_xattr_list
names_of-filter_xattr_list buf mode =
    names_of-filter_names mode (split_on 0 buf) (split_on-AllFree 0 buf)
