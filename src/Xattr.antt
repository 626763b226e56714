-- ===== src/Xattr.antt =====
-- src/xattr.rs: which extended attribute names a user of the mount can see, and how the hidden
-- ones are encoded. Names are the bytes of the source's `&str`.
pub mod Codec
pub mod Listing
use fuse_overlayfs.Base.{
  ℕ, ◌+◌, ◌≤◌, Bool, true, false, not, ◌&&◌, ◌||◌, Option, none, some, List, [], ◌∷◌, ◌++◌, ltb,
  leb, ◌==◌, if◌then◌else◌, length, is_empty, drop, codes, starts_with,
}
use fuse_overlayfs.Base.Text.{split_on}
use fuse_overlayfs.Datasource.{Bytes, StatOverrideMode, is_containers}

abbrev pub xattr_prefix : Bytes
xattr_prefix = codes "user.fuseoverlayfs."

abbrev pub opaque_xattr : Bytes
opaque_xattr = codes "user.fuseoverlayfs.opaque"

abbrev pub xattr_containers_override_prefix : Bytes
xattr_containers_override_prefix = codes "user.containers.override_"

abbrev pub unprivileged_xattr_prefix : Bytes
unprivileged_xattr_prefix = codes "user.overlay."

abbrev pub unprivileged_opaque_xattr : Bytes
unprivileged_opaque_xattr = codes "user.overlay.opaque"

abbrev pub privileged_xattr_prefix : Bytes
privileged_xattr_prefix = codes "trusted.overlay."

abbrev pub privileged_opaque_xattr : Bytes
privileged_opaque_xattr = codes "trusted.overlay.opaque"

abbrev pub xattr_security_prefix : Bytes
xattr_security_prefix = codes "security."

abbrev pub opaque_whiteout : Bytes
opaque_whiteout = codes ".wh..wh..opq"

unfoldable pub can_access_xattr : Bytes → StatOverrideMode → Bool
can_access_xattr name mode =
    if starts_with name xattr_prefix
    then false
    else if starts_with name privileged_xattr_prefix
    then false
    else if starts_with name unprivileged_xattr_prefix
    then false
    else if is_containers mode && starts_with name xattr_security_prefix
    then false
    else true

-- `&name[XATTR_CONTAINERS_OVERRIDE_PREFIX.len()..]`
abbrev pub strip_override : Bytes → Bytes
strip_override name = drop (length xattr_containers_override_prefix) name

unfoldable pub is_encoded_xattr_name : Bytes → StatOverrideMode → Bool
is_encoded_xattr_name name mode =
    if not (starts_with name xattr_containers_override_prefix)
    then false
    else not (can_access_xattr (strip_override name) mode)

unfoldable pub decode_xattr_name : Bytes → StatOverrideMode → Option Bytes
decode_xattr_name name mode =
    if is_encoded_xattr_name name mode
    then some (strip_override name)
    else if can_access_xattr name mode
    then some name
    else none

unfoldable pub encode_xattr_name : Bytes → StatOverrideMode → Option Bytes
encode_xattr_name name mode =
    if can_access_xattr name mode
    then some name
    else if not (is_containers mode)
    then none
    else if ltb 255 (length name + length xattr_containers_override_prefix)
    then none
    else some (xattr_containers_override_prefix ++ name)

-- A continuation byte of UTF-8, within the bounds that the first byte sets for the second.
abbrev is_within : ℕ → ℕ → ℕ → Bool
is_within lo hi b = leb lo b && leb b hi

abbrev is_utf8_three : ℕ → ℕ → ℕ → Bool
is_utf8_three a b c =
    is_within 0x80 0xbf c
    && (if a == 0xe0
        then is_within 0xa0 0xbf b
        else if a == 0xed
        then is_within 0x80 0x9f b
        else is_within 0xe1 0xef a && is_within 0x80 0xbf b)

abbrev is_utf8_four : ℕ → ℕ → ℕ → ℕ → Bool
is_utf8_four a b c d =
    is_within 0x80 0xbf c
    && is_within 0x80 0xbf d
    && (if a == 0xf0
        then is_within 0x90 0xbf b
        else if a == 0xf4
        then is_within 0x80 0x8f b
        else is_within 0xf1 0xf3 a && is_within 0x80 0xbf b)

-- `str::from_utf8(...).is_ok()`: no overlong form, no surrogate, nothing above U+10FFFF.
unfoldable pub is_utf8 : Bytes → Bool
is_utf8 [] = true
is_utf8 (a ∷ []) = ltb a 0x80
is_utf8 (a ∷ b ∷ []) =
    let rest = is_utf8 (b ∷ []) in
    if ltb a 0x80 then rest else is_within 0xc2 0xdf a && is_within 0x80 0xbf b
is_utf8 (a ∷ b ∷ c ∷ []) =
    let rest = is_utf8 (b ∷ c ∷ []) in
    let two_on = is_utf8 (c ∷ []) in
    if ltb a 0x80
    then rest
    else if is_within 0xc2 0xdf a
    then is_within 0x80 0xbf b && two_on
    else is_utf8_three a b c
is_utf8 (a ∷ b ∷ c ∷ d ∷ s) =
    let rest = is_utf8 (b ∷ c ∷ d ∷ s) in
    let two_on = is_utf8 (c ∷ d ∷ s) in
    let three_on = is_utf8 (d ∷ s) in
    let four_on = is_utf8 s in
    if ltb a 0x80
    then rest
    else if is_within 0xc2 0xdf a
    then is_within 0x80 0xbf b && two_on
    else if is_within 0xe0 0xef a
    then is_utf8_three a b c && three_on
    else is_utf8_four a b c d && four_on

-- One round of `filter_xattr_list`: what is appended for one name of the list.
unfoldable pub filtered_name : StatOverrideMode → Bytes → Bytes
filtered_name mode name =
    if is_empty name || not (is_utf8 name)
    then []
    else elim (decode_xattr_name name mode) [ some decoded ↦ decoded ++ (0 ∷ []) | none ↦ [] ]

filter_names : StatOverrideMode → List Bytes → Bytes
filter_names mode [] = []
filter_names mode (name ∷ names) = filtered_name mode name ++ filter_names mode names

-- The list is a buffer of names, each ended by a zero byte.
unfoldable pub filter_xattr_list : Bytes → StatOverrideMode → Bytes
unfolding filter_names
filter_xattr_list buf mode = filter_names mode (split_on 0 buf)
