-- ===== src/Tests/Attributes.antt =====
-- Extended attribute names in containers mode: an attribute of the overlay itself is stored behind
-- a prefix, and shown without it.
use fuse_overlayfs.Base.{
  ◌≤◌, ◌≡◌, ◌⊎◌, refl, some, [], ◌∷◌, ◌++◌, arith, codes, false, true, starts_with, bytes_eq,
}
use fuse_overlayfs.Datasource.{Bytes, containers}
use fuse_overlayfs.Node.Hash.{compute_fuse_ino, compute_fuse_ino-ge}
use fuse_overlayfs.Xattr.{
  xattr_containers_override_prefix, can_access_xattr, is_encoded_xattr_name, decode_xattr_name,
  encode_xattr_name, filter_xattr_list,
}
use fuse_overlayfs.Xattr.Codec.{
  decode_xattr_name-encode_xattr_name, decode_xattr_name-visible,
  encode_xattr_name-decode_xattr_name, encode_xattr_name-alias,
}
use fuse_overlayfs.Xattr.Listing.{names_of, shown_names, names_of-filter_xattr_list}

abbrev own : Bytes
own = codes "user.fuseoverlayfs.opaque"

abbrev stored_own : Bytes
stored_own = xattr_containers_override_prefix ++ own

own_stored : encode_xattr_name own containers ≡ some stored_own
unfolding encode_xattr_name can_access_xattr starts_with bytes_eq
own_stored = refl

own_shown : decode_xattr_name stored_own containers ≡ some own
unfolding decode_xattr_name is_encoded_xattr_name can_access_xattr starts_with bytes_eq
own_shown = refl

decode_xattr_name-encode_xattr_name_example : decode_xattr_name stored_own containers ≡ some own
unfolding is_encoded_xattr_name starts_with
decode_xattr_name-encode_xattr_name_example =
    decode_xattr_name-encode_xattr_name own stored_own containers own_stored refl

decode_xattr_name-visible_example :
    ((stored_own ≡ own)
      × (can_access_xattr own containers ≡ true)
      × (is_encoded_xattr_name own containers ≡ false))
    ⊎ ((stored_own ≡ xattr_containers_override_prefix ++ own)
        × (can_access_xattr own containers ≡ false))
decode_xattr_name-visible_example = decode_xattr_name-visible stored_own own containers own_shown

encode_xattr_name-decode_xattr_name_example : encode_xattr_name own containers ≡ some stored_own
encode_xattr_name-decode_xattr_name_example =
    encode_xattr_name-decode_xattr_name stored_own own (ground arith) own_shown

encode_xattr_name-alias_example :
    encode_xattr_name own containers
    ≡ encode_xattr_name (xattr_containers_override_prefix ++ own) containers
unfolding can_access_xattr starts_with
encode_xattr_name-alias_example = encode_xattr_name-alias own refl (ground arith)

names_of-filter_xattr_list_example :
    names_of (filter_xattr_list (stored_own ++ (0 ∷ own) ++ (0 ∷ [])) containers)
    ≡ shown_names containers (names_of (stored_own ++ (0 ∷ own) ++ (0 ∷ [])))
names_of-filter_xattr_list_example =
    names_of-filter_xattr_list (stored_own ++ (0 ∷ own) ++ (0 ∷ [])) containers

compute_fuse_ino-ge_example : 2 ≤ compute_fuse_ino 1 7 true
compute_fuse_ino-ge_example = compute_fuse_ino-ge 1 7 true
