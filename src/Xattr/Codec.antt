-- ===== src/Xattr/Codec.antt =====
-- How the encoding of extended attribute names and its inverse fit together.
use fuse_overlayfs.Base.{
  ℕ, ◌+◌, ◌≤◌, ◌≡◌, refl, sym, ap, ◌∙◌, starts_with-drop, ◌⊎◌, inl, inr, Bool-cases, true, false,
  not, some, ◌++◌, arith, length, starts_with, starts_with-append, drop-length-append,
}
use fuse_overlayfs.Datasource.{Bytes, StatOverrideMode, no_override, user, privileged, containers}
use fuse_overlayfs.Xattr.{
  xattr_containers_override_prefix, can_access_xattr, strip_override, is_encoded_xattr_name,
  decode_xattr_name, encode_xattr_name,
}

-- The text after the prefix is found again behind it.
strip_override-append :
    (name : Bytes) → strip_override (xattr_containers_override_prefix ++ name) ≡ name
strip_override-append name = drop-length-append xattr_containers_override_prefix name

override-starts_with :
    (name : Bytes)
    → starts_with (xattr_containers_override_prefix ++ name) xattr_containers_override_prefix ≡ true
override-starts_with name = starts_with-append xattr_containers_override_prefix name

-- A prefixed name is encoded exactly if what follows the prefix is hidden.
is_encoded-append :
    (name : Bytes) (mode : StatOverrideMode)
    → is_encoded_xattr_name (xattr_containers_override_prefix ++ name) mode
      ≡ not (can_access_xattr name mode)
unfolding is_encoded_xattr_name
is_encoded-append name mode = rw (override-starts_with name) (rw (strip_override-append name) refl)

-- The prefix itself is visible in every mode.
can_access-append :
    (name : Bytes) (mode : StatOverrideMode)
    → can_access_xattr (xattr_containers_override_prefix ++ name) mode ≡ true
unfolding can_access_xattr starts_with
can_access-append name no_override = refl
can_access-append name user = refl
can_access-append name privileged = refl
can_access-append name containers = refl

decode-append :
    (name : Bytes) (mode : StatOverrideMode)
    → can_access_xattr name mode ≡ false
    → decode_xattr_name (xattr_containers_override_prefix ++ name) mode ≡ some name
unfolding decode_xattr_name
decode-append name mode hidden =
    rw (is_encoded-append name mode, hidden) (rw (strip_override-append name) refl)

-- A name that can be stored is read back as itself, in every mode, unless it has itself the form
-- of an encoded name.
pub decode_xattr_name-encode_xattr_name :
    (name stored : Bytes) (mode : StatOverrideMode)
    → encode_xattr_name name mode ≡ some stored
    → is_encoded_xattr_name name mode ≡ false
    → decode_xattr_name stored mode ≡ some name
decode_xattr_name-encode_xattr_name name stored mode e plain =
    elim (Bool-cases (can_access_xattr name mode)) [
      | inl visible ↦ unfold encode_xattr_name decode_xattr_name in ground arith
      | inr hidden ↦
          unfold encode_xattr_name in
          let same : xattr_containers_override_prefix ++ name ≡ stored = ground arith in
          rw (← same) (decode-append name mode hidden)
    ]

-- An encoded name is the prefix in front of a hidden name.
encoded_parts :
    (stored : Bytes) (mode : StatOverrideMode)
    → is_encoded_xattr_name stored mode ≡ true
    → (xattr_containers_override_prefix ++ strip_override stored ≡ stored)
      × (can_access_xattr (strip_override stored) mode ≡ false)
unfolding is_encoded_xattr_name
encoded_parts stored mode h =
    elim (Bool-cases (starts_with stored xattr_containers_override_prefix)) [
      | inl starts ↦ (starts_with-drop stored xattr_containers_override_prefix starts, ground arith)
      | inr other ↦ absurd (ground arith)
    ]

-- A name shown to the user is visible, or it is hidden and was stored behind the prefix: the
-- overlay's own attributes are shown in no other way.
pub decode_xattr_name-visible :
    (stored name : Bytes) (mode : StatOverrideMode)
    → decode_xattr_name stored mode ≡ some name
    → ((stored ≡ name)
        × (can_access_xattr name mode ≡ true)
        × (is_encoded_xattr_name name mode ≡ false))
      ⊎ ((stored ≡ xattr_containers_override_prefix ++ name) × (can_access_xattr name mode ≡ false))
decode_xattr_name-visible stored name mode d =
    elim (Bool-cases (is_encoded_xattr_name stored mode)) [
      | inl coded ↦
          let parts = encoded_parts stored mode coded in
          let same : strip_override stored ≡ name = unfold decode_xattr_name in ground arith in
          inr
            (sym parts.0 ∙ ap (λ n. xattr_containers_override_prefix ++ n) same, rw same at parts.1)
      | inr plain ↦ inl (unfold decode_xattr_name in ground arith)
    ]

-- In containers mode every stored name of at most 255 bytes that is shown to the user is, encoded
-- again, the stored name; so two such stored names are never shown as one.
pub encode_xattr_name-decode_xattr_name :
    (stored name : Bytes)
    → length stored ≤ 255
    → decode_xattr_name stored containers ≡ some name
    → encode_xattr_name name containers ≡ some stored
encode_xattr_name-decode_xattr_name stored name short d =
    elim (decode_xattr_name-visible stored name containers d) [
      | inl plain ↦ unfold encode_xattr_name in ground arith
      | inr coded ↦
          let fits : length name + length xattr_containers_override_prefix ≤ 255 =
            omega (arith, ap (length {A = ℕ}) coded.0) in
          unfold encode_xattr_name in ground arith
    ]

-- The encoding is not injective in containers mode: a hidden name, and the same name with the
-- prefix already in front, are stored under one name.
pub encode_xattr_name-alias :
    (name : Bytes)
    → can_access_xattr name containers ≡ false
    → length name + length xattr_containers_override_prefix ≤ 255
    → encode_xattr_name name containers
      ≡ encode_xattr_name (xattr_containers_override_prefix ++ name) containers
unfolding encode_xattr_name
encode_xattr_name-alias name hidden short =
    rw (hidden, can_access-append name containers) (ground arith)
