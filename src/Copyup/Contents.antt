-- ===== src/Copyup/Contents.antt =====
-- `copy_data` and `copy_xattr` of src/copyup.rs: the content and the attributes of a file.
-- The loops take fuel, one unit for each round, since how often the kernel interrupts a call or
-- writes less than it was given is not bounded by the program.
pub mod Ends
use fuse_overlayfs.Base.{
  ℕ, zero, suc, ◌+◌, ◌-◌, ◌^◌, Bool, true, false, not, ◌&&◌, ◌||◌, Option, none, some, List, [],
  ◌∷◌, ok, err, FsResult, ◌==◌, ltb, leb, if◌then◌else◌, is_ok, is_empty, drop, retain, starts_with,
  eperm, enodata, enotsup,
}
use fuse_overlayfs.Base.Text.{split_on}
use fuse_overlayfs.Datasource.{Bytes}
use fuse_overlayfs.Sys.{Sys, eintr}
use fuse_overlayfs.Sys.Actions.{Action, pure, raise, attempt, ◌>>=◌, ◌>>◌}
use fuse_overlayfs.Xattr.{xattr_prefix, unprivileged_xattr_prefix, privileged_xattr_prefix}

-- What a loop gives where its fuel is used up: no errno, since an `i32` cannot hold it.
abbrev pub out_of_fuel : ℕ
out_of_fuel = 2 ^ 32

-- `std::str::from_utf8`. A lead byte tells how many bytes follow, and the range of the next one.
abbrev lead_byte : ℕ → Option (ℕ × ℕ × ℕ)
lead_byte b =
    if ltb b 0x80
    then some (0, 0x80, 0xbf)
    else if leb 0xc2 b && leb b 0xdf
    then some (1, 0x80, 0xbf)
    else if leb 0xe0 b && leb b 0xef
    then some (2, if b == 0xe0 then 0xa0 else 0x80, if b == 0xed then 0x9f else 0xbf)
    else if leb 0xf0 b && leb b 0xf4
    then some (3, if b == 0xf0 then 0x90 else 0x80, if b == 0xf4 then 0x8f else 0xbf)
    else none

unfoldable pub utf8_from : ℕ → ℕ → ℕ → Bytes → Bool
utf8_from left lo hi [] = left == 0
utf8_from zero lo hi (b ∷ bytes) = elim (lead_byte b) [
  | none ↦ false
  | some (left, lo', hi') ↦ utf8_from left lo' hi' bytes
]
utf8_from (suc left) lo hi (b ∷ bytes) = elim (leb lo b && leb b hi) [
  | true ↦ utf8_from left 0x80 0xbf bytes
  | false ↦ false
]

unfoldable pub is_utf8 : Bytes → Bool
is_utf8 bytes = utf8_from 0 0x80 0xbf bytes

-- The names of a list that `flistxattr` gives.
unfoldable pub xattr_names : Bytes → List Bytes
xattr_names list = retain is_utf8 (retain (λ name. not (is_empty name)) (split_on 0 list))

-- The overlay's own attributes stay behind.
unfoldable pub is_internal : Bytes → Bool
is_internal name =
    starts_with name privileged_xattr_prefix
    || starts_with name unprivileged_xattr_prefix
    || starts_with name xattr_prefix

module _ {W : Type 0} (sys : Sys W) where
  -- What a failed `fsetxattr` does to the copy: an attribute that may not be set is left out.
  abbrev after_set : FsResult (Unit {0}) → Action W (Unit {0}) → Action W (Unit {0})
  after_set (ok u) next = next
  after_set (err e) next = if (e == eperm) || (e == enotsup) then next else raise e

  abbrev after_get : ℕ → Bytes → FsResult Bytes → Action W (Unit {0}) → Action W (Unit {0})
  after_get dfd name (ok value) next =
      attempt (sys.fsetxattr dfd name value 0) >>= λ done. after_set done next
  after_get dfd name (err e) next = if e == enodata then next else raise e

  unfoldable pub copy_names : ℕ → ℕ → List Bytes → Action W (Unit {0})
  copy_names sfd dfd [] = pure tt
  copy_names sfd dfd (name ∷ names) = elim (is_internal name) [
    | true ↦ copy_names sfd dfd names
    | false ↦ attempt (sys.fgetxattr sfd name 0x10000) >>= λ value.
        after_get dfd name value (copy_names sfd dfd names)
  ]

  abbrev after_list : ℕ → ℕ → FsResult Bytes → Action W (Unit {0})
  after_list sfd dfd (ok list) = copy_names sfd dfd (xattr_names list)
  after_list sfd dfd (err e) = if (e == enotsup) || (e == enodata) then pure tt else raise e

  unfoldable pub copy_xattr : ℕ → ℕ → Action W (Unit {0})
  copy_xattr sfd dfd = do list ← attempt (sys.flistxattr sfd 0x10000); after_list sfd dfd list

  -- The loop of `sendfile`: true where the copy is complete, false where the other way is tried.
  unfoldable pub send_loop : ℕ → ℕ → ℕ → ℕ → ℕ → Action W Bool
  send_loop zero sfd dfd size copied = raise out_of_fuel
  send_loop (suc fuel) sfd dfd size copied = elim (ltb copied size) [
    | false ↦ pure true
    | true ↦ attempt (sys.sendfile dfd sfd (size - copied)) >>= λ sent. elim sent [
      | err e ↦ elim (e == eintr) [ true ↦ send_loop fuel sfd dfd size copied | false ↦ pure false ]
      | ok n ↦ elim (n == 0) [ true ↦ pure true | false ↦ send_loop fuel sfd dfd size (copied + n) ]
    ]
  ]

  -- `while written < nread`
  unfoldable pub write_all : ℕ → ℕ → Bytes → Action W (Unit {0})
  write_all fuel dfd [] = pure tt
  write_all zero dfd (c ∷ buf) = raise out_of_fuel
  write_all (suc fuel) dfd (c ∷ buf) =
      sys.write dfd (c ∷ buf) >>= λ n. write_all fuel dfd (drop n (c ∷ buf))

  -- `rounds` bounds each of the two loops.
  unfoldable pub read_loop : ℕ → ℕ → ℕ → ℕ → Action W (Unit {0})
  read_loop rounds zero sfd dfd = raise out_of_fuel
  read_loop rounds (suc fuel) sfd dfd = sys.read sfd (2 ^ 20) >>= λ bytes. elim bytes [
    | [] ↦ pure tt
    | c ∷ buf ↦ write_all rounds dfd (c ∷ buf) >> read_loop rounds fuel sfd dfd
  ]

  abbrev after_send : ℕ → ℕ → ℕ → Bool → Action W (Unit {0})
  after_send rounds sfd dfd true = pure tt
  after_send rounds sfd dfd false = read_loop rounds rounds sfd dfd

  unfoldable pub copy_data : ℕ → ℕ → ℕ → ℕ → Action W (Unit {0})
  copy_data rounds sfd dfd size = do
    cloned ← attempt (sys.ficlone dfd sfd)
    (if is_ok cloned
        then pure tt
        else do complete ← send_loop rounds sfd dfd size 0; after_send rounds sfd dfd complete)
