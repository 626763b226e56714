-- ===== src/Node/Inodes/Forget.antt =====
-- What `forget` of src/node.rs drops from the inode table, and what it leaves.
use fuse_overlayfs.Base.{
  ℕ, ◌+◌, ◌-◌, ◌%◌, ◌^◌, ◌<◌, ◌≡◌, refl, ◌≢◌, Bool, ◌||◌, none, some, arith, ◌==◌, nat_key, if_both,
  option_both,
}
use fuse_overlayfs.Base.Map
use fuse_overlayfs.Base.Map.{Map, get-insert, get-remove}
use fuse_overlayfs.Node.{u64_mod}
use fuse_overlayfs.Node.Inodes.{
  InodeKey, OvlIno, InodeTable, inode_key, same_key_iff, forget, forget_entry, inc_lookup,
  get_by_key,
}
use fuse_overlayfs.Node.Inodes.Invariant.{IsConsistent}

-- Forgetting all look-ups of a number in use frees it: neither the number nor the file's entry is
-- found any more.
pub forget_lem :
    (t : InodeTable) (f nlookup : ℕ) (key : InodeKey) (o : OvlIno)
    → IsConsistent t
    → Map.get key t.table ≡ some o
    → o.fuse_ino ≡ f
    → o.lookups ≡ nlookup
    → nlookup < u64_mod
    → (Map.get f (forget t f nlookup).0.fuse_map ≡ none)
      × (Map.get key (forget t f nlookup).0.table ≡ none)
unfolding forget forget_entry
forget_lem t f nlookup key o c e number all_of_them small =
    let back = c.mapped key o e in
    let used = c.unreserved o.fuse_ino key back in
    (
      ground (arith, get-remove f f t.fuse_map),
      ground (arith, get-remove key key t.table, same_key_iff key key),
    )

-- Forgetting a number, also one that stays behind from an earlier file with the same inode number,
-- leaves every file that has another number alone: its entry with its number and its look-ups.
pub forget_keeps :
    (t : InodeTable) (f nlookup : ℕ) (k : InodeKey) (p : OvlIno)
    → Map.get k t.table ≡ some p
    → p.fuse_ino ≢ f
    → Map.get k (forget t f nlookup).0.table ≡ some p
unfolding forget forget_entry
forget_keeps t f nlookup k p there other =
    if_both Kept (f == 1 || f == 0) (λ _. there)
      (λ _.
        option_both Kept (Map.get f t.fuse_map) (λ _. there)
          (λ key m.
            option_both Kept (Map.get key t.table) (λ _. there)
              (λ o e. ground (
                arith,
                get-remove key k t.table,
                get-insert key k (record o { lookups = (o.lookups + u64_mod - nlookup) % u64_mod })
                    t.table,
                same_key_iff key k,
              ))))
  where
    Kept : InodeTable × Bool → Type 0
    Kept r = Map.get k r.0.table ≡ some p

-- A look-up and the forget of it cancel. Where a file's count is positive and below the largest
-- `i64`, after `inc_lookup` a `forget` of one look-up under the file's number finds every file as it
-- was, with the same count, and every number still leads to its file.
pub forget-inc_lookup :
    (t : InodeTable) (key : InodeKey) (o : OvlIno)
    → IsConsistent t
    → Map.get key t.table ≡ some o
    → 0 < o.lookups
    → o.lookups + 1 < 2 ^ 63
    → ((k : InodeKey) → get_by_key (forget (inc_lookup t key) o.fuse_ino 1).0 k ≡ get_by_key t k)
      × ((forget (inc_lookup t key) o.fuse_ino 1).0.fuse_map ≡ t.fuse_map)
unfolding forget forget_entry inc_lookup get_by_key
forget-inc_lookup t key o c e positive small =
    let back = c.mapped key o e in
    let used = c.unreserved o.fuse_ino key back in
    let up : OvlIno = record o { lookups = (o.lookups + 1) % u64_mod } in
    let there = get-insert key key up t.table in
    let self = (same_key_iff key key).1 refl in
    let count : (up.lookups + u64_mod - 1) % u64_mod ≡ o.lookups = omega arith in
    (
      (λ k. ground (
        arith,
        e,
        back,
        used,
        there,
        self,
        count,
        get-insert key k up t.table,
        get-insert key k o (Map.insert key up t.table),
        same_key_iff key k,
      )),
      ground (arith, e, back, used, there, self, count),
    )
