-- ===== src/Node/Inodes/Register.antt =====
-- Which number `register` gives.
use fuse_overlayfs.Base.{
  ℕ, suc, ◌+◌, ◌-◌, ◌%◌, ◌≤◌, ◌<◌, ◌≡◌, ◌≢◌, refl, ◌∙◌, true, false, Option, none, some, [], ◌∷◌,
  arith, nat_key, is_some, is_empty, retain, length, Option-cases, inl, inr, if_both, option_both,
  any,
}
use fuse_overlayfs.Base.Map
use fuse_overlayfs.Base.Map.{Map, get-insert, get-remove}
use fuse_overlayfs.Node.{NodeId, NodeArena, contains_node, u64_mod}
use fuse_overlayfs.Node.Inodes.{
  InodeKey, OvlIno, InodeTable, inode_key, same_key_iff, register_new, register_existing, register,
  key_to_fuse_ino, get_by_key, find_free, is_duplicate,
}
use fuse_overlayfs.Node.Hash.{compute_fuse_ino}
use fuse_overlayfs.Node.Path.{compute_path}
use fuse_overlayfs.Node.Inodes.Fresh.{find_free_sound, find_free_enough}
use fuse_overlayfs.Node.Inodes.Invariant.{IsConsistent}

-- What a registration promises for its key: the number is the one found under the key, it leads
-- back to the key, and every other key keeps its entry.
pub record Registers (t t' : InodeTable) (key : InodeKey) (f : ℕ) : Type 0 where
  pub found : key_to_fuse_ino t' key ≡ some f
  pub back : Map.get f t'.fuse_map ≡ some key
  pub others : (k : InodeKey) → k ≢ key → get_by_key t' k ≡ get_by_key t k

abbrev new_entry : NodeId → ℕ → ℕ → OvlIno
new_entry node_id mode f = record { nodes = node_id ∷ []; lookups = 0; mode = mode; fuse_ino = f }

register_new-parts :
    (t : InodeTable) (node_id : NodeId) (key : InodeKey) (mode : ℕ) (t' : InodeTable) (f : ℕ)
    → register_new t node_id key mode ≡ some (t', f)
    → (Map.get f t.fuse_map ≡ none)
      × (t'.table ≡ Map.insert key (new_entry node_id mode f) t.table)
      × (t'.fuse_map ≡ Map.insert f key t.fuse_map)
unfolding register_new
register_new-parts t node_id key mode t' f h =
    let first = compute_fuse_ino key.ino key.dev t.same_device in
    let fuel = suc (suc (length t.fuse_map)) in
    elim (Option-cases (find_free fuel t.fuse_map first t.next_fallback)) [
      | inl e ↦ absurd (ground arith)
      | inr r ↦
          let free = find_free_sound fuel t.fuse_map first t.next_fallback r.0 r.1 in
          (ground arith, ground arith, ground arith)
    ]

register_new-Registers :
    (t : InodeTable) (node_id : NodeId) (key : InodeKey) (mode : ℕ) (t' : InodeTable) (f : ℕ)
    → register_new t node_id key mode ≡ some (t', f)
    → Registers t t' key f
unfolding key_to_fuse_ino get_by_key
register_new-Registers t node_id key mode t' f h =
    let parts = register_new-parts t node_id key mode t' f h in
    record {
      found = rw (parts.1, get-insert key key) (ground (arith, same_key_iff key key));
      back = rw (parts.2, get-insert f f) (ground arith);
      others = λ k apart. rw (parts.1, get-insert key k) (ground (arith, same_key_iff key k));
    }

-- An entry that is used again keeps its number.
reuse-Registers :
    (t : InodeTable) (key : InodeKey) (o o' : OvlIno) (t' : InodeTable) (f : ℕ)
    → IsConsistent t
    → Map.get key t.table ≡ some o
    → o'.fuse_ino ≡ o.fuse_ino
    → ◌≡◌ {A = Option (InodeTable × ℕ)}
        (some (record t { table = Map.insert key o' t.table }, o.fuse_ino))
        (some (t', f))
    → Registers t t' key f
unfolding key_to_fuse_ino get_by_key
reuse-Registers t key o o' t' f c e keeps h =
    let same_table : Map.insert key o' t.table ≡ t'.table = ground arith in
    let same_map : t.fuse_map ≡ t'.fuse_map = ground arith in
    let same_ino : o.fuse_ino ≡ f = ground arith in
    record {
      found = rw (← same_table, get-insert key key) (ground (arith, same_key_iff key key));
      back = rw (← same_map, ← same_ino) (c.mapped key o e);
      others = λ k apart. rw (← same_table, get-insert key k) (ground (arith, same_key_iff key k));
    }

forgotten-Registers :
    (t : InodeTable) (key : InodeKey) (stat : ℕ) (t' : InodeTable) (f : ℕ)
    → Registers (record t { table = Map.remove key t.table; stat_inodes = stat }) t' key f
    → Registers t t' key f
unfolding get_by_key
forgotten-Registers t key stat t' f r = record {
  found = r.found;
  back = r.back;
  others =
      λ k apart. r.others k apart ∙ ground (arith, get-remove key k t.table, same_key_iff key k);
}

-- The result of a registration, for any way in which it came about.
abbrev Registered : InodeTable → InodeKey → Option (InodeTable × ℕ) → Type 0
Registered t key r = (t' : InodeTable) (f : ℕ) → r ≡ some (t', f) → Registers t t' key f

register_existing-Registered :
    (t : InodeTable) (arena : NodeArena) (node_id : NodeId) (key : InodeKey) (mode : ℕ) (o : OvlIno)
    → IsConsistent t
    → Map.get key t.table ≡ some o
    → Registered t key (register_existing t arena node_id key mode o)
unfolding register_existing
register_existing-Registered t arena node_id key mode o c e =
    if_both (Registered t key) (is_empty (retain (contains_node arena) o.nodes))
      (λ _ t' f h.
        forgotten-Registers t key _ t' f (register_new-Registers _ node_id key mode t' f h))
      (λ _.
        if_both (Registered t key)
          (any (is_duplicate arena (compute_path arena node_id))
            (retain (contains_node arena) o.nodes))
          (λ _ t' f h. reuse-Registers t key o _ t' f c e refl h)
          (λ _ t' f h. reuse-Registers t key o _ t' f c e refl h))

-- In a consistent table, whatever the branch, the number that `register` returns is from then on
-- the one found under the key and leads back to the key, and all other keys keep their entries.
pub register-Registers :
    (t : InodeTable) (arena : NodeArena) (node_id : NodeId) (ino dev mode : ℕ) (t' : InodeTable)
    (f : ℕ)
    → IsConsistent t
    → register t arena node_id ino dev mode ≡ some (t', f)
    → Registers t t' (record { ino = ino; dev = dev }) f
unfolding register
register-Registers t arena node_id ino dev mode t' f c h =
    let key : InodeKey = record { ino = ino; dev = dev } in
    option_both (Registered t key) (Map.get key t.table)
      (λ _ t' f h. register_new-Registers t node_id key mode t' f h)
      (λ o e. register_existing-Registered t arena node_id key mode o c e) t' f h

-- A file with a live node keeps its number: a further name of it is a hardlink. If the inode number
-- was recycled (an entry exists, and all its nodes are gone), the file gets another number than
-- the one that the kernel may still hold.
pub register_number :
    (t : InodeTable) (arena : NodeArena) (node_id : NodeId) (ino dev mode : ℕ) (t' : InodeTable)
    (f : ℕ) (o : OvlIno)
    → IsConsistent t
    → Map.get (record { ino = ino; dev = dev }) t.table ≡ some o
    → register t arena node_id ino dev mode ≡ some (t', f)
    → (is_empty (retain (contains_node arena) o.nodes) ≡ false → f ≡ o.fuse_ino)
      × (is_empty (retain (contains_node arena) o.nodes) ≡ true → f ≢ o.fuse_ino)
unfolding register register_existing
register_number t arena node_id ino dev mode t' f o c e h = (
  λ live. ground arith,
  λ dead same.
      let key : InodeKey = record { ino = ino; dev = dev } in
      let made : register_new
            (record t {
              table = Map.remove key t.table;
              stat_inodes = (t.stat_inodes + u64_mod - 1) % u64_mod;
            })
            node_id key mode
          ≡ some (t', f) =
        ground arith in
      absurd
        (ground (arith, (register_new-parts _ node_id key mode t' f made).0, c.mapped key o e)),
)

register_new-some :
    (t : InodeTable) (node_id : NodeId) (key : InodeKey) (mode : ℕ)
    → 2 ≤ t.next_fallback
    → t.next_fallback + length t.fuse_map + 2 < u64_mod
    → is_some (register_new t node_id key mode) ≡ true
unfolding register_new
register_new-some t node_id key mode a b = ground (
  arith,
  find_free_enough t.fuse_map (compute_fuse_ino key.ino key.dev t.same_device) t.next_fallback,
)

-- The search for a free number ends, and `register` returns: as long as the fallback counter is
-- not reserved and has room above it for every number in use.
pub register-some :
    (t : InodeTable) (arena : NodeArena) (node_id : NodeId) (ino dev mode : ℕ)
    → 2 ≤ t.next_fallback
    → t.next_fallback + length t.fuse_map + 2 < u64_mod
    → is_some (register t arena node_id ino dev mode) ≡ true
unfolding register register_existing
register-some t arena node_id ino dev mode a b =
    let key : InodeKey = record { ino = ino; dev = dev } in
    ground (
      arith,
      register_new-some t node_id key mode,
      register_new-some
          (record t {
            table = Map.remove key t.table;
            stat_inodes = (t.stat_inodes + u64_mod - 1) % u64_mod;
          })
          node_id key mode,
    )
