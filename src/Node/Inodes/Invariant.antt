-- ===== src/Node/Inodes/Invariant.antt =====
-- The inode table stays consistent: every entry is found again under its FUSE inode number, and
-- no number in use is reserved. So two files never share a number.
use fuse_overlayfs.Base.{
  ℕ, suc, [], ◌∷◌, ◌-◌, ◌%◌, ◌+◌, any, is_empty, retain, if_both, option_both, not, ◌||◌, ◌≤◌, ◌≡◌,
  ◌≢◌, refl, Bool, Option, none, some, arith, ◌==◌, nat_key, length,
}
use fuse_overlayfs.Base.Map
use mathlib.Core.Path.{subst}
use fuse_overlayfs.Base.Map.{Map, get-insert, get-remove}
use fuse_overlayfs.Node.{u64_mod, contains_node, NodeId, NodeArena}
use fuse_overlayfs.Node.Inodes.{
  InodeKey, OvlIno, InodeTable, inode_key, same_key_iff, empty_table, register_new,
  register_existing, register, remove_node_id, inc_lookup, option_map, finish_register, set_entry,
  is_nonpositive, is_duplicate, forget_entry, forget, find_free,
}
use fuse_overlayfs.Node.Path.{compute_path}
use fuse_overlayfs.Node.Inodes.Fresh.{find_free_sound}

pub record AreConsistent (table : Map InodeKey OvlIno) (fuse_map : Map ℕ InodeKey) : Type 0 where
  pub mapped :
      (k : InodeKey) (o : OvlIno) → Map.get k table ≡ some o → Map.get o.fuse_ino fuse_map ≡ some k
  pub unreserved : (f : ℕ) (k : InodeKey) → Map.get f fuse_map ≡ some k → 2 ≤ f

abbrev pub IsConsistent : InodeTable → Type 0
IsConsistent t = AreConsistent t.table t.fuse_map

pub empty_table-IsConsistent : IsConsistent empty_table
unfolding Map.get
empty_table-IsConsistent = record { mapped = λ k o h. cc; unreserved = λ f k h. cc }

module _ {table : Map InodeKey OvlIno} {fuse_map : Map ℕ InodeKey}
    (c : AreConsistent table fuse_map) where
  -- Changing what an entry holds beside its number.
  insert-AreConsistent :
      (key : InodeKey) (o o' : OvlIno)
      → Map.get key table ≡ some o
      → o'.fuse_ino ≡ o.fuse_ino
      → AreConsistent (Map.insert key o' table) fuse_map
  insert-AreConsistent key o o' e same_ino = record {
    mapped = λ k p h.
        ground
          (arith, get-insert key k o' table, same_key_iff key k, c.mapped key o e, c.mapped k p);
    unreserved = c.unreserved;
  }

  -- Dropping an entry; its number may stay as a tombstone.
  remove-AreConsistent : (key : InodeKey) → AreConsistent (Map.remove key table) fuse_map
  remove-AreConsistent key = record {
    mapped = λ k p h. ground (arith, get-remove key k table, c.mapped k p);
    unreserved = c.unreserved;
  }

  -- A new entry under a number that is not in use.
  insert_new-AreConsistent :
      (key : InodeKey) (o : OvlIno)
      → Map.get o.fuse_ino fuse_map ≡ none
      → 2 ≤ o.fuse_ino
      → AreConsistent (Map.insert key o table) (Map.insert o.fuse_ino key fuse_map)
  insert_new-AreConsistent key o free ge = record {
    mapped = λ k p h. ground (
      arith,
      get-insert key k o table,
      same_key_iff key k,
      get-insert o.fuse_ino p.fuse_ino key fuse_map,
      c.mapped k p,
    );
    unreserved = λ f k h. ground (arith, get-insert o.fuse_ino f key fuse_map, c.unreserved f k);
  }

  -- Dropping the number of a key whose entry is gone, or has another number.
  drop-AreConsistent :
      (fuse_ino : ℕ) (key : InodeKey)
      → Map.get fuse_ino fuse_map ≡ some key
      → ((o : OvlIno) → Map.get key table ≡ some o → o.fuse_ino ≢ fuse_ino)
      → AreConsistent table (Map.remove fuse_ino fuse_map)
  drop-AreConsistent fuse_ino key e stale = record {
    mapped =
        λ k p h. ground (arith, get-remove fuse_ino p.fuse_ino fuse_map, c.mapped k p h, stale p);
    unreserved = λ f k h. ground (arith, get-remove fuse_ino f fuse_map, c.unreserved f k);
  }

abbrev ResultIsConsistent : Option (InodeTable × ℕ) → Type 0
ResultIsConsistent none = Unit {0}
ResultIsConsistent (some (t, f)) = IsConsistent t

register_new-IsConsistent :
    (t : InodeTable) (node_id : NodeId) (key : InodeKey) (mode : ℕ)
    → IsConsistent t
    → ResultIsConsistent (register_new t node_id key mode)
unfolding register_new
register_new-IsConsistent t node_id key mode c =
    finished (find_free (suc (suc (length t.fuse_map))) t.fuse_map _ t.next_fallback)
      (λ r e. find_free_sound (suc (suc (length t.fuse_map))) t.fuse_map _ t.next_fallback r e)
  where
    finished :
        (found : Option (ℕ × ℕ))
        → ((r : ℕ × ℕ) → found ≡ some r → (Map.get r.0 t.fuse_map ≡ none) × (2 ≤ r.0))
        → ResultIsConsistent (option_map (finish_register t node_id key mode) found)
    finished none sound = tt
    finished (some r) sound =
        insert_new-AreConsistent c key
          (record { nodes = node_id ∷ []; lookups = 0; mode = mode; fuse_ino = r.0 })
          (sound r refl).0 (sound r refl).1

register_existing-IsConsistent :
    (t : InodeTable) (arena : NodeArena) (node_id : NodeId) (key : InodeKey) (mode : ℕ) (o : OvlIno)
    → IsConsistent t
    → Map.get key t.table ≡ some o
    → ResultIsConsistent (register_existing t arena node_id key mode o)
unfolding register_existing
register_existing-IsConsistent t arena node_id key mode o c e =
    if_both ResultIsConsistent (is_empty (retain (contains_node arena) o.nodes))
      (λ _. register_new-IsConsistent _ node_id key mode (remove-AreConsistent c key))
      (λ _.
        if_both ResultIsConsistent
          (any (is_duplicate arena (compute_path arena node_id))
            (retain (contains_node arena) o.nodes))
          (λ _. insert-AreConsistent c key o _ e refl) (λ _. insert-AreConsistent c key o _ e refl))

-- `register` keeps the table consistent on every branch: reuse of an entry, a new hardlink, a
-- recycled inode number, and a new entry.
pub register-IsConsistent :
    (t : InodeTable) (arena : NodeArena) (node_id : NodeId) (ino dev mode : ℕ) (t' : InodeTable)
    (f : ℕ)
    → IsConsistent t
    → register t arena node_id ino dev mode ≡ some (t', f)
    → IsConsistent t'
register-IsConsistent t arena node_id ino dev mode t' f c h = subst ResultIsConsistent h (
    unfold register in
    option_both ResultIsConsistent (Map.get (record { ino = ino; dev = dev }) t.table)
      (λ _. register_new-IsConsistent t node_id _ mode c)
      (λ o e. register_existing-IsConsistent t arena node_id _ mode o c e))

forget_entry-IsConsistent :
    (t : InodeTable) (fuse_ino nlookup : ℕ) (key : InodeKey) (o : OvlIno)
    → IsConsistent t
    → Map.get fuse_ino t.fuse_map ≡ some key
    → Map.get key t.table ≡ some o
    → IsConsistent (forget_entry t fuse_ino nlookup key o)
unfolding forget_entry
forget_entry-IsConsistent t fuse_ino nlookup key o c m e =
    if_both IsConsistent (not (o.fuse_ino == fuse_ino))
      (λ stale. drop-AreConsistent c fuse_ino key m (λ p g. ground arith))
      (λ _.
        if_both IsConsistent (is_nonpositive ((o.lookups + u64_mod - nlookup) % u64_mod))
          (λ _.
            drop-AreConsistent (remove-AreConsistent c key) fuse_ino key m
              (λ p g. absurd (ground (arith, get-remove key key t.table, same_key_iff key key))))
          (λ _. insert-AreConsistent c key o _ e refl))

-- `forget` keeps the table consistent on every branch: a reserved or unknown number, a tombstone,
-- a number that belongs to an earlier file, the last lookup, and a lookup that is not the last.
pub forget-IsConsistent :
    (t : InodeTable) (fuse_ino nlookup : ℕ)
    → IsConsistent t
    → IsConsistent (forget t fuse_ino nlookup).0
unfolding forget
forget-IsConsistent t fuse_ino nlookup c =
    if_both Good (fuse_ino == 1 || fuse_ino == 0) (λ _. c)
      (λ _.
        option_both Good (Map.get fuse_ino t.fuse_map) (λ _. c)
          (λ key m.
            option_both Good (Map.get key t.table)
              (λ gone. drop-AreConsistent c fuse_ino key m (λ p g. absurd (ground arith)))
              (λ o e. forget_entry-IsConsistent t fuse_ino nlookup key o c m e)))
  where
    Good : InodeTable × Bool → Type 0
    Good r = IsConsistent r.0

set_entry-IsConsistent :
    (t : InodeTable) (key : InodeKey) (f : OvlIno → OvlIno) (o : Option OvlIno)
    → ((p : OvlIno) → (f p).fuse_ino ≡ p.fuse_ino)
    → Map.get key t.table ≡ o
    → IsConsistent t
    → IsConsistent (set_entry t key f o)
set_entry-IsConsistent t key f none keeps e c = c
set_entry-IsConsistent t key f (some o) keeps e c = insert-AreConsistent c key o (f o) e (keeps o)

-- `remove_node_id` and `inc_lookup` keep the table consistent.
pub update-IsConsistent :
    (t : InodeTable) (key : InodeKey) (node_id : NodeId)
    → IsConsistent t
    → IsConsistent (remove_node_id t key node_id) × IsConsistent (inc_lookup t key)
unfolding remove_node_id inc_lookup
update-IsConsistent t key node_id c = (
  set_entry-IsConsistent t key _ (Map.get key t.table) (λ p. refl) refl c,
  set_entry-IsConsistent t key _ (Map.get key t.table) (λ p. refl) refl c,
)
