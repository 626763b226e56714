-- ===== src/Tests/Inodes.antt =====
-- The inode table on a file with one name, and on its number used again.
use fuse_overlayfs.Base.{
  ℕ, ◌≡◌, ◌≢◌, refl, true, false, none, some, [], ◌∷◌, arith, is_some, is_empty, retain, nat_key,
}
use fuse_overlayfs.Base.Map
use fuse_overlayfs.Node.{empty_arena, contains_node}
use fuse_overlayfs.Node.Hash.{compute_fuse_ino}
use fuse_overlayfs.Node.Inodes.{
  InodeKey, OvlIno, InodeTable, inode_key, empty_table, register, register_new, register_existing,
  find_free, get_by_key, inc_lookup, forget,
}
use fuse_overlayfs.Node.Inodes.Invariant.{
  IsConsistent, empty_table-IsConsistent, register-IsConsistent, forget-IsConsistent,
  update-IsConsistent,
}
use fuse_overlayfs.Node.Inodes.Forget.{forget_lem, forget_keeps, forget-inc_lookup}
use fuse_overlayfs.Node.Inodes.Register.{
  Registers, register-Registers, register_number, register-some,
}

abbrev key : InodeKey
key = record { ino = 10; dev = 7 }

abbrev entry : OvlIno
entry = record { nodes = 1 ∷ []; lookups = 0; mode = 0o100644; fuse_ino = 10 }

-- The table after the first registration.
abbrev one_file : InodeTable
one_file = record {
  table = (key, entry) ∷ [];
  fuse_map = (10, key) ∷ [];
  same_device = true;
  next_fallback = 0x8000_0000_0000_0000;
  stat_inodes = 1;
}

first_run : register empty_table empty_arena 1 10 7 0o100644 ≡ some (one_file, 10)
unfolding register register_new find_free compute_fuse_ino Map.get Map.insert
first_run = refl

one_file-IsConsistent : IsConsistent one_file
one_file-IsConsistent =
    register-IsConsistent empty_table empty_arena 1 10 7 0o100644 one_file 10
      empty_table-IsConsistent first_run

-- The node 1 is gone: the number was recycled, and the file is new.
abbrev recycled : InodeTable
recycled = record {
  table =
      (
        key,
        record { nodes = 2 ∷ []; lookups = 0; mode = 0o100600; fuse_ino = 0x8000_0000_0000_0000 },
      )
      ∷ [];
  fuse_map = (10, key) ∷ (0x8000_0000_0000_0000, key) ∷ [];
  same_device = true;
  next_fallback = 0x8000_0000_0000_0001;
  stat_inodes = 1;
}

second_run : register one_file empty_arena 2 10 7 0o100600 ≡ some (recycled, 0x8000_0000_0000_0000)
unfolding register register_new register_existing contains_node retain find_free compute_fuse_ino
    Map.get Map.insert Map.remove
second_run = refl

register-IsConsistent_example : IsConsistent one_file
register-IsConsistent_example =
    register-IsConsistent empty_table empty_arena 1 10 7 0o100644 one_file 10
      empty_table-IsConsistent first_run

register-Registers_example : Registers one_file recycled key 0x8000_0000_0000_0000
register-Registers_example =
    register-Registers one_file empty_arena 2 10 7 0o100600 recycled 0x8000_0000_0000_0000
      one_file-IsConsistent second_run

register_number_example :
    (is_empty (retain (contains_node empty_arena) (1 ∷ [])) ≡ false
      → ◌≡◌ {A = ℕ} 0x8000_0000_0000_0000 10)
    × (is_empty (retain (contains_node empty_arena) (1 ∷ [])) ≡ true
        → ◌≢◌ {A = ℕ} 0x8000_0000_0000_0000 10)
unfolding Map.get
register_number_example =
    register_number one_file empty_arena 2 10 7 0o100600 recycled 0x8000_0000_0000_0000 entry
      one_file-IsConsistent refl second_run

register-some_example : is_some (register one_file empty_arena 2 10 7 0o100600) ≡ true
register-some_example =
    register-some one_file empty_arena 2 10 7 0o100600 (ground arith) (ground arith)

forget-IsConsistent_example : IsConsistent (forget one_file 10 0).0
forget-IsConsistent_example = forget-IsConsistent one_file 10 0 one_file-IsConsistent

forget_lem_example :
    (Map.get 10 (forget one_file 10 0).0.fuse_map ≡ none)
    × (Map.get key (forget one_file 10 0).0.table ≡ none)
unfolding Map.get
forget_lem_example =
    forget_lem one_file 10 0 key entry one_file-IsConsistent refl refl refl (ground arith)

-- The number 10 of the file that is gone is forgotten; the new file keeps its entry.
abbrev new_entry : OvlIno
new_entry = record {
  nodes = 2 ∷ [];
  lookups = 0;
  mode = 0o100600;
  fuse_ino = 0x8000_0000_0000_0000;
}

forget_keeps_example : Map.get key (forget recycled 10 3).0.table ≡ some new_entry
unfolding Map.get
forget_keeps_example = forget_keeps recycled 10 3 key new_entry refl (λ h. ground arith)

-- The file after its first look-up.
abbrev looked_up : InodeTable
looked_up = inc_lookup one_file key

forget-inc_lookup_example :
    ((k : InodeKey)
      → get_by_key (forget (inc_lookup looked_up key) 10 1).0 k ≡ get_by_key looked_up k)
    × ((forget (inc_lookup looked_up key) 10 1).0.fuse_map ≡ looked_up.fuse_map)
unfolding inc_lookup Map.get Map.insert
forget-inc_lookup_example =
    forget-inc_lookup looked_up key (record entry { lookups = 1 })
      (update-IsConsistent one_file key 1 one_file-IsConsistent).1 refl (omega arith) (omega arith)
