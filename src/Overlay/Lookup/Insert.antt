-- ===== src/Overlay/Lookup/Insert.antt =====
-- What a look-up of src/overlay.rs leaves in the state: the answer of `do_lazy_lookup` against the
-- merged view, the child that is put in, and the inode table.
use fuse_overlayfs.Base.{
  ℕ, ◌≤◌, ◌≡◌, refl, sym, ap, ◌∙◌, Bool, true, false, ◌||◌, Option, none, some, arith, is_some,
  ◌==◌, Option-cases, if_both, option_both, inl, inr, nat_key,
}
use mathlib.Core.Path.{subst}
use fuse_overlayfs.Datasource.{Bytes}
use fuse_overlayfs.Node.{NodeId, OvlNode, NodeArena, insert_node, get_node, contains_node}
use fuse_overlayfs.Node.Children.{get-insert_node}
use fuse_overlayfs.Node.Path.{compute_path}
use fuse_overlayfs.Node.Inodes.{InodeTable, register}
use fuse_overlayfs.Node.Inodes.Invariant.{IsConsistent, register-IsConsistent}
use fuse_overlayfs.Overlay.{OverlayInner, child_of, whiteout_in, lookup_node_id}
use fuse_overlayfs.Overlay.Load.{load_dir_impl}
use fuse_overlayfs.Overlay.Load.Writes.{DirAt, DirAt_le}
use fuse_overlayfs.Overlay.Load.Fate.{Fate, undecided, fate, fate_of, IsPlain, IsClear}
use fuse_overlayfs.Overlay.Load.Entries.{or_else}
use fuse_overlayfs.Overlay.Load.View.{
  merged_fate, AreCoherent, entries_in, load_dir_arena-merged_fate,
}
use fuse_overlayfs.Overlay.Lookup.{
  Found, or_same, loaded_or_missing, insert_found, finish_lazy, lazy_loop, do_lazy_lookup,
  lookup_child, do_lookup_file,
}
use fuse_overlayfs.Overlay.Lookup.Agree.{LooksUp, found_fate, loop-agrees, loop-DirAt}

-- The answer of a look-up, with what it leaves in the parent's whiteouts.
abbrev pub answer : NodeId → Bytes → OverlayInner × Option NodeId → Fate
answer p name (s, id) = fate_of (is_some id) (whiteout_in s.nodes p name)

insert_found-some :
    (s : OverlayInner) (p : NodeId) (child : OvlNode) {k : ℕ}
    → DirAt s.nodes p k
    → is_some (insert_found s p child).1 ≡ true
unfolding insert_found insert_node get_node contains_node
insert_found-some s p child d = ground (arith, get-insert_node s.nodes child p, d.at)

finish_lazy-answer :
    (s : OverlayInner) (p : NodeId) (name : Bytes) (found : Found) {k : ℕ}
    → DirAt found.0 p k
    → answer p name (finish_lazy s p found) ≡ found_fate p name found
finish_lazy-answer s p name (a, none) d = refl
finish_lazy-answer s p name (a, some child) d =
    ground (arith, insert_found-some (record s { nodes = a }) p child d)

module _ (s : OverlayInner) (p : NodeId) (name : Bytes) {k : ℕ} (d : DirAt s.nodes p k)
    (plain : IsPlain name) where
  -- A look-up of a name in a directory that is not loaded finds it just where the merged view of the
  -- layers shows it, and records a whiteout just where the view hides it. The conditions: the
  -- directory is in the arena, and the name is no whiteout file's and is not known as deleted. In
  -- each layer down to the directory's last one, or in every layer where the last one is layer 0,
  -- listing and look-up tell the same of the name, the stat of the path gives a directory, ENOENT or
  -- ENOTDIR, and the directory is not opaque, unless this layer is the last one and not layer 0. An
  -- opaque directory in layer 0 is left out: the look-up goes on below it.
  pub do_lazy_lookup-merged_fate :
      whiteout_in s.nodes p name ≡ false
      → LooksUp d.node.last_layer_idx (compute_path s.nodes p) name 0 s.layers
      → answer p name (do_lazy_lookup s p name)
        ≡ merged_fate (some d.node.last_layer_idx) (compute_path s.nodes p) name 0 s.layers
  unfolding do_lazy_lookup
  do_lazy_lookup-merged_fate clear h =
      let last = d.node.last_layer_idx in
      let path = compute_path s.nodes p in
      let found = lazy_loop last p path name 0 s.layers none false s.nodes in
      ground (
        arith,
        d.at,
        finish_lazy-answer s p name found (loop-DirAt last p path name 0 s.layers none false d),
        loop-agrees last p path name plain d clear 0 s.layers false h,
      )

  -- Looking a name up and loading the whole directory down to the same layer give one answer, for a
  -- name that the directory's node has not decided. The conditions: the directory is in the arena,
  -- the name is no whiteout file's, the node has neither a child nor a whiteout under the name of the
  -- name's whiteout file, and identifiers are left for the entries. In each layer down to the
  -- directory's last one, or in every layer where the last one is layer 0, listing and look-up
  -- tell the same of the name, the stat of the path gives a directory, ENOENT or ENOTDIR, and the
  -- directory is not opaque, unless this layer is the last one and not layer 0. In all layers a
  -- whiteout file of the name is listed just where it is found, and has no whiteout file of its own.
  -- An opaque directory in layer 0 is left out: the load stops there and the look-up goes on.
  pub do_lazy_lookup-load_dir_impl :
      (fast_ino_check : Bool)
      → fate s.nodes p name ≡ undecided
      → IsClear s.nodes p name
      → LooksUp d.node.last_layer_idx (compute_path s.nodes p) name 0 s.layers
      → AreCoherent (compute_path s.nodes p) name s.layers
      → entries_in (compute_path s.nodes p) s.layers ≤ k
      → answer p name (do_lazy_lookup s p name)
        ≡ fate
            (load_dir_impl s p
              (compute_path s.nodes p)
              (some d.node.last_layer_idx)
              fast_ino_check).nodes
            p
            name
  unfolding load_dir_impl fate
  do_lazy_lookup-load_dir_impl fast_ino_check fresh clear looks coherent room =
      let path = compute_path s.nodes p in
      let last = some d.node.last_layer_idx in
      let loaded =
        load_dir_arena-merged_fate s.layers p path name last fast_ino_check s.nodes plain
          (DirAt_le d room) clear coherent in
      do_lazy_lookup-merged_fate (ground arith) looks
      ∙ sym (loaded.0 ∙ ap (λ f. or_else f (merged_fate last path name 0 s.layers)) fresh)

-- A look-up keeps the inode table consistent.
or_same-IsConsistent :
    (t : InodeTable) (a : NodeArena) (id : NodeId) (ino dev mode : ℕ)
    → IsConsistent t
    → IsConsistent (or_same t (register t a id ino dev mode))
or_same-IsConsistent t a id ino dev mode c = elim (Option-cases (register t a id ino dev mode)) [
  | inl e ↦ subst (λ o. IsConsistent (or_same t o)) (sym e) c
  | inr e ↦
      subst (λ o. IsConsistent (or_same t o)) (sym e.1)
        (register-IsConsistent t a id ino dev mode e.0.0 e.0.1 c e.1)
]

finish_lazy-IsConsistent :
    (s : OverlayInner) (p : NodeId) (found : Found)
    → IsConsistent s.inodes
    → IsConsistent (finish_lazy s p found).0.inodes
unfolding insert_found
finish_lazy-IsConsistent s p (a, none) c = c
finish_lazy-IsConsistent s p (a, some child) c =
    if_both IsConsistent (child.tmp_ino == 0) (λ _. c)
      (λ _.
        or_same-IsConsistent s.inodes (insert_node a child).0 (insert_node a child).1 child.tmp_ino
          child.tmp_dev child.mode c)

Good : OverlayInner × Option NodeId → Type 0
Good r = IsConsistent r.0.inodes

lookup_child-IsConsistent :
    (s : OverlayInner) (p : NodeId) (name : Bytes)
    → IsConsistent s.inodes
    → IsConsistent (lookup_child s p name).0.inodes
unfolding lookup_child do_lazy_lookup Good
lookup_child-IsConsistent s p name c =
    option_both Good (child_of s.nodes p name)
      (λ _.
        if_both Good (whiteout_in s.nodes p name || loaded_or_missing (get_node s.nodes p)) (λ _. c)
          (λ _.
            option_both Good (get_node s.nodes p) (λ _. c)
              (λ parent _. finish_lazy-IsConsistent s p _ c)))
      (λ id _. c)

-- Any look-up, of whatever parent and name, leaves the inode table consistent, so that no two files
-- get one inode number by it.
pub do_lookup_file-IsConsistent :
    (s : OverlayInner) (parent_ino : ℕ) (name : Option Bytes)
    → IsConsistent s.inodes
    → IsConsistent (do_lookup_file s parent_ino name).0.inodes
unfolding do_lookup_file Good
do_lookup_file-IsConsistent s parent_ino none c =
    option_both Good (lookup_node_id s parent_ino) (λ _. c) (λ p _. c)
do_lookup_file-IsConsistent s parent_ino (some name) c =
    option_both Good (lookup_node_id s parent_ino) (λ _. c)
      (λ p _. lookup_child-IsConsistent s p name c)
