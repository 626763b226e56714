-- ===== src/Overlay/Load/View.antt =====
-- The merged view of a directory: what `load_dir_impl` of src/overlay.rs is to compute, said of the
-- layers alone, and the agreement of the two.
use fuse_overlayfs.Base.{
  ℕ, suc, ◌+◌, ◌≡◌, refl, sym, ◌∙◌, Bool, true, false, ◌||◌, Option, some, List, [], ◌∷◌, arith,
  length, any, all, if◌then◌else◌,
}
use mathlib.Core.Path.{subst}
use fuse_overlayfs.Datasource.{Bytes, DataSource}
use fuse_overlayfs.Layer.{OvlLayer}
use fuse_overlayfs.Node.{
  NodeId, NodeArena, OvlNode, DirState, not_a_dir, dir, state_get_child, state_is_whiteout,
  state_is_loaded, state_is_dir, state_set_loaded, is_dir, is_loaded, is_whiteout, get_child,
  mark_loaded, get_node,
}
use fuse_overlayfs.Node.Children.{get-update_node, map_option}
use fuse_overlayfs.Whiteout.{is_directory_opaque}
use fuse_overlayfs.Overlay.{is_wh_file, child_of, whiteout_in}
use fuse_overlayfs.Overlay.Load.{
  LayerDir, skip, halt, listing, layer_dir, stops_at, is_opaque, load_entries, load_layer,
  load_layers, load_dir_arena,
}
use fuse_overlayfs.Overlay.Load.Writes.{DirAt, DirAt_le, DirAt-cast}
use fuse_overlayfs.Overlay.Load.Fate.{
  Fate, undecided, shown, hidden, fate, wh_name, IsPlain, IsClear, Steps,
}
use fuse_overlayfs.Overlay.Load.Entries.{
  listed_fate, or_else, no_nested, is_named, load_entries-Steps,
}

-- The names of a layer's directory agree with its look-ups of whiteout files.
abbrev IsCoherentDir : DataSource → Bytes → Bytes → LayerDir → Type 0
IsCoherentDir ds path name skip = Unit
IsCoherentDir ds path name halt = Unit
IsCoherentDir ds path name (listing es) =
    (is_wh_file ds path name ≡ any (is_named (wh_name name)) es)
    × (is_wh_file ds path (wh_name name) ≡ false)
    × (all (no_nested name) es ≡ true)

-- In every layer, a whiteout file of the name is listed just where it is found, and the whiteout
-- file has no whiteout file of its own.
abbrev pub AreCoherent : Bytes → Bytes → List OvlLayer → Type 0
AreCoherent path name [] = Unit
AreCoherent path name (l ∷ rest) =
    IsCoherentDir l.ds path name (layer_dir l.ds path) × AreCoherent path name rest

abbrev entries_of : LayerDir → ℕ
entries_of skip = 0
entries_of halt = 0
entries_of (listing es) = length es

-- A bound on the number of nodes that loading makes.
abbrev pub entries_in : Bytes → List OvlLayer → ℕ
entries_in path [] = 0
entries_in path (l ∷ rest) = entries_of (layer_dir l.ds path) + entries_in path rest

-- What the layers say of a name, the highest first: the first layer that decides it. Layers below
-- an opaque directory, below a file, and below the layer where the directory ends do not count.
abbrev pub merged_at : OvlLayer → Bool → Bytes → Bytes → LayerDir → Fate → Fate
merged_at l stop path name halt below = undecided
merged_at l stop path name skip below = if stop then undecided else below
merged_at l stop path name (listing es) below =
    or_else (listed_fate l.ds path name es)
      (if stop || is_opaque (is_directory_opaque l.ds path) then undecided else below)

unfoldable pub merged_fate : Option ℕ → Bytes → Bytes → ℕ → List OvlLayer → Fate
merged_fate last path name layer_idx [] = undecided
merged_fate last path name layer_idx (l ∷ rest) =
    merged_at l (stops_at last layer_idx) path name (layer_dir l.ds path)
      (merged_fate last path name (suc layer_idx) rest)

or_else_undecided : (f : Fate) → or_else f undecided ≡ f
or_else_undecided undecided = refl
or_else_undecided shown = refl
or_else_undecided hidden = refl

or_else_assoc : (f g h : Fate) → or_else (or_else f g) h ≡ or_else f (or_else g h)
or_else_assoc undecided g h = refl
or_else_assoc shown g h = refl
or_else_assoc hidden g h = refl

-- The rest of the loop agrees with the layers below.
abbrev Agrees : Bytes → NodeId → ℕ → (NodeArena → NodeArena) → Fate → Type 0
Agrees name p k more below =
    (b : NodeArena)
    → DirAt b p k
    → IsClear b p name
    → Steps (more b) p 0 name (or_else (fate b p name) below)

module _ (last : Option ℕ) (path : Bytes) (fast_ino_check : Bool) {p : NodeId} {name : Bytes}
    (plain : IsPlain name) where
  -- Whether the loop stops after this layer or not.
  stop-Steps :
      (stop : Bool) (k : ℕ) (more : NodeArena → NodeArena) (below : Fate) (a : NodeArena) (f : Fate)
      → Agrees name p k more below
      → Steps a p k name f
      → Steps (if stop then a else more a) p 0 name (or_else f (if stop then undecided else below))
  stop-Steps true k more below a f agree s = record {
    dir_at = DirAt_le s.dir_at (omega arith);
    clear = s.clear;
    reached = s.reached ∙ sym (or_else_undecided f);
  }
  stop-Steps false k more below a f agree s =
      subst (λ g. Steps (more a) p 0 name (or_else g below)) s.reached (agree a s.dir_at s.clear)

  load_layer-Steps :
      (l : OvlLayer) (layer_idx : ℕ) (ld : LayerDir) (k : ℕ) (more : NodeArena → NodeArena)
      (below : Fate) (a : NodeArena)
      → Agrees name p k more below
      → DirAt a p (entries_of ld + k)
      → IsClear a p name
      → IsCoherentDir l.ds path name ld
      → Steps
          (load_layer l last p path fast_ino_check layer_idx ld more a)
          p
          0
          name
          (or_else (fate a p name) (merged_at l (stops_at last layer_idx) path name ld below))
  load_layer-Steps l layer_idx halt k more below a agree d c h = record {
    dir_at = DirAt_le d (omega arith);
    clear = c;
    reached = sym (or_else_undecided (fate a p name));
  }
  load_layer-Steps l layer_idx skip k more below a agree d c h =
      stop-Steps (stops_at last layer_idx) k more below a (fate a p name) agree
        (record { dir_at = DirAt-cast (omega arith) d; clear = c; reached = refl })
  load_layer-Steps l layer_idx (listing es) k more below a agree d c h =
      let listed = listed_fate l.ds path name es in
      let here =
        load_entries-Steps l.ds layer_idx path fast_ino_check plain h.1 es a k d c h.2 h.0 in
      let stop = stops_at last layer_idx || is_opaque (is_directory_opaque l.ds path) in
      let a' = load_entries l.ds layer_idx p path fast_ino_check es a in
      subst (Steps (if stop then a' else more a') p 0 name)
        (or_else_assoc (fate a p name) listed (if stop then undecided else below))
        (stop-Steps stop k more below a' (or_else (fate a p name) listed) agree here)

  load_layers-Steps :
      (layer_idx : ℕ) (layers : List OvlLayer) (a : NodeArena)
      → DirAt a p (entries_in path layers)
      → IsClear a p name
      → AreCoherent path name layers
      → Steps
          (load_layers last p path fast_ino_check layer_idx layers a)
          p
          0
          name
          (or_else (fate a p name) (merged_fate last path name layer_idx layers))
  unfolding load_layers merged_fate
  load_layers-Steps layer_idx [] a d c h = record {
    dir_at = d;
    clear = c;
    reached = sym (or_else_undecided (fate a p name));
  }
  load_layers-Steps layer_idx (l ∷ rest) a d c (h, hs) =
      load_layer-Steps l layer_idx (layer_dir l.ds path) (entries_in path rest)
        (λ b. load_layers last p path fast_ino_check (suc layer_idx) rest b)
        (merged_fate last path name (suc layer_idx) rest) a
        (λ b at clear. load_layers-Steps (suc layer_idx) rest b at clear hs) d c h

mark_loaded_reads :
    (n : OvlNode) (name : Bytes)
    → (get_child (mark_loaded n) name ≡ get_child n name)
      × (is_whiteout (mark_loaded n) name ≡ is_whiteout n name)
      × (is_loaded (mark_loaded n) ≡ is_dir n)
unfolding mark_loaded get_child is_whiteout is_loaded is_dir
mark_loaded_reads n name = by_state n.dir_state
  where
    by_state :
        (s : DirState)
        → (state_get_child name (state_set_loaded true s) ≡ state_get_child name s)
          × (state_is_whiteout name (state_set_loaded true s) ≡ state_is_whiteout name s)
          × (state_is_loaded (state_set_loaded true s) ≡ state_is_dir s)
    by_state not_a_dir = (refl, refl, refl)
    by_state (dir kids whiteouts loaded) = (refl, refl, refl)

-- The directory's node shows a name after the load just where the layers show it, and hides it just
-- where they hide it, if the node had not decided the name before; what it had decided stays. The
-- node is marked as loaded. The conditions: the name is not passed over and is no whiteout file's,
-- neither the whiteout file of the name is in the node nor a whiteout of it, the layers are coherent
-- for the name, and the arena has identifiers left for every entry that is listed.
pub load_dir_arena-merged_fate :
    (layers : List OvlLayer) (p : NodeId) (path name : Bytes) (last : Option ℕ)
    (fast_ino_check : Bool) (a : NodeArena)
    → IsPlain name
    → DirAt a p (entries_in path layers)
    → IsClear a p name
    → AreCoherent path name layers
    → (fate (load_dir_arena layers p path last fast_ino_check a) p name
        ≡ or_else (fate a p name) (merged_fate last path name 0 layers))
      × (map_option is_loaded (get_node (load_dir_arena layers p path last fast_ino_check a) p)
          ≡ some true)
unfolding load_dir_arena fate child_of whiteout_in
load_dir_arena-merged_fate layers p path name last fast_ino_check a plain d c h =
    let s = load_layers-Steps last path fast_ino_check plain 0 layers a d c h in
    let a' = load_layers last p path fast_ino_check 0 layers a in
    let written = get-update_node a' p p mark_loaded in
    (
      ground (arith, written, s.reached, s.dir_at.at, mark_loaded_reads s.dir_at.node name),
      ground
          (arith, written, s.dir_at.at, s.dir_at.directory, mark_loaded_reads s.dir_at.node name),
    )
