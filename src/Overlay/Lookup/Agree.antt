-- ===== src/Overlay/Lookup/Agree.antt =====
-- `do_lazy_lookup` and `load_dir_impl` of src/overlay.rs give one answer: looking a single name up
-- in the layers agrees with merging the whole directory.
use fuse_overlayfs.Base.{
  ℕ, suc, ◌≡◌, refl, Bool, true, false, ◌&&◌, ◌||◌, Option, none, some, List, [], ◌∷◌, ok, err,
  FsResult, arith, any, find, is_some, if◌then◌else◌, if_both, option_both, bytes_eq_iff,
}
use fuse_overlayfs.Datasource.{
  Bytes, Stat, DirEntry, DataSource, statx_type_mode_ino, at_symlink_nofollow,
}
use fuse_overlayfs.Layer.{OvlLayer}
use fuse_overlayfs.Node.{NodeId, OvlNode, NodeArena}
use fuse_overlayfs.Node.Path.{child_path}
use fuse_overlayfs.Whiteout.{is_directory_opaque}
use fuse_overlayfs.Overlay.{
  is_dir_mode, whiteout_in, is_wh_file, wh_prefix_name, is_chardev_whiteout,
}
use fuse_overlayfs.Overlay.Load.{
  LayerDir, skip, halt, listing, layer_dir, stops_at, is_opaque, is_chardev_entry, add_whiteout,
}
use fuse_overlayfs.Overlay.Load.Writes.{DirAt, add_whiteout-DirAt, whiteout_in-add_whiteout}
use fuse_overlayfs.Overlay.Load.Fate.{
  Fate, undecided, hidden, fate_of, wh_name, IsPlain, wh_prefix_name-plain,
}
use fuse_overlayfs.Overlay.Load.Entries.{listed_fate, is_named}
use fuse_overlayfs.Overlay.Load.View.{merged_at, merged_fate}
use fuse_overlayfs.Overlay.Lookup.{
  Found, is_missing, merge_lower, found_node, lazy_first, lazy_layer, lazy_loop,
}

-- The listing of a layer's directory and the look-up of one name in it tell the same. A directory
-- that is a file in this layer is left out: the two operations go on differently there.
abbrev TellsSame : DataSource → Bytes → Bytes → LayerDir → FsResult Stat → Type 0
TellsSame ds path name skip (err e) = (is_missing e ≡ true) × (is_wh_file ds path name ≡ false)
TellsSame ds path name skip (ok st) = false ≡ true
TellsSame ds path name halt looked = false ≡ true
TellsSame ds path name (listing es) (err e) =
    (is_missing e ≡ true)
    × (find (is_named name) es ≡ none)
    × (is_wh_file ds path name ≡ any (is_named (wh_name name)) es)
TellsSame ds path name (listing es) (ok st) =
    (entry : DirEntry) × (find (is_named name) es ≡ some entry)
    × (is_chardev_entry ds path entry ≡ is_chardev_whiteout st)
    × (is_wh_file ds path name ≡ any (is_named (wh_name name)) es)

abbrev Unless : Bool → Type 0 → Type 0
Unless true A = Unit
Unless false A = A

-- The same in every layer down to the one where the parent ends; and only there the parent may be
-- opaque.
abbrev pub LooksUp : ℕ → Bytes → Bytes → ℕ → List OvlLayer → Type 0
LooksUp last path name layer_idx [] = Unit
LooksUp last path name layer_idx (l ∷ rest) =
    TellsSame l.ds path name (layer_dir l.ds path)
      (l.ds.statat (child_path path name) at_symlink_nofollow statx_type_mode_ino)
    × (is_opaque (is_directory_opaque l.ds path) ≡ true → stops_at (some last) layer_idx ≡ true)
    × Unless (stops_at (some last) layer_idx) (LooksUp last path name (suc layer_idx) rest)

stops_too : (A : Type 0) (stop b : Bool) → Unless stop A → Unless (stop || b) A
stops_too A true b h = h
stops_too A false true h = tt
stops_too A false false h = h

-- What the loop has found out about the name.
abbrev pub found_fate : NodeId → Bytes → Found → Fate
found_fate p name (a, found) = fate_of (is_some found) (whiteout_in a p name)

module _ (last : ℕ) (p : NodeId) (path name : Bytes) where
  -- A node that is found is kept: lower layers only extend it.
  layer-stays :
      (ds : DataSource) (layer_idx : ℕ) (ld : LayerDir) (looked : FsResult Stat) (child : OvlNode)
      (more : Option OvlNode → Bool → NodeArena → Found) (stop : Bool) (a : NodeArena)
      → TellsSame ds path name ld looked
      → ((c : OvlNode) → is_some (more (some c) stop a).1 ≡ true)
      → is_some (lazy_layer ds p path name layer_idx looked (some child) more stop a).1 ≡ true
  layer-stays ds layer_idx ld (ok st) child more stop a h keep =
      keep (merge_lower child layer_idx st)
  layer-stays ds layer_idx skip (err e) child more stop a h keep = ground (arith, keep child)
  layer-stays ds layer_idx halt (err e) child more stop a h keep = cc
  layer-stays ds layer_idx (listing es) (err e) child more stop a h keep =
      ground (arith, keep child)

  loop-stays :
      (layer_idx : ℕ) (layers : List OvlLayer) (child : OvlNode) (stop : Bool) (a : NodeArena)
      → Unless stop (LooksUp last path name layer_idx layers)
      → is_some (lazy_loop last p path name layer_idx layers (some child) stop a).1 ≡ true
  unfolding lazy_loop
  loop-stays layer_idx [] child stop a h = refl
  loop-stays layer_idx (l ∷ rest) child true a h = refl
  loop-stays layer_idx (l ∷ rest) child false a h =
      layer-stays l.ds layer_idx (layer_dir l.ds path) _ child _ (stops_at (some last) layer_idx) a
        h.0 (λ c. loop-stays (suc layer_idx) rest c (stops_at (some last) layer_idx) a h.2)

  module _ (plain : IsPlain name) {a : NodeArena} {k : ℕ} (d : DirAt a p k)
      (clear : whiteout_in a p name ≡ false) where
    -- Recording a whiteout decides the name.
    whiteout-hides : fate_of false (whiteout_in (add_whiteout a p name) p name) ≡ hidden
    whiteout-hides = ground (arith, whiteout_in-add_whiteout d name name, bytes_eq_iff name name)

    layer-agrees :
        (l : OvlLayer) (layer_idx : ℕ) (ld : LayerDir) (looked : FsResult Stat) (stop : Bool)
        (more : Option OvlNode → Bool → NodeArena → Found) (below : Fate)
        → TellsSame l.ds path name ld looked
        → (is_opaque (is_directory_opaque l.ds path) ≡ true → stop ≡ true)
        → found_fate p name (more none stop a) ≡ (if stop then undecided else below)
        → ((child : OvlNode) (b : Bool) → is_some (more (some child) (stop || b) a).1 ≡ true)
        → found_fate p name (lazy_layer l.ds p path name layer_idx looked none more stop a)
          ≡ merged_at l stop path name ld below
    unfolding lazy_first listed_fate
    layer-agrees l layer_idx skip (ok st) stop more below h o agree keep = cc
    layer-agrees l layer_idx halt looked stop more below h o agree keep = cc
    layer-agrees l layer_idx skip (err e) stop more below h o agree keep = ground arith
    layer-agrees l layer_idx (listing es) (err e) stop more below h o agree keep =
        ground (arith, whiteout-hides)
    layer-agrees l layer_idx (listing es) (ok st) stop more below h o agree keep = ground (
      arith,
      whiteout-hides,
      wh_prefix_name-plain name plain,
      keep (found_node p name layer_idx st)
          (is_dir_mode st.st_mode && is_opaque (is_directory_opaque l.ds (child_path path name))),
      h.1,
      h.2,
      h.3,
    )

    pub loop-agrees :
        (layer_idx : ℕ) (layers : List OvlLayer) (stop : Bool)
        → Unless stop (LooksUp last path name layer_idx layers)
        → found_fate p name (lazy_loop last p path name layer_idx layers none stop a)
          ≡ (if stop then undecided else merged_fate (some last) path name layer_idx layers)
    unfolding lazy_loop merged_fate
    loop-agrees layer_idx [] true h = ground arith
    loop-agrees layer_idx [] false h = ground arith
    loop-agrees layer_idx (l ∷ rest) true h = ground arith
    loop-agrees layer_idx (l ∷ rest) false h =
        let stop = stops_at (some last) layer_idx in
        layer-agrees l layer_idx (layer_dir l.ds path) _ stop _ _ h.0 h.1
          (loop-agrees (suc layer_idx) rest stop h.2)
          (λ child b. loop-stays (suc layer_idx) rest child (stop || b) a (stops_too _ stop b h.2))

  -- The directory stays in the arena.
  layer-DirAt :
      (ds : DataSource) (layer_idx : ℕ) (looked : FsResult Stat) (found : Option OvlNode)
      (more : Option OvlNode → Bool → NodeArena → Found) (stop : Bool) {a : NodeArena} {k : ℕ}
      → DirAt a p k
      → ((found' : Option OvlNode) (stop' : Bool) → DirAt (more found' stop' a).0 p k)
      → DirAt (lazy_layer ds p path name layer_idx looked found more stop a).0 p k
  unfolding lazy_first
  layer-DirAt ds layer_idx (ok st) (some child) more stop d keep =
      keep (some (merge_lower child layer_idx st)) stop
  layer-DirAt ds layer_idx (err e) (some child) more stop {a} {k} d keep =
      if_both (λ (x : Found). DirAt x.0 p k) (is_missing e) (λ _. keep (some child) stop) (λ _. d)
  layer-DirAt ds layer_idx (err e) none more stop {a} {k} d keep =
      if_both (λ (x : Found). DirAt x.0 p k) (is_missing e)
        (λ _.
          if_both (λ (x : Found). DirAt x.0 p k) (is_wh_file ds path name)
            (λ _. add_whiteout-DirAt d name) (λ _. keep none stop))
        (λ _. d)
  layer-DirAt ds layer_idx (ok st) none more stop {a} {k} d keep =
      if_both (λ (x : Found). DirAt x.0 p k) (is_wh_file ds path name)
        (λ _. add_whiteout-DirAt d name)
        (λ _.
          option_both (λ (x : Found). DirAt x.0 p k) (wh_prefix_name name)
            (λ _.
              if_both (λ (x : Found). DirAt x.0 p k) (is_chardev_whiteout st)
                (λ _. add_whiteout-DirAt d name) (λ _. keep _ _))
            (λ w _. add_whiteout-DirAt d w))

  pub loop-DirAt :
      (layer_idx : ℕ) (layers : List OvlLayer) (found : Option OvlNode) (stop : Bool)
      {a : NodeArena} {k : ℕ}
      → DirAt a p k
      → DirAt (lazy_loop last p path name layer_idx layers found stop a).0 p k
  unfolding lazy_loop
  loop-DirAt layer_idx [] found stop d = d
  loop-DirAt layer_idx (l ∷ rest) found true d = d
  loop-DirAt layer_idx (l ∷ rest) found false d =
      layer-DirAt l.ds layer_idx _ found _ (stops_at (some last) layer_idx) d
        (λ found' stop'. loop-DirAt (suc layer_idx) rest found' stop' d)
