-- ===== src/Layer/Init/Order.antt =====
-- What `init_layers` opens, and in which order.
use fuse_overlayfs.Base.{
  ℕ, ◌≡◌, refl, sym, ap, ◌∙◌, true, false, not, Option, none, some, List, [], ◌∷◌, ◌++◌, ok, err,
  FsResult, arith, is_empty, retain, if◌then◌else◌, Bool_both, if_both,
}
use mathlib.Core.List.{append_assoc, append-nil}
use mathlib.Core.Path.{subst}
use fuse_overlayfs.Config.Split.{parse_lowerdir}
use fuse_overlayfs.Datasource.{Bytes}
use fuse_overlayfs.Direct.{DirectAccess, new_direct, load_data_source}
use fuse_overlayfs.Layer.Init.{
  DirectLayer, Layers, apply_permissions, lacks_handles, is_plugin, lower_layer, upper_first,
  upper_failed, lower_failed, no_handles_upper, no_handles_lower, load_lowers, init_layers,
}
use fuse_overlayfs.Sys.{Sys}
use fuse_overlayfs.Sys.Actions.{Action, pure, attempt, ◌>>=◌}

-- The directories that are no plug-ins.
abbrev pub plain_dirs : List Bytes → List Bytes
plain_dirs dirs = retain (λ path. not (is_plugin path)) dirs

pair_eq : {A B : Type 0} (p : A × B) (a : A) → p.0 ≡ a → p ≡ (a, p.1)
pair_eq p a e = ap (λ x. (x, p.1)) e

module _ {W : Type 0} (sys : Sys W) (nfs_filehandles : ℕ) where
  -- In some world the directory was opened with this result.
  abbrev pub IsLoadedFrom : Bytes → DirectAccess → Type 0
  IsLoadedFrom path d = (w w' : W) × (load_data_source sys new_direct path w ≡ (ok d, w'))

  -- One read-only layer for each directory, in the same order.
  abbrev pub AreLoaded : List Bytes → List DirectLayer → Type 0
  AreLoaded [] [] = Unit
  AreLoaded [] (l ∷ layers) = ⊥
  AreLoaded (path ∷ dirs) [] = ⊥
  AreLoaded (path ∷ dirs) (l ∷ layers) =
      IsLoadedFrom path l.direct
      × (l.low ≡ true)
      × (lacks_handles nfs_filehandles l.direct ≡ false)
      × AreLoaded dirs layers

  -- How the loop ends that had `layers` already.
  abbrev Opened : List DirectLayer → List Bytes → FsResult Layers × W → Type 0
  Opened layers dirs (ok (ok all_layers), w) =
      (rest : List DirectLayer) × (all_layers ≡ layers ++ rest)
      × AreLoaded dirs rest
      × (is_empty all_layers ≡ false)
  Opened layers dirs (ok (err e), w) = Unit
  Opened layers dirs (err e, w) = ⊥

  Opened-start :
      (layers : List DirectLayer) (w : W)
      → Opened layers [] (load_lowers sys nfs_filehandles [] layers w)
  unfolding load_lowers
  Opened-start [] w = tt
  Opened-start (l ∷ layers) w = ([], sym (append-nil (l ∷ layers)), tt, refl)

  Opened-cons :
      (layers : List DirectLayer) (l : DirectLayer) (path : Bytes) (dirs : List Bytes)
      (r : FsResult Layers × W)
      → IsLoadedFrom path l.direct
      → l.low ≡ true
      → lacks_handles nfs_filehandles l.direct ≡ false
      → Opened (layers ++ (l ∷ [])) dirs r
      → Opened layers (path ∷ dirs) r
  Opened-cons layers l path dirs (ok (ok all_layers), w) from low full (rest, e, loaded, filled) =
      (l ∷ rest, e ∙ append_assoc layers (l ∷ []) rest, (from, low, full, loaded), filled)
  Opened-cons layers l path dirs (ok (err e), w) from low full h = tt
  Opened-cons layers l path dirs (err e, w) from low full h = h

  plain_none : plain_dirs [] ≡ []
  unfolding retain
  plain_none = refl

  plain_plugin :
      (path : Bytes) (dirs : List Bytes)
      → is_plugin path ≡ true
      → plain_dirs (path ∷ dirs) ≡ plain_dirs dirs
  unfolding retain
  plain_plugin path dirs e = ground arith

  plain_dir :
      (path : Bytes) (dirs : List Bytes)
      → is_plugin path ≡ false
      → plain_dirs (path ∷ dirs) ≡ path ∷ plain_dirs dirs
  unfolding retain
  plain_dir path dirs e = ground arith

  load_dir-Opened :
      (path : Bytes) (dirs : List Bytes) (layers : List DirectLayer) (r : FsResult DirectAccess × W)
      → ((d : DirectAccess) → r.0 ≡ ok d → IsLoadedFrom path d)
      → ((layers : List DirectLayer) (w : W)
          → Opened layers (plain_dirs dirs) (load_lowers sys nfs_filehandles dirs layers w))
      → Opened layers (path ∷ plain_dirs dirs) (elim r.0 as (λ x. FsResult Layers × W) [
        | err e ↦ (ok (err (lower_failed path e)), r.1)
        | ok d ↦ elim (lacks_handles nfs_filehandles d) as (λ x. FsResult Layers × W) [
          | true ↦ (ok (err (no_handles_lower path)), r.1)
          | false ↦ load_lowers sys nfs_filehandles dirs (layers ++ (lower_layer d ∷ [])) r.1
        ]
      ])
  load_dir-Opened path dirs layers (err e, w) from ih = tt
  load_dir-Opened path dirs layers (ok d, w) from ih =
      Bool_both (Opened layers (path ∷ plain_dirs dirs)) (lacks_handles nfs_filehandles d)
        (λ lacking. tt)
        λ full.
          Opened-cons layers (lower_layer d) path (plain_dirs dirs) _ (from d refl) refl full
            (ih (layers ++ (lower_layer d ∷ [])) w)

  load_lowers-Opened :
      (dirs : List Bytes) (layers : List DirectLayer) (w : W)
      → Opened layers (plain_dirs dirs) (load_lowers sys nfs_filehandles dirs layers w)
  unfolding load_lowers
  load_lowers-Opened [] layers w = rw (plain_none) (Opened-start layers w)
  load_lowers-Opened (path ∷ dirs) layers w =
      Bool_both (Opened layers (plain_dirs (path ∷ dirs))) (is_plugin path)
        (λ plugin. rw (plain_plugin path dirs plugin) (load_lowers-Opened dirs layers w))
        λ plain. rw (plain_dir path dirs plain) (
          load_dir-Opened path dirs layers (load_data_source sys new_direct path w)
            (λ d e. (w, (load_data_source sys new_direct path w).1, pair_eq _ _ e))
            (load_lowers-Opened dirs))

  -- The layer of an upper directory: the one that is writable.
  abbrev pub IsUpperFrom : ℕ → Bytes → DirectLayer → Type 0
  IsUpperFrom xattr_permissions upper l =
      (d : DirectAccess) × IsLoadedFrom upper d
      × (l ≡ upper_first (apply_permissions xattr_permissions d))
      × (lacks_handles nfs_filehandles l.direct ≡ false)

  -- What is known of the layers, by whether there is an upper directory.
  abbrev pub AreLayers : ℕ → Option Bytes → List Bytes → List DirectLayer → Type 0
  AreLayers xattr_permissions none dirs [] = ⊥
  AreLayers xattr_permissions none dirs (l ∷ lows) = AreLoaded dirs (l ∷ lows)
  AreLayers xattr_permissions (some upper) dirs [] = ⊥
  AreLayers xattr_permissions (some upper) dirs (l ∷ lows) =
      IsUpperFrom xattr_permissions upper l × AreLoaded dirs lows

  abbrev pub InitEnds : ℕ → Option Bytes → List Bytes → FsResult Layers × W → Type 0
  InitEnds xattr_permissions upper dirs (ok (ok layers), w) =
      AreLayers xattr_permissions upper dirs layers
  InitEnds xattr_permissions upper dirs (ok (err e), w) = Unit
  InitEnds xattr_permissions upper dirs (err e, w) = ⊥

  ends_lower :
      (xattr_permissions : ℕ) (dirs : List Bytes) (r : FsResult Layers × W)
      → Opened [] dirs r
      → InitEnds xattr_permissions none dirs r
  ends_lower x dirs (ok (ok []), w) (rest, e, loaded, filled) = cc
  ends_lower x dirs (ok (ok (l ∷ lows)), w) (rest, e, loaded, filled) =
      subst (AreLoaded dirs) (sym e) loaded
  ends_lower x dirs (ok (err e), w) h = tt
  ends_lower x dirs (err e, w) h = h

  ends_upper :
      (xattr_permissions : ℕ) (upper : Bytes) (u : DirectLayer) (dirs : List Bytes)
      (r : FsResult Layers × W)
      → IsUpperFrom xattr_permissions upper u
      → Opened (u ∷ []) dirs r
      → InitEnds xattr_permissions (some upper) dirs r
  ends_upper x upper u dirs (ok (ok layers), w) from (rest, e, loaded, filled) =
      subst (AreLayers x (some upper) dirs) (sym e) (from, loaded)
  ends_upper x upper u dirs (ok (err e), w) from h = tt
  ends_upper x upper u dirs (err e, w) from h = h

  load_upper :
      (xattr_permissions : ℕ) (upper : Bytes) (dirs : List Bytes) (r : FsResult DirectAccess × W)
      → ((d : DirectAccess) → r.0 ≡ ok d → IsLoadedFrom upper d)
      → InitEnds xattr_permissions (some upper) (plain_dirs dirs) (
          elim r.0 as (λ x. Action W Layers) [
            | err e ↦ pure (err (upper_failed upper e))
            | ok d ↦
                if lacks_handles nfs_filehandles (apply_permissions xattr_permissions d)
                then pure (err no_handles_upper)
                else load_lowers sys nfs_filehandles dirs
                    (upper_first (apply_permissions xattr_permissions d) ∷ [])
          ]
            r.1)
  load_upper x upper dirs (err e, w) from = tt
  load_upper x upper dirs (ok d, w) from =
      if_both (λ (m : Action W Layers). InitEnds x (some upper) (plain_dirs dirs) (m w))
        (lacks_handles nfs_filehandles (apply_permissions x d)) (λ lacking. tt)
        λ full.
          ends_upper x upper (upper_first (apply_permissions x d)) (plain_dirs dirs) _
            (d, from d refl, refl, full)
            (load_lowers-Opened dirs (upper_first (apply_permissions x d) ∷ []) w)

  -- Where `init_layers` succeeds, there is at least one layer. The upper directory's layer, if one
  -- is given, comes first and is the writable one, with the stat override that the option asks for;
  -- the others are read-only and were opened from the lower directories that are no plug-ins, one
  -- from each and in the order of the option. With xino=on each of them has file handles.
  pub init_layers-AreLayers :
      (lowerdir : Bytes) (upper : Option Bytes) (xattr_permissions : ℕ) (w : W)
      → InitEnds xattr_permissions upper
          (plain_dirs (parse_lowerdir lowerdir))
          (init_layers sys lowerdir upper nfs_filehandles xattr_permissions w)
  unfolding init_layers ◌>>=◌ attempt
  init_layers-AreLayers lowerdir none x w =
      ends_lower x (plain_dirs (parse_lowerdir lowerdir)) _
        (load_lowers-Opened (parse_lowerdir lowerdir) [] w)
  init_layers-AreLayers lowerdir (some upper) x w =
      load_upper x upper (parse_lowerdir lowerdir) (load_data_source sys new_direct upper w)
        λ d e. (w, (load_data_source sys new_direct upper w).1, pair_eq _ _ e)
