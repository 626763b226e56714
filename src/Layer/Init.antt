-- ===== src/Layer/Init.antt =====
-- `init_layers` of src/layer.rs: opening the upper and the lower directories.
pub mod Order
use fuse_overlayfs.Base.{
  ℕ, Bool, true, false, not, ◌&&◌, Option, none, some, List, [], ◌∷◌, ◌++◌, Result, ok, err,
  FsResult, ◌==◌, if◌then◌else◌, is_empty, is_some,
}
use fuse_overlayfs.Config.Split.{parse_lowerdir, parse_plugin_path}
use fuse_overlayfs.Datasource.{Bytes, StatOverrideMode, no_override, user, privileged, containers}
use fuse_overlayfs.Direct.{
  DirectAccess, new_direct, set_stat_override, load_data_source, data_source,
}
use fuse_overlayfs.Layer.{OvlLayer}
use fuse_overlayfs.Sys.{Sys}
use fuse_overlayfs.Sys.Actions.{Action, pure, attempt, ◌>>=◌}

-- `OvlLayer` with the data source that the program has: `layer_at` is its view in one world.
pub record DirectLayer : Type 0 where
  pub direct : DirectAccess
  pub low : Bool

-- The messages of the errors, by what they tell.
pub data InitError : Type 0 where
  upper_failed lower_failed : Bytes → ℕ → InitError
  no_handles_upper : InitError
  no_handles_lower : Bytes → InitError
  no_layers : InitError

abbrev pub Layers : Type 0
Layers = Result InitError (List DirectLayer)

abbrev is_unset : StatOverrideMode → Bool
is_unset no_override = true
is_unset user = false
is_unset privileged = false
is_unset containers = false

-- The option `xattr_permissions` counts where the layer has no attribute of its own.
unfoldable pub apply_permissions : ℕ → DirectAccess → DirectAccess
apply_permissions xattr_permissions d =
    if is_unset d.stat_override
    then if xattr_permissions == 1
      then set_stat_override d privileged
      else if xattr_permissions == 2
      then set_stat_override d containers
      else d
    else d

abbrev pub lacks_handles : ℕ → DirectAccess → Bool
lacks_handles nfs_filehandles d = (nfs_filehandles == 2) && not (d.nfs_fh == 1)

abbrev pub is_plugin : Bytes → Bool
is_plugin path = is_some (parse_plugin_path path)

abbrev some_layers : List DirectLayer → Layers
some_layers [] = err no_layers
some_layers (l ∷ layers) = ok (l ∷ layers)

abbrev pub lower_layer : DirectAccess → DirectLayer
lower_layer d = record { direct = d; low = true }

abbrev pub upper_first : DirectAccess → DirectLayer
upper_first d = record { direct = d; low = false }

module _ {W : Type 0} (sys : Sys W) where
  unfoldable pub layer_at : W → DirectLayer → OvlLayer
  layer_at w l = record { ds = data_source sys l.direct w; low = l.low }

  -- The loop over the lower directories; `layers` are those that are opened already.
  unfoldable pub load_lowers : ℕ → List Bytes → List DirectLayer → Action W Layers
  load_lowers nfs_filehandles [] layers w = (ok (some_layers layers), w)
  load_lowers nfs_filehandles (path ∷ dirs) layers w = elim (is_plugin path) [
    | true ↦ load_lowers nfs_filehandles dirs layers w
    | false ↦
        let (r, w') = load_data_source sys new_direct path w in
        elim r [
          | err e ↦ (ok (err (lower_failed path e)), w')
          | ok d ↦ elim (lacks_handles nfs_filehandles d) [
            | true ↦ (ok (err (no_handles_lower path)), w')
            | false ↦ load_lowers nfs_filehandles dirs (layers ++ (lower_layer d ∷ [])) w'
          ]
        ]
  ]

  abbrev with_upper : ℕ → ℕ → Bytes → List Bytes → Action W Layers
  with_upper nfs_filehandles xattr_permissions upper dirs = do
    loaded ← attempt (load_data_source sys new_direct upper)
    elim loaded [
      | err e ↦ pure (err (upper_failed upper e))
      | ok d ↦
          if lacks_handles nfs_filehandles (apply_permissions xattr_permissions d)
          then pure (err no_handles_upper)
          else load_lowers nfs_filehandles dirs
              (upper_first (apply_permissions xattr_permissions d) ∷ [])
    ]

  unfoldable pub init_layers : Bytes → Option Bytes → ℕ → ℕ → Action W Layers
  init_layers lowerdir none nfs_filehandles xattr_permissions =
      load_lowers nfs_filehandles (parse_lowerdir lowerdir) []
  init_layers lowerdir (some upper) nfs_filehandles xattr_permissions =
      with_upper nfs_filehandles xattr_permissions upper (parse_lowerdir lowerdir)
