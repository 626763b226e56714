-- ===== src/Layer.antt =====
-- src/layer.rs: the layers of the overlay, the upper one first if there is one.
pub mod Init
use fuse_overlayfs.Base.{Bool, true, List, [], ◌∷◌, ◌==◌, all}
use fuse_overlayfs.Datasource.{DataSource}

pub record OvlLayer : Type 0 where
  pub ds : DataSource
  pub low : Bool

unfoldable pub all_same_device : List OvlLayer → Bool
all_same_device [] = true
all_same_device (first ∷ rest) = all (λ l. l.ds.st_dev == first.ds.st_dev) (first ∷ rest)
