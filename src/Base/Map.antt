-- ===== src/Base/Map.antt =====
-- A `HashMap` as an association list: `insert` replaces an entry or adds it, `remove` drops it.
-- The order of the entries stands for the map's order of iteration.
use fuse_overlayfs.Base.Tests.{if◌then◌else◌, is_some}
use fuse_overlayfs.Base.Lists.{length}
use fuse_overlayfs.Base.Keys.{Key, same}
use Prim.Native.Nat.{◌≤◌, ◌<◌}
use mathlib.Core.Path.{◌≡◌, refl}
use mathlib.Core.Bool.{Bool, true}
use mathlib.Core.List.{List, [], ◌∷◌}
use mathlib.Core.Option.{Option, none, some}
use native.Mathlib.Omega.{arith}

abbrev pub Map {ℓ κ} : Type ℓ → Type κ → Type (ℓ ⊔ κ)
Map K V = List (K × V)

module _ {ℓ κ} {K : Type ℓ} {V : Type κ} ⦃k : Key K⦄ where
  unfoldable pub get : K → Map K V → Option V
  get a [] = none
  get a ((b, v) ∷ m) = if same b a then some v else get a m

  unfoldable pub insert : K → V → Map K V → Map K V
  insert a v [] = (a, v) ∷ []
  insert a v ((b, w) ∷ m) =
      let rest = insert a v m in if same b a then (b, v) ∷ m else (b, w) ∷ rest

  unfoldable pub remove : K → Map K V → Map K V
  remove a [] = []
  remove a ((b, w) ∷ m) = let rest = remove a m in if same b a then rest else (b, w) ∷ rest

  abbrev pub contains_key : K → Map K V → Bool
  contains_key a m = is_some (get a m)

  pub get-insert :
      (a b : K) (v : V) (m : Map K V)
      → get b (insert a v m) ≡ (if same a b then some v else get b m)
  unfolding get insert
  get-insert a b v [] = refl
  get-insert a b v ((c, w) ∷ m) =
      ground (arith, get-insert a b v m, k.same_iff c a, k.same_iff c b, k.same_iff a b)

  pub get-remove :
      (a b : K) (m : Map K V) → get b (remove a m) ≡ (if same a b then none else get b m)
  unfolding get remove
  get-remove a b [] = ground arith
  get-remove a b ((c, w) ∷ m) =
      ground (arith, get-remove a b m, k.same_iff c a, k.same_iff c b, k.same_iff a b)

  pub length-remove-le : (a : K) (m : Map K V) → length (remove a m) ≤ length m
  unfolding remove
  length-remove-le a [] = omega arith
  length-remove-le a ((c, w) ∷ m) = ground (arith, length-remove-le a m)

  pub length-remove :
      (a : K) (m : Map K V) → contains_key a m ≡ true → length (remove a m) < length m
  unfolding get remove
  length-remove a [] h = ground arith
  length-remove a ((c, w) ∷ m) h = ground (arith, length-remove a m, length-remove-le a m)
