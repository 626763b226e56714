-- ===== src/Node/Path/Depth.antt =====
-- The walk to the root passes each node once, so an arena of n nodes is walked in n steps.
use fuse_overlayfs.Base.{
  suc, ◌<◌, ◌≡◌, ◌≢◌, refl, sym, ap, ◌∙◌, is_some, Option, none, some, List, [], ◌∷◌, arith, length,
  nat_key, some, true,
}
use fuse_overlayfs.Base.Map
use fuse_overlayfs.Base.Map.{Map, get-remove, length-remove}
use mathlib.Core.Path.{subst}
use fuse_overlayfs.Datasource.{Bytes}
use fuse_overlayfs.Node.{NodeId, OvlNode}

abbrev pub Nodes : Type 0
Nodes = Map NodeId OvlNode

-- The node lies below the root under these names, its own name first and the topmost one last.
abbrev pub IsAt : Nodes → NodeId → List Bytes → Type 0
IsAt m id [] = (n : OvlNode) × (Map.get id m ≡ some n) × (n.parent ≡ none)
IsAt m id (x ∷ xs) =
    (n : OvlNode) × (p : NodeId) × (Map.get id m ≡ some n)
    × (n.parent ≡ some p)
    × (n.name ≡ x)
    × IsAt m p xs

-- A node has one depth.
IsAt-length :
    (m : Nodes) (id : NodeId) (xs ys : List Bytes)
    → IsAt m id xs
    → IsAt m id ys
    → length xs ≡ length ys
IsAt-length m id [] [] h k = refl
IsAt-length m id [] (y ∷ ys) h k = cc
IsAt-length m id (x ∷ xs) [] h k = cc
IsAt-length m id (x ∷ xs) (y ∷ ys) h k =
    let same_parent : k.1 ≡ h.1 = cc in
    ap suc (IsAt-length m h.1 xs ys h.5 (subst (λ p. IsAt m p ys) same_parent k.5))

-- A node that is at least as deep is not passed on the way up, so it can be removed.
get-remove_ne : (m : Nodes) (x id : NodeId) → x ≢ id → Map.get id (Map.remove x m) ≡ Map.get id m
get-remove_ne m x id h = get-remove x id m ∙ ground arith

IsAt-remove :
    (m : Nodes) (x id : NodeId) (zs xs : List Bytes)
    → IsAt m x zs
    → IsAt m id xs
    → length xs < length zs
    → IsAt (Map.remove x m) id xs
IsAt-remove m x id zs [] at h lt =
    let apart : x ≢ id = λ e. not_shallow e in (h.0, get-remove_ne m x id apart ∙ h.1, h.2)
  where
    not_shallow : x ≡ id → ⊥
    not_shallow e =
        absurd (omega (arith, IsAt-length m x zs [] at (subst (λ i. IsAt m i []) (sym e) h)))
IsAt-remove m x id zs (y ∷ xs) at h lt =
    let apart : x ≢ id = λ e. not_shallow e in
    (
      h.0,
      h.1,
      get-remove_ne m x id apart ∙ h.2,
      h.3,
      h.4,
      IsAt-remove m x h.1 zs xs at h.5 (omega arith),
    )
  where
    not_shallow : x ≡ id → ⊥
    not_shallow e =
        absurd
          (omega (arith, IsAt-length m x zs (y ∷ xs) at (subst (λ i. IsAt m i (y ∷ xs)) (sym e) h)))

some-contains {ℓ} : {A : Type ℓ} (o : Option A) (a : A) → o ≡ some a → is_some o ≡ true
some-contains o a e = rw e

-- The depth of a node is below the number of nodes.
pub IsAt-depth : (m : Nodes) (id : NodeId) (xs : List Bytes) → IsAt m id xs → length xs < length m
IsAt-depth m id [] h = omega (arith, length-remove id m (some-contains (Map.get id m) h.0 h.1))
IsAt-depth m id (x ∷ xs) h = omega (
  arith,
  length-remove id m (some-contains (Map.get id m) h.0 h.2),
  IsAt-depth (Map.remove id m) h.1 xs (IsAt-remove m id h.1 (x ∷ xs) xs h h.5 (omega arith)),
)
