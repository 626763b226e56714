-- ===== src/Base/Keys.antt =====
-- Keys of maps and sets: a Boolean test that decides equality.
use Prim.Native.Nat.{ℕ}
use mathlib.Core.Path.{◌≡◌, refl}
use mathlib.Core.Logic.{◌↔◌}
use mathlib.Core.Bool.{Bool, true, false, ◌&&◌, ◌||◌}
use mathlib.Core.List.{List, [], ◌∷◌, ◌++◌}
use native.Mathlib.Omega.{arith}
use fuse_overlayfs.Base.Tests.{◌==◌, ==_iff}
use fuse_overlayfs.Base.Lists.{length, drop}

pub record Key {ℓ} (K : Type ℓ) : Type ℓ where
  pub same : K → K → Bool
  pub same_iff : (a b : K) → (same a b ≡ true) ↔ (a ≡ b)

abbrev pub same {ℓ} : {K : Type ℓ} ⦃k : Key K⦄ → K → K → Bool
same ⦃k⦄ = k.same

-- `==` of byte strings.
unfoldable pub bytes_eq : List ℕ → List ℕ → Bool
bytes_eq [] [] = true
bytes_eq [] (y ∷ ys) = false
bytes_eq (x ∷ xs) [] = false
bytes_eq (x ∷ xs) (y ∷ ys) = x == y && bytes_eq xs ys

pub bytes_eq_iff : (xs ys : List ℕ) → (bytes_eq xs ys ≡ true) ↔ (xs ≡ ys)
unfolding bytes_eq
bytes_eq_iff [] [] = ground arith
bytes_eq_iff [] (y ∷ ys) = ground arith
bytes_eq_iff (x ∷ xs) [] = ground arith
bytes_eq_iff (x ∷ xs) (y ∷ ys) = ground (arith, bytes_eq_iff xs ys)

pub bytes_eq_refl : (xs : List ℕ) → bytes_eq xs xs ≡ true
bytes_eq_refl xs = (bytes_eq_iff xs xs).1 refl

instance abbrev pub nat_key : Key ℕ
nat_key = record { same = ◌==◌; same_iff = ==_iff }

instance abbrev pub bytes_key : Key (List ℕ)
bytes_key = record { same = bytes_eq; same_iff = bytes_eq_iff }

-- `slice::starts_with`
unfoldable pub starts_with : List ℕ → List ℕ → Bool
starts_with xs [] = true
starts_with [] (p ∷ ps) = false
starts_with (x ∷ xs) (p ∷ ps) = x == p && starts_with xs ps

pub starts_with-append : (ps xs : List ℕ) → starts_with (ps ++ xs) ps ≡ true
unfolding starts_with
starts_with-append [] xs = refl
starts_with-append (p ∷ ps) xs = ground (arith, starts_with-append ps xs)

-- A `HashSet`. The order of the list stands for the set's order of iteration, which no theorem
-- relies on.
module _ {ℓ} {K : Type ℓ} ⦃k : Key K⦄ where
  unfoldable pub contains : K → List K → Bool
  contains a [] = false
  contains a (x ∷ xs) = same x a || contains a xs

  unfoldable pub set_insert : K → List K → List K
  set_insert a [] = a ∷ []
  set_insert a (x ∷ xs) = elim (same x a) [ true ↦ x ∷ xs | false ↦ x ∷ set_insert a xs ]

  pub contains-set_insert :
      (a b : K) (xs : List K) → contains b (set_insert a xs) ≡ (same a b || contains b xs)
  unfolding contains set_insert
  contains-set_insert a b [] = refl
  contains-set_insert a b (x ∷ xs) =
      ground (arith, contains-set_insert a b xs, k.same_iff x a, k.same_iff x b, k.same_iff a b)

-- A text that starts with `ps` is `ps` and the rest.
pub starts_with-drop : (xs ps : List ℕ) → starts_with xs ps ≡ true → ps ++ drop (length ps) xs ≡ xs
unfolding starts_with
starts_with-drop xs [] h = refl
starts_with-drop [] (p ∷ ps) h = ground arith
starts_with-drop (x ∷ xs) (p ∷ ps) h = ground (arith, starts_with-drop xs ps)
