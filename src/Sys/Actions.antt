-- ===== src/Sys/Actions.antt =====
-- A step of the program that calls the kernel: it may fail with an errno, and the state comes back
-- after a failure too, since what was written stays written.
use fuse_overlayfs.Base.{ℕ, ok, err, FsResult}

abbrev pub Action : Type 0 → Type 0 → Type 0
Action S A = S → FsResult A × S

module _ {S A : Type 0} where
  abbrev pub pure : A → Action S A
  pure a s = (ok a, s)

  abbrev pub raise : ℕ → Action S A
  raise e s = (err e, s)

  -- A result that is at hand: the operator `?` on it.
  abbrev pub lift : FsResult A → Action S A
  lift r s = (r, s)

  abbrev pub gets : (S → A) → Action S A
  gets f s = (ok (f s), s)

  -- A call whose failure is looked at by the caller.
  unfoldable pub attempt : Action S A → Action S (FsResult A)
  attempt m s = let (r, s') = m s in (ok r, s')

  -- `let _ = …`
  unfoldable pub ignore : Action S A → Action S (Unit {0})
  ignore m s = let (r, s') = m s in (ok tt, s')

infixl 5 ◌>>=◌ ◌>>◌
unfoldable pub ◌>>=◌ : {S A B : Type 0} → Action S A → (A → Action S B) → Action S B
◌>>=◌ m f s = let (r, s') = m s in elim r [ err e ↦ (err e, s') | ok a ↦ f a s' ]

abbrev pub ◌>>◌ : {S A B : Type 0} → Action S A → Action S B → Action S B
m >> k = m >>= λ _. k

-- A step on a part of the state.
unfoldable pub within : {S T A : Type 0} → (S → T) → (T → S → S) → Action T A → Action S A
within part put m s = let (r, t) = m (part s) in (r, put t s)
