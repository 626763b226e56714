-- ===== src/Sys/Rules.antt =====
-- What a step of Sys/Actions.antt ensures, with one rule for each way to build a step.
use fuse_overlayfs.Base.{ℕ, Bool, true, false, ◌≡◌, refl, ok, err, FsResult, if◌then◌else◌}
use fuse_overlayfs.Sys.Actions.{Action, pure, raise, lift, gets, attempt, ignore, ◌>>=◌, within}

-- What holds at the end: `Q` after a success, `E` after a failure.
abbrev pub Ended : {S A : Type 0} → (A → S → Type 0) → (S → Type 0) → FsResult A × S → Type 0
Ended Q E (ok a, s) = Q a s
Ended Q E (err e, s) = E s

-- From a state with `P`.
pub record Ensures {S A : Type 0} (P : S → Type 0) (m : Action S A) (Q : A → S → Type 0)
    (E : S → Type 0) : Type 0 where
  pub at : (s : S) → P s → Ended Q E (m s)

-- `P` holds before and after, also after a failure.
abbrev pub Keeps : {S A : Type 0} → (S → Type 0) → Action S A → Type 0
Keeps {S} {A} P m = Ensures P m (λ (a : A) (s : S). P s) P

module _ {S A : Type 0} where
  ended_state : (P : S → Type 0) (r : FsResult A × S) → Ended (λ (a : A) (s : S). P s) P r → P r.1
  ended_state P (ok a, s) h = h
  ended_state P (err e, s) h = h

  pub Keeps-state : {P : S → Type 0} {m : Action S A} → Keeps P m → (s : S) → P s → P (m s).1
  Keeps-state {P = P} {m = m} k s h = ended_state P (m s) (k.at s h)

  Ended-weaken :
      {Q Q' : A → S → Type 0} {E E' : S → Type 0}
      → ((a : A) (s : S) → Q a s → Q' a s)
      → ((s : S) → E s → E' s)
      → (r : FsResult A × S) → Ended Q E r
      → Ended Q' E' r
  Ended-weaken f g (ok a, s) h = f a s h
  Ended-weaken f g (err e, s) h = g s h

  pub Ensures-weaken :
      {P : S → Type 0} {Q Q' : A → S → Type 0} {E E' : S → Type 0} {m : Action S A}
      → Ensures P m Q E
      → ((a : A) (s : S) → Q a s → Q' a s)
      → ((s : S) → E s → E' s)
      → Ensures P m Q' E'
  Ensures-weaken {m = m} k f g = record { at = λ s h. Ended-weaken f g (m s) (k.at s h) }

  -- A stronger condition before.
  pub Ensures-given :
      {P P' : S → Type 0} {Q : A → S → Type 0} {E : S → Type 0} {m : Action S A}
      → Ensures P m Q E
      → ((s : S) → P' s → P s)
      → Ensures P' m Q E
  Ensures-given k f = record { at = λ s h. k.at s (f s h) }

  pub Keeps-pure : {P : S → Type 0} (a : A) → Keeps P (pure {S = S} a)
  Keeps-pure a = record { at = λ s h. h }

  pub Keeps-raise : {P : S → Type 0} (e : ℕ) → Keeps P (raise {S = S} {A = A} e)
  Keeps-raise e = record { at = λ s h. h }

  pub Ensures-raise :
      {P : S → Type 0} {Q : A → S → Type 0} (e : ℕ) → Ensures P (raise {S = S} {A = A} e) Q P
  Ensures-raise e = record { at = λ s h. h }

  pub Ensures-lift :
      {P : S → Type 0} (r : FsResult A)
      → Ensures P (lift {S = S} r) (λ (a : A) (s : S). P s × (r ≡ ok a)) P
  Ensures-lift (ok a) = record { at = λ s h. (h, refl) }
  Ensures-lift (err e) = record { at = λ s h. h }

  pub Keeps-lift : {P : S → Type 0} (r : FsResult A) → Keeps P (lift {S = S} r)
  Keeps-lift (ok a) = record { at = λ s h. h }
  Keeps-lift (err e) = record { at = λ s h. h }

  pub Keeps-gets : {P : S → Type 0} (f : S → A) → Keeps P (gets f)
  Keeps-gets f = record { at = λ s h. h }

  pub Keeps-ignore : {P : S → Type 0} {m : Action S A} → Keeps P m → Keeps P (ignore m)
  unfolding ignore
  Keeps-ignore {m = m} k = record { at = λ s h. Keeps-state k s h }

  pub Keeps-attempt : {P : S → Type 0} {m : Action S A} → Keeps P m → Keeps P (attempt m)
  unfolding attempt
  Keeps-attempt {m = m} k = record { at = λ s h. Keeps-state k s h }

  pub Ensures-if :
      {P : S → Type 0} {Q : A → S → Type 0} {E : S → Type 0} (b : Bool) {m n : Action S A}
      → (b ≡ true → Ensures P m Q E)
      → (b ≡ false → Ensures P n Q E)
      → Ensures P (if b then m else n) Q E
  Ensures-if true h k = h refl
  Ensures-if false h k = k refl

-- A step on a part that `P` does not speak of.
pub Keeps-within :
    {S T A : Type 0} {P : S → Type 0} (part : S → T) (put : T → S → S)
    → ((t : T) (s : S) → P s → P (put t s))
    → (m : Action T A) → Keeps P (within part put m)
unfolding within
Keeps-within {S} {T} {A} {P} part put keep m = record { at = λ s h. go s (m (part s)) h }
  where
    go : (s : S) (r : FsResult A × T) → P s → Ended (λ (a : A) (s : S). P s) P (r.0, put r.1 s)
    go s (ok a, t) h = keep t s h
    go s (err e, t) h = keep t s h

module _ {S A B : Type 0} where
  bind-Ended :
      {Q : A → S → Type 0} {R : B → S → Type 0} {E : S → Type 0} (f : A → Action S B)
      → ((a : A) → Ensures (Q a) (f a) R E)
      → (r : FsResult A × S) → Ended Q E r
      → Ended R E (elim r.0 [ err e ↦ (err e, r.1) | ok a ↦ f a r.1 ])
  bind-Ended f k (ok a, s) h = (k a).at s h
  bind-Ended f k (err e, s) h = h

  pub Ensures-bind :
      {P : S → Type 0} {Q : A → S → Type 0} {R : B → S → Type 0} {E : S → Type 0} {m : Action S A}
      {f : A → Action S B}
      → Ensures P m Q E
      → ((a : A) → Ensures (Q a) (f a) R E)
      → Ensures P (m >>= f) R E
  unfolding ◌>>=◌
  Ensures-bind {m = m} {f = f} k l = record { at = λ s h. bind-Ended f l (m s) (k.at s h) }

  pub Keeps-bind :
      {P : S → Type 0} {m : Action S A} {f : A → Action S B}
      → Keeps P m
      → ((a : A) → Keeps P (f a))
      → Keeps P (m >>= f)
  Keeps-bind k l = Ensures-bind k l
