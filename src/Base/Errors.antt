-- ===== src/Base/Errors.antt =====
-- src/error.rs: `FsError` wraps an errno value, and `FsResult` is the result of every fallible step.
-- The errno numbers are those of Linux.
use Prim.Native.Nat.{ℕ}
use mathlib.Core.Option.{Option, none, some}
use mathlib.Core.Bool.{Bool, true, false}

pub data Result {ℓ} (E : Type 0) (A : Type ℓ) : Type ℓ where
  ok : A → Result E A
  err : E → Result E A

abbrev pub FsResult {ℓ} : Type ℓ → Type ℓ
FsResult A = Result ℕ A

infixl 5 ◌>>=◌ ◌>>◌
abbrev pub ◌>>=◌ {ℓ κ} :
    {E : Type 0} {A : Type ℓ} {B : Type κ} → Result E A → (A → Result E B) → Result E B
ok a >>= f = f a
err e >>= f = err e

abbrev pub ◌>>◌ {ℓ} : {E : Type 0} {B : Type ℓ} → Result E (Unit {0}) → Result E B → Result E B
m >> k = m >>= λ _. k

-- `ok_or`
abbrev pub ok_or {ℓ} : {E : Type 0} {A : Type ℓ} → Option A → E → Result E A
ok_or none e = err e
ok_or (some a) e = ok a

abbrev pub is_ok {ℓ} : {E : Type 0} {A : Type ℓ} → Result E A → Bool
is_ok (ok a) = true
is_ok (err e) = false

abbrev pub eperm : ℕ
eperm = 1

abbrev pub enoent : ℕ
enoent = 2

abbrev pub eacces : ℕ
eacces = 13

abbrev pub eexist : ℕ
eexist = 17

abbrev pub enotdir : ℕ
enotdir = 20

abbrev pub einval : ℕ
einval = 22

abbrev pub erofs : ℕ
erofs = 30

abbrev pub enotempty : ℕ
enotempty = 39

abbrev pub enodata : ℕ
enodata = 61

abbrev pub enotsup : ℕ
enotsup = 95

abbrev pub eio : ℕ
eio = 5

abbrev pub enomem : ℕ
enomem = 12

-- What holds of both cases holds of the match on a computed result.
pub result_both {ℓ κ τ} :
    {A : Type ℓ} {B : Type κ} (P : B → Type τ) (r : FsResult A) {f : ℕ → B} {g : A → B}
    → ((e : ℕ) → P (f e))
    → ((a : A) → P (g a))
    → P (elim r [ err e ↦ f e | ok a ↦ g a ])
result_both P (ok a) h k = k a
result_both P (err e) h k = h e
