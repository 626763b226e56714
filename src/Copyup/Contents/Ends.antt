-- ===== src/Copyup/Contents/Ends.antt =====
-- The loops of `copy_data` end where the kernel makes progress.
use fuse_overlayfs.Base.{
  ℕ, zero, suc, ◌+◌, ◌-◌, ◌^◌, ◌≤◌, ◌<◌, ◌≡◌, refl, ap, ◌∙◌, Bool, true, false, [], ◌∷◌, ok, err,
  FsResult, ◌==◌, ltb, ==_iff, arith, length, drop, is_ok, Bool_both, if_both,
}
use fuse_overlayfs.Datasource.{Bytes}
use fuse_overlayfs.Sys.{Sys, eintr}
use fuse_overlayfs.Sys.Actions.{Action, pure, attempt, ◌>>=◌, ◌>>◌}
use fuse_overlayfs.Copyup.Contents.{
  out_of_fuel, send_loop, write_all, read_loop, after_send, copy_data,
}

-- What is asked of the kernel, by a number `left` for what is still to come: the bytes of the source
-- that are not read yet, and the interruptions. A call of `read` or `sendfile` that moves bytes or is
-- interrupted lowers it, and the others do not raise it. A `read` gives no more than the buffer
-- holds, and a `write` of some bytes writes at least one. An errno is an `i32`.
pub record MakesProgress {W : Type 0} (sys : Sys W) (left : W → ℕ) : Type 0 where
  pub clone_left : (d s : ℕ) (w : W) → left (sys.ficlone d s w).1 ≤ left w
  pub send_left : (d s n : ℕ) (w : W) → left (sys.sendfile d s n w).1 ≤ left w
  pub send_moves :
      (d s n k : ℕ) (w : W)
      → (sys.sendfile d s n w).0 ≡ ok k
      → (k == 0) ≡ false
      → left (sys.sendfile d s n w).1 < left w
  pub send_interrupted :
      (d s n : ℕ) (w : W)
      → (sys.sendfile d s n w).0 ≡ err eintr
      → left (sys.sendfile d s n w).1 < left w
  pub read_moves :
      (s n c : ℕ) (buf : Bytes) (w : W)
      → (sys.read s n w).0 ≡ ok (c ∷ buf)
      → (left (sys.read s n w).1 < left w) × (length (c ∷ buf) ≤ n)
  pub read_left : (s n : ℕ) (w : W) → left (sys.read s n w).1 ≤ left w
  pub write_moves : (d c k : ℕ) (buf : Bytes) (w : W) → (sys.write d (c ∷ buf) w).0 ≡ ok k → 0 < k
  pub write_left : (d : ℕ) (buf : Bytes) (w : W) → left (sys.write d buf w).1 ≤ left w
  pub read_errno : (s n e : ℕ) (w : W) → (sys.read s n w).0 ≡ err e → e < out_of_fuel
  pub write_errno :
      (d e : ℕ) (buf : Bytes) (w : W) → (sys.write d buf w).0 ≡ err e → e < out_of_fuel

module _ {W : Type 0} (left : W → ℕ) where
  -- The step ended, by a result or by an error of the kernel, and `left` is at most the bound.
  abbrev pub Ends : {A : Type 0} → ℕ → FsResult A × W → Type 0
  Ends bound (ok a, w) = left w ≤ bound
  Ends bound (err e, w) = e < out_of_fuel

  Ends-mono : {A : Type 0} (b c : ℕ) (r : FsResult A × W) → b ≤ c → Ends b r → Ends c r
  Ends-mono b c (ok a, w) h k = omega arith
  Ends-mono b c (err e, w) h k = k

  Ends-ok : {A : Type 0} (b : ℕ) (r : FsResult A × W) (a : A) → Ends b r → r.0 ≡ ok a → left r.1 ≤ b
  Ends-ok b (ok a, w) a' h e = h
  Ends-ok b (err e', w) a' h e = cc

  Ends-err :
      {A : Type 0} (b : ℕ) (r : FsResult A × W) (e : ℕ) → Ends b r → r.0 ≡ err e → e < out_of_fuel
  Ends-err b (ok a, w) e h eq = cc
  Ends-err b (err e', w) e h eq = let same : e' ≡ e = cc in omega arith

  Ends-bind :
      {A B : Type 0} (b : ℕ) (m : Action W A) (f : A → Action W B) (w : W)
      → ((e : ℕ) → (m w).0 ≡ err e → e < out_of_fuel)
      → ((a : A) → (m w).0 ≡ ok a → Ends b (f a (m w).1))
      → Ends b ((m >>= f) w)
  unfolding ◌>>=◌
  Ends-bind {A} {B} b m f w h k = go (m w) h k
    where
      go :
          (r : FsResult A × W)
          → ((e : ℕ) → r.0 ≡ err e → e < out_of_fuel)
          → ((a : A) → r.0 ≡ ok a → Ends b (f a r.1))
          → Ends {A = B} b
              (elim r.0 as (λ x. FsResult B × W) [ err e ↦ (err e, r.1) | ok a ↦ f a r.1 ])
      go (err e, w') h k = h e refl
      go (ok a, w') h k = k a refl

length-drop : (n c : ℕ) (buf : Bytes) → 0 < n → length (drop n (c ∷ buf)) ≤ length buf
length-drop zero c buf h = absurd (omega arith)
length-drop (suc n) c buf h = length-drop_le n buf
  where
    length-drop_le : (n : ℕ) (buf : Bytes) → length (drop n buf) ≤ length buf
    length-drop_le zero buf = omega arith
    length-drop_le (suc n) [] = omega arith
    length-drop_le (suc n) (c ∷ buf) = omega (arith, length-drop_le n buf)

module _ {W : Type 0} {sys : Sys W} {left : W → ℕ} (p : MakesProgress sys left) where
  write_all-Ends :
      (fuel dfd : ℕ) (buf : Bytes) (w : W)
      → length buf ≤ fuel
      → Ends left (left w) (write_all sys fuel dfd buf w)
  unfolding write_all
  write_all-Ends fuel dfd [] w h = omega arith
  write_all-Ends zero dfd (c ∷ buf) w h = absurd (omega arith)
  write_all-Ends (suc fuel) dfd (c ∷ buf) w h =
      Ends-bind left (left w) (sys.write dfd (c ∷ buf))
        (λ n. write_all sys fuel dfd (drop n (c ∷ buf))) w
        (λ e eq. p.write_errno dfd e (c ∷ buf) w eq)
        λ n eq.
          let w' = (sys.write dfd (c ∷ buf) w).1 in
          let shorter = length-drop n c buf (p.write_moves dfd c n buf w eq) in
          Ends-mono left (left w') (left w) _ (p.write_left dfd (c ∷ buf) w)
            (write_all-Ends fuel dfd (drop n (c ∷ buf)) w' (omega (arith, shorter)))

  after_read :
      (rounds fuel sfd dfd : ℕ) (w : W) (bytes : Bytes)
      → 2 ^ 20 ≤ rounds
      → left w < suc fuel
      → (sys.read sfd (2 ^ 20) w).0 ≡ ok bytes
      → ((w : W) → left w < fuel → Ends left (left w) (read_loop sys rounds fuel sfd dfd w))
      → Ends left (left w) (
          elim bytes as (λ b. Action W (Unit {0})) [
            | [] ↦ pure tt
            | c ∷ buf ↦ write_all sys rounds dfd (c ∷ buf) >> read_loop sys rounds fuel sfd dfd
          ]
            (sys.read sfd (2 ^ 20) w).1)
  after_read rounds fuel sfd dfd w [] big h eq ih = p.read_left sfd (2 ^ 20) w
  after_read rounds fuel sfd dfd w (c ∷ buf) big h eq ih =
      let w' = (sys.read sfd (2 ^ 20) w).1 in
      let moved = p.read_moves sfd (2 ^ 20) c buf w eq in
      let written = write_all-Ends rounds dfd (c ∷ buf) w' (omega (arith, moved.1)) in
      Ends-bind left (left w) (write_all sys rounds dfd (c ∷ buf))
        (λ u. read_loop sys rounds fuel sfd dfd) w'
        (λ e eq'. Ends-err left (left w') (write_all sys rounds dfd (c ∷ buf) w') e written eq')
        λ u eq'.
          let w'' = (write_all sys rounds dfd (c ∷ buf) w').1 in
          let less = Ends-ok left (left w') (write_all sys rounds dfd (c ∷ buf) w') u written eq' in
          Ends-mono left (left w'') (left w) _ (omega (arith, moved.0, less))
            (ih w'' (omega (arith, moved.0, less)))

  read_loop-Ends :
      (rounds fuel sfd dfd : ℕ) (w : W)
      → 2 ^ 20 ≤ rounds
      → left w < fuel
      → Ends left (left w) (read_loop sys rounds fuel sfd dfd w)
  unfolding read_loop
  read_loop-Ends rounds zero sfd dfd w big h = absurd (omega arith)
  read_loop-Ends rounds (suc fuel) sfd dfd w big h =
      Ends-bind left (left w) (sys.read sfd (2 ^ 20)) _ w (λ e eq. p.read_errno sfd (2 ^ 20) e w eq)
        λ bytes eq.
          after_read rounds fuel sfd dfd w bytes big h eq
            (λ w'. read_loop-Ends rounds fuel sfd dfd w' big)

  after_sendfile :
      (fuel sfd dfd size copied : ℕ) (w : W) (sent : FsResult ℕ)
      → left w < suc fuel
      → (sys.sendfile dfd sfd (size - copied) w).0 ≡ sent
      → ((copied : ℕ) (w : W)
          → left w < fuel
          → Ends left (left w) (send_loop sys fuel sfd dfd size copied w))
      → Ends left (left w) (
          elim sent as (λ r. Action W Bool) [
            | err e ↦ elim (e == eintr) as (λ b. Action W Bool) [
              | true ↦ send_loop sys fuel sfd dfd size copied
              | false ↦ pure false
            ]
            | ok n ↦ elim (n == 0) as (λ b. Action W Bool) [
              | true ↦ pure true
              | false ↦ send_loop sys fuel sfd dfd size (copied + n)
            ]
          ]
            (sys.sendfile dfd sfd (size - copied) w).1)
  after_sendfile fuel sfd dfd size copied w (err e) h eq ih =
      let w' = (sys.sendfile dfd sfd (size - copied) w).1 in
      Bool_both (λ (m : Action W Bool). Ends left (left w) (m w')) (e == eintr)
        (λ is_eintr.
          let less =
            p.send_interrupted dfd sfd (size - copied) w
              (eq ∙ ap err ((==_iff e eintr).0 is_eintr)) in
          Ends-mono left (left w') (left w) _ (omega (arith, less))
            (ih copied w' (omega (arith, less))))
        λ other. p.send_left dfd sfd (size - copied) w
  after_sendfile fuel sfd dfd size copied w (ok n) h eq ih =
      let w' = (sys.sendfile dfd sfd (size - copied) w).1 in
      Bool_both (λ (m : Action W Bool). Ends left (left w) (m w')) (n == 0)
        (λ at_end. p.send_left dfd sfd (size - copied) w)
        λ more.
          let less = p.send_moves dfd sfd (size - copied) n w eq more in
          Ends-mono left (left w') (left w) _ (omega (arith, less))
            (ih (copied + n) w' (omega (arith, less)))

  send_loop-Ends :
      (fuel sfd dfd size copied : ℕ) (w : W)
      → left w < fuel
      → Ends left (left w) (send_loop sys fuel sfd dfd size copied w)
  unfolding send_loop ◌>>=◌ attempt
  send_loop-Ends zero sfd dfd size copied w h = absurd (omega arith)
  send_loop-Ends (suc fuel) sfd dfd size copied w h =
      Bool_both (λ (m : Action W Bool). Ends left (left w) (m w)) (ltb copied size)
        (λ e. after_sendfile fuel sfd dfd size copied w _ h refl (send_loop-Ends fuel sfd dfd size))
        λ e. omega arith

  after_send-Ends :
      (rounds sfd dfd : ℕ) (complete : Bool) (w : W)
      → 2 ^ 20 ≤ rounds
      → left w < rounds
      → Ends left (left w) (after_send sys rounds sfd dfd complete w)
  after_send-Ends rounds sfd dfd true w big h = omega arith
  after_send-Ends rounds sfd dfd false w big h = read_loop-Ends rounds rounds sfd dfd w big h

  send_then_read :
      (rounds sfd dfd size : ℕ) (w : W)
      → 2 ^ 20 ≤ rounds
      → left w < rounds
      → Ends left (left w) (
          (send_loop sys rounds sfd dfd size 0 >>= λ complete.
          after_send sys rounds sfd dfd complete)
            w)
  send_then_read rounds sfd dfd size w big h =
      let sent = send_loop-Ends rounds sfd dfd size 0 w h in
      Ends-bind left (left w) (send_loop sys rounds sfd dfd size 0) (after_send sys rounds sfd dfd)
        w (λ e eq. Ends-err left (left w) (send_loop sys rounds sfd dfd size 0 w) e sent eq)
        λ complete eq.
          let w' = (send_loop sys rounds sfd dfd size 0 w).1 in
          let less =
            Ends-ok left (left w) (send_loop sys rounds sfd dfd size 0 w) complete sent eq in
          Ends-mono left (left w') (left w) _ (omega (arith, less))
            (after_send-Ends rounds sfd dfd complete w' big (omega (arith, less)))

  -- Where the kernel makes progress, `copy_data` ends: with more rounds than `left` is, and no fewer
  -- than the bytes of its buffer, it ends by a success or by an errno of the kernel and never for
  -- want of rounds, and `left` is not raised by a success.
  pub copy_data-Ends :
      (rounds sfd dfd size : ℕ) (w : W)
      → 2 ^ 20 ≤ rounds
      → left w < rounds
      → Ends left (left w) (copy_data sys rounds sfd dfd size w)
  unfolding copy_data ◌>>=◌ attempt
  copy_data-Ends rounds sfd dfd size w big h =
      let w' = (sys.ficlone dfd sfd w).1 in
      let less = p.clone_left dfd sfd w in
      if_both (λ (m : Action W (Unit {0})). Ends left (left w) (m w'))
        (is_ok (sys.ficlone dfd sfd w).0) (λ e. less)
        λ e.
          Ends-mono left (left w') (left w) _ less
            (send_then_read rounds sfd dfd size w' big (omega (arith, less)))
