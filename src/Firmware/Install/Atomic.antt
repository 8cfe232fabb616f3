-- ===== src/Firmware/Install/Atomic.antt =====
-- gen_fw_dec.c: what is left of the installed files on every way through `main`.
use k180_project.Base.{
  true, subst, length, ◌-◌, if◌then◌else◌, ℕ, suc, min, ◌≡◌, ◌≢◌, refl, sym, ◌∙◌, ap, ◌⊎◌, inl, inr,
  List, [], ◌∷◌, ◌++◌, none, some, take, drop, arith, Bool-cases, take-append-drop,
}
use k180_project.Firmware.{
  Crypto, Decoded, exits, faults, payloads, decode, decode_rest, decode_body, split, hmac_len,
}
use k180_project.Firmware.Install.{
  Write, wrote, write_interrupted, write_failed, Read, got, read_interrupted, read_failed, Copied,
  done, failed, endless, Files, write_all, copy_all, buffer_size, Calls, finish,
  install_file_atomic, Ended, code, Env, restart, install_second, install_both, stage_and_install,
  main, fault,
}

append_assoc : (xs ys zs : List ℕ) → (xs ++ ys) ++ zs ≡ xs ++ (ys ++ zs)
append_assoc [] ys zs = refl
append_assoc (x ∷ xs) ys zs = ap (◌∷◌ x) (append_assoc xs ys zs)

append-nil : (xs : List ℕ) → xs ++ [] ≡ xs
append-nil [] = refl
append-nil (x ∷ xs) = ap (◌∷◌ x) (append-nil xs)

Copied-cases : (s : Copied) → (s ≡ done) ⊎ (s ≡ failed) ⊎ (s ≡ endless)
Copied-cases done = inl refl
Copied-cases failed = inr (inl refl)
Copied-cases endless = inr (inr refl)

-- Where the inner loop is done, it has written the whole piece.
write_all-done :
    (tmp piece : List ℕ) (ws : List Write)
    → (write_all tmp piece ws).1 ≡ done
    → (write_all tmp piece ws).0 ≡ tmp ++ piece
unfolding write_all
write_all-done tmp [] ws h = sym (append-nil tmp)
write_all-done tmp (b ∷ bs) [] h = absurd (ground arith)
write_all-done tmp (b ∷ bs) (write_interrupted ∷ ws) h = write_all-done tmp (b ∷ bs) ws h
write_all-done tmp (b ∷ bs) (write_failed ∷ ws) h = absurd (ground arith)
write_all-done tmp (b ∷ bs) (wrote n ∷ ws) h =
    write_all-done (tmp ++ take n (b ∷ bs)) (drop n (b ∷ bs)) ws h
    ∙ append_assoc tmp (take n (b ∷ bs)) (drop n (b ∷ bs))
    ∙ ap (◌++◌ tmp) (take-append-drop n (b ∷ bs))

-- Where the outer loop is done, it has written the whole source.
copy_all-done :
    (tmp src : List ℕ) (rs : List Read)
    → (copy_all tmp src rs).1 ≡ done
    → (copy_all tmp src rs).0 ≡ tmp ++ src
unfolding copy_all
copy_all-done tmp [] [] h = sym (append-nil tmp)
copy_all-done tmp (b ∷ bs) [] h = absurd (ground arith)
copy_all-done tmp [] (read_interrupted ∷ rs) h = copy_all-done tmp [] rs h
copy_all-done tmp (b ∷ bs) (read_interrupted ∷ rs) h = copy_all-done tmp (b ∷ bs) rs h
copy_all-done tmp [] (read_failed ∷ rs) h = absurd (ground arith)
copy_all-done tmp (b ∷ bs) (read_failed ∷ rs) h = absurd (ground arith)
copy_all-done tmp [] (got n ws ∷ rs) h = sym (append-nil tmp)
copy_all-done tmp (b ∷ bs) (got n ws ∷ rs) h =
    let size = min (suc n) buffer_size in
    let piece = take size (b ∷ bs) in
    let remains = drop size (b ∷ bs) in
    elim (Copied-cases (write_all tmp piece ws).1) [
      | inl e ↦
          rw (e, copy_all)
            (copy_all-done (write_all tmp piece ws).0 remains rs (rw (e, copy_all) at h)
              ∙ ap (λ t. t ++ remains) (write_all-done tmp piece ws e)
              ∙ append_assoc tmp piece remains
              ∙ ap (◌++◌ tmp) (take-append-drop size (b ∷ bs)))
      | inr (inl e) ↦ absurd (ground (arith, e, h))
      | inr (inr e) ↦ absurd (ground (arith, e, h))
    ]

-- An installation that is done has put the source in place of the target, and left no file beside it;
-- one that fails has left the target, and no file beside it unless it could not open one; one that does
-- not end has left the target.
pub record Installs (src : List ℕ) (f : Files) (r : Files × Copied) : Type 0 where
  pub replaced : r.1 ≡ done → (r.0.dst ≡ some src) × (r.0.tmp ≡ none)
  pub kept : r.1 ≢ done → r.0.dst ≡ f.dst
  pub clean : r.1 ≡ failed → (r.0.tmp ≡ none) ⊎ (r.0 ≡ f)

finish-Installs :
    (src : List ℕ) (f : Files) (k : Calls) (tmp : List ℕ)
    → tmp ≡ src
    → Installs src f (finish f k tmp)
unfolding finish
finish-Installs src f k tmp e = ground arith

install-Installs :
    (src : List ℕ) (f : Files) (k : Calls) → Installs src f (install_file_atomic src f k)
unfolding install_file_atomic
install-Installs src f k = elim (Copied-cases (copy_all [] src k.reads).1) [
  | inl e ↦ ground (
    arith,
    e,
    finish-Installs src f k (copy_all [] src k.reads).0 (copy_all-done [] src k.reads e),
  )
  | inr (inl e) ↦ ground (arith, e)
  | inr (inr e) ↦ ground (arith, e)
]

-- Calls under which an installation goes through: none fails, and all of the source is copied.
pub record IsSmooth (src : List ℕ) (k : Calls) : Type 0 where
  pub open_src : k.open_src ≡ true
  pub open_tmp : k.open_tmp ≡ true
  pub copied : (copy_all [] src k.reads).1 ≡ done
  pub fsync_ok : k.fsync_ok ≡ true
  pub close_ok : k.close_ok ≡ true
  pub chmod_ok : k.chmod_ok ≡ true
  pub rename_ok : k.rename_ok ≡ true

install-smooth :
    (src : List ℕ) (f : Files) (k : Calls) → IsSmooth src k → (install_file_atomic src f k).1 ≡ done
unfolding install_file_atomic finish
install-smooth src f k s =
    ground
      (arith, s.open_src, s.open_tmp, s.copied, s.fsync_ok, s.close_ok, s.chmod_ok, s.rename_ok)

-- What is installed of the payloads is as much as reached their staged files. `main` ends with 0 or 8
-- where both are installed; otherwise the second target is kept, and the first is kept or replaced. It ends
-- so where the outputs open and the calls are smooth, with 8 where the restart fails.
pub record Updates (e : Env) (p1 p2 : List ℕ) (f1 f2 : Files) (r : (Files × Files) × Ended)
    : Type 0 where
  pub both :
      (r.1 ≡ code 0) ⊎ (r.1 ≡ code 8)
      → (r.0.0.dst ≡ some (take e.staged1 p1)) × (r.0.1.dst ≡ some (take e.staged2 p2))
  pub second : r.1 ≢ code 0 → r.1 ≢ code 8 → r.0.1.dst ≡ f2.dst
  pub first : (r.0.0.dst ≡ f1.dst) ⊎ (r.0.0.dst ≡ some (take e.staged1 p1))
  pub succeeds :
      e.outputs_open ≡ true
      → IsSmooth (take e.staged1 p1) e.calls1
      → IsSmooth (take e.staged2 p2) e.calls2
      → r.1 ≡ (if e.restart1_ok then code 0 else code 8)

second-Updates :
    (e : Env) (p1 p2 : List ℕ) (f1 f1' f2 : Files)
    → f1'.dst ≡ some (take e.staged1 p1)
    → Updates e p1 p2 f1 f2 (install_second e (take e.staged2 p2) f1' f2)
unfolding install_second restart
second-Updates e p1 p2 f1 f1' f2 h =
    let src = take e.staged2 p2 in
    let i = install-Installs src f2 e.calls2 in
    let smooth = install-smooth src f2 e.calls2 in
    elim (Copied-cases (install_file_atomic src f2 e.calls2).1) [
      | inl c ↦ ground (arith, c, i.replaced, h)
      | inr (inl c) ↦ ground (arith, c, i.kept, h, smooth)
      | inr (inr c) ↦ ground (arith, c, i.kept, h, smooth)
    ]

both-Updates :
    (e : Env) (p1 p2 : List ℕ) (f1 f2 : Files)
    → Updates e p1 p2 f1 f2 (install_both e (take e.staged1 p1) (take e.staged2 p2) f1 f2)
unfolding install_both
both-Updates e p1 p2 f1 f2 =
    let src = take e.staged1 p1 in
    let i = install-Installs src f1 e.calls1 in
    let smooth = install-smooth src f1 e.calls1 in
    elim (Copied-cases (install_file_atomic src f1 e.calls1).1) [
      | inl c ↦
          simp (c, install_both)
            (second-Updates e p1 p2 f1 (install_file_atomic src f1 e.calls1).0 f2 (i.replaced c).0)
      | inr (inl c) ↦ ground (arith, c, i.kept, smooth)
      | inr (inr c) ↦ ground (arith, c, i.kept, smooth)
    ]

stage-Updates :
    (e : Env) (p1 p2 : List ℕ) (f1 f2 : Files)
    → Updates e p1 p2 f1 f2 (stage_and_install e p1 p2 f1 f2)
unfolding stage_and_install
stage-Updates e p1 p2 f1 f2 = elim (Bool-cases e.outputs_open) [
  | inr o ↦ ground (arith, o)
  | inl o ↦ simp (o, stage_and_install) (both-Updates e p1 p2 f1 f2)
]

Decoded-cases :
    (d : Decoded)
    → ((n : ℕ) × (d ≡ exits n)) ⊎ (d ≡ faults) ⊎ ((p1 p2 : List ℕ) × (d ≡ payloads p1 p2))
Decoded-cases (exits n) = inl (n, refl)
Decoded-cases faults = inr (inl refl)
Decoded-cases (payloads p1 p2) = inr (inr (p1, p2, refl))

-- A container that is not taken makes `main` exit with a code that is not 0.
abbrev IsRefused : Decoded → Type 0
IsRefused (exits n) = n ≢ 0
IsRefused faults = Unit {0}
IsRefused (payloads p1 p2) = Unit {0}

module _ (c : Crypto) where
  body-IsRefused :
      (iv : List ℕ) (len1 len2 : ℕ) (cipher mac : List ℕ)
      → IsRefused (decode_body c iv len1 len2 cipher mac)
  unfolding decode_body split
  body-IsRefused iv len1 len2 cipher mac = ground arith

  rest-IsRefused :
      (iv : List ℕ) (len1 len2 : ℕ) (rest : List ℕ) → IsRefused (decode_rest c iv len1 len2 rest)
  unfolding decode_rest
  rest-IsRefused iv len1 len2 rest =
      let n = length rest - hmac_len in
      ground (arith, body-IsRefused iv len1 len2 (take n rest) (drop n rest))

  decode-IsRefused : (file : List ℕ) → IsRefused (decode c file)
  unfolding decode
  decode-IsRefused file = grind (arith, rest-IsRefused)

-- Whatever the container holds and the system calls answer, one of three. The container is not taken: `main`
-- exits with a code other than 0, and no file changes. Reading it is undefined behaviour. Or it holds two
-- payloads: `main` ends with 0 or 8 and each target holds as much of its payload as reached its staged file,
-- or the second target is kept, and the first is kept or holds as much of its payload as reached its staged
-- file. Where the outputs open, all of the staged files is copied and no call of the installation fails,
-- `main` ends with 0, or with 8 if the restart fails.
pub main-Updates :
    (c : Crypto) (e : Env) (file : List ℕ) (f1 f2 : Files)
    → ((n : ℕ) × (decode c file ≡ exits n) × (n ≢ 0) × (main c e file f1 f2 ≡ ((f1, f2), code n)))
      ⊎ ((decode c file ≡ faults) × (main c e file f1 f2 ≡ ((f1, f2), fault)))
      ⊎ ((p1 p2 : List ℕ) × (decode c file ≡ payloads p1 p2)
          × Updates e p1 p2 f1 f2 (main c e file f1 f2))
unfolding main
main-Updates c e file f1 f2 = elim (Decoded-cases (decode c file)) [
  | inl (n, d) ↦ inl (n, d, subst IsRefused d (decode-IsRefused c file), rw (d, main) refl)
  | inr (inl d) ↦ inr (inl (d, rw (d, main) refl))
  | inr (inr (p1, p2, d)) ↦ inr (inr (p1, p2, d, rw (d, main) (stage-Updates e p1 p2 f1 f2)))
]
