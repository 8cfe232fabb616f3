-- ===== src/Cleanup/Deletes.antt =====
-- k180_record_cleanup.cpp: how far a clean-up goes.
use k180_project.Base.{
  ℕ, zero, suc, ◌<◌, ◌≡◌, ◌≢◌, refl, sym, subst, ◌⊎◌, inl, inr, Bool, true, false, List, [], ◌∷◌,
  Option, none, some, length, take, arith, Option-cases, ℤ,
}
use k180_project.Cleanup.{
  System, CandidateFile, is_low, is_done, delete_files, cleanup_once, collect_candidate_files,
  high_of, age_of,
}

abbrev pub is_true : Option Bool → Bool
is_true none = false
is_true (some b) = b

List-cases : {A : Type 0} (xs : List A) → (xs ≡ []) ⊎ ((y : A) × (ys : List A) × (xs ≡ y ∷ ys))
List-cases [] = inl refl
List-cases (x ∷ xs) = inr (x, xs, refl)

module _ {W : Type 0} (sys : System W) where
  -- The world after the files are unlinked one after the other.
  pub after : W → List CandidateFile → W
  after w [] = w
  after w (f ∷ fs) = after (sys.unlink w f.path).0 fs

  -- The oldest `deleted` files are unlinked, each while the usage is read and not low; then either there
  -- are more files and the usage cannot be read or is low, or there are none, and the last look decides.
  pub record Stops (w : W) (dir : List ℕ) (high : sys.db.F) (files : List CandidateFile)
      (r : W × Bool) : Type 0 where
    pub deleted : ℕ
    pub world : r.0 ≡ after w (take deleted files)
    pub full : (k : ℕ) → k < deleted → is_low sys (after w (take k files)) dir high ≡ some false
    pub verdict :
        (deleted < length files)
          × (is_low sys r.0 dir high ≢ some false)
          × (r.1 ≡ is_true (is_low sys r.0 dir high))
        ⊎ (deleted ≡ length files) × (r.1 ≡ is_done sys r.0 dir high)

  later :
      (w : W) (dir : List ℕ) (high : sys.db.F) (f : CandidateFile) (fs : List CandidateFile) (n : ℕ)
      → is_low sys w dir high ≡ some false
      → ((k : ℕ)
          → k < n
          → is_low sys (after (sys.unlink w f.path).0 (take k fs)) dir high ≡ some false)
      → (k : ℕ) → k < suc n
      → is_low sys (after w (take k (f ∷ fs))) dir high ≡ some false
  unfolding after
  later w dir high f fs n e full zero h = e
  later w dir high f fs n e full (suc k) h = full k (omega arith)

  delete_files-Stops :
      (w : W) (dir : List ℕ) (high : sys.db.F) (fs : List CandidateFile)
      → Stops w dir high fs (delete_files sys w dir high fs)
  unfolding delete_files after
  delete_files-Stops w dir high [] = record {
    deleted = 0;
    world = refl;
    full = λ k h. absurd (omega arith);
    verdict = inr (refl, refl);
  }
  delete_files-Stops w dir high (f ∷ fs) = elim (Option-cases (is_low sys w dir high)) [
    | inl e ↦
        rw (e, delete_files)
          (record {
            deleted = 0;
            world = refl;
            full = λ k h. absurd (omega arith);
            verdict = inl (omega arith, λ x. cc, rw e refl);
          })
    | inr (true, e) ↦
        rw (e, delete_files)
          (record {
            deleted = 0;
            world = refl;
            full = λ k h. absurd (omega arith);
            verdict = inl (omega arith, λ x. cc, rw e refl);
          })
    | inr (false, e) ↦
        let rest = delete_files-Stops (sys.unlink w f.path).0 dir high fs in
        rw (e, delete_files)
          (record {
            deleted = suc rest.deleted;
            world = rest.world;
            full = later w dir high f fs rest.deleted e rest.full;
            verdict = ground (arith, rest.verdict);
          })
  ]

  -- A clean-up that cannot read the usage fails and deletes nothing; with usage below the mark (the one
  -- given, or 95 % if it is no percentage) it succeeds and deletes nothing; otherwise it fails without
  -- deleting anything if there are no candidates, and else goes through them, oldest first: each is
  -- unlinked while the usage is read and not low, and it succeeds exactly when the last look at the
  -- usage finds it low.
  pub cleanup_once-Stops :
      (w : W) (dir : List ℕ) (high : sys.db.F) (min_age : ℤ)
      → let mark = high_of sys high in
        let files = collect_candidate_files sys w dir (age_of sys min_age) in
        let r = cleanup_once sys w dir high min_age in
        (is_low sys w dir mark ≡ none) × (r ≡ (w, false))
        ⊎ (is_low sys w dir mark ≡ some true) × (r ≡ (w, true))
        ⊎ (is_low sys w dir mark ≡ some false) × (files ≡ []) × (r ≡ (w, false))
        ⊎ (is_low sys w dir mark ≡ some false) × Stops w dir mark files r
  unfolding cleanup_once
  cleanup_once-Stops w dir high min_age =
      let mark = high_of sys high in
      let files = collect_candidate_files sys w dir (age_of sys min_age) in
      elim (Option-cases (is_low sys w dir mark)) [
        | inl e ↦ inl (e, rw (e, cleanup_once) refl)
        | inr (true, e) ↦ inr (inl (e, rw (e, cleanup_once) refl))
        | inr (false, e) ↦ elim (List-cases files) [
          | inl n ↦ inr (inr (inl (e, n, rw (e, n, cleanup_once) refl)))
          | inr (f, fs, n) ↦
              let same : cleanup_once sys w dir high min_age ≡ delete_files sys w dir mark files =
                rw (e, n, cleanup_once) refl in
              inr (
                inr (
                  inr (
                    e,
                    subst (Stops w dir mark files) (sym same) (delete_files-Stops w dir mark files),
                  )))
        ]
      ]
