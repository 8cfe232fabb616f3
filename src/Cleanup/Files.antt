-- ===== src/Cleanup/Files.antt =====
-- k180_record_cleanup.cpp: which files a clean-up may delete, and in which order.
use k180_project.Base.{
  ℕ, ◌≡◌, ◌≢◌, refl, sym, ap, subst, ◌∙◌, ◌↔◌, ◌⊎◌, inl, inr, Bool, true, false, not, ◌&&◌, List,
  [], ◌∷◌, Option, none, some, arith, Option-cases, Bool-cases, ℤ, pos, negsuc, ltb_ℤ, eqb_ℤ, ◌≤ℤ◌,
  ◌+ℤ◌, neg_ℤ, if◌then◌else◌, eqb_ℤ→eq, some_inj,
}
use k180_project.Cleanup.{
  System, Stat, CandidateFile, before, insert_file, sort_files, candidate_of, candidates_of,
  collect_candidate_files, is_recording_file_name, join_path,
}

abbrev pub IsIn : {A : Type 0} → A → List A → Type 0
IsIn x [] = ⊥
IsIn x (y ∷ ys) = (x ≡ y) ⊎ IsIn x ys

-- No file of the list is older.
abbrev pub OldestOf : CandidateFile → List CandidateFile → Type 0
OldestOf f [] = Unit {0}
OldestOf f (g ∷ gs) = (f.mtime ≤ℤ g.mtime) × OldestOf f gs

abbrev pub OldestFirst : List CandidateFile → Type 0
OldestFirst [] = Unit {0}
OldestFirst (f ∷ fs) = OldestOf f fs × OldestFirst fs

before-older : (g f : CandidateFile) → before g f ≡ true → g.mtime ≤ℤ f.mtime
unfolding before
before-older g f h = ground arith

not_before-older : (g f : CandidateFile) → before g f ≡ false → f.mtime ≤ℤ g.mtime
unfolding before
not_before-older g f h = ground arith

OldestOf-older :
    (f g : CandidateFile) (fs : List CandidateFile)
    → f.mtime ≤ℤ g.mtime
    → OldestOf g fs
    → OldestOf f fs
OldestOf-older f g [] h o = tt
OldestOf-older f g (x ∷ xs) h o = (omega arith, OldestOf-older f g xs h o.1)

OldestOf-insert :
    (f g : CandidateFile) (fs : List CandidateFile)
    → f.mtime ≤ℤ g.mtime
    → OldestOf f fs
    → OldestOf f (insert_file g fs)
unfolding insert_file
OldestOf-insert f g [] h o = (h, tt)
OldestOf-insert f g (x ∷ xs) h o = ground (arith, OldestOf-insert f g xs h o.1)

insert-OldestFirst :
    (f : CandidateFile) (fs : List CandidateFile) → OldestFirst fs → OldestFirst (insert_file f fs)
unfolding insert_file
insert-OldestFirst f [] o = (tt, tt)
insert-OldestFirst f (g ∷ gs) o = elim (Bool-cases (before g f)) [
  | inl e ↦ simp (e) (OldestOf-insert g f gs (before-older g f e) o.0, insert-OldestFirst f gs o.1)
  | inr e ↦ let le = not_before-older g f e in simp (e) ((le, OldestOf-older f g gs le o.0), o)
]

sort-OldestFirst : (fs : List CandidateFile) → OldestFirst (sort_files fs)
unfolding sort_files
sort-OldestFirst [] = tt
sort-OldestFirst (f ∷ fs) = insert-OldestFirst f (sort_files fs) (sort-OldestFirst fs)

IsIn-insert :
    (f g : CandidateFile) (fs : List CandidateFile)
    → IsIn f (insert_file g fs) ↔ ((f ≡ g) ⊎ IsIn f fs)
unfolding insert_file
IsIn-insert f g [] = (λ h. h, λ h. h)
IsIn-insert f g (x ∷ xs) = ground (arith, IsIn-insert f g xs)

IsIn-sort : (f : CandidateFile) (fs : List CandidateFile) → IsIn f (sort_files fs) ↔ IsIn f fs
unfolding sort_files
IsIn-sort f [] = (λ h. h, λ h. h)
IsIn-sort f (g ∷ gs) = ground (arith, IsIn-insert f g (sort_files gs), IsIn-sort f gs)

none_not_some : {A : Type 0} {x : A} → ◌≡◌ {A = Option A} none (some x) → ⊥
none_not_some h = cc

tests :
    (rec reg young : Bool) (g f : CandidateFile)
    → (if not rec then none else if not reg then none else if young then none else some g) ≡ some f
    → (rec ≡ true) × (reg ≡ true) × (young ≡ false) × (g ≡ f)
tests rec reg young g f h = ground arith

not_young :
    (age now t : ℤ)
    → (ltb_ℤ (pos 0) age && not (eqb_ℤ now (negsuc 0)) && ltb_ℤ (now +ℤ neg_ℤ age) t) ≡ false
    → ltb_ℤ (pos 0) age ≡ true
    → now ≢ negsuc 0
    → t ≤ℤ now +ℤ neg_ℤ age
not_young age now t h p q = ground (arith, eqb_ℤ→eq now (negsuc 0))

module _ {W : Type 0} (sys : System W) (w : W) (dir : List ℕ) where
  IsIn-candidates_of :
      (now min_age : ℤ) (f : CandidateFile) (names : List (List ℕ))
      → IsIn f (candidates_of sys w dir now min_age names)
        ↔ ((name : List ℕ) × IsIn name names × (candidate_of sys w dir now min_age name ≡ some f))
  unfolding candidates_of
  IsIn-candidates_of now min_age f [] = (λ h. elim h [ ], λ (name, h, e). elim h [ ])
  IsIn-candidates_of now min_age f (x ∷ names) =
      let rest = IsIn-candidates_of now min_age f names in
      elim (Option-cases (candidate_of sys w dir now min_age x)) [
        | inl e ↦
            rw (e, candidates_of)
              (
                λ h. let (n, i, c) = rest.0 h in (n, inr i, c),
                λ (n, i, c). elim i [
                  | inl p ↦
                      absurd (
                        none_not_some (sym e ∙ ap (candidate_of sys w dir now min_age) (sym p) ∙ c))
                  | inr j ↦ rest.1 (n, j, c)
                ],
              )
        | inr (g, e) ↦
            rw (e, candidates_of)
              (
                λ i. elim i [
                  | inl p ↦ (x, inl refl, e ∙ ap some (sym p))
                  | inr j ↦ let (n, k, c) = rest.0 j in (n, inr k, c)
                ],
                λ (n, i, c). elim i [
                  | inl p ↦ inl (some_inj (sym c ∙ ap (candidate_of sys w dir now min_age) p ∙ e))
                  | inr j ↦ inr (rest.1 (n, j, c))
                ],
              )
      ]

  -- A regular file of the directory with the name of a recording, not modified within the age asked for
  -- (if that is positive and the time can be read).
  pub record IsCandidate (min_age : ℤ) (name : List ℕ) (f : CandidateFile) : Type 0 where
    pub recording : is_recording_file_name name ≡ true
    pub path : f.path ≡ join_path dir name
    pub regular :
        (st : Stat) × (sys.lstat w f.path ≡ some st)
        × (st.is_reg ≡ true)
        × (f.mtime ≡ st.st_mtime)
        × (f.size ≡ st.st_size)
    pub old :
        ltb_ℤ (pos 0) min_age ≡ true
        → sys.time w ≢ negsuc 0
        → f.mtime ≤ℤ sys.time w +ℤ neg_ℤ min_age

  candidate_of-IsCandidate :
      (min_age : ℤ) (name : List ℕ) (f : CandidateFile)
      → candidate_of sys w dir (sys.time w) min_age name ≡ some f
      → IsCandidate min_age name f
  unfolding candidate_of
  candidate_of-IsCandidate min_age name f h =
      elim (Option-cases (sys.lstat w (join_path dir name))) [
        | inl e ↦ absurd (ground (arith, e, h))
        | inr (st, e) ↦
            let now = sys.time w in
            let young =
              ltb_ℤ (pos 0) min_age
              && not (eqb_ℤ now (negsuc 0))
              && ltb_ℤ (now +ℤ neg_ℤ min_age) st.st_mtime in
            let g : CandidateFile = record {
              path = join_path dir name;
              mtime = st.st_mtime;
              size = st.st_size;
            } in
            let step : (if not (is_recording_file_name name)
                  then none
                  else if not st.is_reg
                  then none
                  else if young
                  then none
                  else some g)
                ≡ some f =
              rw (e, candidate_of) at h in
            let (r, reg, y, same) = tests (is_recording_file_name name) st.is_reg young g f step in
            subst (IsCandidate min_age name) same (record {
              recording = r;
              path = refl;
              regular = (st, e, reg, refl, refl);
              old = not_young min_age now st.st_mtime y;
            })
      ]

  -- The files that a clean-up may delete stand oldest first, and they are those of the entries that
  -- `readdir` gives which pass the tests: each is a regular file of the directory with the name of a
  -- recording and old enough. A directory that cannot be opened has none.
  pub collect_candidate_files-OldestFirst :
      (min_age : ℤ)
      → let files = collect_candidate_files sys w dir min_age in
        OldestFirst files
        × ((names : List (List ℕ))
            → sys.entries w dir ≡ some names
            → (f : CandidateFile)
            → (IsIn f files → (name : List ℕ) × IsIn name names × IsCandidate min_age name f)
              × ((name : List ℕ)
                  → IsIn name names
                  → candidate_of sys w dir (sys.time w) min_age name ≡ some f
                  → IsIn f files))
        × (sys.entries w dir ≡ none → files ≡ [])
  unfolding collect_candidate_files
  collect_candidate_files-OldestFirst min_age = elim (Option-cases (sys.entries w dir)) [
    | inl e ↦ rw (e, collect_candidate_files) (tt, λ names h f. absurd (none_not_some h), λ _. refl)
    | inr (names, e) ↦
        rw (e, collect_candidate_files)
          (
            sort-OldestFirst (candidates_of sys w dir (sys.time w) min_age names),
            λ names' h f.
                let same = some_inj h in
                let among = IsIn-candidates_of (sys.time w) min_age f names in
                let sorted = IsIn-sort f (candidates_of sys w dir (sys.time w) min_age names) in
                (
                  λ i.
                      let (n, k, c) = among.0 (sorted.0 i) in
                      (n, subst (IsIn n) same k, candidate_of-IsCandidate min_age n f c),
                  λ n k c. sorted.1 (among.1 (n, subst (IsIn n) (sym same) k, c)),
                ),
            λ h. absurd (none_not_some (sym h)),
          )
  ]
