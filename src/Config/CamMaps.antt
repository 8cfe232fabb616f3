-- ===== src/Config/CamMaps.antt =====
-- user_cfg_validate.cpp: camera maps as permutations of the four places.
use k180_project.Base.{
  eqb_ℤ→eq, ℕ, suc, ◌+◌, ◌≤◌, ◌≡◌, refl, Bool, true, false, List, [], ◌∷◌, length, ℤ, pos, eqb_ℤ,
  arith, if◌then◌else◌, Bool-cases, inl, inr, subst, ap, ◌∙◌, not, ◌==◌, ◌&&◌,
}
use k180_project.Config.{
  CamMap, ok, validation_fail, is_one_of_int, insert, cam_set, validate_cam_map,
}

abbrev pub cam_list : CamMap → List ℤ
cam_list a = a.a0 ∷ a.a1 ∷ a.a2 ∷ a.a3 ∷ []

-- How often a value occurs.
abbrev pub count : ℤ → List ℤ → ℕ
count v [] = 0
count v (x ∷ xs) = (if eqb_ℤ x v then 1 else 0) + count v xs

-- Every place from 0 to 3 is held by one camera.
abbrev pub IsPermutation : CamMap → Type 0
IsPermutation a =
    (count (pos 0) (cam_list a) ≡ 1)
    × (count (pos 1) (cam_list a) ≡ 1)
    × (count (pos 2) (cam_list a) ≡ 1)
    × (count (pos 3) (cam_list a) ≡ 1)

count-absent : (v : ℤ) (xs : List ℤ) → is_one_of_int v xs ≡ false → count v xs ≡ 0
unfolding is_one_of_int
count-absent v [] h = refl
count-absent v (x ∷ xs) h = ground (arith, count-absent v xs)

-- A set holds what was put in once.
insert-count :
    (v : ℤ) (xs : List ℤ)
    → length (insert v xs) ≡ suc (length xs)
    → (is_one_of_int v xs ≡ false) × (insert v xs ≡ v ∷ xs)
unfolding insert
insert-count v xs h = ground arith

length-insert : (v : ℤ) (xs : List ℤ) → length (insert v xs) ≤ suc (length xs)
unfolding insert
length-insert v xs = ground arith

-- No value twice.
abbrev Distinct : List ℤ → Type 0
Distinct [] = Unit {0}
Distinct (x ∷ xs) = (is_one_of_int x xs ≡ false) × Distinct xs

count-present : (v : ℤ) (xs : List ℤ) → Distinct xs → is_one_of_int v xs ≡ true → count v xs ≡ 1
unfolding is_one_of_int
count-present v [] d h = absurd (ground arith)
count-present v (x ∷ xs) d h = elim (Bool-cases (eqb_ℤ x v)) [
  | inl e ↦
      let absent =
        count-absent v xs (subst (λ w. is_one_of_int w xs ≡ false) (eqb_ℤ→eq x v e) d.0) in
      simp (e, absent)
  | inr e ↦ let rest = count-present v xs d.1 in ground (arith, e, rest)
]

-- Four values put into a set of four are all different, and are its values.
insert-Distinct :
    (a b c d : ℤ)
    → length (insert d (insert c (insert b (insert a [])))) ≡ 4
    → (insert d (insert c (insert b (insert a []))) ≡ d ∷ c ∷ b ∷ a ∷ [])
      × Distinct (d ∷ c ∷ b ∷ a ∷ [])
insert-Distinct a b c d h =
    let sa = insert a [] in
    let sb = insert b sa in
    let sc = insert c sb in
    let la = length-insert a [] in
    let lb = length-insert b sa in
    let lc = length-insert c sb in
    let ld = length-insert d sc in
    let ia = insert-count a [] (omega arith) in
    let ib = insert-count b sa (omega arith) in
    let ic = insert-count c sb (omega arith) in
    let id = insert-count d sc (omega arith) in
    let ea : sa ≡ a ∷ [] = ia.1 in
    let eb : sb ≡ b ∷ a ∷ [] = ib.1 ∙ ap (◌∷◌ b) ea in
    let ec : sc ≡ c ∷ b ∷ a ∷ [] = ic.1 ∙ ap (◌∷◌ c) eb in
    let ed = id.1 ∙ ap (◌∷◌ d) ec in
    (
      ed,
      (
        subst (λ xs. is_one_of_int d xs ≡ false) ec id.0,
        (
          subst (λ xs. is_one_of_int c xs ≡ false) eb ic.0,
          (subst (λ xs. is_one_of_int b xs ≡ false) ea ib.0, (ia.0, tt)),
        ),
      ),
    )

count-rev4 : (v a b c d : ℤ) → count v (d ∷ c ∷ b ∷ a ∷ []) ≡ 1 → count v (a ∷ b ∷ c ∷ d ∷ []) ≡ 1
count-rev4 v a b c d h = omega arith

all_four :
    (a b c d : Bool) → (a && b && c && d) ≡ true → (a ≡ true) × (b ≡ true) × (c ≡ true) × (d ≡ true)
all_four a b c d h = ground arith

both_tests :
    (n : ℕ) (p : Bool)
    → (if not (n == 4) then validation_fail else if not p then validation_fail else ok) ≡ ok
    → (n ≡ 4) × (p ≡ true)
both_tests n p h = ground arith

validate_cam_map-tests :
    (a : CamMap)
    → validate_cam_map a ≡ ok
    → (length (cam_set a) ≡ 4)
      × (is_one_of_int (pos 0) (cam_set a) ≡ true)
      × (is_one_of_int (pos 1) (cam_set a) ≡ true)
      × (is_one_of_int (pos 2) (cam_set a) ≡ true)
      × (is_one_of_int (pos 3) (cam_set a) ≡ true)
unfolding validate_cam_map
validate_cam_map-tests a h =
    let (four, present) = both_tests (length (cam_set a)) _ h in
    let (t0, t1, t2, t3) = all_four _ _ _ _ present in (four, t0, t1, t2, t3)

-- A camera map that the validator takes holds each of the places 0 to 3 once.
pub validate_cam_map-IsPermutation : (a : CamMap) → validate_cam_map a ≡ ok → IsPermutation a
validate_cam_map-IsPermutation a h =
    let (four, t0, t1, t2, t3) = validate_cam_map-tests a h in
    let (e, distinct) = insert-Distinct a.a0 a.a1 a.a2 a.a3 four in
    let once : (v : ℤ) → is_one_of_int v (cam_set a) ≡ true → count v (cam_list a) ≡ 1 = λ v t.
      count-rev4 v a.a0 a.a1 a.a2 a.a3 (
        count-present v (a.a3 ∷ a.a2 ∷ a.a1 ∷ a.a0 ∷ []) distinct
          (subst (λ xs. is_one_of_int v xs ≡ true) e t)) in
    (once (pos 0) t0, once (pos 1) t1, once (pos 2) t2, once (pos 3) t3)
