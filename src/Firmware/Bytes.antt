-- ===== src/Firmware/Bytes.antt =====
-- gen_fw: words as bytes, comparisons, and reads of a file that is put together from pieces.
use k180_project.Base.{
  ℕ, zero, suc, ◌<◌, ◌≡◌, refl, ap, ap₂, subst, true, false, List, [], ◌∷◌, ◌++◌, some, length,
  take, drop, arith, ltb, u32_mod, length-append,
}
use k180_project.Firmware.{word_bytes, word_of, same_bytes, same_text, read_exact}

pub word_of-word_bytes : (n : ℕ) → n < u32_mod → word_of (word_bytes n) ≡ n
unfolding word_of word_bytes
word_of-word_bytes n h = omega arith

pub length-word_bytes : (n : ℕ) → length (word_bytes n) ≡ 4
unfolding word_bytes
length-word_bytes n = refl

pub same_bytes_refl : (xs : List ℕ) → same_bytes xs xs ≡ true
unfolding same_bytes
same_bytes_refl [] = refl
same_bytes_refl (x ∷ xs) = ground (arith, same_bytes_refl xs)

pub same_bytes→eq : (xs ys : List ℕ) → same_bytes xs ys ≡ true → xs ≡ ys
unfolding same_bytes
same_bytes→eq [] [] h = refl
same_bytes→eq [] (y ∷ ys) h = absurd (ground arith)
same_bytes→eq (x ∷ xs) [] h = absurd (ground arith)
same_bytes→eq (x ∷ xs) (y ∷ ys) h = ap₂ ◌∷◌ (ground arith) (same_bytes→eq xs ys (ground arith))

pub same_text_refl : (n : ℕ) (xs : List ℕ) → same_text n xs xs ≡ true
unfolding same_text
same_text_refl zero xs = refl
same_text_refl (suc n) [] = refl
same_text_refl (suc n) (x ∷ xs) = ground (arith, same_text_refl n xs)

pub take-append_all : {A : Type 0} (xs ys : List A) → take (length xs) (xs ++ ys) ≡ xs
take-append_all [] ys = refl
take-append_all (x ∷ xs) ys = ap (◌∷◌ x) (take-append_all xs ys)

pub drop-append_all : {A : Type 0} (xs ys : List A) → drop (length xs) (xs ++ ys) ≡ ys
drop-append_all [] ys = refl
drop-append_all (x ∷ xs) ys = drop-append_all xs ys

read-all : (xs ys : List ℕ) → read_exact (length xs) (xs ++ ys) ≡ some (xs, ys)
unfolding read_exact
read-all xs ys =
    let long = length-append xs ys in
    let enough : ltb (length (xs ++ ys)) (length xs) ≡ false = ground arith in
    simp (enough, take-append_all, drop-append_all)

-- A read of a piece of the file gives that piece.
pub read_exact-append :
    (n : ℕ) (xs ys : List ℕ) → length xs ≡ n → read_exact n (xs ++ ys) ≡ some (xs, ys)
read_exact-append n xs ys e =
    subst (λ k. read_exact k (xs ++ ys) ≡ some (xs, ys)) e (read-all xs ys)
