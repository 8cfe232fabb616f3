-- ===== src/Rest/FileName.antt =====
-- restful_api_server.c: the names of recordings that a request may give, as bytes without a zero.
use mathlib.Core.Bool.{false≢true}
use k180_project.Base.{
  ℕ, ◌≤◌, ◌≡◌, refl, sym, ap, ◌∙◌, ◌↔◌, ◌⊎◌, inl, inr, Bool, true, false, not, ◌&&◌, ◌||◌, List, [],
  ◌∷◌, ◌++◌, Option, none, some, length, ltb, leb, ◌==◌, if◌then◌else◌, arith, Option-cases,
  Bool-cases, ==→eq, length-append,
}

-- `isalnum` in the C locale.
pub isalnum : ℕ → Bool
isalnum c = leb b'0' c && leb c b'9' || leb b'A' c && leb c b'Z' || leb b'a' c && leb c b'z'

pub is_name_char : ℕ → Bool
unfolding isalnum
is_name_char c = isalnum c || c == b'_' || c == b'-' || c == b'.'

pub are_name_chars : List ℕ → Bool
unfolding is_name_char
are_name_chars [] = true
are_name_chars (c ∷ s) = is_name_char c && are_name_chars s

-- `strchr`.
pub has_char : ℕ → List ℕ → Bool
has_char d [] = false
has_char d (c ∷ s) = c == d || has_char d s

-- `strstr(s, "..")`.
pub has_dots : List ℕ → Bool
has_dots [] = false
has_dots (c ∷ []) = false
has_dots (c ∷ d ∷ s) = c == b'.' && d == b'.' || has_dots (d ∷ s)

-- `strrchr(s, '.')`: what stands from the last dot on.
pub last_ext : List ℕ → Option (List ℕ)
last_ext [] = none
last_ext (c ∷ s) = elim (last_ext s) [
  | some e ↦ some e
  | none ↦ if c == b'.' then some (c ∷ s) else none
]

pub is_mp4 : List ℕ → Bool
is_mp4 (a ∷ b ∷ c ∷ d ∷ []) = a == b'.' && b == b'm' && c == b'p' && d == b'4'
is_mp4 s = false

unfoldable pub is_valid_filename : List ℕ → Bool
unfolding has_dots has_char are_name_chars last_ext is_mp4
is_valid_filename name =
    if length name == 0 || ltb 255 (length name)
    then false
    else if has_dots name || has_char b'/' name || has_char 92 name
    then false
    else if not (are_name_chars name)
    then false
    else elim (last_ext name) [ none ↦ false | some ext ↦ is_mp4 ext ]

abbrev pub mp4 : List ℕ
mp4 = b'.' ∷ b'm' ∷ b'p' ∷ b'4' ∷ []

-- A letter, a digit, or one of three signs.
abbrev pub IsNameChar : ℕ → Type 0
IsNameChar c =
    ((b'0' ≤ c) × (c ≤ b'9'))
    ⊎ ((b'A' ≤ c) × (c ≤ b'Z'))
    ⊎ ((b'a' ≤ c) × (c ≤ b'z'))
    ⊎ (c ≡ b'_')
    ⊎ (c ≡ b'-')
    ⊎ (c ≡ b'.')

abbrev pub AllNameChars : List ℕ → Type 0
AllNameChars [] = Unit {0}
AllNameChars (c ∷ s) = IsNameChar c × AllNameChars s

-- Two dots do not stand side by side.
abbrev pub IsApart : List ℕ → Type 0
IsApart [] = Unit {0}
IsApart (c ∷ []) = Unit {0}
IsApart (c ∷ d ∷ s) = ((c ≡ b'.') × (d ≡ b'.') → ⊥) × IsApart (d ∷ s)

-- The name of a file of the directory itself, not of another: a stem of such characters and `.mp4`.
pub record IsSafeName (name : List ℕ) : Type 0 where
  pub stem : List ℕ
  pub ends : name ≡ stem ++ mp4
  pub chars : AllNameChars name
  pub apart : IsApart name
  pub short : length name ≤ 255

char-IsNameChar : (c : ℕ) → (is_name_char c ≡ true) ↔ IsNameChar c
unfolding is_name_char
char-IsNameChar c = (λ h. ground arith, λ h. ground arith)

are-AllNameChars : (s : List ℕ) → (are_name_chars s ≡ true) ↔ AllNameChars s
unfolding are_name_chars
are-AllNameChars [] = (λ h. tt, λ h. refl)
are-AllNameChars (c ∷ s) =
    let here = char-IsNameChar c in
    let rest = are-AllNameChars s in
    (λ h. (here.0 (ground arith), rest.0 (ground arith)), λ h. rw (here.1 h.0, rest.1 h.1) refl)

not-has : (d : ℕ) (s : List ℕ) → is_name_char d ≡ false → AllNameChars s → has_char d s ≡ false
unfolding has_char
not-has d [] n h = refl
not-has d (c ∷ s) n h =
    let good = (char-IsNameChar c).1 h.0 in
    elim (Bool-cases (c == d)) [
      | inl e ↦ absurd (false≢true (sym n ∙ ap is_name_char (sym (==→eq c d e)) ∙ good))
      | inr e ↦ rw e (not-has d s n h.1)
    ]

apart_dots :
    (c d : ℕ) (s : List ℕ)
    → ((c ≡ b'.') × (d ≡ b'.') → ⊥)
    → has_dots (d ∷ s) ≡ false
    → has_dots (c ∷ d ∷ s) ≡ false
unfolding has_dots
apart_dots c d s h r = elim (Bool-cases (c == b'.' && d == b'.')) [
  | inl e ↦ absurd (h (ground arith, ground arith))
  | inr e ↦ rw (e, has_dots) r
]

dots-IsApart : (s : List ℕ) → (has_dots s ≡ false) ↔ IsApart s
unfolding has_dots
dots-IsApart [] = (λ h. tt, λ h. refl)
dots-IsApart (c ∷ []) = (λ h. tt, λ h. refl)
dots-IsApart (c ∷ d ∷ s) =
    let rest = dots-IsApart (d ∷ s) in
    (λ h. (λ e. ground arith, rest.0 (ground arith)), λ h. apart_dots c d s h.0 (rest.1 h.1))

whole : (c : ℕ) (s e : List ℕ) → last_ext s ≡ none → last_ext (c ∷ s) ≡ some e → e ≡ c ∷ s
unfolding last_ext
whole c s e n h = ground arith

last_ext-suffix : (s e : List ℕ) → last_ext s ≡ some e → (stem : List ℕ) × (s ≡ stem ++ e)
unfolding last_ext
last_ext-suffix [] e h = absurd (ground arith)
last_ext-suffix (c ∷ s) e h = elim (Option-cases (last_ext s)) [
  | inl n ↦ ([], sym (whole c s e n h))
  | inr (f, m) ↦
      let (stem, r) = last_ext-suffix s f m in
      (c ∷ stem, ap (◌∷◌ c) r ∙ ap (λ x. (c ∷ stem) ++ x) (ground arith))
]

last_ext-mp4 : (stem : List ℕ) → last_ext (stem ++ mp4) ≡ some mp4
unfolding last_ext
last_ext-mp4 [] = refl
last_ext-mp4 (c ∷ s) = rw (last_ext-mp4 s) refl

is_mp4→eq : (s : List ℕ) → is_mp4 s ≡ true → s ≡ mp4
unfolding is_mp4
is_mp4→eq [] h = absurd (ground arith)
is_mp4→eq (a ∷ []) h = absurd (ground arith)
is_mp4→eq (a ∷ b ∷ []) h = absurd (ground arith)
is_mp4→eq (a ∷ b ∷ c ∷ []) h = absurd (ground arith)
is_mp4→eq (a ∷ b ∷ c ∷ d ∷ []) h = ground arith
is_mp4→eq (a ∷ b ∷ c ∷ d ∷ e ∷ s) h = absurd (ground arith)

-- The parts of a name that is taken.
parts :
    (name : List ℕ)
    → is_valid_filename name ≡ true
    → (length name ≤ 255)
      × (has_dots name ≡ false)
      × (are_name_chars name ≡ true)
      × ((ext : List ℕ) × (last_ext name ≡ some ext) × (is_mp4 ext ≡ true))
unfolding is_valid_filename
parts name h = elim (Option-cases (last_ext name)) [
  | inl e ↦ absurd (ground (arith, e, h))
  | inr (ext, e) ↦ (
    ground (arith, e, h),
    ground (arith, e, h),
    ground (arith, e, h),
    (ext, e, ground (arith, e, h)),
  )
]

valid-IsSafeName : (name : List ℕ) → is_valid_filename name ≡ true → IsSafeName name
valid-IsSafeName name h =
    let (short, dots, chars, (ext, last, mp)) = parts name h in
    let (stem, e) = last_ext-suffix name ext last in
    record {
      stem = stem;
      ends = e ∙ ap (λ x. stem ++ x) (is_mp4→eq ext mp);
      chars = (are-AllNameChars name).0 chars;
      apart = (dots-IsApart name).0 dots;
      short = short;
    }

safe-is_valid : (name : List ℕ) → IsSafeName name → is_valid_filename name ≡ true
unfolding is_valid_filename is_name_char
safe-is_valid name v =
    let slash = not-has b'/' name refl v.chars in
    let back = not-has 92 name refl v.chars in
    let dots = (dots-IsApart name).1 v.apart in
    let chars = (are-AllNameChars name).1 v.chars in
    let last : last_ext name ≡ some mp4 = ap last_ext v.ends ∙ last_ext-mp4 v.stem in
    let long = ap length v.ends ∙ length-append v.stem mp4 in
    let fits : (length name == 0 || ltb 255 (length name)) ≡ false = ground arith in
    rw (fits, dots, slash, back, chars, last, is_valid_filename) refl

-- `is_valid_filename` takes exactly the names of at most 255 letters, digits, `_`, `-` and dots that end
-- in `.mp4` and in which no two dots stand side by side: none of them leads out of the directory.
pub is_valid_filename-IsSafeName :
    (name : List ℕ) → (is_valid_filename name ≡ true) ↔ IsSafeName name
is_valid_filename-IsSafeName name = (valid-IsSafeName name, safe-is_valid name)
