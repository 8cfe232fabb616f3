-- ===== src/Firmware.antt =====
-- gen_fw/host_tools/gen_fw_enc.c and gen_fw/device_tools/gen_fw_dec.c: the firmware container. A file
-- is a list of bytes. AES-256-CBC and HMAC-SHA256 with the keys of the build are parameters, and so is
-- the magic word of the customer. Both machines store words with the low byte first.
pub mod Bytes
pub mod RoundTrip
pub mod Install
mod Tests
use k180_project.Base.{
  ℕ, zero, suc, ◌+◌, ◌-◌, ◌*◌, ◌/◌, ◌%◌, ◌^◌, Bool, true, false, not, ◌&&◌, ◌||◌, List, [], ◌∷◌,
  ◌++◌, Option, none, some, length, take, drop, ltb, leb, ◌==◌, if◌then◌else◌, u32_mod, add32,
}

-- OpenSSL's calls with the keys. `decrypt` is `none` when the padding is wrong.
pub record Crypto : Type 0 where
  pub magic : List ℕ
  pub encrypt : List ℕ → List ℕ → List ℕ
  pub decrypt : List ℕ → List ℕ → Option (List ℕ)
  pub hmac : List ℕ → List ℕ

abbrev pub magic_len : ℕ
magic_len = 32

abbrev pub block_size : ℕ
block_size = 16

abbrev pub hmac_len : ℕ
hmac_len = 32

-- OpenSSL takes lengths as ints.
abbrev pub int_end : ℕ
int_end = 2 ^ 31

pub word_bytes : ℕ → List ℕ
word_bytes n = n % 256 ∷ n / 256 % 256 ∷ n / 65536 % 256 ∷ n / 16777216 % 256 ∷ []

pub word_of : List ℕ → ℕ
word_of (a ∷ b ∷ c ∷ d ∷ []) = a + 256 * b + 65536 * c + 16777216 * d
word_of bytes = 0

-- `memcmp(a, b, n) == 0` on arrays of the same length.
pub same_bytes : List ℕ → List ℕ → Bool
same_bytes [] [] = true
same_bytes (x ∷ xs) (y ∷ ys) = x == y && same_bytes xs ys
same_bytes xs ys = false

-- `strncmp(a, b, n) == 0`: it stops at a zero, which also ends each array.
pub same_text : ℕ → List ℕ → List ℕ → Bool
same_text zero xs ys = true
same_text (suc n) [] [] = true
same_text (suc n) [] (y ∷ ys) = y == 0
same_text (suc n) (x ∷ xs) [] = x == 0
same_text (suc n) (x ∷ xs) (y ∷ ys) = x == y && (x == 0 || same_text n xs ys)

module _ (c : Crypto) where
  -- The container of two payloads under an initialisation vector. `none` is a length that no int holds.
  pub encode : List ℕ → List ℕ → List ℕ → Option (List ℕ)
  unfolding word_bytes
  encode iv p1 p2 =
      if leb int_end (length p1 + length p2 + block_size)
      then none
      else some (
          c.magic
          ++ (iv
              ++ (word_bytes (length p1)
                  ++ (word_bytes (length p2)
                      ++ (c.encrypt iv (p1 ++ p2) ++ c.hmac (iv ++ c.encrypt iv (p1 ++ p2)))))))

-- How reading a container ends: with an exit code, in undefined behaviour, or with the payloads.
pub data Decoded : Type 0 where
  exits : ℕ → Decoded
  faults : Decoded
  payloads : List ℕ → List ℕ → Decoded

-- `fread` of exactly `n` bytes.
pub read_exact : ℕ → List ℕ → Option (List ℕ × List ℕ)
read_exact n file = if ltb (length file) n then none else some (take n file, drop n file)

-- The two pieces of the plaintext; the first may end behind it.
pub split : List ℕ → ℕ → ℕ → Decoded
split plain len1 len2 =
    if ltb (length plain) (len1 + len2)
    then faults
    else payloads (take len1 plain) (take len2 (drop len1 plain))

module _ (c : Crypto) where
  -- From the check of the HMAC on.
  pub decode_body : List ℕ → ℕ → ℕ → List ℕ → List ℕ → Decoded
  decode_body iv len1 len2 cipher hmac_file =
      if not (same_bytes hmac_file (c.hmac (iv ++ cipher)))
      then exits 3
      else elim (c.decrypt iv cipher) [
        | none ↦ exits 4
        | some plain ↦
            if not (length plain == add32 len1 len2) then exits 5 else split plain len1 len2
      ]

  -- What follows the header: ciphertext and HMAC. Where there are fewer than 32 bytes, `cipher_len` is
  -- negative, `malloc` of it gives a null pointer, and any byte that is left is read into that.
  pub decode_rest : List ℕ → ℕ → ℕ → List ℕ → Decoded
  decode_rest iv len1 len2 rest =
      if ltb (length rest) hmac_len
      then (if length rest == 0 then exits 2 else faults)
      else if leb int_end (length rest - hmac_len)
      then faults
      else decode_body iv len1 len2 (take (length rest - hmac_len) rest)
          (drop (length rest - hmac_len) rest)

  pub decode : List ℕ → Decoded
  decode file = elim (read_exact magic_len file) [
    | none ↦ exits 2
    | some (magic, file1) ↦
        if not (same_text magic_len magic c.magic)
        then exits 2
        else elim (read_exact block_size file1) [
          | none ↦ exits 2
          | some (iv, file2) ↦ elim (read_exact 4 file2) [
            | none ↦ exits 2
            | some (len1, file3) ↦ elim (read_exact 4 file3) [
              | none ↦ exits 2
              | some (len2, rest) ↦ decode_rest iv (word_of len1) (word_of len2) rest
            ]
          ]
        ]
  ]
