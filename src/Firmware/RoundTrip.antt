-- ===== src/Firmware/RoundTrip.antt =====
-- gen_fw: what the decoder makes of containers, and what their HMAC protects.
use k180_project.Base.{
  length-drop, Option-cases, Bool-cases, ◌⊎◌, inl, inr, ℕ, ◌+◌, ◌-◌, ◌<◌, ◌≤◌, ◌≡◌, refl, ◌∙◌, ap,
  ap₂, subst, true, false, List, [], ◌∷◌, ◌++◌, some, length, take, arith, ◌==◌, ltb, leb, add32,
  length-append,
}
use k180_project.Firmware.{
  Crypto, magic_len, block_size, hmac_len, int_end, word_bytes, word_of, same_text, encode, decode,
  decode_rest, decode_body, split, read_exact, exits, faults, payloads,
}
use k180_project.Firmware.Bytes.{
  word_of-word_bytes, length-word_bytes, same_bytes_refl, same_text_refl, take-append_all,
  drop-append_all, read_exact-append,
}

-- What OpenSSL documents of the calls: decryption undoes encryption, padding adds one block at most, and
-- an HMAC has 32 bytes; and the magic word has 32 characters.
pub record IsLawful (c : Crypto) : Type 0 where
  pub magic : length c.magic ≡ magic_len
  pub undoes : (iv p : List ℕ) → c.decrypt iv (c.encrypt iv p) ≡ some p
  pub padded : (iv p : List ℕ) → length (c.encrypt iv p) ≤ length p + block_size
  pub tag : (m : List ℕ) → length (c.hmac m) ≡ hmac_len

take_whole : (xs : List ℕ) → take (length xs) xs ≡ xs
take_whole [] = refl
take_whole (x ∷ xs) = ap (◌∷◌ x) (take_whole xs)

module _ (c : Crypto) (law : IsLawful c) where
  decode_pieces :
      (iv w1 w2 rest : List ℕ)
      → length iv ≡ block_size
      → length w1 ≡ 4
      → length w2 ≡ 4
      → decode c (c.magic ++ (iv ++ (w1 ++ (w2 ++ rest))))
        ≡ decode_rest c iv (word_of w1) (word_of w2) rest
  unfolding decode
  decode_pieces iv w1 w2 rest h h1 h2 =
      rw
        (
          read_exact-append magic_len c.magic (iv ++ (w1 ++ (w2 ++ rest))) law.magic,
          same_text_refl magic_len c.magic,
          read_exact-append block_size iv (w1 ++ (w2 ++ rest)) h,
          read_exact-append 4 w1 (w2 ++ rest) h1,
          read_exact-append 4 w2 rest h2,
          decode,
        )
        refl

  split_two : (p1 p2 : List ℕ) → split (p1 ++ p2) (length p1) (length p2) ≡ payloads p1 p2
  unfolding split
  split_two p1 p2 =
      let long = length-append p1 p2 in
      let fits : ltb (length (p1 ++ p2)) (length p1 + length p2) ≡ false = ground arith in
      simp (fits, take-append_all, drop-append_all, take_whole p2)

  decode_body_two :
      (iv p1 p2 : List ℕ)
      → length p1 + length p2 < int_end
      → decode_body c iv
          (length p1)
          (length p2)
          (c.encrypt iv (p1 ++ p2))
          (c.hmac (iv ++ c.encrypt iv (p1 ++ p2)))
        ≡ payloads p1 p2
  unfolding decode_body
  decode_body_two iv p1 p2 h =
      let long = length-append p1 p2 in
      let same : (length (p1 ++ p2) == add32 (length p1) (length p2)) ≡ true = ground arith in
      rw
        (
          same_bytes_refl (c.hmac (iv ++ c.encrypt iv (p1 ++ p2))),
          law.undoes iv (p1 ++ p2),
          same,
          decode_body,
        )
        (split_two p1 p2)

  decode_rest_two :
      (iv cipher tag : List ℕ) (len1 len2 : ℕ)
      → length tag ≡ hmac_len
      → length cipher < int_end
      → decode_rest c iv len1 len2 (cipher ++ tag) ≡ decode_body c iv len1 len2 cipher tag
  unfolding decode_rest
  decode_rest_two iv cipher tag len1 len2 h small =
      let long = length-append cipher tag in
      let enough : ltb (length (cipher ++ tag)) hmac_len ≡ false = ground arith in
      let fits : leb int_end (length (cipher ++ tag) - hmac_len) ≡ false = ground arith in
      let rest : length (cipher ++ tag) - hmac_len ≡ length cipher = omega arith in
      rw (enough, fits, rest, take-append_all cipher tag, drop-append_all cipher tag, decode_rest)
        refl

  decode_container :
      (iv p1 p2 : List ℕ)
      → length iv ≡ block_size
      → length p1 + length p2 + block_size < int_end
      → let cipher = c.encrypt iv (p1 ++ p2) in
        decode c (
          c.magic
          ++ (iv
              ++ (word_bytes (length p1)
                  ++ (word_bytes (length p2) ++ (cipher ++ c.hmac (iv ++ cipher))))))
        ≡ payloads p1 p2
  decode_container iv p1 p2 h small =
      let cipher = c.encrypt iv (p1 ++ p2) in
      let tag = c.hmac (iv ++ cipher) in
      let w1 = word_bytes (length p1) in
      let w2 = word_bytes (length p2) in
      let long = length-append p1 p2 in
      let padded = law.padded iv (p1 ++ p2) in
      decode_pieces iv w1 w2 (cipher ++ tag) h (length-word_bytes (length p1))
        (length-word_bytes (length p2))
      ∙ ap₂ (λ n1 n2. decode_rest c iv n1 n2 (cipher ++ tag))
          (word_of-word_bytes (length p1) (omega arith))
          (word_of-word_bytes (length p2) (omega arith))
      ∙ decode_rest_two iv cipher tag (length p1) (length p2) (law.tag (iv ++ cipher)) (omega arith)
      ∙ decode_body_two iv p1 p2 (omega arith)

  encode-container :
      (iv p1 p2 : List ℕ)
      → length p1 + length p2 + block_size < int_end
      → let cipher = c.encrypt iv (p1 ++ p2) in
        encode c iv p1 p2
        ≡ some (
            c.magic
            ++ (iv
                ++ (word_bytes (length p1)
                    ++ (word_bytes (length p2) ++ (cipher ++ c.hmac (iv ++ cipher))))))
  unfolding encode
  encode-container iv p1 p2 small =
      let fits : leb int_end (length p1 + length p2 + block_size) ≡ false = ground arith in
      simp (fits)

  -- A container made of two payloads that fit, under any vector of 16 bytes, is read back as the same two
  -- payloads, with lawful cryptography.
  pub decode-encode :
      (iv p1 p2 : List ℕ)
      → length iv ≡ block_size
      → length p1 + length p2 + block_size < int_end
      → (file : List ℕ) × (encode c iv p1 p2 ≡ some file) × (decode c file ≡ payloads p1 p2)
  decode-encode iv p1 p2 h small =
      (_, encode-container iv p1 p2 small, decode_container iv p1 p2 h small)

  -- The lengths are not under the HMAC: in the container of two payloads that fit, the lengths of any
  -- other split of the same bytes can be written over those of the two, and the decoder takes the file
  -- and gives that split.
  pub decode-resplit :
      (iv p1 p2 q1 q2 : List ℕ)
      → length iv ≡ block_size
      → length p1 + length p2 + block_size < int_end
      → q1 ++ q2 ≡ p1 ++ p2
      → (rest : List ℕ) × (encode c iv p1 p2
          ≡ some (c.magic ++ (iv ++ (word_bytes (length p1) ++ (word_bytes (length p2) ++ rest)))))
        × (decode c
              (c.magic ++ (iv ++ (word_bytes (length q1) ++ (word_bytes (length q2) ++ rest))))
            ≡ payloads q1 q2)
  decode-resplit iv p1 p2 q1 q2 h small e =
      let long = length-append p1 p2 in
      let long' = length-append q1 q2 in
      let same = ap length e in
      (
        c.encrypt iv (p1 ++ p2) ++ c.hmac (iv ++ c.encrypt iv (p1 ++ p2)),
        encode-container iv p1 p2 small,
        subst
            (λ p.
              decode c (
                c.magic
                ++ (iv
                    ++ (word_bytes (length q1)
                        ++ (word_bytes (length q2)
                            ++ (c.encrypt iv p ++ c.hmac (iv ++ c.encrypt iv p))))))
              ≡ payloads q1 q2)
            e (decode_container iv q1 q2 h (omega arith)),
      )

module _ (c : Crypto) where
  decode_rest-short :
      (iv : List ℕ) (n1 n2 : ℕ) (rest : List ℕ)
      → length rest < hmac_len
      → (length rest ≡ 0) × (decode_rest c iv n1 n2 rest ≡ exits 2)
        ⊎ (0 < length rest) × (decode_rest c iv n1 n2 rest ≡ faults)
  unfolding decode_rest
  decode_rest-short iv n1 n2 rest h = ground arith

  read_exact-some :
      (n : ℕ) (f xs ys : List ℕ) → read_exact n f ≡ some (xs, ys) → length ys + n ≡ length f
  unfolding read_exact
  read_exact-some n f xs ys h = ground (arith, length-drop n f)

  -- A file of fewer than 88 bytes never gives payloads: `main` exits with 2, or, which happens only
  -- above 56 bytes, reads into a null pointer.
  pub decode-short :
      (file : List ℕ)
      → length file < 88
      → (decode c file ≡ exits 2) ⊎ (56 < length file) × (decode c file ≡ faults)
  unfolding decode
  decode-short file h = elim (Option-cases (read_exact magic_len file)) [
    | inl e ↦ inl (rw (e, decode) refl)
    | inr ((magic, file1), e) ↦ elim (Bool-cases (same_text magic_len magic c.magic)) [
      | inr t ↦ inl (rw (e, t, decode) refl)
      | inl t ↦ elim (Option-cases (read_exact block_size file1)) [
        | inl e1 ↦ inl (rw (e, t, e1, decode) refl)
        | inr ((iv, file2), e1) ↦ elim (Option-cases (read_exact 4 file2)) [
          | inl e2 ↦ inl (rw (e, t, e1, e2, decode) refl)
          | inr ((w1, file3), e2) ↦ elim (Option-cases (read_exact 4 file3)) [
            | inl e3 ↦ inl (rw (e, t, e1, e2, e3, decode) refl)
            | inr ((w2, rest), e3) ↦
                let n0 = read_exact-some magic_len file magic file1 e in
                let n1 = read_exact-some block_size file1 iv file2 e1 in
                let n2 = read_exact-some 4 file2 w1 file3 e2 in
                let n3 = read_exact-some 4 file3 w2 rest e3 in
                elim (decode_rest-short iv (word_of w1) (word_of w2) rest (omega arith)) [
                  | inl r ↦ inl (rw (e, t, e1, e2, e3, decode) r.1)
                  | inr r ↦ inr (omega (arith, r.0), rw (e, t, e1, e2, e3, decode) r.1)
                ]
          ]
        ]
      ]
    ]
  ]
