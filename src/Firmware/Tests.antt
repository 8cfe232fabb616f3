-- ===== src/Firmware/Tests.antt =====
-- A container under a toy cipher, at which the theorems on firmware apply.
use k180_project.Base.{
  ◌≢◌, ℕ, ◌<◌, ◌≡◌, refl, ◌⊎◌, Bool, true, false, List, [], ◌∷◌, ◌++◌, length, replicate, Option,
  none, some, arith,
}
use k180_project.Firmware.{
  Crypto, encode, decode, payloads, exits, faults, word_bytes, decode_rest, decode_body, split,
  read_exact, same_bytes, same_text, word_of,
}
use k180_project.Firmware.RoundTrip.{IsLawful, decode-encode, decode-resplit, decode-short}
use k180_project.Firmware.Install.{
  got, wrote, write_interrupted, write_all, copy_all, finish, install_file_atomic, install_second,
  install_both, stage_and_install, restart, Files, Calls, Env, main, code, fault,
}
use k180_project.Firmware.Install.Atomic.{Updates, main-Updates}

-- One byte of padding in front, and a tag of the length.
abbrev unpadded : List ℕ → Option (List ℕ)
unpadded [] = none
unpadded (b ∷ bs) = some bs

abbrev toy : Crypto
toy = record {
  magic = replicate 32 77;
  encrypt = λ iv p. 0 ∷ p;
  decrypt = λ iv s. unpadded s;
  hmac = λ m. replicate 32 (length m);
}

toy-IsLawful : IsLawful toy
toy-IsLawful = record {
  magic = refl;
  undoes = λ iv p. refl;
  padded = λ iv p. omega arith;
  tag = λ m. refl;
}

abbrev iv : List ℕ
iv = replicate 16 5

decode-encode_example :
    (file : List ℕ) × (encode toy iv (1 ∷ 2 ∷ []) (3 ∷ []) ≡ some file)
    × (decode toy file ≡ payloads (1 ∷ 2 ∷ []) (3 ∷ []))
decode-encode_example = decode-encode toy toy-IsLawful iv (1 ∷ 2 ∷ []) (3 ∷ []) refl (omega arith)

decode-resplit_example :
    (rest : List ℕ) × (encode toy iv (1 ∷ 2 ∷ []) (3 ∷ [])
      ≡ some (replicate 32 77 ++ (iv ++ (word_bytes 2 ++ (word_bytes 1 ++ rest)))))
    × (decode toy (replicate 32 77 ++ (iv ++ (word_bytes 1 ++ (word_bytes 2 ++ rest))))
        ≡ payloads (1 ∷ []) (2 ∷ 3 ∷ []))
decode-resplit_example =
    decode-resplit toy toy-IsLawful iv (1 ∷ 2 ∷ []) (3 ∷ []) (1 ∷ []) (2 ∷ 3 ∷ []) refl
      (omega arith) refl

-- A header with one byte behind it.
abbrev short : List ℕ
short = replicate 32 77 ++ replicate 25 0

decode-short_example :
    (decode toy short ≡ exits 2) ⊎ (56 < length short) × (decode toy short ≡ faults)
decode-short_example = decode-short toy short (omega arith)

abbrev calls : Bool → Calls
calls renamed = record {
  open_src = true;
  open_tmp = true;
  reads = got 7 (wrote 1 ∷ write_interrupted ∷ wrote 9 ∷ []) ∷ [];
  fsync_ok = true;
  close_ok = true;
  chmod_ok = true;
  rename_ok = renamed;
}

-- One byte of the second payload does not reach its staged file.
abbrev env : Bool → Env
env renamed = record {
  outputs_open = true;
  staged1 = 2;
  staged2 = 1;
  calls1 = calls true;
  calls2 = calls renamed;
  restart1_ok = true;
  restart2_ok = true;
}

abbrev old : Files
old = record { dst = some (9 ∷ []); tmp = none }

-- Two payloads of two bytes.
abbrev full : List ℕ
full =
    replicate 32 77
    ++ (iv ++ (2 ∷ 0 ∷ 0 ∷ 0 ∷ 2 ∷ 0 ∷ 0 ∷ 0 ∷ 0 ∷ 1 ∷ 2 ∷ 3 ∷ 4 ∷ []))
    ++ replicate 32 21

-- The first file is replaced, and the rename of the second fails.
half_done :
    main toy (env false) full old old
    ≡ ((record { dst = some (1 ∷ 2 ∷ []); tmp = none }, old), code 7)
unfolding main stage_and_install install_both install_second install_file_atomic copy_all write_all
    finish decode decode_rest decode_body split read_exact same_bytes same_text word_of
half_done = refl

-- Half of the second payload is installed, and `main` ends with 0.
cut_short : main toy (env true) full old old ≡ (
  (record { dst = some (1 ∷ 2 ∷ []); tmp = none }, record { dst = some (3 ∷ []); tmp = none }),
  code 0,
)
unfolding main stage_and_install install_both install_second install_file_atomic copy_all write_all
    finish restart decode decode_rest decode_body split read_exact same_bytes same_text word_of
cut_short = refl

main-Updates_example :
    ((n : ℕ) × (decode toy full ≡ exits n)
      × (n ≢ 0)
      × (main toy (env false) full old old ≡ ((old, old), code n)))
    ⊎ ((decode toy full ≡ faults) × (main toy (env false) full old old ≡ ((old, old), fault)))
    ⊎ ((p1 p2 : List ℕ) × (decode toy full ≡ payloads p1 p2)
        × Updates (env false) p1 p2 old old (main toy (env false) full old old))
main-Updates_example = main-Updates toy (env false) full old old
