-- ===== src/Cleanup/Tests.antt =====
-- A disk of 100 blocks on which each deletion frees two, at which the theorems on clean-ups apply.
use k180_project.Base.{
  ℕ, ◌+◌, ◌-◌, ◌*◌, ◌/◌, ◌≡◌, refl, ◌⊎◌, true, false, List, [], ◌∷◌, length, none, some, pos, ltb,
  leb, Floats,
}
use k180_project.Cleanup.{
  codes, System, CandidateFile, is_low, cleanup_once, collect_candidate_files, candidate_of,
  high_of, age_of, delete_files, candidates_of, sort_files, insert_file, before,
  is_recording_file_name, join_path, ends_with, starts_with, any_prefix, is_prefix, is_done,
  get_fs_usage,
}
use k180_project.Cleanup.Deletes.{Stops, cleanup_once-Stops}
use k180_project.Cleanup.Files.{OldestFirst, IsIn, IsCandidate, collect_candidate_files-OldestFirst}

abbrev whole : Floats
whole = record {
  F = ℕ;
  lit = λ n d. n / d;
  add = λ a b. a + b;
  sub = λ a b. a - b;
  mul = λ a b. a * b;
  div = λ a b. a / b;
  neg = λ a. a;
  lt = ltb;
  le = leb;
}

-- The world is the number of files deleted. A longer name is a newer file.
abbrev disk : System ℕ
disk = record {
  statvfs = λ w dir. some (record { f_blocks = 100; f_frsize = 512; f_bavail = 2 + 2 * w });
  entries = λ w dir.
      some (codes ".." ∷ codes "s1_ch1_ab.mp4" ∷ codes "s1_ch1_a.mp4" ∷ codes "s1_ch1.txt" ∷ []);
  lstat = λ w path. some (record { is_reg = true; st_mtime = pos (length path); st_size = 9 });
  time = λ w. pos 1000;
  unlink = λ w path. (w + 1, true);
  db = whole;
  to_double = λ n. n;
}

abbrev dir : List ℕ
dir = codes "/data"

-- The older of two recordings is deleted; at 96 % one more, which reaches 94 %.
two_deleted : cleanup_once disk 0 dir 95 (pos 300) ≡ (2, true)
unfolding cleanup_once is_low get_fs_usage collect_candidate_files candidates_of candidate_of
    sort_files insert_file before is_recording_file_name join_path ends_with starts_with any_prefix
    is_prefix delete_files is_done
two_deleted = refl

cleanup_once-Stops_example :
    let mark = high_of disk 95 in
    let files = collect_candidate_files disk 0 dir (age_of disk (pos 300)) in
    let r = cleanup_once disk 0 dir 95 (pos 300) in
    (is_low disk 0 dir mark ≡ none) × (r ≡ (0, false))
    ⊎ (is_low disk 0 dir mark ≡ some true) × (r ≡ (0, true))
    ⊎ (is_low disk 0 dir mark ≡ some false) × (files ≡ []) × (r ≡ (0, false))
    ⊎ (is_low disk 0 dir mark ≡ some false) × Stops disk 0 dir mark files r
cleanup_once-Stops_example = cleanup_once-Stops disk 0 dir 95 (pos 300)

collect_candidate_files-OldestFirst_example :
    let files = collect_candidate_files disk 0 dir (pos 300) in
    OldestFirst files
    × ((names : List (List ℕ))
        → disk.entries 0 dir ≡ some names
        → (f : CandidateFile)
        → (IsIn f files
            → (name : List ℕ) × IsIn name names × IsCandidate disk 0 dir (pos 300) name f)
          × ((name : List ℕ)
              → IsIn name names
              → candidate_of disk 0 dir (disk.time 0) (pos 300) name ≡ some f
              → IsIn f files))
    × (disk.entries 0 dir ≡ none → files ≡ [])
collect_candidate_files-OldestFirst_example =
    collect_candidate_files-OldestFirst disk 0 dir (pos 300)
