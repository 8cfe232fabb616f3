-- ===== src/Cleanup.antt =====
-- rtsp_server/src/k180_record_cleanup.cpp: old recordings are deleted, oldest first, while the disk is
-- too full. A name is the list of its characters' codes. The operating system is a parameter: a world
-- with the answers of its calls. `std::sort` is insertion sort by the comparison given to it; the texts
-- of logs are left out.
pub mod Files
pub mod Deletes
mod Tests
use Prim.Native.Char.{code}
use Prim.Native.String.{String}
use k180_project.Base.{
  ℕ, ◌+◌, ◌*◌, ◌-◌, ◌%◌, Bool, true, false, not, ◌&&◌, ◌||◌, List, [], ◌∷◌, ◌++◌, Option, none,
  some, ltb, leb, ◌==◌, if◌then◌else◌, length, drop, ℤ, pos, negsuc, ltb_ℤ, eqb_ℤ, ◌+ℤ◌, neg_ℤ,
  Floats, u64_mod,
}

-- The code points of a text. `String` has its own `[]` and `∷`.
abbrev pub codes : String → List ℕ
codes String.[] = []
codes (String.◌∷◌ c s) = code c ∷ codes s

-- `memcmp` of as many characters as the first list has, the second being no shorter.
pub is_prefix : List ℕ → List ℕ → Bool
is_prefix [] s = true
is_prefix (p ∷ ps) [] = false
is_prefix (p ∷ ps) (c ∷ s) = p == c && is_prefix ps s

pub starts_with : List ℕ → List ℕ → Bool
unfolding is_prefix
starts_with s prefix = leb (length prefix) (length s) && is_prefix prefix s

pub ends_with : List ℕ → List ℕ → Bool
unfolding is_prefix
ends_with s suffix =
    leb (length suffix) (length s) && is_prefix suffix (drop (length s - length suffix) s)

pub any_prefix : List (List ℕ) → List ℕ → Bool
any_prefix [] name = false
any_prefix (p ∷ ps) name = starts_with name p || any_prefix ps name

abbrev pub prefixes : List (List ℕ)
prefixes =
    codes "s1_ch1234_"
    ∷ codes "s1_ch1_"
    ∷ codes "s1_ch2_"
    ∷ codes "s1_ch3_"
    ∷ codes "s1_ch4_"
    ∷ codes "S1_ch1234_"
    ∷ codes "S1_ch1_"
    ∷ codes "S1_ch2_"
    ∷ codes "S1_ch3_"
    ∷ codes "S1_ch4_"
    ∷ codes "s1_1234_"
    ∷ codes "s1_1_"
    ∷ codes "s1_2_"
    ∷ codes "s1_3_"
    ∷ codes "s1_4_"
    ∷ []

pub is_recording_file_name : List ℕ → Bool
is_recording_file_name name =
    if not (ends_with name (codes ".mp4")) then false else any_prefix prefixes name

abbrev pub slash : ℕ
slash = 47

abbrev pub last_is_slash : List ℕ → Bool
last_is_slash [] = false
last_is_slash (c ∷ []) = c == slash
last_is_slash (c ∷ d ∷ s) = last_is_slash (d ∷ s)

abbrev pub is_root : List ℕ → Bool
is_root [] = true
is_root (c ∷ []) = c == slash
is_root (c ∷ d ∷ s) = false

pub join_path : List ℕ → List ℕ → List ℕ
join_path dir name =
    if is_root dir
    then slash ∷ name
    else if last_is_slash dir
    then dir ++ name
    else dir ++ slash ∷ name

-- What `statvfs` and `lstat` fill in, as far as it is read.
pub record StatVfs : Type 0 where
  pub f_blocks : ℕ
  pub f_frsize : ℕ
  pub f_bavail : ℕ

pub record Stat : Type 0 where
  pub is_reg : Bool
  pub st_mtime : ℤ
  pub st_size : ℕ

-- The operating system's calls on a world; `none` is a failure. `entries` is what `readdir` gives.
pub record System (W : Type 0) : Type 1 where
  pub statvfs : W → List ℕ → Option StatVfs
  pub entries : W → List ℕ → Option (List (List ℕ))
  pub lstat : W → List ℕ → Option Stat
  pub time : W → ℤ
  pub unlink : W → List ℕ → W × Bool
  pub db : Floats
  pub to_double : ℕ → db.F

pub record CandidateFile : Type 0 where
  pub path : List ℕ
  pub mtime : ℤ
  pub size : ℕ

pub record FsUsage (F : Type 0) : Type 0 where
  pub total_bytes : ℕ
  pub avail_bytes : ℕ
  pub used_percent : F

-- `std::string`'s `<`.
pub path_lt : List ℕ → List ℕ → Bool
path_lt s [] = false
path_lt [] (d ∷ t) = true
path_lt (c ∷ s) (d ∷ t) = if c == d then path_lt s t else ltb c d

pub before : CandidateFile → CandidateFile → Bool
before a b = if not (eqb_ℤ a.mtime b.mtime) then ltb_ℤ a.mtime b.mtime else path_lt a.path b.path

pub insert_file : CandidateFile → List CandidateFile → List CandidateFile
insert_file f [] = f ∷ []
insert_file f (g ∷ gs) = let rest = insert_file f gs in if before g f then g ∷ rest else f ∷ g ∷ gs

pub sort_files : List CandidateFile → List CandidateFile
sort_files [] = []
sort_files (f ∷ fs) = insert_file f (sort_files fs)

abbrev pub default_min_age : ℤ
default_min_age = pos 300

module _ {W : Type 0} (sys : System W) where
  pub get_fs_usage : W → List ℕ → Option (FsUsage sys.db.F)
  get_fs_usage w dir = elim (sys.statvfs w dir) [
    | none ↦ none
    | some st ↦
        if st.f_blocks == 0 || st.f_frsize == 0
        then none
        else some (record {
          total_bytes = (st.f_blocks * st.f_frsize) % u64_mod;
          avail_bytes = (st.f_bavail * st.f_frsize) % u64_mod;
          used_percent =
              sys.db.div
                (sys.db.mul
                  (sys.to_double
                    (if ltb st.f_bavail st.f_blocks then st.f_blocks - st.f_bavail else 0))
                  (sys.db.lit 100 1))
                (sys.to_double st.f_blocks);
        })
  ]

  -- The tests on one entry of the directory; `none` is `continue`.
  pub candidate_of : W → List ℕ → ℤ → ℤ → List ℕ → Option CandidateFile
  candidate_of w dir now min_age name =
      if not (is_recording_file_name name) then none else elim (sys.lstat w (join_path dir name)) [
        | none ↦ none
        | some st ↦
            if not st.is_reg
            then none
            else if ltb_ℤ (pos 0) min_age
                && not (eqb_ℤ now (negsuc 0))
                && ltb_ℤ (now +ℤ neg_ℤ min_age) st.st_mtime
            then none
            else some (record { path = join_path dir name; mtime = st.st_mtime; size = st.st_size })
      ]

  -- The loop over `readdir`; the names `.` and `..` are no recordings.
  pub candidates_of : W → List ℕ → ℤ → ℤ → List (List ℕ) → List CandidateFile
  candidates_of w dir now min_age [] = []
  candidates_of w dir now min_age (name ∷ names) =
      let rest = candidates_of w dir now min_age names in
      elim (candidate_of w dir now min_age name) [ none ↦ rest | some f ↦ f ∷ rest ]

  pub collect_candidate_files : W → List ℕ → ℤ → List CandidateFile
  collect_candidate_files w dir min_age = elim (sys.entries w dir) [
    | none ↦ []
    | some names ↦ sort_files (candidates_of w dir (sys.time w) min_age names)
  ]

  -- Whether `usage.used_percent < high_water_percent`; `none` if the usage cannot be read.
  pub is_low : W → List ℕ → sys.db.F → Option Bool
  unfolding get_fs_usage
  is_low w dir high = elim (get_fs_usage w dir) [
    | none ↦ none
    | some usage ↦ some (sys.db.lt usage.used_percent high)
  ]

  -- The look at the usage after the loop.
  pub is_done : W → List ℕ → sys.db.F → Bool
  unfolding get_fs_usage
  is_done w dir high = elim (get_fs_usage w dir) [
    | none ↦ false
    | some usage ↦ if sys.db.le high usage.used_percent then false else true
  ]

  -- The loop over the files, and the last look at the usage after it.
  pub delete_files : W → List ℕ → sys.db.F → List CandidateFile → W × Bool
  delete_files w dir high [] = (w, is_done w dir high)
  delete_files w dir high (f ∷ fs) = elim (is_low w dir high) [
    | none ↦ (w, false)
    | some true ↦ (w, true)
    | some false ↦ delete_files (sys.unlink w f.path).0 dir high fs
  ]

  abbrev pub high_of : sys.db.F → sys.db.F
  high_of high =
      if sys.db.le high (sys.db.lit 0 1) || sys.db.lt (sys.db.lit 100 1) high
      then sys.db.lit 95 1
      else high

  abbrev pub age_of : ℤ → ℤ
  age_of min_age = if ltb_ℤ min_age (pos 0) then default_min_age else min_age

  -- `dir` is the directory given, or the one of the build where that is null or empty.
  pub cleanup_once : W → List ℕ → sys.db.F → ℤ → W × Bool
  cleanup_once w dir high min_age = elim (is_low w dir (high_of high)) [
    | none ↦ (w, false)
    | some true ↦ (w, true)
    | some false ↦ elim (collect_candidate_files w dir (age_of min_age)) [
      | [] ↦ (w, false)
      | f ∷ fs ↦ delete_files w dir (high_of high) (f ∷ fs)
    ]
  ]

  -- A round of the thread: the wait ends by the stop flag, or after a minute.
  pub thread_round : Bool → W → List ℕ → Option W
  thread_round stop w dir =
      if stop then none else some (cleanup_once w dir (sys.db.lit 95 1) default_min_age).0

-- The thread that cleans up: `g_started`, `g_stop`, and how many threads run.
pub record Runtime : Type 0 where
  pub started : Bool
  pub stop : Bool
  pub threads : ℕ

pub start_runtime_cleanup : Runtime → Runtime
start_runtime_cleanup r =
    if r.started then r else record { started = true; stop = false; threads = r.threads + 1 }

-- The thread ends at its next look at `g_stop`, and is joined.
pub stop_runtime_cleanup : Runtime → Runtime
stop_runtime_cleanup r =
    if not r.started then r else record { started = false; stop = false; threads = r.threads - 1 }
