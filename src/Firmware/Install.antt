-- ===== src/Firmware/Install.antt =====
-- gen_fw_dec.c: what `main` does with the payloads. Each system call's answer is an argument. A file that
-- is installed is written beside its target first and renamed over it.
pub mod Atomic
use k180_project.Base.{
  ℕ, suc, min, Bool, true, false, not, ◌&&◌, List, [], ◌∷◌, ◌++◌, Option, none, some, take, drop,
  if◌then◌else◌,
}
use k180_project.Firmware.{Crypto, exits, faults, payloads, decode}

pub data Write : Type 0 where
  wrote : ℕ → Write
  write_interrupted write_failed : Write

-- A `read` before the end of the source gives up to n + 1 bytes, no more than the buffer takes, with the
-- answers of the calls of `write` that follow it.
pub data Read : Type 0 where
  got : ℕ → List Write → Read
  read_interrupted read_failed : Read

pub data Copied : Type 0 where
  done failed endless : Copied

-- The target and the file beside it.
pub record Files : Type 0 where
  pub dst : Option (List ℕ)
  pub tmp : Option (List ℕ)

-- The inner loop: what is in `tmp`, and what remains of the piece. It does not end while `write` gives 0.
unfoldable pub write_all : List ℕ → List ℕ → List Write → List ℕ × Copied
write_all tmp [] ws = (tmp, done)
write_all tmp (b ∷ bs) [] = (tmp, endless)
write_all tmp (b ∷ bs) (write_interrupted ∷ ws) = write_all tmp (b ∷ bs) ws
write_all tmp (b ∷ bs) (write_failed ∷ ws) = (tmp, failed)
write_all tmp (b ∷ bs) (wrote n ∷ ws) = write_all (tmp ++ take n (b ∷ bs)) (drop n (b ∷ bs)) ws

abbrev pub buffer_size : ℕ
buffer_size = 65536

-- The outer loop: what is in `tmp`, and what remains of the source. At its end `read` gives 0. The loop does
-- not end where the answers run out before.
unfoldable pub copy_all : List ℕ → List ℕ → List Read → List ℕ × Copied
copy_all tmp [] [] = (tmp, done)
copy_all tmp (b ∷ bs) [] = (tmp, endless)
copy_all tmp src (read_interrupted ∷ rs) = copy_all tmp src rs
copy_all tmp src (read_failed ∷ rs) = (tmp, failed)
copy_all tmp [] (got n ws ∷ rs) = (tmp, done)
copy_all tmp (b ∷ bs) (got n ws ∷ rs) =
    let size = min (suc n) buffer_size in
    let (tmp', st) = write_all tmp (take size (b ∷ bs)) ws in
    let rest = copy_all tmp' (drop size (b ∷ bs)) rs in
    elim st [ done ↦ rest | failed ↦ (tmp', failed) | endless ↦ (tmp', endless) ]

pub record Calls : Type 0 where
  pub open_src : Bool
  pub open_tmp : Bool
  pub reads : List Read
  pub fsync_ok : Bool
  pub close_ok : Bool
  pub chmod_ok : Bool
  pub rename_ok : Bool

-- From the end of the copying on.
unfoldable pub finish : Files → Calls → List ℕ → Files × Copied
finish f k tmp =
    if not k.fsync_ok
    then (record f { tmp = none }, failed)
    else if not k.close_ok
    then (record f { tmp = none }, failed)
    else if not k.chmod_ok
    then (record f { tmp = none }, failed)
    else if not k.rename_ok
    then (record f { tmp = none }, failed)
    else (record { dst = some tmp; tmp = none }, done)

-- The source is a staged file, whose content comes first.
unfoldable pub install_file_atomic : List ℕ → Files → Calls → Files × Copied
install_file_atomic src f k =
    if not k.open_src
    then (f, failed)
    else if not k.open_tmp
    then (f, failed)
    else let (tmp, st) = copy_all [] src k.reads in
      elim st [
        | done ↦ finish f k tmp
        | failed ↦ (record f { tmp = none }, failed)
        | endless ↦ (record f { tmp = some tmp }, endless)
      ]

-- `main` ends with an exit code, in undefined behaviour, or not at all.
pub data Ended : Type 0 where
  code : ℕ → Ended
  fault never : Ended

-- `staged1` and `staged2` say how many bytes of a payload reach its staged file. Nothing looks at what `fwrite`
-- and `fclose` answer.
pub record Env : Type 0 where
  pub outputs_open : Bool
  pub staged1 : ℕ
  pub staged2 : ℕ
  pub calls1 : Calls
  pub calls2 : Calls
  pub restart1_ok : Bool
  pub restart2_ok : Bool

-- The second restart is not required.
unfoldable pub restart : Env → Ended
restart e = if not e.restart1_ok then code 8 else code 0

unfoldable pub install_second : Env → List ℕ → Files → Files → (Files × Files) × Ended
install_second e src2 f1 f2 =
    let (f2', st) = install_file_atomic src2 f2 e.calls2 in
    elim st [
      | done ↦ ((f1, f2'), restart e)
      | failed ↦ ((f1, f2'), code 7)
      | endless ↦ ((f1, f2'), never)
    ]

unfoldable pub install_both : Env → List ℕ → List ℕ → Files → Files → (Files × Files) × Ended
install_both e src1 src2 f1 f2 =
    let (f1', st) = install_file_atomic src1 f1 e.calls1 in
    elim st [
      | done ↦ install_second e src2 f1' f2
      | failed ↦ ((f1', f2), code 7)
      | endless ↦ ((f1', f2), never)
    ]

-- The payloads are written to the staged files, which are installed then.
unfoldable pub stage_and_install : Env → List ℕ → List ℕ → Files → Files → (Files × Files) × Ended
stage_and_install e p1 p2 f1 f2 =
    if not e.outputs_open
    then ((f1, f2), code 6)
    else install_both e (take e.staged1 p1) (take e.staged2 p2) f1 f2

-- `main` from the opened input on.
unfoldable pub main : Crypto → Env → List ℕ → Files → Files → (Files × Files) × Ended
main c e file f1 f2 = elim (decode c file) [
  | exits n ↦ ((f1, f2), code n)
  | faults ↦ ((f1, f2), fault)
  | payloads p1 p2 ↦ stage_and_install e p1 p2 f1 f2
]
