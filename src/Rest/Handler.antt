-- ===== src/Rest/Handler.antt =====
-- restful_api_server.c: `handler`, on a request whose body has come in. The polling thread serves one
-- request at a time. What the system calls answer comes with each request. A settings file that parses
-- to no object counts as one that does not parse.
pub mod Routes
pub mod Locks
pub mod Empties
pub mod Access
use Prim.Native.String.{String}
use text.Mathlib.Text.{◌==◌ as str_eq, starts_with}
use k180_project.Base.{
  ℕ, ◌+◌, Bool, true, false, not, ◌&&◌, ◌||◌, List, [], ◌∷◌, ◌++◌, Option, none, some, length, take,
  ltb, leb, ◌==◌, if◌then◌else◌, Floats,
}
use k180_project.Rest.Json.{Json, obj, Members, end, JsonC, as_object}
use k180_project.Rest.Query.{is_valid_query, is_get_query, query_json}
use k180_project.Rest.Update.{Outside, put_config}
use k180_project.Rest.Session.{Sessions, touch, is_token_valid}
use k180_project.Rest.FileName.{is_valid_filename}

-- How a stream is opened: for reading, or for both.
pub data Mode : Type 0 where
  r r_plus : Mode

pub data Command : Type 0 where
  modify_sysip_netplan restart_program_camera reboot_system : Command

-- `config_locked` is a lock on the settings file that no one gives back any more; `is_stuck` is a polling
-- thread that waits for it; `is_crashed` is a process that has ended by undefined behaviour.
pub record Server : Type 0 where
  pub sessions : Sessions
  pub config_file : List ℕ
  pub sys_cfg_change : Bool
  pub config_locked : Bool
  pub is_stuck : Bool
  pub is_crashed : Bool
  pub commands : List Command
  pub removed : List (List ℕ)

-- The answers of the calls on the settings file and of the command after a PUT.
pub record ConfigCalls : Type 0 where
  pub open_ok : Bool
  pub flock_ok : Bool
  pub fdopen_ok : Bool
  pub fread_ok : Bool
  pub ftruncate_ok : Bool
  pub fflush_ok : Bool
  pub fsync_ok : Bool
  pub system_ok : Bool

pub record Request : Type 0 where
  pub url : String
  pub method : String
  -- What follows "Bearer " in the header, if it begins so.
  pub bearer : Option String
  -- The argument `file`.
  pub file : Option (List ℕ)
  pub body : List ℕ

-- What the request meets outside: the clock, a new token, the parsed user file, the recordings. A name or
-- hash that an entry of the user file does not have is `none`, the null pointer.
pub record Meets : Type 0 where
  pub now : ℕ
  pub uuid : String
  pub users : Option (List (Option String × Option String))
  pub config : ConfigCalls
  pub rec_lock_ok : Bool
  pub listing : Option (List (List ℕ))
  pub content : Option (Option (List ℕ))
  pub remove_ok : Bool
  pub system_ok : Bool

pub data Body (F : Type 0) : Type 0 where
  message : Body F
  token : String → Body F
  values : Members F → Body F
  names : List (List ℕ) → Body F
  bytes : List ℕ → Body F

-- A response with its status, none, a call that never returns, or undefined behaviour.
pub data Reply (F : Type 0) : Type 0 where
  queued : ℕ → Body F → Reply F
  unanswered hangs crashes : Reply F

-- `get_string` of a JSON null is a null pointer, and so is what `crypt` answers where it fails: `none`.
pub record Machine (fl : Floats) : Type 0 where
  pub outside : Outside fl
  pub parse : List ℕ → Option (Json fl.F)
  pub print : Members fl.F → List ℕ
  pub get_string : Json fl.F → Option String
  pub crypt : String → String → Option String
  pub fwrite : Mode → List ℕ → ℕ

pub data Verdict : Type 0 where
  granted denied broken : Verdict

abbrev pub max_upload_size : ℕ
max_upload_size = 2048

-- A piece of the body: `none` is MHD_NO.
pub upload : List ℕ → List ℕ → Option (List ℕ)
upload data_ piece =
    if leb max_upload_size (length data_ + length piece) then none else some (data_ ++ piece)

pub same_list : List ℕ → List ℕ → Bool
same_list [] [] = true
same_list (c ∷ s) (d ∷ t) = c == d && same_list s t
same_list s t = false

abbrev pub record_dir : List ℕ
record_dir = b'/' ∷ b'd' ∷ b'a' ∷ b't' ∷ b'a' ∷ b'/' ∷ []

-- Without `.` and `..`.
pub skip_dots : List (List ℕ) → List (List ℕ)
skip_dots [] = []
skip_dots (name ∷ rest) =
    if same_list name (b'.' ∷ []) || same_list name (b'.' ∷ b'.' ∷ [])
    then skip_dots rest
    else name ∷ skip_dots rest

module _ (fl : Floats) (mc : Machine fl) where
  open fl use {F}

  abbrev pub bad : ℕ → Reply F
  bad code = queued code message

  -- `strcmp(a, b) == 0`; `none` where one of them is null.
  abbrev pub strcmp_eq : Option String → Option String → Option Bool
  strcmp_eq none b = none
  strcmp_eq (some a) none = none
  strcmp_eq (some a) (some b) = some (str_eq a b)

  abbrev pub verdict_of : Option Bool → Verdict
  verdict_of none = broken
  verdict_of (some true) = granted
  verdict_of (some false) = denied

  unfoldable pub verify_password : Option String → Option String → Verdict
  verify_password (some pass) (some hash) = verdict_of (strcmp_eq (mc.crypt pass hash) (some hash))
  verify_password pass hash = broken

  abbrev pub by_name : Option Bool → Verdict → Verdict → Verdict
  by_name none here rest = broken
  by_name (some true) here rest = here
  by_name (some false) here rest = rest

  -- The first entry of the user decides.
  unfoldable pub verify_users :
      Option String → Option String → List (Option String × Option String) → Verdict
  unfolding verify_password
  verify_users user pass [] = denied
  verify_users user pass ((name, hash) ∷ us) =
      by_name (strcmp_eq name user) (verify_password pass hash) (verify_users user pass us)

  unfoldable pub verify_user :
      Option String → Option String → Option (List (Option String × Option String)) → Verdict
  unfolding verify_users
  verify_user user pass none = denied
  verify_user user pass (some users) = verify_users user pass users

  unfoldable pub credentials : Members F → Option (Option String × Option String)
  credentials m = elim (mc.outside.json.get_ex m "username") [
    | none ↦ none
    | some u ↦ elim (mc.outside.json.get_ex m "password") [
      | none ↦ none
      | some p ↦ some (mc.get_string u, mc.get_string p)
    ]
  ]

  unfoldable pub log_in : Verdict → Server → Meets → Server × Reply F
  log_in granted s w =
      (record s { sessions = touch s.sessions w.uuid w.now }, queued 200 (token w.uuid))
  log_in denied s w = (s, bad 401)
  log_in broken s w = (record s { is_crashed = true }, crashes)

  unfoldable pub login : Server → Request → Meets → Server × Reply F
  unfolding as_object log_in
  login s q w = elim (mc.parse q.body) [
    | none ↦ (s, bad 400)
    | some body ↦ elim (as_object (some body)) [
      | none ↦ (s, bad 401)
      | some m ↦ elim (credentials m) [
        | none ↦ (s, bad 401)
        | some (user, pass) ↦ log_in (verify_user user pass w.users) s w
      ]
    ]
  ]

  pub get_settings : Server → Members F → Json F → Server × Reply F
  get_settings s config (obj m) =
      if not (is_valid_query (obj m)) || not (is_get_query m)
      then (s, bad 400)
      else (s, queued 200 (values (query_json mc.outside.json config end m)))
  get_settings s config _ = (s, bad 400)

  -- From the written file on: the network is set up anew if an address was given.
  pub finish_put : Server → ConfigCalls → Server × Reply F
  finish_put s k =
      if not s.sys_cfg_change
      then (s, queued 200 message)
      else if not k.system_ok
      then (s, bad 400)
      else (
        record s { sys_cfg_change = false; commands = s.commands ++ modify_sysip_netplan ∷ [] },
        queued 200 message,
      )

  -- The file is opened anew by `fdopen(fd, "r")`, and cut to nothing before it is written.
  unfoldable pub write_settings : Server → ConfigCalls → List ℕ → Server × Reply F
  unfolding finish_put
  write_settings s k new_json =
      if not k.ftruncate_ok
      then (s, bad 400)
      else let n = mc.fwrite r new_json in
        let s' : Server = record s { config_file = take n new_json } in
        if not (n == length new_json)
        then (s', bad 400)
        else if not k.fflush_ok || not k.fsync_ok
        then (s', bad 400)
        else finish_put s' k

  unfoldable pub put_updated : Server → ConfigCalls → Option (Members F) × Bool → Server × Reply F
  unfolding write_settings
  put_updated s k (none, changed) = (record s { sys_cfg_change = changed }, bad 400)
  put_updated s k (some config, changed) =
      write_settings (record s { sys_cfg_change = changed }) k (mc.print config)

  unfoldable pub put_settings : Server → ConfigCalls → Members F → Json F → Server × Reply F
  unfolding put_updated
  put_settings s k config q = put_updated s k (put_config fl mc.outside q config s.sys_cfg_change)

  -- With the file read: another method goes on with the lock held.
  unfoldable pub on_settings :
      Server → Request → ConfigCalls → Members F → Json F → Server × Reply F
  unfolding get_settings put_settings
  on_settings s q k config query =
      if str_eq q.method "GET"
      then get_settings s config query
      else if str_eq q.method "PUT"
      then put_settings s k config query
      else (record s { config_locked = true }, bad 404)

  unfoldable pub messages : Server → Request → ConfigCalls → Server × Reply F
  unfolding on_settings as_object
  messages s q k =
      if not k.open_ok
      then (s, bad 400)
      else if s.config_locked
      then (record s { is_stuck = true }, hangs)
      else if not k.flock_ok || not k.fdopen_ok || not k.fread_ok
      then (s, bad 400)
      else elim (as_object (mc.parse s.config_file)) [
        | none ↦ (s, bad 400)
        | some config ↦ elim (mc.parse q.body) [
          | none ↦ (s, bad 400)
          | some query ↦ on_settings s q k config query
        ]
      ]

  pub send_file_list : Server → Meets → Server × Reply F
  send_file_list s w = elim w.listing [
    | none ↦ (s, bad 500)
    | some entries ↦ (s, queued 200 (names (skip_dots entries)))
  ]

  pub download_rec_file : Server → Meets → List ℕ → Server × Reply F
  download_rec_file s w name =
      if not (is_valid_filename name) then (s, bad 500) else elim w.content [
        | none ↦ (s, bad 404)
        | some none ↦ (s, bad 500)
        | some (some content) ↦ (s, queued 200 (bytes content))
      ]

  unfoldable pub delete_rec_file : Server → Meets → List ℕ → Server × Reply F
  delete_rec_file s w name =
      if not (is_valid_filename name)
      then (s, bad 500)
      else if not w.remove_ok
      then (s, bad 500)
      else (record s { removed = s.removed ++ (record_dir ++ name) ∷ [] }, queued 200 message)

  -- Under the lock on the recordings, which is given back.
  abbrev pub with_rec_lock : Server → Meets → Server × Reply F → Server × Reply F
  with_rec_lock s w result = if w.rec_lock_ok then result else (s, unanswered)

  pub run_command : Server → Command → Server
  run_command s c = record s { commands = s.commands ++ c ∷ [] }

  pub restart_or_reboot : Server → Request → Meets → Server × Reply F
  unfolding run_command
  restart_or_reboot s q w =
      if str_eq q.method "PUT" && starts_with q.url "/api/RestartProgram_camera" && w.system_ok
      then (run_command s restart_program_camera, queued 200 message)
      else if str_eq q.method "PUT" && starts_with q.url "/api/RebootSystem"
      then (if w.system_ok then run_command s reboot_system else s, unanswered)
      else (s, bad 404)

  unfoldable pub delete_or_other : Server → Request → Meets → Server × Reply F
  unfolding delete_rec_file restart_or_reboot
  delete_or_other s q w =
      if str_eq q.method "DELETE" && starts_with q.url "/api/del_rec_file"
      then elim q.file [
        | none ↦ restart_or_reboot s q w
        | some name ↦ with_rec_lock s w (delete_rec_file s w name)
      ]
      else restart_or_reboot s q w

  unfoldable pub other_routes : Server → Request → Meets → Server × Reply F
  unfolding send_file_list skip_dots download_rec_file delete_or_other
  other_routes s q w =
      if str_eq q.method "GET" && starts_with q.url "/api/listfiles"
      then with_rec_lock s w (send_file_list s w)
      else if str_eq q.method "GET" && starts_with q.url "/api/download"
      then elim q.file [
        | none ↦ delete_or_other s q w
        | some name ↦ with_rec_lock s w (download_rec_file s w name)
      ]
      else delete_or_other s q w

  -- Behind the check of the token.
  unfoldable pub authorised : Server → Request → Meets → Server × Reply F
  unfolding other_routes
  authorised s q w =
      if str_eq q.url "/api/messages" then messages s q w.config else other_routes s q w

  unfoldable pub check_auth : Server → Request → Meets → Server × Bool
  check_auth s q w = elim q.bearer [
    | none ↦ (s, false)
    | some tok ↦
        let (sessions', ok) = is_token_valid s.sessions tok w.now in
        (record s { sessions = sessions' }, ok)
  ]

  unfoldable pub handler : Server → Request → Meets → Server × Reply F
  handler s q w =
      if s.is_stuck
      then (s, hangs)
      else if s.is_crashed
      then (s, crashes)
      else if str_eq q.url "/login" && str_eq q.method "POST"
      then login s q w
      else let (s', ok) = check_auth s q w in if not ok then (s', bad 401) else authorised s' q w

  -- The requests one after another.
  unfoldable pub serve : Server → List (Request × Meets) → Server
  serve s [] = s
  serve s ((q, w) ∷ qs) = serve (handler s q w).0 qs
