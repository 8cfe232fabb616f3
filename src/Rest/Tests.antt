-- ===== src/Rest/Tests.antt =====
-- A settings file of one stream and a machine whose texts are told by their first byte, at which the
-- theorems on the REST server apply.
use Prim.Native.String.{String}
use text.Mathlib.Text.{◌==◌ as str_eq}
use k180_project.Base.{
  ℕ, ◌+◌, ◌-◌, ◌*◌, ◌/◌, ◌≡◌, ◌↔◌, refl, Bool, true, false, List, [], ◌∷◌, Option, none, some,
  length, ltb, leb, ◌==◌, if◌then◌else◌, pos, arith, Floats,
}
use k180_project.Rest.Json.{Json, null, int, str, obj, Members, end, member, JsonC, as_object}
use k180_project.Rest.Query.{is_valid_query, are_valid_tops, are_valid_subs, is_valid_sub, in_list}
use k180_project.Rest.Update.{
  Outside, is_valid_field, is_fps, is_valid_stream_fps, is_in_int_list, get_max_stream_fps,
  is_sys_cfg, put_config, validate_json, update_json, apply_update_json,
}
use k180_project.Rest.Session.{find, touch, is_token_valid, run, Call, login, uses, cleans}
use k180_project.Rest.Session.Expiry.{last_use, is_fresh, run-fresh}
use k180_project.Rest.FileName.{is_valid_filename, IsSafeName, is_valid_filename-IsSafeName}
use k180_project.Rest.Settings.{setting, last_top, IsLawful}
use k180_project.Rest.Checks.{AllValid, put_config-setting}
use k180_project.Rest.Handler.{
  Mode, r, r_plus, Server, ConfigCalls, Request, Meets, Machine, handler, serve, hangs, bad,
  check_auth, login as log_in_route, log_in, crashes, authorised, messages, on_settings,
  put_settings, put_updated, write_settings, other_routes, delete_or_other, delete_rec_file,
  verify_user, verify_users, verify_password, credentials,
}
use k180_project.Rest.Handler.Access.{AllInside, serve-AllInside}
use k180_project.Rest.Handler.Locks.{IsSettings, serve-hangs}
use k180_project.Rest.Handler.Empties.{serve-empties}

abbrev whole : Floats
whole = record {
  F = ℕ;
  lit = λ n d. n / d;
  add = λ a b. a + b;
  sub = λ a b. a - b;
  mul = λ a b. a * b;
  div = λ a b. a / b;
  neg = λ a. a;
  lt = ltb;
  le = leb;
}

-- The member put in last is found first.
abbrev get_first : Members ℕ → String → Option (Json ℕ)
get_first end key = none
get_first (member k v rest) key = if str_eq k key then some v else get_first rest key

abbrev json_c : JsonC ℕ
json_c = record {
  get_ex = get_first;
  object_add = λ m k v. member k v m;
  get_int = λ n. n;
  int_to_double = λ n. 0;
}

abbrev outside : Outside whole
outside = record { json = json_c; inet_pton = λ s. true; fw_info = none }

abbrev settings : Members ℕ
settings = member "stream_1" (obj (member "fps" (int (pos 60)) end)) end

abbrev new_fps : Members ℕ
new_fps = member "stream_1" (obj (member "fps" (int (pos 30)) end)) end

abbrev user_of : String → Members ℕ
user_of pass = member "username" (str "ann") (member "password" (str pass) end)

-- 0 is the settings, 1 the new ones, 2 and 3 are logins, the second of them with a wrong password.
abbrev parsed : List ℕ → Option (Json ℕ)
parsed [] = none
parsed (c ∷ s) =
    if c == 0
    then some (obj settings)
    else if c == 1
    then some (obj new_fps)
    else if c == 2
    then some (obj (user_of "pw"))
    else if c == 3
    then some (obj (user_of "no"))
    else if c == 4
    then some (obj (member "username" null (member "password" (str "pw") end)))
    else none

abbrev text_of : Json ℕ → Option String
text_of (str s) = some s
text_of null = none
text_of v = some ""

-- A stream for reading writes nothing.
abbrev written : Mode → List ℕ → ℕ
written r s = 0
written r_plus s = length s

abbrev machine : Machine whole
machine = record {
  outside = outside;
  parse = parsed;
  print = λ m. 0 ∷ [];
  get_string = text_of;
  crypt = λ pass hash. some pass;
  fwrite = written;
}

abbrev calls : ConfigCalls
calls = record {
  open_ok = true;
  flock_ok = true;
  fdopen_ok = true;
  fread_ok = true;
  ftruncate_ok = true;
  fflush_ok = true;
  fsync_ok = true;
  system_ok = true;
}

abbrev at_time : ℕ → Meets
at_time now = record {
  now = now;
  uuid = "t";
  users = some ((some "ann", some "pw") ∷ []);
  config = calls;
  rec_lock_ok = true;
  listing = none;
  content = none;
  remove_ok = true;
  system_ok = true;
}

abbrev mp4_name : List ℕ
mp4_name = b'a' ∷ b'.' ∷ b'm' ∷ b'p' ∷ b'4' ∷ []

abbrev request : String → String → List ℕ → Request
request method url body = record {
  url = url;
  method = method;
  bearer = some "t";
  file = some mp4_name;
  body = body;
}

-- Before any request, and with one token.
abbrev started : Server
started = record {
  sessions = [];
  config_file = 0 ∷ [];
  sys_cfg_change = false;
  config_locked = false;
  is_stuck = false;
  is_crashed = false;
  commands = [];
  removed = [];
}

abbrev logged_in : Server
logged_in = record started { sessions = ("t", 10) ∷ [] }

abbrev wrong_logins : List (Request × Meets)
wrong_logins =
    (request "POST" "/login" (3 ∷ []), at_time 20)
    ∷ (request "DELETE" "/api/del_rec_file" [], at_time 30)
    ∷ []

abbrev one_removed : List (Request × Meets)
one_removed =
    (request "POST" "/login" (2 ∷ []), at_time 20)
    ∷ (request "DELETE" "/api/del_rec_file" [], at_time 30)
    ∷ []

abbrev three_calls : List (ℕ × Call)
three_calls = (10, login "t") ∷ (300, uses "t") ∷ (400, cleans) ∷ []

run-fresh_example :
    (is_token_valid (run [] three_calls) "t" 600).1 ≡ is_fresh (last_use "t" none three_calls) 600
run-fresh_example =
    run-fresh three_calls "t" 600 (ground arith, (ground arith, (ground arith, ground arith)))

is_valid_filename-IsSafeName_example : (is_valid_filename mp4_name ≡ true) ↔ IsSafeName mp4_name
is_valid_filename-IsSafeName_example = is_valid_filename-IsSafeName mp4_name

json_c-IsLawful : IsLawful json_c
json_c-IsLawful m k key v = refl

abbrev settings' : Members ℕ
settings' =
    member "stream_1" (obj (member "fps" (int (pos 30)) (member "fps" (int (pos 60)) end))) settings

fps_put : put_config whole outside (obj new_fps) settings false ≡ (some settings', false)
unfolding put_config update_json validate_json apply_update_json as_object is_valid_query
    are_valid_tops are_valid_subs is_valid_sub in_list is_valid_field is_fps is_valid_stream_fps
    is_in_int_list get_max_stream_fps is_sys_cfg
fps_put = refl

put_config-setting_example :
    ((top sub : String)
      → setting json_c settings' top sub
        ≡ last_top new_fps top sub (setting json_c settings top sub))
    × (AllValid whole outside settings → AllValid whole outside settings')
put_config-setting_example =
    put_config-setting whole outside json_c-IsLawful settings new_fps settings' false false
      ((member "fps" (int (pos 60)) end, refl), tt) fps_put

abbrev is_no : Option String → Bool
is_no none = false
is_no (some s) = str_eq s "no"

-- A login with a null for the name ends the process.
null_login :
    (handler whole machine started (request "POST" "/login" (4 ∷ [])) (at_time 20)).1 ≡ crashes
unfolding handler log_in_route credentials verify_user verify_users log_in as_object
null_login = refl

serve-AllInside_example : AllInside (serve whole machine started one_removed).removed
serve-AllInside_example = serve-AllInside whole machine started one_removed tt

abbrev a_post : Request
a_post = request "POST" "/api/messages" (1 ∷ [])

abbrev a_put : Request
a_put = request "PUT" "/api/messages" (1 ∷ [])

abbrev a_get : Request
a_get = request "GET" "/api/messages" (1 ∷ [])

post-IsSettings : IsSettings whole machine logged_in a_post (at_time 40)
unfolding check_auth is_token_valid find
post-IsSettings = (refl, refl, refl, refl)

get_after_post :
    IsSettings whole machine
      (serve whole machine (handler whole machine logged_in a_post (at_time 40)).0 [])
      a_get
      (at_time 50)
unfolding check_auth is_token_valid find touch serve handler authorised messages on_settings
    as_object
get_after_post = (refl, refl, refl, refl)

serve-hangs_example :
    let s1 = serve whole machine (handler whole machine logged_in a_post (at_time 40)).0 [] in
    let s2 = serve whole machine (handler whole machine s1 a_get (at_time 50)).0 wrong_logins in
    ((handler whole machine logged_in a_post (at_time 40)).1 ≡ bad whole machine 404)
    × ((handler whole machine s1 a_get (at_time 50)).1 ≡ hangs)
    × ((handler whole machine s2 a_put (at_time 60)).1 ≡ hangs)
unfolding as_object
serve-hangs_example =
    serve-hangs whole machine logged_in a_post (at_time 40) settings (obj new_fps) [] a_get
      (at_time 50) wrong_logins a_put (at_time 60) post-IsSettings refl (refl, refl, refl, refl)
      refl refl refl refl get_after_post refl

put-IsSettings : IsSettings whole machine logged_in a_put (at_time 40)
unfolding check_auth is_token_valid find
put-IsSettings = (refl, refl, refl, refl)

get_after_put :
    IsSettings whole machine
      (serve whole machine (handler whole machine logged_in a_put (at_time 40)).0 wrong_logins)
      a_get
      (at_time 50)
unfolding check_auth is_token_valid find touch serve handler authorised messages on_settings
    put_settings put_updated write_settings log_in_route log_in verify_password verify_user
    verify_users credentials put_config update_json validate_json apply_update_json as_object
    is_valid_query are_valid_tops are_valid_subs is_valid_sub in_list is_valid_field is_fps
    is_valid_stream_fps is_in_int_list get_max_stream_fps is_sys_cfg other_routes delete_or_other
    delete_rec_file is_valid_filename
get_after_put = (refl, refl, refl, refl)

serve-empties_example :
    let s1 =
      serve whole machine (handler whole machine logged_in a_put (at_time 40)).0 wrong_logins in
    ((handler whole machine logged_in a_put (at_time 40)).1 ≡ bad whole machine 400)
    × ((handler whole machine logged_in a_put (at_time 40)).0.config_file ≡ [])
    × ((handler whole machine s1 a_get (at_time 50)).1 ≡ bad whole machine 400)
unfolding as_object
serve-empties_example =
    serve-empties whole machine logged_in a_put (at_time 40) settings settings' (obj new_fps) false
      wrong_logins a_get (at_time 50) refl (ground arith) refl put-IsSettings refl
      (refl, refl, refl, refl) refl refl refl refl refl fps_put get_after_put
