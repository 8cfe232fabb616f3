-- ===== src/Rest/Query.antt =====
-- restful_api_server.c: which queries are taken, and what a GET answers.
use Prim.Native.String.{String}
use text.Mathlib.Text.{◌==◌ as str_eq}
use k180_project.Base.{Bool, true, false, ◌&&◌, ◌||◌, List, [], ◌∷◌, none, some, if◌then◌else◌}
use k180_project.Rest.Json.{Json, Members, str, obj, end, member, JsonC, as_object}

unfoldable pub in_list : String → List String → Bool
in_list key [] = false
in_list key (k ∷ ks) = str_eq key k || in_list key ks

abbrev pub valid_top_keys : List String
valid_top_keys = "system_cfg" ∷ "stream_1" ∷ "stream_2" ∷ []

abbrev pub valid_system_cfg_keys : List String
valid_system_cfg_keys =
    "ipaddress" ∷ "netmask" ∷ "gateway" ∷ "recorded" ∷ "objectdet" ∷ "rotate180" ∷ []

abbrev pub valid_stream_keys : List String
valid_stream_keys = "resolution" ∷ "fps" ∷ "datarate" ∷ []

unfoldable pub is_valid_sub : String → String → Bool
unfolding in_list
is_valid_sub top_key sub_key =
    if str_eq top_key "system_cfg"
    then in_list sub_key valid_system_cfg_keys
    else if str_eq top_key "stream_1" || str_eq top_key "stream_2"
    then in_list sub_key valid_stream_keys
    else true

module _ {F : Type 0} where
  -- The inner loop.
  unfoldable pub are_valid_subs : String → Members F → Bool
  unfolding is_valid_sub
  are_valid_subs top_key end = true
  are_valid_subs top_key (member k (obj m) rest) = false
  are_valid_subs top_key (member k v rest) = is_valid_sub top_key k && are_valid_subs top_key rest

  -- The outer loop.
  unfoldable pub are_valid_tops : Members F → Bool
  unfolding are_valid_subs in_list
  are_valid_tops end = true
  are_valid_tops (member k (obj m) rest) =
      in_list k valid_top_keys && (are_valid_subs k m && are_valid_tops rest)
  are_valid_tops (member k v rest) = false

  unfoldable pub is_valid_query : Json F → Bool
  unfolding are_valid_tops
  is_valid_query (obj m) = are_valid_tops m
  is_valid_query _ = false

  -- Whether a value is asked for: one of the members, at any depth, is the empty text.
  unfoldable pub is_get_query : Members F → Bool
  is_get_query end = false
  is_get_query (member k (str s) rest) = str_eq s "" || is_get_query rest
  is_get_query (member k (obj m) rest) = is_get_query m || is_get_query rest
  is_get_query (member k v rest) = is_get_query rest

  abbrev pub is_end : Members F → Bool
  is_end end = true
  is_end (member k v rest) = false

-- The members asked for, on top of those found so far. The first argument is what the source holds.
module _ {F : Type 0} (j : JsonC F) where
  abbrev pub add_child : Members F → String → Members F → Members F
  add_child result key child = if is_end child then result else j.object_add result key (obj child)

  unfoldable pub query_json : Members F → Members F → Members F → Members F
  unfolding as_object
  query_json source result end = result
  query_json source result (member k (obj q) rest) = elim (as_object (j.get_ex source k)) [
    | none ↦ query_json source result rest
    | some src ↦ query_json source (add_child result k (query_json src end q)) rest
  ]
  query_json source result (member k (str s) rest) = elim (j.get_ex source k) [
    | none ↦ query_json source result rest
    | some v ↦ query_json source (if str_eq s "" then j.object_add result k v else result) rest
  ]
  query_json source result (member k v rest) = query_json source result rest
