-- ===== src/Rest/Update.antt =====
-- restful_api_server.c: the checks on new settings, and their application.
use Prim.Native.String.{String}
use text.Mathlib.Text.{◌==◌ as str_eq}
use k180_project.Base.{
  ℕ, suc, Bool, true, false, not, ◌&&◌, ◌||◌, List, [], ◌∷◌, Option, none, some, ltb, if◌then◌else◌,
  ℤ, pos, eqb_ℤ, leb_ℤ, Floats,
}
use k180_project.Rest.Json.{
  Json, int, dbl, str, arr, obj, Items, nil, item, Members, end, member, JsonC, as_object,
}
use k180_project.Rest.Query.{is_valid_query}

unfoldable pub is_in_int_list : ℤ → List ℤ → Bool
is_in_int_list value [] = false
is_in_int_list value (v ∷ vs) = eqb_ℤ value v || is_in_int_list value vs

module _ (fl : Floats) where
  open fl use {F, lit, sub, neg, lt}

  -- `fabs(value - list[i]) < 0.0001` for one of them; -0 counts as 0.
  unfoldable pub is_in_double_list : F → List F → Bool
  is_in_double_list value [] = false
  is_in_double_list value (v ∷ vs) =
      let d = sub value v in
      lt (if lt d (lit 0 1) then neg d else d) (lit 1 10000) || is_in_double_list value vs

  -- What is outside: json-c, `inet_pton`, and the contents of the firmware's file, as parsed; `none` if
  -- any step of opening, locking, reading or parsing it fails.
  pub record Outside : Type 0 where
    pub json : JsonC F
    pub inet_pton : String → Bool
    pub fw_info : Option (Json F)

  module _ (o : Outside) where
    unfoldable pub parsed_fps : Option (Json F) → ℤ
    unfolding is_in_int_list
    parsed_fps (some (int n)) =
        let parsed = o.json.get_int n in
        if eqb_ℤ parsed (pos 30) || eqb_ℤ parsed (pos 60) then parsed else pos 30
    parsed_fps _ = pos 30

    unfoldable pub get_max_stream_fps : ℤ
    unfolding parsed_fps as_object
    get_max_stream_fps = elim (as_object o.fw_info) [
      | none ↦ pos 30
      | some root ↦ elim (as_object (o.json.get_ex root "sysinfo")) [
        | none ↦ pos 30
        | some sysinfo ↦ parsed_fps (o.json.get_ex sysinfo "max_stream_fps")
      ]
    ]

    abbrev pub fps_list : List ℤ
    fps_list = pos 1 ∷ pos 5 ∷ pos 10 ∷ pos 15 ∷ pos 20 ∷ pos 30 ∷ pos 60 ∷ []

    unfoldable pub is_valid_stream_fps : ℤ → Bool
    unfolding is_in_int_list get_max_stream_fps
    is_valid_stream_fps fps = is_in_int_list fps fps_list && leb_ℤ fps get_max_stream_fps

    unfoldable pub is_int_in : List ℤ → Json F → Bool
    unfolding is_in_int_list
    is_int_in vals (int n) = is_in_int_list (o.json.get_int n) vals
    is_int_in vals _ = false

    unfoldable pub is_fps : Json F → Bool
    unfolding is_valid_stream_fps
    is_fps (int n) = is_valid_stream_fps (o.json.get_int n)
    is_fps _ = false

    abbrev pub datarates : List F
    datarates = lit 2 10 ∷ lit 5 10 ∷ lit 1 1 ∷ lit 2 1 ∷ lit 4 1 ∷ lit 6 1 ∷ lit 8 1 ∷ []

    unfoldable pub is_datarate : Json F → Bool
    unfolding is_in_double_list
    is_datarate (dbl x) = is_in_double_list x datarates
    is_datarate (int n) = is_in_double_list (o.json.int_to_double n) datarates
    is_datarate _ = false

    unfoldable pub is_address : Json F → Bool
    is_address (str s) = o.inet_pton s
    is_address _ = false

    unfoldable pub is_netmask : Json F → Bool
    is_netmask (int n) = leb_ℤ (pos 8) (o.json.get_int n) && leb_ℤ (o.json.get_int n) (pos 32)
    is_netmask _ = false

    -- The tests on a setting that is no object in the file, by its key.
    unfoldable pub is_valid_field : String → Json F → Bool
    unfolding is_int_in is_fps is_datarate is_address is_netmask
    is_valid_field key v =
        if str_eq key "resolution"
        then is_int_in (pos 720 ∷ pos 1080 ∷ []) v
        else if str_eq key "fps"
        then is_fps v
        else if str_eq key "datarate"
        then is_datarate v
        else if str_eq key "recorded"
        then is_int_in (pos 0 ∷ pos 1 ∷ pos 2 ∷ []) v
        else if str_eq key "objectdet"
        then is_int_in (pos 0 ∷ pos 1 ∷ []) v
        else if str_eq key "rotate180"
        then is_int_in (pos 0 ∷ pos 1 ∷ []) v
        else if str_eq key "ipaddress" || str_eq key "gateway"
        then is_address v
        else if str_eq key "netmask"
        then is_netmask v
        else true

    -- The settings whose new values set `sys_cfg_change`.
    unfoldable pub is_sys_cfg : String → Bool
    is_sys_cfg key = str_eq key "ipaddress" || str_eq key "gateway" || str_eq key "netmask"

    -- The flag comes in and goes out. It is set before a later setting is refused.
    unfoldable pub validate_json : Members F → Members F → Bool → Bool × Bool
    unfolding is_valid_field is_sys_cfg as_object
    validate_json target end sys_cfg_change = (true, sys_cfg_change)
    validate_json target (member k (obj m) rest) sys_cfg_change =
        elim (as_object (o.json.get_ex target k)) [
          | some t ↦
              let (is_valid, changed) = validate_json t m sys_cfg_change in
              elim is_valid [ true ↦ validate_json target rest changed | false ↦ (false, changed) ]
          | none ↦ elim (is_valid_field k (obj m)) [
            | true ↦ validate_json target rest (sys_cfg_change || is_sys_cfg k)
            | false ↦ (false, sys_cfg_change)
          ]
        ]
    validate_json target (member k v rest) sys_cfg_change = elim (is_valid_field k v) [
      | true ↦ validate_json target rest (sys_cfg_change || is_sys_cfg k)
      | false ↦ (false, sys_cfg_change)
    ]

    unfoldable pub apply_update_json : Members F → Members F → Members F
    unfolding as_object
    apply_update_json target end = target
    apply_update_json target (member k (obj m) rest) = elim (as_object (o.json.get_ex target k)) [
      | some t ↦ apply_update_json (o.json.object_add target k (obj (apply_update_json t m))) rest
      | none ↦ apply_update_json (o.json.object_add target k (obj m)) rest
    ]
    apply_update_json target (member k v rest) =
        apply_update_json (o.json.object_add target k v) rest

    -- `none` where the new settings are refused.
    unfoldable pub update_json : Members F → Members F → Bool → Option (Members F) × Bool
    unfolding validate_json
    update_json target updates sys_cfg_change =
        let (is_valid, changed) = validate_json target updates sys_cfg_change in
        (if is_valid then some (apply_update_json target updates) else none, changed)

    -- The check of each item of an array before any is applied.
    unfoldable pub are_valid_items : Items F → Bool
    unfolding is_valid_query
    are_valid_items nil = true
    are_valid_items (item q rest) = is_valid_query q && are_valid_items rest

    -- The items one after another, on the settings in memory.
    unfoldable pub update_items : Members F → Items F → Bool → Option (Members F) × Bool
    update_items config nil sys_cfg_change = (some config, sys_cfg_change)
    update_items config (item (obj m) rest) sys_cfg_change =
        let (updated, changed) = update_json config m sys_cfg_change in
        elim updated [ some config' ↦ update_items config' rest changed | none ↦ (none, changed) ]
    update_items config (item q rest) sys_cfg_change = (none, sys_cfg_change)

    unfoldable pub count_items : Items F → ℕ
    count_items nil = 0
    count_items (item q rest) = suc (count_items rest)

    -- The body of a PUT: the new settings, or `none` for an answer that refuses it.
    unfoldable pub put_config : Json F → Members F → Bool → Option (Members F) × Bool
    unfolding are_valid_items update_items count_items
    put_config (obj m) config sys_cfg_change =
        if is_valid_query (obj m)
        then update_json config m sys_cfg_change
        else (none, sys_cfg_change)
    put_config (arr items) config sys_cfg_change =
        if not (ltb 0 (count_items items)) || ltb 12 (count_items items)
        then (none, sys_cfg_change)
        else if not (are_valid_items items)
        then (none, sys_cfg_change)
        else update_items config items sys_cfg_change
    put_config q config sys_cfg_change = (none, sys_cfg_change)
