-- ===== src/Rest/Settings.antt =====
-- restful_api_server.c: what an accepted update makes of the settings.
use Prim.Native.String.{String}
use text.Mathlib.Text.{◌==◌ as str_eq}
use text.Mathlib.TextEquality.{eq_iff}
use k180_project.Base.{
  ◌≡◌, refl, sym, ap, ◌∙◌, inl, inr, true, Option, none, some, if◌then◌else◌, arith, Bool-cases,
  subst, Floats,
}
use k180_project.Rest.Json.{Json, null, obj, Members, end, member, JsonC, as_object}
use k180_project.Rest.Query.{are_valid_tops, are_valid_subs}
use k180_project.Rest.Update.{Outside, apply_update_json}

-- What json-c documents of an insertion: the key has the new value, and the others are as before.
abbrev pub IsLawful : {F : Type 0} → JsonC F → Type 0
IsLawful {F} j =
    (m : Members F) (k key : String) (v : Json F)
    → j.get_ex (j.object_add m k v) key ≡ (if str_eq k key then some v else j.get_ex m key)

-- The value that the members give a key last, if any, and else `v`.
unfoldable pub last_sub : {F : Type 0} → Members F → String → Option (Json F) → Option (Json F)
last_sub end key v = v
last_sub (member k x rest) key v = last_sub rest key (if str_eq k key then some x else v)

-- The value that a query of groups gives a setting last.
unfoldable pub last_top :
    {F : Type 0} → Members F → String → String → Option (Json F) → Option (Json F)
unfolding last_sub
last_top end top sub v = v
last_top (member k (obj m) rest) top sub v =
    last_top rest top sub (if str_eq k top then last_sub m sub v else v)
last_top (member k x rest) top sub v = last_top rest top sub v

module _ {F : Type 0} (j : JsonC F) where
  -- The value of a setting in a group.
  unfoldable pub setting : Members F → String → String → Option (Json F)
  unfolding as_object
  setting config top sub = elim (as_object (j.get_ex config top)) [
    | none ↦ none
    | some t ↦ j.get_ex t sub
  ]

  -- The settings have each group that the query names.
  abbrev pub HasGroups : Members F → Members F → Type 0
  HasGroups config end = Unit {0}
  HasGroups config (member k v rest) =
      ((t : Members F) × (j.get_ex config k ≡ some (obj t))) × HasGroups config rest

module _ (fl : Floats) (o : Outside fl) (law : IsLawful (o.json)) where
  open fl use {F}

  -- Members that are no objects are inserted one by one.
  apply-flat :
      (t m : Members F) (top key : String)
      → are_valid_subs top m ≡ true
      → o.json.get_ex (apply_update_json fl o t m) key ≡ last_sub m key (o.json.get_ex t key)
  unfolding are_valid_subs apply_update_json last_sub
  apply-flat t end top key h = refl
  apply-flat t (member k null rest) top key h =
      apply-flat (o.json.object_add t k null) rest top key (ground arith)
      ∙ ap (last_sub rest key) (law t k key null)
  apply-flat t (member k (obj m) rest) top key h = absurd (ground arith)
  apply-flat t (member k v rest) top key h =
      apply-flat (o.json.object_add t k v) rest top key (ground arith)
      ∙ ap (last_sub rest key) (law t k key v)

  -- A group is replaced by what the members make of it.
  setting-add :
      (config t : Members F) (k top sub : String)
      → setting (o.json) (o.json.object_add config k (obj t)) top sub
        ≡ (if str_eq k top then o.json.get_ex t sub else setting (o.json) config top sub)
  unfolding setting
  setting-add config t k top sub = elim (Bool-cases (str_eq k top)) [
    | inl e ↦ rw (law config k top (obj t), e, setting) refl
    | inr e ↦ rw (law config k top (obj t), e, setting) refl
  ]

  setting-of :
      (config t : Members F) (top sub : String)
      → o.json.get_ex config top ≡ some (obj t)
      → setting (o.json) config top sub ≡ o.json.get_ex t sub
  unfolding setting
  setting-of config t top sub e = rw (e, setting) refl

  group-add :
      (config t u : Members F) (k i : String)
      → o.json.get_ex config i ≡ some (obj u)
      → (x : Members F) × (o.json.get_ex (o.json.object_add config k (obj t)) i ≡ some (obj x))
  group-add config t u k i e = elim (Bool-cases (str_eq k i)) [
    | inl b ↦ (t, law config k i (obj t) ∙ rw b refl)
    | inr b ↦ (u, law config k i (obj t) ∙ rw b e)
  ]

  groups-add :
      (config q t : Members F) (k : String)
      → HasGroups (o.json) config q
      → HasGroups (o.json) (o.json.object_add config k (obj t)) q
  groups-add config end t k h = tt
  groups-add config (member i v rest) t k ((u, e), h) =
      (group-add config t u k i e, groups-add config rest t k h)

  replaced :
      (config t m : Members F) (k top sub : String)
      → o.json.get_ex config k ≡ some (obj t)
      → are_valid_subs k m ≡ true
      → (if str_eq k top
          then o.json.get_ex (apply_update_json fl o t m) sub
          else setting (o.json) config top sub)
        ≡ (if str_eq k top
            then last_sub m sub (setting (o.json) config top sub)
            else setting (o.json) config top sub)
  replaced config t m k top sub e v = elim (Bool-cases (str_eq k top)) [
    | inl b ↦
        let here : o.json.get_ex config top ≡ some (obj t) =
          subst (λ x. o.json.get_ex config x ≡ some (obj t)) ((eq_iff k top).0 b) e in
        rw b (apply-flat t m k sub v ∙ ap (last_sub m sub) (sym (setting-of config t top sub here)))
    | inr b ↦ rw b refl
  ]

  pub apply-setting :
      (config q : Members F) (top sub : String)
      → are_valid_tops q ≡ true
      → HasGroups (o.json) config q
      → setting (o.json) (apply_update_json fl o config q) top sub
        ≡ last_top q top sub (setting (o.json) config top sub)
  unfolding are_valid_tops apply_update_json last_top as_object
  apply-setting config end top sub v h = refl
  apply-setting config (member k (obj m) rest) top sub v ((t, e), h) =
      let parts : (are_valid_subs k m ≡ true) × (are_valid_tops rest ≡ true) = ground arith in
      let t' = apply_update_json fl o t m in
      rw (e, apply_update_json)
        (apply-setting (o.json.object_add config k (obj t')) rest top sub parts.1
            (groups-add config rest t' k h)
          ∙ ap (last_top rest top sub)
              (setting-add config t' k top sub ∙ replaced config t m k top sub e parts.0))
  apply-setting config (member k x rest) top sub v h = absurd (ground arith)
