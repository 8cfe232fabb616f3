-- ===== src/Rest/Checks.antt =====
-- restful_api_server.c: settings that have passed the checks, and PUT requests as a whole.
use Prim.Native.String.{String}
use text.Mathlib.Text.{◌==◌ as str_eq}
use text.Mathlib.TextEquality.{eq_iff}
use mathlib.Core.Bool.{false≢true}
use k180_project.Base.{
  ◌≡◌, refl, sym, ap, ◌∙◌, ◌⊎◌, inl, inr, Bool, true, false, ◌||◌, Option, none, some,
  if◌then◌else◌, arith, Bool-cases, subst, Floats, some_inj, both-true,
}
use k180_project.Rest.Json.{Json, null, obj, Members, end, member, as_object}
use k180_project.Rest.Query.{is_valid_query, are_valid_tops, are_valid_subs}
use k180_project.Rest.Update.{
  Outside, is_valid_field, is_sys_cfg, validate_json, apply_update_json, update_json, put_config,
}
use k180_project.Rest.Settings.{IsLawful, last_sub, last_top, setting, HasGroups, apply-setting}

-- A check that passes, and what follows it.
checks_on :
    (b : Bool) (next : Bool × Bool) (flag : Bool)
    → (let r : Bool × Bool = elim b [ true ↦ next | false ↦ (false, flag) ] in r.0) ≡ true
    → (b ≡ true) × (next.0 ≡ true)
checks_on true next flag h = (refl, h)
checks_on false next flag h = absurd (ground arith)

none_not_some : {A : Type 0} {x : A} → ◌≡◌ {A = Option A} none (some x) → ⊥
none_not_some h = cc

module _ (fl : Floats) (o : Outside fl) where
  open fl use {F}

  -- Each of the members passes the checks on its key.
  abbrev AllFields : Members F → Type 0
  AllFields end = Unit {0}
  AllFields (member k v rest) = (is_valid_field fl o k v ≡ true) × AllFields rest

  abbrev AllGroups : Members F → Type 0
  AllGroups end = Unit {0}
  AllGroups (member k (obj m) rest) = AllFields m × AllGroups rest
  AllGroups (member k v rest) = AllGroups rest

  -- Each setting of a group passes the checks on its key.
  abbrev pub AllValid : Members F → Type 0
  AllValid config =
      (top sub : String) (v : Json F)
      → setting (o.json) config top sub ≡ some v
      → is_valid_field fl o sub v ≡ true

  validate-AllFields :
      (t m : Members F) (top : String) (flag : Bool)
      → are_valid_subs top m ≡ true
      → (validate_json fl o t m flag).0 ≡ true
      → AllFields m
  unfolding are_valid_subs validate_json
  validate-AllFields t end top flag v h = tt
  validate-AllFields t (member k null rest) top flag v h =
      let next = validate_json fl o t rest (flag || is_sys_cfg fl o k) in
      let r = checks_on (is_valid_field fl o k null) next flag h in
      (r.0, validate-AllFields t rest top (flag || is_sys_cfg fl o k) (both-true _ _ v).1 r.1)
  validate-AllFields t (member k (obj m) rest) top flag v h = absurd (false≢true v)
  validate-AllFields t (member k x rest) top flag v h =
      let next = validate_json fl o t rest (flag || is_sys_cfg fl o k) in
      let r = checks_on (is_valid_field fl o k x) next flag h in
      (r.0, validate-AllFields t rest top (flag || is_sys_cfg fl o k) (both-true _ _ v).1 r.1)

  validate-AllGroups :
      (config q : Members F) (flag : Bool)
      → are_valid_tops q ≡ true
      → HasGroups (o.json) config q
      → (validate_json fl o config q flag).0 ≡ true
      → AllGroups q
  unfolding are_valid_tops validate_json as_object
  validate-AllGroups config end flag v g h = tt
  validate-AllGroups config (member k (obj m) rest) flag v ((t, e), g) h =
      let parts = both-true (are_valid_subs k m) (are_valid_tops rest) (both-true _ _ v).1 in
      let inner = validate_json fl o t m flag in
      let r =
        checks_on inner.0 (validate_json fl o config rest inner.1) inner.1
          (rw (e, validate_json) at h) in
      (
        validate-AllFields t m k flag parts.0 r.0,
        validate-AllGroups config rest inner.1 parts.1 g r.1,
      )
  validate-AllGroups config (member k x rest) flag v g h = absurd (false≢true v)

  given :
      (k key : String) (x v : Json F) (d : Option (Json F))
      → is_valid_field fl o k x ≡ true
      → (if str_eq k key then some x else d) ≡ some v
      → (d ≡ some v) ⊎ (is_valid_field fl o key v ≡ true)
  given k key x v d a e = elim (Bool-cases (str_eq k key)) [
    | inl b ↦
        let same : x ≡ v = some_inj (rw b at e) in
        inr (
          subst (λ z. is_valid_field fl o key z ≡ true) same
            (subst (λ z. is_valid_field fl o z x ≡ true) ((eq_iff k key).0 b) a))
    | inr b ↦ inl (rw b at e)
  ]

  last_sub-valid :
      (m : Members F) (key : String) (d : Option (Json F)) (v : Json F)
      → AllFields m
      → last_sub m key d ≡ some v
      → (d ≡ some v) ⊎ (is_valid_field fl o key v ≡ true)
  unfolding last_sub
  last_sub-valid end key d v a h = inl h
  last_sub-valid (member k x rest) key d v a h =
      elim (last_sub-valid rest key (if str_eq k key then some x else d) v a.1 h) [
        | inr ok ↦ inr ok
        | inl e ↦ given k key x v d a.0 e
      ]

  last_top-valid :
      (q : Members F) (top sub : String) (d : Option (Json F)) (v : Json F)
      → are_valid_tops q ≡ true
      → AllGroups q
      → last_top q top sub d ≡ some v
      → (d ≡ some v) ⊎ (is_valid_field fl o sub v ≡ true)
  unfolding last_top are_valid_tops
  last_top-valid end top sub d v t a h = inl h
  last_top-valid (member k (obj m) rest) top sub d v t a h =
      let rests = (both-true (are_valid_subs k m) (are_valid_tops rest) (both-true _ _ t).1).1 in
      elim (last_top-valid rest top sub (if str_eq k top then last_sub m sub d else d) v rests a.1
        h) [
          | inr ok ↦ inr ok
          | inl e ↦ elim (Bool-cases (str_eq k top)) [
            | inl b ↦ last_sub-valid m sub d v a.0 (rw b at e)
            | inr b ↦ inl (rw b at e)
          ]
        ]
  last_top-valid (member k x rest) top sub d v t a h = absurd (false≢true t)

module _ (fl : Floats) (o : Outside fl) (law : IsLawful (o.json)) where
  open fl use {F}

  -- On settings that have the groups it names, a PUT of one query that is accepted gives each setting the
  -- value that it names last and leaves the others as they were; and settings that all passed the checks
  -- on their keys still do.
  pub put_config-setting :
      (config q config' : Members F) (flag flag' : Bool)
      → HasGroups (o.json) config q
      → put_config fl o (obj q) config flag ≡ (some config', flag')
      → ((top sub : String)
          → setting (o.json) config' top sub ≡ last_top q top sub (setting (o.json) config top sub))
        × (AllValid fl o config → AllValid fl o config')
  unfolding put_config update_json is_valid_query
  put_config-setting config q config' flag flag' g h = elim (Bool-cases (are_valid_tops q)) [
    | inr b ↦ absurd (none_not_some (ap (λ x. x.0) (rw b at h)))
    | inl b ↦ elim (Bool-cases (validate_json fl o config q flag).0) [
      | inr c ↦ absurd (none_not_some (ap (λ x. x.0) (rw (b, c) at h)))
      | inl c ↦
          let same : apply_update_json fl o config q ≡ config' =
            some_inj (ap (λ x. x.0) (rw (b, c) at h)) in
          let reads = λ (top sub : String).
            ap (λ x. setting (o.json) x top sub) (sym same)
            ∙ apply-setting fl o law config q top sub b g in
          (
            reads,
            λ all top sub v e.
                elim (last_top-valid fl o q top sub (setting (o.json) config top sub) v b
                  (validate-AllGroups fl o config q flag b g c) (sym (reads top sub) ∙ e)) [
                    | inl old ↦ all top sub v old
                    | inr new ↦ new
                  ],
          )
    ]
  ]
