-- ===== src/Rest/Json.antt =====
-- restful_api/src/restful_api_server.c: JSON values as json-c hands them out. An object is the list of
-- its members in the order in which `json_object_object_foreach` gives them; `F` is the type of doubles.
use Prim.Native.String.{String}
use k180_project.Base.{Bool, Option, none, some, ℤ}

mutual
  pub data Json (F : Type 0) : Type 0 where
    null : Json F
    bool : Bool → Json F
    int : ℤ → Json F
    dbl : F → Json F
    str : String → Json F
    arr : Items F → Json F
    obj : Members F → Json F

  pub data Items (F : Type 0) : Type 0 where
    nil : Items F
    item : Json F → Items F → Items F

  pub data Members (F : Type 0) : Type 0 where
    end : Members F
    member : String → Json F → Members F → Members F

-- The calls of json-c: lookup and insertion in an object, and the numbers' conversions.
pub record JsonC (F : Type 0) : Type 0 where
  pub get_ex : Members F → String → Option (Json F)
  pub object_add : Members F → String → Json F → Members F
  pub get_int : ℤ → ℤ
  pub int_to_double : ℤ → F

-- A member that is an object.
unfoldable pub as_object : {F : Type 0} → Option (Json F) → Option (Members F)
as_object (some (obj m)) = some m
as_object _ = none
