-- ===== src/Artifact/Json.antt =====
-- A decoded JSON value, as `encoding/json` gives it for `interface{}`: a number is its text.
use mender_artifact.Prelude.{Bool, Option, none, some, Bytes, eqb, if◌then◌else◌}

mutual
  pub data Json : Type 0 where
    null : Json
    bool : Bool → Json
    number : Bytes → Json
    text : Bytes → Json
    array : Items → Json
    object : Fields → Json

  pub data Items : Type 0 where
    nil : Items
    cons : Json → Items → Items

  pub data Fields : Type 0 where
    end : Fields
    field : Bytes → Json → Fields → Fields

-- A `map[string]interface{}`: a read, and a write that replaces or appends.
unfoldable pub get_field : Bytes → Fields → Option Json
get_field k end = none
get_field k (field j v m) = if eqb j k then some v else get_field k m

unfoldable pub set_field : Bytes → Json → Fields → Fields
set_field k v end = field k v end
set_field k v (field j w m) = if eqb j k then field k v m else field j w (set_field k v m)
