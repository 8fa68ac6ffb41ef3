-- ===== src/Webhook/Json.antt =====
-- What `json.Unmarshal` into `map[string]any` yields, and the type assertions on it.
use stoker_operator.Prelude.{String, Bool, Option, none, some, ◌==◌, string_eq, if◌then◌else◌}

mutual
  pub data Json : Type 0 where
    null : Json
    bool : Bool → Json
    number : String → Json
    text : String → Json
    array : Items → Json
    object : Fields → Json

  pub data Items : Type 0 where
    nil : Items
    cons : Json → Items → Items

  -- A key stands in an object once: of repeated keys the decoder keeps the last.
  pub data Fields : Type 0 where
    end : Fields
    field : String → Json → Fields → Fields

-- `v.(map[string]any)`, `v.(string)` and `v.([]any)`, which fail on a missing value too.
abbrev pub as_object : Option Json → Option Fields
as_object (some (object fs)) = some fs
as_object _ = none

abbrev pub as_text : Option Json → Option String
as_text (some (text s)) = some s
as_text _ = none

abbrev pub as_array : Option Json → Option Items
as_array (some (array xs)) = some xs
as_array _ = none

-- `m[key]`
unfoldable pub get : String → Fields → Option Json
get k end = none
get k (field j v fs) = if k == j then some v else get k fs

-- `xs[0]` behind the test of the length
abbrev pub first : Items → Option Json
first nil = none
first (cons x xs) = some x
