-- ===== src/Json.antt =====
-- A decoded JSON document, as encoding/json gives it in an interface{}, and the type assertions that
-- handler/activitypub.go makes on one. Of a number only its truncation to an int is used.
use murlog.Prelude.{
  ℕ, Bool, false, if◌then◌else◌, Option, none, some, List, [], ◌∷◌, String, str_eq,
}

mutual
  pub data Json : Type 0 where
    null : Json
    flag : Bool → Json
    number : ℕ → Json
    text : String → Json
    array : Items → Json
    object : Fields → Json

  pub data Items : Type 0 where
    nil : Items
    cons : Json → Items → Items

  pub data Fields : Type 0 where
    end : Fields
    field : String → Json → Fields → Fields

-- obj[key], `null` where it is missing
abbrev pub get : String → Fields → Json
get key end = null
get key (field k v fs) = let rest = get key fs in if str_eq k key then v else rest

-- s, _ := v.(string)
abbrev pub as_text : Json → String
as_text (text s) = s
as_text _ = ""

-- b, _ := v.(bool)
abbrev pub as_flag : Json → Bool
as_flag (flag b) = b
as_flag _ = false

-- int of v.(float64)
abbrev pub as_number : Json → ℕ
as_number (number n) = n
as_number _ = 0

-- m, ok := v.(map[string]interface{})
abbrev pub as_object : Json → Option Fields
as_object (object fs) = some fs
as_object _ = none

abbrev pub list_of : Items → List Json
list_of nil = []
list_of (cons v vs) = v ∷ list_of vs

-- arr, ok := v.([]interface{})
abbrev pub as_array : Json → Option (List Json)
as_array (array vs) = some (list_of vs)
as_array _ = none

-- s, ok := v.(string)
abbrev pub maybe_text : Json → Option String
maybe_text (text s) = some s
maybe_text _ = none

abbrev pub get_text : String → Fields → String
get_text key fs = as_text (get key fs)

-- the pairs of a map whose values are strings
abbrev pub text_fields : Fields → List (String × String)
text_fields end = []
text_fields (field k (text s) fs) = (k, s) ∷ text_fields fs
text_fields (field k _ fs) = text_fields fs
