-- ===== src/Json.antt =====
-- encoding/json, as the program uses it: a document is the value that a text parses to. The order
-- of an object's members and the layout of the text are not kept, and a member is found by its
-- exact name. `Unmarshal` into a struct is a `do` block over the `read_` functions below, whose
-- `none` is its error; a missing or null member leaves the field's zero value.
pub mod Members
use ocpi_mock_hub.Prelude.{
  ℕ, String, ◌≡◌, Bool, true, false, ◌&&◌, Option, none, some, List, [], ◌∷◌, ◌==ₛ◌, length,
  if◌then◌else◌, ◌>>=◌,
}

-- A float64 is its bit pattern. Its arithmetic is a parameter of the code that computes with it.
abbrev pub Float64 : Type 0
Float64 = ℕ

mutual
  pub data Json : Type 0 where
    null : Json
    bool : Bool → Json
    num : Float64 → Json
    str : String → Json
    arr : Items → Json
    obj : Fields → Json

  pub data Items : Type 0 where
    nil : Items
    cons : Json → Items → Items

  pub data Fields : Type 0 where
    end : Fields
    field : String → Json → Fields → Fields

-- A []byte: the nil slice, a text that is no JSON document (the empty one is `text ""`), a document.
pub data Bytes : Type 0 where
  no_bytes : Bytes
  text : String → Bytes
  doc : Json → Bytes

-- b == nil
abbrev pub is_nil : Bytes → Bool
is_nil no_bytes = true
is_nil _ = false

-- len(b) == 0
abbrev pub is_blank : Bytes → Bool
is_blank no_bytes = true
is_blank (text s) = s ==ₛ ""
is_blank (doc j) = false

-- m[k] of a map[string]any
unfoldable pub get : String → Fields → Option Json
get k end = none
get k (field j v fs) = if j ==ₛ k then some v else get k fs

-- delete(m, k)
unfoldable pub without : String → Fields → Fields
without k end = end
without k (field j v fs) = let rest = without k fs in if j ==ₛ k then rest else field j v rest

-- m[k] = v
unfoldable pub put : String → Json → Fields → Fields
unfolding without
put k v fs = field k v (without k fs)

-- for k, v := range patch { target[k] = v }
unfoldable pub merge : Fields → Fields → Fields
unfolding put
merge end target = target
merge (field k v patch) target = put k v (merge patch target)

unfoldable pub append : Items → Items → Items
append nil ys = ys
append (cons x xs) ys = cons x (append xs ys)

abbrev pub is_empty : Items → Bool
is_empty nil = true
is_empty _ = false

-- json.Unmarshal into a map[string]any: an error, or the map, which null leaves nil.
pub data MapResult : Type 0 where
  map_error nil_map : MapResult
  map_ok : Fields → MapResult

abbrev pub to_map : Json → MapResult
to_map null = nil_map
to_map (obj fs) = map_ok fs
to_map _ = map_error

abbrev pub unmarshal_map : Bytes → MapResult
unmarshal_map (doc j) = to_map j
unmarshal_map _ = map_error

-- json.Unmarshal into a struct that is read from an object's members.
abbrev pub unmarshal_json {ℓ} : {A : Type ℓ} → (Fields → Option A) → Json → Option A
unmarshal_json read null = read end
unmarshal_json read (obj fs) = read fs
unmarshal_json read _ = none

abbrev pub unmarshal {ℓ} : {A : Type ℓ} → (Fields → Option A) → Bytes → Option A
unmarshal read (doc j) = unmarshal_json read j
unmarshal read _ = none

abbrev pub to_string : Option Json → Option String
to_string none = some ""
to_string (some null) = some ""
to_string (some (str s)) = some s
to_string (some _) = none

abbrev pub read_string : String → Fields → Option String
read_string k fs = to_string (get k fs)

abbrev pub to_bool : Option Json → Option Bool
to_bool none = some false
to_bool (some null) = some false
to_bool (some (bool b)) = some b
to_bool (some _) = none

abbrev pub read_bool : String → Fields → Option Bool
read_bool k fs = to_bool (get k fs)

-- The zero float64 has the bit pattern 0.
abbrev pub to_float : Option Json → Option Float64
to_float none = some 0
to_float (some null) = some 0
to_float (some (num x)) = some x
to_float (some _) = none

abbrev pub read_float : String → Fields → Option Float64
read_float k fs = to_float (get k fs)

-- A *string: nil if the member is missing or null.
abbrev pub to_pointer : Option Json → Option (Option String)
to_pointer none = some none
to_pointer (some null) = some none
to_pointer (some (str s)) = some (some s)
to_pointer (some _) = none

-- A field of type any: null stands for nil.
abbrev pub to_any : Option Json → Json
to_any none = null
to_any (some j) = j

-- A []any: nil and the empty list are not told apart.
abbrev pub to_items : Option Json → Option Items
to_items none = some nil
to_items (some null) = some nil
to_items (some (arr xs)) = some xs
to_items (some _) = none

-- A nested struct.
abbrev pub to_struct {ℓ} : {A : Type ℓ} → (Fields → Option A) → Option Json → Option A
to_struct read none = read end
to_struct read (some j) = unmarshal_json read j

-- Members under `omitempty`.
unfoldable pub string_field : String → String → Fields → Fields
string_field k s fs = if s ==ₛ "" then fs else field k (str s) fs

unfoldable pub true_field : String → Bool → Fields → Fields
true_field k b fs = if b then field k (bool true) fs else fs

unfoldable pub pointer_field : String → Option String → Fields → Fields
pointer_field k none fs = fs
pointer_field k (some s) fs = field k (str s) fs

unfoldable pub any_field : String → Json → Fields → Fields
any_field k null fs = fs
any_field k j fs = field k j fs

unfoldable pub items_field : String → Items → Fields → Fields
items_field k nil fs = fs
items_field k xs fs = field k (arr xs) fs

-- strings.ToUpper and the like work on what v.(string) yields: "" if v is no string.
abbrev pub string_or_empty : Option Json → String
string_or_empty (some (str s)) = s
string_or_empty _ = ""
