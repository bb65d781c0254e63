-- ===== src/Records/RoundTrip.antt =====
-- A session record survives the store: what is marshalled unmarshals to itself.
use ocpi_mock_hub.Prelude.{
  String, ◌≡◌, refl, Option, none, some, Bool, true, false, ◌==ₛ◌, arith, eq_iff, if◌then◌else◌,
}
use ocpi_mock_hub.Json.{
  Json, null, str, bool, arr, Items, nil, cons, Fields, get, to_string, to_bool, to_pointer, to_any,
  to_items, to_struct, pointer_field, any_field, items_field,
}
use ocpi_mock_hub.Json.Members.{get-string_field, get-true_field}
use ocpi_mock_hub.Records.{
  CdrToken, SessionRecord, read_cdr_token, read_session, cdr_token_json, session_fields,
  marshal_session, unmarshal_session,
}

-- What a member under `omitempty` shows, before the members behind it.
pub pointer_or : Option String → Option Json → Option Json
pointer_or none o = o
pointer_or (some s) o = some (str s)

pub any_or : Json → Option Json → Option Json
any_or null o = o
any_or j o = some j

pub items_or : Items → Option Json → Option Json
items_or nil o = o
items_or xs o = some (arr xs)

pub get-pointer_field :
    (k j : String) (o : Option String) (fs : Fields)
    → get j (pointer_field k o fs) ≡ (if k ==ₛ j then pointer_or o (get j fs) else get j fs)
unfolding get pointer_field pointer_or
get-pointer_field k j none fs = ground arith
get-pointer_field k j (some s) fs = ground arith

pub get-any_field :
    (k j : String) (v : Json) (fs : Fields)
    → get j (any_field k v fs) ≡ (if k ==ₛ j then any_or v (get j fs) else get j fs)
unfolding get any_field any_or
get-any_field k j null fs = ground arith
get-any_field k j v fs = ground arith

pub get-items_field :
    (k j : String) (xs : Items) (fs : Fields)
    → get j (items_field k xs fs) ≡ (if k ==ₛ j then items_or xs (get j fs) else get j fs)
unfolding get items_field items_or
get-items_field k j nil fs = ground arith
get-items_field k j (cons x xs) fs = ground arith

pub pointer_omitted : (o : Option String) → to_pointer (pointer_or o none) ≡ some o
unfolding pointer_or
pointer_omitted none = refl
pointer_omitted (some s) = refl

pub any_omitted : (j : Json) → to_any (any_or j none) ≡ j
unfolding any_or
any_omitted null = refl
any_omitted _ = refl

pub items_omitted : (xs : Items) → to_items (items_or xs none) ≡ some xs
unfolding items_or
items_omitted nil = refl
items_omitted _ = refl

pub string_omitted : (s : String) → to_string (if s ==ₛ "" then none else some (str s)) ≡ some s
string_omitted s = ground (arith, eq_iff s "")

pub bool_omitted : (b : Bool) → to_bool (if b then some (bool true) else none) ≡ some b
bool_omitted true = refl
bool_omitted false = refl

pub ruleset members = (
  get-string_field, get-true_field, get-pointer_field, get-any_field, get-items_field,
  string_omitted, bool_omitted, pointer_omitted, any_omitted, items_omitted,
)

read-cdr_token : (t : CdrToken) → to_struct read_cdr_token (some (cdr_token_json t)) ≡ some t
unfolding cdr_token_json read_cdr_token get
read-cdr_token t = simp members

-- Every session record that is marshalled into the store unmarshals to itself, member by member,
-- those that omitempty leaves out included.
pub unmarshal-marshal_session : (s : SessionRecord) → unmarshal_session (marshal_session s) ≡ some s
unfolding unmarshal_session marshal_session read_session session_fields get
unmarshal-marshal_session s = simp (members, read-cdr_token)
