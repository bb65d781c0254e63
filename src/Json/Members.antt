-- ===== src/Json/Members.antt =====
-- The maps that encoding/json reads, written and read back.
use ocpi_mock_hub.Prelude.{
  String, ◌≡◌, refl, Option, none, some, arith, ◌==ₛ◌, eq_iff, if◌then◌else◌, Bool, true,
}
use ocpi_mock_hub.Json.{
  Json, bool, str, Fields, end, field, get, without, put, merge, string_field, true_field,
}

pub get-without :
    (k j : String) (fs : Fields) → get j (without k fs) ≡ (if k ==ₛ j then none else get j fs)
unfolding get without
get-without k j end = ground arith
get-without k j (field i v fs) =
    ground (arith, get-without k j fs, eq_iff i k, eq_iff i j, eq_iff k j)

pub get-put :
    (k j : String) (v : Json) (fs : Fields)
    → get j (put k v fs) ≡ (if k ==ₛ j then some v else get j fs)
unfolding get put
get-put k j v fs = ground (arith, get-without k j fs)

abbrev pub or_other : Option Json → Option Json → Option Json
or_other none o = o
or_other (some v) o = some v

-- Merging overwrites exactly the members that the patch has.
pub get-merge :
    (j : String) (patch target : Fields)
    → get j (merge patch target) ≡ or_other (get j patch) (get j target)
unfolding get merge
get-merge j end target = refl
get-merge j (field k v patch) target =
    ground (arith, get-put k j v (merge patch target), get-merge j patch target)

pub get-string_field :
    (k j s : String) (fs : Fields)
    → get j (string_field k s fs)
      ≡ (if k ==ₛ j then (if s ==ₛ "" then get j fs else some (str s)) else get j fs)
unfolding get string_field
get-string_field k j s fs = ground arith

pub get-true_field :
    (k j : String) (b : Bool) (fs : Fields)
    → get j (true_field k b fs)
      ≡ (if k ==ₛ j then (if b then some (bool true) else get j fs) else get j fs)
unfolding get true_field
get-true_field k j b fs = ground arith
