-- ===== src/Examples/Lists.antt =====
-- The theorems on pages and filters at concrete inputs.
use ocpi_mock_hub.Prelude.{
  ℕ, zero, suc, ◌%◌, ◌==◌, if◌then◌else◌, some, ◌≡◌, refl, List, [], ◌∷◌, arith, length, get_elem?,
  pos, to_upper,
}
use ocpi_mock_hub.Json.{Bytes, doc, obj, str, field, end, get}
use ocpi_mock_hub.Paging.{paging_of, forced_paging}
use ocpi_mock_hub.Paging.Walk.{walk, walk_lem}
use ocpi_mock_hub.PartyFilter.{filter_raw_by_party, unmarshal_party}
use ocpi_mock_hub.PartyFilter.Laws.{belongs, IsTagged, filter_raw_by_party-leaks}
use ocpi_mock_hub.Examples.Worlds.{origin}

abbrev numbers_1_to_5 : List ℕ
numbers_1_to_5 = 1 ∷ 2 ∷ 3 ∷ 4 ∷ 5 ∷ []

abbrev numbers_5_to_1 : List ℕ
numbers_5_to_1 = 5 ∷ 4 ∷ 3 ∷ 2 ∷ 1 ∷ []

-- each request finds the five numbers in another order than the last
abbrev orders : ℕ → List ℕ
orders zero = numbers_1_to_5
orders (suc k) = if k % 2 == 0 then numbers_5_to_1 else numbers_1_to_5

length-orders : (k : ℕ) → length (orders k) ≡ 5
length-orders zero = refl
length-orders (suc k) = ground arith

-- the walk collects 2, 3 and then 2, 1: it repeats 2, and misses 4 and 5
walk_lem_example : get_elem? (walk 6 origin "happy" (pos 1) (pos 2) orders) 2 ≡ some 2
unfolding forced_paging paging_of
walk_lem_example =
    walk_lem origin "happy" 5 5 (pos 1) (pos 2) orders 1 2 length-orders (omega arith) (omega arith)
      (omega arith)

abbrev tagged : Bytes
tagged = doc (obj (field "country_code" (str "DE") (field "party_id" (str "AAA") end)))

tagged-IsTagged : IsTagged tagged
unfolding get
tagged-IsTagged = (_, "DE", "AAA", refl, refl, refl)

filter_raw_by_party-leaks_example :
    filter_raw_by_party "DE" "AAA" (tagged ∷ doc (obj (field "id" (str "C1") end)) ∷ [])
    ≡ tagged ∷ doc (obj (field "id" (str "C1") end)) ∷ []
unfolding get belongs unmarshal_party to_upper
filter_raw_by_party-leaks_example =
    filter_raw_by_party-leaks "DE" "AAA" tagged (field "id" (str "C1") end) (λ e. cc) (λ e. cc)
      tagged-IsTagged refl refl refl
