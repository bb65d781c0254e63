-- ===== src/Lifecycle/Entries.antt =====
-- Lists of sessions with different ids, as the in-memory store holds them.
use ocpi_mock_hub.Prelude.{
  String, ◌≡◌, refl, ap, some, List, [], ◌∷◌, ◌++◌, map, Bool, true, false, ◌&&◌, ◌||◌, not, ◌==ₛ◌,
  has, Dict, lookup, values, eq_iff, eq_refl, arith,
}
use ocpi_mock_hub.Json.{Bytes}
use ocpi_mock_hub.Records.{SessionRecord, marshal_session}

-- the stored sessions, each under its own id
unfoldable pub entries : List SessionRecord → Dict Bytes
entries [] = []
entries (s ∷ ss) = (s.id, marshal_session s) ∷ entries ss

unfoldable pub ids : List SessionRecord → List String
ids [] = []
ids (s ∷ ss) = s.id ∷ ids ss

unfoldable pub distinct : List String → Bool
distinct [] = true
distinct (k ∷ ks) = not (has k ks) && distinct ks

pub values-entries : (ss : List SessionRecord) → values (entries ss) ≡ map marshal_session ss
unfolding values entries
values-entries [] = refl
values-entries (s ∷ ss) = ap (λ bs. marshal_session s ∷ bs) (values-entries ss)

pub not_head : (a b : Bool) → (not a && b) ≡ true → a ≡ false
not_head a b h = ground arith

pub in_tail : (a b : Bool) → (not a && b) ≡ true → b ≡ true
in_tail a b h = ground arith

pub neither : (a b : Bool) → (a || b) ≡ false → (a ≡ false) × (b ≡ false)
neither a b h = ground arith

pub has-ids_middle :
    (before after : List SessionRecord) (s : SessionRecord) (k : String)
    → has k (ids (before ++ s ∷ after)) ≡ false
    → (s.id ==ₛ k) ≡ false
unfolding has ids
has-ids_middle [] after s k h = (neither (s.id ==ₛ k) (has k (ids after)) h).0
has-ids_middle (b ∷ before) after s k h =
    has-ids_middle before after s k (neither (b.id ==ₛ k) (has k (ids (before ++ s ∷ after))) h).1

-- an earlier session has another id
pub before_other :
    (b s : SessionRecord) (before after : List SessionRecord)
    → distinct (ids (b ∷ (before ++ s ∷ after))) ≡ true
    → (b.id ==ₛ s.id) ≡ false
unfolding distinct ids
before_other b s before after d = ground (
  arith,
  eq_iff b.id s.id,
  eq_iff s.id b.id,
  has-ids_middle before after s b.id (not_head _ (distinct (ids (before ++ s ∷ after))) d),
)

pub lookup-entries :
    (before after : List SessionRecord) (s : SessionRecord)
    → distinct (ids (before ++ s ∷ after)) ≡ true
    → lookup s.id (entries (before ++ s ∷ after)) ≡ some (marshal_session s)
unfolding lookup entries distinct ids has
lookup-entries [] after s d = rw (eq_refl s.id) refl
lookup-entries (b ∷ before) after s d =
    rw (before_other b s before after d)
      (lookup-entries before after s (in_tail (has b.id (ids (before ++ s ∷ after))) _ d))
