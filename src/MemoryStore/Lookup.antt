-- ===== src/MemoryStore/Lookup.antt =====
-- GetPartyByTokenB against the party table itself, over any history of PutParty and DeleteParty.
use ocpi_mock_hub.Prelude.{
  String, ◌≡◌, refl, Option, none, some, List, [], ◌∷◌, true, false, Bool, not, ◌||◌, ◌≢◌, sym,
  arith, eq_iff, eq_refl, Dict, lookup, has, Option-cases, inl, inr, if◌then◌else◌,
}
use ocpi_mock_hub.Json.{Bytes, no_bytes, text, doc, is_nil}
use ocpi_mock_hub.MemoryStore.{
  MemoryStore, new_memory_store, put_party, delete_party, get_party_by_token_b, first_party,
  token_b_of,
}
use ocpi_mock_hub.MemoryStore.Parties.{
  IsIndexed, holds, put_party-IsIndexed, delete_party-IsIndexed, new_memory_store-IsIndexed,
}

holds-some :
    (t : String) (o : Option Bytes)
    → holds t o ≡ true
    → (b : Bytes) × (o ≡ some b) × (token_b_of b ≡ t)
holds-some t none h = cc
holds-some t (some b) h = (b, refl, ground (arith, eq_iff (token_b_of b) t))

first_party-cons :
    (k : String) (ks : List String) (parties : Dict Bytes) {b : Bytes}
    → lookup k parties ≡ some b
    → first_party (k ∷ ks) parties ≡ b
unfolding first_party
first_party-cons k ks parties e = rw (e, first_party)

-- The set that the index has for a token, on which the range of GetPartyByTokenB starts.
first_party-holds :
    (t : String) (set : List String) (m : MemoryStore)
    → IsIndexed m
    → lookup t m.token_b_index ≡ some set
    → token_b_of (first_party set m.parties) ≡ t
unfolding has
first_party-holds t [] m h e = absurd (h.no_empty t e)
first_party-holds t (k ∷ ks) m h e =
    let listed : holds t (lookup k m.parties) ≡ true = ground (arith, h.exact t k, e, eq_refl k) in
    let (b, stored, held) = holds-some t (lookup k m.parties) listed in
    rw (first_party-cons k ks m.parties stored) held

-- Whether some key of the party table holds the token: the specification, with no index.
any_of_keys : String → List String → Dict Bytes → Bool
any_of_keys t [] parties = false
any_of_keys t (k ∷ ks) parties = holds t (lookup k parties) || any_of_keys t ks parties

keys : Dict Bytes → List String
keys [] = []
keys ((k, b) ∷ m) = k ∷ keys m

pub is_held : String → Dict Bytes → Bool
is_held t parties = any_of_keys t (keys parties) parties

any_of_keys-has :
    (t k : String) (ks : List String) (parties : Dict Bytes)
    → has k ks ≡ true
    → holds t (lookup k parties) ≡ true
    → any_of_keys t ks parties ≡ true
unfolding any_of_keys has
any_of_keys-has t k [] parties h e = cc
any_of_keys-has t k (j ∷ ks) parties h e =
    ground (arith, eq_iff j k, any_of_keys-has t k ks parties)

has-keys : (k : String) (m : Dict Bytes) (b : Bytes) → lookup k m ≡ some b → has k (keys m) ≡ true
unfolding keys has lookup
has-keys k [] b h = cc
has-keys k ((j, a) ∷ m) b h = ground (arith, has-keys k m b)

pub is_held_complete :
    (t k : String) (parties : Dict Bytes)
    → holds t (lookup k parties) ≡ true
    → is_held t parties ≡ true
unfolding is_held
is_held_complete t k parties h =
    let (b, stored, held) = holds-some t (lookup k parties) h in
    any_of_keys-has t k (keys parties) parties (has-keys k parties b stored) h

any_of_keys-none :
    (t : String) (ks : List String) (parties : Dict Bytes)
    → ((k : String) → holds t (lookup k parties) ≡ false)
    → any_of_keys t ks parties ≡ false
unfolding any_of_keys
any_of_keys-none t [] parties f = refl
any_of_keys-none t (k ∷ ks) parties f = ground (arith, f k, any_of_keys-none t ks parties f)

pub is_held_none :
    (t : String) (parties : Dict Bytes)
    → ((k : String) → holds t (lookup k parties) ≡ false)
    → is_held t parties ≡ false
unfolding is_held
is_held_none t parties f = any_of_keys-none t (keys parties) parties f

-- What GetPartyByTokenB owes its callers: a non-nil document with the token if some party holds it,
-- and nil if none does.
pub record IsFound (t : String) (m : MemoryStore) : Type 0 where
  pub answered : is_nil (get_party_by_token_b t m) ≡ not (is_held t m.parties)
  pub right : token_b_of (get_party_by_token_b t m) ≡ (if is_held t m.parties then t else "")

nil-no-token : (t : String) (b : Bytes) → token_b_of b ≡ t → t ≢ "" → is_nil b ≡ false
unfolding token_b_of
nil-no-token t no_bytes e h = absurd (h (sym e))
nil-no-token t (text s) e h = refl
nil-no-token t (doc j) e h = refl

holds-ne : (t : String) (o : Option Bytes) → holds t o ≡ true → t ≢ ""
holds-ne t none h = cc
holds-ne t (some b) h = ground (arith, eq_iff t "")

IsFound-of_set :
    (t : String) (set : List String) (m : MemoryStore)
    → IsIndexed m
    → lookup t m.token_b_index ≡ some set
    → IsFound t m
unfolding has get_party_by_token_b
IsFound-of_set t [] m h e = absurd (h.no_empty t e)
IsFound-of_set t (k ∷ ks) m h e =
    let listed : holds t (lookup k m.parties) ≡ true = ground (arith, h.exact t k, e, eq_refl k) in
    let held = is_held_complete t k m.parties listed in
    let found = first_party-holds t (k ∷ ks) m h e in
    record {
      answered =
          rw (e, get_party_by_token_b)
            (rw held (nil-no-token t _ found (holds-ne t (lookup k m.parties) listed)));
      right = rw (e, get_party_by_token_b) (rw held found);
    }

IsFound-of_none :
    (t : String) (m : MemoryStore) → IsIndexed m → lookup t m.token_b_index ≡ none → IsFound t m
unfolding has get_party_by_token_b token_b_of
IsFound-of_none t m h e =
    let free = is_held_none t m.parties (λ k. ground (arith, h.exact t k, e)) in
    record {
      answered = rw (e, get_party_by_token_b) (rw free);
      right = rw (e, get_party_by_token_b) (rw free);
    }

pub get_party_by_token_b_lem : (t : String) (m : MemoryStore) → IsIndexed m → IsFound t m
get_party_by_token_b_lem t m h = elim (Option-cases (lookup t m.token_b_index)) [
  | inl missing ↦ IsFound-of_none t m h missing
  | inr (set, e) ↦ IsFound-of_set t set m h e
]

-- What happens to the party table over a run of the server.
pub data PartyOp : Type 0 where
  put_op : String → Bytes → PartyOp
  delete_op : String → PartyOp

pub apply_ops : List PartyOp → MemoryStore → MemoryStore
apply_ops [] m = m
apply_ops (put_op key b ∷ ops) m = apply_ops ops (put_party key b m)
apply_ops (delete_op key ∷ ops) m = apply_ops ops (delete_party key m)

apply_ops-IsIndexed :
    (ops : List PartyOp) (m : MemoryStore) → IsIndexed m → IsIndexed (apply_ops ops m)
unfolding apply_ops
apply_ops-IsIndexed [] m h = h
apply_ops-IsIndexed (put_op key b ∷ ops) m h =
    apply_ops-IsIndexed ops _ (put_party-IsIndexed key b m h)
apply_ops-IsIndexed (delete_op key ∷ ops) m h =
    apply_ops-IsIndexed ops _ (delete_party-IsIndexed key m h)

-- After any sequence of PutParty and DeleteParty on a new store, GetPartyByTokenB answers from the
-- party table: if some stored party holds the token, it returns a non-nil document with that token,
-- and if none does (or the token is empty), it returns nil. Parties that share a token are covered.
pub get_party_by_token_b_sound :
    (ops : List PartyOp) (t : String) → IsFound t (apply_ops ops new_memory_store)
get_party_by_token_b_sound ops t =
    get_party_by_token_b_lem t _ (apply_ops-IsIndexed ops _ new_memory_store-IsIndexed)
