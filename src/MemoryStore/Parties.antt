-- ===== src/MemoryStore/Parties.antt =====
-- The index from a Token B to the parties that hold it.
use ocpi_mock_hub.Prelude.{
  String, ◌≡◌, refl, Option, none, some, List, [], ◌∷◌, Bool, true, false, ◌==ₛ◌, ◌&&◌, not, arith,
  eq_iff, if◌then◌else◌, Dict, lookup, has, erase, add, lookup-put, lookup-without, has-erase,
  has-add, ◌≢◌, Option-cases, Bool-cases, inl, inr,
}
use ocpi_mock_hub.Json.{Bytes}
use ocpi_mock_hub.MemoryStore.{
  MemoryStore, new_memory_store, put_party, delete_party, token_b_of, no_set, is_empty_set,
  unbind_token_b, unbind_set, unbind_old, bind_token_b,
}

-- Whether the index lists the party under the token.
abbrev pub bound : String → String → Dict (List String) → Bool
bound token key index = has key (no_set (lookup token index))

-- Whether the stored party has the token, which is not empty.
abbrev pub holds : String → Option Bytes → Bool
holds token none = false
holds token (some b) = (token_b_of b ==ₛ token) && not (token ==ₛ "")

-- The index lists exactly the parties that hold each token, and has no empty set.
pub record IsIndexed (m : MemoryStore) : Type 0 where
  pub exact :
      (token key : String) → bound token key m.token_b_index ≡ holds token (lookup key m.parties)
  pub no_empty : (token : String) → lookup token m.token_b_index ≢ some []

has-empty : (k : String) (s : List String) → is_empty_set s ≡ true → has k s ≡ false
unfolding has
has-empty k [] h = refl
has-empty k (x ∷ s) h = ground arith

bound-unbind :
    (token key t k : String) (index : Dict (List String))
    → bound t k (unbind_token_b token key index)
      ≡ (if (token ==ₛ t) && (key ==ₛ k) then false else bound t k index)
unfolding unbind_token_b has
bound-unbind token key t k index = elim (Option-cases (lookup token index)) [
  | inl missing ↦ rw (missing, unbind_set) (ground (arith, eq_iff token t))
  | inr (set, found) ↦
      rw (found, unbind_set)
        (ground (
          arith,
          found,
          eq_iff token t,
          has-erase key k set,
          has-empty k (erase key set),
          lookup-without token t index,
          lookup-put token t (erase key set) index,
        ))
]

bound-bind :
    (token key t k : String) (index : Dict (List String))
    → bound t k (bind_token_b token key index)
      ≡ (if not (token ==ₛ "") && (token ==ₛ t) && (key ==ₛ k) then true else bound t k index)
unfolding bind_token_b
bound-bind token key t k index = ground (
  arith,
  eq_iff token t,
  has-add key k (no_set (lookup token index)),
  lookup-put token t (add key (no_set (lookup token index))) index,
)

bound-unbind_old :
    (key t k : String) (old : Option Bytes) (index : Dict (List String))
    → bound t k (unbind_old key old index)
      ≡ (if holds t old && (key ==ₛ k) then false else bound t k index)
unfolding unbind_old
bound-unbind_old key t k none index = refl
bound-unbind_old key t k (some b) index = ground (
  arith,
  eq_iff (token_b_of b) t,
  eq_iff (token_b_of b) "",
  eq_iff t "",
  bound-unbind (token_b_of b) key t k index,
)

NoEmpty : Dict (List String) → Type 0
NoEmpty index = (t : String) → lookup t index ≢ some []

unbind-NoEmpty :
    (token key : String) (index : Dict (List String))
    → NoEmpty index
    → NoEmpty (unbind_token_b token key index)
unfolding NoEmpty unbind_token_b
unbind-NoEmpty token key index h t = elim (Option-cases (lookup token index)) [
  | inl missing ↦ rw (missing, unbind_set) (h t)
  | inr (set, found) ↦
      rw (found, unbind_set)
        (ground (
          arith,
          h t,
          eq_iff token t,
          lookup-without token t index,
          lookup-put token t (erase key set) index,
        ))
]

unbind_old-NoEmpty :
    (key : String) (old : Option Bytes) (index : Dict (List String))
    → NoEmpty index
    → NoEmpty (unbind_old key old index)
unfolding unbind_old
unbind_old-NoEmpty key none index h = h
unbind_old-NoEmpty key (some b) index h = elim (Bool-cases (token_b_of b ==ₛ "")) [
  | inl e ↦ rw e h
  | inr e ↦ rw e (unbind-NoEmpty (token_b_of b) key index h)
]

bind-NoEmpty :
    (token key : String) (index : Dict (List String))
    → NoEmpty index
    → NoEmpty (bind_token_b token key index)
unfolding NoEmpty bind_token_b add
bind-NoEmpty token key index h t = ground (
  arith,
  h t,
  eq_iff token t,
  lookup-put token t (key ∷ erase key (no_set (lookup token index))) index,
)

-- Storing a party, new or known, with a new token or the old one, keeps the index exact: the key is
-- listed under the token of its new document, under no other token, and all other entries stay.
pub put_party-IsIndexed :
    (key : String) (b : Bytes) (m : MemoryStore) → IsIndexed m → IsIndexed (put_party key b m)
unfolding put_party NoEmpty
put_party-IsIndexed key b m h = record {
  exact = λ t k. ground (
    arith,
    h.exact t k,
    eq_iff key k,
    eq_iff (token_b_of b) t,
    eq_iff (token_b_of b) "",
    lookup-put key k b m.parties,
    bound-unbind_old key t k (lookup key m.parties) m.token_b_index,
    bound-bind (token_b_of b) key t k (unbind_old key (lookup key m.parties) m.token_b_index),
  );
  no_empty =
      bind-NoEmpty (token_b_of b) key _ (unbind_old-NoEmpty key _ m.token_b_index h.no_empty);
}

-- Deleting a party, known or not, keeps the index exact: other parties with its token stay listed.
pub delete_party-IsIndexed :
    (key : String) (m : MemoryStore) → IsIndexed m → IsIndexed (delete_party key m)
unfolding delete_party NoEmpty
delete_party-IsIndexed key m h = record {
  exact = λ t k. ground (
    arith,
    h.exact t k,
    eq_iff key k,
    lookup-without key k m.parties,
    bound-unbind_old key t k (lookup key m.parties) m.token_b_index,
  );
  no_empty = unbind_old-NoEmpty key _ m.token_b_index h.no_empty;
}

pub new_memory_store-IsIndexed : IsIndexed new_memory_store
unfolding new_memory_store lookup has
new_memory_store-IsIndexed = record { exact = λ t k. refl; no_empty = λ t. cc }
