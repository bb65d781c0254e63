-- ===== src/Credentials/Laws.antt =====
-- What a credentials exchange does to the tokens that the hub accepts, over the in-memory store.
use ocpi_mock_hub.Prelude.{
  String, ◌≡◌, ◌≢◌, refl, List, [], ◌∷◌, Bool, true, false, ◌&&◌, ◌==ₛ◌, arith, eq_iff, eq_refl,
  if◌then◌else◌, not, any, lookup, lookup-put, Bool-cases, inl, inr, ap,
}
use ocpi_mock_hub.Json.{Bytes, get}
use ocpi_mock_hub.Auth.{Base64, auth_token_candidates, is_public, token_auth}
use ocpi_mock_hub.Auth.Laws.{admits, is_known, token_auth_lem}
use ocpi_mock_hub.MemoryStore.{MemoryStore, put_party, token_b_of}
use ocpi_mock_hub.MemoryStore.Instance.{memory_store}
use ocpi_mock_hub.MemoryStore.Parties.{IsIndexed, holds, put_party-IsIndexed}
use ocpi_mock_hub.MemoryStore.Lookup.{is_held_complete, is_held_none}
use ocpi_mock_hub.Credentials.{
  CredentialsPayload, RoleEntry, party_key, party_state, entries_of, put_entries, register,
  delete_credentials,
}

any_only :
    (old : String) (p : String → Bool) (cs : List String)
    → p old ≡ false
    → any (λ c. not (c ==ₛ old)) cs ≡ false
    → any p cs ≡ false
any_only old p [] h only = refl
any_only old p (c ∷ cs) h only =
    ground (arith, eq_iff c old, ap p {x = c} {y = old}, any_only old p cs h)

-- The key of the party is advertised.
unfoldable pub is_entry : String → List RoleEntry → Bool
is_entry k es = any (λ (e : RoleEntry). party_key e.country_code e.party_id ==ₛ k) es

module _ (base64 : Base64) (creds : CredentialsPayload) (token : String) (raw_body : Bytes) where
  token_b_of-party_state :
      (e : RoleEntry) → token_b_of (party_state base64 creds token raw_body e) ≡ token
  unfolding token_b_of party_state get
  token_b_of-party_state e = refl

  holds-put_entries :
      (t k : String) (es : List RoleEntry) (m : MemoryStore)
      → holds t (lookup k (put_entries memory_store base64 creds token raw_body es m).parties)
        ≡ (if is_entry k es then (token ==ₛ t) && not (t ==ₛ "") else holds t (lookup k m.parties))
  unfolding put_entries is_entry put_party
  holds-put_entries t k [] m = refl
  holds-put_entries t k (e ∷ es) m =
      let key = party_key e.country_code e.party_id in
      ground (
        arith,
        holds-put_entries t k es (put_party key (party_state base64 creds token raw_body e) m),
        lookup-put key k (party_state base64 creds token raw_body e) m.parties,
        token_b_of-party_state e,
        eq_iff key k,
      )

  put_entries-IsIndexed :
      (es : List RoleEntry) (m : MemoryStore)
      → IsIndexed m
      → IsIndexed (put_entries memory_store base64 creds token raw_body es m)
  unfolding put_entries
  put_entries-IsIndexed [] m h = h
  put_entries-IsIndexed (e ∷ es) m h = put_entries-IsIndexed es _ (put_party-IsIndexed _ _ m h)

  token_b-put_entries :
      (es : List RoleEntry) (m : MemoryStore)
      → (put_entries memory_store base64 creds token raw_body es m).token_b ≡ m.token_b
  unfolding put_entries put_party
  token_b-put_entries [] m = refl
  token_b-put_entries (e ∷ es) m = token_b-put_entries es _

  abbrev registered : MemoryStore → MemoryStore
  registered m = register memory_store base64 creds token raw_body m

  pub token_b-register : (m : MemoryStore) → (registered m).token_b ≡ token
  unfolding register
  token_b-register m = token_b-put_entries (entries_of creds) _

  holds-register :
      (t k : String) (m : MemoryStore)
      → holds t (lookup k (registered m).parties) ≡ (
          if is_entry k (entries_of creds)
          then (token ==ₛ t) && not (t ==ₛ "")
          else holds t (lookup k m.parties))
  unfolding register
  holds-register t k m = elim (Bool-cases (creds.url ==ₛ "")) [
    | inl e ↦ rw (e, register) (holds-put_entries t k (entries_of creds) _)
    | inr e ↦ rw (e, register) (holds-put_entries t k (entries_of creds) _)
  ]

  -- Registration keeps the in-memory store's token index exact: whatever roles the payload
  -- advertises, known or new, the index lists exactly the parties that hold each token.
  pub register-IsIndexed : (m : MemoryStore) → IsIndexed m → IsIndexed (registered m)
  unfolding register
  register-IsIndexed m h = elim (Bool-cases (creds.url ==ₛ "")) [
    | inl e ↦
        rw (e, register)
          (put_entries-IsIndexed (entries_of creds) _
            (record { exact = h.exact; no_empty = h.no_empty }))
    | inr e ↦
        rw (e, register)
          (put_entries-IsIndexed (entries_of creds) _
            (record { exact = h.exact; no_empty = h.no_empty }))
  ]

  unheld :
      (old : String) (m : MemoryStore)
      → old ≢ token
      → ((k : String)
          → holds old (lookup k m.parties) ≡ true
          → is_entry k (entries_of creds) ≡ true)
      → (k : String) → holds old (lookup k (registered m).parties) ≡ false
  unheld old m h covered k =
      rw (holds-register old k m) (ground (arith, eq_iff token old, covered k))

  is_known-register :
      (old : String) (m : MemoryStore)
      → old ≢ token
      → ((k : String)
          → holds old (lookup k m.parties) ≡ true
          → is_entry k (entries_of creds) ≡ true)
      → is_known (registered m) old ≡ false
  unfolding is_known
  is_known-register old m h covered =
      let gone = is_held_none old (registered m).parties (unheld old m h covered) in
      ground (arith, gone, token_b-register m, eq_iff old token)

  -- Over an in-memory store whose token index is exact, registering with a Token B that differs
  -- from an old token revokes the old one, if every party that holds it is advertised again: the
  -- middleware then refuses each request for a path that is not public, outside the active
  -- correctness session, whose Authorization header can mean no token but the old one.
  pub register-revokes :
      (old path method header : String) (m : MemoryStore)
      → IsIndexed m
      → old ≢ token
      → ((k : String)
          → holds old (lookup k m.parties) ≡ true
          → is_entry k (entries_of creds) ≡ true)
      → is_public path method ≡ false
      → any (λ c. not (c ==ₛ old)) (auth_token_candidates base64 header) ≡ false
      → admits (token_auth base64 memory_store path method header false (registered m)) ≡ false
  register-revokes old path method header m indexed h covered closed only =
      let cs = auth_token_candidates base64 header in
      let unknown =
        any_only old (is_known (registered m)) cs (is_known-register old m h covered) only in
      rw
        (
          token_auth_lem base64 path method header false (registered m)
              (register-IsIndexed m indexed),
          closed,
          unknown,
        )
        (ground arith)

  -- DELETE /credentials leaves the party table: over an in-memory store, the non-empty Token B of a
  -- registration that advertised a party is still known after the connection was unregistered: by
  -- is_known it is the store's own or that of a stored party, which is what the middleware looks
  -- for where the token index is exact.
  pub delete_credentials-keeps_token :
      (m : MemoryStore) (e : RoleEntry) (es : List RoleEntry)
      → token ≢ ""
      → entries_of creds ≡ e ∷ es
      → is_known (delete_credentials memory_store (registered m)).state token ≡ true
  unfolding is_known delete_credentials is_entry
  delete_credentials-keeps_token m e es h k =
      let key = party_key e.country_code e.party_id in
      let listed : is_entry key (entries_of creds) ≡ true = rw (k, is_entry) (rw (eq_refl key)) in
      let held : holds token (lookup key (registered m).parties) ≡ true =
        rw (holds-register token key m) (ground (arith, listed, eq_refl token, eq_iff token "")) in
      is_held_complete token key (registered m).parties held
