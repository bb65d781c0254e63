-- ===== src/Auth/Laws.antt =====
-- Exactly whom the middleware admits over the in-memory store.
use ocpi_mock_hub.Prelude.{
  String, ◌≡◌, refl, List, [], ◌∷◌, Bool, true, false, ◌&&◌, ◌||◌, ◌==ₛ◌, arith, any, not,
}
use ocpi_mock_hub.MemoryStore.{MemoryStore}
use ocpi_mock_hub.MemoryStore.Instance.{memory_store}
use ocpi_mock_hub.MemoryStore.Parties.{IsIndexed}
use ocpi_mock_hub.MemoryStore.Lookup.{is_held, get_party_by_token_b_lem}
use ocpi_mock_hub.Auth.{
  Base64, auth_token_candidates, auth_header_matches_token, no_candidates, is_public, Verdict,
  serve, unauthorized, matches_any_party_token, fall_back, token_auth,
}

abbrev pub admits : Verdict → Bool
admits serve = true
admits (unauthorized m) = false

-- A candidate opens the door: it is the store's own Token B, or some party of the table holds it.
unfoldable pub is_known : MemoryStore → String → Bool
is_known m c = (not (m.token_b ==ₛ "") && (c ==ₛ m.token_b)) || is_held c m.parties

matches_held :
    (base64 : Base64) (m : MemoryStore) (cs : List String)
    → IsIndexed m
    → matches_any_party_token base64 memory_store cs m ≡ any (λ c. is_held c m.parties) cs
unfolding matches_any_party_token
matches_held base64 m [] h = refl
matches_held base64 m (c ∷ cs) h =
    ground (arith, (get_party_by_token_b_lem c m h).answered, matches_held base64 m cs h)

any_known :
    (m : MemoryStore) (cs : List String)
    → any (is_known m) cs
      ≡ (not (m.token_b ==ₛ "") && any (λ c. c ==ₛ m.token_b) cs)
        || any (λ c. is_held c m.parties) cs
unfolding is_known
any_known m [] = ground arith
any_known m (c ∷ cs) = ground (arith, any_known m cs)

pub no_candidates-any :
    (p : String → Bool) (cs : List String) → no_candidates cs ≡ true → any p cs ≡ false
no_candidates-any p [] h = refl
no_candidates-any p (c ∷ cs) h = cc

no_candidates-matches :
    (base64 : Base64) (m : MemoryStore) (cs : List String)
    → no_candidates cs ≡ true
    → matches_any_party_token base64 memory_store cs m ≡ false
unfolding matches_any_party_token
no_candidates-matches base64 m cs h = no_candidates-any _ cs h

decide :
    (base64 : Base64) (path method header : String) (correctness : Bool) (m : MemoryStore)
    → admits (token_auth base64 memory_store path method header correctness m)
      ≡ is_public path method
        || ((not (m.token_b ==ₛ "")
              && any (λ c. c ==ₛ m.token_b) (auth_token_candidates base64 header))
            || matches_any_party_token base64 memory_store (auth_token_candidates base64 header) m)
        || (not (no_candidates (auth_token_candidates base64 header)) && correctness)
unfolding token_auth fall_back auth_header_matches_token
decide base64 path method header correctness m =
    let cs = auth_token_candidates base64 header in
    ground (arith, no_candidates-any (λ c. c ==ₛ m.token_b) cs, no_candidates-matches base64 m cs)

-- Over an in-memory store whose token index is exact, a request passes the middleware exactly if
-- its path is public, or one of the tokens that its Authorization header can mean is the store's
-- non-empty Token B or the token of a stored party, or it has such a token at all and belongs to
-- the active correctness session.
pub token_auth_lem :
    (base64 : Base64) (path method header : String) (correctness : Bool) (m : MemoryStore)
    → IsIndexed m
    → admits (token_auth base64 memory_store path method header correctness m)
      ≡ is_public path method
        || any (is_known m) (auth_token_candidates base64 header)
        || (not (no_candidates (auth_token_candidates base64 header)) && correctness)
token_auth_lem base64 path method header correctness m h =
    let cs = auth_token_candidates base64 header in
    rw (decide base64 path method header correctness m, matches_held base64 m cs h)
      (rw (any_known m cs))
