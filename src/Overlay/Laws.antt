-- ===== src/Overlay/Laws.antt =====
-- The overlay's index from Token B to one party (correctness/overlay.go).
use ocpi_mock_hub.Prelude.{
  String, ◌≡◌, refl, sym, ap, ◌∙◌, ◌⊎◌, inl, inr, Option, none, some, List, [], ◌∷◌, Bool, true,
  false, ◌==ₛ◌, ◌&&◌, not, if◌then◌else◌, Dict, lookup, without, put, lookup-put, lookup-without,
  eq_iff, eq_refl, arith, Option-cases, Bool-cases,
}
use ocpi_mock_hub.Json.{Bytes, no_bytes, text, doc}
use ocpi_mock_hub.Correctness.Blobs.{copied}
use ocpi_mock_hub.MemoryStore.{token_b_of, or_nil}
use ocpi_mock_hub.MemoryStore.Parties.{holds}
use ocpi_mock_hub.MemoryStore.Lookup.{PartyOp, put_op, delete_op}
use ocpi_mock_hub.Overlay.{
  OverlayState, default_overlay_state, forget_token, index_token, put_overlay_party,
  delete_overlay_party, get_overlay_party_by_token_b,
}

-- an indexed token is held by the party that it points to
abbrev points : String → Option String → Dict Bytes → Bool
points t none parties = true
points t (some k) parties = holds t (lookup k parties)

abbrev pub IsPointing : OverlayState → Type 0
IsPointing s = (t : String) → points t (lookup t s.token_b_index) s.parties ≡ true

lookup-forget_token :
    (t : String) (old : Option Bytes) (index : Dict String)
    → lookup t (forget_token old index) ≡ (if holds t old then none else lookup t index)
unfolding forget_token
lookup-forget_token t none index = refl
lookup-forget_token t (some b) index = ground (
  arith,
  eq_iff (token_b_of b) t,
  eq_iff (token_b_of b) "",
  eq_iff t "",
  lookup-without (token_b_of b) t index,
)

lookup-index_token :
    (t token key : String) (index : Dict String)
    → lookup t (index_token token key index)
      ≡ (if not (token ==ₛ "") && (token ==ₛ t) then some key else lookup t index)
unfolding index_token
lookup-index_token t token key index = ground (arith, lookup-put token t key index)

points-without :
    (t key : String) (o : Option String) (parties : Dict Bytes)
    → points t o parties ≡ true
    → points t (if holds t (lookup key parties) then none else o) (without key parties) ≡ true
points-without t key none parties h = ground arith
points-without t key (some k) parties h =
    ground (arith, h, lookup-without key k parties, eq_iff key k)

points-put :
    (t key : String) (b : Bytes) (o : Option String) (parties : Dict Bytes)
    → points t o parties ≡ true
    → points t
        (if not (token_b_of b ==ₛ "") && (token_b_of b ==ₛ t)
          then some key
          else (if holds t (lookup key parties) then none else o))
        (put key b parties)
      ≡ true
points-put t key b none parties h =
    ground (arith, lookup-put key key b parties, eq_refl key, eq_iff (token_b_of b) t)
points-put t key b (some k) parties h = ground (
  arith,
  h,
  lookup-put key key b parties,
  lookup-put key k b parties,
  eq_refl key,
  eq_iff key k,
  eq_iff (token_b_of b) t,
)

token_b_of-copied : (b : Bytes) → token_b_of (copied b) ≡ token_b_of b
unfolding token_b_of
token_b_of-copied no_bytes = refl
token_b_of-copied (text s) = elim (Bool-cases (s ==ₛ "")) [ inl e ↦ rw e refl | inr e ↦ rw e refl ]
token_b_of-copied (doc j) = refl

-- a document with a token is no empty text
copied-token : (b : Bytes) (t : String) → token_b_of b ≡ t → (t ==ₛ "") ≡ false → copied b ≡ b
unfolding token_b_of
copied-token no_bytes t e named = refl
copied-token (text s) t e named =
    let empty : t ≡ "" = sym e in absurd (ground (arith, empty, named, eq_iff t ""))
copied-token (doc j) t e named = refl

put_overlay_party-IsPointing :
    (key : String) (b : Bytes) (s : OverlayState)
    → IsPointing s
    → IsPointing (put_overlay_party key b s)
unfolding put_overlay_party
put_overlay_party-IsPointing key b s h t =
    rw
      (
        lookup-index_token t (token_b_of b) key
            (forget_token (lookup key s.parties) s.token_b_index),
        lookup-forget_token t (lookup key s.parties) s.token_b_index,
        sym (token_b_of-copied b),
      )
      (points-put t key (copied b) (lookup t s.token_b_index) s.parties (h t))

delete_overlay_party-IsPointing :
    (key : String) (s : OverlayState) → IsPointing s → IsPointing (delete_overlay_party key s)
unfolding delete_overlay_party
delete_overlay_party-IsPointing key s h t =
    rw (lookup-forget_token t (lookup key s.parties) s.token_b_index)
      (points-without t key (lookup t s.token_b_index) s.parties (h t))

pub apply_overlay_ops : List PartyOp → OverlayState → OverlayState
apply_overlay_ops [] s = s
apply_overlay_ops (put_op key b ∷ ops) s = apply_overlay_ops ops (put_overlay_party key b s)
apply_overlay_ops (delete_op key ∷ ops) s = apply_overlay_ops ops (delete_overlay_party key s)

apply_overlay_ops-IsPointing :
    (ops : List PartyOp) (s : OverlayState) → IsPointing s → IsPointing (apply_overlay_ops ops s)
unfolding apply_overlay_ops
apply_overlay_ops-IsPointing [] s h = h
apply_overlay_ops-IsPointing (put_op key b ∷ ops) s h =
    apply_overlay_ops-IsPointing ops _ (put_overlay_party-IsPointing key b s h)
apply_overlay_ops-IsPointing (delete_op key ∷ ops) s h =
    apply_overlay_ops-IsPointing ops _ (delete_overlay_party-IsPointing key s h)

-- What GetPartyByTokenB owes: nil, or the document of a stored party that holds the token.
abbrev pub IsRight : String → Bytes → Dict Bytes → Type 0
IsRight t answer parties =
    (answer ≡ no_bytes)
    ⊎ ((key : String) × (b : Bytes) × (answer ≡ b)
        × (lookup key parties ≡ some b)
        × (token_b_of b ≡ t))

IsRight-points :
    (t key : String) (parties : Dict Bytes)
    → points t (some key) parties ≡ true
    → IsRight t (or_nil (lookup key parties)) parties
IsRight-points t key parties h = elim (Option-cases (lookup key parties)) [
  | inl e ↦ rw e (inl refl)
  | inr (b, e) ↦ rw e (inr (key, b, refl, e, held b e))
]
  where
    held : (b : Bytes) → lookup key parties ≡ some b → token_b_of b ≡ t
    held b e = ground (arith, h, e, eq_iff (token_b_of b) t)

-- After any sequence of PutParty and DeleteParty on a new overlay, GetPartyByTokenB returns nil or
-- the document of a stored party that holds the token: no token is accepted that no party holds.
get_overlay_party_by_token_b_sound :
    (ops : List PartyOp) (t : String)
    → let s = apply_overlay_ops ops default_overlay_state in
      IsRight t (get_overlay_party_by_token_b t s) s.parties
unfolding get_overlay_party_by_token_b default_overlay_state lookup
get_overlay_party_by_token_b_sound ops t =
    let s = apply_overlay_ops ops default_overlay_state in
    let h = apply_overlay_ops-IsPointing ops default_overlay_state (λ t'. refl) t in
    elim (Option-cases (lookup t s.token_b_index)) [
      | inl e ↦ rw (get_overlay_party_by_token_b, e) (inl refl)
      | inr (k, e) ↦ rw (get_overlay_party_by_token_b, e) (IsRight-points t k s.parties (rw e at h))
    ]

lookup-forgotten :
    (t key : String) (b : Bytes) (parties : Dict Bytes) (index : Dict String)
    → token_b_of b ≡ t
    → (t ==ₛ "") ≡ false
    → lookup t (forget_token (lookup key (put key b parties)) index) ≡ none
lookup-forgotten t key b parties index e named =
    rw
      (
        lookup-forget_token t (lookup key (put key b parties)) index,
        lookup-put key key b parties,
        eq_refl key,
        e,
        eq_refl t,
        named,
      )
      refl

unindexed :
    (t : String) (s : OverlayState)
    → lookup t s.token_b_index ≡ none
    → get_overlay_party_by_token_b t s ≡ no_bytes
unfolding get_overlay_party_by_token_b
unindexed t s e = rw (get_overlay_party_by_token_b, e) refl

-- Where two different parties share a non-empty token, deleting the one that was stored last leaves
-- the other stored with the token, but GetPartyByTokenB no longer finds it.
pub delete_overlay_party-forgets :
    (first second t : String) (b b' : Bytes) (s : OverlayState)
    → (second ==ₛ first) ≡ false
    → (t ==ₛ "") ≡ false
    → token_b_of b ≡ t
    → token_b_of b' ≡ t
    → let s' =
        delete_overlay_party second (put_overlay_party second b' (put_overlay_party first b s)) in
      (lookup first s'.parties ≡ some b) × (get_overlay_party_by_token_b t s' ≡ no_bytes)
unfolding delete_overlay_party put_overlay_party
delete_overlay_party-forgets first second t b b' s other named e e' =
    let s₁ = put_overlay_party first b s in
    let s₂ = put_overlay_party second b' s₁ in
    (
      lookup-without second first s₂.parties
          ∙ rw other (
              lookup-put second first (copied b') s₁.parties
              ∙ rw other (
                  lookup-put first first (copied b) s.parties
                  ∙ rw (eq_refl first) (ap some (copied-token b t e named)))),
      unindexed t (delete_overlay_party second s₂) (
          lookup-forgotten t second (copied b') s₁.parties s₂.token_b_index
            (token_b_of-copied b' ∙ e') named),
    )
