-- ===== src/Correctness/Blobs/Laws.antt =====
-- Interleaved updates of blobs (correctness/state.go), seen from one map of documents.
use ocpi_mock_hub.Prelude.{
  String, ◌≡◌, refl, sym, ap, subst, ◌∙◌, inl, inr, Option, none, some, List, ◌∷◌, Bool, true,
  false, ◌==ₛ◌, if◌then◌else◌, Dict, lookup, without, or_else, lookup-put, lookup-without, eq_iff,
  arith, Bool-cases, if_cases,
}
use ocpi_mock_hub.Json.{Bytes, no_bytes, text, doc, is_nil}
use ocpi_mock_hub.MemoryStore.{or_nil}
use ocpi_mock_hub.Correctness.Blobs.{
  BlobStore, copied, get_blob, store_blob, after_callback, Event, begins, ends, start_update,
  end_update, happen, IsRun, at_first, then_event, or_unchanged, specified,
}

copied_twice : (b : Bytes) → copied (copied b) ≡ copied b
copied_twice no_bytes = refl
copied_twice (text s) = elim (Bool-cases (s ==ₛ "")) [
  | inl e ↦ rw e refl
  | inr e ↦ rw e (rw e refl)
]
copied_twice (doc j) = refl

copied_nil : (b : Bytes) → is_nil b ≡ true → copied b ≡ no_bytes
copied_nil no_bytes h = refl
copied_nil (text s) h = absurd (ground (arith, h))
copied_nil (doc j) h = absurd (ground (arith, h))

get-store_blob :
    (key j : String) (next : Bytes) (blobs : Dict Bytes)
    → copied (or_nil (lookup j (store_blob key next blobs)))
      ≡ (if key ==ₛ j then copied next else copied (or_nil (lookup j blobs)))
unfolding store_blob
get-store_blob key j next blobs = elim (Bool-cases (is_nil next)) [
  | inl e ↦
      rw (e, lookup-without key j blobs, copied_nil next e)
        (if_nil (key ==ₛ j) (lookup j blobs) none)
  | inr e ↦ rw (e, lookup-put key j (copied next) blobs) (if_some (key ==ₛ j) next (lookup j blobs))
]
  where
    if_nil :
        (b : Bool) (o o' : Option Bytes)
        → copied (or_nil (if b then none else o)) ≡ (if b then no_bytes else copied (or_nil o))
    if_nil true o o' = refl
    if_nil false o o' = refl

    if_some :
        (b : Bool) (next : Bytes) (o : Option Bytes)
        → copied (or_nil (if b then some (copied next) else o))
          ≡ (if b then copied next else copied (or_nil o))
    if_some true next o = copied_twice next
    if_some false next o = refl

get-after_callback :
    (key j : String) (r : Option Bytes) (blobs : Dict Bytes)
    → copied (or_nil (lookup j (after_callback key r blobs))) ≡ (
        if key ==ₛ j
        then or_unchanged r (copied (or_nil (lookup j blobs)))
        else copied (or_nil (lookup j blobs)))
unfolding after_callback
get-after_callback key j none blobs =
    if_cases (λ b. copied (or_nil (lookup j blobs)) ≡ b) (key ==ₛ j) (λ e. refl) (λ e. refl)
get-after_callback key j (some next) blobs = get-store_blob key j next blobs

-- what an UpdateBlob has read is still there
abbrev IsCurrent : Option Bytes → Bytes → Type 0
IsCurrent none b = b ≡ b
IsCurrent (some current) b = current ≡ b

-- a store that agrees with its specification, and in which every running update is up to date
abbrev IsGood : List Event → BlobStore → Type 0
IsGood events s =
    ((key : String) → get_blob key s ≡ specified events key)
    × ((key : String) → IsCurrent (lookup key s.held) (get_blob key s))

start-IsGood :
    (events : List Event) (key : String) (s s' : BlobStore) (o : Option Bytes)
    → lookup key s.held ≡ o
    → start_update key o s ≡ some s'
    → IsGood events s
    → IsGood (begins key ∷ events) s'
unfolding start_update get_blob
start-IsGood events key s s' (some c) e h good = absurd (ground (arith, h))
start-IsGood events key s s' none e h good =
    subst (IsGood (begins key ∷ events)) (ap (λ o. or_else o s) h) (
      good.0,
      λ j. rw (lookup-put key j (get_blob key s) s.held) (
          if_cases (λ o. IsCurrent o (get_blob j s)) (key ==ₛ j)
            (λ same. ap (λ k. get_blob k s) ((eq_iff key j).0 same)) (λ other. good.1 j)),
    )

end-IsGood :
    (events : List Event) (key : String) (fn : Bytes → Option Bytes) (s s' : BlobStore)
    (o : Option Bytes)
    → lookup key s.held ≡ o
    → end_update key fn o s ≡ some s'
    → IsGood events s
    → IsGood (ends key fn ∷ events) s'
unfolding end_update get_blob
end-IsGood events key fn s s' none e h good = absurd (ground (arith, h))
end-IsGood events key fn s s' (some c) e h good =
    subst (IsGood (ends key fn ∷ events)) (ap (λ o. or_else o s) h) (spec, held)
  where
    read : c ≡ specified events key
    read = subst (λ o. IsCurrent o (get_blob key s)) e (good.1 key) ∙ good.0 key

    spec :
        (j : String)
        → copied (or_nil (lookup j (after_callback key (fn c) s.blobs)))
          ≡ specified (ends key fn ∷ events) j
    spec j = get-after_callback key j (fn c) s.blobs ∙ (elim (Bool-cases (key ==ₛ j)) [
      | inl same ↦ rw same (
          ap (λ b. or_unchanged (fn b) (get_blob j s))
            (read ∙ ap (specified events) ((eq_iff key j).0 same))
          ∙ ap (λ b. or_unchanged (fn (specified events j)) b) (good.0 j))
      | inr other ↦ rw other (good.0 j)
    ])

    unchanged :
        (j : String)
        → (key ==ₛ j) ≡ false
        → copied (or_nil (lookup j s.blobs))
          ≡ copied (or_nil (lookup j (after_callback key (fn c) s.blobs)))
    unchanged j other = sym (get-after_callback key j (fn c) s.blobs ∙ rw other refl)

    held :
        (j : String)
        → IsCurrent
            (lookup j (without key s.held))
            (copied (or_nil (lookup j (after_callback key (fn c) s.blobs))))
    held j = rw (lookup-without key j s.held) (
        if_cases (λ o. IsCurrent o (copied (or_nil (lookup j (after_callback key (fn c) s.blobs)))))
          (key ==ₛ j) (λ same. refl)
          (λ other. subst (IsCurrent (lookup j s.held)) (unchanged j other) (good.1 j)))

IsRun-IsGood : (events : List Event) (s : BlobStore) → IsRun events s → IsGood events s
unfolding happen get_blob lookup
IsRun-IsGood events s at_first = (λ k. refl, λ k. refl)
IsRun-IsGood events s (then_event {events = before} {s = s0} (begins key) s' run e) =
    start-IsGood before key s0 s (lookup key s0.held) refl e (IsRun-IsGood before s0 run)
IsRun-IsGood events s (then_event {events = before} {s = s0} (ends key fn) s' run e) =
    end-IsGood before key fn s0 s (lookup key s0.held) refl e (IsRun-IsGood before s0 run)

-- Whatever interleaving of updates the locks allow, each blob is what its finished updates make of
-- it one after the other: none is lost, and one that fails changes nothing.
pub get_blob-specified :
    (events : List Event) (s : BlobStore) (key : String)
    → IsRun events s
    → get_blob key s ≡ specified events key
get_blob-specified events s key run = (IsRun-IsGood events s run).0 key
