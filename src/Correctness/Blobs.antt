-- ===== src/Correctness/Blobs.antt =====
-- memoryStateStore (correctness/state.go). UpdateBlob holds the key's own lock from its read to its
-- write and the store's lock only at each of the two, so that it is two steps, between which calls
-- for other keys, and reads of any key, may come. A callback that returns an error gives `none`.
pub mod Laws
use ocpi_mock_hub.Prelude.{
  String, ◌≡◌, refl, sym, ap, ◌∙◌, inl, inr, Option, none, some, List, [], ◌∷◌, Bool, true, false,
  ◌==ₛ◌, if◌then◌else◌, Dict, lookup, put, without, or_else, lookup-put, lookup-without, eq_iff,
  eq_refl, arith, Option-cases, Bool-cases, if_cases,
}
use ocpi_mock_hub.Json.{Bytes, no_bytes, text, doc, is_nil}
use ocpi_mock_hub.MemoryStore.{or_nil}

-- `held` has the key of each UpdateBlob between its two steps, with the copy that it has read
pub record BlobStore : Type 0 where
  pub blobs : Dict Bytes
  pub held : Dict Bytes

abbrev pub new_blob_store : BlobStore
new_blob_store = record { blobs = []; held = [] }

-- append([]byte(nil), b...): a copy, which is nil where b is empty
abbrev pub copied : Bytes → Bytes
copied no_bytes = no_bytes
copied (text s) = if s ==ₛ "" then no_bytes else text s
copied (doc j) = doc j

unfoldable pub get_blob : String → BlobStore → Bytes
get_blob key s = copied (or_nil (lookup key s.blobs))

-- the last lines of UpdateBlob: a nil result deletes the key
unfoldable pub store_blob : String → Bytes → Dict Bytes → Dict Bytes
store_blob key next blobs = if is_nil next then without key blobs else put key (copied next) blobs

unfoldable pub after_callback : String → Option Bytes → Dict Bytes → Dict Bytes
unfolding store_blob
after_callback key none blobs = blobs
after_callback key (some next) blobs = store_blob key next blobs

-- an UpdateBlob that takes its lock and reads, or one that writes what its callback says and unlocks
pub data Event : Type 0 where
  begins : String → Event
  ends : String → (Bytes → Option Bytes) → Event

-- `none` where the event cannot happen now: the lock is taken, or no UpdateBlob runs
unfoldable pub start_update : String → Option Bytes → BlobStore → Option BlobStore
unfolding get_blob
start_update key (some current) s = none
start_update key none s = some (record s { held = put key (get_blob key s) s.held })

unfoldable pub end_update :
    String → (Bytes → Option Bytes) → Option Bytes → BlobStore → Option BlobStore
unfolding after_callback
end_update key fn none s = none
end_update key fn (some current) s =
    some (record { blobs = after_callback key (fn current) s.blobs; held = without key s.held })

unfoldable pub happen : Event → BlobStore → Option BlobStore
unfolding start_update end_update
happen (begins key) s = start_update key (lookup key s.held) s
happen (ends key fn) s = end_update key fn (lookup key s.held) s

-- the interleavings that the locks allow
pub data IsRun : List Event → BlobStore → Type 0 where
  at_first : IsRun [] new_blob_store
  then_event :
      {events : List Event} {s : BlobStore} (event : Event) (s' : BlobStore)
      → IsRun events s
      → happen event s ≡ some s'
      → IsRun (event ∷ events) s'

-- The specification: a function from keys to blobs, which a whole call changes at once.
abbrev pub or_unchanged : Option Bytes → Bytes → Bytes
or_unchanged none b = b
or_unchanged (some next) b = copied next

abbrev pub specified : List Event → String → Bytes
specified [] key = no_bytes
specified (begins k ∷ events) key = specified events key
specified (ends k fn ∷ events) key =
    let b = specified events key in if k ==ₛ key then or_unchanged (fn b) b else b
