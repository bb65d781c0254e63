-- ===== src/Paging/Window.antt =====
-- The date filters as half-open windows.
use ocpi_mock_hub.Prelude.{
  ℕ, ◌+◌, ◌≤◌, ◌≡◌, Option, none, some, List, [], ◌∷◌, arith, length, if◌then◌else◌, Bool-cases,
  inl, inr,
}
use ocpi_mock_hub.Json.{Bytes}
use ocpi_mock_hub.Paging.{Clock, in_window, keep_in_window, filter_raw_by_last_updated, raw_stamp}

module _ {ℓ} {A : Type ℓ} (stamp : A → Option ℕ) where
  window_split :
      (o : Option ℕ) (a b c : ℕ)
      → a ≤ b
      → b ≤ c
      → (if in_window (some a) (some c) o then 1 else 0)
        ≡ (if in_window (some a) (some b) o then 1 else 0)
          + (if in_window (some b) (some c) o then 1 else 0)
  window_split none a b c h k = omega arith
  window_split (some t) a b c h k = ground arith

  length-keep_cons :
      (from to : Option ℕ) (x : A) (xs : List A)
      → length (keep_in_window stamp from to (x ∷ xs))
        ≡ (if in_window from to (stamp x) then 1 else 0) + length (keep_in_window stamp from to xs)
  unfolding keep_in_window
  length-keep_cons from to x xs = elim (Bool-cases (in_window from to (stamp x))) [
    | inl inside ↦ rw inside (omega arith)
    | inr outside ↦ rw outside (omega arith)
  ]

  keep_split :
      (a b c : ℕ) (items : List A)
      → a ≤ b
      → b ≤ c
      → length (keep_in_window stamp (some a) (some c) items)
        ≡ length (keep_in_window stamp (some a) (some b) items)
          + length (keep_in_window stamp (some b) (some c) items)
  unfolding keep_in_window
  keep_split a b c [] h k = omega arith
  keep_split a b c (x ∷ xs) h k = omega (
    arith,
    length-keep_cons (some a) (some c) x xs,
    length-keep_cons (some a) (some b) x xs,
    length-keep_cons (some b) (some c) x xs,
    window_split (stamp x) a b c h k,
    keep_split a b c xs h k,
  )

-- For instants a, b and c in this order, polling two adjacent windows gives as many records as
-- polling the one that they make up: as many lie in [a, c) as in [a, b) and [b, c) together.
filter_raw-adjacent :
    (clock : Clock) (a b c : ℕ) (items : List Bytes)
    → a ≤ b
    → b ≤ c
    → length (filter_raw_by_last_updated clock (some a) (some c) items)
      ≡ length (filter_raw_by_last_updated clock (some a) (some b) items)
        + length (filter_raw_by_last_updated clock (some b) (some c) items)
unfolding filter_raw_by_last_updated
filter_raw-adjacent clock a b c items h k = keep_split (raw_stamp clock) a b c items h k
