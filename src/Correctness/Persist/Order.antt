-- ===== src/Correctness/Persist/Order.antt =====
-- normalizeSessionOrder (correctness/manager.go) on an order that lists each stored session once.
use ocpi_mock_hub.Prelude.{
  ℕ, ◌+◌, ◌≤◌, String, ◌≡◌, refl, ap, inl, inr, List, [], ◌∷◌, Bool, true, false, ◌||◌, not, ◌==ₛ◌,
  Dict, lookup, filter, has, is_some, Bool-cases, eq_iff, eq_refl, arith, ◌++◌ as ◌++ₗ◌,
}
use ocpi_mock_hub.Correctness.Manager.Invariant.{count}
use ocpi_mock_hub.Correctness.Persist.{keys, known_once, normalize_session_order, sorted}

count-has : (k : String) (xs : List String) → 1 ≤ count k xs → has k xs ≡ true
unfolding has
count-has k [] h = absurd (omega (arith, h))
count-has k (x ∷ xs) h = elim (Bool-cases (x ==ₛ k)) [
  | inl e ↦ rw e refl
  | inr e ↦ rw e (count-has k xs (ground (arith, h, e)))
]

filter_none :
    (xs ys : List String)
    → ((k : String) → has k xs ≡ true → has k ys ≡ true)
    → filter (λ id. not (has id ys)) xs ≡ []
unfolding has
filter_none [] ys h = refl
filter_none (x ∷ xs) ys h =
    let first : has x ys ≡ true = h x (rw (eq_refl x) refl) in
    rw first (filter_none xs ys (λ k e. h k (ground (arith, e))))

append_nil : (xs : List String) → xs ++ₗ [] ≡ xs
append_nil [] = refl
append_nil (x ∷ xs) = ap (λ l. x ∷ l) (append_nil xs)

abbrev pub bit : Bool → ℕ
bit true = 1
bit false = 0

module _ {A : Type 0} where
  has-keys : (k : String) (m : Dict A) → has k (keys m) ≡ is_some (lookup k m)
  unfolding has keys lookup
  has-keys k [] = refl
  has-keys k ((j, a) ∷ m) = elim (Bool-cases (j ==ₛ k)) [
    | inl e ↦ rw e refl
    | inr e ↦ rw e (has-keys k m)
  ]

  known_once_all :
      (m : Dict A) (seen ids : List String)
      → ((k : String) → count k ids + bit (has k seen) ≤ bit (is_some (lookup k m)))
      → known_once m seen ids ≡ ids
  unfolding known_once has
  known_once_all m seen [] h = refl
  known_once_all m seen (id ∷ ids) h =
      let kept : (has id seen || not (is_some (lookup id m))) ≡ false =
        ground (arith, h id, eq_refl id) in
      rw kept (
        ap (λ l. id ∷ l) (known_once_all m (id ∷ seen) ids (λ k. ground (arith, h k, eq_iff id k))))

  pub normalize_session_order_lem :
      (m : Dict A) (order : List String)
      → ((k : String) → count k order ≡ bit (is_some (lookup k m)))
      → normalize_session_order order m ≡ order
  unfolding normalize_session_order has sorted
  normalize_session_order_lem m order h =
      rw (known_once_all m [] order (λ k. omega (arith, h k)), filter_none (keys m) order listed)
        (append_nil order)
    where
      listed : (k : String) → has k (keys m) ≡ true → has k order ≡ true
      listed k e = count-has k order (ground (arith, h k, has-keys k m, e))
