-- ===== src/Paging/Bounds.antt =====
-- What a page and its headers hold, for every request.
use Prim.Native.Nat.{min}
use ocpi_mock_hub.Prelude.{
  ℕ, ◌+◌, ◌-◌, ◌≤◌, ◌<◌, String, ◌≡◌, List, true, arith, ltb, leb, ℤ, length, take, drop,
  length-take, length-drop, drop_all, take_all, Bool-cases, inl, inr, ap, ◌∙◌, sym, ltb→lt,
}
use ocpi_mock_hub.Paging.{Paging, paging_of, forced_paging, paginate_slice}

-- Whatever the query says, the limit is between 1 and 250 for a default in that range, and the
-- pagination-stress mode keeps it there.
pub forced_paging_bounds :
    (mode : String) (offset limit : ℤ) (default_limit : ℕ)
    → 0 < default_limit
    → default_limit ≤ 250
    → (0 < (forced_paging mode (paging_of offset limit default_limit)).limit)
      × ((forced_paging mode (paging_of offset limit default_limit)).limit ≤ 250)
unfolding forced_paging paging_of
forced_paging_bounds mode offset limit default_limit h k = ground arith

sum_sub : (a b : ℕ) → a + b - a ≡ b
sum_sub a b = omega arith

module _ {ℓ} {A : Type ℓ} where
  take_enough : (m n : ℕ) (xs : List A) → length xs ≤ m → length xs ≤ n → take m xs ≡ take n xs
  take_enough m n xs h k = take_all m xs h ∙ sym (take_all n xs k)

  -- A page is the window of limit items at offset, which the end of the list cuts short: the slice
  -- bounds that the code computes are those of taking limit items after dropping offset.
  pub paginate_slice_lem :
      (items : List A) (p : Paging) → paginate_slice items p ≡ take p.limit (drop p.offset items)
  unfolding paginate_slice
  paginate_slice_lem items p = elim (Bool-cases (leb (length items) p.offset)) [
    | inl past ↦ rw past (
        sym (drop_all p.offset items (ground arith))
        ∙ sym (
            take_all p.limit (drop p.offset items)
              (omega (arith, length-drop p.offset items, past_end past))))
    | inr inside ↦ rw inside (elim (Bool-cases (ltb (length items) (p.offset + p.limit))) [
      | inl short ↦ rw short (
          take_enough (length items - p.offset) p.limit (drop p.offset items)
            (omega (arith, length-drop p.offset items))
            (omega (arith, length-drop p.offset items, ltb→lt _ _ short)))
      | inr full ↦ rw full (ap (λ n. take n (drop p.offset items)) (sum_sub p.offset p.limit))
    ])
  ]
    where
      past_end : leb (length items) p.offset ≡ true → length items ≤ p.offset
      past_end h = ground arith

  pub length-paginate_slice :
      (items : List A) (p : Paging)
      → length (paginate_slice items p) ≡ min p.limit (length items - p.offset)
  length-paginate_slice items p =
      rw (paginate_slice_lem items p)
        (omega (arith, length-take p.limit (drop p.offset items), length-drop p.offset items))
