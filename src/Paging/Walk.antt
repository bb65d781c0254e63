-- ===== src/Paging/Walk.antt =====
-- A client that follows the Link headers.
use ocpi_mock_hub.Prelude.{
  ℕ, zero, suc, ◌+◌, ◌-◌, ◌*◌, ◌≤◌, ◌<◌, String, ◌≡◌, refl, none, some, List, [], ◌++◌, arith, ltb,
  leb, ℤ, pos, length, drop, Bool-cases, inl, inr, ap, ◌∙◌, sym, ◌&&◌, get_elem?,
  get_elem?-append_left, get_elem?-append_right, get_elem?-drop, get_elem?-take, get_elem?-none,
}
use ocpi_mock_hub.Paging.{
  Paging, paging_of, forced_paging, paginate_slice, RequestOrigin, NextLink, PagingHeaders,
  build_paging_headers, list_page, page_at, link_scheme, link_host,
}
use ocpi_mock_hub.Paging.Bounds.{paginate_slice_lem, length-paginate_slice, forced_paging_bounds}

-- A page, and what the client collects behind its link.
pub collect {ℓ} : {A : Type ℓ} → List A × PagingHeaders → (NextLink → List A) → List A
collect (page, headers) behind = elim headers.link [ none ↦ page | some next ↦ page ++ behind next ]

-- The items that a client collects with at most `fuel` requests, of which request k finds the list
-- `lists k`: ListSessions and its like range over a Go map, in another order each time.
pub walk {ℓ} : {A : Type ℓ} → ℕ → RequestOrigin → String → ℤ → ℤ → (ℕ → List A) → List A
walk zero r mode offset limit lists = []
walk (suc fuel) r mode offset limit lists =
    collect (list_page r mode offset limit (lists 0))
      (λ next. walk fuel r mode (pos next.offset) (pos next.limit) (λ k. lists (suc k)))

-- A limit that the server has answered with is answered with again.
stable_limit :
    (mode : String) (offset limit : ℤ) (x : ℕ)
    → let l = (forced_paging mode (paging_of offset limit 50)).limit in
      forced_paging mode (paging_of (pos x) (pos l) 50) ≡ record { offset = x; limit = l }
unfolding forced_paging paging_of
stable_limit mode offset limit x = ground arith

abbrev IsStable : String → ℕ → Type 0
IsStable mode l =
    (x : ℕ) → forced_paging mode (paging_of (pos x) (pos l) 50) ≡ record { offset = x; limit = l }

module _ {ℓ} {A : Type ℓ} (r : RequestOrigin) (mode : String) (n : ℕ) where
  -- Item j of what was collected is the one at offset + j of the list of request i = j / limit.
  IsCollected : ℕ → ℕ → List A → (ℕ → List A) → Type ℓ
  IsCollected x l got lists =
      (i j : ℕ) → i * l ≤ j → j < i * l + l → get_elem? got j ≡ get_elem? (lists i) (x + j)

  past :
      (x l : ℕ) (lists : ℕ → List A)
      → ((k : ℕ) → length (lists k) ≡ n)
      → n ≤ x
      → IsCollected x l [] lists
  unfolding IsCollected
  past x l lists size h i j from to = sym (get_elem?-none (lists i) (x + j) (omega (arith, size i)))

  page_elem :
      (p : Paging) (items : List A) (j : ℕ)
      → j < p.limit
      → get_elem? (paginate_slice items p) j ≡ get_elem? items (p.offset + j)
  page_elem p items j h =
      rw (paginate_slice_lem items p)
        (get_elem?-take p.limit j (drop p.offset items) h ∙ get_elem?-drop p.offset j items)

  append_elem :
      (xs ys : List A) (j : ℕ)
      → length xs ≤ j
      → get_elem? (xs ++ ys) j ≡ get_elem? ys (j - length xs)
  append_elem xs ys j h =
      let whole : j ≡ length xs + (j - length xs) = omega arith in
      ap (get_elem? (xs ++ ys)) whole ∙ get_elem?-append_right xs ys (j - length xs)

  behind_elem :
      (xs ys : List A) (x i j l : ℕ) (lists : ℕ → List A)
      → length xs ≡ l
      → IsCollected (x + l) l ys (λ k. lists (suc k))
      → i * l + l ≤ j
      → j < suc i * l + l
      → get_elem? (xs ++ ys) j ≡ get_elem? (lists (suc i)) (x + j)
  unfolding IsCollected
  behind_elem xs ys x i j l lists size h from to =
      let k = j - l in
      let same : x + l + (j - l) ≡ x + j = omega arith in
      append_elem xs ys j (omega (arith, size))
      ∙ ap (λ m. get_elem? ys (j - m)) size
      ∙ h i (j - l) (omega arith) (omega arith)
      ∙ ap (get_elem? (lists (suc i))) same

  collect-page_at :
      (p : Paging) (lists : ℕ → List A) (behind : NextLink → List A)
      → 0 < p.limit
      → ((k : ℕ) → length (lists k) ≡ n)
      → ((next : NextLink)
          → next.offset ≡ p.offset + p.limit
          → next.limit ≡ p.limit
          → IsCollected (p.offset + p.limit) p.limit (behind next) (λ k. lists (suc k)))
      → IsCollected p.offset p.limit (collect (page_at r p (lists 0)) behind) lists
  unfolding IsCollected collect page_at build_paging_headers
  collect-page_at p lists behind some_items size h zero j from to =
      let page = paginate_slice (lists 0) p in
      elim (Bool-cases
        (leb p.limit (length page) && ltb (p.offset + length page) (length (lists 0)))) [
          | inl more ↦ rw more (
              get_elem?-append_left page _ j (ground arith) ∙ page_elem p (lists 0) j (omega arith))
          | inr last ↦ rw last (page_elem p (lists 0) j (omega arith))
        ]
  collect-page_at p lists behind some_items size h (suc i) j from to =
      let page = paginate_slice (lists 0) p in
      let next : NextLink = record {
        scheme = link_scheme r;
        host = link_host r;
        offset = p.offset + p.limit;
        limit = p.limit;
      } in
      let window = length-paginate_slice (lists 0) p in
      elim (Bool-cases
        (leb p.limit (length page) && ltb (p.offset + length page) (length (lists 0)))) [
          | inl more ↦ rw more (
              behind_elem page (behind next) p.offset i j p.limit lists (ground (arith, window))
                (h next refl refl) (omega arith) (omega arith))
          | inr last ↦ rw last (
              get_elem?-none page j (ground (arith, window))
              ∙ sym (
                  get_elem?-none (lists (suc i)) (p.offset + j)
                    (ground (arith, window, size 0, size (suc i)))))
        ]

  walk_from :
      (fuel l x : ℕ) (lists : ℕ → List A)
      → 0 < l
      → IsStable mode l
      → ((k : ℕ) → length (lists k) ≡ n)
      → n ≤ fuel + x
      → IsCollected x l (walk fuel r mode (pos x) (pos l) lists) lists
  unfolding walk list_page
  walk_from zero l x lists some_items s size enough = past x l lists size (omega arith)
  walk_from (suc fuel) l x lists some_items s size enough =
      let behind : NextLink → List A =
        λ next. walk fuel r mode (pos next.offset) (pos next.limit) (λ k. lists (suc k)) in
      rw (s x) (
        collect-page_at (record { offset = x; limit = l }) lists behind some_items size
          (λ next eo el.
            rw (eo, el)
              (walk_from fuel l (x + l) (λ k. lists (suc k)) some_items s (λ k. size (suc k))
                (omega arith))))

  -- Following the Link headers from any first request, whatever its limit and the mode, where
  -- request i, counted from 0, finds a list of its own, all lists have the same length, and after
  -- the first request the client may make at least one more for each of their items: item j of all
  -- that the client collects is the item at position offset + j of the list that request i = j /
  -- limit finds, and there is none where that list has none. Offset and limit are those that the
  -- first answer pages by.
  pub walk_lem :
      (fuel : ℕ) (offset limit : ℤ) (lists : ℕ → List A) (i j : ℕ)
      → ((k : ℕ) → length (lists k) ≡ n)
      → n ≤ fuel
      → let p = forced_paging mode (paging_of offset limit 50) in
        i * p.limit ≤ j
        → j < i * p.limit + p.limit
        → get_elem? (walk (suc fuel) r mode offset limit lists) j
          ≡ get_elem? (lists i) (p.offset + j)
  unfolding walk list_page IsCollected
  walk_lem fuel offset limit lists i j size enough =
      let p = forced_paging mode (paging_of offset limit 50) in
      let some_items = (forced_paging_bounds mode offset limit 50 (omega arith) (omega arith)).0 in
      let behind : NextLink → List A =
        λ next. walk fuel r mode (pos next.offset) (pos next.limit) (λ k. lists (suc k)) in
      collect-page_at p lists behind some_items size
        (λ next eo el.
          rw (eo, el)
            (walk_from fuel p.limit (p.offset + p.limit) (λ k. lists (suc k)) some_items
              (stable_limit mode offset limit) (λ k. size (suc k)) (omega arith)))
        i j
