-- ===== src/RequestLog/Ring.antt =====
-- What the ring of the request log (handlers/requestlog.go) shows.
use ocpi_mock_hub.Prelude.{
  ℕ, zero, suc, ◌+◌, ◌-◌, ◌%◌, ◌≤◌, ◌<◌, ◌≡◌, refl, sym, ap, subst, ◌∙◌, inl, inr, Option, none,
  some, List, [], ◌∷◌, false, ltb, ◌==◌, ◌&&◌, if_cases, if◌then◌else◌, length, take, take_all,
  Bool-cases, arith,
}
use Prim.Native.Nat.{min}
use ocpi_mock_hub.RequestLog.{
  RequestLogEntry, RequestLogSlot, RequestLog, new_request_log, reserve, write_slot, rollback,
  AddResult, stored, meta_failed, slot_failed, slot_and_rollback_failed, add_entry, RequestLogState,
  cons_shown, shows, shown, entries_from, entries,
}

abbrev pub Call : Type 0
Call = AddResult × RequestLogEntry

unfoldable pub add_all : List Call → RequestLog
unfolding add_entry
add_all [] = new_request_log
add_all ((o, e) ∷ calls) = add_entry o e (add_all calls)

-- The reserved slots, newest first: `none` where the slot was not written.
abbrev pub recorded : List Call → List (Option RequestLogEntry)
recorded [] = []
recorded ((stored, e) ∷ calls) = some e ∷ recorded calls
recorded ((meta_failed, e) ∷ calls) = recorded calls
recorded ((slot_failed, e) ∷ calls) = recorded calls
recorded ((slot_and_rollback_failed, e) ∷ calls) = none ∷ recorded calls

abbrev pub present : List (Option RequestLogEntry) → List RequestLogEntry
present [] = []
present (none ∷ xs) = present xs
present (some e ∷ xs) = e ∷ present xs

abbrev nth : ℕ → List (Option RequestLogEntry) → Option RequestLogEntry
nth i [] = none
nth zero (x ∷ xs) = x
nth (suc i) (x ∷ xs) = nth i xs

-- the counters and the slots of a ring in which `xs` has been reserved, newest first
abbrev IsRing : RequestLog → List (Option RequestLogEntry) → Type 0
IsRing log xs =
    (log.meta.last_sequence ≡ length xs)
    × (log.meta.next_index ≡ length xs % 500)
    × (log.meta.count ≡ min (length xs) 500)
    × ((i : ℕ) → (log.slots i).sequence ≤ length xs)
    × ((i : ℕ) → i < min (length xs) 500 → shown log i ≡ nth i xs)

entries_from-present :
    (log : RequestLog) (i k : ℕ) (xs : List (Option RequestLogEntry))
    → k ≤ length xs
    → ((j : ℕ) → j < k → shown log (i + j) ≡ nth j xs)
    → entries_from log i k ≡ present (take k xs)
unfolding entries_from
entries_from-present log i zero xs h same = refl
entries_from-present log i (suc k) [] h same = absurd (omega (arith, h))
entries_from-present log i (suc k) (x ∷ xs) h same =
    let first : shown log i ≡ x = ap (shown log) (omega arith) ∙ same 0 (omega arith) in
    let rest =
      entries_from-present log (i + 1) k xs (omega (arith, h))
        (λ j below. ap (shown log) (omega arith) ∙ same (suc j) (omega (arith, below))) in
    rw (first, rest) (cons_present x (take k xs))
  where
    cons_present :
        (y : Option RequestLogEntry) (ys : List (Option RequestLogEntry))
        → cons_shown y (present ys) ≡ present (y ∷ ys)
    cons_present none ys = refl
    cons_present (some e) ys = refl

rollback-reserve :
    (m : RequestLogState) → rollback m.next_index (reserve m).last_sequence m.count (reserve m) ≡ m
unfolding rollback reserve
rollback-reserve m =
    if_cases {A = RequestLogState} (λ r. r ≡ m)
      ((m.last_sequence + 1 == m.last_sequence + 1)
        && ((m.next_index + 1) % 500 == (m.next_index + 1) % 500))
      (λ e. ap (λ k. record m { last_sequence = k }) (omega arith))
      (λ e. absurd (ground (arith, e)))

rolled_back : (log : RequestLog) (e : RequestLogEntry) → add_entry slot_failed e log ≡ log
unfolding add_entry
rolled_back log e = ap (λ m. record log { meta = m }) (rollback-reserve log.meta)

-- the slot that the reservation takes does not show among the newer ones
shown-reserved :
    (log : RequestLog) (slots : ℕ → RequestLogSlot) (j : ℕ)
    → log.meta.next_index < 500
    → j < 499
    → ((i : ℕ) → (i == log.meta.next_index) ≡ false → slots i ≡ log.slots i)
    → shown (record { meta = reserve log.meta; slots = slots }) (suc j) ≡ shown log j
unfolding shown reserve
shown-reserved log slots j h below same =
    let m = log.meta in
    let index : ((m.next_index + 1) % 500 + 500 - 1 - suc j) % 500
        ≡ (m.next_index + 500 - 1 - j) % 500 =
      omega (arith, h, below) in
    let away : ((m.next_index + 500 - 1 - j) % 500 == m.next_index) ≡ false =
      ground (arith, h, below) in
    ap (λ k. shows (slots k) (m.last_sequence + 1 - suc j)) index
    ∙ ap (λ slot. shows slot (m.last_sequence + 1 - suc j)) (same _ away)
    ∙ ap (shows (log.slots ((m.next_index + 500 - 1 - j) % 500))) (omega arith)

-- a reserved slot that keeps its old sequence, or gets the new one, is the newest
module _ (log : RequestLog) (xs : List (Option RequestLogEntry)) (h : IsRing log xs)
    (slots : ℕ → RequestLogSlot) (x : Option RequestLogEntry) where
  reserved : RequestLog
  reserved = record { meta = reserve log.meta; slots = slots }

  reserved-IsRing :
      ((i : ℕ) → (slots i).sequence ≤ length xs + 1)
      → ((i : ℕ) → (i == log.meta.next_index) ≡ false → slots i ≡ log.slots i)
      → shows (slots log.meta.next_index) (length xs + 1) ≡ x
      → IsRing reserved (x ∷ xs)
  unfolding reserved reserve shown
  reserved-IsRing old same newest = (
    omega (arith, h.0),
    omega (arith, h.1),
    ground (arith, h.2),
    λ i. omega (arith, old i),
    shown_all,
  )
    where
      shown_all : (i : ℕ) → i < min (length (x ∷ xs)) 500 → shown reserved i ≡ nth i (x ∷ xs)
      shown_all zero below =
          let next = log.meta.next_index in
          let index : ((next + 1) % 500 + 500 - 1 - 0) % 500 ≡ next = omega (arith, h.1) in
          ap (λ k. shows (slots k) (log.meta.last_sequence + 1 - 0)) index
          ∙ ap (shows (slots next)) (omega (arith, h.0))
          ∙ newest
      shown_all (suc j) below =
          shown-reserved log slots j (omega (arith, h.1)) (omega (arith, below)) same
          ∙ h.4 j (omega (arith, below))

-- a slot of another sequence does not show
shows_other : (slot : RequestLogSlot) (n : ℕ) → slot.sequence ≤ n → shows slot (n + 1) ≡ none
unfolding shows
shows_other slot n h =
    if_cases {A = Option RequestLogEntry} (λ o. o ≡ none) (slot.sequence == n + 1)
      (λ e. absurd (ground (arith, e, h))) (λ e. refl)

shows_own : (slot : RequestLogSlot) (n : ℕ) → slot.sequence ≡ n → shows slot n ≡ some slot.entry
unfolding shows
shows_own slot n h =
    if_cases {A = Option RequestLogEntry} (λ o. o ≡ some slot.entry) (slot.sequence == n)
      (λ e. refl) (λ e. absurd (ground (arith, e, h)))

module _ (log : RequestLog) (xs : List (Option RequestLogEntry)) (h : IsRing log xs) where
  lost-IsRing :
      (e : RequestLogEntry) → IsRing (add_entry slot_and_rollback_failed e log) (none ∷ xs)
  unfolding add_entry reserved
  lost-IsRing e =
      reserved-IsRing log xs h log.slots none (λ i. omega (arith, h.3 i)) (λ i other. refl)
        (shows_other (log.slots log.meta.next_index) (length xs) (h.3 log.meta.next_index))

  stored-IsRing : (e : RequestLogEntry) → IsRing (add_entry stored e log) (some e ∷ xs)
  unfolding add_entry reserved write_slot reserve
  stored-IsRing e =
      reserved-IsRing log xs h (write_slot log.meta.next_index slot log.slots) (some e)
        (λ i.
          if_cases {A = RequestLogSlot} (λ s. s.sequence ≤ length xs + 1) (i == log.meta.next_index)
            (λ same. omega (arith, h.0)) (λ other. omega (arith, h.3 i)))
        (λ i other. choose_other i other)
        (own ∙ shows_own slot (length xs + 1) (omega (arith, h.0)))
    where
      slot : RequestLogSlot
      slot = record { sequence = log.meta.last_sequence + 1; entry = e }

      choose_other :
          (i : ℕ)
          → (i == log.meta.next_index) ≡ false
          → (if i == log.meta.next_index then slot else log.slots i) ≡ log.slots i
      choose_other i other =
          if_cases {A = RequestLogSlot} (λ s. s ≡ log.slots i) (i == log.meta.next_index)
            (λ same. absurd (ground (arith, same, other))) (λ e'. refl)

      own :
          shows
            (if log.meta.next_index == log.meta.next_index
              then slot
              else log.slots log.meta.next_index)
            (length xs + 1)
          ≡ shows slot (length xs + 1)
      own =
          if_cases {A = RequestLogSlot} (λ s. shows s (length xs + 1) ≡ shows slot (length xs + 1))
            (log.meta.next_index == log.meta.next_index) (λ same. refl)
            (λ other. absurd (ground (arith, other)))

add_all-IsRing : (calls : List Call) → IsRing (add_all calls) (recorded calls)
unfolding add_all add_entry new_request_log
add_all-IsRing [] = (refl, refl, refl, λ i. omega arith, λ i below. absurd (omega (arith, below)))
add_all-IsRing ((stored, e) ∷ calls) = stored-IsRing _ _ (add_all-IsRing calls) e
add_all-IsRing ((meta_failed, e) ∷ calls) = add_all-IsRing calls
add_all-IsRing ((slot_failed, e) ∷ calls) =
    subst (λ log. IsRing log (recorded calls)) (sym (rolled_back (add_all calls) e))
      (add_all-IsRing calls)
add_all-IsRing ((slot_and_rollback_failed, e) ∷ calls) = lost-IsRing _ _ (add_all-IsRing calls) e

take-min : (xs : List (Option RequestLogEntry)) → take (min (length xs) 500) xs ≡ take 500 xs
take-min xs = elim (Bool-cases (ltb (length xs) 500)) [
  | inl e ↦
      let short : min (length xs) 500 ≡ length xs = ground (arith, e) in
      ap (λ n. take n xs) short
      ∙ take_all (length xs) xs (omega arith)
      ∙ sym (take_all 500 xs (ground (arith, e)))
  | inr e ↦ let long : min (length xs) 500 ≡ 500 = ground (arith, e) in ap (λ n. take n xs) long
]

-- After any sequence of Adds on a new request log, whichever of their updates fail, Entries lists
-- exactly the entries that were written among the newest 500 reserved slots, newest first; a
-- reservation that was rolled back takes no slot, one whose rollback failed takes one and shows
-- nothing.
pub entries-add_all :
    (calls : List Call) → entries (add_all calls) ≡ present (take 500 (recorded calls))
unfolding entries
entries-add_all calls =
    let ring = add_all-IsRing calls in
    let xs = recorded calls in
    ap (entries_from (add_all calls) 0) ring.2
    ∙ entries_from-present (add_all calls) 0 (min (length xs) 500) xs (omega arith)
        (λ j below. ap (shown (add_all calls)) (omega arith) ∙ ring.4 j below)
    ∙ ap present (take-min xs)
