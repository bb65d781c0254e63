-- ===== src/Correctness/Persist/Refines.antt =====
-- The manager that lives in the blob, and the one that lives in memory (correctness/manager.go).
use ocpi_mock_hub.Prelude.{
  ◌≡◌, refl, ap, ◌∙◌, Option, none, some, List, [], ◌∷◌, Bool, true, false, ◌&&◌, if◌then◌else◌,
  Dict, lookup, or_else, arith,
}
use ocpi_mock_hub.Seed.{Seed}
use ocpi_mock_hub.Correctness.Types.{SuiteDefinition, Evaluators, Manager, Result, ok, err, ◌>>=◌}
use ocpi_mock_hub.Correctness.Manager.Invariant.{IsConsistent}
use ocpi_mock_hub.Correctness.Manager.Reachable.{
  Op, apply_op, after, is_fresh, new_manager, apply_op-IsFine,
}
use ocpi_mock_hub.Correctness.Persist.{
  Codec, IsFaithful, PersistedManager, decode_manager_state, apply_state, with_state_mutation,
  written, mutated, serialize_state, map_values, normalize_session_order, known_once, keys, sorted,
}
use ocpi_mock_hub.Correctness.Persist.RoundTrip.{IsRegistry, end, reloaded, apply_state-serialize}
use ocpi_mock_hub.Correctness.Persist.Whole.{IsWhole, apply_op-IsWhole}
use ocpi_mock_hub.Correctness.Persist.Anchors.{reloaded-IsConsistent, Every-unanchored}

abbrev twice : Result Manager → Result (Manager × Manager)
twice r = r >>= λ m. ok (m, m)

if_true : {A : Type 0} (b : Bool) (x y : A) → b ≡ true → (if b then x else y) ≡ x
if_true true x y e = refl
if_true false x y e = absurd (ground (arith, e))

if_false : {A : Type 0} (b : Bool) (x y : A) → b ≡ false → (if b then x else y) ≡ y
if_false true x y e = absurd (ground (arith, e))
if_false false x y e = refl

module _ (base : Seed) (suites : Dict SuiteDefinition) (ev : Evaluators) where
  -- the sequence of calls in memory: what succeeds is reloaded, what fails changes nothing
  abbrev next : Manager → Result Manager → Manager
  next m (ok m') = reloaded base suites m'
  next m (err e) = m

  unfoldable pub run : List Op → Manager → Manager
  unfolding apply_op
  run [] m = m
  run (op ∷ ops) m = run ops (next m (apply_op ev op m))

  unfoldable pub are_fresh : List Op → Manager → Bool
  unfolding apply_op is_fresh
  are_fresh [] m = true
  are_fresh (op ∷ ops) m = is_fresh op m && are_fresh ops (next m (apply_op ev op m))

  unfoldable pub loaded : Option PersistedManager → Option Manager
  unfolding apply_state
  loaded none = none
  loaded (some p) = some (apply_state base suites p)

  module _ (codec : Codec) where
    -- the same calls on the blob
    unfoldable pub serve : List Op → codec.Blob → codec.Blob
    unfolding with_state_mutation
    serve [] raw = raw
    serve (op ∷ ops) raw =
        serve ops (with_state_mutation codec base suites (λ m. twice (apply_op ev op m)) raw).0

    -- loadStateLocked, `none` where the blob is no manager
    unfoldable pub load_state : codec.Blob → Option Manager
    unfolding decode_manager_state loaded
    load_state raw = loaded (decode_manager_state codec raw)

    module _ (faithful : IsFaithful codec) (registry : IsRegistry suites) where
      -- a manager that is read back as it stands
      IsSound : Manager → Type 0
      IsSound m = IsWhole base suites registry m × IsConsistent m

      IsSound-after :
          (op : Op) (m : Manager)
          → IsSound m
          → is_fresh op m ≡ true
          → IsSound (after m (apply_op ev op m))
      unfolding IsSound
      IsSound-after op m (whole, consistent) fresh = (
        apply_op-IsWhole base suites registry ev op m whole,
        apply_op-IsFine ev m op fresh consistent,
      )

      load_written :
          (m : Manager)
          → IsSound m
          → load_state (codec.marshal (serialize_state m)) ≡ some (reloaded base suites m)
      unfolding load_state decode_manager_state loaded IsSound
      load_written m (whole, consistent) =
          let read_back = faithful.1 (serialize_state m) in
          ap loaded (
            if_false (codec.is_blank (codec.marshal (serialize_state m))) _ _ read_back.0
            ∙ read_back.1)
          ∙ ap some (apply_state-serialize base suites registry m whole.2 consistent)

      mutated_lem :
          (fn : Manager → Result (Manager × Manager)) (raw : codec.Blob)
          (o : Option PersistedManager) (m : Manager)
          → loaded o ≡ some m
          → mutated codec base suites fn raw o ≡ written codec raw (fn m)
      unfolding mutated loaded
      mutated_lem fn raw none m e = absurd (ground (arith, e))
      mutated_lem fn raw (some p) m e = ap (λ x. written codec raw (fn x)) (ap (λ o. or_else o m) e)

      load_next :
          (raw : codec.Blob) (m : Manager) (r : Result Manager)
          → IsSound (after m r)
          → load_state raw ≡ some m
          → load_state (written codec raw (twice r)).0 ≡ some (next m r)
      unfolding written
      load_next raw m (ok m') h e = load_written m' h
      load_next raw m (err failure) h e = e

      next-IsSound : (m : Manager) (r : Result Manager) → IsSound (after m r) → IsSound (next m r)
      unfolding IsSound
      next-IsSound m (ok m') (whole, consistent) = (
        (refl, refl, Every-unanchored base suites m'.sessions whole.2),
        reloaded-IsConsistent base suites m' consistent,
      )
      next-IsSound m (err failure) h = h

      serve_refines :
          (ops : List Op) (raw : codec.Blob) (m : Manager)
          → IsSound m
          → are_fresh ops m ≡ true
          → load_state raw ≡ some m
          → load_state (serve ops raw) ≡ some (run ops m)
      unfolding serve run are_fresh with_state_mutation load_state
      serve_refines [] raw m h fresh e = e
      serve_refines (op ∷ ops) raw m h fresh e =
          let first : is_fresh op m ≡ true = ground (arith, fresh) in
          let after_lem = IsSound-after op m h first in
          serve_refines ops _ (next m (apply_op ev op m))
            (next-IsSound m (apply_op ev op m) after_lem) (ground (arith, fresh))
            (ap (λ p. load_state p.0)
                (mutated_lem (λ m'. twice (apply_op ev op m')) raw (decode_manager_state codec raw)
                  m e)
              ∙ load_next raw m (apply_op ev op m) after_lem e)

      -- Over a faithful JSON codec and suites that are registered under their own non-empty ids,
      -- with a name, actions and cases, any sequence of the manager's operations, failed ones
      -- included, whose new session ids are not in use, leaves a blob that loads as the manager
      -- which the same sequence leaves in memory, where each success drops the event anchors of the
      -- actions that a session lists.
      pub serve-run :
          (ops : List Op)
          → are_fresh ops (new_manager base suites) ≡ true
          → load_state (serve ops codec.nothing) ≡ some (run ops (new_manager base suites))
      unfolding load_state decode_manager_state loaded apply_state map_values
          normalize_session_order known_once keys sorted lookup IsSound
      serve-run ops fresh =
          serve_refines ops codec.nothing (new_manager base suites)
            ((refl, refl, end), (λ k. refl, λ k. refl, refl)) fresh
            (ap loaded (if_true (codec.is_blank codec.nothing) _ _ faithful.0))
