-- ===== src/Prelude/Int.antt =====
-- Go's int as strconv.Atoi yields it: a sign and a magnitude. `negsuc n` is -(n + 1).
use Prim.Native.Nat.{ℕ, zero, suc, ◌+◌, ◌-◌, ◌*◌, ◌^◌, min}
use Prim.Native.Char.{code}
use Prim.Native.String.{String, [], ◌∷◌}
use mathlib.Core.Bool.{◌&&◌}
use mathlib.Core.Option.{Option, none, some}
use ocpi_mock_hub.Prelude.Tests.{leb, ◌==◌, if◌then◌else◌}

pub data ℤ : Type 0 where
  pos : ℕ → ℤ
  negsuc : ℕ → ℤ

-- the decimal digits of a text, or `none`
digits : ℕ → String → Option ℕ
digits acc [] = some acc
digits acc (c ∷ s) =
    let rest = digits (acc * 10 + (code c - b'0')) s in
    if leb b'0' (code c) && leb (code c) b'9' then rest else none

unsigned : String → Option ℕ
unsigned [] = none
unsigned (c ∷ s) = digits 0 (c ∷ s)

-- A text that is no number gives 0, and one out of the int64 range the nearest int64.
up : Option ℕ → ℤ
up none = pos 0
up (some n) = pos (min n (2 ^ 63 - 1))

negated : ℕ → ℤ
negated zero = pos 0
negated (suc n) = negsuc n

down : Option ℕ → ℤ
down none = pos 0
down (some n) = negated (min n (2 ^ 63))

-- n, _ := strconv.Atoi(s)
unfoldable pub atoi : String → ℤ
unfolding digits unsigned up down negated
atoi [] = pos 0
atoi (c ∷ s) =
    if code c == b'-'
    then down (unsigned s)
    else if code c == b'+'
    then up (unsigned s)
    else up (unsigned (c ∷ s))
