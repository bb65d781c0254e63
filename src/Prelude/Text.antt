-- ===== src/Prelude/Text.antt =====
-- The functions of Go's package strings that the program calls, over the native texts: ToUpper,
-- ToLower, TrimSpace, TrimRight with "/", TrimPrefix, TrimSuffix, HasSuffix, Contains, Split by "/",
-- Join and EqualFold, and the order of two texts. Letters outside ASCII are left as they are, and only
-- ASCII white space is trimmed.
use Prim.Native.Nat.{◌-◌}
use Prim.Native.Char.{Char, code}
use Prim.Native.String.{String, [], ◌∷◌, ◌++◌, char_at}
use mathlib.Core.Bool.{Bool, true, false, ◌&&◌, ◌||◌}
use mathlib.Core.List.{List}
use text.Mathlib.Text.{◌==◌, starts_with}
use ocpi_mock_hub.Prelude.Tests.{leb, ltb, ◌==◌ as ◌==ₙ◌, if◌then◌else◌}

upper_char : Char → Char
upper_char c =
    if leb b'a' (code c) && leb (code c) b'z'
    then char_at "ABCDEFGHIJKLMNOPQRSTUVWXYZ" (code c - b'a')
    else c

unfoldable pub to_upper : String → String
unfolding upper_char
to_upper [] = []
to_upper (c ∷ s) = upper_char c ∷ to_upper s

lower_char : Char → Char
lower_char c =
    if leb b'A' (code c) && leb (code c) b'Z'
    then char_at "abcdefghijklmnopqrstuvwxyz" (code c - b'A')
    else c

unfoldable pub to_lower : String → String
unfolding lower_char
to_lower [] = []
to_lower (c ∷ s) = lower_char c ∷ to_lower s

is_space : Char → Bool
is_space c = code c ==ₙ b' ' || (leb 9 (code c) && leb (code c) 13)

trim_left : String → String
unfolding is_space
trim_left [] = []
trim_left (c ∷ s) = let rest = trim_left s in if is_space c then rest else c ∷ s

trim_right : String → String
unfolding is_space
trim_right [] = []
trim_right (c ∷ s) = let rest = trim_right s in if is_space c && rest == "" then "" else c ∷ rest

unfoldable pub trim_space : String → String
unfolding trim_left trim_right
trim_space s = trim_left (trim_right s)

-- strings.TrimRight(s, "/")
unfoldable pub trim_slashes : String → String
trim_slashes [] = []
trim_slashes (c ∷ s) =
    let rest = trim_slashes s in if (code c ==ₙ b'/') && (rest == "") then "" else c ∷ rest

-- strings.TrimSuffix(s, t)
unfoldable pub trim_suffix : String → String → String
trim_suffix t [] = []
trim_suffix t (c ∷ s) = let rest = trim_suffix t s in if (c ∷ s) == t then "" else c ∷ rest

unfoldable pub equal_fold : String → String → Bool
unfolding to_upper
equal_fold s t = to_upper s == to_upper t

-- strings.HasSuffix(s, t)
unfoldable pub ends_with : String → String → Bool
ends_with [] t = t == ""
ends_with (c ∷ s) t = (c ∷ s) == t || ends_with s t

-- strings.Contains(s, t)
unfoldable pub contains : String → String → Bool
contains [] t = t == ""
contains (c ∷ s) t = starts_with (c ∷ s) t || contains s t

skip : String → String → String
skip [] s = s
skip (d ∷ t) [] = []
skip (d ∷ t) (c ∷ s) = skip t s

-- strings.TrimPrefix(s, t)
unfoldable pub trim_prefix : String → String → String
unfolding skip
trim_prefix t s = if starts_with s t then skip t s else s

cons_head : Char → List String → List String
cons_head c List.[] = List.◌∷◌ (c ∷ []) List.[]
cons_head c (List.◌∷◌ part parts) = List.◌∷◌ (c ∷ part) parts

-- strings.Split(s, "/")
unfoldable pub split_slash : String → List String
unfolding cons_head
split_slash [] = List.◌∷◌ "" List.[]
split_slash (c ∷ s) =
    let rest = split_slash s in if code c ==ₙ b'/' then List.◌∷◌ "" rest else cons_head c rest

-- strings.Join(l, sep)
unfoldable pub join : String → List String → String
join sep List.[] = ""
join sep (List.◌∷◌ s List.[]) = s
join sep (List.◌∷◌ s (List.◌∷◌ t l)) = s ++ sep ++ join sep (List.◌∷◌ t l)

-- s < t
unfoldable pub text_lt : String → String → Bool
text_lt s [] = false
text_lt [] (d ∷ t) = true
text_lt (c ∷ s) (d ∷ t) = ltb (code c) (code d) || (code c ==ₙ code d && text_lt s t)
