-- ===== src/Prelude/GoStrings.antt =====
-- The functions of Go's package strings that the source calls, on texts as lists of characters.
use Prim.Native.Nat.{ℕ, ◌-◌}
use Prim.Native.Char.{Char, code}
use Prim.Native.String.{String, [], ◌∷◌, char_at}
use mathlib.Core.Path.{◌≡◌, refl}
use mathlib.Core.Bool.{Bool, ◌&&◌, ◌||◌}
use mathlib.Core.Option.{Option, none, some}
use text.Mathlib.Text.{find?}
use kubectl_safe_rollout.Prelude.Tests.{leb, nat_eq, is_some, if◌then◌else◌}

-- strings.Contains
abbrev pub contains : String → String → Bool
contains s t = is_some (find? s t)

-- The lower case of a character. Beyond ASCII only U+0130 and U+212A have an ASCII lower case; any
-- other is left as it is, which no comparison with an ASCII text can tell.
lower_char : Char → Char
lower_char c =
    if leb b'A' (code c) && leb (code c) b'Z'
    then char_at "abcdefghijklmnopqrstuvwxyz" (code c - b'A')
    else (if nat_eq (code c) 304
        then char_at "i" 0
        else (if nat_eq (code c) 8490 then char_at "k" 0 else c))

-- strings.ToLower, up to characters beyond ASCII.
unfoldable pub to_lower : String → String
unfolding lower_char
to_lower [] = []
to_lower (c ∷ s) = lower_char c ∷ to_lower s

-- The text without its longest suffix of characters that pass the test.
trim_right_func : (Char → Bool) → String → String
trim_right_func p [] = []
trim_right_func p (c ∷ s) = elim (trim_right_func p s) [
  | [] ↦ if p c then [] else c ∷ []
  | d ∷ t ↦ c ∷ (d ∷ t)
]

is_line_end : Char → Bool
is_line_end c = nat_eq (code c) 13 || nat_eq (code c) 10

-- strings.TrimRight(s, "\r\n")
unfoldable pub trim_line_ends : String → String
unfolding trim_right_func is_line_end
trim_line_ends s = trim_right_func is_line_end s

-- strings.CutPrefix, with none where the prefix is not there.
unfoldable pub cut_prefix : String → String → Option String
cut_prefix s [] = some s
cut_prefix [] (d ∷ t) = none
cut_prefix (c ∷ s) (d ∷ t) = if nat_eq (code c) (code d) then cut_prefix s t else none

-- The text before the first character with the code, and the text behind it.
unfoldable pub cut : ℕ → String → Option (String × String)
cut d [] = none
cut d (c ∷ s) =
    if nat_eq (code c) d
    then some ([], s)
    else elim (cut d s) [ none ↦ none | some (a, b) ↦ some (c ∷ a, b) ]

lowered : to_lower "Insufficient CPU" ≡ "insufficient cpu"
unfolding to_lower
lowered = refl

trimmed : trim_line_ends "a\r\nb\r\n" ≡ "a\r\nb"
unfolding trim_line_ends
trimmed = refl

cut_colon : cut b':' "ab:c:d" ≡ some ("ab", "c:d")
unfolding cut
cut_colon = refl
