-- ===== src/Http/Text.antt =====
-- The text functions of Go's standard library that the handlers use: strings.TrimSpace,
-- strings.ToLower and strings.EqualFold, strings.HasPrefix.
use Prim.Native.Char.{Char, code}
use Prim.Native.String.{String}
use text.Mathlib.Text.{starts_with}
use vrtc.Base.{ℕ, ◌+◌, Bool, true, false, ◌&&◌, ◌||◌, List, [], ◌∷◌, ◌==◌, leb, if◌then◌else◌}

-- `unicode.IsSpace`
abbrev pub is_space : ℕ → Bool
is_space c =
    leb 9 c && leb c 13
    || c == 32
    || c == 133
    || c == 160
    || c == 5760
    || leb 8192 c && leb c 8202
    || c == 8232
    || c == 8233
    || c == 8239
    || c == 8287
    || c == 12288

abbrev pub trim_left : String → String
trim_left String.[] = String.[]
trim_left (String.◌∷◌ c s) = if is_space (code c) then trim_left s else String.◌∷◌ c s

abbrev pub cons_unless_blank : Char → String → String
cons_unless_blank c String.[] = if is_space (code c) then String.[] else String.◌∷◌ c String.[]
cons_unless_blank c (String.◌∷◌ d s) = String.◌∷◌ c (String.◌∷◌ d s)

abbrev pub trim_right : String → String
trim_right String.[] = String.[]
trim_right (String.◌∷◌ c s) = cons_unless_blank c (trim_right s)

unfoldable pub trim_space : String → String
trim_space s = trim_right (trim_left s)

-- The lower case of a letter, where it can be a letter of ASCII: besides A to Z, the Kelvin sign and
-- the capital I with a dot. Any other letter stands for itself, since no text of ASCII has it either
-- way.
abbrev pub lower : ℕ → ℕ
lower c =
    if leb 65 c && leb c 90 then c + 32 else if c == 304 then 105 else if c == 8490 then 107 else c

abbrev pub lower_codes : String → List ℕ
lower_codes String.[] = []
lower_codes (String.◌∷◌ c s) = lower (code c) ∷ lower_codes s

abbrev pub same_codes : List ℕ → List ℕ → Bool
same_codes [] [] = true
same_codes [] (y ∷ ys) = false
same_codes (x ∷ xs) [] = false
same_codes (x ∷ xs) (y ∷ ys) = x == y && same_codes xs ys

-- Whether the lower case of a text is a text of ASCII in lower case.
unfoldable pub lower_is : String → String → Bool
lower_is s key = same_codes (lower_codes s) (lower_codes key)

unfoldable pub has_prefix : String → String → Bool
has_prefix s p = starts_with s p
