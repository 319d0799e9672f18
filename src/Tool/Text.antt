-- ===== src/Tool/Text.antt =====
-- Text helpers: what `SubStr` of pkg/tool/string.go means for a text as a sequence of characters, and the
-- functions of Go's strings package that the services call.
use Prim.Native.Char.{code}
use Prim.Native.String.{◌++◌}
use text.Mathlib.Text.{find?}
use schedulx.Prelude.{
  ℕ, zero, suc, String, Bool, true, false, ◌&&◌, ◌||◌, ◌==◌, leb, ltb, ◌/◌, ◌%◌, if◌then◌else◌,
  none, some,
}

-- The first `n` characters, or all; the code itself, which goes through bytes, is Tool/Bytes.
unfoldable pub sub_str : String → ℕ → String
sub_str String.[] n = ""
sub_str (String.◌∷◌ c s) zero = ""
sub_str (String.◌∷◌ c s) (suc n) = String.◌∷◌ c (sub_str s n)

-- The number of characters.
abbrev pub count_chars : String → ℕ
count_chars String.[] = 0
count_chars (String.◌∷◌ c s) = suc (count_chars s)

-- `unicode.IsSpace`
unfoldable pub is_space : ℕ → Bool
is_space c =
    leb 9 c && leb c 13
    || c == 32
    || c == 133
    || c == 160
    || c == 5760
    || leb 8192 c && leb c 8202
    || c == 8232
    || c == 8233
    || c == 8239
    || c == 8287
    || c == 12288

unfoldable pub trim_left : String → String
trim_left String.[] = ""
trim_left (String.◌∷◌ c s) = if is_space (code c) then trim_left s else String.◌∷◌ c s

-- Whether every character is a space.
unfoldable pub is_blank : String → Bool
is_blank String.[] = true
is_blank (String.◌∷◌ c s) = is_space (code c) && is_blank s

unfoldable pub trim_right : String → String
trim_right String.[] = ""
trim_right (String.◌∷◌ c s) =
    if is_space (code c) && is_blank s then "" else String.◌∷◌ c (trim_right s)

-- `strings.TrimSpace`
unfoldable pub trim_space : String → String
unfolding trim_left trim_right is_blank is_space
trim_space s = trim_right (trim_left s)

-- `strings.Contains`
unfoldable pub contains : String → String → Bool
contains s sub = elim (find? s sub) [ none ↦ false | some i ↦ true ]

unfoldable pub digit : ℕ → String
digit n =
    if n == 0
    then "0"
    else if n == 1
    then "1"
    else if n == 2
    then "2"
    else if n == 3
    then "3"
    else if n == 4
    then "4"
    else if n == 5
    then "5"
    else if n == 6
    then "6"
    else if n == 7
    then "7"
    else if n == 8
    then "8"
    else "9"

unfoldable pub digits : ℕ → ℕ → String
digits zero n = ""
digits (suc f) n =
    let front = digits f (n / 10) in if ltb n 10 then digit n else front ++ digit (n % 10)

-- `%v` of a natural number
unfoldable pub decimal : ℕ → String
unfolding digits digit
decimal n = digits (suc n) n
