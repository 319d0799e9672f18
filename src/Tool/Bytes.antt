-- ===== src/Tool/Bytes.antt =====
-- `SubStr` of pkg/tool/string.go on the bytes of a text in UTF-8, and `utf8.DecodeRuneInString` of Go.
use Prim.Native.Char.{code}
use schedulx.Prelude.{
  ℕ, zero, suc, ◌+◌, ◌/◌, ◌%◌, ◌==◌, ◌&&◌, ltb, leb, Bool, String, if◌then◌else◌, List, [], ◌∷◌,
  ◌++◌, take, drop, length,
}

-- The encoding of a code point.
unfoldable pub encode_rune : ℕ → List ℕ
encode_rune c =
    if ltb c 128
    then c ∷ []
    else if ltb c 2048
    then (192 + c / 64) ∷ (128 + c % 64) ∷ []
    else if ltb c 65536
    then (224 + c / 4096) ∷ (128 + c / 64 % 64) ∷ (128 + c % 64) ∷ []
    else (240 + c / 262144) ∷ (128 + c / 4096 % 64) ∷ (128 + c / 64 % 64) ∷ (128 + c % 64) ∷ []

-- The bytes of a text.
unfoldable pub bytes_of : String → List ℕ
unfolding encode_rune
bytes_of String.[] = []
bytes_of (String.◌∷◌ c s) = encode_rune (code c) ++ bytes_of s

-- A byte that goes on with a character.
unfoldable pub is_tail : ℕ → Bool
is_tail b = leb 128 b && leb b 191

-- The second byte after a first one: neither too long a form nor a surrogate nor too large a number.
unfoldable pub is_second : ℕ → ℕ → Bool
is_second b0 b =
    leb (if b0 == 224 then 160 else if b0 == 240 then 144 else 128) b
    && leb b (if b0 == 237 then 159 else if b0 == 244 then 143 else 191)

unfoldable pub size2 : ℕ → List ℕ → ℕ
size2 b0 [] = 1
size2 b0 (b1 ∷ l) = if is_second b0 b1 then 2 else 1

unfoldable pub size3 : ℕ → List ℕ → ℕ
size3 b0 [] = 1
size3 b0 (b1 ∷ []) = 1
size3 b0 (b1 ∷ b2 ∷ l) = if is_second b0 b1 && is_tail b2 then 3 else 1

unfoldable pub size4 : ℕ → List ℕ → ℕ
size4 b0 [] = 1
size4 b0 (b1 ∷ []) = 1
size4 b0 (b1 ∷ b2 ∷ []) = 1
size4 b0 (b1 ∷ b2 ∷ b3 ∷ l) = if is_second b0 b1 && is_tail b2 && is_tail b3 then 4 else 1

-- The size that `utf8.DecodeRuneInString` gives: 1 for a byte that starts no character.
unfoldable pub rune_size : List ℕ → ℕ
unfolding is_second is_tail size2 size3 size4
rune_size [] = 0
rune_size (b ∷ l) =
    if ltb b 194
    then 1
    else if ltb b 224
    then size2 b l
    else if ltb b 240
    then size3 b l
    else if ltb b 245
    then size4 b l
    else 1

-- The loop, with what is left of `length` and with `n`.
unfoldable pub skip : List ℕ → ℕ → ℕ → ℕ
unfolding rune_size
skip s zero n = n
skip s (suc k) n =
    let next = skip s k (n + rune_size (drop n s)) in if ltb n (length s) then next else n

unfoldable pub sub_bytes : List ℕ → ℕ → List ℕ
unfolding skip
sub_bytes s length = take (skip s length 0) s
