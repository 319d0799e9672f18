-- ===== src/Tool/Whole.antt =====
-- `SubStr` of pkg/tool/string.go cuts between characters.
use Prim.Native.Char.{code}
use schedulx.Prelude.{
  ℕ, zero, suc, ◌+◌, ◌/◌, ◌%◌, ◌<◌, ltb, Bool, true, false, String, if◌then◌else◌, List, [], ◌∷◌,
  ◌++◌, take, drop, length, ◌≡◌, refl, ap, ◌∙◌, arith, ◌⊎◌, inl, inr, length-append,
}
use schedulx.Tool.Text.{sub_str}
use schedulx.Tool.Bytes.{
  encode_rune, bytes_of, is_tail, is_second, size2, size3, size4, rune_size, skip, sub_bytes,
}

-- A code point that is no half of a surrogate pair.
abbrev pub Scalar : ℕ → Type 0
Scalar c = (c < 55296) ⊎ ((57343 < c) × (c < 1114112))

tail-mod : (c : ℕ) → is_tail (128 + c % 64) ≡ true
unfolding is_tail
tail-mod c = ground arith

second2 : (c : ℕ) → 127 < c → c < 2048 → is_second (192 + c / 64) (128 + c % 64) ≡ true
unfolding is_second
second2 c h k = ground arith

second3 :
    (c : ℕ)
    → 2047 < c
    → c < 65536
    → Scalar c
    → is_second (224 + c / 4096) (128 + c / 64 % 64) ≡ true
unfolding is_second
second3 c h k (inl a) = ground arith
second3 c h k (inr (a, b)) = ground arith

second4 :
    (c : ℕ) → 65535 < c → c < 1114112 → is_second (240 + c / 262144) (128 + c / 4096 % 64) ≡ true
unfolding is_second
second4 c h k = ground arith

-- The size of the first character of a text is that of its encoding.
abbrev Sized : ℕ → List ℕ → Type 0
Sized c r = (rune_size (encode_rune c ++ r) ≡ length (encode_rune c)) × (0 < length (encode_rune c))

module _ (c : ℕ) (r : List ℕ) where
  one_byte : ltb c 128 ≡ true → Sized c r
  unfolding encode_rune rune_size
  one_byte h = let t : ltb c 194 ≡ true = ground arith in rw (h, t) (refl, omega arith)

  two_bytes : ltb c 128 ≡ false → ltb c 2048 ≡ true → Sized c r
  unfolding encode_rune rune_size size2
  two_bytes h k =
      let lo : 127 < c = ground arith in
      let hi : c < 2048 = ground arith in
      let t : ltb (192 + c / 64) 194 ≡ false = ground arith in
      let u : ltb (192 + c / 64) 224 ≡ true = ground arith in
      rw (h, k, t, u, second2 c lo hi) (refl, omega arith)

  three_bytes : ltb c 128 ≡ false → ltb c 2048 ≡ false → ltb c 65536 ≡ true → Scalar c → Sized c r
  unfolding encode_rune rune_size size3
  three_bytes h k l v =
      let lo : 2047 < c = ground arith in
      let hi : c < 65536 = ground arith in
      let t : ltb (224 + c / 4096) 194 ≡ false = ground arith in
      let u : ltb (224 + c / 4096) 224 ≡ false = ground arith in
      let x : ltb (224 + c / 4096) 240 ≡ true = ground arith in
      rw (h, k, l, t, u, x, second3 c lo hi v, tail-mod c) (refl, omega arith)

  four_bytes :
      ltb c 128 ≡ false → ltb c 2048 ≡ false → ltb c 65536 ≡ false → c < 1114112 → Sized c r
  unfolding encode_rune rune_size size4
  four_bytes h k l v =
      let lo : 65535 < c = ground arith in
      let t : ltb (240 + c / 262144) 194 ≡ false = ground arith in
      let u : ltb (240 + c / 262144) 224 ≡ false = ground arith in
      let x : ltb (240 + c / 262144) 240 ≡ false = ground arith in
      let y : ltb (240 + c / 262144) 245 ≡ true = ground arith in
      rw (h, k, l, t, u, x, y, second4 c lo v, tail-mod (c / 64), tail-mod c) (refl, omega arith)

  below : Scalar c → c < 1114112
  below (inl a) = omega arith
  below (inr (a, b)) = b

  by_range :
      (x y z : Bool) → ltb c 128 ≡ x → ltb c 2048 ≡ y → ltb c 65536 ≡ z → Scalar c → Sized c r
  by_range true y z h k l v = one_byte h
  by_range false true z h k l v = two_bytes h k
  by_range false false true h k l v = three_bytes h k l v
  by_range false false false h k l v = four_bytes h k l (below v)

  measured : Scalar c → Sized c r
  measured v = by_range _ _ _ refl refl refl v

-- The text consists of code points.
abbrev pub Scalars : String → Type 0
Scalars String.[] = Unit
Scalars (String.◌∷◌ c s) = Scalar (code c) × Scalars s

drop-append : (l s : List ℕ) (n : ℕ) → drop (length l + n) (l ++ s) ≡ drop n s
drop-append [] s n = ap (λ m. drop m s) (omega arith)
drop-append (x ∷ l) s n =
    let next : suc (length l) + n ≡ suc (length l + n) = omega arith in rw next (drop-append l s n)

take-append : (l s : List ℕ) (n : ℕ) → take (length l + n) (l ++ s) ≡ l ++ take n s
take-append [] s n = ap (λ m. take m s) (omega arith)
take-append (x ∷ l) s n =
    let next : suc (length l) + n ≡ suc (length l + n) = omega arith in
    rw next (ap (x ∷◌) (take-append l s n))

shifted : (l : ℕ) (b : Bool) (m n : ℕ) → (if b then l + m else l + n) ≡ l + (if b then m else n)
shifted l true m n = refl
shifted l false m n = refl

-- The loop from the end of `l` on is the loop on what follows `l`.
skip-append : (l s : List ℕ) (k n : ℕ) → skip (l ++ s) k (length l + n) ≡ length l + skip s k n
unfolding skip
skip-append l s zero n = refl
skip-append l s (suc k) n =
    let test : ltb (length l + n) (length (l ++ s)) ≡ ltb n (length s) =
      ground (arith, length-append l s) in
    let next : (length l + n) + rune_size (drop (length l + n) (l ++ s))
        ≡ length l + (n + rune_size (drop n s)) =
      rw (drop-append l s n) (omega arith) in
    rw (test, next, skip-append l s k (n + rune_size (drop n s)))
      (shifted (length l) (ltb n (length s)) _ _)

-- The first round skips the first character.
skip_first :
    (l s : List ℕ) (k : ℕ)
    → rune_size (l ++ s) ≡ length l
    → 0 < length l
    → skip (l ++ s) (suc k) 0 ≡ length l + skip s k 0
unfolding skip
skip_first l s k h p =
    let test : ltb 0 (length (l ++ s)) ≡ true = ground (arith, length-append l s) in
    let next : 0 + rune_size (l ++ s) ≡ length l + 0 = rw h (omega arith) in
    rw (test, next) (skip-append l s k 0)

-- Cutting the bytes of a text of code points at `k` gives the bytes of its first `k` characters: no
-- character is cut in two.
pub sub_bytes-bytes_of :
    (s : String) (k : ℕ) → Scalars s → sub_bytes (bytes_of s) k ≡ bytes_of (sub_str s k)
unfolding sub_bytes bytes_of sub_str skip
sub_bytes-bytes_of String.[] zero h = refl
sub_bytes-bytes_of String.[] (suc k) h = refl
sub_bytes-bytes_of (String.◌∷◌ c s) zero h = refl
sub_bytes-bytes_of (String.◌∷◌ c s) (suc k) (v, h) =
    let l = encode_rune (code c) in
    let (size, positive) = measured (code c) (bytes_of s) v in
    ap (λ n. take n (l ++ bytes_of s)) (skip_first l (bytes_of s) k size positive)
    ∙ take-append l (bytes_of s) (skip (bytes_of s) k 0)
    ∙ ap (l ++◌) (sub_bytes-bytes_of s k h)
