-- ===== src/Tool/Sealed.antt =====
-- What `AesDecrypt` gives back of what `AesEncrypt` made.
use schedulx.Prelude.{
  ℕ, zero, suc, ◌+◌, ◌-◌, ◌%◌, ◌<◌, ◌≤◌, ◌==◌, ltb, leb, List, [], ◌∷◌, ◌++◌, length, take,
  length-append, String, none, some, ◌≡◌, refl, ap, ◌∙◌, arith, true, false, Bool-cases, inl, inr,
}
use schedulx.Effect.{returns}
use schedulx.Tool.Aes.{
  Cipher, block_size, repeat, pkcs5_padding, last_byte, pkcs5_un_padding, get_key, key_rounds,
  aes_encrypt, open_blocks, open_decoded, seal_blocks, drop_padding, aes_decrypt,
}

length-repeat : (b n : ℕ) → length (repeat b n) ≡ n
unfolding repeat
length-repeat b zero = refl
length-repeat b (suc n) = omega (arith, length-repeat b n)

last_byte-repeat : (l : List ℕ) (b n : ℕ) → 0 < n → last_byte (l ++ repeat b n) ≡ some b
unfolding last_byte repeat
last_byte-repeat [] b zero h = absurd (omega (arith, h))
last_byte-repeat [] b (suc zero) h = refl
last_byte-repeat [] b (suc (suc n)) h = last_byte-repeat [] b (suc n) (omega arith)
last_byte-repeat (x ∷ []) b zero h = absurd (omega (arith, h))
last_byte-repeat (x ∷ []) b (suc n) h = last_byte-repeat [] b (suc n) h
last_byte-repeat (x ∷ y ∷ l) b n h = last_byte-repeat (y ∷ l) b n h

take-append : (l m : List ℕ) (n : ℕ) → n ≡ length l → take n (l ++ m) ≡ l
take-append [] m zero h = refl
take-append [] m (suc n) h = absurd (omega (arith, h))
take-append (x ∷ l) m zero h = absurd (omega (arith, h))
take-append (x ∷ l) m (suc n) h = ap (λ k. x ∷ k) (take-append l m n (omega (arith, h)))

-- The padding makes whole blocks.
whole_blocks : (bytes : List ℕ) → length (pkcs5_padding bytes block_size) % block_size ≡ 0
unfolding pkcs5_padding
whole_blocks bytes =
    let padding = block_size - length bytes % block_size in
    omega (
      arith,
      length-append bytes (repeat (padding % 256) padding),
      length-repeat (padding % 256) padding,
    )

un_padding_last :
    (l : List ℕ) (n : ℕ)
    → last_byte l ≡ some n
    → leb n (length l) ≡ true
    → pkcs5_un_padding l ≡ returns (take (length l - n) l)
unfolding pkcs5_un_padding drop_padding
un_padding_last l n h k = rw (h, k) refl

-- A padding is taken off again.
un_padding-padding :
    (bytes : List ℕ) → pkcs5_un_padding (pkcs5_padding bytes block_size) ≡ returns bytes
unfolding pkcs5_padding
un_padding-padding bytes =
    let n = block_size - length bytes % block_size in
    let byte : n % 256 ≡ n = omega arith in
    let last : last_byte (bytes ++ repeat (n % 256) n) ≡ some n =
      rw byte (last_byte-repeat bytes n n (omega arith)) in
    let size : length (bytes ++ repeat (n % 256) n) ≡ length bytes + n =
      omega (arith, length-append bytes (repeat (n % 256) n), length-repeat (n % 256) n) in
    let fits : leb n (length (bytes ++ repeat (n % 256) n)) ≡ true = ground (arith, size) in
    un_padding_last (bytes ++ repeat (n % 256) n) n last fits
    ∙ ap returns (
        take-append bytes (repeat (n % 256) n) (length (bytes ++ repeat (n % 256) n) - n)
          (omega (arith, size)))

-- An empty key keeps the loop running, however many rounds it gets.
get_key-empty : (rounds : ℕ) → get_key rounds [] [] ≡ none
unfolding get_key
get_key-empty zero = refl
get_key-empty (suc rounds) = get_key-empty rounds

length-take : (l : List ℕ) (n : ℕ) → n ≤ length l → length (take n l) ≡ n
length-take l zero h = refl
length-take [] (suc n) h = absurd (omega (arith, h))
length-take (x ∷ l) (suc n) h = omega (arith, length-take l n (omega (arith, h)))

-- A key that is not empty fills sixteen bytes in as many rounds.
get_key_enough :
    (rounds : ℕ) (key result : List ℕ)
    → 0 < length key
    → 0 < rounds
    → 16 < rounds + length result
    → (k : List ℕ) × (get_key rounds key result ≡ some k) × (length k ≡ 16)
unfolding get_key
get_key_enough zero key result h p l = absurd (omega (arith, p))
get_key_enough (suc rounds) key result h p l = elim (Bool-cases (ltb (length result) 16)) [
  | inl short ↦
      let (k, found, size) =
        get_key_enough rounds key (result ++ key) h (ground (arith, short, l))
          (ground (arith, short, l, h, length-append result key)) in
      (k, rw short found, size)
  | inr long ↦ (take 16 result, rw long refl, length-take result 16 (ground (arith, long)))
]

positive-== : (n : ℕ) → 0 < n → (n == 0) ≡ false
positive-== n h = ground arith

-- What was encrypted under a key that is not empty is decrypted under it, and neither call panics or
-- runs forever.
pub aes_decrypt-aes_encrypt :
    (c : Cipher) (bytes key : List ℕ)
    → 0 < length key
    → (text : String) × (aes_encrypt c bytes key ≡ some (returns text))
      × (aes_decrypt c text key ≡ some (returns bytes))
unfolding aes_encrypt aes_decrypt seal_blocks open_blocks open_decoded
aes_decrypt-aes_encrypt c bytes key h =
    let (k, found, size) = get_key_enough key_rounds key [] h (omega arith) (omega arith) in
    let padded = pkcs5_padding bytes block_size in
    let crypted = c.encrypt_blocks k (take block_size k) padded in
    let keyed = positive-== (length key) h in
    let whole : length crypted % block_size ≡ 0 =
      rw (c.size_law k (take block_size k) padded) (whole_blocks bytes) in
    (
      c.encode_base64 crypted,
      rw (keyed, found) refl,
      rw
          (
            c.base64_law crypted,
            found,
            whole,
            c.blocks_law k (take block_size k) padded (whole_blocks bytes),
          )
          (ap some (un_padding-padding bytes)),
    )
