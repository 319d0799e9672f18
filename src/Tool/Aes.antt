-- ===== src/Tool/Aes.antt =====
-- pkg/tool/aes.go. A byte is a number; the block cipher in its CBC mode and base64 are not code of the
-- repository: they are a parameter with what their packages promise.
use schedulx.Prelude.{
  ℕ, zero, suc, ◌-◌, ◌%◌, ◌==◌, ltb, leb, if◌then◌else◌, List, [], ◌∷◌, ◌++◌, length, take, String,
  Option, none, some, ◌≡◌,
}
use schedulx.Effect.{new_error, Result, ok, err, Outcome, returns, fails, panics}

abbrev pub block_size : ℕ
block_size = 16

pub record Cipher : Type 0 where
  -- `CryptBlocks` under a key and the first vector, for whole blocks
  pub encrypt_blocks : List ℕ → List ℕ → List ℕ → List ℕ
  pub decrypt_blocks : List ℕ → List ℕ → List ℕ → List ℕ
  pub encode_base64 : List ℕ → String
  pub decode_base64 : String → Result (List ℕ)
  pub size_law : (key iv bytes : List ℕ) → length (encrypt_blocks key iv bytes) ≡ length bytes
  pub blocks_law :
      (key iv bytes : List ℕ)
      → length bytes % block_size ≡ 0
      → decrypt_blocks key iv (encrypt_blocks key iv bytes) ≡ bytes
  pub base64_law : (bytes : List ℕ) → decode_base64 (encode_base64 bytes) ≡ ok bytes

-- `bytes.Repeat`
unfoldable pub repeat : ℕ → ℕ → List ℕ
repeat b zero = []
repeat b (suc n) = b ∷ repeat b n

unfoldable pub pkcs5_padding : List ℕ → ℕ → List ℕ
unfolding repeat
pkcs5_padding plaintext size =
    let padding = size - length plaintext % size in plaintext ++ repeat (padding % 256) padding

-- `origData[length-1]`
unfoldable pub last_byte : List ℕ → Option ℕ
last_byte [] = none
last_byte (b ∷ []) = some b
last_byte (b ∷ c ∷ l) = last_byte (c ∷ l)

-- `origData[:(length - unpadding)]`; an index or a bound outside the slice is a panic.
unfoldable pub drop_padding : List ℕ → Option ℕ → Outcome (List ℕ)
drop_padding bytes none = panics
drop_padding bytes (some n) =
    if leb n (length bytes) then returns (take (length bytes - n) bytes) else panics

unfoldable pub pkcs5_un_padding : List ℕ → Outcome (List ℕ)
unfolding drop_padding
pkcs5_un_padding bytes = drop_padding bytes (last_byte bytes)

-- The loop of `getKey`, in so many rounds at most; in none of them it returns for an empty key.
unfoldable pub get_key : ℕ → List ℕ → List ℕ → Option (List ℕ)
get_key zero key result = none
get_key (suc rounds) key result =
    let rest = get_key rounds key in
    if ltb (length result) 16 then rest (result ++ key) else some (take 16 result)

-- Enough for a key that is not empty.
abbrev pub key_rounds : ℕ
key_rounds = 17

module _ (c : Cipher) where
  unfoldable pub seal_blocks : List ℕ → Option (List ℕ) → Option (Outcome String)
  unfolding pkcs5_padding
  seal_blocks bytes none = none
  seal_blocks bytes (some k) = some (
      returns
        (c.encode_base64 (c.encrypt_blocks k (take block_size k) (pkcs5_padding bytes block_size))))

  -- `none` is a call that never returns.
  unfoldable pub aes_encrypt : List ℕ → List ℕ → Option (Outcome String)
  unfolding get_key seal_blocks
  aes_encrypt bytes key =
      if length key == 0
      then some (fails (new_error "invalid key"))
      else seal_blocks bytes (get_key key_rounds key [])

  -- What is not whole blocks makes `CryptBlocks` panic.
  unfoldable pub open_blocks : List ℕ → Option (List ℕ) → Option (Outcome (List ℕ))
  unfolding pkcs5_un_padding
  open_blocks crypted none = none
  open_blocks crypted (some k) = some (
      if length crypted % block_size == 0
      then pkcs5_un_padding (c.decrypt_blocks k (take block_size k) crypted)
      else panics)

  unfoldable pub open_decoded : List ℕ → Result (List ℕ) → Option (Outcome (List ℕ))
  unfolding get_key open_blocks
  open_decoded key (err x) = some (fails x)
  open_decoded key (ok crypted) = open_blocks crypted (get_key key_rounds key [])

  unfoldable pub aes_decrypt : String → List ℕ → Option (Outcome (List ℕ))
  unfolding open_decoded
  aes_decrypt text key = open_decoded key (c.decode_base64 text)
