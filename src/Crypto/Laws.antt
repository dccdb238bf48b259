-- ===== src/Crypto/Laws.antt =====
-- Decryption undoes encryption.
use building_block_runner.Prelude.{
  ℕ, zero, suc, none, some, [], ◌∷◌, ◌++◌, ◌≡◌, refl, ◌∙◌, ap, false, ltb, length, arith,
  length-append,
}
use building_block_runner.Crypto.{
  Bytes, decrypted, Ciphers, ◌then_with◌, put_uint32, uint32, first_bytes, rest_bytes,
  encrypt_symmetric, decrypt_symmetric, accepted_key, open_after, decrypt_with_key,
  decrypt_cipher_bytes, encrypt_mesh_cert_based, decrypt_mesh_cert_based, iv_length,
}

first_bytes-append : (n : ℕ) (xs ys : Bytes) → length xs ≡ n → first_bytes n (xs ++ ys) ≡ xs
unfolding first_bytes
first_bytes-append zero [] ys is = refl
first_bytes-append (suc n) [] ys is = ground arith
first_bytes-append zero (x ∷ xs) ys is = ground arith
first_bytes-append (suc n) (x ∷ xs) ys is =
    ap (λ r. x ∷ r) (first_bytes-append n xs ys (ground arith))

rest_bytes-append : (n : ℕ) (xs ys : Bytes) → length xs ≡ n → rest_bytes n (xs ++ ys) ≡ ys
unfolding rest_bytes
rest_bytes-append zero [] ys is = refl
rest_bytes-append (suc n) [] ys is = ground arith
rest_bytes-append zero (x ∷ xs) ys is = ground arith
rest_bytes-append (suc n) (x ∷ xs) ys is = rest_bytes-append n xs ys (ground arith)

long_enough : (n : ℕ) (xs ys : Bytes) → length xs ≡ n → ltb (length (xs ++ ys)) n ≡ false
long_enough n xs ys is = rw length-append (ground arith)

open_after-append :
    (c : Ciphers) (key : Bytes) (n : ℕ) (iv sealed : Bytes)
    → length iv ≡ n
    → open_after c key n (iv ++ sealed) ≡ c.open_sealed key iv sealed
unfolding open_after
open_after-append c key n iv sealed is =
    rw
      (
        long_enough n iv sealed is,
        first_bytes-append n iv sealed is,
        rest_bytes-append n iv sealed is,
      )
      refl

decrypt_symmetric-encrypt_symmetric :
    (c : Ciphers) (key iv plain : Bytes)
    → length iv ≡ iv_length
    → c.open_sealed key iv (c.seal key iv plain) ≡ decrypted plain
    → decrypt_symmetric c key (encrypt_symmetric c key iv plain) ≡ decrypted plain
unfolding decrypt_symmetric encrypt_symmetric put_uint32 uint32
decrypt_symmetric-encrypt_symmetric c key iv plain drawn opens =
    open_after-append c key 12 iv (c.seal key iv plain) drawn ∙ opens

decrypt_cipher_bytes-append :
    (c : Ciphers) (size : ℕ) (key wrapped_key rest : Bytes)
    → length wrapped_key ≡ size
    → c.decrypt_oaep wrapped_key ≡ decrypted key
    → decrypt_cipher_bytes c size (wrapped_key ++ rest) ≡ decrypt_with_key c rest key
unfolding decrypt_cipher_bytes ◌then_with◌
decrypt_cipher_bytes-append c size key wrapped_key rest is unwraps =
    rw
      (
        long_enough size wrapped_key rest is,
        first_bytes-append size wrapped_key rest is,
        rest_bytes-append size wrapped_key rest is,
        unwraps,
      )
      refl

-- What is encrypted with a key that AES accepts and a nonce of twelve bytes is decrypted to the same
-- bytes, where the ciphers and base64 undo themselves for these values, and RSA gives as many bytes as
-- the private key has.
pub decrypt_mesh_cert_based-encrypt_mesh_cert_based :
    (c : Ciphers) (size : ℕ) (key iv plain wrapped_key : Bytes)
    → c.accepts_key key ≡ none
    → length iv ≡ iv_length
    → c.encrypt_oaep key ≡ decrypted wrapped_key
    → length wrapped_key ≡ size
    → c.decrypt_oaep wrapped_key ≡ decrypted key
    → c.open_sealed key iv (c.seal key iv plain) ≡ decrypted plain
    → c.decode (c.encode (wrapped_key ++ encrypt_symmetric c key iv plain))
      ≡ decrypted (wrapped_key ++ encrypt_symmetric c key iv plain)
    → (encrypt_mesh_cert_based c key iv plain then_with decrypt_mesh_cert_based c (some size))
      ≡ decrypted plain
unfolding encrypt_mesh_cert_based decrypt_mesh_cert_based decrypt_with_key accepted_key ◌then_with◌
decrypt_mesh_cert_based-encrypt_mesh_cert_based c size key iv plain wrapped_key fits drawn wraps
      sized unwraps opens decodes =
    rw
      (
        fits,
        wraps,
        decodes,
        decrypt_cipher_bytes-append c size key wrapped_key (encrypt_symmetric c key iv plain) sized
            unwraps,
        fits,
        decrypt_symmetric-encrypt_symmetric c key iv plain drawn opens,
      )
      refl
