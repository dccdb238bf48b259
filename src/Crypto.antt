-- ===== src/Crypto.antt =====
-- go-meshapi-client/crypto/{meshcertbasedcrypto,meshsymmetriccrypto}.go: how an encrypted value is put
-- together and taken apart. Texts are their bytes.
pub mod Laws
mod Tests
use building_block_runner.Prelude.{
  ℕ, zero, suc, ◌+◌, ◌*◌, ◌%◌, ◌/◌, ◌^◌, String, Option, none, some, List, [], ◌∷◌, ◌++◌, ltb,
  length, if◌then◌else◌,
}

abbrev pub Bytes : Type 0
Bytes = List ℕ

-- What a call gives: a value, an error by its text, or a run-time panic.
pub data Decrypted (A : Type 0) : Type 0 where
  decrypted : A → Decrypted A
  not_decrypted : String → Decrypted A
  panicked : Decrypted A

abbrev pub iv_length : ℕ
iv_length = 12

-- AES-GCM, RSA-OAEP and base64. `accepts_key` is `none` where NewSymmetricCrypto succeeds, and else its error; `open`
-- panics on a nonce of the wrong length.
pub record Ciphers : Type 0 where
  pub accepts_key : Bytes → Option String
  pub seal : Bytes → Bytes → Bytes → Bytes
  pub open_sealed : Bytes → Bytes → Bytes → Decrypted Bytes
  pub encrypt_oaep : Bytes → Decrypted Bytes
  pub decrypt_oaep : Bytes → Decrypted Bytes
  pub encode : Bytes → String
  pub decode : String → Decrypted Bytes

unfoldable pub ◌then_with◌ : {A B : Type 0} → Decrypted A → (A → Decrypted B) → Decrypted B
decrypted a then_with f = f a
not_decrypted e then_with f = not_decrypted e
panicked then_with f = panicked

infixl 5 ◌then_with◌
-- binary.BigEndian.PutUint32 and Uint32
unfoldable pub put_uint32 : ℕ → Bytes → Bytes
put_uint32 n rest = n / 2 ^ 24 % 256 ∷ n / 2 ^ 16 % 256 ∷ n / 2 ^ 8 % 256 ∷ n % 256 ∷ rest

unfoldable pub uint32 : ℕ → ℕ → ℕ → ℕ → ℕ
uint32 a b c d = ((a * 256 + b) * 256 + c) * 256 + d

unfoldable pub first_bytes : ℕ → Bytes → Bytes
first_bytes zero xs = []
first_bytes (suc n) [] = []
first_bytes (suc n) (x ∷ xs) = x ∷ first_bytes n xs

unfoldable pub rest_bytes : ℕ → Bytes → Bytes
rest_bytes zero xs = xs
rest_bytes (suc n) [] = []
rest_bytes (suc n) (x ∷ xs) = rest_bytes n xs

-- EncryptSymmetric, with the nonce that is drawn.
unfoldable pub encrypt_symmetric : Ciphers → Bytes → Bytes → Bytes → Bytes
unfolding put_uint32
encrypt_symmetric c key iv plain = put_uint32 iv_length (iv ++ c.seal key iv plain)

-- The end of DecryptSymmetric: a nonce of length `n`, then what was sealed.
unfoldable pub open_after : Ciphers → Bytes → ℕ → Bytes → Decrypted Bytes
unfolding first_bytes rest_bytes
open_after c key n rest =
    if ltb (length rest) n
    then panicked
    else c.open_sealed key (first_bytes n rest) (rest_bytes n rest)

-- DecryptSymmetric. It slices without a check: a value that is shorter than it says panics.
unfoldable pub decrypt_symmetric : Ciphers → Bytes → Bytes → Decrypted Bytes
unfolding uint32 open_after
decrypt_symmetric c key (x ∷ y ∷ z ∷ w ∷ rest) = open_after c key (uint32 x y z w) rest
decrypt_symmetric c key [] = panicked
decrypt_symmetric c key (x ∷ []) = panicked
decrypt_symmetric c key (x ∷ y ∷ []) = panicked
decrypt_symmetric c key (x ∷ y ∷ z ∷ []) = panicked

unfoldable pub accepted_key : Option String → Decrypted (Unit {0})
accepted_key none = decrypted tt
accepted_key (some e) = not_decrypted e

-- EncryptMeshCertBased, with the random key and nonce that are drawn.
unfoldable pub encrypt_mesh_cert_based : Ciphers → Bytes → Bytes → Bytes → Decrypted String
unfolding encrypt_symmetric accepted_key ◌then_with◌
encrypt_mesh_cert_based c key iv plain = accepted_key (c.accepts_key key) then_with λ ok.
    c.encrypt_oaep key then_with λ wrapped_key.
    decrypted (c.encode (wrapped_key ++ encrypt_symmetric c key iv plain))

-- DecryptMeshCertBased, after the key's part was decrypted.
unfoldable pub decrypt_with_key : Ciphers → Bytes → Bytes → Decrypted Bytes
unfolding decrypt_symmetric accepted_key ◌then_with◌
decrypt_with_key c rest key =
    accepted_key (c.accepts_key key) then_with λ ok. decrypt_symmetric c key rest

-- DecryptMeshCertBased, after the base64.
unfoldable pub decrypt_cipher_bytes : Ciphers → ℕ → Bytes → Decrypted Bytes
unfolding decrypt_with_key ◌then_with◌ first_bytes rest_bytes
decrypt_cipher_bytes c size cipher_bytes =
    if ltb (length cipher_bytes) size
    then not_decrypted "encrypted value empty or too short"
    else (c.decrypt_oaep (first_bytes size cipher_bytes)
        then_with decrypt_with_key c (rest_bytes size cipher_bytes))

-- DecryptMeshCertBased; a private key is its size in bytes.
unfoldable pub decrypt_mesh_cert_based : Ciphers → Option ℕ → String → Decrypted Bytes
unfolding decrypt_cipher_bytes ◌then_with◌
decrypt_mesh_cert_based c none encrypted =
    not_decrypted "cannot decrypt sensitive input as private key is missing"
decrypt_mesh_cert_based c (some size) encrypted =
    c.decode encrypted then_with decrypt_cipher_bytes c size
