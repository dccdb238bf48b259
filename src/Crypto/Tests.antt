-- ===== src/Crypto/Tests.antt =====
-- Values that are encrypted and decrypted.
use building_block_runner.Prelude.{none, some, [], ◌∷◌, ◌++◌, ◌≡◌, refl}
use building_block_runner.Crypto.{
  Bytes, Decrypted, decrypted, not_decrypted, panicked, Ciphers, ◌then_with◌, encrypt_symmetric,
  decrypt_symmetric, encrypt_mesh_cert_based, decrypt_mesh_cert_based,
}
use building_block_runner.Crypto.Laws.{decrypt_mesh_cert_based-encrypt_mesh_cert_based}

abbrev iv : Bytes
iv = 1 ∷ 2 ∷ 3 ∷ 4 ∷ 5 ∷ 6 ∷ 7 ∷ 8 ∷ 9 ∷ 10 ∷ 11 ∷ 12 ∷ []

-- Sealing adds a tag, and an encrypted key is the key with two bytes around it.
abbrev tag : Bytes → Bytes
tag plain = 99 ∷ plain

abbrev untag : Bytes → Decrypted Bytes
untag [] = not_decrypted "no tag"
untag (x ∷ plain) = decrypted plain

abbrev unwrap : Bytes → Decrypted Bytes
unwrap (x ∷ k ∷ y ∷ []) = decrypted (k ∷ [])
unwrap bytes = not_decrypted "decryption error"

abbrev encoded : Bytes
encoded =
    200 ∷ 7 ∷ 201 ∷ 0 ∷ 0 ∷ 0 ∷ 12 ∷ 1 ∷ 2 ∷ 3 ∷ 4 ∷ 5 ∷ 6 ∷ 7 ∷ 8 ∷ 9 ∷ 10 ∷ 11 ∷ 12 ∷ 99 ∷ 42 ∷ []

abbrev ciphers : Ciphers
ciphers = record {
  accepts_key = λ key. none;
  seal = λ key nonce plain. tag plain;
  open_sealed = λ key nonce sealed. untag sealed;
  encrypt_oaep = λ key. decrypted (200 ∷ (key ++ 201 ∷ []));
  decrypt_oaep = unwrap;
  encode = λ bytes. "yAfJ";
  decode = λ text. decrypted encoded;
}

decrypt_mesh_cert_based-encrypt_mesh_cert_based_example :
    (encrypt_mesh_cert_based ciphers (7 ∷ []) iv (42 ∷ [])
      then_with decrypt_mesh_cert_based ciphers (some 3))
    ≡ decrypted (42 ∷ [])
unfolding encrypt_symmetric
decrypt_mesh_cert_based-encrypt_mesh_cert_based_example =
    decrypt_mesh_cert_based-encrypt_mesh_cert_based ciphers 3 (7 ∷ []) iv (42 ∷ [])
      (200 ∷ 7 ∷ 201 ∷ []) refl refl refl refl refl refl refl

-- A value that holds no more than the key's part, and one whose nonce is cut off.
decrypt_symmetric_nothing : decrypt_symmetric ciphers (7 ∷ []) [] ≡ panicked
unfolding decrypt_symmetric
decrypt_symmetric_nothing = refl

decrypt_symmetric_cut : decrypt_symmetric ciphers (7 ∷ []) (0 ∷ 0 ∷ 0 ∷ 12 ∷ 1 ∷ []) ≡ panicked
unfolding decrypt_symmetric
decrypt_symmetric_cut = refl
