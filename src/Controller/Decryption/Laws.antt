-- ===== src/Controller/Decryption/Laws.antt =====
-- Decryption undoes the encryption of a run's sensitive inputs.
use building_block_runner.Prelude.{
  String, false, List, [], ◌∷◌, ◌≡◌, refl, sym, ap, map, is_empty, if◌then◌else◌, Bool-cases, inl,
  inr,
}
use building_block_runner.Controller.World.{Answer, answer}
use building_block_runner.Controller.RunDetails.{
  InputValue, text_value, nil_value, json_value, BuildingBlockInput,
}
use building_block_runner.Controller.Decryption.{
  Codec, ◌>>=◌, context, decrypt_secret, decrypt_value, decrypt_input, decrypt_inputs,
}

-- What meshStack does to a run before it hands it out, for a cipher `seal`: the non-empty texts of the
-- sensitive inputs are encrypted.
abbrev pub seal_value : (String → String) → InputValue → InputValue
seal_value seal (text_value text) = text_value (if is_empty text then text else seal text)
seal_value seal value = value

abbrev pub seal_input : (String → String) → BuildingBlockInput → BuildingBlockInput
seal_input seal input = record input {
  value = if input.is_sensitive then seal_value seal input.value else input.value;
}

-- The cipher: decryption undoes it, and it makes no text empty.
pub record IsCipher (seal : String → String) (decrypt : String → Answer String) : Type 0 where
  pub opens : (text : String) → decrypt (seal text) ≡ answer text
  pub visible : (text : String) → is_empty (seal text) ≡ false

module _ (codec : Codec) {seal : String → String} {decrypt : String → Answer String}
    (cipher : IsCipher seal decrypt) where
  decrypt_secret-seal :
      (label text : String)
      → decrypt_secret codec decrypt label (if is_empty text then text else seal text) ≡ answer text
  unfolding decrypt_secret context
  decrypt_secret-seal label text = elim (Bool-cases (is_empty text)) [
    | inl empty ↦ rw (empty, empty) refl
    | inr visible ↦ rw (visible, cipher.visible text, cipher.opens text) refl
  ]

  decrypt_value-seal_value :
      (key : String) (value : InputValue)
      → decrypt_value codec decrypt key (seal_value seal value) ≡ answer value
  unfolding decrypt_value ◌>>=◌
  decrypt_value-seal_value key (text_value text) = rw (decrypt_secret-seal _ text) refl
  decrypt_value-seal_value key nil_value = refl
  decrypt_value-seal_value key (json_value json) = refl

  decrypt_input-seal_input :
      (input : BuildingBlockInput)
      → decrypt_input codec decrypt (seal_input seal input) ≡ answer input
  unfolding decrypt_input ◌>>=◌
  decrypt_input-seal_input input = elim (Bool-cases input.is_sensitive) [
    | inl sensitive ↦
        simp (sensitive, decrypt_value-seal_value input.key input.value)
          (ap (λ b. answer record input { is_sensitive = b }) (sym sensitive))
    | inr plain ↦ simp plain (ap (λ b. answer record input { is_sensitive = b }) (sym plain))
  ]

  -- For a cipher that decryption undoes and that makes no text empty: decrypting the inputs of a run
  -- whose sensitive non-empty texts were encrypted gives the inputs back, the others untouched.
  pub decrypt_inputs-seal_input :
      (inputs : List BuildingBlockInput)
      → decrypt_inputs codec decrypt (map (seal_input seal) inputs) ≡ answer inputs
  unfolding decrypt_inputs ◌>>=◌
  decrypt_inputs-seal_input [] = refl
  decrypt_inputs-seal_input (input ∷ rest) =
      rw (decrypt_input-seal_input input, decrypt_inputs-seal_input rest) refl
