-- ===== src/Crypto/Envelope.antt =====
-- What an encryption under the active key gives back, and what is refused.
use enterprise_document_inte.Base.{
  ◌≡◌, ap, ◌∙◌, inl, inr, true, false, Option, none, some, [], Text, arith, length, ◌==◌,
  Option-cases,
}
use enterprise_document_inte.Crypto.{
  Aead, EncryptedBlob, Encoding, KeyRing, Fresh, kek_for_version, encrypt, decrypt, encrypt_str,
  decrypt_str,
}

-- What the clients of encryption rely on: a text that is encrypted is read back. The fresh key and
-- nonces of each encryption are left out, since no client sees them.
pub record Cipher : Type 0 where
  pub encrypt_str : Text → Text
  pub decrypt_str : Text → Option Text
  pub decrypt-encrypt : (t : Text) → decrypt_str (encrypt_str t) ≡ some t

module _ (aead : Aead) (encoding : Encoding) (ring : KeyRing) where
  -- With a fresh key of 32 bytes, a text that was encrypted under the active version is read back.
  pub decrypt_str-encrypt_str :
      (fresh : Fresh) (plain : Text)
      → (length fresh.dek == 32) ≡ true
      → (token : Text) × (encrypt_str aead encoding ring fresh plain none ≡ some token)
        × (decrypt_str aead encoding ring token ≡ some plain)
  unfolding encrypt_str decrypt_str encrypt decrypt kek_for_version
  decrypt_str-encrypt_str fresh plain size =
      let blob : EncryptedBlob = record {
        ciphertext = aead.encrypt fresh.dek fresh.data_nonce plain;
        nonce = fresh.data_nonce;
        wrapped_dek = aead.encrypt ring.master_kek_bytes fresh.dek_nonce fresh.dek;
        dek_nonce = fresh.dek_nonce;
        key_version = ring.encryption_key_version;
      } in
      (
        encoding.to_token blob,
        ground arith,
        ground (
          arith,
          encoding.from_token-to_token blob,
          aead.decrypt-encrypt ring.master_kek_bytes fresh.dek_nonce fresh.dek,
          aead.decrypt-encrypt fresh.dek fresh.data_nonce plain,
        ),
      )

  -- A token that decrypts is one of the active version, and is what an encryption of the result makes:
  -- with a changed ciphertext, wrapped key or version it is refused.
  pub decrypt-authentic :
      (blob : EncryptedBlob) (plain : Text)
      → decrypt aead ring blob ≡ some plain
      → (dek : Text) × (encrypt aead ring
            (record { dek = dek; data_nonce = blob.nonce; dek_nonce = blob.dek_nonce })
            plain
            none
          ≡ some blob)
  unfolding encrypt decrypt kek_for_version
  decrypt-authentic blob plain h =
      elim (Option-cases (aead.decrypt ring.master_kek_bytes blob.dek_nonce blob.wrapped_dek)) [
        | inl refused ↦ absurd (ground arith)
        | inr (dek, unwrapped) ↦ (
          dek,
          ground (
            arith,
            aead.eq_of_decrypt ring.master_kek_bytes blob.dek_nonce blob.wrapped_dek dek,
            aead.eq_of_decrypt dek blob.nonce blob.ciphertext plain,
          ),
        )
      ]

  -- Once another version is active, nothing that was encrypted under an earlier one can be read.
  pub decrypt_after_rotation :
      (ring' : KeyRing) (fresh : Fresh) (plain : Text) (blob : EncryptedBlob)
      → encrypt aead ring fresh plain none ≡ some blob
      → (ring.encryption_key_version == ring'.encryption_key_version) ≡ false
      → decrypt aead ring' blob ≡ none
  unfolding encrypt decrypt kek_for_version
  decrypt_after_rotation ring' fresh plain blob h other = ground arith

abbrev pub token_or : Option Text → Text
token_or none = []
token_or (some t) = t

-- The interface, implemented with one fresh key.
module _ (aead : Aead) (encoding : Encoding) (ring : KeyRing) (fresh : Fresh)
    (size : (length fresh.dek == 32) ≡ true) where
  pub decrypt-token_or :
      (t : Text)
      → decrypt_str aead encoding ring (token_or (encrypt_str aead encoding ring fresh t none))
        ≡ some t
  decrypt-token_or t =
      let (token, made, read) = decrypt_str-encrypt_str aead encoding ring fresh t size in
      ap (λ o. decrypt_str aead encoding ring (token_or o)) made ∙ read

  abbrev pub envelope_cipher : Cipher
  envelope_cipher = record {
    encrypt_str = λ t. token_or (encrypt_str aead encoding ring fresh t none);
    decrypt_str = decrypt_str aead encoding ring;
    decrypt-encrypt = decrypt-token_or;
  }
