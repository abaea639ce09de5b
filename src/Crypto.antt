-- ===== src/Crypto.antt =====
-- backend/app/core/crypto.py. AES-GCM and the two encodings of a token are parameters; the fresh key and
-- the nonces of an encryption are arguments.
pub mod Envelope
use enterprise_document_inte.Base.{
  ℕ, ◌≡◌, Bool, true, false, not, Option, none, some, Text, length, ◌==◌, if◌then◌else◌,
}

-- AES-GCM under a 32-byte key: what was encrypted is decrypted, and nothing else is (integrity).
pub record Aead : Type 0 where
  pub encrypt : Text → Text → Text → Text
  pub decrypt : Text → Text → Text → Option Text
  pub decrypt-encrypt :
      (key nonce plain : Text) → decrypt key nonce (encrypt key nonce plain) ≡ some plain
  pub eq_of_decrypt :
      (key nonce cipher plain : Text)
      → decrypt key nonce cipher ≡ some plain
      → cipher ≡ encrypt key nonce plain

pub record EncryptedBlob : Type 0 where
  pub ciphertext : Text
  pub nonce : Text
  pub wrapped_dek : Text
  pub dek_nonce : Text
  pub key_version : ℕ

-- `to_token` and `from_token`: JSON in base64. `none` is a malformed token.
pub record Encoding : Type 0 where
  pub to_token : EncryptedBlob → Text
  pub from_token : Text → Option EncryptedBlob
  pub from_token-to_token : (b : EncryptedBlob) → from_token (to_token b) ≡ some b

-- The configuration: the active version and the master key.
pub record KeyRing : Type 0 where
  pub encryption_key_version : ℕ
  pub master_kek_bytes : Text

-- What is drawn for one encryption.
pub record Fresh : Type 0 where
  pub dek : Text
  pub data_nonce : Text
  pub dek_nonce : Text

unfoldable pub kek_for_version : KeyRing → ℕ → Option Text
kek_for_version ring key_version =
    if key_version == ring.encryption_key_version then some ring.master_kek_bytes else none

abbrev version_or : KeyRing → Option ℕ → ℕ
version_or ring none = ring.encryption_key_version
version_or ring (some v) = v

module _ (aead : Aead) (ring : KeyRing) where
  abbrev seal : Fresh → Text → ℕ → Option Text → Option EncryptedBlob
  seal fresh plain version none = none
  seal fresh plain version (some kek) = some (record {
    ciphertext = aead.encrypt fresh.dek fresh.data_nonce plain;
    nonce = fresh.data_nonce;
    wrapped_dek = aead.encrypt kek fresh.dek_nonce fresh.dek;
    dek_nonce = fresh.dek_nonce;
    key_version = version;
  })

  -- `none` is `EncryptionError`.
  unfoldable pub encrypt : Fresh → Text → Option ℕ → Option EncryptedBlob
  encrypt fresh plain key_version =
      let version = version_or ring key_version in
      seal fresh plain version (kek_for_version ring version)

  abbrev open_with : EncryptedBlob → Option Text → Option Text
  open_with blob none = none
  open_with blob (some dek) =
      if length dek == 32 then aead.decrypt dek blob.nonce blob.ciphertext else none

  abbrev unwrap : EncryptedBlob → Option Text → Option Text
  unwrap blob none = none
  unwrap blob (some kek) = open_with blob (aead.decrypt kek blob.dek_nonce blob.wrapped_dek)

  unfoldable pub decrypt : EncryptedBlob → Option Text
  decrypt blob = unwrap blob (kek_for_version ring blob.key_version)

module _ (aead : Aead) (encoding : Encoding) (ring : KeyRing) where
  abbrev token_of : Option EncryptedBlob → Option Text
  token_of none = none
  token_of (some blob) = some (encoding.to_token blob)

  unfoldable pub encrypt_str : Fresh → Text → Option ℕ → Option Text
  encrypt_str fresh plain key_version = token_of (encrypt aead ring fresh plain key_version)

  abbrev decrypted : Option EncryptedBlob → Option Text
  decrypted none = none
  decrypted (some blob) = decrypt aead ring blob

  unfoldable pub decrypt_str : Text → Option Text
  decrypt_str token = decrypted (encoding.from_token token)
