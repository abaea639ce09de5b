-- ===== src/Security.antt =====
-- backend/app/core/security.py. Password hashing (passlib) and the signing of tokens (python-jose)
-- are third-party code: they are the records `PasswordContext` and `Jwt`, with the behaviour that the
-- program relies on as laws.
mod Tokens
unfoldable pub use Tokens.*
use enterprise_document_inte.Base.{ℕ, ◌≡◌, Bool, true, Option, Text}

-- `hash salt p` is the hash of `p` under a salt that the library draws.
pub record PasswordContext : Type 0 where
  pub hash : ℕ → Text → Text
  pub verify : Text → Text → Bool
  pub verify-hash : (salt : ℕ) (p : Text) → verify p (hash salt p) ≡ true
  pub eq_of_verify : (salt : ℕ) (p q : Text) → verify p (hash salt q) ≡ true → p ≡ q
