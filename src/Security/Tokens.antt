-- ===== src/Security/Tokens.antt =====
-- The claims of a token, and its creation and validation.
use enterprise_document_inte.Base.{
  ℕ, ◌+◌, ◌*◌, ◌≡◌, Bool, Option, none, some, Text, ◌==◌, ltb, if◌then◌else◌,
}
use enterprise_document_inte.Models.{User, UserRole}
use enterprise_document_inte.Session.{Exec, gets, pure, new_id, ◌>>=◌}

pub data TokenType : Type 0 where
  access refresh : TokenType

token_type_rank : TokenType → ℕ
token_type_rank TokenType.access = 0
token_type_rank TokenType.refresh = 1

unfoldable pub token_type_eq : TokenType → TokenType → Bool
unfolding token_type_rank
token_type_eq a b = token_type_rank a == token_type_rank b

-- `TokenPayload`
pub record TokenPayload : Type 0 where
  pub sub : ℕ
  pub tenant_id : ℕ
  pub role : UserRole
  pub type : TokenType
  pub jti : ℕ
  pub iat : ℕ
  pub exp : ℕ

-- A token that was signed with the server's key decodes to its claims until it has expired.
pub record Jwt : Type 0 where
  pub encode : TokenPayload → Text
  pub decode : ℕ → Text → Option TokenPayload
  pub decode-encode :
      (now : ℕ) (c : TokenPayload)
      → decode now (encode c) ≡ (if ltb c.exp now then none else some c)

pub record TokenPair : Type 0 where
  pub access_token : Text
  pub refresh_token : Text

module _ (jwt : Jwt) where
  unfoldable pub create_token : ℕ → ℕ → UserRole → TokenType → ℕ → Exec Text
  create_token user_id tenant_id role type expires_delta = do
    now ← gets (λ s. s.now)
    jti ← new_id
    pure (
        jwt.encode (record {
          sub = user_id;
          tenant_id = tenant_id;
          role = role;
          type = type;
          jti = jti;
          iat = now;
          exp = now + expires_delta;
        }))

  -- The lifetime of an access token is counted in minutes, that of a refresh token in days.
  unfoldable pub create_access_token : ℕ → ℕ → UserRole → Exec Text
  unfolding create_token
  create_access_token user_id tenant_id role = do
    minutes ← gets (λ s. s.settings.access_token_expire_minutes)
    create_token user_id tenant_id role TokenType.access (minutes * 60)

  unfoldable pub create_refresh_token : ℕ → ℕ → UserRole → Exec Text
  unfolding create_token
  create_refresh_token user_id tenant_id role = do
    days ← gets (λ s. s.settings.refresh_token_expire_days)
    create_token user_id tenant_id role TokenType.refresh (days * 86400)

  -- `_issue_tokens` of services/auth_service.py
  unfoldable pub issue_tokens : User → Exec TokenPair
  unfolding create_access_token create_refresh_token
  issue_tokens user = do
    access_token ← create_access_token user.id user.tenant_id user.role
    refresh_token ← create_refresh_token user.id user.tenant_id user.role
    pure (record { access_token = access_token; refresh_token = refresh_token })

  abbrev of_type : TokenType → Option TokenPayload → Option TokenPayload
  of_type expected none = none
  of_type expected (some c) = if token_type_eq c.type expected then some c else none

  -- `none` is `TokenError`.
  unfoldable pub decode_token : ℕ → Text → TokenType → Option TokenPayload
  decode_token now token expected_type = of_type expected_type (jwt.decode now token)
