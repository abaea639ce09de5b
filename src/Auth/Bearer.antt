-- ===== src/Auth/Bearer.antt =====
-- What the two kinds of token are good for, and for how long.
use mathlib.Core.Bool.{false≢true}
use enterprise_document_inte.Base.{
  find?-holds, ℕ, ◌+◌, ◌*◌, ◌≡◌, refl, ap, sym, ◌∙◌, inl, inr, true, false, Option, none, some,
  List, [], ◌∷◌, Text, arith, find?, update, ltb, ◌==◌, if◌then◌else◌, Bool-cases, Option-cases,
}
use enterprise_document_inte.Errors.{Error}
use enterprise_document_inte.Models.{User}
use enterprise_document_inte.Session.{Session, ok, err, is_ok}
use enterprise_document_inte.Audit.{write_event}
use enterprise_document_inte.Security.{
  PasswordContext, Jwt, TokenPair, TokenPayload, TokenType, token_type_eq, issue_tokens,
  create_token, create_access_token, create_refresh_token, decode_token,
}
use enterprise_document_inte.Documents.{CurrentUser}
use enterprise_document_inte.Members.{deactivate_user, deactivated}
use enterprise_document_inte.Auth.{get_current_user, refresh_tokens, is_subject, if_active}

module _ (jwt : Jwt) (u : User) (s : Session) where
  abbrev pub claims_of : TokenType → ℕ → ℕ → TokenPayload
  claims_of type jti lifetime = record {
    sub = u.id;
    tenant_id = u.tenant_id;
    role = u.role;
    type = type;
    jti = jti;
    iat = s.now;
    exp = s.now + lifetime;
  }

  -- Both tokens of a pair name the user, have ids of their own, and are read back until they expire,
  -- each as its own kind: neither is ever taken for the other.
  pub decode_token-issue_tokens :
      (now : ℕ)
      → (pair : TokenPair) × ((issue_tokens jwt u s).0 ≡ ok pair)
        × (decode_token jwt now pair.access_token TokenType.access ≡ (
            if ltb (s.now + s.settings.access_token_expire_minutes * 60) now
            then none
            else some (
                claims_of TokenType.access s.next_id
                  (s.settings.access_token_expire_minutes * 60))))
        × (decode_token jwt now pair.refresh_token TokenType.refresh ≡ (
            if ltb (s.now + s.settings.refresh_token_expire_days * 86400) now
            then none
            else some (
                claims_of TokenType.refresh
                  (s.next_id + 1)
                  (s.settings.refresh_token_expire_days * 86400))))
        × (decode_token jwt now pair.access_token TokenType.refresh ≡ none)
        × (decode_token jwt now pair.refresh_token TokenType.access ≡ none)
  unfolding issue_tokens create_token create_access_token create_refresh_token decode_token
      token_type_eq
  decode_token-issue_tokens now =
      let access =
        claims_of TokenType.access s.next_id (s.settings.access_token_expire_minutes * 60) in
      let refresh =
        claims_of TokenType.refresh (s.next_id + 1)
          (s.settings.refresh_token_expire_days * 86400) in
      (
        record { access_token = jwt.encode access; refresh_token = jwt.encode refresh },
        refl,
        ground (arith, jwt.decode-encode now access),
        ground (arith, jwt.decode-encode now refresh),
        ground (arith, jwt.decode-encode now access),
        ground (arith, jwt.decode-encode now refresh),
      )

-- Every row of a deactivated id is inactive.
inactive_after :
    (n id now : ℕ) (us : List User) (u : User)
    → find? (λ (x : User). x.id == n) (update (λ (x : User). x.id == id) (deactivated now) us)
      ≡ some u
    → (u.id == id) ≡ true
    → u.is_active ≡ false
inactive_after n id now [] u h k = ground arith
inactive_after n id now (x ∷ us) u h k = ground (arith, inactive_after n id now us u)

deactivated_rows :
    (current : CurrentUser) (k : ℕ) (s : Session)
    → is_ok (deactivate_user current k s).0 ≡ true
    → (deactivate_user current k s).1.users
      ≡ update (λ (x : User). x.id == k) (deactivated s.now) s.users
unfolding deactivate_user write_event
deactivated_rows current k s h = elim (Option-cases (find? (λ (x : User). x.id == k) s.users)) [
  | inl missing ↦ absurd (ground arith)
  | inr (u, found) ↦
      let same : u.id ≡ k = ground (arith, find?-holds (λ (x : User). x.id == k) s.users u found) in
      let rows : (deactivate_user current k s).1.users
          ≡ update (λ (x : User). x.id == u.id) (deactivated s.now) s.users =
        ground arith in
      rows ∙ ap (λ n. update (λ (x : User). x.id == n) (deactivated s.now) s.users) same
]

-- The user that a bearer token is good for.
bearer_row :
    (pw : PasswordContext) (jwt : Jwt) (credentials ip : Option Text) (s : Session)
    (me : CurrentUser)
    → (get_current_user pw jwt credentials ip s).0 ≡ ok me
    → (n : ℕ) × (u : User) × (find? (λ (x : User). x.id == n) s.users ≡ some u)
      × (u.is_active ≡ true)
      × (me.id ≡ u.id)
unfolding get_current_user
bearer_row pw jwt none ip s me h = absurd (ground arith)
bearer_row pw jwt (some token) ip s me h =
    elim (Option-cases (decode_token jwt s.now token TokenType.access)) [
      | inl invalid ↦ absurd (ground arith)
      | inr (payload, decoded) ↦
          elim (Option-cases (find? (λ (x : User). x.id == payload.sub) s.users)) [
            | inl missing ↦ absurd (ground arith)
            | inr (u, found) ↦ (payload.sub, u, found, ground arith, ground arith)
          ]
    ]

module _ (pw : PasswordContext) (jwt : Jwt) (current : CurrentUser) (k : ℕ) (s : Session) where
  -- A user who has been deactivated is not let in again by any token, whatever it says and however
  -- long it is still valid.
  pub get_current_user_after_deactivate :
      (credentials ip : Option Text) (now : ℕ) (me : CurrentUser)
      → is_ok (deactivate_user current k s).0 ≡ true
      → (get_current_user pw jwt credentials ip
          (record (deactivate_user current k s).1 { now = now })).0
        ≡ ok me
      → (me.id == k) ≡ false
  get_current_user_after_deactivate credentials ip now me done h =
      let (n, u, found, is_active, same) =
        bearer_row pw jwt credentials ip (record (deactivate_user current k s).1 { now = now }) me
          h in
      let rows = ap (find? (λ (x : User). x.id == n)) (deactivated_rows current k s done) in
      elim (Bool-cases (me.id == k)) [
        | inr other ↦ other
        | inl own ↦ absurd (
            false≢true (
              sym (
                inactive_after n k s.now s.users u (sym rows ∙ found)
                  (ap (λ m. m == k) (sym same) ∙ own))
              ∙ is_active))
      ]

find_subject-inactive :
    (payload : TokenPayload) (k now : ℕ) (us : List User)
    → (payload.sub == k) ≡ true
    → if_active (find? (is_subject payload) (update (λ (x : User). x.id == k) (deactivated now) us))
      ≡ none
find_subject-inactive payload k now [] h = refl
find_subject-inactive payload k now (x ∷ us) h =
    ground (arith, find_subject-inactive payload k now us h)

module _ (pw : PasswordContext) (jwt : Jwt) (current : CurrentUser) (k : ℕ) (s : Session) where
  -- A refresh token of a user who has been deactivated is worth nothing: the refresh is refused, and
  -- the session stays as it is.
  pub refresh_tokens_after_deactivate :
      (token : Text) (ip : Option Text) (now : ℕ) (payload : TokenPayload)
      → is_ok (deactivate_user current k s).0 ≡ true
      → decode_token jwt now token TokenType.refresh ≡ some payload
      → (payload.sub == k) ≡ true
      → let s' = record (deactivate_user current k s).1 { now = now } in
        refresh_tokens pw jwt token ip s' ≡ (err Error.credentials, s')
  unfolding refresh_tokens
  refresh_tokens_after_deactivate token ip now payload done decoded own =
      let rows =
        ap (λ us. if_active (find? (is_subject payload) us)) (deactivated_rows current k s done) in
      ground (arith, decoded, rows, find_subject-inactive payload k s.now s.users own)
