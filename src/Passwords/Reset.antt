-- ===== src/Passwords/Reset.antt =====
-- A password reset from the request to the new password, and what a token can be used for.
use mathlib.Core.Option.{some-injective, some-ne-none}
use enterprise_document_inte.Base.{
  ℕ, ◌+◌, ◌*◌, ◌≡◌, refl, ap, sym, ◌∙◌, inl, inr, true, false, Option, none, some, [], ◌∷◌, ◌++◌,
  Text, arith, contains, find?, find?-update, update, ◌==◌, ltb, Bool-cases, Option-cases,
}
use enterprise_document_inte.Models.{User, PasswordResetToken}
use enterprise_document_inte.Session.{Session, is_ok}
use enterprise_document_inte.Audit.{write_event}
use enterprise_document_inte.Security.{PasswordContext}
use enterprise_document_inte.Passwords.{
  Uuid, before_dot, after_dot, with_password, used, request_reset, complete_reset,
}

pub before_dot-append :
    (id secret : Text) → contains b'.' id ≡ false → before_dot (id ++ (b'.' ∷ secret)) ≡ id
unfolding before_dot
before_dot-append [] secret h = refl
before_dot-append (c ∷ id) secret h = ground (arith, before_dot-append id secret)

pub after_dot-append :
    (id secret : Text) → contains b'.' id ≡ false → after_dot (id ++ (b'.' ∷ secret)) ≡ secret
unfolding after_dot
after_dot-append [] secret h = refl
after_dot-append (c ∷ id) secret h = ground (arith, after_dot-append id secret)

module _ (uuid : Uuid) (pw : PasswordContext) (raw_token password : Text) (salt : ℕ)
    (ip : Option Text) (s : Session) where
  -- A reset that succeeds has a token that was issued, was not used and has not expired, whose hash is
  -- that of the secret, and whose user has not been deleted; it marks the token and writes the hash of
  -- the new password, and changes no other row of the two tables.
  pub complete_reset_lem :
      is_ok (complete_reset uuid pw raw_token password salt ip s).0 ≡ true
      → let s' = (complete_reset uuid pw raw_token password salt ip s).1 in
        (token_id : ℕ) × (row : PasswordResetToken) × (user : User) × (uuid.of_hex
            (before_dot raw_token)
          ≡ some token_id)
        × (find? (λ (r : PasswordResetToken). r.id == token_id) s.reset_tokens ≡ some row)
        × (row.used_at ≡ none)
        × (ltb row.expires_at s.now ≡ false)
        × (pw.verify (after_dot raw_token) row.token_hash ≡ true)
        × (find? (λ (u : User). u.id == row.user_id) s.users ≡ some user)
        × (user.deleted_at ≡ none)
        × (s'.users
            ≡ update
                (λ (u : User). u.id == user.id)
                (with_password (pw.hash salt password))
                s.users)
        × (s'.reset_tokens
            ≡ update (λ (r : PasswordResetToken). r.id == row.id) (used s.now) s.reset_tokens)
  unfolding complete_reset write_event
  complete_reset_lem h = elim (Option-cases (uuid.of_hex (before_dot raw_token))) [
    | inl missing ↦ absurd (ground arith)
    | inr (token_id, read) ↦
        elim (Option-cases (find? (λ (r : PasswordResetToken). r.id == token_id) s.reset_tokens)) [
          | inl missing ↦ absurd (ground arith)
          | inr (row, found) ↦
              elim (Option-cases (find? (λ (u : User). u.id == row.user_id) s.users)) [
                | inl missing ↦ absurd (ground arith)
                | inr (user, known) ↦ (
                  token_id,
                  row,
                  user,
                  read,
                  found,
                  ground arith,
                  ground arith,
                  ground arith,
                  known,
                  ground arith,
                  ground arith,
                  ground arith,
                )
              ]
        ]
  ]

module _ (uuid : Uuid) (pw : PasswordContext) (raw_token password : Text) (salt : ℕ)
    (ip : Option Text) (s : Session) where
  -- A token is good for one reset: once it has been used, nothing that begins with its id resets a
  -- password, at any time.
  pub complete_reset_once :
      (raw_token' password' : Text) (salt' : ℕ) (ip' : Option Text) (now' : ℕ)
      → is_ok (complete_reset uuid pw raw_token password salt ip s).0 ≡ true
      → before_dot raw_token' ≡ before_dot raw_token
      → let s' = (complete_reset uuid pw raw_token password salt ip s).1 in
        is_ok (complete_reset uuid pw raw_token' password' salt' ip' (record s' { now = now' })).0
        ≡ false
  complete_reset_once raw_token' password' salt' ip' now' done same =
      let s' = record (complete_reset uuid pw raw_token password salt ip s).1 { now = now' } in
      let (token_id, row, user, read, found, fresh, early, verified, known, live, users, tokens) =
        complete_reset_lem uuid pw raw_token password salt ip s done in
      elim (Bool-cases (is_ok (complete_reset uuid pw raw_token' password' salt' ip' s').0)) [
        | inr refused ↦ refused
        | inl again ↦
            let (
              token_id', row', user', read', found', fresh', early', verified', known', live',
              users', tokens',
            ) =
              complete_reset_lem uuid pw raw_token' password' salt' ip' s' again in
            let one_id : token_id' ≡ token_id =
              some-injective token_id' token_id (sym read' ∙ ap uuid.of_hex same ∙ read) in
            let marked : find? (λ (r : PasswordResetToken). r.id == token_id) s'.reset_tokens
                ≡ some (used s.now row) =
              ap (find? (λ (r : PasswordResetToken). r.id == token_id)) tokens
              ∙ find?-update (λ (r : PasswordResetToken). r.id == token_id)
                  (λ (r : PasswordResetToken). r.id == row.id) (used s.now) s.reset_tokens
                  (λ r. refl) row found (ground arith) in
            let one_row : row' ≡ used s.now row = some-injective row' (used s.now row) (
              sym found'
              ∙ ap (λ n. find? (λ (r : PasswordResetToken). r.id == n) s'.reset_tokens) one_id
              ∙ marked) in
            absurd (
              some-ne-none s.now
                (sym (ap (λ (r : PasswordResetToken). r.used_at) one_row) ∙ fresh'))
      ]

module _ (uuid : Uuid) (pw : PasswordContext) (slug email secret password : Text) (salt salt' : ℕ)
    (ip : Option Text) (s : Session) where
  abbrev sent : Text
  sent = uuid.hex s.next_id ++ (b'.' ∷ secret)

  abbrev requested : Session
  requested = (request_reset uuid pw slug email secret salt ip s).1

  abbrev token_row : User → PasswordResetToken
  token_row u = record {
    id = s.next_id;
    tenant_id = u.tenant_id;
    user_id = u.id;
    token_hash = pw.hash salt secret;
    expires_at = s.now + s.settings.reset_token_ttl_hours * 3600;
    used_at = none;
  }
