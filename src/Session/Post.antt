-- ===== src/Session/Post.antt =====
-- What holds of the value that a coroutine returns and of the session it leaves, if it does not raise.
use enterprise_document_inte.Session.{Exec, Session, Result, ok, err, catch, ◌>>=◌}
use enterprise_document_inte.Errors.{Error}
use enterprise_document_inte.Base.{◌≡◌, refl, ap, sym}
use mathlib.Core.Path.{subst}

abbrev pub Post : {A : Type 0} → (Result A × Session) → (A → Session → Type 0) → Type 0
Post (ok a, s) Q = Q a s
Post (err e, s) Q = Unit

pub Post-bind :
    {A B : Type 0} {P : A → Session → Type 0} (Q : B → Session → Type 0) (m : Exec A)
    (f : A → Exec B) (s : Session)
    → Post (m s) P
    → ((a : A) (s' : Session) → P a s' → Post (f a s') Q)
    → Post ((m >>= f) s) Q
Post-bind {A} {B} {P} Q m f s h k = at_pair (m s) h
  where
    at_pair : (x : Result A × Session) → Post x P → Post (((λ (s' : Session). x) >>= f) s) Q
    at_pair (ok a, s') h = k a s' h
    at_pair (err e, s') h = tt

-- What is known of the value and of the session one by one.
pub Post_both :
    {A : Type 0} (Q : Session → Type 0) (x : Result A × Session)
    → Q x.1
    → Post x (λ a s'. (x.0 ≡ ok a) × Q s')
Post_both Q (ok a, s') q = (refl, q)
Post_both Q (err e, s') q = tt

pub Post_mono :
    {A : Type 0} (P Q : A → Session → Type 0) (x : Result A × Session)
    → ((a : A) (s : Session) → P a s → Q a s)
    → Post x P
    → Post x Q
Post_mono P Q (ok a, s) f h = f a s h
Post_mono P Q (err e, s) f h = tt

abbrev value_or : {A : Type 0} → A → Result A → A
value_or b (ok a) = a
value_or b (err e) = b

pub Post_of_ok :
    {A : Type 0} (Q : A → Session → Type 0) (x : Result A × Session) (a : A)
    → x.0 ≡ ok a
    → Q a x.1
    → Post x Q
Post_of_ok Q (ok b, s) a h q = subst (λ c. Q c s) (ap (value_or a) (sym h)) q
Post_of_ok Q (err e, s) a h q = tt

pub Post_session :
    {A : Type 0} (Q : Session → Type 0) (x : Result A × Session) → Q x.1 → Post x (λ a s'. Q s')
Post_session Q (ok a, s) q = q
Post_session Q (err e, s) q = tt

-- A run that is known.
pub Post_at :
    {A : Type 0} (Q : A → Session → Type 0) (x y : Result A × Session) → x ≡ y → Post y Q → Post x Q
Post_at Q x y e h = subst (λ z. Post z Q) (sym e) h

pub Post_none :
    {A : Type 0} (Q : A → Session → Type 0) (x : Result A × Session)
    → ((a : A) → ¬ (x.0 ≡ ok a))
    → Post x Q
Post_none Q (ok a, s) h = absurd (h a refl)
Post_none Q (err e, s) h = tt

pub Post-catch :
    {A : Type 0} (Q : A → Session → Type 0) (m : Exec A) (handler : Error → Exec A) (s : Session)
    → Post (m s) Q
    → ((e : Error) (s' : Session) → m s ≡ (err e, s') → Post (handler e s') Q)
    → Post (catch m handler s) Q
Post-catch {A} Q m handler s h k = at_pair (m s) h k
  where
    at_pair :
        (x : Result A × Session)
        → Post x Q
        → ((e : Error) (s' : Session) → x ≡ (err e, s') → Post (handler e s') Q)
        → Post (catch (λ (s' : Session). x) handler s) Q
    at_pair (ok a, s') h k = h
    at_pair (err e, s') h k = k e s' refl
