-- ===== src/Session.antt =====
-- backend/app/db/session.py. A request works on a database session: it reads the settings, the
-- clock and the trace id, and it sees its own writes (`db`). `committed` holds the audit rows that
-- were written in a transaction of their own; `transaction` is the dependency `get_session`, which
-- commits when the handler returns and rolls back when it raises. `next_id` stands for `uuid4`: it
-- is a supply of ids that have not been used. The clock stands still within a request.
use enterprise_document_inte.Base.{
  ℕ, ◌+◌, Bool, true, false, Option, none, some, List, [], ◌∷◌, ◌++◌, Text, if◌then◌else◌,
}
use enterprise_document_inte.Errors.{Error}
use enterprise_document_inte.Models.{Db, AuditLog}
mod Config
pub mod Post
pub use Config.{Settings}

pub record Session : Type 0 where
  pub settings : Settings
  pub now : ℕ
  pub trace_id : Option Text
  pub next_id : ℕ
  pub db : Db
  pub open db use *
  pub committed : List AuditLog
  pub tasks : List ℕ

pub data Result {ℓ} (A : Type ℓ) : Type ℓ where
  ok : A → Result A
  err : Error → Result A

abbrev pub is_ok {ℓ} : {A : Type ℓ} → Result A → Bool
is_ok (ok a) = true
is_ok (err e) = false

-- A coroutine that may raise. What was written before a raise is still in the session beside it.
abbrev pub Exec : Type 0 → Type 0
Exec A = Session → Result A × Session

module _ {A : Type 0} where
  abbrev pub pure : A → Exec A
  pure a s = (ok a, s)

  abbrev pub raise : Error → Exec A
  raise e s = (err e, s)

  abbrev pub gets : (Session → A) → Exec A
  gets f s = (ok (f s), s)

infixl 5 ◌>>=◌ ◌>>◌
abbrev pub ◌>>=◌ : {A B : Type 0} → Exec A → (A → Exec B) → Exec B
◌>>=◌ m f s = let (r, s') = m s in elim r [ ok a ↦ f a s' | err e ↦ raise e s' ]

abbrev pub ◌>>◌ : {B : Type 0} → Exec (Unit {0}) → Exec B → Exec B
m >> k = m >>= λ _. k

-- `if c: raise e`
abbrev pub raise_if : Bool → Error → Exec (Unit {0})
raise_if c e s = (if c then err e else ok tt, s)

-- `x = ...; if x is None: raise e`
abbrev pub or_raise : {A : Type 0} → Option A → Error → Exec A
or_raise none e s = (err e, s)
or_raise (some a) e s = (ok a, s)

abbrev pub modify : (Db → Db) → Exec (Unit {0})
modify f s = (ok tt, record s { db = f s.db })

-- `try: m` with an `except` that sees every error. What `m` wrote is still in the session.
abbrev pub catch : {A : Type 0} → Exec A → (Error → Exec A) → Exec A
catch m handler s = let (r, s') = m s in elim r [ ok a ↦ (ok a, s') | err e ↦ handler e s' ]

-- `BackgroundTasks.add_task`: what is queued runs after the response.
abbrev pub add_task : ℕ → Exec (Unit {0})
add_task id s = (ok tt, record s { tasks = s.tasks ++ id ∷ [] })

-- `uuid.uuid4()`
abbrev pub new_id : Exec ℕ
new_id s = (ok s.next_id, record s { next_id = s.next_id + 1 })

-- The rows that a new session of the database would read: `db` if the handler returned, and what
-- was there before if it raised, with the audit rows that were committed apart in either case.
unfoldable pub transaction : {A : Type 0} → Exec A → Session → Result A × Db
transaction m s =
    let (r, s') = m s in
    elim r [
      | ok a ↦ (ok a, record s'.db { audit_logs = s'.db.audit_logs ++ s'.committed })
      | err e ↦ (err e, record s.db { audit_logs = s.db.audit_logs ++ s'.committed })
    ]
