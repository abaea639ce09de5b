-- ===== src/Queries/History.antt =====
-- Who is shown what: the threads and lists that a caller reads, and the record that requests leave.
use mathlib.Core.List.{reverse, reverse-cons}
use mathlib.Core.Path.{subst}
use enterprise_document_inte.Base.{
  ℕ, ◌≡◌, refl, sym, inl, inr, Bool, true, Option, none, some, List, [], ◌∷◌, Text, arith, filter,
  take, traverse, All, Mem, Selected, filter-Selected, All-take, All-append, Option-cases,
}
use enterprise_document_inte.Models.{Query}
use enterprise_document_inte.Session.{Session, ok}
use enterprise_document_inte.Documents.{CurrentUser}
use enterprise_document_inte.Crypto.Envelope.{Cipher}
use enterprise_document_inte.Retrieval.Scoped.{All-sort_by}
use enterprise_document_inte.Queries.{
  newest_first, is_turn, turn, load_history, QueryRead, to_query_read, saved_if,
}

-- What holds of the rows holds, in its way, of what is read from them.
All-traverse :
    {A B : Type 0} (P : A → Type 0) (Q : B → Type 0) (f : A → Option B)
    → ((x : A) (y : B) → P x → f x ≡ some y → Q y)
    → (xs : List A) (ys : List B) → traverse f xs ≡ some ys
    → All P xs
    → All Q ys
All-traverse P Q f keep [] ys h k = ground arith
All-traverse {A} {B} P Q f keep (x ∷ xs) ys h k =
    at_head (f x) refl (traverse f xs) refl (λ ys' er. All-traverse P Q f keep xs ys' er k.1)
  where
    at_head :
        (o : Option B)
        → f x ≡ o
        → (r : Option (List B)) → traverse f xs ≡ r
        → ((ys' : List B) → traverse f xs ≡ some ys' → All Q ys')
        → All Q ys
    at_head none e r er rest = absurd (ground arith)
    at_head (some y) e none er rest = absurd (ground arith)
    at_head (some y) e (some ys') er rest = ground (arith, keep x y k.0 e, rest ys' er)

All-reverse : {A : Type 0} (P : A → Type 0) (xs : List A) → All P xs → All P (reverse xs)
All-reverse P [] h = tt
All-reverse P (x ∷ xs) h =
    subst (All P) (sym (reverse-cons x xs))
      (All-append P (reverse xs) (x ∷ []) (All-reverse P xs h.1) (h.0, tt))

module _ (cipher : Cipher) where
  -- A row that a list shows: it reads a query of the table, of the caller's, a saved one where only
  -- these are asked for.
  abbrev pub OfOwn : CurrentUser → Bool → List Query → QueryRead → Type 0
  OfOwn current saved_only queries r =
      (q : Query) × Mem q queries
      × ((q.tenant_id ≡ current.tenant_id) × (q.user_id ≡ current.id))
      × (saved_if cipher saved_only q ≡ true)
      × (to_query_read cipher q ≡ some r)

  abbrev pub OfTurn : CurrentUser → ℕ → List Query → Text × Text → Type 0
  OfTurn current conversation_id queries t =
      (q : Query) × Mem q queries
      × (is_turn current conversation_id q ≡ true)
      × (turn cipher q ≡ some t)

  -- The turns of a thread with which a question is asked are all turns of the caller in that thread,
  -- answered ones, of rows of the table.
  pub load_history-OfTurn :
      (current : CurrentUser) (conversation_id limit : ℕ) (s : Session) (turns : List (Text × Text))
      → (load_history cipher current (some conversation_id) limit s).0 ≡ ok turns
      → All (OfTurn current conversation_id s.queries) turns
  unfolding load_history
  load_history-OfTurn current conversation_id limit s turns h =
      let P : Query → Type 0 = Selected (is_turn current conversation_id) s.queries in
      let rows = filter (is_turn current conversation_id) s.queries in
      let page = take limit (newest_first rows) in
      let Turn = OfTurn current conversation_id s.queries in
      elim (Option-cases (traverse (turn cipher) page)) [
        | inl unread ↦ absurd (ground arith)
        | inr (found, read) ↦
            let same : reverse found ≡ turns = ground arith in
            subst (All Turn) same (
              All-reverse Turn found (
                All-traverse P Turn (turn cipher) (λ q r p e. (q, p.1, p.0, e)) page found read
                  (All-take P limit (newest_first rows) (
                    All-sort_by P _ rows
                      (filter-Selected (is_turn current conversation_id) s.queries)))))
      ]
